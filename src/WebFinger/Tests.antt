-- ===== src/WebFinger/Tests.antt =====
-- The account ada@example.org.
use peers_touch_go.Prelude.{◌≡◌, refl, Bool, true, List, [], ◌∷◌, ◌++◌, Str, codes, str_eq, keep}
use peers_touch_go.Prelude.Text.{split, trim_space, trim_left, has_prefix, cut}
use peers_touch_go.WebFinger.Discovery.{requested_rels, is_local_domain}
use peers_touch_go.Prelude.Result.{ok}
use peers_touch_go.WebFinger.{parse_actor_discovery_request, WebFingerLink}
use peers_touch_go.WebFinger.Accounts.{account, IsAccount, parse-account}

abbrev any_url : Str → Bool
any_url s = true

ada-IsAccount : IsAccount any_url (codes "ada") (codes "example.org")
ada-IsAccount = record {
  user_given = λ e. cc;
  domain_given = λ e. cc;
  user_at = refl;
  user_colon = refl;
  domain_at = refl;
  domain_colon = refl;
  domain_ok = refl;
}

parse-account_example :
    parse_actor_discovery_request any_url
      (codes "acct:" ++ account (codes "ada") (codes "example.org"))
      []
    ≡ ok (record {
      resource = codes "acct:" ++ account (codes "ada") (codes "example.org");
      domain = codes "example.org";
      username = codes "ada";
      requested_rels = [];
    })
parse-account_example = parse-account any_url (codes "ada") (codes "example.org") ada-IsAccount []

abbrev links_of : List Str → List WebFingerLink
links_of [] = []
links_of (r ∷ l) = record { rel = r; media_type = []; href = r } ∷ links_of l

rels_asked_for : requested_rels (codes "self, ,inbox") ≡ codes "self" ∷ codes "inbox" ∷ []
unfolding requested_rels split trim_space trim_left keep
rels_asked_for = refl

local : is_local_domain str_eq (codes "https://ex.org:8080/a") (codes "ex.org") ≡ true
unfolding is_local_domain has_prefix cut str_eq
local = refl
