-- ===== src/Social/Tests.antt =====
-- Collections of texts, standing for those of the vendored library.
use mathlib.Core.Bool.{false≢true}
use mathlib.Core.List.{Mem, not-mem-nil}
use peers_touch_go.Prelude.{
  ℕ, ◌≡◌, ◌≢◌, refl, Bool, true, false, List, [], ◌∷◌, ◌++◌, Option, none, some, Str, codes, str_eq,
  str_eq_iff, str_eq_refl, any, arith, if◌then◌else◌, length,
}
use peers_touch_go.Prelude.Result.{Result, ok}
use peers_touch_go.Social.{Collections, add_member, remove_member, unchanged}
use peers_touch_go.Social.Following.{FollowingListener, Following, listener_id}
use peers_touch_go.Social.Membership.{is_member, add_member_again, items-remove-add}
use peers_touch_go.Social.Box.{Box}

abbrev has_text : List Str → Str → Bool
has_text xs x = any (λ y. str_eq y x) xs

abbrev append_text : List Str → Str → Result Str (List Str)
append_text xs x = if has_text xs x then ok xs else ok (xs ++ x ∷ [])

append_text-new :
    (xs : List Str) (x : Str) → has_text xs x ≡ false → append_text xs x ≡ ok (xs ++ x ∷ [])
append_text-new xs x h = rw h

abbrev texts : Collections
texts = record {
  Item = Str;
  Error = Str;
  iri = λ s. s;
  as_iri = λ s. some s;
  items_equal = λ x y. str_eq x y;
  contains = has_text;
  append = append_text;
  count = length;
  as_iri-iri = λ s. refl;
  items_equal_refl = str_eq_refl;
  contains-any = λ xs x. refl;
  count-length = λ xs. refl;
  append-new = append_text-new;
}

-- One listener that fails when ada is followed.
abbrev listener : ℕ → FollowingListener texts
listener n = record {
  identity = n;
  on_follow = λ a. if str_eq a (codes "ada") then some (codes "no") else none;
  on_unfollow = λ a. none;
}

abbrev following : Following texts
following = record { items = codes "bob" ∷ []; listeners = listener 1 ∷ listener 2 ∷ [] }

abbrev follow_call : Str → FollowingListener texts → Option Str
follow_call a l = l.on_follow a

add_member_again_test :
    let f = (add_member texts (listener_id texts) follow_call (codes "ada") following).after in
    add_member texts (listener_id texts) follow_call (codes "ada") f
    ≡ unchanged texts (listener_id texts) f
add_member_again_test =
    add_member_again texts (listener_id texts) follow_call (codes "ada") following

not_ada : codes "bob" ≢ codes "ada"
unfolding str_eq
not_ada e = false≢true ((str_eq_iff (codes "bob") (codes "ada")).1 e)

bob_is_apart :
    (x : Str)
    → texts.items_equal x (texts.iri (codes "bob")) ≡ true
    → texts.items_equal x (texts.iri (codes "ada")) ≡ false
bob_is_apart x h =
    let n = not_ada in ground (arith, str_eq_iff x (codes "bob"), str_eq_iff x (codes "ada"))

ada_is_new : is_member texts (listener_id texts) (codes "ada") following ≡ false
unfolding any str_eq
ada_is_new = refl

items-remove-add_example :
    (remove_member texts
      (listener_id texts)
      follow_call
      (codes "ada")
      (add_member texts (listener_id texts) follow_call (codes "ada") following).after).after.items
    ≡ following.items
items-remove-add_example =
    items-remove-add texts (listener_id texts) follow_call follow_call (codes "ada") following
      ada_is_new

no_one_before : (x : FollowingListener texts) → Mem x [] → follow_call (codes "ada") x ≡ none
no_one_before x m = absurd (not-mem-nil m)

first_fails : follow_call (codes "ada") (listener 1) ≡ some (codes "no")
unfolding str_eq
first_fails = refl

-- Activities are their ids here.
abbrev own_id : Str → Str
own_id a = a

abbrev three : Box Str own_id
three = record { ordered_items = codes "c" ∷ codes "b" ∷ codes "a" ∷ []; total_items = 3 }

none_before : (x : Str) → Mem x [] → str_eq (own_id x) (codes "c") ≡ false
none_before x m = absurd (not-mem-nil m)

c_is_c : str_eq (own_id (codes "c")) (codes "c") ≡ true
c_is_c = str_eq_refl (codes "c")
