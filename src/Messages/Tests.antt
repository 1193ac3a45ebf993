-- ===== src/Messages/Tests.antt =====
-- Conversations over tables that are lists.
use peers_touch_go.Prelude.{
  ℕ, length, true, List, [], ◌∷◌, none, some, Str, codes, str_eq, keep, any, ◌≡◌, refl, ◌==◌,
}
use peers_touch_go.Prelude.Int.{pos, negsuc}
use peers_touch_go.Prelude.Result.{ok}
use peers_touch_go.Prelude.Text.{atoi, unsigned, digits}
use peers_touch_go.Tables.{Laws, All, IsSorted, not}
use peers_touch_go.Tables.Lists.{
  list_table, list_table-Laws, on_first, on_second, on_first-Laws, on_second-Laws,
}
use peers_touch_go.Tables.Sorting.{sort, insert}
use peers_touch_go.Messages.{Conversation, ConvMember, Message, Receipt, Attachment, Database}
use peers_touch_go.Messages.Services.{
  AppendReq, next_epoch, get_conversation, key_rotate, add_members, remove_members, add_member,
  remove_member, append, list,
}
use peers_touch_go.Messages.Conversations.{same_member, among, remove_members-add_members}
use peers_touch_go.Messages.Listed.{
  same_message, IsLater, listed_number, later_in, list_lem, list-append,
}
use peers_touch_go.Messages.Epochs.{same_conversation}
use peers_touch_go.Messages.Handlers.{list_messages}

abbrev Rows : Type 0
Rows = List Conversation × (List ConvMember × (List Message × (List Receipt × List Attachment)))

abbrev rows : Database Rows
unfolding keep
rows = record {
  connected = λ s. true;
  conversations = on_first (list_table same_conversation);
  members = on_second (on_first (list_table same_member));
  messages = on_second (on_second (on_first (list_table same_message)));
  receipts = on_second (on_second (on_second (on_first (list_table (λ a b. a.id == b.id)))));
  receipts_after = λ conv_id after s. some s.1.1.1.0;
  attachments =
      on_second (on_second (on_second (on_second (list_table (λ a b. str_eq a.cid b.cid)))));
}

abbrev members-Laws : Laws rows.members same_member
unfolding keep
members-Laws =
    on_second-Laws (on_first (list_table same_member)) same_member
      (on_first-Laws (list_table same_member) same_member (list_table-Laws same_member))

abbrev messages-Laws : Laws rows.messages same_message
unfolding keep
messages-Laws = on_second-Laws (on_second (on_first (list_table same_message))) same_message (
    on_second-Laws (on_first (list_table same_message)) same_message
      (on_first-Laws (list_table same_message) same_message (list_table-Laws same_message)))

abbrev conversation : Conversation
conversation = record {
  id = 1;
  conv_id = codes "c";
  kind = [];
  title = [];
  avatar_cid = [];
  policy = [];
  epoch = 4;
}

abbrev member : ℕ → Str → ConvMember
member i did = record { id = i; conv_pk = 1; did = did; role = codes "admin" }

abbrev message : ℕ → Str → Message
message ts ulid = record {
  id = ts;
  ulid = ulid;
  conv_pk = 0;
  conv_id = codes "c";
  sender_did = [];
  ts = ts;
  kind = [];
  parent_id = [];
  thread_id = [];
  content_cid = [];
  ttl_at = 0;
}

abbrev request : AppendReq
request = record {
  ulid = codes "u";
  conv_id = codes "c";
  sender_did = [];
  ts = 7;
  kind = [];
  parent_id = [];
  thread_id = [];
  content_cid = [];
  ttl_millis = pos 0;
}

abbrev state : List Conversation → List ConvMember → List Message → Rows
state cs ms l = (cs, (ms, (l, ([], []))))

abbrev before : Rows
before =
    state (conversation ∷ []) (member 1 (codes "a") ∷ member 2 (codes "b") ∷ [])
      (message 9 (codes "w") ∷ [])

abbrev both : List (Str × ℕ)
both = (codes "b", 3) ∷ (codes "d", 4) ∷ []

abbrev with_both : Rows
with_both =
    state (conversation ∷ [])
      (member 4 (codes "d")
        ∷ member 3 (codes "b")
        ∷ member 1 (codes "a")
        ∷ member 2 (codes "b")
        ∷ [])
      (message 9 (codes "w") ∷ [])

abbrev without : Rows
without = state (conversation ∷ []) (member 1 (codes "a") ∷ []) (message 9 (codes "w") ∷ [])

added : add_members rows 1 (codes "admin") both before ≡ (none, with_both)
unfolding add_members add_member keep
added = refl

removed : remove_members rows 1 (codes "b" ∷ codes "d" ∷ []) with_both ≡ (none, without)
unfolding remove_members remove_member keep str_eq
removed = refl

remove_members-add_members_example :
    (keep (among 1 (codes "b" ∷ codes "d" ∷ [])) (members-Laws.rows without) ≡ [])
    × (keep (λ m. not (among 1 (codes "b" ∷ codes "d" ∷ []) m)) (members-Laws.rows without)
        ≡ keep (λ m. not (among 1 (codes "b" ∷ codes "d" ∷ []) m)) (members-Laws.rows before))
remove_members-add_members_example =
    remove_members-add_members rows members-Laws 1 (codes "admin") both before with_both without
      added removed

abbrev with_message : Rows
with_message =
    state (conversation ∷ []) (member 1 (codes "a") ∷ member 2 (codes "b") ∷ [])
      (message 7 (codes "u") ∷ message 9 (codes "w") ∷ [])

abbrev appended : Message
appended = message 7 (codes "u")

message_appended : append rows request 7 before ≡ (ok appended, with_message)
unfolding append keep
message_appended = refl

abbrev listed : List Message
listed = message 7 (codes "u") ∷ message 9 (codes "w") ∷ []

messages_listed : list rows (codes "c") (negsuc 0) (pos 0) with_message ≡ ok listed
unfolding list keep sort insert str_eq
messages_listed = refl

one_listed : list rows (codes "c") (pos 3) (pos 1) with_message ≡ ok (message 7 (codes "u") ∷ [])
unfolding list keep sort insert str_eq
one_listed = refl

malformed_limit : list_messages rows (codes "c") (codes "x") (codes "1x") with_message ≡ ok listed
unfolding list_messages list keep sort insert str_eq atoi unsigned digits
malformed_limit = refl

list-append_example : any (λ x. str_eq x.ulid (codes "u")) listed ≡ true
list-append_example =
    list-append rows messages-Laws request 7 before with_message appended (negsuc 0) (pos 0) listed
      message_appended refl refl messages_listed

list_lem_example :
    All (λ m. (m.conv_id ≡ codes "c") × IsLater (pos 3) m.ts) (message 7 (codes "u") ∷ [])
    × IsSorted (λ (m : Message). m.ts) (message 7 (codes "u") ∷ [])
    × (◌≡◌ {A = ℕ} 1 (
        listed_number
          (pos 1)
          (length (keep (later_in (codes "c") (pos 3)) (messages-Laws.rows with_message)))))
list_lem_example =
    list_lem rows messages-Laws (codes "c") (pos 3) (pos 1) with_message
      (message 7 (codes "u") ∷ []) one_listed

abbrev rotated : Rows
rotated =
    state (next_epoch conversation ∷ []) (member 1 (codes "a") ∷ member 2 (codes "b") ∷ [])
      (message 9 (codes "w") ∷ [])

conversation_found : get_conversation rows (codes "c") before ≡ ok conversation
unfolding get_conversation keep str_eq
conversation_found = refl

key_rotated : key_rotate rows (codes "c") before ≡ (none, rotated)
unfolding key_rotate keep str_eq
key_rotated = refl

conversation_found_again : get_conversation rows (codes "c") rotated ≡ ok (next_epoch conversation)
unfolding get_conversation keep str_eq
conversation_found_again = refl
