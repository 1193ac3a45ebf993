-- ===== src/Messages/Services.antt =====
-- station/frame/touch/message: the repositories and the services over them, each of which passes a call
-- on. A call gives a value or an error, with the database after it.
use peers_touch_go.Prelude.{
  ℕ, ◌+◌, Bool, true, false, ◌&&◌, List, [], ◌∷◌, Option, none, some, Str, str_eq, ltb, ◌==◌,
  if◌then◌else◌,
}
use peers_touch_go.Prelude.Int.{ℤ, pos, negsuc}
use peers_touch_go.Prelude.Result.{Result, ok, err}
use peers_touch_go.Tables.{First, found, not_found, failed}
use peers_touch_go.Messages.{
  Conversation, ConvMember, Message, Receipt, Attachment, Error, no_database, query_failed,
  record_not_found, given_or_next, Database,
}

abbrev pub of_first : {R : Type 0} → First R → Result Error R
of_first (found r) = ok r
of_first not_found = err record_not_found
of_first failed = err query_failed

abbrev pub of_find : {R : Type 0} → Option (List R) → Result Error (List R)
of_find (some l) = ok l
of_find none = err query_failed

-- The error of a statement, if any.
abbrev pub of_write : {S : Type 0} → Bool × S → Option Error × S
of_write (true, s) = (none, s)
of_write (false, s) = (some query_failed, s)

abbrev pub of_delete : {S : Type 0} → Option ℕ × S → Option Error × S
of_delete (some n, s) = (none, s)
of_delete (none, s) = (some query_failed, s)

-- `if err != nil { return nil, err }; return v, nil`
abbrev pub giving : {S A : Type 0} → A → Option Error × S → Result Error A × S
giving a (none, s) = (ok a, s)
giving a (some e, s) = (err e, s)

pub record CreateConvReq : Type 0 where
  pub conv_id : Str
  pub kind : Str
  pub title : Str
  pub avatar_cid : Str
  pub policy : Str

pub record AppendReq : Type 0 where
  pub ulid : Str
  pub conv_id : Str
  pub sender_did : Str
  pub ts : ℕ
  pub kind : Str
  pub parent_id : Str
  pub thread_id : Str
  pub content_cid : Str
  pub ttl_millis : ℤ

pub record PostReceiptReq : Type 0 where
  pub msg_ulid : Str
  pub member_did : Str
  pub delivered : Bool
  pub read : Bool

-- `ts > after`
abbrev pub is_after : ℤ → ℕ → Bool
is_after (pos a) t = ltb a t
is_after (negsuc a) t = true

-- `time.UnixMilli(ttl)` of a positive number, and else the zero time.
abbrev pub ttl_at : ℤ → ℕ
ttl_at (pos n) = n
ttl_at (negsuc n) = 0

abbrev pub positive : ℤ → Option ℕ
positive (pos n) = if ltb 0 n then some n else none
positive (negsuc n) = none

abbrev pub of_conversation : Str → Conversation → Bool
of_conversation conv_id c = str_eq c.conv_id conv_id

abbrev pub is_member : ℕ → Str → ConvMember → Bool
is_member conv_pk did m = m.conv_pk == conv_pk && str_eq m.did did

abbrev pub is_listed : Str → ℤ → Message → Bool
is_listed conv_id after m = str_eq m.conv_id conv_id && is_after after m.ts

abbrev pub next_epoch : Conversation → Conversation
next_epoch c = record c { epoch = c.epoch + 1 }

abbrev pub message_of : AppendReq → ℕ → Message
message_of q next_id = record {
  id = given_or_next next_id 0;
  ulid = q.ulid;
  conv_pk = 0;
  conv_id = q.conv_id;
  sender_did = q.sender_did;
  ts = q.ts;
  kind = q.kind;
  parent_id = q.parent_id;
  thread_id = q.thread_id;
  content_cid = q.content_cid;
  ttl_at = ttl_at q.ttl_millis;
}

module _ {S : Type 0} (d : Database S) where
  abbrev pub with_database : {A : Type 0} → S → Result Error A → Result Error A
  with_database s r = if d.connected s then r else err no_database

  -- ConversationRepo and ConversationService
  unfoldable pub create_conversation : CreateConvReq → ℕ → S → Result Error Conversation × S
  create_conversation q next_id s =
      let c : Conversation = record {
        id = given_or_next next_id 0;
        conv_id = q.conv_id;
        kind = q.kind;
        title = q.title;
        avatar_cid = q.avatar_cid;
        policy = q.policy;
        epoch = 0;
      } in
      if d.connected s
      then giving c (of_write (d.conversations.create c s))
      else (err no_database, s)

  unfoldable pub get_conversation : Str → S → Result Error Conversation
  unfolding str_eq
  get_conversation conv_id s =
      with_database s (of_first (d.conversations.first (of_conversation conv_id) s))

  unfoldable pub key_rotate : Str → S → Option Error × S
  unfolding str_eq
  key_rotate conv_id s =
      if d.connected s
      then of_write (d.conversations.update (of_conversation conv_id) next_epoch s)
      else (some no_database, s)

  -- MemberRepo and the members of a ConversationService
  unfoldable pub members : ℕ → S → Result Error (List ConvMember)
  members conv_pk s = with_database s (of_find (d.members.find (λ m. m.conv_pk == conv_pk) s))

  unfoldable pub add_member : ℕ → Str → Str → ℕ → S → Option Error × S
  add_member conv_pk did role next_id s =
      if d.connected s
      then of_write (
          d.members.create
            (record { id = given_or_next next_id 0; conv_pk = conv_pk; did = did; role = role }) s)
      else (some no_database, s)

  unfoldable pub remove_member : ℕ → Str → S → Option Error × S
  unfolding str_eq
  remove_member conv_pk did s =
      if d.connected s
      then of_delete (d.members.delete (is_member conv_pk did) s)
      else (some no_database, s)

  -- The loops stop at the first error; what was written before stays.
  abbrev pub and_then : Option Error × S → (S → Option Error × S) → Option Error × S
  and_then (some e, s) next = (some e, s)
  and_then (none, s) next = next s

  -- Each member comes with the id that its row gets.
  unfoldable pub add_members : ℕ → Str → List (Str × ℕ) → S → Option Error × S
  unfolding add_member
  add_members conv_pk role [] s = (none, s)
  add_members conv_pk role ((did, i) ∷ l) s =
      and_then (add_member conv_pk did role i s) (add_members conv_pk role l)

  unfoldable pub remove_members : ℕ → List Str → S → Option Error × S
  unfolding remove_member
  remove_members conv_pk [] s = (none, s)
  remove_members conv_pk (did ∷ l) s =
      and_then (remove_member conv_pk did s) (remove_members conv_pk l)

  -- MessageRepo and MessageService
  unfoldable pub append : AppendReq → ℕ → S → Result Error Message × S
  append q next_id s =
      if d.connected s
      then giving (message_of q next_id) (of_write (d.messages.create (message_of q next_id) s))
      else (err no_database, s)

  unfoldable pub list : Str → ℤ → ℤ → S → Result Error (List Message)
  unfolding str_eq
  list conv_id after limit s =
      with_database s
        (of_find (d.messages.find_sorted (is_listed conv_id after) (λ m. m.ts) (positive limit) s))

  -- ReceiptRepo.Add and ReceiptService.Post; the clock is read once for each of the two times.
  unfoldable pub post_receipt : PostReceiptReq → ℕ → ℕ → ℕ → S → Result Error Receipt × S
  post_receipt q delivered_now read_now next_id s =
      let r : Receipt = record {
        id = given_or_next next_id 0;
        msg_ulid = q.msg_ulid;
        member_did = q.member_did;
        delivered_at = if q.delivered then delivered_now else 0;
        read_at = if q.read then read_now else 0;
      } in
      if d.connected s then giving r (of_write (d.receipts.create r s)) else (err no_database, s)

  abbrev pub list_receipts : Str → ℤ → S → Result Error (List Receipt)
  list_receipts conv_id after s = with_database s (of_find (d.receipts_after conv_id after s))

  -- AttachmentRepo and AttachmentService
  unfoldable pub save_attachment : Attachment → S → Option Error × S
  save_attachment a s =
      if d.connected s then of_write (d.attachments.create a s) else (some no_database, s)

  unfoldable pub get_attachment : Str → S → Result Error Attachment
  unfolding str_eq
  get_attachment cid s = with_database s (of_first (d.attachments.first (λ a. str_eq a.cid cid) s))
