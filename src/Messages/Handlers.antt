-- ===== src/Messages/Handlers.antt =====
-- station/frame/touch/message_handler.go: the handlers, each over the services. A value is the answer 200
-- with it, an error the answer 400. The parameters of a body are none where they cannot be bound. The
-- handlers without a service answer the same whatever the request.
use peers_touch_go.Prelude.{ℕ, Bool, true, List, [], Option, none, some, Str}
use peers_touch_go.Prelude.Int.{ℤ, pos}
use peers_touch_go.Prelude.Result.{Result, ok, err, ◌>>=◌}
use peers_touch_go.Prelude.Text.{atoi}
use peers_touch_go.Messages.{
  Conversation, ConvMember, Message, Receipt, Attachment, Error, bind_failed, Database,
}
use peers_touch_go.Messages.Services.{
  CreateConvReq, PostReceiptReq, and_then, create_conversation, get_conversation, key_rotate,
  members, add_members, remove_members, append, list, post_receipt, list_receipts, save_attachment,
  get_attachment,
}

-- A query that is not there is the empty text.
abbrev pub or_zero : Option ℤ → ℤ
or_zero none = pos 0
or_zero (some n) = n

abbrev pub query_int : Str → ℤ
query_int s = or_zero (atoi s)

pub record UpdateMembers : Type 0 where
  pub conv_pk : ℕ
  pub add : List (Str × ℕ)
  pub remove : List Str
  pub role : Str

-- The body of a message, and of an attachment: the rest is in the path, the query and the clock.
pub record MessageBody : Type 0 where
  pub ulid : Str
  pub sender_did : Str
  pub kind : Str
  pub parent_id : Str
  pub thread_id : Str
  pub content_cid : Str
  pub ttl_millis : ℤ

pub record AttachmentBody : Type 0 where
  pub cid : Str
  pub mime : Str
  pub bytes : ℤ
  pub digest : Str
  pub store : Str

module _ {S : Type 0} (d : Database S) where
  -- `{"ok": true}`, or the error.
  abbrev pub answer : {A : Type 0} → A → Option Error × S → Result Error A × S
  answer a (none, s) = (ok a, s)
  answer a (some e, s) = (err e, s)

  unfoldable pub create_conv : Option CreateConvReq → ℕ → S → Result Error Conversation × S
  create_conv none next_id s = (err bind_failed, s)
  create_conv (some q) next_id s = create_conversation d q next_id s

  abbrev pub get_conv : Str → S → Result Error Conversation
  get_conv id s = get_conversation d id s

  unfoldable pub get_conv_state : Str → S → Result Error ℕ
  get_conv_state id s = get_conversation d id s >>= λ c. ok c.epoch

  -- Each loop is made only over a list that is not empty.
  unfoldable pub update_members : Option UpdateMembers → S → Result Error Bool × S
  update_members none s = (err bind_failed, s)
  update_members (some p) s =
      answer true
        (and_then d (add_members d p.conv_pk p.role p.add s) (remove_members d p.conv_pk p.remove))

  unfoldable pub get_members : Option ℕ → S → Result Error (List ConvMember)
  get_members none s = err bind_failed
  get_members (some conv_pk) s = members d conv_pk s

  unfoldable pub key_rotate_handler : Str → S → Result Error Bool × S
  key_rotate_handler id s = answer true (key_rotate d id s)

  unfoldable pub append_message : Str → Option MessageBody → ℕ → ℕ → S → Result Error Message × S
  append_message conv_id none now next_id s = (err bind_failed, s)
  append_message conv_id (some p) now next_id s =
      append d
        (record {
          ulid = p.ulid;
          conv_id = conv_id;
          sender_did = p.sender_did;
          ts = now;
          kind = p.kind;
          parent_id = p.parent_id;
          thread_id = p.thread_id;
          content_cid = p.content_cid;
          ttl_millis = p.ttl_millis;
        })
        next_id s

  unfoldable pub list_messages : Str → Str → Str → S → Result Error (List Message)
  list_messages conv_id after limit s = list d conv_id (query_int after) (query_int limit) s

  unfoldable pub post_receipt_handler :
      Option PostReceiptReq → ℕ → ℕ → ℕ → S → Result Error Receipt × S
  post_receipt_handler none delivered_now read_now next_id s = (err bind_failed, s)
  post_receipt_handler (some q) delivered_now read_now next_id s =
      post_receipt d q delivered_now read_now next_id s

  unfoldable pub get_receipts : Str → Str → S → Result Error (List Receipt)
  get_receipts conv_id after s = list_receipts d conv_id (query_int after) s

  unfoldable pub post_attachment :
      Str → Str → Option AttachmentBody → S → Result Error Attachment × S
  post_attachment conv_id msg_ulid none s = (err bind_failed, s)
  post_attachment conv_id msg_ulid (some p) s =
      let a : Attachment = record {
        cid = p.cid;
        conv_id = conv_id;
        msg_ulid = msg_ulid;
        mime = p.mime;
        bytes = p.bytes;
        digest = p.digest;
        store = p.store;
      } in
      answer a (save_attachment d a s)

  abbrev pub get_attachment_handler : Str → S → Result Error Attachment
  get_attachment_handler cid s = get_attachment d cid s

abbrev pub stream_messages : Result Error Bool
stream_messages = ok true

abbrev pub search_messages : Result Error (List Message)
search_messages = ok []

abbrev pub get_snapshot : Result Error Bool
get_snapshot = ok true

abbrev pub post_snapshot : Result Error Bool
post_snapshot = ok true
