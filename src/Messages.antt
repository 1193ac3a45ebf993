-- ===== src/Messages.antt =====
-- station/frame/touch: the rows of conversations, members, messages, receipts and attachments
-- (model/db), over tables of gorm. The columns that gorm fills are left out, and a time that is not set is
-- 0. Ids of rows are arguments of the functions that create them.
pub mod Services
pub mod Conversations
pub mod Listed
pub mod Epochs
pub mod Handlers
mod Tests
use peers_touch_go.Prelude.{ℕ, Bool, List, Option, Str, ◌==◌, if◌then◌else◌}
use peers_touch_go.Prelude.Int.{ℤ}
use peers_touch_go.Tables.{Table}

pub record Conversation : Type 0 where
  pub id : ℕ
  pub conv_id : Str
  pub kind : Str
  pub title : Str
  pub avatar_cid : Str
  pub policy : Str
  pub epoch : ℕ

-- `conv_pk` is the column `conv_id` of this table, a number.
pub record ConvMember : Type 0 where
  pub id : ℕ
  pub conv_pk : ℕ
  pub did : Str
  pub role : Str

pub record Message : Type 0 where
  pub id : ℕ
  pub ulid : Str
  pub conv_pk : ℕ
  pub conv_id : Str
  pub sender_did : Str
  pub ts : ℕ
  pub kind : Str
  pub parent_id : Str
  pub thread_id : Str
  pub content_cid : Str
  pub ttl_at : ℕ

pub record Receipt : Type 0 where
  pub id : ℕ
  pub msg_ulid : Str
  pub member_did : Str
  pub delivered_at : ℕ
  pub read_at : ℕ

pub record Attachment : Type 0 where
  pub cid : Str
  pub conv_id : Str
  pub msg_ulid : Str
  pub mime : Str
  pub bytes : ℤ
  pub digest : Str
  pub store : Str

pub data Error : Type 0 where
  no_database query_failed record_not_found bind_failed : Error

-- `BeforeCreate` of each: an id of 0 is replaced by the next one.
abbrev pub given_or_next : ℕ → ℕ → ℕ
given_or_next next_id id = if id == 0 then next_id else id

-- The database: whether `GetRDS` gives it, its tables, and the receipts to messages of a conversation
-- that are delivered after a time, which are found by a join.
pub record Database (S : Type 0) : Type 0 where
  pub connected : S → Bool
  pub conversations : Table S Conversation
  pub members : Table S ConvMember
  pub messages : Table S Message
  pub receipts : Table S Receipt
  pub receipts_after : Str → ℤ → S → Option (List Receipt)
  pub attachments : Table S Attachment
