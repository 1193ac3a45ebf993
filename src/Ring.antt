-- ===== src/Ring.antt =====
-- station/frame/core/util/ring/buffer.go: a buffer of the last `size` values with streaming readers.
-- Times are nanoseconds since the zero `time.Time`, so `IsZero` is a test for 0; the clock readings
-- of a call are arguments. A negative size is not modelled.
pub mod History
pub mod Streams
mod Tests
use peers_touch_go.Prelude.{
  ℕ, ◌+◌, ◌-◌, Bool, true, false, ◌||◌, List, [], ◌∷◌, ◌++◌, Option, none, some, Str, ltb, leb,
  ◌==◌, if◌then◌else◌, length, drop,
}
use peers_touch_go.Prelude.Dict.{Dict, put}
use peers_touch_go.Prelude.Int.{ℤ, pos, negsuc}

pub record Entry (V : Type 0) : Type 0 where
  pub value : V
  pub timestamp : ℕ

-- `entries` is what the channel of capacity 128 holds, oldest first; `stop` says that the reader
-- has closed the channel `Stop`, or waits to send on it.
pub record Stream (V : Type 0) : Type 0 where
  pub id : Str
  pub entries : List (Entry V)
  pub stop : Bool

pub record Buffer (V : Type 0) : Type 0 where
  pub size : ℕ
  pub vals : List (Entry V)
  pub streams : Dict (Stream V)

abbrev pub channel_capacity : ℕ
channel_capacity = 128

-- What the `select` of `Put` does with one stream.
pub data Delivery (V : Type 0) : Type 0 where
  sent : Stream V → Delivery V
  stopped : Delivery V
  blocked : Delivery V

module _ {V : Type 0} where
  unfoldable pub new : ℕ → Buffer V
  new i = record { size = i; vals = []; streams = [] }

  -- The append and the trim of `Put`.
  unfoldable pub push : ℕ → List (Entry V) → Entry V → List (Entry V)
  push size vals e =
      let grown = vals ++ e ∷ [] in if ltb size (length grown) then drop 1 grown else grown

  -- Where both cases of the `select` are ready, the runtime picks one: `prefer_stop`.
  unfoldable pub deliver : Bool → Stream V → Entry V → Delivery V
  deliver prefer_stop s e =
      if ltb (length s.entries) channel_capacity
      then (if s.stop
          then (if prefer_stop then stopped else sent (record s { entries = s.entries ++ e ∷ [] }))
          else sent (record s { entries = s.entries ++ e ∷ [] }))
      else if s.stop
      then stopped
      else blocked

  -- What the loop has made of the map, given what it made of the rest of it.
  abbrev pub keep_stream : Str → Delivery V → Option (Dict (Stream V)) → Option (Dict (Stream V))
  keep_stream k (sent s) none = none
  keep_stream k (sent s) (some rest) = some ((k, s) ∷ rest)
  keep_stream k stopped rest = rest
  keep_stream k blocked rest = none

  -- The loop over the streams. `none`: a send blocks, and `Put` waits with the lock held.
  unfoldable pub deliver_all : (Str → Bool) → Dict (Stream V) → Entry V → Option (Dict (Stream V))
  unfolding deliver
  deliver_all prefer [] e = some []
  deliver_all prefer ((k, s) ∷ m) e =
      keep_stream k (deliver (prefer k) s e) (deliver_all prefer m e)

  abbrev pub with_streams : Buffer V → List (Entry V) → Option (Dict (Stream V)) → Option (Buffer V)
  with_streams b vs none = none
  with_streams b vs (some m) = some (record b { vals = vs; streams = m })

  unfoldable pub put_value : (Str → Bool) → ℕ → Buffer V → V → Option (Buffer V)
  unfolding push deliver_all
  put_value prefer now b v =
      let e : Entry V = record { value = v; timestamp = now } in
      with_streams b (push b.size b.vals e) (deliver_all prefer b.streams e)

  abbrev pub get_last : ℕ → List (Entry V) → List (Entry V)
  get_last n vals =
      let n' = if ltb (length vals) n then length vals else n in drop (length vals - n') vals

  unfoldable pub get : Buffer V → ℤ → List (Entry V)
  get b (pos n) = get_last n b.vals
  get b (negsuc n) = get_last (length b.vals) b.vals

  -- The loop of `Since`.
  unfoldable pub since_from : ℕ → List (Entry V) → List (Entry V)
  since_from t [] = []
  since_from t (e ∷ es) = if ltb t e.timestamp then e ∷ es else since_from t es

  unfoldable pub since : Buffer V → ℕ → ℕ → List (Entry V)
  unfolding since_from
  since b now t = if t == 0 then b.vals else if ltb now t then [] else since_from t b.vals

  -- `id` is the fresh UUID.
  unfoldable pub open_stream : Str → Buffer V → Buffer V
  unfolding put
  open_stream id b = record b {
    streams = put id (record { id = id; entries = []; stop = false }) b.streams;
  }

  -- Values put one after another, each with the clock's reading.
  unfoldable pub put_all : (Str → Bool) → Buffer V → List (Entry V) → Option (Buffer V)
  unfolding put_value
  put_all prefer b [] = some b
  put_all prefer b (e ∷ es) = elim (put_value prefer e.timestamp b e.value) [
    | none ↦ none
    | some b' ↦ put_all prefer b' es
  ]
