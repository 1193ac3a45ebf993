-- ===== src/Transport/Framing.antt =====
-- station/frame/core/plugin/native/transport/transport.go: writing and reading of a message. A stream that
-- is read is its bytes, each below 256; of one that is written each write may fail.
pub mod RoundTrip
use peers_touch_go.Prelude.{
  ℕ, ◌+◌, ◌*◌, ◌/◌, ◌%◌, ◌^◌, Bool, true, false, List, [], ◌∷◌, ◌++◌, Option, none, some, Str, ltb,
  ◌==◌, if◌then◌else◌, length, take, drop, ◌≡◌,
}
use peers_touch_go.Prelude.Result.{Result, ok, err}

-- `H`: maps from text to text. What is marshalled is read back.
pub record HeaderCodec (H : Type 0) : Type 0 where
  pub marshal : H → Str
  pub unmarshal : Str → Option H
  pub unmarshal-marshal : (h : H) → unmarshal (marshal h) ≡ some h

pub record Message (H : Type 0) : Type 0 where
  pub header : H
  pub body : Str

-- The steps that fail.
pub data Error : Type 0 where
  header_length header_bytes header_parse body_length body_bytes : Error

-- A write that succeeds or not.
pub record Writer (W : Type 0) : Type 0 where
  pub put : Str → W → Bool × W

abbrev pub uint32 : ℕ → ℕ
uint32 n = n % 2 ^ 32

-- The high byte first.
abbrev pub uint32_bytes : ℕ → Str
uint32_bytes v = (v / 2 ^ 24 % 256) ∷ (v / 2 ^ 16 % 256) ∷ (v / 2 ^ 8 % 256) ∷ (v % 256) ∷ []

module _ {H W : Type 0} (c : HeaderCodec H) (w : Writer W) where
  abbrev pub write_or : Error → Bool × W → (W → Option Error × W) → Option Error × W
  write_or e (false, s) next = (some e, s)
  write_or e (true, s) next = next s

  -- An empty body is not written.
  abbrev pub write_body : Str → W → Option Error × W
  write_body [] s = (none, s)
  write_body (x ∷ body) s = write_or body_bytes (w.put (x ∷ body) s) (λ t. (none, t))

  unfoldable pub write_message : Message H → W → Option Error × W
  write_message m s =
      let header = c.marshal m.header in
      write_or header_length (w.put (uint32_bytes (uint32 (length header))) s) (λ t.
        write_or header_bytes (w.put header t) (λ u.
          write_or body_length (w.put (uint32_bytes (uint32 (length m.body))) u)
            (λ v. write_body m.body v)))

abbrev pub read_uint32 : Str → Option (ℕ × Str)
read_uint32 (a ∷ b ∷ c ∷ d ∷ s) = some (a * 2 ^ 24 + (b * 2 ^ 16 + (c * 2 ^ 8 + d)), s)
read_uint32 _ = none

-- `io.ReadFull` of that many bytes.
abbrev pub read_full : ℕ → Str → Option (Str × Str)
read_full n s = if ltb (length s) n then none else some (take n s, drop n s)

module _ {H : Type 0} (c : HeaderCodec H) where
  abbrev pub with_body : H → Option (Str × Str) → Result Error (Message H × Str)
  with_body h none = err body_bytes
  with_body h (some (body, rest)) = ok (record { header = h; body = body }, rest)

  abbrev pub with_body_length : H → Option (ℕ × Str) → Result Error (Message H × Str)
  with_body_length h none = err body_length
  with_body_length h (some (n, s)) = with_body h (read_full n s)

  abbrev pub with_header : Option H → Str → Result Error (Message H × Str)
  with_header none s = err header_parse
  with_header (some h) s = with_body_length h (read_uint32 s)

  abbrev pub with_header_bytes : Option (Str × Str) → Result Error (Message H × Str)
  with_header_bytes none = err header_bytes
  with_header_bytes (some (b, s)) = with_header (c.unmarshal b) s

  abbrev pub with_header_length : Option (ℕ × Str) → Result Error (Message H × Str)
  with_header_length none = err header_length
  with_header_length (some (n, s)) = with_header_bytes (read_full n s)

  -- The message and what is left of the stream.
  unfoldable pub read_message : Str → Result Error (Message H × Str)
  read_message s = with_header_length (read_uint32 s)
