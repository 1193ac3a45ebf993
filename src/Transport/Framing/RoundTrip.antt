-- ===== src/Transport/Framing/RoundTrip.antt =====
-- station/frame/core/plugin/native/transport/transport.go: what is written is read back.
use peers_touch_go.Prelude.{
  ℕ, ◌+◌, ◌*◌, ◌/◌, ◌%◌, ◌^◌, ◌<◌, true, false, List, [], ◌∷◌, ◌++◌, append_assoc, append-nil, none,
  some, Str, ltb, length, length-append, take, drop, ◌≡◌, refl, sym, ◌∙◌, ap, arith,
}
use peers_touch_go.Prelude.Result.{ok}
use peers_touch_go.Transport.Framing.{
  HeaderCodec, Message, Writer, uint32, uint32_bytes, write_body, write_message, read_uint32,
  read_full, with_body, with_body_length, with_header, with_header_bytes, with_header_length,
  read_message,
}

-- A stream that takes every write.
abbrev pub appending : Writer Str
appending = record { put = λ b s. (true, s ++ b) }

uint32_read :
    (v : ℕ)
    → v < 2 ^ 32
    → v / 2 ^ 24 % 256 * 2 ^ 24 + (v / 2 ^ 16 % 256 * 2 ^ 16 + (v / 2 ^ 8 % 256 * 2 ^ 8 + v % 256))
      ≡ v
uint32_read v h = omega arith

take-append : (s t : Str) → take (length s) (s ++ t) ≡ s
take-append [] t = refl
take-append (x ∷ s) t = rw (take-append s t)

drop-length : (s t : Str) → drop (length s) (s ++ t) ≡ t
drop-length [] t = refl
drop-length (x ∷ s) t = drop-length s t

read_full-append : (s t : Str) → read_full (length s) (s ++ t) ≡ some (s, t)
read_full-append s t =
    let e : ltb (length (s ++ t)) (length s) ≡ false = ground (arith, length-append s t) in
    rw e (
      ap some (
        let z : Path (Str × Str) (take (length s) (s ++ t), drop (length s) (s ++ t)) (s, t) =
          rw (take-append s t) (rw (drop-length s t) refl) in
        z))

read_uint32-bytes :
    (n : ℕ) (t : Str) → n < 2 ^ 32 → read_uint32 (uint32_bytes (uint32 n) ++ t) ≡ some (n, t)
read_uint32-bytes n t h =
    let u : uint32 n ≡ n = omega arith in
    ap (λ v. some (v, t)) (uint32_read (uint32 n) (omega arith) ∙ u)

module _ {H : Type 0} (c : HeaderCodec H) where
  -- The bytes of a message on the stream.
  abbrev pub bytes_of : Message H → Str
  bytes_of m =
      uint32_bytes (uint32 (length (c.marshal m.header)))
      ++ (c.marshal m.header ++ (uint32_bytes (uint32 (length m.body)) ++ m.body))

  -- The lengths of the header and of the body have 32 bits.
  abbrev pub Fits : Message H → Type 0
  Fits m = (length (c.marshal m.header) < 2 ^ 32) × (length m.body < 2 ^ 32)

  write_body-bytes : (b s : Str) → write_body c appending b s ≡ (none, s ++ b)
  write_body-bytes [] s = ap (λ z. (none, z)) (sym (append-nil s))
  write_body-bytes (x ∷ b) s = refl

  write_message-bytes :
      (m : Message H) (s : Str) → write_message c appending m s ≡ (none, s ++ bytes_of m)
  unfolding write_message
  write_message-bytes m s =
      let a = uint32_bytes (uint32 (length (c.marshal m.header))) in
      let b = uint32_bytes (uint32 (length m.body)) in
      let h = c.marshal m.header in
      write_body-bytes m.body (((s ++ a) ++ h) ++ b)
      ∙ ap (λ z. (none, z))
          (append_assoc ((s ++ a) ++ h) b m.body
            ∙ append_assoc (s ++ a) h (b ++ m.body)
            ∙ append_assoc s a (h ++ (b ++ m.body)))

  read_message-bytes :
      (m : Message H) (rest : Str) → Fits m → read_message c (bytes_of m ++ rest) ≡ ok (m, rest)
  unfolding read_message
  read_message-bytes m rest (h, k) =
      let a = uint32_bytes (uint32 (length (c.marshal m.header))) in
      let b = uint32_bytes (uint32 (length m.body)) in
      let t = c.marshal m.header in
      ap (λ z. with_header_length c (read_uint32 (a ++ z)))
        (append_assoc t (b ++ m.body) rest ∙ ap (λ z. t ++ z) (append_assoc b m.body rest))
      ∙ ap (with_header_length c) (read_uint32-bytes (length t) (t ++ (b ++ (m.body ++ rest))) h)
      ∙ ap (with_header_bytes c) (read_full-append t (b ++ (m.body ++ rest)))
      ∙ ap (λ o. with_header c o (b ++ (m.body ++ rest))) (c.unmarshal-marshal m.header)
      ∙ ap (with_body_length c m.header) (read_uint32-bytes (length m.body) (m.body ++ rest) k)
      ∙ ap (with_body c m.header) (read_full-append m.body rest)

  abbrev pub AllFit : List (Message H) → Type 0
  AllFit [] = Unit
  AllFit (m ∷ ms) = Fits m × AllFit ms

  -- Messages written one after the other.
  abbrev pub write_all : List (Message H) → Str → Str
  unfolding write_message
  write_all [] s = s
  write_all (m ∷ ms) s = write_all ms (write_message c appending m s).1

  -- The messages are read off the stream one after the other, and `rest` is left.
  abbrev pub ReadsAll : Str → List (Message H) → Str → Type 0
  unfolding read_message
  ReadsAll s [] rest = s ≡ rest
  ReadsAll s (m ∷ ms) rest = (t : Str) × (read_message c s ≡ ok (m, t)) × ReadsAll t ms rest

  abbrev all_bytes : List (Message H) → Str
  all_bytes [] = []
  all_bytes (m ∷ ms) = bytes_of m ++ all_bytes ms

  write_all-bytes : (ms : List (Message H)) (s : Str) → write_all ms s ≡ s ++ all_bytes ms
  unfolding write_all
  write_all-bytes [] s = sym (append-nil s)
  write_all-bytes (m ∷ ms) s =
      let e : (write_message c appending m s).1 ≡ s ++ bytes_of m =
        ap (λ r. r.1) (write_message-bytes m s) in
      ap (write_all ms) e
      ∙ write_all-bytes ms (s ++ bytes_of m)
      ∙ append_assoc s (bytes_of m) (all_bytes ms)

  all_bytes-ReadsAll :
      (ms : List (Message H)) (rest : Str) → AllFit ms → ReadsAll (all_bytes ms ++ rest) ms rest
  unfolding ReadsAll
  all_bytes-ReadsAll [] rest f = refl
  all_bytes-ReadsAll (m ∷ ms) rest (h, f) = (
    all_bytes ms ++ rest,
    ap (read_message c) (append_assoc (bytes_of m) (all_bytes ms) rest)
        ∙ read_message-bytes m (all_bytes ms ++ rest) h,
    all_bytes-ReadsAll ms rest f,
  )

  -- Messages whose header and body have lengths of 32 bits, written one after the other to an empty
  -- stream, are read back one after the other as they were, and whatever follows them on the stream is left.
  pub write_all-ReadsAll :
      (ms : List (Message H)) (rest : Str) → AllFit ms → ReadsAll (write_all ms [] ++ rest) ms rest
  write_all-ReadsAll ms rest f = rw (write_all-bytes ms []) (all_bytes-ReadsAll ms rest f)
