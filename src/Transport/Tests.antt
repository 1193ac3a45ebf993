-- ===== src/Transport/Tests.antt =====
-- Two messages on one stream, and a client of one peer.
use peers_touch_go.Prelude.{
  ◌==◌, true, [], ◌∷◌, ◌++◌, Option, none, some, Str, codes, if◌then◌else◌, ◌≡◌, ◌≢◌, refl, arith,
}
use peers_touch_go.Prelude.Result.{err}
use peers_touch_go.Transport.Framing.{HeaderCodec, Message}
use peers_touch_go.Transport.Framing.RoundTrip.{write_all, ReadsAll, write_all-ReadsAll}
use peers_touch_go.Transport.Calls.{Libp2p, Transport, Codec, CallError, Request, call, open_stream}
use peers_touch_go.Transport.Calls.Addresses.{AddressesStart, call-fails}

-- A header is one text, in quotes.
abbrev unquote : Str → Option Str
unquote [] = none
unquote (c ∷ s) = some s

abbrev quoting : HeaderCodec Str
quoting = record { marshal = λ s. b'"' ∷ s; unmarshal = unquote; unmarshal-marshal = λ s. refl }

abbrev hello : Message Str
hello = record { header = codes "k"; body = codes "hello" }

abbrev silent : Message Str
silent = record { header = []; body = [] }

write_all-ReadsAll_example :
    ReadsAll quoting
      (write_all quoting (hello ∷ silent ∷ []) [] ++ codes "more")
      (hello ∷ silent ∷ [])
      (codes "more")
write_all-ReadsAll_example =
    write_all-ReadsAll quoting (hello ∷ silent ∷ []) (codes "more")
      ((omega arith, omega arith), ((omega arith, omega arith), tt))

abbrev slash_first : Str → Option Str
slash_first [] = none
slash_first (c ∷ s) = if c == b'/' then some (c ∷ s) else none

abbrev slash_not_first : Str → Option Str
slash_not_first [] = none
slash_not_first (c ∷ s) = if c == b'/' then none else some (c ∷ s)

abbrev one_peer : Libp2p
one_peer = record {
  parse_addr = slash_first;
  id_of_addr = λ a. some (codes "p");
  decode_id = slash_not_first;
  connects = λ id a. true;
  opens = λ id. true;
  host_addrs = [];
}

slash_first-starts : (s a : Str) → slash_first s ≡ some a → (t : Str) × (s ≡ b'/' ∷ t)
slash_first-starts [] a h = absurd (let z : Path (Option Str) none (some a) = h in cc)
slash_first-starts (c ∷ s) a h = (s, ground arith)

slash_not_first-starts : (s id t : Str) → slash_not_first s ≡ some id → s ≢ b'/' ∷ t
slash_not_first-starts [] id t h = λ e. cc
slash_not_first-starts (c ∷ s) id t h = λ e. ground arith

one_peer-AddressesStart : AddressesStart one_peer
one_peer-AddressesStart = (slash_first-starts, slash_not_first-starts)

abbrev ready_transport : Transport
ready_transport = record { initialized = true; has_host = true }

abbrev to_peer : Request
to_peer = record { service = codes "p"; content_type = codes "json" }

abbrev working : Codec
working = record { writes = true; reads_header = true; reads_body = true }

call-fails_test :
    (e : CallError) × (call one_peer ready_transport ((codes "json", working) ∷ []) to_peer ≡ err e)
    × (open_stream one_peer ready_transport ((codes "json", working) ∷ []) to_peer ≡ err e)
call-fails_test =
    call-fails one_peer one_peer-AddressesStart ready_transport ((codes "json", working) ∷ [])
      to_peer
