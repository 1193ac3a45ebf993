-- ===== src/Transport/Calls.antt =====
-- station/frame/core/plugin/native: Dial and Listen of transport/transport.go, and Call and the opening of
-- a Stream of client/client.go. Timeouts are left out.
pub mod Addresses
use peers_touch_go.Prelude.{
  ℕ, Bool, true, false, ◌&&◌, List, [], ◌∷◌, Option, none, some, Str, str_eq, any, if◌then◌else◌,
  ◌≡◌,
}
use peers_touch_go.Prelude.Dict
use peers_touch_go.Prelude.Dict.{Dict}
use peers_touch_go.Prelude.Result.{Result, ok, err, ◌>>=◌}

-- What libp2p answers: the multiaddr of a text, the peer id that a multiaddr ends in, the id of a text,
-- whether the host connects, and whether it opens a stream.
pub record Libp2p : Type 0 where
  pub parse_addr : Str → Option Str
  pub id_of_addr : Str → Option Str
  pub decode_id : Str → Option Str
  pub connects : Str → Str → Bool
  pub opens : Str → Bool
  pub host_addrs : List Str

-- `initialized` with a host.
pub record Transport : Type 0 where
  pub initialized : Bool
  pub has_host : Bool

pub data DialError : Type 0 where
  not_initialized invalid_multiaddr invalid_peer_id not_connected no_stream not_listening :
      DialError

module _ (p : Libp2p) where
  abbrev pub open_to : Str → Option Str → Result DialError Str
  open_to addr none = err invalid_peer_id
  open_to addr (some id) =
      if p.connects id addr
      then (if p.opens id then ok id else err no_stream)
      else err not_connected

  abbrev pub dial_addr : Option Str → Result DialError Str
  dial_addr none = err invalid_multiaddr
  dial_addr (some addr) = open_to addr (p.id_of_addr addr)

  -- The peer to which a stream is open.
  unfoldable pub dial : Transport → Str → Result DialError Str
  dial t addr =
      if t.initialized && t.has_host then dial_addr (p.parse_addr addr) else err not_initialized

  abbrev pub listen_addr : Option Str → Str → Result DialError Str
  listen_addr none text = err invalid_multiaddr
  listen_addr (some addr) text =
      if any (str_eq addr) p.host_addrs then ok text else err not_listening

  unfoldable pub listen : Transport → Str → Result DialError Str
  unfolding any str_eq
  listen t addr =
      if t.initialized && t.has_host
      then listen_addr (p.parse_addr addr) addr
      else err not_initialized

-- A codec on a stream: whether the request is written, and the header and the body of the answer are read.
pub record Codec : Type 0 where
  pub writes : Bool
  pub reads_header : Bool
  pub reads_body : Bool

pub data CallError : Type 0 where
  no_address undecodable_address unsupported_content_type : CallError
  not_dialled : DialError → CallError
  not_written no_header no_body : CallError

pub record Request : Type 0 where
  pub service : Str
  pub content_type : Str

module _ (p : Libp2p) where
  abbrev pub exchange : Option Codec → Result CallError (Unit {0})
  exchange none = err unsupported_content_type
  exchange (some c) =
      if c.writes
      then (if c.reads_header then (if c.reads_body then ok tt else err no_body) else err no_header)
      else err not_written

  abbrev pub dialled : Result DialError Str → Result CallError Str
  dialled (err e) = err (not_dialled e)
  dialled (ok id) = ok id

  abbrev pub decoded : Transport → Str → Option Str → Result CallError Str
  decoded t service none = err undecodable_address
  decoded t service (some id) = dialled (dial p t service)

  -- The checks that a call and a stream have in common, and the peer that is dialled.
  unfoldable pub reach : Transport → Str → Result CallError Str
  unfolding dial
  reach t [] = err no_address
  reach t (c ∷ s) = decoded t (c ∷ s) (p.decode_id (c ∷ s))

  unfoldable pub call : Transport → Dict Codec → Request → Result CallError (Unit {0})
  unfolding reach Dict.get
  call t codecs r = reach t r.service >>= λ id. exchange (Dict.get r.content_type codecs)

  abbrev pub with_codec : Str → Option Codec → Result CallError Str
  with_codec id none = err unsupported_content_type
  with_codec id (some c) = ok id

  -- The peer to which the stream is open.
  unfoldable pub open_stream : Transport → Dict Codec → Request → Result CallError Str
  unfolding reach Dict.get
  open_stream t codecs r =
      reach t r.service >>= λ id. with_codec id (Dict.get r.content_type codecs)
