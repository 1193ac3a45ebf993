-- ===== src/NetworkId.antt =====
-- station/frame/core/types/network.go: network ids and their text. The packages encoding/base32 and
-- crypto/sha256 are the parameter `Codec`. A byte is a number; the arithmetic on one wraps at 256.
pub mod Text
pub mod Tests
use peers_touch_go.Prelude.{
  ℕ, ◌+◌, ◌-◌, ◌*◌, ◌/◌, ◌%◌, ◌≤◌, ◌≡◌, Bool, true, false, ◌||◌, ◌&&◌, List, [], ◌∷◌, ◌++◌, Option,
  none, some, Str, codes, str_eq, ltb, leb, ◌==◌, if◌then◌else◌, length, take,
}
use peers_touch_go.Prelude.Result.{Result, ok, err}
use peers_touch_go.Prelude.Text.{has_prefix, decimal, cut}

pub record NetworkId : Type 0 where
  pub version : ℕ
  pub kind : ℕ
  pub hash : Str

pub data Error : Type 0 where
  missing_version_prefix expected_three_parts invalid_version invalid_type_format invalid_hash :
      Error
  invalid_type : ℕ → Error

abbrev pub type_peer : ℕ
type_peer = b'p'

abbrev pub type_node : ℕ
type_node = b'n'

abbrev pub version_1 : ℕ
version_1 = 1

-- Base32 without padding, whose text has a character for every 5 bits, and SHA-256, which gives 32
-- bytes.
pub record Codec : Type 0 where
  pub encode : Str → Str
  pub decode : Str → Option Str
  pub sha256 : Str → Str
  pub decode-encode : (s : Str) → decode (encode s) ≡ some s
  pub length-encode : (s : Str) → length (encode s) ≡ (length s * 8 + 4) / 5
  pub length-sha256 : (s : Str) → length (sha256 s) ≡ 32

abbrev pub cut_again : Str → Option (Str × Str) → List Str
cut_again s none = s ∷ []
cut_again s (some (a, b)) = a ∷ b ∷ []

abbrev pub split_second : Option (Str × Str) → Str → List Str
unfolding cut
split_second none s = s ∷ []
split_second (some (a, r)) s = a ∷ cut_again r (cut b'-' r)

-- `strings.SplitN(id, "-", 3)`
unfoldable pub split_3 : Str → List Str
unfolding cut
split_3 s = split_second (cut b'-' s) s

module _ (c : Codec) where
  -- `%c` of a byte: its character in UTF-8.
  abbrev pub character : ℕ → Str
  character k = if ltb k 128 then k ∷ [] else (192 + k / 64) ∷ (128 + k % 64) ∷ []

  abbrev pub text_prefix : NetworkId → Str
  text_prefix n = b'v' ∷ (decimal n.version ++ b'-' ∷ (character n.kind ++ b'-' ∷ []))

  -- The prefix has at most 8 characters, so 48 less its length is not negative.
  unfoldable pub to_text : NetworkId → Str
  unfolding decimal
  to_text n =
      let p = text_prefix n in
      let h = c.encode n.hash in
      let max_hash_len = 48 - length p in
      p ++ (if ltb max_hash_len (length h) then take max_hash_len h else h)

  abbrev pub parse_hash : ℕ → ℕ → Option Str → Result Error NetworkId
  parse_hash v k none = err invalid_hash
  parse_hash v k (some h) = ok (record { version = v; kind = k; hash = h })

  abbrev pub parse_type : ℕ → Str → Str → Result Error NetworkId
  parse_type v (k ∷ []) h =
      if k == type_peer || k == type_node then parse_hash v k (c.decode h) else err (invalid_type k)
  parse_type v other h = err invalid_type_format

  abbrev pub parse_version : Str → Str → Str → Result Error NetworkId
  parse_version (v ∷ d ∷ ds) t h =
      if v == b'v' then parse_type ((d + 256 - b'0') % 256) t h else err invalid_version
  parse_version other t h = err invalid_version

  abbrev pub parse_parts : List Str → Result Error NetworkId
  parse_parts (v ∷ t ∷ h ∷ []) = parse_version v t h
  parse_parts other = err expected_three_parts

  unfoldable pub parse_network_id : Str → Result Error NetworkId
  unfolding has_prefix split_3
  parse_network_id id =
      if has_prefix id (codes "v") then parse_parts (split_3 id) else err missing_version_prefix

  unfoldable pub new_peer_network_id : Str → NetworkId
  new_peer_network_id peer_id = record {
    version = version_1;
    kind = type_peer;
    hash = take 20 (c.sha256 peer_id);
  }

  unfoldable pub new_node_network_id : Str → Str → Str → NetworkId
  new_node_network_id peer_id node_type node_id = record {
    version = version_1;
    kind = type_node;
    hash = take 20 (c.sha256 (peer_id ++ b':' ∷ (node_type ++ b':' ∷ node_id)));
  }

  abbrev pub is_peer : NetworkId → Bool
  is_peer n = n.kind == type_peer

  abbrev pub is_node : NetworkId → Bool
  is_node n = n.kind == type_node

  -- `none`: the slice of the hash is out of range.
  unfoldable pub extract_peer_id : NetworkId → Option Str
  unfolding to_text
  extract_peer_id n =
      if n.kind == type_peer
      then some (to_text n)
      else if ltb (length n.hash) 10
      then none
      else some (to_text (record { version = n.version; kind = type_peer; hash = take 10 n.hash }))

  unfoldable pub is_valid : NetworkId → Bool
  is_valid n =
      leb version_1 n.version
      && ((n.kind == type_peer || n.kind == type_node) && ltb 0 (length n.hash))

  -- On ids that are not nil.
  unfoldable pub equal : NetworkId → NetworkId → Bool
  unfolding str_eq
  equal n m = n.version == m.version && (n.kind == m.kind && str_eq n.hash m.hash)
