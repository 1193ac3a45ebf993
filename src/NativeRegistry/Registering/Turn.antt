-- ===== src/NativeRegistry/Registering/Turn.antt =====
-- station/frame/core/plugin/native/registry/native.go: how the TURN addresses grow.
use peers_touch_go.Prelude.{
  ℕ, ◌+◌, true, List, [], ◌∷◌, some, Str, ◌≡◌, arith, length, length-append,
}
use peers_touch_go.NativeRegistry.{NativeRegistry}
use peers_touch_go.NativeRegistry.Registering.{TurnAnswers, allocated, refresh_turn}

-- A refresh at each of the times, with the same answers.
abbrev pub refresh_all : TurnAnswers → List ℕ → NativeRegistry → NativeRegistry
refresh_all t [] r = r
refresh_all t (now ∷ times) r = refresh_all t times (refresh_turn now t r)

refresh_turn-grows :
    (t : TurnAnswers) (relay stun : Str) (now : ℕ) (r : NativeRegistry)
    → t.client ≡ true
    → t.allocation ≡ allocated relay
    → t.mapped ≡ some stun
    → (length (refresh_turn now t r).turn_relay_addresses ≡ length r.turn_relay_addresses + 1)
      × (length (refresh_turn now t r).turn_stun_addresses ≡ length r.turn_stun_addresses + 1)
unfolding refresh_turn
refresh_turn-grows t relay stun now r c a m = rw c (
    rw a (
      rw m (
        length-append r.turn_relay_addresses (relay ∷ []),
        length-append r.turn_stun_addresses (stun ∷ []),
      )))

-- Each refresh that succeeds adds a relay and a STUN address, be they the same ones again: after as many
-- refreshes as there are times, both lists are longer by that number.
pub length-refresh_all :
    (t : TurnAnswers) (relay stun : Str) (times : List ℕ) (r : NativeRegistry)
    → t.client ≡ true
    → t.allocation ≡ allocated relay
    → t.mapped ≡ some stun
    → (length (refresh_all t times r).turn_relay_addresses
        ≡ length r.turn_relay_addresses + length times)
      × (length (refresh_all t times r).turn_stun_addresses
          ≡ length r.turn_stun_addresses + length times)
length-refresh_all t relay stun [] r c a m = (omega arith, omega arith)
length-refresh_all t relay stun (now ∷ times) r c a m = ground (
  arith,
  length-refresh_all t relay stun times (refresh_turn now t r) c a m,
  refresh_turn-grows t relay stun now r c a m,
)
