-- ===== src/Ring/Tests.antt =====
-- Small buffers and streams.
use peers_touch_go.Prelude.{
  ℕ, ◌≡◌, refl, inl, inr, min, Bool, true, false, List, [], ◌∷◌, some, Str, str_eq, codes, arith,
}
use peers_touch_go.Prelude.Dict
use peers_touch_go.Prelude.Dict.{Dict}
use peers_touch_go.Prelude.Int.{pos, negsuc}
use peers_touch_go.Ring.{Entry, Stream, Buffer, new, deliver_all, put_all, get}
use peers_touch_go.Ring.History.{last, get-put_all}
use peers_touch_go.Ring.Streams.{deliver_all-ready, after_put, get-deliver_all}

abbrev entry : ℕ → ℕ → Entry ℕ
entry v t = record { value = v; timestamp = t }

abbrev three : List (Entry ℕ)
three = entry 1 5 ∷ entry 2 6 ∷ entry 3 7 ∷ []

abbrev two_kept : Buffer ℕ
two_kept = record { size = 2; vals = entry 2 6 ∷ entry 3 7 ∷ []; streams = [] }

abbrev send_first : Str → Bool
send_first id = false

two_kept-put_all : put_all send_first (new 2) three ≡ some two_kept
unfolding put_all new
two_kept-put_all = refl

get-put_all_example :
    (get two_kept (pos 1) ≡ last (min 1 2) three) × (get two_kept (negsuc 1) ≡ last 2 three)
get-put_all_example = get-put_all send_first 2 1 three two_kept two_kept-put_all

abbrev stream : Str → Bool → List (Entry ℕ) → Stream ℕ
stream id stop entries = record { id = id; entries = entries; stop = stop }

abbrev two_streams : Dict (Stream ℕ)
two_streams =
    (codes "a", stream (codes "a") true []) ∷ (codes "b", stream (codes "b") false []) ∷ []

-- The runtime picks the stop of every stopped stream.
abbrev stop_first : Str → Bool
stop_first id = true

abbrev one_left : Dict (Stream ℕ)
one_left = (codes "b", stream (codes "b") false (entry 4 8 ∷ [])) ∷ []

deliver_all-ready_example :
    (m : Dict (Stream ℕ)) × (deliver_all stop_first two_streams (entry 4 8) ≡ some m)
deliver_all-ready_example =
    deliver_all-ready stop_first two_streams (entry 4 8) (inr refl, (inl (omega arith), tt))

one_left-deliver_all : deliver_all stop_first two_streams (entry 4 8) ≡ some one_left
unfolding deliver_all
one_left-deliver_all = refl

two_streams-Distinct : Dict.Distinct two_streams
unfolding Dict.get str_eq
two_streams-Distinct = (refl, (refl, tt))

get-deliver_all_test :
    Dict.get (codes "a") one_left ≡ after_put true (entry 4 8) (Dict.get (codes "a") two_streams)
get-deliver_all_test =
    get-deliver_all stop_first two_streams one_left (entry 4 8) (codes "a") two_streams-Distinct
      one_left-deliver_all
