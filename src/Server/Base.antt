-- ===== src/Server/Base.antt =====
-- station/frame/core/server/server_base.go: BaseServer, over subservers that work on a world `W`. The
-- lists of subservers are in the order in which the range visits the map. An error of a subserver is a
-- panic; `Once` counts a call that panics as made.
use peers_touch_go.Prelude.{
  Bool, true, false, List, [], ◌∷◌, ◌++◌, append-nil, append_assoc, Option, none, some, Str, str_eq,
  ◌≡◌, refl, sym, ap, ◌∙◌, if◌then◌else◌, Bool-cases, inl, inr,
}
use peers_touch_go.Prelude.Dict
use peers_touch_go.Prelude.Dict.{Dict, get-put}
use peers_touch_go.Server.{Handler}

-- Whether a call succeeds, and the world after it.
pub record Subserver (W H : Type 0) : Type 0 where
  pub name : Str
  pub handlers : List (Handler H)
  pub init : W → Bool × W
  pub start : W → Bool × W
  pub stop : W → Bool × W

pub record BaseServer (W H : Type 0) : Type 0 where
  pub initialised : Bool
  pub sub_server_started : Bool
  pub sub_servers : Dict (Subserver W H)
  pub handlers : List (Handler H)

pub data Outcome (A W : Type 0) : Type 0 where
  done refused panicked : A → W → Outcome A W

module _ {W H : Type 0} where
  unfoldable pub new_server : List (Handler H) → BaseServer W H
  new_server handlers = record {
    initialised = false;
    sub_server_started = false;
    sub_servers = [];
    handlers = handlers;
  }

  abbrev pub add_sub : Subserver W H → BaseServer W H → BaseServer W H
  add_sub sub b = record b {
    sub_servers = Dict.put sub.name sub b.sub_servers;
    handlers = b.handlers ++ sub.handlers;
  }

  -- The loop of `init` over the subservers as they are made.
  unfoldable pub init_subs : List (Subserver W H) → BaseServer W H → W → Outcome (BaseServer W H) W
  init_subs [] b w = done b w
  init_subs (sub ∷ l) b w =
      let rest = init_subs l (add_sub sub b) (sub.init w).1 in
      if (sub.init w).0 then rest else panicked b (sub.init w).1

  unfoldable pub init : List (Subserver W H) → BaseServer W H → W → Outcome (BaseServer W H) W
  unfolding init_subs
  init subs b w =
      if b.initialised then done b w else init_subs subs (record b { initialised = true }) w

  -- A loop that calls each subserver, and panics at the first error.
  unfoldable pub each : (Subserver W H → W → Bool × W) → List (Subserver W H) → W → Bool × W
  each call [] w = (true, w)
  each call (sub ∷ l) w =
      let rest = each call l (call sub w).1 in
      if (call sub w).0 then rest else (false, (call sub w).1)

  abbrev pub finish_start : BaseServer W H → Bool × W → Outcome (BaseServer W H) W
  finish_start b (true, w) = done (record b { sub_server_started = true }) w
  finish_start b (false, w) = panicked b w

  unfoldable pub start : BaseServer W H → W → Outcome (BaseServer W H) W
  unfolding each
  start b w =
      if b.sub_server_started
      then refused b w
      else finish_start b (each (λ s. s.start) (Dict.values b.sub_servers) w)

  abbrev pub finish_stop : BaseServer W H → Bool × W → Outcome (BaseServer W H) W
  finish_stop b (true, w) = done b w
  finish_stop b (false, w) = panicked b w

  unfoldable pub stop : BaseServer W H → W → Outcome (BaseServer W H) W
  unfolding each
  stop b w = finish_stop b (each (λ s. s.stop) (Dict.values b.sub_servers) w)

  abbrev pub all_handlers : List (Subserver W H) → List (Handler H)
  all_handlers [] = []
  all_handlers (s ∷ l) = s.handlers ++ all_handlers l

  abbrev pub last_named :
      Str → Option (Subserver W H) → List (Subserver W H) → Option (Subserver W H)
  last_named n found [] = found
  last_named n found (s ∷ l) = last_named n (if str_eq s.name n then some s else found) l

  done-injective : {b c : BaseServer W H} {w v : W} → done b w ≡ done c v → b ≡ c
  done-injective h = cc

  init_subs-done :
      (l : List (Subserver W H)) (b c : BaseServer W H) (w v : W) (n : Str)
      → init_subs l b w ≡ done c v
      → (c.handlers ≡ b.handlers ++ all_handlers l)
        × (Dict.get n c.sub_servers ≡ last_named n (Dict.get n b.sub_servers) l)
        × (c.initialised ≡ b.initialised)
  unfolding init_subs
  init_subs-done [] b c w v n h =
      let e : b ≡ c = done-injective h in
      (rw (← e) (sym (append-nil b.handlers)), rw (← e) refl, rw (← e) refl)
  init_subs-done (s ∷ l) b c w v n h = elim (Bool-cases (s.init w).0) [
    | inl y ↦
        let (f, g, k) = init_subs-done l (add_sub s b) c (s.init w).1 v n (rw y at h) in
        (
          f ∙ append_assoc b.handlers s.handlers (all_handlers l),
          g ∙ ap (λ o. last_named n o l) (get-put s.name n s b.sub_servers),
          k,
        )
    | inr x ↦ absurd (
        let z : Path (Outcome (BaseServer W H) W) (panicked b (s.init w).1) (done c v) =
          rw x at h in
        cc)
  ]

  -- Where Init succeeds on a new server, it has its handlers, then those of the subservers in the order in
  -- which they were made, and under each name the last subserver of that name; a second Init does nothing.
  pub init_lem :
      (handlers : List (Handler H)) (l m : List (Subserver W H)) (c : BaseServer W H) (w v u : W)
      (n : Str)
      → init l (new_server handlers) w ≡ done c v
      → (c.handlers ≡ handlers ++ all_handlers l)
        × (Dict.get n c.sub_servers ≡ last_named n none l)
        × (init m c u ≡ done c u)
  unfolding init new_server Dict.get
  init_lem handlers l m c w v u n h =
      let (f, g, k) =
        init_subs-done l (record (new_server handlers) { initialised = true }) c w v n h in
      (f, g, rw k refl)

  finish_start-started :
      (b c : BaseServer W H) (r : Bool × W) (v : W)
      → finish_start b r ≡ done c v
      → c.sub_server_started ≡ true
  finish_start-started b c (true, w) v h = rw (← (done-injective h)) refl
  finish_start-started b c (false, w) v h = absurd (let z : panicked b w ≡ done c v = h in cc)

  finish_stop-same :
      (b c : BaseServer W H) (r : Bool × W) (v : W) → finish_stop b r ≡ done c v → b ≡ c
  finish_stop-same b c (true, w) v h = done-injective h
  finish_stop-same b c (false, w) v h = absurd (let z : panicked b w ≡ done c v = h in cc)

  started_by :
      (x : Bool) (b c : BaseServer W H) (r : Bool × W) (w v : W)
      → (if x then refused b w else finish_start b r) ≡ done c v
      → c.sub_server_started ≡ true
  started_by true b c r w v h = absurd (let z : refused b w ≡ done c v = h in cc)
  started_by false b c r w v h = finish_start-started b c r v h

  -- A server that was started is not started again, also after it was stopped: the call is refused and no
  -- subserver is called.
  pub start-stop :
      (b c e : BaseServer W H) (w v u x y : W)
      → start b w ≡ done c v
      → stop c u ≡ done e x
      → (start c y ≡ refused c y) × (start e y ≡ refused e y)
  unfolding start stop
  start-stop b c e w v u x y h k =
      let f =
        started_by b.sub_server_started b c (each (λ s. s.start) (Dict.values b.sub_servers) w) w v
          h in
      let g = finish_stop-same c e (each (λ s. s.stop) (Dict.values c.sub_servers) u) x k in
      (rw f refl, rw (← g) (rw f refl))
