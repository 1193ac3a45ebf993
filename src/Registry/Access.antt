-- ===== src/Registry/Access.antt =====
-- What the operations of the storage do to the nodes that are found.
use peers_touch_go.Prelude.{
  ℕ, ◌≡◌, refl, ◌≢◌, inl, inr, List, [], ◌∷◌, some, Option-cases, Str, arith, if◌then◌else◌, str_eq,
  str_eq_iff, str_eq_refl,
}
use peers_touch_go.Prelude.Result.{Result, ok, err}
use peers_touch_go.Prelude.Dict
use peers_touch_go.Prelude.Dict.{Dict, Distinct, get-put, get-remove, put-Distinct, remove-Distinct}
use peers_touch_go.Registry.{
  Node, Error, node_not_found, MemoryNodeStorage, new_memory_storage, register, deregister,
  get_node, replace, update_node, beat, heartbeat,
}

-- After a registration the node's id finds that node, and every other id what it found before.
pub get_node-register :
    (node : Node) (id : Str) (m : MemoryNodeStorage)
    → get_node id (register node m) ≡ (if str_eq node.id id then ok node else get_node id m)
unfolding get_node register
get_node-register node id m = ground (arith, get-put node.id id node m.nodes)

-- After a deregistration, of a known id or not, that id is not found, and every other id finds what
-- it found before.
pub get_node-deregister :
    (gone id : Str) (m : MemoryNodeStorage)
    → get_node id (deregister gone m)
      ≡ (if str_eq gone id then err (node_not_found id) else get_node id m)
unfolding get_node deregister
get_node-deregister gone id m = ground (arith, get-remove gone id m.nodes)

abbrev pub done : Result Error Node → Result Error (Unit {0})
done (ok node) = ok tt
done (err e) = err e

abbrev pub updated : Node → MemoryNodeStorage → Result Error Node → MemoryNodeStorage
updated node m (ok old) = register node m
updated node m (err e) = m

-- `UpdateNode` is a registration where the node's id is known; where it is not, it returns the error
-- of `GetNode` and changes nothing.
pub update_node-register :
    (node : Node) (m : MemoryNodeStorage)
    → update_node node m ≡ (done (get_node node.id m), updated node m (get_node node.id m))
unfolding update_node get_node register
update_node-register node m = ground arith

abbrev pub beaten : ℕ → ℕ → Result Error Node → Result Error Node
beaten now seen (ok node) = ok (record node { heartbeat_at = now; last_seen_at = seen })
beaten now seen (err e) = err e

-- A heartbeat returns an error exactly where `GetNode` does, and the same; after it the id finds the
-- node that it found before with its two times set, or still nothing.
pub get_node-heartbeat :
    (now seen : ℕ) (id : Str) (m : MemoryNodeStorage)
    → let (r, m') = heartbeat now seen id m in
      (r ≡ done (get_node id m)) × (get_node id m' ≡ beaten now seen (get_node id m))
unfolding heartbeat get_node
get_node-heartbeat now seen id m = elim (Option-cases (Dict.get id m.nodes)) [
  | inl n ↦ (ground arith, ground arith)
  | inr (node, e) ↦ (
    ground arith,
    ground (
      arith,
      get-put id id (record node { heartbeat_at = now; last_seen_at = seen }) m.nodes,
      str_eq_refl id,
    ),
  )
]

-- A heartbeat does not change what another id finds.
pub get_node-heartbeat_ne :
    (now seen : ℕ) (id other : Str) (m : MemoryNodeStorage)
    → id ≢ other
    → get_node other (heartbeat now seen id m).1 ≡ get_node other m
unfolding heartbeat get_node
get_node-heartbeat_ne now seen id other m h = elim (Option-cases (Dict.get id m.nodes)) [
  | inl n ↦ rw (n, beat)
  | inr (node, e) ↦
      rw (e, beat)
        (ground (
          arith,
          get-put id other (record node { heartbeat_at = now; last_seen_at = seen }) m.nodes,
          str_eq_iff id other,
        ))
]

pub data Call : Type 0 where
  registers : Node → Call
  deregisters : Str → Call
  updates : Node → Call
  beats : ℕ → ℕ → Str → Call

unfoldable pub step : Call → MemoryNodeStorage → MemoryNodeStorage
unfolding register deregister update_node heartbeat
step (registers node) m = register node m
step (deregisters id) m = deregister id m
step (updates node) m = (update_node node m).1
step (beats now seen id) m = (heartbeat now seen id m).1

unfoldable pub run : List Call → MemoryNodeStorage → MemoryNodeStorage
unfolding step
run [] m = m
run (c ∷ cs) m = run cs (step c m)

-- Every id stands for one node, and the node found under an id has that id.
pub record IsValid (m : MemoryNodeStorage) : Type 0 where
  pub distinct : Distinct m.nodes
  pub keyed : (id : Str) (node : Node) → Dict.get id m.nodes ≡ some node → node.id ≡ id

put-IsValid :
    (id : Str) (node : Node) (m : MemoryNodeStorage)
    → IsValid m
    → node.id ≡ id
    → IsValid (record { nodes = Dict.put id node m.nodes })
put-IsValid id node m v e = record {
  distinct = put-Distinct id node m.nodes v.distinct;
  keyed = λ j x h. ground (arith, get-put id j node m.nodes, v.keyed j x, str_eq_iff id j);
}

-- Every operation of the storage keeps it valid.
pub step-IsValid : (c : Call) (m : MemoryNodeStorage) → IsValid m → IsValid (step c m)
unfolding step register deregister update_node heartbeat
step-IsValid (registers node) m v = put-IsValid node.id node m v refl
step-IsValid (deregisters id) m v = record {
  distinct = remove-Distinct id m.nodes v.distinct;
  keyed = λ j x h. ground (arith, get-remove id j m.nodes, v.keyed j x);
}
step-IsValid (updates node) m v = elim (Option-cases (Dict.get node.id m.nodes)) [
  | inl n ↦ rw (step, n, replace) v
  | inr (old, e) ↦ rw (step, e, replace) (put-IsValid node.id node m v refl)
]
step-IsValid (beats now seen id) m v = elim (Option-cases (Dict.get id m.nodes)) [
  | inl n ↦ rw (step, n, beat) v
  | inr (node, e) ↦ rw (step, e, beat) (put-IsValid id _ m v (v.keyed id node e))
]

run-IsValid : (cs : List Call) (m : MemoryNodeStorage) → IsValid m → IsValid (run cs m)
unfolding run
run-IsValid [] m v = v
run-IsValid (c ∷ cs) m v = run-IsValid cs (step c m) (step-IsValid c m v)

-- After any calls on a new storage, `GetNode` of an id that succeeds returns a node with that id.
pub get_node-run :
    (cs : List Call) (id : Str) (node : Node)
    → get_node id (run cs new_memory_storage) ≡ ok node
    → node.id ≡ id
unfolding get_node Dict.get
get_node-run cs id node h =
    let v = run-IsValid cs new_memory_storage (record { distinct = tt; keyed = λ j x h. cc }) in
    v.keyed id node (ground arith)
