-- ===== src/Registry/Handlers/Paths.antt =====
-- What the handlers answer for an id, and what they change.
use peers_touch_go.Prelude.{
  ℕ, ◌≡◌, refl, ◌≢◌, true, [], ◌∷◌, ◌++◌, Str, codes, arith, if◌then◌else◌, str_eq, str_eq_refl,
}
use peers_touch_go.Prelude.Result.{Result, ok, err}
use peers_touch_go.Prelude.Text.{contains}
use peers_touch_go.Registry.{
  Node, Error, node_not_found, MemoryNodeStorage, register, get_node, deregister, heartbeat,
}
use peers_touch_go.Registry.Access.{get_node-register, get_node-deregister}
use peers_touch_go.Registry.Handlers.{
  failed, node_data, no_data, Response, json, RegisterNodeRequest, UpdateNodeRequest, is_not_found,
  new_node, merge, invalid_body, get_node_handler, register_node_handler, update_node_handler,
  unregister_node_handler, heartbeat_handler,
}

abbrev pub not_found : Str → Response
not_found id = json 404 (failed (codes "404") (codes "node not found: " ++ id))

-- The test for "not found" in the error's text sees every error of the storage, whatever the id.
is_not_found_all : (e : Error) → is_not_found e ≡ true
unfolding contains
is_not_found_all (node_not_found id) = refl

-- `GET /nodes/:id` answers 200 with the node where the id is registered, and 404 with the id in its
-- message where it is not, for every id that is not empty.
pub get_node_handler_lem :
    (id : Str) (m : MemoryNodeStorage)
    → id ≢ []
    → get_node_handler id m
      ≡ (elim (get_node id m) [ ok node ↦ json 200 (node_data node) | err e ↦ not_found id ])
unfolding get_node_handler
get_node_handler_lem [] m h = absurd (h refl)
get_node_handler_lem (c ∷ id) m h = ground (arith, is_not_found_all (node_not_found (c ∷ id)))

-- A node that was registered by `POST /nodes` is what `GET /nodes/:id` then answers, online and with
-- the data of the request.
pub get-register :
    (seen beat registered : ℕ) (req : RegisterNodeRequest) (m : MemoryNodeStorage)
    → req.id ≢ []
    → get_node_handler req.id (register_node_handler seen beat registered (ok req) m).1
      ≡ json 200 (node_data (new_node seen beat registered req))
unfolding register_node_handler
get-register seen beat registered req m h =
    let node = new_node seen beat registered req in
    ground (
      arith,
      get_node_handler_lem req.id (register node m) h,
      get_node-register node req.id m,
      str_eq_refl req.id,
    )

-- After `PUT /nodes/:id` of a registered node with a valid body, `GET /nodes/:id` answers the node
-- with the fields of the request that are not empty put in, and every other id finds what it found.
pub get-update :
    (seen : ℕ) (id other : Str) (req : UpdateNodeRequest) (node : Node) (m : MemoryNodeStorage)
    → id ≢ []
    → node.id ≡ id
    → get_node id m ≡ ok node
    → let m' = (update_node_handler seen id (ok req) m).1 in
      get_node other m' ≡ (if str_eq id other then ok (merge seen req node) else get_node other m)
unfolding update_node_handler
get-update seen [] other req node m h k e = absurd (h refl)
get-update seen (c ∷ id) other req node m h k e =
    ground (arith, get_node-register (merge seen req node) other m)

abbrev pub update_answer :
    ℕ
    → Str
    → Result Str UpdateNodeRequest
    → Result Error Node
    → MemoryNodeStorage
    → Response × MemoryNodeStorage
update_answer seen id body (err e) m = (not_found id, m)
update_answer seen id (err t) (ok node) m = (invalid_body, m)
update_answer seen id (ok req) (ok node) m =
    (json 200 (node_data (merge seen req node)), register (merge seen req node) m)

-- `PUT /nodes/:id`, for an id that is not empty, answers 404 where it is not registered and else 400
-- where the body is bad, and in both cases changes nothing; else it answers the merged node and
-- registers it.
pub update_node_handler_lem :
    (seen : ℕ) (id : Str) (body : Result Str UpdateNodeRequest) (m : MemoryNodeStorage)
    → id ≢ []
    → update_node_handler seen id body m ≡ update_answer seen id body (get_node id m) m
unfolding update_node_handler get_node
update_node_handler_lem seen [] body m h = absurd (h refl)
update_node_handler_lem seen (c ∷ id) (err t) m h =
    ground (arith, is_not_found_all (node_not_found (c ∷ id)))
update_node_handler_lem seen (c ∷ id) (ok req) m h =
    ground (arith, is_not_found_all (node_not_found (c ∷ id)))

-- `DELETE /nodes/:id` answers 200 for every id that is not empty, registered or not, and `GET
-- /nodes/:id` then answers 404.
pub unregister_any :
    (id : Str) (m : MemoryNodeStorage)
    → id ≢ []
    → let (r, m') = unregister_node_handler id m in
      (r ≡ json 200 (no_data (codes "Node unregistered successfully")))
      × (get_node_handler id m' ≡ not_found id)
unfolding unregister_node_handler
unregister_any [] m h = absurd (h refl)
unregister_any (c ∷ id) m h = (
  refl,
  ground (
    arith,
    get_node_handler_lem (c ∷ id) (deregister (c ∷ id) m) h,
    get_node-deregister (c ∷ id) (c ∷ id) m,
    str_eq_refl (c ∷ id),
  ),
)

-- For an id that is not empty and not registered, `GET /nodes/:id` answers 404, but `POST
-- /nodes/:id/heartbeat` answers 500 and changes nothing.
pub heartbeat_unknown :
    (now seen : ℕ) (id : Str) (m : MemoryNodeStorage)
    → id ≢ []
    → get_node id m ≡ err (node_not_found id)
    → (get_node_handler id m ≡ not_found id)
      × (heartbeat_handler now seen id m
          ≡ (json 500 (failed (codes "500") (codes "Failed to update heartbeat")), m))
unfolding heartbeat_handler get_node heartbeat
heartbeat_unknown now seen [] m h e = absurd (h refl)
heartbeat_unknown now seen (c ∷ id) m h e =
    (ground (arith, get_node_handler_lem (c ∷ id) m h), ground arith)
