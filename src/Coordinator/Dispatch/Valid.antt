-- ===== src/Coordinator/Dispatch/Valid.antt =====
-- The coordinator's invariant, which every dispatch keeps: tiles stand under their own identifiers,
-- the chain of routing receipts verifies, and the relay notes each request once.
use szl_mesh.Agent.Gate.{Floats, Request, lambda_gate_check}
use szl_mesh.Agent.Ledger.Chain.{IsIntact, append-IsIntact}
use szl_mesh.Common.Dict.{lookup, values, put-IsMap, All-put, All-lookup}
use szl_mesh.Common.Json.{Hashing}
use szl_mesh.Common.Order.{str_ord}
use szl_mesh.Common.Result.{Result-cases}
use szl_mesh.Common.{
  ◌+◌, true, false, String, List, [], ◌∷◌, inl, inr, Bool-cases, Option-cases, map, select, not,
}
use szl_mesh.Coordinator.Dispatch.{
  Readings, candidate_of, append_routing, send, route, dispatch, id_of,
}
use szl_mesh.Coordinator.Pick.{Candidate, Random, f1_least_connections_pick}
use szl_mesh.Coordinator.Relay.{IsValid, is_duplicate, is_duplicate-IsValid}
use szl_mesh.Coordinator.Tile.Keyed.{WellKeyed}
use szl_mesh.Coordinator.Tile.{Coordinator, is_up}

module _ (floats : Floats) (h : Hashing) (r : Random) where
  pub record IsSound (c : Coordinator) : Type 0 where
    pub keyed : WellKeyed c.tiles
    pub chained : IsIntact h c.routing_ledger
    pub noted : IsValid c.relay

  send-IsSound :
      (readings : Readings) (request : Request floats) (request_id : String) (score : floats.F)
      (selected : Candidate) (c : Coordinator)
      → IsSound c
      → IsSound (send floats h r readings request request_id score selected c).1
  unfolding send append_routing
  send-IsSound readings request request_id score selected c s =
      elim (Option-cases (lookup selected.node_id c.tiles)) [
        | inl absent ↦
            rw (absent, send) (record { keyed = s.keyed; chained = s.chained; noted = s.noted })
        | inr (tile, at) ↦
            let credited = record tile {
              total_jobs = tile.total_jobs + 1;
              contribution = tile.contribution + 1;
            } in
            rw (at, send)
              (record {
                keyed = (
                  put-IsMap selected.node_id credited c.tiles s.keyed.0,
                  All-put _ selected.node_id credited c.tiles s.keyed.1
                      (All-lookup _ selected.node_id tile c.tiles s.keyed.1 at),
                );
                chained = append-IsIntact h c.routing_ledger _ _ _ s.chained;
                noted = s.noted;
              })
      ]

  route-IsSound :
      (readings : Readings) (request : Request floats) (request_id : String) (score : floats.F)
      (down_nodes : List String) (online : List Candidate) (c : Coordinator)
      → IsSound c
      → IsSound (route floats h r readings request request_id score down_nodes online c).1
  unfolding route
  route-IsSound readings request request_id score down_nodes [] c s = s
  route-IsSound readings request request_id score down_nodes (x ∷ online) c s =
      elim (Result-cases (f1_least_connections_pick r request_id (x ∷ online))) [
        | inl (selected, e) ↦
            rw (e, route) (send-IsSound readings request request_id score selected c s)
        | inr (exception, e) ↦ rw (e, route) s
      ]

  -- A dispatch keeps the invariant, whatever its outcome.
  pub dispatch-IsSound :
      (readings : Readings) (request : Request floats) (c : Coordinator)
      → IsSound c
      → IsSound (dispatch floats h r readings request c).1
  unfolding dispatch
  dispatch-IsSound readings request c s =
      let request_id = id_of floats h r readings request in
      let (seen, relay) = is_duplicate request_id readings.now readings.then_now c.relay in
      let relayed = record c { relay = relay } in
      let sound : IsSound relayed = record {
        keyed = s.keyed;
        chained = s.chained;
        noted = is_duplicate-IsValid request_id readings.now readings.then_now c.relay s.noted;
      } in
      let candidates = map (candidate_of relayed) (values c.tiles) in
      elim (Bool-cases seen) [
        | inl again ↦ rw (again, dispatch) sound
        | inr first ↦ elim (Result-cases (lambda_gate_check floats request)) [
          | inr (e, raised) ↦ rw (first, raised, dispatch) sound
          | inl ((false, score), fails) ↦ rw (first, fails, dispatch) sound
          | inl ((true, score), passes) ↦
              rw (first, passes, dispatch)
                (route-IsSound readings request request_id score
                  (map (λ x. x.node_id) (select (λ x. not (is_up x.status)) candidates))
                  (select (λ x. is_up x.status) candidates) relayed sound)
        ]
      ]
