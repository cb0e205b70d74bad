-- ===== src/Coordinator/Dispatch/Receipts.antt =====
-- What `dispatch` returns and does to the coordinator, on all its branches, and that every
-- dispatch is closed by one routing receipt.
use szl_mesh.Agent.Gate.{
  Floats, Request, or_default, lambda_gate_check, lambda_gate_check-Scored, lambda_gate_check-raise,
}
use szl_mesh.Agent.Ledger.{append, new_entry}
use szl_mesh.Common.Dict.{lookup, put, values, lookup-put}
use szl_mesh.Common.Json.{Hashing}
use szl_mesh.Common.Order.{str_ord}
use szl_mesh.Common.Result.{Result, ok, raise, Result-cases}
use szl_mesh.Common.{
  any-map, select_twice, any-select, select-any, selects-none, ◌+◌, Bool, true, false, not, String,
  some, List, [], ◌∷◌, ◌≡◌, refl, sym, ap, ◌∙◌, arith, map, any, select, All, All-imp, All-map,
  Bool-cases, inl, inr, subst,
}
use szl_mesh.Coordinator.Dispatch.{
  Readings, candidate_of, Outcome, append_routing, send, route, dispatch, id_of,
}
use szl_mesh.Common.Best.{All-select}
use szl_mesh.Coordinator.Pick.Least.{Least, f1_least_connections_pick-found}
use szl_mesh.Coordinator.Pick.{Candidate, Random, f1_least_connections_pick}
use szl_mesh.Coordinator.Relay.{Relay, is_duplicate}
use szl_mesh.Coordinator.Tile.Keyed.{WellKeyed, Kept-values}
use szl_mesh.Coordinator.Tile.{NodeTile, Coordinator, is_up}
use szl_mesh.Coordinator.Dispatch.Effects.{connections, Does, Gated, Decides, Fits}

module _ (floats : Floats) (h : Hashing) (r : Random) where
  -- A candidate stands for a registered tile.
  abbrev IsRegistered : Coordinator → Candidate → Type 0
  IsRegistered c x =
      (tile : NodeTile) × (lookup x.node_id c.tiles ≡ some tile) × (x.status ≡ tile.status)

  each-IsRegistered :
      (c : Coordinator)
      → WellKeyed c.tiles
      → All (IsRegistered c) (map (candidate_of c) (values c.tiles))
  each-IsRegistered c w =
      All-map (IsRegistered c) (candidate_of c) (values c.tiles)
        (All-imp (values c.tiles) (Kept-values c.tiles w) (λ t kept. (t, kept, refl)))

  -- The outcome of a request that has passed the gate.
  abbrev Chosen : String → floats.F → Outcome floats h r → Type 0
  Chosen request_id score Outcome.duplicate = true ≡ false
  Chosen request_id score (Outcome.rejected s) = true ≡ false
  Chosen request_id score (Outcome.degraded s down_nodes) = s ≡ score
  Chosen request_id score (Outcome.dispatched id selected s entry) = (id ≡ request_id) × (s ≡ score)

  send-Sent :
      (readings : Readings) (request : Request floats) (request_id : String) (score : floats.F)
      (selected : Candidate) (c : Coordinator) (tile : NodeTile)
      → lookup selected.node_id c.tiles ≡ some tile
      → is_up tile.status ≡ true
      → Least (select (λ x. is_up x.status) (map (candidate_of c) (values c.tiles))) selected
      → (o : Outcome floats h r) × (c' : Coordinator) × (send floats h r readings request request_id
            score selected c
          ≡ (ok o, c'))
        × Does floats h r c c' o
        × Chosen request_id score o
        × (c'.relay ≡ c.relay)
  unfolding send append_routing append new_entry
  send-Sent readings request request_id score selected c tile at online fewest =
      let connections' =
        put selected.node_id (connections c selected.node_id + 1) c.active_connections in
      let credited = record tile {
        total_jobs = tile.total_jobs + 1;
        contribution = tile.contribution + 1;
      } in
      let (ledger, entry) =
        append_routing floats h r c.routing_ledger request_id selected.node_id
          (or_default request.model "unknown") score "least-connections+F1-seeded"
          (or_default request.label "LIVE") readings in
      (
        Outcome.dispatched request_id selected score entry,
        record c {
          active_connections = connections';
          tiles = put selected.node_id credited c.tiles;
          routing_ledger = ledger;
        },
        rw (at, send) refl,
        record {
          tile = tile;
          registered = at;
          is_online = online;
          fewest = fewest;
          counted = λ id. ground (
            arith,
            str_ord.same selected.node_id id,
            lookup-put selected.node_id id (connections c selected.node_id + 1)
                c.active_connections,
          );
          credited = ground (
            arith,
            str_ord.cmp_self selected.node_id,
            lookup-put selected.node_id selected.node_id credited c.tiles,
          );
          receipt = refl;
          names_request = refl;
        },
        (refl, refl),
        refl,
      )

  route-picked :
      (readings : Readings) (request : Request floats) (request_id : String) (score : floats.F)
      (down_nodes : List String) (online : List Candidate) (selected : Candidate) (c : Coordinator)
      → any (λ x. true) online ≡ true
      → f1_least_connections_pick r request_id online ≡ ok selected
      → route floats h r readings request request_id score down_nodes online c
        ≡ send floats h r readings request request_id score selected c
  unfolding route
  route-picked readings request request_id score down_nodes [] selected c some_left e = cc
  route-picked readings request request_id score down_nodes (x ∷ online) selected c some_left e =
      rw (e, route) refl

  route_lem :
      (readings : Readings) (request : Request floats) (request_id : String) (score : floats.F)
      (down_nodes : List String) (c : Coordinator)
      → WellKeyed c.tiles
      → let online = select (λ x. is_up x.status) (map (candidate_of c) (values c.tiles)) in
        (o : Outcome floats h r) × (c' : Coordinator) × (route floats h r readings request
            request_id score down_nodes online c
          ≡ (ok o, c'))
        × Does floats h r c c' o
        × Chosen request_id score o
        × (c'.relay ≡ c.relay)
  unfolding route
  route_lem readings request request_id score down_nodes c w =
      let online = λ (x : Candidate). is_up x.status in
      let candidates = map (candidate_of c) (values c.tiles) in
      elim (Bool-cases (any online candidates)) [
        | inr none_up ↦ (
          Outcome.degraded score down_nodes,
          c,
          rw (selects-none online candidates none_up, route) refl,
          ((refl, refl, refl), sym (any-map online (candidate_of c) (values c.tiles)) ∙ none_up),
          refl,
          refl,
        )
        | inl some_up ↦
            let (picked, e, (tile, at, status), up, least) =
              f1_least_connections_pick-found (IsRegistered c) r request_id
                (select online candidates) (any-select online candidates some_up)
                (All-select (IsRegistered c) online candidates (each-IsRegistered c w)) in
            let (o, c', sent, does, chosen, kept) =
              send-Sent readings request request_id score picked c tile at
                (ap is_up (sym status) ∙ up)
                (subst (λ xs. Least xs picked) (select_twice online candidates) least) in
            (
              o,
              c',
              route-picked readings request request_id score down_nodes (select online candidates)
                    picked c (select-any online candidates some_up) e
                  ∙ sent,
              does,
              chosen,
              kept,
            )
      ]

  -- The relay has no part in it.
  Does-relay :
      (relay : Relay) (c c' : Coordinator) (o : Outcome floats h r)
      → Does floats h r (record c { relay = relay }) c' o
      → Does floats h r c c' o
  Does-relay relay c c' Outcome.duplicate d = d
  Does-relay relay c c' (Outcome.rejected score) d = d
  Does-relay relay c c' (Outcome.degraded score down_nodes) d = d
  Does-relay relay c c' (Outcome.dispatched request_id selected score entry) d = record {
    tile = d.tile;
    registered = d.registered;
    is_online = d.is_online;
    fewest = d.fewest;
    counted = d.counted;
    credited = d.credited;
    receipt = d.receipt;
    names_request = d.names_request;
  }

  Chosen-Decides :
      (request : Request floats) (id : String) (score : floats.F) (seen : Bool)
      (o : Outcome floats h r)
      → Chosen id score o
      → seen ≡ false
      → Gated floats h r request score true
      → Decides floats h r request id seen o
  Chosen-Decides request id score seen Outcome.duplicate chosen first gated = absurd (cc chosen)
  Chosen-Decides request id score seen (Outcome.rejected s) chosen first gated = absurd (cc chosen)
  Chosen-Decides request id score seen (Outcome.degraded s down_nodes) chosen first gated =
      (first, subst (λ x. Gated floats h r request x true) (sym chosen) gated)
  Chosen-Decides request id score seen (Outcome.dispatched i selected s entry) chosen first gated =
      (first, subst (λ x. Gated floats h r request x true) (sym chosen.1) gated, chosen.0)

  -- Where every tile stands under its own identifier, a dispatch raises only the exception that the
  -- conversion of the request's score raises. A request is a duplicate exactly if the relay says
  -- so, and rejected only if its score is below one half. It is degraded only if no tile is UP.
  -- None of these changes tiles, connections or receipts. Otherwise a request of a sufficient score
  -- goes under its own identifier to an UP node with the fewest connections, which is counted and
  -- credited, and one receipt is appended. The relay is left as its check leaves it.
  pub dispatch_lem :
      (readings : Readings) (request : Request floats) (c : Coordinator)
      → WellKeyed c.tiles
      → let id = id_of floats h r readings request in
        let (seen, relay) = is_duplicate id readings.now readings.then_now c.relay in
        (result : Result (Outcome floats h r)) × (c' : Coordinator) × (dispatch floats h r readings
            request c
          ≡ (result, c'))
        × Fits floats h r request id seen c c' result
        × (c'.relay ≡ relay)
  unfolding dispatch
  dispatch_lem readings request c w =
      let id = id_of floats h r readings request in
      let (seen, relay) = is_duplicate id readings.now readings.then_now c.relay in
      let relayed = record c { relay = relay } in
      elim (Bool-cases seen) [
        | inl again ↦ (
          ok Outcome.duplicate,
          relayed,
          rw (again, dispatch) refl,
          (again, (refl, refl, refl)),
          refl,
        )
        | inr first ↦ elim (Result-cases (lambda_gate_check floats request)) [
          | inr (e, raised) ↦ (
            raise e,
            relayed,
            rw (first, raised, dispatch) refl,
            (first, lambda_gate_check-raise floats request e raised, (refl, refl, refl)),
            refl,
          )
          | inl ((false, score), checked) ↦ (
            ok (Outcome.rejected score),
            relayed,
            rw (first, checked, dispatch) refl,
            (
              (first, lambda_gate_check-Scored floats request false score checked),
              (refl, refl, refl),
            ),
            refl,
          )
          | inl ((true, score), checked) ↦
              let candidates = map (candidate_of relayed) (values c.tiles) in
              let (o, c', routed, does, chosen, kept) =
                route_lem readings request id score
                  (map (λ x. x.node_id) (select (λ x. not (is_up x.status)) candidates)) relayed
                  w in
              (
                ok o,
                c',
                rw (first, checked, dispatch) routed,
                (
                  Chosen-Decides request id score seen o chosen first
                      (lambda_gate_check-Scored floats request true score checked),
                  Does-relay relay c c' o does,
                ),
                kept,
              )
        ]
      ]
