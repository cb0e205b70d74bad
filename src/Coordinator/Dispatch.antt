-- ===== src/Coordinator/Dispatch.antt =====
-- `dispatch` and `append_routing`: one request, from the relay to its routing receipt. What the
-- clock and `secrets.token_hex` give during a call is an argument.
pub mod Effects
pub mod Receipts
pub mod Valid
use szl_mesh.Agent.Gate.{Floats, Request, lambda_gate_check, truthy, or_default}
use szl_mesh.Agent.Ledger.{Ledger, Entry, append}
use szl_mesh.Common.Dict.{lookup, put, values}
use szl_mesh.Common.Json.{Json, Hashing}
use szl_mesh.Common.Order.{str_ord}
use szl_mesh.Common.Result.{Result, ok, raise, key_error}
use szl_mesh.Common.{
  ℕ, ◌+◌, Bool, not, String, Option, none, some, List, [], ◌∷◌, map, if◌then◌else◌, select,
}
use szl_mesh.Coordinator.Pick.{Candidate, Random, f1_least_connections_pick}
use szl_mesh.Coordinator.Relay.{is_duplicate}
use szl_mesh.Coordinator.Tile.{NodeTile, Coordinator, is_up}

pub record Readings : Type 0 where
  pub token_hex : String
  pub now : ℕ
  pub then_now : ℕ
  pub timestamp_utc : String
  pub signed_at : String

abbrev pub candidate_of : Coordinator → NodeTile → Candidate
candidate_of c tile = record {
  node_id = tile.node_id;
  node_name = tile.node_name;
  hostname = tile.hostname;
  port = tile.port;
  vram_gb = tile.vram_gb;
  layer_start = tile.layer_start;
  layer_end = tile.layer_end;
  active_connections = or_default (lookup tile.node_id c.active_connections) 0;
  status = tile.status;
}

module _ (floats : Floats) (h : Hashing) (r : Random) where
  -- Why a request was not dispatched, or where it went: the request, the node, the score and the
  -- routing receipt.
  pub data Outcome : Type 0 where
    duplicate : Outcome
    rejected : floats.F → Outcome
    degraded : floats.F → List String → Outcome
    dispatched : String → Candidate → floats.F → Entry → Outcome

  -- The node and the strategy are not part of what is appended.
  unfoldable pub append_routing :
      Ledger → String → String → String → floats.F → String → String → Readings → Ledger × Entry
  append_routing l request_id selected_node_id model lambda_score strategy label readings =
      append h l
        (record {
          job_id = request_id;
          model = model;
          lambda_score = floats.to_json lambda_score;
          tokens_in = 0;
          tokens_out = 0;
          latency_ms = floats.to_json floats.zero;
          label = label;
        })
        readings.timestamp_utc readings.signed_at

  -- From the increment of the connections to the contribution. The two updates of the tile are
  -- written together.
  unfoldable pub send :
      Readings
      → Request floats
      → String
      → floats.F
      → Candidate
      → Coordinator
      → Result Outcome × Coordinator
  unfolding append_routing
  send readings request request_id score selected c =
      let node_id = selected.node_id in
      let connections =
        put node_id (or_default (lookup node_id c.active_connections) 0 + 1) c.active_connections in
      elim (lookup node_id c.tiles) [
        | none ↦ (raise key_error, record c { active_connections = connections })
        | some tile ↦
            let (ledger, entry) =
              append_routing c.routing_ledger request_id node_id
                (or_default request.model "unknown") score "least-connections+F1-seeded"
                (or_default request.label "LIVE") readings in
            (
              ok (dispatched request_id selected score entry),
              record c {
                active_connections = connections;
                tiles =
                    put node_id
                      (record tile {
                        total_jobs = tile.total_jobs + 1;
                        contribution = tile.contribution + 1;
                      })
                      c.tiles;
                routing_ledger = ledger;
              },
            )
      ]

  -- From the test whether a node is online.
  unfoldable pub route :
      Readings
      → Request floats
      → String
      → floats.F
      → List String
      → List Candidate
      → Coordinator
      → Result Outcome × Coordinator
  unfolding send
  route readings request request_id score down_nodes [] c = (ok (degraded score down_nodes), c)
  route readings request request_id score down_nodes (x ∷ online) c =
      elim (f1_least_connections_pick r request_id (x ∷ online)) [
        | raise e ↦ (raise e, c)
        | ok selected ↦ send readings request request_id score selected c
      ]

  abbrev pub id_of : Readings → Request floats → String
  id_of readings request =
      if truthy request.request_id then or_default request.request_id "" else readings.token_hex

  unfoldable pub dispatch : Readings → Request floats → Coordinator → Result Outcome × Coordinator
  unfolding route
  dispatch readings request c =
      let request_id = id_of readings request in
      let (seen, relay) = is_duplicate request_id readings.now readings.then_now c.relay in
      let c' = record c { relay = relay } in
      if seen then (ok duplicate, c') else elim (lambda_gate_check floats request) [
        | raise e ↦ (raise e, c')
        | ok checked ↦
            if not checked.0
            then (ok (rejected checked.1), c')
            else let candidates = map (candidate_of c') (values c'.tiles) in
              route readings request request_id checked.1
                (map (λ x. x.node_id) (select (λ x. not (is_up x.status)) candidates))
                (select (λ x. is_up x.status) candidates) c'
      ]
