-- ===== src/Coordinator/Join.antt =====
-- How nodes join the coordinator and stay in touch (szl_mesh_coordinator.py, `join_node` and
-- `receive_heartbeat`). The mesh secret is the routing ledger's, which is made with it.
pub mod Joined
use szl_mesh.Agent.Token.{NodeHardware, Encoding, node_id_of, issue_join_token, verify_join_token}
use szl_mesh.Common.Dict.{Dict, lookup, put, values}
use szl_mesh.Common.Json.{Json, Bytes, Hashing}
use szl_mesh.Common.Order.{str_ord}
use szl_mesh.Common.Truth.{get, is_text}
use szl_mesh.Common.{ℕ, Bool, true, false, String, none, some, List, map, if◌then◌else◌}
use szl_mesh.Coordinator.Layers.{Amounts, Registered, assign_layers}
use szl_mesh.Coordinator.Tile.{Coordinator, NodeTile, up}

abbrev pub mesh_secret : Coordinator → Bytes
mesh_secret c = c.routing_ledger.secret

module _ (h : Hashing) (encoding : Encoding) (amounts : Amounts) where
  abbrev pub registered_of : NodeTile → Registered amounts.F
  registered_of tile = record {
    vram_gb = amounts.of_json tile.vram_gb;
    layer_start = tile.layer_start;
    layer_end = tile.layer_end;
  }

  abbrev pub registered_nodes : Coordinator → List (Registered amounts.F)
  registered_nodes c = map registered_of (values c.tiles)

  -- The clock is read for the token, and for the tile.
  unfoldable pub new_tile : NodeHardware → ℕ → ℕ → Coordinator → NodeTile
  unfolding node_id_of
  new_tile hw issued seen c =
      let (ls, le) =
        assign_layers amounts c.total_layers (registered_nodes c) (amounts.of_json hw.vram_gb) in
      record {
        node_id = node_id_of h hw;
        node_name = hw.node_name;
        hostname = hw.hostname;
        port = hw.port;
        arch = hw.arch;
        backend = hw.backend;
        vram_gb = hw.vram_gb;
        cpu_ram_gb = hw.cpu_ram_gb;
        layer_start = ls;
        layer_end = le;
        token = issue_join_token h encoding hw (mesh_secret c) c.token_ttl issued;
        status = up;
        active_connections = 0;
        total_jobs = 0;
        contribution = 0;
        last_seen = seen;
        down_reason = none;
      }

  -- The tile, which holds the token that is returned, and the new state.
  unfoldable pub join_node : NodeHardware → ℕ → ℕ → Coordinator → NodeTile × Coordinator
  unfolding new_tile
  join_node hw issued seen c =
      let tile = new_tile hw issued seen c in
      (
        tile,
        record c {
          tiles = put (node_id_of h hw) tile c.tiles;
          active_connections = put (node_id_of h hw) 0 c.active_connections;
        },
      )

  -- The clock is read for the token, and for the tile.
  unfoldable pub receive_heartbeat : String → String → ℕ → ℕ → Coordinator → Bool × Coordinator
  receive_heartbeat node_id token checked seen c =
      elim (verify_join_token h encoding token (mesh_secret c) c.revocation_store checked) [
        | none ↦ (false, c)
        | some payload ↦
            if is_text node_id (get "node_id" payload)
            then elim (lookup node_id c.tiles) [
              | none ↦ (true, c)
              | some tile ↦ (
                true,
                record c {
                  tiles = put node_id (record tile { last_seen = seen; status = up }) c.tiles;
                },
              )
            ]
            else (false, c)
      ]
