-- ===== src/Coordinator/Tile.antt =====
-- The coordinator's state, and the methods that change single tiles (`evict_stale_tiles`,
-- `revoke_node`, `is_revoked`, `job_complete`).
pub mod Keyed
use szl_mesh.Agent.Ledger.{Ledger}
use szl_mesh.Common.Dict.{Dict, lookup, put}
use szl_mesh.Common.Json.{Json}
use szl_mesh.Common.Order.{str_ord}
use szl_mesh.Common.{
  ℕ, ◌-◌, Bool, true, false, ◌&&◌, String, Option, none, some, List, [], ◌∷◌, if◌then◌else◌, ltb,
}
use szl_mesh.Common.Members.{mem}
use szl_mesh.Coordinator.Bft.{Bft}
use szl_mesh.Coordinator.Relay.{Relay}

pub data TileStatus : Type 0 where
  up down : TileStatus

abbrev pub is_up : TileStatus → Bool
is_up up = true
is_up down = false

-- The texts of `down_reason`.
pub data DownReason : Type 0 where
  heartbeat_timeout : ℕ → DownReason
  operator_revocation : DownReason

-- Memory sizes are JSON numbers; times are read in ticks of a second. A contribution is counted
-- in credits of `AYNI_CREDIT_PER_JOB`, which is 1.0.
pub record NodeTile : Type 0 where
  pub node_id : String
  pub node_name : String
  pub hostname : String
  pub port : ℕ
  pub arch : String
  pub backend : String
  pub vram_gb : Json
  pub cpu_ram_gb : Json
  pub layer_start : ℕ
  pub layer_end : ℕ
  pub token : String
  pub status : TileStatus
  pub active_connections : ℕ
  pub total_jobs : ℕ
  pub contribution : ℕ
  pub last_seen : ℕ
  pub down_reason : Option DownReason

pub record Coordinator : Type 0 where
  pub total_layers : ℕ
  pub token_ttl : ℕ
  pub tiles : Dict String NodeTile
  pub revocation_store : List String
  pub routing_ledger : Ledger
  pub relay : Relay
  pub bft : Bft
  pub active_connections : Dict String ℕ

abbrev pub node_offline_timeout_s : ℕ
node_offline_timeout_s = 90

abbrev expired : ℕ → NodeTile → Bool
expired now tile = is_up tile.status && ltb node_offline_timeout_s (now - tile.last_seen)

-- The tiles after an eviction, and the nodes newly marked DOWN.
unfoldable pub evict_tiles : ℕ → Dict String NodeTile → Dict String NodeTile × List String
evict_tiles now [] = ([], [])
evict_tiles now ((id, tile) ∷ tiles) =
    let (tiles', evicted) = evict_tiles now tiles in
    if expired now tile
    then (
      (
        id,
        record tile {
          status = down;
          down_reason = some (heartbeat_timeout (now - tile.last_seen));
        },
      )
          ∷ tiles',
      id ∷ evicted,
    )
    else ((id, tile) ∷ tiles', evicted)

unfoldable pub evict_stale_tiles : ℕ → Coordinator → List String × Coordinator
unfolding evict_tiles
evict_stale_tiles now c =
    let (tiles, evicted) = evict_tiles now c.tiles in (evicted, record c { tiles = tiles })

unfoldable pub revoke_node : String → Coordinator → Coordinator
revoke_node node_id c =
    let store =
      if mem node_id c.revocation_store then c.revocation_store else node_id ∷ c.revocation_store in
    elim (lookup node_id c.tiles) [
      | none ↦ record c { revocation_store = store }
      | some tile ↦ record c {
        revocation_store = store;
        tiles =
            put node_id (record tile { status = down; down_reason = some operator_revocation })
              c.tiles;
      }
    ]

unfoldable pub is_revoked : String → Coordinator → Bool
is_revoked node_id c = mem node_id c.revocation_store

-- A counter at 0 stays there.
unfoldable pub job_complete : String → Coordinator → Coordinator
job_complete node_id c = elim (lookup node_id c.active_connections) [
  | none ↦ c
  | some n ↦ record c { active_connections = put node_id (n - 1) c.active_connections }
]
