-- ===== src/Agent/Registry.antt =====
-- `NodeRegistry` (szl_mesh_agent.py): the nodes that a process knows. A contribution is counted in
-- credits of `AYNI_CREDIT_PER_JOB`, which is 1.0; times are read in seconds.
use szl_mesh.Agent.Token.{NodeHardware, node_id_of}
use szl_mesh.Common.Dict.{Dict, lookup, put, values}
use szl_mesh.Common.Json.{Fields, Hashing}
use szl_mesh.Common.Order.{str_ord}
use szl_mesh.Common.{
  ℕ, ◌+◌, ◌-◌, Bool, true, false, ◌&&◌, String, none, some, List, [], ◌∷◌, if◌then◌else◌, ltb,
  select,
}

abbrev offline_timeout_s : ℕ
offline_timeout_s = 90

-- The status is ONLINE or OFFLINE.
pub record NodeInfo : Type 0 where
  pub hardware : NodeHardware
  pub token : Fields
  pub last_seen : ℕ
  pub is_online : Bool
  pub contribution : ℕ

abbrev pub NodeRegistry : Type 0
NodeRegistry = Dict String NodeInfo

unfoldable pub register : Hashing → NodeHardware → Fields → ℕ → NodeRegistry → NodeRegistry
register h hw token_payload now nodes =
    put (node_id_of h hw)
      (record {
        hardware = hw;
        token = token_payload;
        last_seen = now;
        is_online = true;
        contribution = 0;
      })
      nodes

unfoldable pub registry_heartbeat : String → ℕ → NodeRegistry → Bool × NodeRegistry
registry_heartbeat node_id now nodes = elim (lookup node_id nodes) [
  | none ↦ (false, nodes)
  | some info ↦ (true, put node_id (record info { last_seen = now; is_online = true }) nodes)
]

-- The nodes after an eviction, and those newly marked OFFLINE.
unfoldable pub evict_stale : ℕ → NodeRegistry → NodeRegistry × List String
evict_stale now [] = ([], [])
evict_stale now ((id, info) ∷ nodes) =
    let (nodes', evicted) = evict_stale now nodes in
    if ltb offline_timeout_s (now - info.last_seen) && info.is_online
    then ((id, record info { is_online = false }) ∷ nodes', id ∷ evicted)
    else ((id, info) ∷ nodes', evicted)

pub online_nodes : NodeRegistry → List NodeInfo
online_nodes nodes = select (λ info. info.is_online) (values nodes)

-- The new balance, 0 for a node that is not there.
unfoldable pub add_contribution : String → ℕ → NodeRegistry → ℕ × NodeRegistry
add_contribution node_id delta nodes = elim (lookup node_id nodes) [
  | none ↦ (0, nodes)
  | some info ↦ (
    info.contribution + delta,
    put node_id (record info { contribution = info.contribution + delta }) nodes,
  )
]
