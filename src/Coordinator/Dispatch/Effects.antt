-- ===== src/Coordinator/Dispatch/Effects.antt =====
-- What each outcome of `dispatch` means for the coordinator.
use szl_mesh.Agent.Gate.{Floats, Request, Scored, given_score, or_default}
use szl_mesh.Agent.Ledger.{Entry}
use szl_mesh.Common.Dict.{lookup, values}
use szl_mesh.Common.Json.{Hashing}
use szl_mesh.Common.Result.{Result, ok, raise}
use szl_mesh.Common.Order.{◌=?◌, str_ord}
use szl_mesh.Common.{
  ℕ, ◌+◌, Bool, true, false, String, some, [], ◌∷◌, ◌++◌, ◌≡◌, map, any, if◌then◌else◌, select,
}
use szl_mesh.Coordinator.Dispatch.{candidate_of, Outcome}
use szl_mesh.Coordinator.Pick.Least.{Least}
use szl_mesh.Coordinator.Pick.{Candidate, Random}
use szl_mesh.Coordinator.Tile.{NodeTile, Coordinator, is_up}

-- Tiles, connections and receipts are as they were.
abbrev pub Untouched : Coordinator → Coordinator → Type 0
Untouched c c' =
    (c'.tiles ≡ c.tiles)
    × (c'.active_connections ≡ c.active_connections)
    × (c'.routing_ledger ≡ c.routing_ledger)

abbrev pub connections : Coordinator → String → ℕ
connections c id = or_default (lookup id c.active_connections) 0

-- The request went to an UP node with the fewest connections, which now has one more, and one
-- receipt for it was appended.
pub record Sent (c c' : Coordinator) (request_id : String) (selected : Candidate) (entry : Entry)
    : Type 0 where
  pub tile : NodeTile
  pub registered : lookup selected.node_id c.tiles ≡ some tile
  pub is_online : is_up tile.status ≡ true
  pub fewest : Least (select (λ x. is_up x.status) (map (candidate_of c) (values c.tiles))) selected
  pub counted :
      (id : String)
      → connections c' id
        ≡ (if selected.node_id =? id then connections c id + 1 else connections c id)
  pub credited :
      lookup selected.node_id c'.tiles
      ≡ some
          (record tile { total_jobs = tile.total_jobs + 1; contribution = tile.contribution + 1 })
  pub receipt : c'.routing_ledger.chain ≡ c.routing_ledger.chain ++ entry ∷ []
  pub names_request : entry.receipt.job_id ≡ request_id

module _ (floats : Floats) (h : Hashing) (r : Random) where
  abbrev pub Does : Coordinator → Coordinator → Outcome floats h r → Type 0
  Does c c' Outcome.duplicate = Untouched c c'
  Does c c' (Outcome.rejected score) = Untouched c c'
  Does c c' (Outcome.degraded score down_nodes) =
      Untouched c c' × (any (λ t. is_up t.status) (values c.tiles) ≡ false)
  Does c c' (Outcome.dispatched request_id selected score entry) =
      Sent c c' request_id selected entry

  -- The gate has read this score, which is enough or not.
  abbrev pub Gated : Request floats → floats.F → Bool → Type 0
  Gated request score passed =
      Scored floats request score × (floats.is_at_least score floats.half ≡ passed)

  -- Why a dispatch of a request with this identifier has its outcome; `seen` is the relay's answer.
  abbrev pub Decides : Request floats → String → Bool → Outcome floats h r → Type 0
  Decides request id seen Outcome.duplicate = seen ≡ true
  Decides request id seen (Outcome.rejected score) = (seen ≡ false) × Gated request score false
  Decides request id seen (Outcome.degraded score down_nodes) =
      (seen ≡ false) × Gated request score true
  Decides request id seen (Outcome.dispatched request_id selected score entry) =
      (seen ≡ false) × Gated request score true × (request_id ≡ id)

  -- What a dispatch gives and does, an exception included.
  abbrev pub Fits :
      Request floats
      → String
      → Bool
      → Coordinator
      → Coordinator
      → Result (Outcome floats h r)
      → Type 0
  Fits request id seen c c' (ok o) = Decides request id seen o × Does c c' o
  Fits request id seen c c' (raise e) =
      (seen ≡ false) × (given_score floats request ≡ raise e) × Untouched c c'
