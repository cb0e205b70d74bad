-- ===== src/Coordinator/Pick.antt =====
-- `f1_seeded_pick` and `f1_least_connections_pick`: which node serves a request.
pub mod Least
pub mod Replay
use Prim.Native.String.{◌++◌ as append_str}
use szl_mesh.Common.Json.{Json}
use szl_mesh.Common.Order.{◌=?◌, str_ord}
use szl_mesh.Common.Result.{Result, ok, raise, ◌>>=◌, value_error, runtime_error, stop_iteration}
use szl_mesh.Common.Sort.{sort_by}
use szl_mesh.Common.{
  ℕ, Bool, true, String, List, [], ◌∷◌, ◌≡◌, if◌then◌else◌, select, min, map, ◌==◌, any,
}
use szl_mesh.Common.Members.{mem}
use szl_mesh.Coordinator.Tile.{TileStatus, is_up}

pub record Candidate : Type 0 where
  pub node_id : String
  pub node_name : String
  pub hostname : String
  pub port : ℕ
  pub vram_gb : Json
  pub layer_start : ℕ
  pub layer_end : ℕ
  pub active_connections : ℕ
  pub status : TileStatus

-- What the source uses of the standard library: `seed_of` is the first sixteen hexadecimal digits
-- of a text's SHA-256 as a number, and `choice` is `random.Random(seed).choice(xs)`, which returns
-- an element of a list that is not empty.
pub record Random : Type 0 where
  pub seed_of : String → ℕ
  pub choice : ℕ → List String → String
  pub choice_mem :
      (seed : ℕ) (x : String) (xs : List String) → mem (choice seed (x ∷ xs)) (x ∷ xs) ≡ true

-- `",".join(xs)`
abbrev pub join : List String → String
join [] = ""
join (x ∷ []) = x
join (x ∷ y ∷ xs) = append_str x (append_str "," (join (y ∷ xs)))

abbrev pub min_from : ℕ → List Candidate → ℕ
min_from n [] = n
min_from n (c ∷ cs) = min_from (min n c.active_connections) cs

-- `next(c for c in cs if c["node_id"] == id)`
unfoldable pub first_with_id : String → List Candidate → Result Candidate
first_with_id id [] = raise stop_iteration
first_with_id id (c ∷ cs) = if c.node_id =? id then ok c else first_with_id id cs

module _ (r : Random) where
  unfoldable pub f1_seeded_pick : String → List String → Result String
  f1_seeded_pick request_id [] = raise value_error
  f1_seeded_pick request_id (x ∷ xs) =
      let sorted = sort_by (λ i. i) (x ∷ xs) in
      ok (r.choice (r.seed_of (append_str request_id (append_str "|" (join sorted)))) sorted)

  unfoldable pub break_tie : String → List Candidate → Result Candidate
  unfolding first_with_id
  break_tie request_id (c ∷ []) = ok c
  break_tie request_id tied = do
    picked_id ← f1_seeded_pick request_id (map (λ c. c.node_id) tied)
    first_with_id picked_id tied

  unfoldable pub least_of : String → List Candidate → Result Candidate
  least_of request_id [] = raise runtime_error
  least_of request_id (c ∷ online) =
      let min_conns = min_from c.active_connections online in
      break_tie request_id (select (λ x. x.active_connections == min_conns) (c ∷ online))

  unfoldable pub f1_least_connections_pick : String → List Candidate → Result Candidate
  unfolding least_of
  f1_least_connections_pick request_id candidates =
      least_of request_id (select (λ c. is_up c.status) candidates)
