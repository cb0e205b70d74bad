-- ===== src/Coordinator/Plan.antt =====
-- `_pipeline_plan`: the greedy walk that covers the layers [0, total_layers) with UP tiles.
pub mod Walk
pub mod Cover
use szl_mesh.Common.Best.{best}
use szl_mesh.Common.Dict.{values}
use szl_mesh.Common.Order.{◌=?◌, str_ord, nat_ord, pair_ord}
use szl_mesh.Common.Sort.{sort_by}
use szl_mesh.Common.{
  ℕ, zero, suc, ◌+◌, Bool, true, false, not, ◌&&◌, String, List, [], ◌∷◌, none, some, if◌then◌else◌,
  ltb, leb, select, length,
}
use szl_mesh.Coordinator.Tile.{NodeTile, Coordinator, is_up}

abbrev pub reaches : ℕ → NodeTile → Bool
reaches cursor t = leb t.layer_start cursor && ltb cursor t.layer_end

-- `t is not best`: the tiles of a coordinator are one object per node.
abbrev pub other_than : String → NodeTile → Bool
other_than node_id t = not (t.node_id =? node_id)

-- The loop, with `guard` counting down as in the source; the answer where it runs out is the one
-- after the loop.
unfoldable pub plan_loop : ℕ → ℕ → ℕ → List NodeTile → List NodeTile × Bool
plan_loop total zero cursor remaining = ([], leb total cursor)
plan_loop total (suc guard) cursor remaining = elim (leb total cursor) [
  | true ↦ ([], true)
  | false ↦ elim (best (λ (t : NodeTile). t.layer_end) none (select (reaches cursor) remaining)) [
    | none ↦ ([], false)
    | some b ↦
        let (stages, covered) =
          plan_loop total guard b.layer_end (select (other_than b.node_id) remaining) in
        (b ∷ stages, covered)
  ]
]

abbrev pub span : NodeTile → ℕ × ℕ
span t = (t.layer_start, t.layer_end)

unfoldable pub pipeline_plan : Coordinator → List NodeTile × Bool
unfolding plan_loop
pipeline_plan c =
    let up = sort_by span (select (λ t. is_up t.status) (values c.tiles)) in
    plan_loop c.total_layers (length up + 1) 0 up
