-- ===== src/Coordinator/Tile/Keyed.antt =====
-- The invariant of the coordinator's tiles: `_tiles` maps a node's identifier to its own tile.
use szl_mesh.Common.Dict.{Dict, lookup, values, IsMap, All-entries}
use szl_mesh.Common.Order.{str_ord}
use szl_mesh.Common.{String, some, ◌≡◌, ap, All, All-imp, All-map, All-both}
use szl_mesh.Coordinator.Tile.{NodeTile}

-- Every tile stands under its own identifier, once.
abbrev pub WellKeyed : Dict String NodeTile → Type 0
WellKeyed tiles = IsMap tiles × All (λ e. e.1.node_id ≡ e.0) tiles

abbrev pub Kept : Dict String NodeTile → NodeTile → Type 0
Kept tiles t = lookup t.node_id tiles ≡ some t

pub Kept-values : (tiles : Dict String NodeTile) → WellKeyed tiles → All (Kept tiles) (values tiles)
Kept-values tiles w =
    All-map (Kept tiles) (λ e. e.1) tiles
      (All-imp tiles
        (All-both (λ e. lookup e.0 tiles ≡ some e.1) (λ e. e.1.node_id ≡ e.0) tiles
          (All-entries tiles w.0) w.1)
        (λ e h. cc (h.0, ap (λ k. lookup k tiles) h.1)))
