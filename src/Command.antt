-- ===== src/Command.antt =====
-- mesh_command/app.py: the vector clocks of the merge observatory (`compare_clocks`, `merge_clock`).
-- A clock is the validated dictionary of a `Clock`.
pub mod Clocks
pub mod Merge
mod Tests
use szl_mesh.Common.Dict.{Dict, lookup, put, keys}
use szl_mesh.Common.Order.{str_ord, nat_ord, pair_ord}
use szl_mesh.Common.Sort.{sort_by}
use szl_mesh.Common.{ℕ, max, Bool, true, false, String, none, some, List, [], ◌∷◌, ◌++◌, all, leb}

abbrev pub Clock : Type 0
Clock = Dict String ℕ

-- `values.get(name, 0)`
unfoldable pub counter : String → Clock → ℕ
counter name c = elim (lookup name c) [ none ↦ 0 | some n ↦ n ]

pub data Relation : Type 0 where
  before after equal concurrent : Relation

abbrev pub relation_of : Bool → Bool → Relation
relation_of true true = equal
relation_of true false = before
relation_of false true = after
relation_of false false = concurrent

-- A name in both clocks is tested twice, which does not matter to `all`.
unfoldable pub compare_clocks : Clock → Clock → Relation
unfolding counter
compare_clocks left right =
    let names = keys left ++ keys right in
    relation_of (all (λ name. leb (counter name left) (counter name right)) names)
      (all (λ name. leb (counter name right) (counter name left)) names)

-- The inner loop of `merge_clock`.
unfoldable pub merge_values : Clock → Clock → Clock
merge_values merged [] = merged
merge_values merged ((node, n) ∷ values) =
    merge_values (put node (max (counter node merged) n) merged) values

unfoldable pub merge_loop : Clock → List Clock → Clock
merge_loop merged [] = merged
merge_loop merged (c ∷ clocks) = merge_loop (merge_values merged c) clocks

unfoldable pub merge_clock : List Clock → Clock
unfolding merge_loop
merge_clock clocks = sort_by (λ e. e) (merge_loop [] clocks)
