-- ===== src/Command/Tests.antt =====
-- Examples of vector clocks.
use szl_mesh.Command.Merge.Groups.{candidates, all_at}
use szl_mesh.Command.Merge.Winner.{IsWinner, IsFrom, shown-merge_snapshots}
use szl_mesh.Command.Merge.{
  Register, Snapshot, Candidate, Selected, MergeRequest, merge_snapshots, winner_of, winner_key,
  group_of,
}
use szl_mesh.Common.Best.{best}
use szl_mesh.Common.Json.{Hashing, int}
use szl_mesh.Common.Sort.{sort_by, place}
use szl_mesh.Command.{Clock, Relation, counter, compare_clocks}
use szl_mesh.Common.Dict.{lookup, put}
use szl_mesh.Common.Order.{str_ord, nat_ord, bool_ord, pair_ord}
use szl_mesh.Common.{ℕ, String, true, false, not, ◌||◌, List, ◌⊎◌, [], ◌∷◌, ◌≡◌, refl}

abbrev alpha : Clock
alpha = ("a", 2) ∷ ("b", 1) ∷ []

abbrev bravo : Clock
bravo = ("b", 3) ∷ ("c", 1) ∷ []

compare_clocks_concurrent : compare_clocks alpha bravo ≡ Relation.concurrent
unfolding compare_clocks lookup str_ord counter
compare_clocks_concurrent = refl

abbrev register : ℕ → String → ℕ → Register
register time writer n = record {
  key = "route";
  value = int n;
  logical_time = time;
  writer = writer;
  tombstone = false;
}

abbrev hashing : Hashing
hashing = record {
  canonical = λ j. [];
  canonical_json = λ j. [];
  utf8 = λ s. [];
  sha256 = λ bs. "digest";
  hmac_sha256 = λ k bs. bs;
  base64 = λ bs. "";
}

abbrev west : Snapshot
west = record { node_id = "west"; clock = alpha; registers = register 2 "w" 7 ∷ [] }

abbrev east : Snapshot
east = record { node_id = "east"; clock = bravo; registers = register 3 "e" 8 ∷ [] }

abbrev arrived : List Snapshot
arrived = west ∷ east ∷ []

abbrev asked : MergeRequest
asked = record { snapshots = arrived; include_tombstones = false }

-- The later write is selected.
east_wins :
    all_at "route" (merge_snapshots hashing asked).body.registers
    ≡ record { register = register 3 "e" 8; selected_from_node = "east"; value_sha256 = "digest" }
      ∷ []
unfolding merge_snapshots str_ord nat_ord bool_ord sort_by place lookup put best winner_of
    winner_key group_of pair_ord
east_wins = refl

shown-merge_snapshots_example :
    ((candidates "route" arrived ≡ [])
      × (all_at "route" (merge_snapshots hashing asked).body.registers ≡ []))
    ⊎ ((w : Candidate) × IsWinner hashing (candidates "route" arrived) w
        × (((w.1.tombstone ≡ true)
              × (false ≡ false)
              × (all_at "route" (merge_snapshots hashing asked).body.registers ≡ []))
            ⊎ (((not w.1.tombstone || false) ≡ true)
                × (x : Selected) × (all_at "route" (merge_snapshots hashing asked).body.registers
                    ≡ x ∷ [])
                × IsFrom hashing w x)))
shown-merge_snapshots_example = shown-merge_snapshots hashing false "route" arrived
