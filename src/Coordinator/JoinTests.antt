-- ===== src/Coordinator/JoinTests.antt =====
-- Joins and heartbeats at concrete inputs.
use szl_mesh.Agent.JoinSamples.{payload, hashing, encoding, base64, tower}
use szl_mesh.Agent.Token.{node_id_of}
use szl_mesh.Common.Dict.{lookup}
use szl_mesh.Common.Json.{Json, int, get_field}
use szl_mesh.Common.Order.{str_ord}
use szl_mesh.Common.Truth.{get_or}
use szl_mesh.Common.{ℕ, true, false, String, some, List, [], ◌∷◌, ◌≡◌, refl, arith, map}
use szl_mesh.Coordinator.Join.Joined.{IsJoined, join_node-IsJoined, join-heartbeat, rejoin_revoked}
use szl_mesh.Coordinator.Join.{join_node, receive_heartbeat}
use szl_mesh.Coordinator.Layers.Exact.{IsExact, as_amount, assign_layers-IsLeastCovered}
use szl_mesh.Coordinator.Layers.Window.{IsLeastCovered, whole, sum}
use szl_mesh.Coordinator.Layers.{Amounts, Registered, cover, cover_range, assign_layers}
use szl_mesh.Coordinator.Samples.{mesh}
use szl_mesh.Coordinator.Tile.{Coordinator, up, is_revoked}

-- Whole numbers as amounts; a share is rounded down, and all JSON but numbers is nothing.
abbrev amount : Json → ℕ
amount (int n) = n
amount _ = 0

abbrev amounts : Amounts
amounts = record whole { of_json = amount }

abbrev same_number : ℕ → ℕ
same_number n = n

sum_same : (xs : List ℕ) → sum (map same_number xs) ≡ sum xs
sum_same [] = refl
sum_same (x ∷ xs) = omega (arith, sum_same xs)

amounts-IsExact : IsExact amounts 1000 same_number
amounts-IsExact = record {
  zero_of = refl;
  add_of = λ a b le. refl;
  shifted_of = λ w a b le l. refl;
  sum_of = λ xs le. sum_same xs;
  less_of = λ a b le l. refl;
}

abbrev registered_two : List (Registered ℕ)
registered_two =
    record { vram_gb = 16; layer_start = 0; layer_end = 6 }
    ∷ record { vram_gb = 8; layer_start = 4; layer_end = 8 }
    ∷ []

-- A node with 10 of 34 units gets two of ten layers, and those from 8 on are the least covered.
two_of_ten :
    assign_layers amounts 10
      (map (as_amount amounts 1000 same_number amounts-IsExact) registered_two)
      10
    ≡ (8, 10)
unfolding assign_layers
two_of_ten = refl

assign_layers-IsLeastCovered_example : IsLeastCovered 10 registered_two (
    assign_layers amounts 10
      (map (as_amount amounts 1000 same_number amounts-IsExact) registered_two)
      10)
unfolding cover cover_range
assign_layers-IsLeastCovered_example =
    assign_layers-IsLeastCovered amounts 1000 same_number amounts-IsExact 10 registered_two 10
      (omega arith)

abbrev joined : Coordinator
joined = (join_node hashing encoding amounts tower 100 101 mesh).1

join_node-IsJoined_example :
    IsJoined hashing encoding amounts tower 100 mesh joined
      (join_node hashing encoding amounts tower 100 101 mesh).0
join_node-IsJoined_example = join_node-IsJoined hashing encoding amounts tower 100 101 mesh

join-heartbeat_example :
    (c : Coordinator) × (receive_heartbeat hashing encoding amounts
        (node_id_of hashing tower)
        (join_node hashing encoding amounts tower 100 101 mesh).0.token
        200
        201
        joined
      ≡ (true, c))
    × (lookup (node_id_of hashing tower) c.tiles
        ≡ some (record (join_node hashing encoding amounts tower 100 101 mesh).0 {
          last_seen = 201;
          status = up;
        }))
unfolding get_or get_field str_ord node_id_of is_revoked
join-heartbeat_example =
    join-heartbeat hashing encoding amounts tower 100 101 200 201 mesh payload base64 refl refl refl
      (omega arith) refl

abbrev without_tower : Coordinator
without_tower = record mesh { revocation_store = "tower" ∷ [] }

rejoin_revoked_example :
    (lookup
        (node_id_of hashing tower)
        (join_node hashing encoding amounts tower 100 101 without_tower).1.tiles
      ≡ some (join_node hashing encoding amounts tower 100 101 without_tower).0)
    × ((join_node hashing encoding amounts tower 100 101 without_tower).0.status ≡ up)
    × ((token : String) (checked later : ℕ)
        → receive_heartbeat hashing encoding amounts
            (node_id_of hashing tower)
            token
            checked
            later
            (join_node hashing encoding amounts tower 100 101 without_tower).1
          ≡ (false, (join_node hashing encoding amounts tower 100 101 without_tower).1))
unfolding node_id_of is_revoked str_ord
rejoin_revoked_example = rejoin_revoked hashing encoding amounts tower 100 101 without_tower refl
