-- ===== src/Coordinator/Tests.antt =====
-- Runs and examples of the coordinator's parts.
use szl_mesh.Common.Dict.{lookup, has, put}
use szl_mesh.Common.Order.{str_ord, nat_ord}
use szl_mesh.Common.Result.{Result, Exception, raise, type_error}
use szl_mesh.Common.{
  ℕ, ◌⊎◌, false, ◌<◌, ◌≤◌, ◌↔◌, ◌-◌, true, none, some, List, ◌≡◌, refl, leb, length, select, ◌≢◌,
  ◌+◌, [], ◌∷◌, arith,
}
use szl_mesh.Agent.Gate.{given_score, lambda_gate_check}
use szl_mesh.Common.Json.{null}
use szl_mesh.Coordinator.Dispatch.Effects.{Fits}
use szl_mesh.Coordinator.Dispatch.Receipts.{dispatch_lem}
use szl_mesh.Coordinator.Dispatch.Valid.{IsSound}
use szl_mesh.Coordinator.Dispatch.{Outcome, dispatch}
use szl_mesh.Coordinator.Pipeline.Closed.{run_pipeline-IsSound}
use szl_mesh.Coordinator.Pipeline.{error, is_dispatched, run_pipeline}
use szl_mesh.Coordinator.Plan.Cover.{is_held, plan_covered_iff}
use szl_mesh.Coordinator.Plan.Walk.{plan_loop_ends}
use szl_mesh.Coordinator.Plan.{pipeline_plan, plan_loop}
use szl_mesh.Coordinator.Relay.{is_duplicate, evict, Check, checks, relay_once}
use szl_mesh.Coordinator.Tile.{Coordinator, up}
use szl_mesh.Coordinator.Samples.{
  relay, random, tile, mesh, mesh-WellKeyed, halves, toy, readings, request, mesh-IsSound,
}

abbrev between : List Check
between = ("c", (25, 25)) ∷ ("b", (200, 201)) ∷ ("c", (300, 300)) ∷ []

relay_once_example :
    (is_duplicate "b" 400 401 (checks between (is_duplicate "b" 20 21 relay).1)).0
    ≡ leb (400 - 21) 300
unfolding is_duplicate evict has lookup put str_ord
relay_once_example =
    relay_once "b" 20 21 between 400 401 relay (refl, tt) (refl, (refl, (refl, tt))) refl

plan_covered_iff_example :
    ((pipeline_plan mesh).1 ≡ true) ↔ ((l : ℕ) → l < 32 → is_held mesh l ≡ true)
plan_covered_iff_example = plan_covered_iff mesh mesh-WellKeyed

plan_loop_ends_example :
    plan_loop 32 3 0 (tile "a" 0 16 up ∷ tile "b" 12 32 up ∷ [])
    ≡ plan_loop 32 9 0 (tile "a" 0 16 up ∷ tile "b" 12 32 up ∷ [])
plan_loop_ends_example =
    plan_loop_ends 32 3 9 0 (tile "a" 0 16 up ∷ tile "b" 12 32 up ∷ []) (omega arith) (omega arith)

dispatch_lem_example :
    (result : Result (Outcome halves toy random)) × (c' : Coordinator) × (dispatch halves toy random
        (readings 0)
        request
        mesh
      ≡ (result, c'))
    × Fits halves toy random request "q" false mesh c' result
    × (c'.relay ≡ (is_duplicate "q" 400 400 relay).1)
unfolding is_duplicate evict has lookup put str_ord
dispatch_lem_example = dispatch_lem halves toy random (readings 0) request mesh mesh-WellKeyed

-- A score that is null is no number.
null_score :
    (dispatch halves toy random (readings 0) (record request { lambda_score = some null }) mesh).0
    ≡ raise type_error
unfolding dispatch is_duplicate evict has lookup put str_ord lambda_gate_check given_score
null_score = refl

run_pipeline-IsSound_example :
    let (answer, c') = run_pipeline halves toy random (some 5) none readings request mesh in
    (answer.steps ≤ answer.max_budget)
    × (1 ≤ answer.max_budget)
    × (answer.max_budget ≤ 1024)
    × (answer.steps ≤ length (pipeline_plan mesh).0)
    × IsSound halves toy random c'
    × ((answer.exit ≢ error) ⊎ ((e : Exception) × (given_score halves request ≡ raise e)))
    × (length c'.routing_ledger.chain
        ≡ 0 + length (select (is_dispatched halves toy random) answer.stages))
run_pipeline-IsSound_example =
    run_pipeline-IsSound halves toy random (some 5) none readings request mesh mesh-IsSound
