-- ===== src/Coordinator/Pipeline.antt =====
-- `_loop_budget` and `run_pipeline`: one dispatch for each stage of the plan, within a budget. The
-- trace of labels that the source builds beside the results is left out.
pub mod Budget
pub mod Closed
use Prim.Native.String.{◌++◌ as append_str}
use szl_mesh.Agent.Gate.{Floats, Request, truthy, or_default}
use szl_mesh.Common.Json.{Hashing}
use szl_mesh.Common.Result.{ok, raise}
use szl_mesh.Common.{
  ℕ, zero, suc, ◌+◌, ◌/◌, ◌%◌, min, Bool, true, false, ◌&&◌, String, Option, none, some, List, [],
  ◌∷◌, if◌then◌else◌, ltb, leb, get_elem?,
}
use szl_mesh.Coordinator.Dispatch.{Readings, Outcome, dispatch}
use szl_mesh.Coordinator.Pick.{Random}
use szl_mesh.Coordinator.Plan.{pipeline_plan}
use szl_mesh.Coordinator.Tile.{NodeTile, Coordinator}

abbrev pub default_loop_budget : ℕ
default_loop_budget = 8

abbrev pub max_loop_budget : ℕ
max_loop_budget = 1024

-- The variable's number, if its text is one. A negative number is read as 0, which is refused too.
unfoldable pub loop_budget : Option ℕ → ℕ
loop_budget none = default_loop_budget
loop_budget (some val) = if ltb val 1 then default_loop_budget else min val max_loop_budget

unfoldable pub budget_of : Option ℕ → Option ℕ → ℕ
unfolding loop_budget
budget_of none env = min (loop_budget env) max_loop_budget
budget_of (some max_steps) env =
    min (if leb 1 max_steps then max_steps else loop_budget env) max_loop_budget

abbrev pub digit : ℕ → String
digit n =
    or_default (get_elem? ("0" ∷ "1" ∷ "2" ∷ "3" ∷ "4" ∷ "5" ∷ "6" ∷ "7" ∷ "8" ∷ "9" ∷ []) n) ""

-- `str(n)`, for `n` below the fuel.
abbrev pub number_loop : ℕ → ℕ → String
number_loop zero n = ""
number_loop (suc f) n =
    let rest = number_loop f (n / 10) in
    if ltb n 10 then digit n else append_str rest (digit (n % 10))

unfoldable pub stage_id : String → ℕ → String
stage_id base step = append_str base (append_str "::stage" (number_loop (suc step) step))

pub data Exit : Type 0 where
  converged budget_exhausted degraded error : Exit

-- The answer of a loop that was not left early depends on the plan.
abbrev pub exit_of : Option Exit → List NodeTile → Bool → Exit
exit_of (some exit) plan covered = exit
exit_of none [] covered = degraded
exit_of none (t ∷ plan) covered = if covered then converged else degraded

module _ (floats : Floats) (h : Hashing) (r : Random) where
  abbrev pub is_dispatched : Outcome floats h r → Bool
  is_dispatched (Outcome.dispatched request_id selected score entry) = true
  is_dispatched _ = false

  -- How the loop over the stages ended, where it was left early, and what it leaves.
  pub record Run : Type 0 where
    pub exit : Option Exit
    pub steps : ℕ
    pub results : List (Outcome floats h r)
    pub coordinator : Coordinator

  -- What the clock gives is given for each step.
  module _ (readings : ℕ → Readings) (request : Request floats) (base : String) (budget : ℕ) where
    abbrev pub stage_request : ℕ → Request floats
    stage_request step = record request { request_id = some (stage_id base step) }

    unfoldable pub run_stages : List NodeTile → ℕ → Coordinator → Run
    run_stages [] step c = record { exit = none; steps = step; results = []; coordinator = c }
    run_stages (tile ∷ tiles) step c =
        let (result, c') = dispatch floats h r (readings (step + 1)) (stage_request (step + 1)) c in
        let rest = run_stages tiles (step + 1) c' in
        if leb budget step
        then record { exit = some budget_exhausted; steps = step; results = []; coordinator = c }
        else elim result [
          | raise e ↦ record { exit = some error; steps = step + 1; results = []; coordinator = c' }
          | ok o ↦ if is_dispatched o then record rest { results = o ∷ rest.results } else record {
            exit = some degraded;
            steps = step + 1;
            results = o ∷ [];
            coordinator = c';
          }
        ]

  pub record Answer : Type 0 where
    pub exit : Exit
    pub steps : ℕ
    pub max_budget : ℕ
    pub stages : List (Outcome floats h r)
    pub pipeline_covered : Bool
    pub request_id : String

  unfoldable pub run_pipeline :
      Option ℕ → Option ℕ → (ℕ → Readings) → Request floats → Coordinator → Answer × Coordinator
  unfolding run_stages budget_of
  run_pipeline max_steps env readings request c =
      let budget = budget_of max_steps env in
      let base =
        if truthy request.request_id
        then or_default request.request_id ""
        else (readings 0).token_hex in
      let (plan, covered) = pipeline_plan c in
      let run = run_stages readings request base budget plan 0 c in
      (
        record {
          exit = exit_of run.exit plan covered;
          steps = run.steps;
          max_budget = budget;
          stages = run.results;
          pipeline_covered = covered;
          request_id = base;
        },
        run.coordinator,
      )
