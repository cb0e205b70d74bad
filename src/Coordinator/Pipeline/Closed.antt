-- ===== src/Coordinator/Pipeline/Closed.antt =====
-- What `run_pipeline` answers: within its budget, closed by receipts, and converged only where each
-- stage of a covering plan was dispatched.
use szl_mesh.Agent.Gate.{Floats, Request, truthy, or_default, given_score}
use szl_mesh.Common.Json.{Hashing}
use szl_mesh.Common.Result.{Result-cases, Exception, raise}
use szl_mesh.Common.{
  ℕ, ◌≤◌, Bool, true, false, not, ◌&&◌, String, Option, none, some, List, [], ◌∷◌, ◌+◌, ◌≡◌, ◌≢◌,
  refl, ap, arith, ◌==◌, length, all, if◌then◌else◌, leb, Bool-cases, inl, inr, ◌⊎◌, select,
}
use szl_mesh.Coordinator.Dispatch.Valid.{IsSound}
use szl_mesh.Coordinator.Dispatch.{Readings, dispatch}
use szl_mesh.Coordinator.Pick.{Random}
use szl_mesh.Coordinator.Pipeline.Budget.{
  Stages, finished, exhausted, failed, stopped, sent, run_stages-Stages, Stages-steps,
  Stages-complete, Stages-IsSound,
}
use szl_mesh.Coordinator.Pipeline.{
  Exit, converged, error, Run, is_dispatched, loop_budget, budget_of, run_stages, run_pipeline,
  exit_of, stage_request, max_loop_budget,
}
use szl_mesh.Coordinator.Plan.{pipeline_plan}
use szl_mesh.Coordinator.Tile.{NodeTile, Coordinator}

-- The budget is at least one step, and at most `MAX_LOOP_BUDGET`.
budget_of-bounds :
    (max_steps env : Option ℕ)
    → (1 ≤ budget_of max_steps env) × (budget_of max_steps env ≤ max_loop_budget)
unfolding budget_of loop_budget
budget_of-bounds none none = (ground arith, ground arith)
budget_of-bounds none (some v) = (ground arith, ground arith)
budget_of-bounds (some m) none = (ground arith, ground arith)
budget_of-bounds (some m) (some v) = (ground arith, ground arith)

abbrev pub is_converged : Exit → Bool
is_converged converged = true
is_converged _ = false

abbrev left_converged : Option Exit → Bool
left_converged none = false
left_converged (some exit) = is_converged exit

abbrev pub is_nil {ℓ} : {A : Type ℓ} → List A → Bool
is_nil [] = true
is_nil (x ∷ xs) = false

exit_of-converged :
    (exit : Option Exit) (plan : List NodeTile) (covered : Bool)
    → left_converged exit ≡ false
    → is_converged (exit_of exit plan covered)
      ≡ (covered && not (is_nil plan)) && elim exit [ none ↦ true | some _ ↦ false ]
exit_of-converged none [] covered l = ground arith
exit_of-converged none (t ∷ plan) covered l = ground arith
exit_of-converged (some exit) plan covered l = ground (arith, l)

exit_of-error :
    (exit : Option Exit) (plan : List NodeTile) (covered : Bool)
    → exit_of exit plan covered ≡ error
    → exit ≡ some error
exit_of-error none [] covered e = cc
exit_of-error none (t ∷ plan) true e = cc
exit_of-error none (t ∷ plan) false e = cc
exit_of-error (some exit) plan covered e = ap some e

module _ (floats : Floats) (h : Hashing) (r : Random) where
  module _ (readings : ℕ → Readings) (request : Request floats) (base : String) (budget : ℕ) where
    Stages-left :
        {tiles : List NodeTile} {step : ℕ} {c : Coordinator} {run : Run floats h r}
        → Stages floats h r readings request base budget tiles step c run
        → left_converged run.exit ≡ false
    Stages-left finished = refl
    Stages-left (exhausted full) = refl
    Stages-left (failed e below raised) = refl
    Stages-left (stopped o below returned not_sent) = refl
    Stages-left (sent o below returned was_sent rest) = Stages-left rest

    -- The dispatches depend on the number of the planned stages and not on the tiles that the plan
    -- names: two plans of one length run alike.
    pub run_stages_blind :
        (plan other : List NodeTile) (step : ℕ) (c : Coordinator)
        → length plan ≡ length other
        → run_stages floats h r readings request base budget plan step c
          ≡ run_stages floats h r readings request base budget other step c
    unfolding run_stages
    run_stages_blind [] [] step c e = refl
    run_stages_blind [] (u ∷ other) step c e = absurd (omega (arith, e))
    run_stages_blind (t ∷ plan) [] step c e = absurd (omega (arith, e))
    run_stages_blind (t ∷ plan) (u ∷ other) step c e =
        let (result, c') =
          dispatch floats h r (readings (step + 1))
            (stage_request floats h r readings request base budget (step + 1)) c in
        elim (Bool-cases (leb budget step)) [
          | inl full ↦ rw (full, run_stages) refl
          | inr free ↦ elim (Result-cases result) [
            | inr (x, raised) ↦ rw (free, raised, run_stages) refl
            | inl (o, returned) ↦ elim (Bool-cases (is_dispatched floats h r o)) [
              | inr not_sent ↦ rw (free, returned, not_sent, run_stages) refl
              | inl was_sent ↦
                  rw (free, returned, was_sent, run_stages)
                    (ap (λ (run : Run floats h r). record run { results = o ∷ run.results })
                      (run_stages_blind plan other (step + 1) c' (omega (arith, e))))
            ]
          ]
        ]

  -- A pipeline run converges exactly if its plan covers the layers and is not empty, and each
  -- stage of the plan has a result, all of them dispatched.
  pub run_pipeline-converged :
      (max_steps env : Option ℕ) (readings : ℕ → Readings) (request : Request floats)
      (c : Coordinator)
      → let answer = (run_pipeline floats h r max_steps env readings request c).0 in
        let (plan, covered) = pipeline_plan c in
        is_converged answer.exit
        ≡ (covered && not (is_nil plan))
          && (all (is_dispatched floats h r) answer.stages && length answer.stages == length plan)
  unfolding run_pipeline
  run_pipeline-converged max_steps env readings request c =
      let (plan, covered) = pipeline_plan c in
      let base =
        if truthy request.request_id
        then or_default request.request_id ""
        else (readings 0).token_hex in
      let budget = budget_of max_steps env in
      let run = run_stages floats h r readings request base budget plan 0 c in
      let walk = run_stages-Stages floats h r readings request base budget plan 0 c in
      ground (
        arith,
        exit_of-converged run.exit plan covered (Stages-left readings request base budget walk),
        Stages-complete floats h r readings request base budget walk,
      )

  -- A pipeline run takes at most as many steps as its budget, which is between 1 and 1024, and as
  -- the plan has stages. From a sound state it ends in an error only if the request's score is no
  -- number, so that its conversion raises; it leaves a sound state, and appends exactly one receipt
  -- for each stage that it dispatched.
  pub run_pipeline-IsSound :
      (max_steps env : Option ℕ) (readings : ℕ → Readings) (request : Request floats)
      (c : Coordinator)
      → IsSound floats h r c
      → let (answer, c') = run_pipeline floats h r max_steps env readings request c in
        (answer.steps ≤ answer.max_budget)
        × (1 ≤ answer.max_budget)
        × (answer.max_budget ≤ 1024)
        × (answer.steps ≤ length (pipeline_plan c).0)
        × IsSound floats h r c'
        × ((answer.exit ≢ error) ⊎ ((e : Exception) × (given_score floats request ≡ raise e)))
        × (length c'.routing_ledger.chain
            ≡ length c.routing_ledger.chain
              + length (select (is_dispatched floats h r) answer.stages))
  unfolding run_pipeline
  run_pipeline-IsSound max_steps env readings request c s =
      let (plan, covered) = pipeline_plan c in
      let base =
        if truthy request.request_id
        then or_default request.request_id ""
        else (readings 0).token_hex in
      let budget = budget_of max_steps env in
      let run = run_stages floats h r readings request base budget plan 0 c in
      let walk = run_stages-Stages floats h r readings request base budget plan 0 c in
      let (within, at_most) =
        Stages-steps floats h r readings request base budget walk (omega arith) in
      let (sound, fine, counted) = Stages-IsSound floats h r readings request base budget walk s in
      let (positive, capped) = budget_of-bounds max_steps env in
      (
        within,
        positive,
        capped,
        omega (arith, at_most),
        sound,
        elim (Result-cases (given_score floats request)) [
          | inr unscored ↦ inr unscored
          | inl (given, read) ↦
              inl (λ e. cc (read, (fine (exit_of-error run.exit plan covered e)).1))
        ],
        counted,
      )
