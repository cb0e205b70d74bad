-- ===== src/Coordinator/Pipeline/Budget.antt =====
-- The loop of `run_pipeline` as a relation that it follows, and what holds of its answer: its
-- budget, its exit and its receipts.
use szl_mesh.Agent.Gate.{Floats, Request, given_score}
use szl_mesh.Common.Json.{Hashing}
use szl_mesh.Common.Result.{Result, Exception, ok, raise, Result-cases, ok_inj}
use szl_mesh.Common.{
  ℕ, ◌+◌, ◌≤◌, ◌<◌, Bool, true, false, ◌&&◌, String, Option, none, some, List, [], ◌∷◌, ◌≡◌, refl,
  sym, ap, ◌∙◌, arith, leb, ◌==◌, length, length-append, all, Bool-cases, inl, inr, subst, select,
}
use szl_mesh.Coordinator.Dispatch.Effects.{Does, Fits}
use szl_mesh.Coordinator.Dispatch.Receipts.{dispatch_lem}
use szl_mesh.Coordinator.Dispatch.Valid.{IsSound, dispatch-IsSound}
use szl_mesh.Coordinator.Dispatch.{Readings, Outcome, dispatch}
use szl_mesh.Coordinator.Pick.{Random}
use szl_mesh.Coordinator.Pipeline.{
  budget_exhausted, degraded, error, Run, is_dispatched, stage_request, run_stages,
}
use szl_mesh.Coordinator.Tile.{NodeTile, Coordinator}

module _ (floats : Floats) (h : Hashing) (r : Random) where
  module _ (readings : ℕ → Readings) (request : Request floats) (base : String) (budget : ℕ) where
    abbrev step_result : ℕ → Coordinator → Result (Outcome floats h r) × Coordinator
    step_result step c =
        dispatch floats h r (readings (step + 1))
          (stage_request floats h r readings request base budget (step + 1)) c

    pub data Stages : List NodeTile → ℕ → Coordinator → Run floats h r → Type 0 where
      finished :
          {step : ℕ} {c : Coordinator}
          → Stages [] step c (record { exit = none; steps = step; results = []; coordinator = c })
      exhausted :
          {tile : NodeTile} {tiles : List NodeTile} {step : ℕ} {c : Coordinator}
          → budget ≤ step
          → Stages
              (tile ∷ tiles)
              step
              c
              (record { exit = some budget_exhausted; steps = step; results = []; coordinator = c })
      failed :
          {tile : NodeTile} {tiles : List NodeTile} {step : ℕ} {c : Coordinator} (e : Exception)
          → step < budget
          → (step_result step c).0 ≡ raise e
          → Stages (tile ∷ tiles) step c (record {
            exit = some error;
            steps = step + 1;
            results = [];
            coordinator = (step_result step c).1;
          })
      stopped :
          {tile : NodeTile} {tiles : List NodeTile} {step : ℕ} {c : Coordinator}
          (o : Outcome floats h r)
          → step < budget
          → (step_result step c).0 ≡ ok o
          → is_dispatched floats h r o ≡ false
          → Stages (tile ∷ tiles) step c (record {
            exit = some degraded;
            steps = step + 1;
            results = o ∷ [];
            coordinator = (step_result step c).1;
          })
      sent :
          {tile : NodeTile} {tiles : List NodeTile} {step : ℕ} {c : Coordinator}
          {run : Run floats h r} (o : Outcome floats h r)
          → step < budget
          → (step_result step c).0 ≡ ok o
          → is_dispatched floats h r o ≡ true
          → Stages tiles (step + 1) (step_result step c).1 run
          → Stages (tile ∷ tiles) step c (record run { results = o ∷ run.results })

    pub run_stages-Stages :
        (tiles : List NodeTile) (step : ℕ) (c : Coordinator)
        → Stages tiles step c (run_stages floats h r readings request base budget tiles step c)
    unfolding run_stages
    run_stages-Stages [] step c = finished
    run_stages-Stages (tile ∷ tiles) step c = elim (Bool-cases (leb budget step)) [
      | inl full ↦ rw (full, run_stages) (exhausted (ground (arith, full)))
      | inr free ↦
          let below : step < budget = ground (arith, free) in
          elim (Result-cases (step_result step c).0) [
            | inr (e, raised) ↦ rw (free, raised, run_stages) (failed e below raised)
            | inl (o, returned) ↦ elim (Bool-cases (is_dispatched floats h r o)) [
              | inr not_sent ↦
                  rw (free, returned, not_sent, run_stages) (stopped o below returned not_sent)
              | inl was_sent ↦
                  rw (free, returned, was_sent, run_stages)
                    (sent o below returned was_sent
                      (run_stages-Stages tiles (step + 1) (step_result step c).1))
            ]
          ]
    ]

    -- The number of steps, of a run that starts within its budget.
    pub Stages-steps :
        {tiles : List NodeTile} {step : ℕ} {c : Coordinator} {run : Run floats h r}
        → Stages tiles step c run
        → step ≤ budget
        → (run.steps ≤ budget) × (run.steps ≤ step + length tiles)
    Stages-steps finished le = (le, omega arith)
    Stages-steps (exhausted full) le = (le, omega arith)
    Stages-steps (failed e below raised) le = (omega (arith, below), omega arith)
    Stages-steps (stopped o below returned not_sent) le = (omega (arith, below), omega arith)
    Stages-steps (sent o below returned was_sent rest) le =
        let (within, at_most) = Stages-steps rest (omega (arith, below)) in
        (within, omega (arith, at_most))

    abbrev pub is_none {ℓ} : {A : Type ℓ} → Option A → Bool
    is_none none = true
    is_none (some a) = false

    -- The loop is not left early exactly if each stage has a result, and all were dispatched.
    pub Stages-complete :
        {tiles : List NodeTile} {step : ℕ} {c : Coordinator} {run : Run floats h r}
        → Stages tiles step c run
        → is_none run.exit
          ≡ all (is_dispatched floats h r) run.results && length run.results == length tiles
    Stages-complete finished = refl
    Stages-complete (exhausted full) = ground arith
    Stages-complete (failed e below raised) = ground arith
    Stages-complete (stopped o below returned not_sent) = ground (arith, not_sent)
    Stages-complete (sent o below returned was_sent rest) =
        ground (arith, was_sent, Stages-complete rest)

    abbrev pub receipts : Coordinator → ℕ
    receipts c = length c.routing_ledger.chain

    abbrev pub sent_count : List (Outcome floats h r) → ℕ
    sent_count os = length (select (is_dispatched floats h r) os)

    Does-receipts :
        (c c' : Coordinator) (o : Outcome floats h r)
        → Does floats h r c c' o
        → receipts c' ≡ receipts c + sent_count (o ∷ [])
    Does-receipts c c' Outcome.duplicate d = ap (λ l. length l.chain) d.2 ∙ omega arith
    Does-receipts c c' (Outcome.rejected score) d = ap (λ l. length l.chain) d.2 ∙ omega arith
    Does-receipts c c' (Outcome.degraded score down_nodes) d =
        ap (λ l. length l.chain) d.0.2 ∙ omega arith
    Does-receipts c c' (Outcome.dispatched request_id selected score entry) d =
        ap length d.receipt ∙ length-append c.routing_ledger.chain (entry ∷ [])

    -- The score of the request is no number.
    abbrev pub Unscored : Type 0
    Unscored = (e : Exception) × (given_score floats request ≡ raise e)

    Fits-receipts :
        (id : String) (seen : Bool) (step : ℕ) (c c' : Coordinator)
        (result : Result (Outcome floats h r)) (o : Outcome floats h r)
        → Fits floats h r
            (stage_request floats h r readings request base budget step)
            id
            seen
            c
            c'
            result
        → result ≡ ok o
        → receipts c' ≡ receipts c + sent_count (o ∷ [])
    Fits-receipts id seen step c c' (raise x) o fits e = cc
    Fits-receipts id seen step c c' (ok o') o fits e =
        Does-receipts c c' o (subst (Does floats h r c c') (ok_inj e) fits.1)

    Fits-raise :
        (id : String) (seen : Bool) (step : ℕ) (c c' : Coordinator)
        (result : Result (Outcome floats h r)) (x : Exception)
        → Fits floats h r
            (stage_request floats h r readings request base budget step)
            id
            seen
            c
            c'
            result
        → result ≡ raise x
        → Unscored × (receipts c' ≡ receipts c)
    unfolding given_score
    Fits-raise id seen step c c' (ok o) x fits e = cc
    Fits-raise id seen step c c' (raise y) x fits e =
        ((y, fits.1), ap (λ l. length l.chain) fits.2.2)

    step-receipts :
        (step : ℕ) (c : Coordinator) (o : Outcome floats h r)
        → IsSound floats h r c
        → (step_result step c).0 ≡ ok o
        → receipts (step_result step c).1 ≡ receipts c + sent_count (o ∷ [])
    step-receipts step c o s returned =
        let (result, c', e, fits, kept) =
          dispatch_lem floats h r (readings (step + 1))
            (stage_request floats h r readings request base budget (step + 1)) c s.keyed in
        ap (λ x. receipts x.1) e
        ∙ Fits-receipts _ _ (step + 1) c c' result o fits (sym (ap (λ x. x.0) e) ∙ returned)

    step-raise :
        (step : ℕ) (c : Coordinator) (x : Exception)
        → IsSound floats h r c
        → (step_result step c).0 ≡ raise x
        → Unscored × (receipts (step_result step c).1 ≡ receipts c)
    step-raise step c x s raised =
        let (result, c', e, fits, kept) =
          dispatch_lem floats h r (readings (step + 1))
            (stage_request floats h r readings request base budget (step + 1)) c s.keyed in
        let (unscored, same) =
          Fits-raise _ _ (step + 1) c c' result x fits (sym (ap (λ x. x.0) e) ∙ raised) in
        (unscored, ap (λ x. receipts x.1) e ∙ same)

    step-IsSound :
        (step : ℕ) (c : Coordinator)
        → IsSound floats h r c
        → IsSound floats h r (step_result step c).1
    step-IsSound step c s =
        dispatch-IsSound floats h r (readings (step + 1))
          (stage_request floats h r readings request base budget (step + 1)) c s

    -- A run that starts in a sound state ends in one, raises only where the score is no number, and
    -- leaves one receipt for each stage that was dispatched.
    pub Stages-IsSound :
        {tiles : List NodeTile} {step : ℕ} {c : Coordinator} {run : Run floats h r}
        → Stages tiles step c run
        → IsSound floats h r c
        → IsSound floats h r run.coordinator
          × (run.exit ≡ some error → Unscored)
          × (receipts run.coordinator ≡ receipts c + sent_count run.results)
    Stages-IsSound finished s = (s, (λ p. cc), omega arith)
    Stages-IsSound (exhausted full) s = (s, (λ p. cc), omega arith)
    Stages-IsSound (failed {step} {c} e below raised) s =
        let (unscored, same) = step-raise step c e s raised in
        (step-IsSound step c s, (λ p. unscored), omega (arith, same))
    Stages-IsSound (stopped {step} {c} o below returned not_sent) s =
        (step-IsSound step c s, (λ p. cc), step-receipts step c o s returned)
    Stages-IsSound (sent {step} {c} o below returned was_sent rest) s =
        let (sound, fine, counted) = Stages-IsSound rest (step-IsSound step c s) in
        (sound, fine, ground (arith, counted, step-receipts step c o s returned, was_sent))
