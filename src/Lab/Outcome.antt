-- ===== src/Lab/Outcome.antt =====
-- Every accepted scenario converges (lab/simulator.py, `simulate_scenario`).
use szl_mesh.Common.Dict.{Dict}
use szl_mesh.Common.Json.{Json, Hashing}
use szl_mesh.Common.Result.{ok, ◌>>=◌}
use szl_mesh.Common.{
  ℕ, zero, suc, ◌+◌, ◌<◌, Bool, true, String, some, List, [], ◌∷◌, ◌≡◌, refl, sym, ap, ◌∙◌, arith,
  All, All-imp, length, get_elem?, set, replicate,
}
use szl_mesh.Crdt.Log.{add_op_lem}
use szl_mesh.Crdt.{Op, Document, empty, add_op}
use szl_mesh.Lab.Accepted.{InBounds, IsAccepted, read_scenario-IsAccepted}
use szl_mesh.Lab.Checks.{commutativity_check_lem, associativity_check_lem}
use szl_mesh.Lab.Reconcile.{reconcile-converged, reconcile-EndsLike}
use szl_mesh.Lab.Scenario.{Scenario, read_scenario}
use szl_mesh.Lab.Simulate.{Report, deliver, snapshots, report_on, run_scenario, simulate_scenario}

abbrev AllOf : String → List Document → Type 0
AllOf doc_id = All (λ d. d.doc_id ≡ doc_id)

in_range :
    (doc_id : String) (ds : List Document) (i : ℕ)
    → i < length ds
    → AllOf doc_id ds
    → (d : Document) × (get_elem? ds i ≡ some d) × (d.doc_id ≡ doc_id)
in_range doc_id [] i lt a = absurd (omega (arith, lt))
in_range doc_id (d ∷ ds) zero lt a = (d, refl, a.0)
in_range doc_id (d ∷ ds) (suc i) lt a = in_range doc_id ds i (omega (arith, lt)) a.1

set-AllOf :
    (doc_id : String) (ds : List Document) (i : ℕ) (d : Document)
    → AllOf doc_id ds
    → d.doc_id ≡ doc_id
    → AllOf doc_id (set ds i d) × (length (set ds i d) ≡ length ds)
set-AllOf doc_id [] i d a e = (tt, refl)
set-AllOf doc_id (x ∷ ds) zero d a e = ((e, a.1), refl)
set-AllOf doc_id (x ∷ ds) (suc i) d a e =
    let (rest, count) = set-AllOf doc_id ds i d a.1 e in ((a.0, rest), ap suc count)

replicate-AllOf :
    (doc_id : String) (n : ℕ)
    → AllOf doc_id (replicate n (empty doc_id)) × (length (replicate n (empty doc_id)) ≡ n)
replicate-AllOf doc_id zero = (tt, refl)
replicate-AllOf doc_id (suc n) =
    let (rest, count) = replicate-AllOf doc_id n in ((refl, rest), ap suc count)

module _ (h : Hashing) where
  -- No delivery raises, if the origins are in range and the operations are the document's own.
  deliver_lem :
      (doc_id : String) (delivered : List (ℕ × Op)) (ds : List Document)
      → AllOf doc_id ds
      → All (InBounds doc_id (length ds)) delivered
      → (es : List Document) × (deliver h delivered ds ≡ ok es) × (length es ≡ length ds)
  unfolding deliver
  deliver_lem doc_id [] ds own inside = (ds, refl, refl)
  deliver_lem doc_id ((origin, op) ∷ delivered) ds own inside =
      let (d, at_origin, named) = in_range doc_id ds origin inside.0.1 own in
      let (result, same_doc, _) = add_op_lem h op d (inside.0.0 ∙ sym named) in
      let d' = (add_op h op d).1 in
      let (kept, count) = set-AllOf doc_id ds origin d' own (same_doc ∙ named) in
      let (es, rest, total) =
        deliver_lem doc_id delivered (set ds origin d') kept
          (All-imp delivered inside.1 (λ (e : ℕ × Op) p. (p.0, omega (arith, p.1, count), p.2))) in
      (es, rw (at_origin, result, deliver) rest, total ∙ count)

  length-snapshots : (index : ℕ) (ds : List Document) → length (snapshots h index ds) ≡ length ds
  length-snapshots index [] = refl
  length-snapshots index (d ∷ ds) = ap suc (length-snapshots (index + 1) ds)

  module _ (same_view : Dict String Json → Dict String Json → Bool)
      (same_view_self : (v : Dict String Json) → same_view v v ≡ true) where
    -- The report on a scenario that converged: all four checks hold, every replica is shown before
    -- and after, and the operations and their repetitions add up.
    pub record IsConverged (s : Scenario) (r : Report) : Type 0 where
      pub status : r.status ≡ "CONVERGED"
      pub converged : r.checks.same_operation_set_converged ≡ true
      pub idempotent : r.checks.replay_idempotent ≡ true
      pub commutative : r.checks.sample_merge_commutative ≡ true
      pub associative : r.checks.sample_merge_associative ≡ true
      pub before : length r.initial_partitions ≡ s.replicas
      pub after : length r.reconciled_replicas ≡ s.replicas
      pub counted : r.input_operation_count ≡ r.unique_operation_count + r.duplicate_input_count

    run_scenario-IsConverged :
        (s : Scenario)
        → IsAccepted h s
        → (r : Report) × (run_scenario h same_view s ≡ ok r) × IsConverged s r
    unfolding run_scenario report_on
    run_scenario-IsConverged s a =
        let (own, count) = replicate-AllOf s.doc_id s.replicas in
        let (es, delivers, total) =
          deliver_lem s.doc_id s.delivered (replicate s.replicas (empty s.doc_id)) own (
            All-imp s.delivered a.bounded
              (λ (e : ℕ × Op) p. (p.0, omega (arith, p.1, count), p.2))) in
        let (conv, idem) =
          reconcile-converged h s.doc_id s.unique a.once s.replicas
            (omega (arith, a.least_replicas)) in
        let (_, _, ends) = reconcile-EndsLike h s.doc_id s.unique a.once 0 s.replicas in
        let comm = commutativity_check_lem h same_view same_view_self s.doc_id s.unique a.once in
        let assoc = associativity_check_lem h same_view same_view_self s.doc_id s.unique a.once in
        (
          report_on h same_view s es,
          rw (delivers, ◌>>=◌) refl,
          record {
            status = rw (conv, idem, comm, assoc) refl;
            converged = conv;
            idempotent = idem;
            commutative = comm;
            associative = assoc;
            before = length-snapshots 0 es ∙ total ∙ count;
            after = ends;
            counted = a.counted;
          },
        )

    -- A scenario that is accepted is run to its end, and reported as CONVERGED: the four checks
    -- hold, every replica is shown before and after the exchange, and the different operations and
    -- the repetitions add up to those that were delivered.
    pub simulate_scenario-IsConverged :
        (value : Json) (s : Scenario)
        → read_scenario h value ≡ ok s
        → (r : Report) × (simulate_scenario h same_view value ≡ ok r) × IsConverged s r
    unfolding simulate_scenario
    simulate_scenario-IsConverged value s e =
        let (r, runs, c) = run_scenario-IsConverged s (read_scenario-IsAccepted h value s e) in
        (r, rw (e, ◌>>=◌) runs, c)
