-- ===== src/Lab/Simulate.antt =====
-- The run of a scenario that was accepted (lab/simulator.py, `_commutativity_check`,
-- `_associativity_check` and the rest of `simulate_scenario`, but for the hash of the printed report
-- that its last line adds).
use szl_mesh.Common.Dict.{Dict}
use szl_mesh.Common.Json.{Json, Hashing}
use szl_mesh.Common.Order.{◌=?◌, str_ord}
use szl_mesh.Common.Result.{Result, ok, raise, index_error, ◌>>=◌}
use szl_mesh.Common.{
  ℕ, zero, suc, ◌+◌, Bool, ◌&&◌, String, none, some, List, [], ◌∷◌, map, if◌then◌else◌, length,
  get_elem?, set, replicate, ◌==◌,
}
use szl_mesh.Crdt.{Op, Document, empty, op_id, add_op, merge, all_ops}
use szl_mesh.Lab.Scenario.{Scenario, read_scenario}
use szl_mesh.Lab.{Snapshot, document, snapshot, same_texts, reconcile, converged}

-- `operations[first::step]`, with `gap` one less than the step.
unfoldable pub every : {A : Type 0} → ℕ → ℕ → List A → List A
every gap first [] = []
every gap zero (x ∷ xs) = x ∷ every gap gap xs
every gap (suc first) (x ∷ xs) = every gap first xs

pub record Checks : Type 0 where
  pub same_operation_set_converged : Bool
  pub replay_idempotent : Bool
  pub sample_merge_commutative : Bool
  pub sample_merge_associative : Bool

pub record Report : Type 0 where
  pub status : String
  pub doc_id : String
  pub replica_count : ℕ
  pub input_operation_count : ℕ
  pub unique_operation_count : ℕ
  pub duplicate_input_count : ℕ
  pub operation_ids : List String
  pub initial_partitions : List Snapshot
  pub reconciled_replicas : List Snapshot
  pub checks : Checks

abbrev pub status_of : Checks → String
status_of c =
    if c.same_operation_set_converged
      && (c.replay_idempotent && (c.sample_merge_commutative && c.sample_merge_associative))
    then "CONVERGED"
    else "DIVERGED"

module _ (h : Hashing) where
  abbrev pub merged_with : Document → Document → Document
  merged_with other d = (merge h other d).1

  -- The loop that adds each operation to the partition that it starts at.
  unfoldable pub deliver : List (ℕ × Op) → List Document → Result (List Document)
  unfolding add_op
  deliver [] partitions = ok partitions
  deliver ((origin, op) ∷ delivered) partitions = elim (get_elem? partitions origin) [
    | none ↦ raise index_error
    | some d ↦
        (add_op h op d).0 >>= λ new. deliver delivered (set partitions origin (add_op h op d).1)
  ]

  -- The snapshots of the documents, numbered from `index` on.
  abbrev pub snapshots : ℕ → List Document → List Snapshot
  snapshots index [] = []
  snapshots index (d ∷ ds) = snapshot h (index + 1) d ∷ snapshots (index + 1) ds

-- `same_view` is `==` on two views.
module _ (h : Hashing) (same_view : Dict String Json → Dict String Json → Bool) where
  -- Equality of two snapshots, their names aside.
  unfoldable pub same_snapshot : Snapshot → Snapshot → Bool
  same_snapshot s t =
      (s.operation_count == t.operation_count)
      && (same_texts s.heads t.heads
          && (same_view s.authorized_view t.authorized_view
              && (same_view s.observed_view t.observed_view
                  && ((s.authorized_digest =? t.authorized_digest)
                      && (s.observed_digest =? t.observed_digest)))))

  unfoldable pub commutativity_check : String → List Op → Bool
  unfolding every same_snapshot document
  commutativity_check doc_id operations =
      let left = document h doc_id (every 1 0 operations) in
      let right = document h doc_id (every 1 1 operations) in
      let first_then_second = merged_with h right (document h doc_id (all_ops left)) in
      let second_then_first = merged_with h left (document h doc_id (all_ops right)) in
      same_snapshot (snapshot h 0 first_then_second) (snapshot h 0 second_then_first)

  unfoldable pub associativity_check : String → List Op → Bool
  unfolding every same_snapshot document
  associativity_check doc_id operations =
      let a = document h doc_id (every 2 0 operations) in
      let b = document h doc_id (every 2 1 operations) in
      let c = document h doc_id (every 2 2 operations) in
      let left = merged_with h c (merged_with h b (document h doc_id (all_ops a))) in
      let b_then_c = merged_with h c (document h doc_id (all_ops b)) in
      let right = merged_with h b_then_c (document h doc_id (all_ops a)) in
      same_snapshot (snapshot h 0 left) (snapshot h 0 right)

  abbrev pub checks_on : Scenario → List Snapshot → Bool → Checks
  checks_on s final idempotence = record {
    same_operation_set_converged = converged final;
    replay_idempotent = idempotence;
    sample_merge_commutative = commutativity_check s.doc_id s.unique;
    sample_merge_associative = associativity_check s.doc_id s.unique;
  }

  -- The report, given the partitions.
  unfoldable pub report_on : Scenario → List Document → Report
  unfolding reconcile converged commutativity_check associativity_check
  report_on s partitions =
      let (final, idempotence) = reconcile h s.doc_id s.unique 0 s.replicas in
      record {
        status = status_of (checks_on s final idempotence);
        doc_id = s.doc_id;
        replica_count = s.replicas;
        input_operation_count = length s.delivered;
        unique_operation_count = length s.unique;
        duplicate_input_count = s.duplicates;
        operation_ids = map (op_id h) s.unique;
        initial_partitions = snapshots h 0 partitions;
        reconciled_replicas = final;
        checks = checks_on s final idempotence;
      }

  unfoldable pub run_scenario : Scenario → Result Report
  unfolding deliver report_on
  run_scenario s = deliver h s.delivered (replicate s.replicas (empty s.doc_id)) >>= λ partitions.
      ok (report_on s partitions)

  unfoldable pub simulate_scenario : Json → Result Report
  unfolding read_scenario run_scenario
  simulate_scenario value = read_scenario h value >>= run_scenario
