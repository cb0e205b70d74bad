-- ===== src/Lab/Checks.antt =====
-- The two sample checks hold on operations that occur once (lab/simulator.py,
-- `_commutativity_check` and `_associativity_check`).
use szl_mesh.Common.Dict.{Dict, lookup, IsMap, perm_of_lookup}
use szl_mesh.Common.Json.{Json, Hashing}
use szl_mesh.Common.Order.{str_ord, nat_ord, pair_ord}
use szl_mesh.Common.{
  ℕ, zero, suc, Bool, true, String, Option, some, List, [], ◌∷◌, ◌≡◌, refl, sym, ◌∙◌, arith, All,
  or_else,
}
use szl_mesh.Crdt.Merge.{or_else_assoc, or_else_comm}
use szl_mesh.Crdt.Views.{SameOps, SameOps-converge}
use szl_mesh.Crdt.{
  Op, Document, op_id, all_ops, observed, authorized, view, authorized_view, observed_view,
  state_digest, heads,
}
use szl_mesh.Lab.Copies.{
  Represents, document-Represents, copy-Represents, merge-Represents, length-perm,
}
use szl_mesh.Lab.Orders.{keyed, AreUnique}
use szl_mesh.Lab.Reconcile.{same_texts_refl}
use szl_mesh.Lab.Simulate.{every, same_snapshot, commutativity_check, associativity_check}
use szl_mesh.Lab.{document, snapshot}

All-every :
    {A : Type 0} (P : A → Type 0) (gap first : ℕ) (xs : List A)
    → All P xs
    → All P (every gap first xs)
unfolding every
All-every P gap first [] a = tt
All-every P gap zero (x ∷ xs) a = (a.0, All-every P gap gap xs a.1)
All-every P gap (suc first) (x ∷ xs) a = All-every P gap first xs a.1

-- How `view` reads the two tracks.
view_tracks :
    (h : Hashing) (d : Document)
    → (view h authorized d ≡ authorized_view h d) × (view h observed d ≡ observed_view h d)
unfolding view str_ord
view_tracks h d = (refl, refl)

module _ (h : Hashing) where
  -- What is found among every few operations is found among all.
  lookup-every :
      (gap first : ℕ) (ops : List Op) (i : String) (op : Op)
      → IsMap (keyed h ops)
      → lookup i (keyed h (every gap first ops)) ≡ some op
      → lookup i (keyed h ops) ≡ some op
  unfolding every lookup
  lookup-every gap first [] i op u e = e
  lookup-every gap zero (x ∷ xs) i op u e = ground (arith, lookup-every gap gap xs i op u.1)
  lookup-every gap (suc first) (x ∷ xs) i op u e =
      ground (arith, lookup-every gap first xs i op u.1 e, u.0, str_ord.same (op_id h x) i)

  -- Two parts of the operations agree on what they have in common.
  parts_agree :
      (gap first gap' first' : ℕ) (ops : List Op) (i : String)
      → IsMap (keyed h ops)
      → (a b : Op) → lookup i (keyed h (every gap first ops)) ≡ some a
      → lookup i (keyed h (every gap' first' ops)) ≡ some b
      → a ≡ b
  parts_agree gap first gap' first' ops i u a b p q =
      cc (lookup-every gap first ops i a u p, lookup-every gap' first' ops i b u q)

  module _ (same_view : Dict String Json → Dict String Json → Bool)
      (same_view_self : (v : Dict String Json) → same_view v v ≡ true) where
    same_snapshot_lem :
        (doc_id : String) (d e : Document) (f g : String → Option Op)
        → Represents h doc_id d f
        → Represents h doc_id e g
        → ((i : String) → f i ≡ g i)
        → same_snapshot h same_view (snapshot h 0 d) (snapshot h 0 e) ≡ true
    unfolding same_snapshot snapshot
    same_snapshot_lem doc_id d e f g rd re alike =
        let same : SameOps d e = λ i. rd.answers i ∙ alike i ∙ sym (re.answers i) in
        let (views, same_heads) = SameOps-converge h d e rd.log re.log same in
        let count = length-perm (perm_of_lookup d.ops e.ops rd.log.unique re.log.unique same) in
        let at_a = sym (view_tracks h d).0 ∙ (views authorized).0 ∙ (view_tracks h e).0 in
        let at_o = sym (view_tracks h d).1 ∙ (views observed).0 ∙ (view_tracks h e).1 in
        rw (count, same_heads, at_a, at_o, (views authorized).1, (views observed).1)
          (ground (
            arith,
            same_texts_refl (heads h e),
            same_view_self (authorized_view h e),
            same_view_self (observed_view h e),
            str_ord.cmp_self (state_digest h authorized e),
            str_ord.cmp_self (state_digest h observed e),
          ))

    module _ (doc_id : String) (ops : List Op) (once : AreUnique h doc_id ops) where
      abbrev part : ℕ → ℕ → Document
      part gap first = document h doc_id (every gap first ops)

      abbrev held : ℕ → ℕ → String → Option Op
      held gap first i = lookup i (keyed h (every gap first ops))

      part-Represents : (gap first : ℕ) → Represents h doc_id (part gap first) (held gap first)
      part-Represents gap first =
          document-Represents h doc_id (every gap first ops)
            (All-every (λ op. op.doc_id ≡ doc_id) gap first ops once.1)

      copy_of_part :
          (gap first : ℕ)
          → Represents h doc_id (document h doc_id (all_ops (part gap first))) (held gap first)
      copy_of_part gap first =
          copy-Represents h doc_id (part gap first) (held gap first) (part-Represents gap first)

      -- Two halves of the operations end alike whichever is merged into the other.
      pub commutativity_check_lem : commutativity_check h same_view doc_id ops ≡ true
      unfolding commutativity_check
      commutativity_check_lem =
          same_snapshot_lem doc_id _ _ _ _
            (merge-Represents h doc_id _ _ (held 1 0) (held 1 1) (copy_of_part 1 0)
              (part-Represents 1 1))
            (merge-Represents h doc_id _ _ (held 1 1) (held 1 0) (copy_of_part 1 1)
              (part-Represents 1 0))
            (λ i. or_else_comm (held 1 0 i) (held 1 1 i) (parts_agree 1 0 1 1 ops i once.0))

      -- Three parts of the operations end alike whichever two are merged first.
      pub associativity_check_lem : associativity_check h same_view doc_id ops ≡ true
      unfolding associativity_check
      associativity_check_lem =
          let ab =
            merge-Represents h doc_id _ _ (held 2 0) (held 2 1) (copy_of_part 2 0)
              (part-Represents 2 1) in
          let bc =
            merge-Represents h doc_id _ _ (held 2 1) (held 2 2) (copy_of_part 2 1)
              (part-Represents 2 2) in
          same_snapshot_lem doc_id _ _ _ _
            (merge-Represents h doc_id _ _ (λ i. or_else (held 2 0 i) (held 2 1 i)) (held 2 2) ab
              (part-Represents 2 2))
            (merge-Represents h doc_id _ _ (held 2 0) (λ i. or_else (held 2 1 i) (held 2 2 i))
              (copy_of_part 2 0) bc)
            (λ i. or_else_assoc (held 2 0 i) (held 2 1 i) (held 2 2 i))
