-- ===== src/Lab/Reconcile.antt =====
-- Every replica of a scenario ends alike (lab/simulator.py, `simulate_scenario`).
use mathlib.Core.List.Permᴰ as PermD
use szl_mesh.Common.Dict.{lookup, All-entries}
use szl_mesh.Common.Json.{Hashing}
use szl_mesh.Common.Order.{◌=?◌, str_ord, nat_ord, pair_ord}
use szl_mesh.Common.Result.{ok}
use szl_mesh.Common.Best.{All-perm}
use szl_mesh.Common.{
  ℕ, zero, suc, ◌+◌, ◌≤◌, Bool, true, String, some, List, [], ◌∷◌, ◌≡◌, refl, sym, ap, ◌∙◌, arith,
  All, All-imp, All-map, All-both, length, map, all,
}
use szl_mesh.Crdt.Log.{merge_loop-doc_id}
use szl_mesh.Crdt.Merge.{merge_loop_replay}
use szl_mesh.Crdt.Views.{SameOps-converge, In}
use szl_mesh.Crdt.{Op, Document, empty, op_id, merge_ops, heads, state_digest, authorized, observed}
use szl_mesh.Lab.{
  Snapshot, down_ord, order_for_replica, document, snapshot, same_texts, replays, reconcile,
  converged, all_alike,
}
use szl_mesh.Lab.Orders.{perm-lookup, keyed, AreUnique, order-perm, document-IsLog, lookup-document}

pub same_texts_refl : (xs : List String) → same_texts xs xs ≡ true
same_texts_refl [] = refl
same_texts_refl (x ∷ xs) = ground (arith, str_ord.cmp_self x, same_texts_refl xs)

All-unmap {ℓ κ μ} :
    {A : Type ℓ} {B : Type κ} (P : B → Type μ) (f : A → B) (xs : List A)
    → All P (map f xs)
    → All (λ x. P (f x)) xs
All-unmap P f [] a = tt
All-unmap P f (x ∷ xs) a = (a.0, All-unmap P f xs a.1)

-- All equal to one value.
all_same {ℓ} :
    {A : Type ℓ} (same : A → A → Bool) (c x : A) (ys : List A)
    → ((x : A) → same x x ≡ true)
    → x ≡ c
    → All (λ y. y ≡ c) ys
    → all (same x) ys ≡ true
all_same same c x [] self e b = refl
all_same same c x (y ∷ ys) self e b =
    ground (arith, ap (same x) (b.0 ∙ sym e) ∙ self x, all_same same c x ys self e b.1)

alike_if_constant {ℓ} :
    {A : Type ℓ} (same : A → A → Bool) (c : A) (xs : List A)
    → ((x : A) → same x x ≡ true)
    → 1 ≤ length xs
    → All (λ x. x ≡ c) xs
    → all_alike same xs ≡ true
alike_if_constant same c [] self some_ a = absurd (omega (arith, some_))
alike_if_constant same c (x ∷ xs) self some_ a = all_same same c x xs self a.0 a.1

length-map {ℓ κ} :
    {A : Type ℓ} {B : Type κ} (f : A → B) (xs : List A) → length (map f xs) ≡ length xs
length-map f [] = refl
length-map f (x ∷ xs) = ap suc (length-map f xs)

module _ (h : Hashing) where
  -- What a replica has once it has taken the operations in its order.
  module _ (doc_id : String) (unique : List Op) (once : AreUnique h doc_id unique) (index : ℕ) where
    abbrev replica : Document
    replica = document h doc_id (order_for_replica h unique index)

    lookup-replica : (i : String) → lookup i replica.ops ≡ lookup i (keyed h unique)
    lookup-replica i =
        let p = order-perm h unique index in
        lookup-document h doc_id (order_for_replica h unique index) i
          (All-perm (λ op. op.doc_id ≡ doc_id) p once.1)
        ∙ sym ((perm-lookup (PermD.map (λ op. (op_id h op, op)) p) once.0).1 i)

    replica-doc_id : replica.doc_id ≡ doc_id
    unfolding document merge_ops
    replica-doc_id = merge_loop-doc_id h 0 (order_for_replica h unique index) (empty doc_id)

    replay_lem : merge_ops h unique replica ≡ (ok 0, replica)
    unfolding merge_ops
    replay_lem = merge_loop_replay h 0 unique replica (
        All-both (In h replica) (λ op. op.doc_id ≡ replica.doc_id) unique all_in
          (All-imp unique once.1 (λ op e. e ∙ sym replica-doc_id)))
      where
        all_in : All (In h replica) unique
        all_in =
            All-imp unique
              (All-unmap (λ e. lookup e.0 (keyed h unique) ≡ some e.1) (λ op. (op_id h op, op))
                unique (All-entries (keyed h unique) once.0))
              (λ op e. lookup-replica (op_id h op) ∙ e)

    replays_lem : replays h unique replica ≡ true
    unfolding replays
    replays_lem = rw replay_lem (
        ground (
          arith,
          str_ord.cmp_self (state_digest h authorized replica),
          str_ord.cmp_self (state_digest h observed replica),
          same_texts_refl (heads h replica),
        ))

  -- The snapshot that every replica ends with, but for its name.
  abbrev pub EndsLike : Document → Snapshot → Type 0
  EndsLike d s =
      (s.observed_digest ≡ state_digest h observed d)
      × (s.authorized_digest ≡ state_digest h authorized d)
      × (s.heads ≡ heads h d)

  module _ (doc_id : String) (unique : List Op) (once : AreUnique h doc_id unique) where
    replica-EndsLike :
        (index : ℕ)
        → EndsLike
            (document h doc_id unique)
            (snapshot h (index + 1) (merge_ops h unique (replica doc_id unique once index)).1)
    unfolding snapshot
    replica-EndsLike index =
        let d = replica doc_id unique once index in
        let e = document h doc_id unique in
        let (views, same_heads) =
          SameOps-converge h d e (document-IsLog h doc_id (order_for_replica h unique index))
            (document-IsLog h doc_id unique)
            (λ i.
              lookup-replica doc_id unique once index i
              ∙ sym (lookup-document h doc_id unique i once.1)) in
        rw (replay_lem doc_id unique once index)
          ((views observed).1, (views authorized).1, same_heads)

    pub reconcile-EndsLike :
        (index left : ℕ)
        → All (EndsLike (document h doc_id unique)) (reconcile h doc_id unique index left).0
          × ((reconcile h doc_id unique index left).1 ≡ true)
          × (length (reconcile h doc_id unique index left).0 ≡ left)
    unfolding reconcile
    reconcile-EndsLike index zero = (tt, refl, refl)
    reconcile-EndsLike index (suc left) =
        let (ends, kept, count) = reconcile-EndsLike (index + 1) left in
        (
          (replica-EndsLike index, ends),
          ground (arith, replays_lem doc_id unique once index, kept),
          ap suc count,
        )

    -- Any number of replicas that take the same operations, each once, in their different orders
    -- end with the same digests and the same heads, and taking the operations once more changes
    -- none of them.
    pub reconcile-converged :
        (replicas : ℕ)
        → 1 ≤ replicas
        → (converged (reconcile h doc_id unique 0 replicas).0 ≡ true)
          × ((reconcile h doc_id unique 0 replicas).1 ≡ true)
    unfolding converged
    reconcile-converged replicas several =
        let final = (reconcile h doc_id unique 0 replicas).0 in
        let d = document h doc_id unique in
        let (ends, kept, count) = reconcile-EndsLike 0 replicas in
        let observed_alike =
          alike_if_constant ◌=?◌ (state_digest h observed d) (map (λ s. s.observed_digest) final)
            (λ x. ground (arith, str_ord.cmp_self x))
            (omega (arith, several, count, length-map (λ (s : Snapshot). s.observed_digest) final))
            (All-map (λ x. x ≡ state_digest h observed d) (λ (s : Snapshot). s.observed_digest)
              final (All-imp final ends (λ s e. e.0))) in
        let authorized_alike =
          alike_if_constant ◌=?◌ (state_digest h authorized d)
            (map (λ s. s.authorized_digest) final) (λ x. ground (arith, str_ord.cmp_self x))
            (omega
              (arith, several, count, length-map (λ (s : Snapshot). s.authorized_digest) final))
            (All-map (λ x. x ≡ state_digest h authorized d) (λ (s : Snapshot). s.authorized_digest)
              final (All-imp final ends (λ s e. e.1))) in
        let heads_alike =
          alike_if_constant same_texts (heads h d) (map (λ s. s.heads) final) same_texts_refl
            (omega (arith, several, count, length-map (λ (s : Snapshot). s.heads) final))
            (All-map (λ x. x ≡ heads h d) (λ (s : Snapshot). s.heads) final
              (All-imp final ends (λ s e. e.2))) in
        (ground (arith, observed_alike, authorized_alike, heads_alike), kept)
