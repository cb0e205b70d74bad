-- ===== src/Lab/Orders.antt =====
-- What a document holds does not depend on the order in which it took operations that occur once
-- (lab/simulator.py, `_document` and `_order_for_replica`).
use mathlib.Core.List.Permᴰ as PermD
use mathlib.Core.List.{Permᴰ}
use szl_mesh.Common.Dict.{Dict, lookup, values, IsMap}
use szl_mesh.Common.Json.{Hashing}
use szl_mesh.Common.Order.{str_ord, nat_ord, pair_ord}
use szl_mesh.Common.Sort.{sort_by-perm}
use szl_mesh.Common.{
  ℕ, ◌%◌, String, List, [], ◌∷◌, ◌++◌, ◌≡◌, refl, sym, ap, ◌∙◌, arith, All, All-imp, All-map,
  Bool-cases, inl, inr, subst, take, drop, take-append-drop, length, map, ◌==◌,
}
use szl_mesh.Crdt.Log.{IsLog, empty-IsLog, merge_loop-IsLog, lookup-merge_loop}
use szl_mesh.Crdt.{Op, empty, op_id, merge_ops, merge_loop}
use szl_mesh.Lab.{down_ord, delivery_key, order_for_replica, document}

swap-lookup :
    (a b : String × Op) (l : Dict String Op)
    → IsMap (a ∷ b ∷ l)
    → IsMap (b ∷ a ∷ l) × ((k : String) → lookup k (a ∷ b ∷ l) ≡ lookup k (b ∷ a ∷ l))
unfolding lookup
swap-lookup a b l h = (
  (
    ground (arith, h.0, h.1.0, str_ord.same a.0 b.0, str_ord.same b.0 a.0, str_ord.mirror a.0 b.0),
    (ground (arith, h.0), h.1.1),
  ),
  λ k. ground (
    arith,
    h.0,
    str_ord.same a.0 k,
    str_ord.same b.0 k,
    str_ord.same b.0 a.0,
    str_ord.cmp_self b.0,
  ),
)

-- A dictionary in another order is a dictionary that answers alike.
pub perm-lookup :
    {m n : Dict String Op}
    → Permᴰ m n
    → IsMap m
    → IsMap n × ((k : String) → lookup k m ≡ lookup k n)
unfolding lookup
perm-lookup Permᴰ.nil h = (tt, λ k. refl)
perm-lookup (Permᴰ.cons {a} {b} {l₁} {l₂} e p) h =
    let (hn, alike) = perm-lookup p h.1 in
    subst (λ x. IsMap (x ∷ l₂) × ((k : String) → lookup k (a ∷ l₁) ≡ lookup k (x ∷ l₂))) e
      ((sym (alike a.0) ∙ h.0, hn), λ k. ground (arith, alike k))
perm-lookup (Permᴰ.swap {a} {b} {a'} {b'} {l = l} e f) h =
    subst (λ x. IsMap (a' ∷ x ∷ l) × ((k : String) → lookup k (a ∷ b ∷ l) ≡ lookup k (a' ∷ x ∷ l)))
      e
      (subst (λ y. IsMap (y ∷ a ∷ l) × ((k : String) → lookup k (a ∷ b ∷ l) ≡ lookup k (y ∷ a ∷ l)))
        f (swap-lookup a b l h))
perm-lookup (Permᴰ.trans p q) h =
    let (hm, alike) = perm-lookup p h in
    let (hn, more) = perm-lookup q hm in (hn, λ k. alike k ∙ more k)

module _ (h : Hashing) where
  -- The operations under their identifiers.
  abbrev pub keyed : List Op → Dict String Op
  keyed = map (λ op. (op_id h op, op))

  pub values-keyed : (ops : List Op) → values (keyed ops) ≡ ops
  values-keyed [] = refl
  values-keyed (op ∷ ops) = ap (◌∷◌ op) (values-keyed ops)

  pub order-perm : (ops : List Op) (index : ℕ) → Permᴰ ops (order_for_replica h ops index)
  unfolding order_for_replica
  order-perm [] index = PermD.refl []
  order-perm (op ∷ ops) index =
      let values = op ∷ ops in
      let offset = index % length values in
      elim (Bool-cases (index % 4 == 0)) [
        | inl a ↦ rw (a, order_for_replica) (PermD.refl values)
        | inr a ↦ elim (Bool-cases (index % 4 == 1)) [
          | inl b ↦ rw (a, b, order_for_replica) (PermD.symm (PermD.reverse values))
          | inr b ↦ elim (Bool-cases (index % 4 == 2)) [
            | inl c ↦
                rw (a, b, c, order_for_replica)
                  (subst (λ x. Permᴰ x (drop offset values ++ take offset values))
                    (take-append-drop offset values)
                    (PermD.append_comm (take offset values) (drop offset values)))
            | inr c ↦
                rw (a, b, c, order_for_replica) (PermD.symm (sort_by-perm (delivery_key h) values))
          ]
        ]
      ]

  -- Operations of one document, each once.
  abbrev pub AreUnique : String → List Op → Type 0
  AreUnique doc_id ops = IsMap (keyed ops) × All (λ op. op.doc_id ≡ doc_id) ops

  pub document-IsLog : (doc_id : String) (ops : List Op) → IsLog h (document h doc_id ops)
  unfolding document merge_ops
  document-IsLog doc_id ops = merge_loop-IsLog h 0 ops (empty doc_id) (empty-IsLog h doc_id)

  pub lookup-document :
      (doc_id : String) (ops : List Op) (i : String)
      → All (λ op. op.doc_id ≡ doc_id) ops
      → lookup i (document h doc_id ops).ops ≡ lookup i (keyed ops)
  unfolding document merge_ops lookup
  lookup-document doc_id ops i owned =
      ap (λ xs. lookup i (merge_loop h 0 xs (empty doc_id)).1.ops) (sym (values-keyed ops))
      ∙ lookup-merge_loop h 0 (keyed ops) (empty doc_id) i (
          All-map (λ e. (op_id h e.1 ≡ e.0) × (e.1.doc_id ≡ doc_id)) (λ op. (op_id h op, op)) ops
            (All-imp ops owned (λ op e. (refl, e))))
