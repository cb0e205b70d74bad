-- ===== src/Lab/Copies.antt =====
-- What a document holds, as a function from identifiers: documents that are made of a list of
-- operations, copied through `all_ops`, and merged (lab/simulator.py, the two sample checks).
use mathlib.Core.List.Permᴰ as PermD
use mathlib.Core.List.{Permᴰ}
use szl_mesh.Common.Best.{All-perm}
use szl_mesh.Common.Dict.{Dict, lookup, keys, values, IsMap, All-entries}
use szl_mesh.Common.Json.{Hashing}
use szl_mesh.Common.Order.{str_ord, nat_ord, pair_ord}
use szl_mesh.Common.Sort.{sort_by, sort_by-perm}
use szl_mesh.Common.{
  suc, String, Option, some, List, [], ◌∷◌, ◌≡◌, refl, sym, ap, ap₂, ◌∙◌, All, All-imp,
  Option-cases, inl, inr, subst, or_else, length, map,
}
use szl_mesh.Crdt.Log.{IsLog, All-owned, merge_loop-doc_id}
use szl_mesh.Crdt.Merge.{merge_lem}
use szl_mesh.Crdt.{Op, Document, empty, op_id, read_all, all_ops, merge_ops}
use szl_mesh.Lab.Orders.{keyed, perm-lookup, document-IsLog, lookup-document}
use szl_mesh.Lab.Simulate.{merged_with}
use szl_mesh.Lab.{document}

read_all-perm :
    (m : Dict String Op) {is js : List String} → Permᴰ is js → Permᴰ (read_all m is) (read_all m js)
unfolding read_all
read_all-perm m Permᴰ.nil = PermD.refl []
read_all-perm m (Permᴰ.cons {a} {b} {l₁} {l₂} e p) =
    subst (λ x. Permᴰ (read_all m (a ∷ l₁)) (read_all m (x ∷ l₂))) e
      (elim (Option-cases (lookup a m)) [
        | inl absent ↦ rw (absent, read_all) (read_all-perm m p)
        | inr (op, present) ↦ rw (present, read_all) (Permᴰ.cons refl (read_all-perm m p))
      ])
read_all-perm m (Permᴰ.swap {a} {b} {a'} {b'} {l = l} e f) =
    subst (λ x. Permᴰ (read_all m (a ∷ b ∷ l)) (read_all m (a' ∷ x ∷ l))) e
      (subst (λ y. Permᴰ (read_all m (a ∷ b ∷ l)) (read_all m (y ∷ a ∷ l))) f
        (elim (Option-cases (lookup b m)) [
          | inl no_b ↦ elim (Option-cases (lookup a m)) [
            | inl no_a ↦ rw (no_a, no_b, read_all) (rw no_a (PermD.refl _))
            | inr (x, at_a) ↦ rw (at_a, no_b, read_all) (rw at_a (PermD.refl _))
          ]
          | inr (y, at_b) ↦ elim (Option-cases (lookup a m)) [
            | inl no_a ↦ rw (no_a, at_b, read_all) (rw no_a (PermD.refl _))
            | inr (x, at_a) ↦ rw (at_a, at_b, read_all) (rw at_a (Permᴰ.swap refl refl))
          ]
        ]))
read_all-perm m (Permᴰ.trans p q) = Permᴰ.trans (read_all-perm m p) (read_all-perm m q)

read_all-keys :
    (m n : Dict String Op) → All (λ e. lookup e.0 m ≡ some e.1) n → read_all m (keys n) ≡ values n
unfolding read_all
read_all-keys m [] a = refl
read_all-keys m ((i, op) ∷ n) a = rw (a.0, read_all) (ap (◌∷◌ op) (read_all-keys m n a.1))

-- The operations in the order of their identifiers are those of the dictionary.
pub read_all-values :
    (m : Dict String Op) → IsMap m → Permᴰ (values m) (read_all m (sort_by (λ i. i) (keys m)))
read_all-values m h =
    subst (λ x. Permᴰ x (read_all m (sort_by (λ i. i) (keys m))))
      (read_all-keys m m (All-entries m h))
      (read_all-perm m (PermD.symm (sort_by-perm (λ i. i) (keys m))))

pub length-perm {ℓ} : {A : Type ℓ} {xs ys : List A} → Permᴰ xs ys → length xs ≡ length ys
length-perm Permᴰ.nil = refl
length-perm (Permᴰ.cons e p) = ap suc (length-perm p)
length-perm (Permᴰ.swap e f) = refl
length-perm (Permᴰ.trans p q) = length-perm p ∙ length-perm q

module _ (h : Hashing) where
  pub keyed-values : (m : Dict String Op) → All (λ e. op_id h e.1 ≡ e.0) m → keyed h (values m) ≡ m
  keyed-values [] a = refl
  keyed-values ((i, op) ∷ m) a = ap₂ (λ j rest. (j, op) ∷ rest) a.0 (keyed-values m a.1)

  -- A list of the dictionary's operations, in another order, is a dictionary that answers alike.
  pub read_all-IsMap :
      (m : Dict String Op)
      → IsMap m
      → All (λ e. op_id h e.1 ≡ e.0) m
      → IsMap (keyed h (read_all m (sort_by (λ i. i) (keys m))))
        × ((i : String) → lookup i m ≡ lookup i (keyed h (read_all m (sort_by (λ i. i) (keys m)))))
  read_all-IsMap m unique named =
      let e = keyed-values m named in
      let (map, alike) =
        perm-lookup (PermD.map (λ op. (op_id h op, op)) (read_all-values m unique))
          (subst IsMap (sym e) unique) in
      (map, λ i. ap (lookup i) (sym e) ∙ alike i)

  -- A log of the document that answers as `held`.
  pub record Represents (doc_id : String) (d : Document) (held : String → Option Op) : Type 0 where
    pub log : IsLog h d
    pub named : d.doc_id ≡ doc_id
    pub answers : (i : String) → lookup i d.ops ≡ held i

  pub document-Represents :
      (doc_id : String) (ops : List Op)
      → All (λ op. op.doc_id ≡ doc_id) ops
      → Represents doc_id (document h doc_id ops) (λ i. lookup i (keyed h ops))
  unfolding document merge_ops
  document-Represents doc_id ops owned = record {
    log = document-IsLog h doc_id ops;
    named = merge_loop-doc_id h 0 ops (empty doc_id);
    answers = λ i. lookup-document h doc_id ops i owned;
  }

  pub copy-Represents :
      (doc_id : String) (d : Document) (held : String → Option Op)
      → Represents doc_id d held
      → Represents doc_id (document h doc_id (all_ops d)) held
  unfolding all_ops
  copy-Represents doc_id d held r =
      let m = d.ops in
      let unique = r.log.unique in
      let owned =
        All-perm (λ op. op.doc_id ≡ doc_id) (read_all-values m unique)
          (All-imp (values m) (All-owned h d r.log) (λ op e. e ∙ r.named)) in
      let c = document-Represents doc_id (all_ops d) owned in
      let (_, alike) = read_all-IsMap m unique (All-imp m r.log.named (λ e p. p.0)) in
      record {
        log = c.log;
        named = c.named;
        answers = λ i. c.answers i ∙ sym (alike i) ∙ r.answers i;
      }

  pub merge-Represents :
      (doc_id : String) (d e : Document) (held other : String → Option Op)
      → Represents doc_id d held
      → Represents doc_id e other
      → Represents doc_id (merged_with h e d) (λ i. or_else (held i) (other i))
  merge-Represents doc_id d e held other rd re =
      let (_, log, named, answers) = merge_lem h e d rd.log re.log (re.named ∙ sym rd.named) in
      record {
        log = log;
        named = named ∙ rd.named;
        answers = λ i. answers i ∙ ap₂ or_else (rd.answers i) (re.answers i);
      }
