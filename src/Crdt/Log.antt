-- ===== src/Crdt/Log.antt =====
-- The operation log (crdt.py, `add_op`, `set_op_track`, `merge`): its invariant, and what each
-- method adds and keeps.
use szl_mesh.Common.Dict.{
  Dict, lookup, put, IsMap, values, has, lookup-put, length-put, put-IsMap, All-lookup, All-put,
}
use szl_mesh.Common.Json.{Hashing}
use szl_mesh.Common.Order.{◌=?◌, str_ord, =?_iff}
use szl_mesh.Common.Result.{ok, raise, value_error}
use szl_mesh.Common.{
  ℕ, ◌+◌, true, String, none, some, List, [], ◌∷◌, ◌≡◌, refl, arith, if◌then◌else◌, All, inl, inr,
  Bool-cases, Option-cases, not, or_else, or_else-none, sym, subst, ◌∙◌, ◌≢◌, All-imp, All-map,
  length,
}
use szl_mesh.Crdt.{Op, Document, empty, op_id, add_op, set_op_track, merge_loop}

module _ (h : Hashing) where
  -- Each operation stands once, under its own identifier, and belongs to the document.
  pub record IsLog (d : Document) : Type 0 where
    pub unique : IsMap d.ops
    pub named : All (λ e. (op_id h e.1 ≡ e.0) × (e.1.doc_id ≡ d.doc_id)) d.ops

  -- A new document satisfies the invariant of logs.
  pub empty-IsLog : (doc_id : String) → IsLog (empty doc_id)
  empty-IsLog doc_id = record { unique = tt; named = tt }

  put-IsLog :
      (op : Op) (id : String) (d : Document)
      → IsLog d
      → op_id h op ≡ id
      → op.doc_id ≡ d.doc_id
      → IsLog (record d { ops = put id op d.ops })
  put-IsLog op id d l e f = record {
    unique = put-IsMap id op d.ops l.unique;
    named = All-put _ id op d.ops l.named (e, f);
  }

  -- Adding an operation keeps the invariant, also when it is refused.
  pub add_op-IsLog : (op : Op) (d : Document) → IsLog d → IsLog (add_op h op d).1
  unfolding add_op
  add_op-IsLog op d l = elim (Bool-cases (op.doc_id =? d.doc_id)) [
    | inr no_match ↦ rw no_match l
    | inl same ↦ rw same (elim (Option-cases (lookup (op_id h op) d.ops)) [
      | inr (old, present) ↦ rw present l
      | inl fresh ↦ rw fresh (put-IsLog op (op_id h op) d l refl ((=?_iff _ _).0 same))
    ])
  ]

  -- Changing a track keeps the invariant: the track is not part of the identity.
  pub set_op_track-IsLog :
      (id track : String) (d : Document) → IsLog d → IsLog (set_op_track id track d)
  unfolding set_op_track op_id
  set_op_track-IsLog id track d l = elim (Option-cases (lookup id d.ops)) [
    | inl absent ↦ rw (absent, set_op_track) l
    | inr (op, present) ↦
        let (named, owned) = All-lookup _ id op d.ops l.named present in
        rw (present, set_op_track) (put-IsLog (record op { track = track }) id d l named owned)
  ]

  pub merge_loop-IsLog :
      (n : ℕ) (ops : List Op) (d : Document) → IsLog d → IsLog (merge_loop h n ops d).1
  unfolding merge_loop
  merge_loop-IsLog n [] d l = l
  merge_loop-IsLog n (op ∷ ops) d l =
      let d' = (add_op h op d).1 in
      let l' = add_op-IsLog op d l in
      ground (arith, merge_loop-IsLog (n + 1) ops d' l', merge_loop-IsLog n ops d' l', l')

  -- An operation of the same document is added, under its identifier, exactly if that is new;
  -- the operation that is there already stays.
  pub add_op_lem :
      (op : Op) (d : Document)
      → op.doc_id ≡ d.doc_id
      → ((add_op h op d).0 ≡ ok (not (has (op_id h op) d.ops)))
        × ((add_op h op d).1.doc_id ≡ d.doc_id)
        × ((i : String)
            → lookup i (add_op h op d).1.ops
              ≡ or_else (lookup i d.ops) (if op_id h op =? i then some op else none))
  unfolding add_op has
  add_op_lem op d e = (
    ground (arith, str_ord.cmp_self d.doc_id),
    ground arith,
    λ i. ground (
      arith,
      str_ord.cmp_self d.doc_id,
      lookup-put (op_id h op) i op d.ops,
      str_ord.same (op_id h op) i,
    ),
  )

  -- An operation of another document is refused, and nothing changes.
  pub add_op_foreign :
      (op : Op) (d : Document) → op.doc_id ≢ d.doc_id → add_op h op d ≡ (raise value_error, d)
  unfolding add_op
  add_op_foreign op d ne = ground (arith, str_ord.same op.doc_id d.doc_id)

  -- Every operation of a log belongs to its document.
  pub All-owned : (d : Document) → IsLog d → All (λ op. op.doc_id ≡ d.doc_id) (values d.ops)
  All-owned d l = All-map _ (λ e. e.1) d.ops (All-imp d.ops l.named (λ e p. p.1))

  -- Each operation of the map stands under its identifier, and belongs to the document.
  abbrev pub Named : String → Dict String Op → Type 0
  Named doc_id m = All (λ e. (op_id h e.1 ≡ e.0) × (e.1.doc_id ≡ doc_id)) m

  -- What the loop leaves in the log: what was there, and behind it what it was given.
  pub lookup-merge_loop :
      (n : ℕ) (m : Dict String Op) (d : Document) (i : String)
      → Named d.doc_id m
      → lookup i (merge_loop h n (values m) d).1.ops ≡ or_else (lookup i d.ops) (lookup i m)
  unfolding merge_loop lookup
  lookup-merge_loop n [] d i named = sym (or_else-none _)
  lookup-merge_loop n ((j, op) ∷ m) d i named =
      let (result, same_doc, answers) = add_op_lem op d named.0.1 in
      let rest = subst (λ x. Named x m) (sym same_doc) named.1 in
      let new = not (has (op_id h op) d.ops) in
      let d' = (add_op h op d).1 in
      rw (result, merge_loop)
        (ground
          (arith, named.0.0, answers i, lookup-merge_loop (if new then n + 1 else n) m d' i rest))

  -- The loop keeps the document's name.
  pub merge_loop-doc_id :
      (n : ℕ) (ops : List Op) (d : Document) → (merge_loop h n ops d).1.doc_id ≡ d.doc_id
  unfolding merge_loop add_op
  merge_loop-doc_id n [] d = refl
  merge_loop-doc_id n (op ∷ ops) d =
      let d' = (add_op h op d).1 in
      ground (arith, merge_loop-doc_id (n + 1) ops d', merge_loop-doc_id n ops d')

  length-add_op :
      (op : Op) (d : Document)
      → length (add_op h op d).1.ops ≡ length d.ops + elim (add_op h op d).0 [ ok true ↦ 1 | _ ↦ 0 ]
  unfolding add_op has
  length-add_op op d = ground (arith, length-put (op_id h op) op d.ops)

  -- Operations of the document are all taken, and the number returned is the growth of the log.
  pub merge_loop_count :
      (n : ℕ) (ops : List Op) (d : Document)
      → All (λ op. op.doc_id ≡ d.doc_id) ops
      → (k : ℕ) × ((merge_loop h n ops d).0 ≡ ok k)
        × (k + length d.ops ≡ n + length (merge_loop h n ops d).1.ops)
  unfolding merge_loop
  merge_loop_count n [] d all = (n, refl, refl)
  merge_loop_count n (op ∷ ops) d all =
      let (result, same_doc, answers) = add_op_lem op d all.0 in
      let new = not (has (op_id h op) d.ops) in
      let d' = (add_op h op d).1 in
      let (k, returned, count) =
        merge_loop_count (if new then n + 1 else n) ops d'
          (All-imp ops all.1 (λ x e. e ∙ sym same_doc)) in
      rw (result, merge_loop) (k, returned, ground (arith, count, length-add_op op d, result))
