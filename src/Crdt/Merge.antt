-- ===== src/Crdt/Merge.antt =====
-- `CRDTDocument.merge` and `merge_ops` (crdt.py): the union of two logs, its laws, and where the
-- order of merges does show.
use szl_mesh.Common.Dict.{lookup, values, put}
use szl_mesh.Common.Json.{Hashing}
use szl_mesh.Common.Order.{◌=?◌, str_ord, =?_iff}
use szl_mesh.Common.Sort.{sort_by}
use szl_mesh.Common.Result.{ok, raise, value_error}
use szl_mesh.Common.{
  ℕ, ◌+◌, String, Option, none, some, List, [], ◌∷◌, ◌≡◌, ◌≢◌, refl, sym, arith, true, ap, ◌∙◌, All,
  All-both, or_else, length, subst, false,
}
use szl_mesh.Crdt.Log.{
  IsLog, Named, All-owned, lookup-merge_loop, merge_loop-IsLog, merge_loop-doc_id, merge_loop_count,
}
use szl_mesh.Crdt.Views.{SameOps, In, All-In, SameOps-converge}
use szl_mesh.Crdt.{
  Op, Document, op_id, add_op, merge_loop, merge, view, heads, state_digest, authorized_view,
  authorized, observed, winners_from, challenge, collect,
}

pub or_else_assoc {ℓ} :
    {A : Type ℓ} (a b c : Option A) → or_else (or_else a b) c ≡ or_else a (or_else b c)
or_else_assoc none b c = refl
or_else_assoc (some a) b c = refl

-- The log of `d` after it took the operations of `other`.
abbrev pub merged : Hashing → Document → Document → Document
merged h other d = (merge h other d).1

module _ (h : Hashing) (other d : Document) where
  merge-merge_loop : other.doc_id ≡ d.doc_id → merge h other d ≡ merge_loop h 0 (values other.ops) d
  unfolding merge
  merge-merge_loop e = rw ((=?_iff _ _).1 e)

  -- A merge of two logs of one document succeeds, and returns the number of operations that are
  -- new. The result is a log of the document and holds, under each identifier, the operation that
  -- was there, or else the other log's.
  pub merge_lem :
      IsLog h d
      → IsLog h other
      → other.doc_id ≡ d.doc_id
      → ((k : ℕ) × ((merge h other d).0 ≡ ok k)
          × (k + length d.ops ≡ length (merged h other d).ops))
        × IsLog h (merged h other d)
        × ((merged h other d).doc_id ≡ d.doc_id)
        × ((i : String)
            → lookup i (merged h other d).ops ≡ or_else (lookup i d.ops) (lookup i other.ops))
  merge_lem l lo e =
      let named = subst (λ x. Named h x other.ops) e lo.named in
      let owned =
        subst (λ x. All (λ op. op.doc_id ≡ x) (values other.ops)) e (All-owned h other lo) in
      let (k, returned, count) = merge_loop_count h 0 (values other.ops) d owned in
      rw (merge-merge_loop e, merged)
        (
          (k, returned, omega (arith, count)),
          merge_loop-IsLog h 0 (values other.ops) d l,
          merge_loop-doc_id h 0 (values other.ops) d,
          λ i. lookup-merge_loop h 0 other.ops d i named,
        )

  -- Documents of different names do not merge.
  pub merge_foreign : other.doc_id ≢ d.doc_id → merge h other d ≡ (raise value_error, d)
  unfolding merge
  merge_foreign ne = ground (arith, str_ord.same other.doc_id d.doc_id)

-- Operations that are in the log already: nothing is added, and the document stays as it is.
pub merge_loop_replay :
    (h : Hashing) (n : ℕ) (ops : List Op) (d : Document)
    → All (λ op. In h d op × (op.doc_id ≡ d.doc_id)) ops
    → merge_loop h n ops d ≡ (ok n, d)
unfolding merge_loop add_op
merge_loop_replay h n [] d all = refl
merge_loop_replay h n (op ∷ ops) d all =
    ground (arith, all.0.0, all.0.1, str_ord.cmp_self d.doc_id, merge_loop_replay h n ops d all.1)

-- Where both logs hold an identifier, they hold the same operation on the same track.
abbrev pub Agree : Document → Document → Type 0
Agree d e = (i : String) (a b : Op) → lookup i d.ops ≡ some a → lookup i e.ops ≡ some b → a ≡ b

pub or_else_comm {ℓ} :
    {A : Type ℓ} (x y : Option A)
    → ((a b : A) → x ≡ some a → y ≡ some b → a ≡ b)
    → or_else x y ≡ or_else y x
or_else_comm none none agree = refl
or_else_comm none (some b) agree = refl
or_else_comm (some a) none agree = refl
or_else_comm (some a) (some b) agree = ap some (agree a b refl refl)

module _ (h : Hashing) where
  -- Merging is idempotent: a document that merges itself adds nothing and does not change.
  pub merge_self : (d : Document) → IsLog h d → merge h d d ≡ (ok 0, d)
  unfolding merge
  merge_self d l = rw ((=?_iff d.doc_id _).1 refl) (
      merge_loop_replay h 0 (values d.ops) d
        (All-both _ _ (values d.ops) (All-In h d l) (All-owned h d l)))

  -- Two replicas that agree on their common operations converge whichever merges the other: the
  -- views, the digests and the heads are the same.
  pub merge_comm :
      (d e : Document)
      → IsLog h d
      → IsLog h e
      → d.doc_id ≡ e.doc_id
      → Agree d e
      → ((track : String)
          → (view h track (merged h e d) ≡ view h track (merged h d e))
            × (state_digest h track (merged h e d) ≡ state_digest h track (merged h d e)))
        × (heads h (merged h e d) ≡ heads h (merged h d e))
  merge_comm d e ld le same_doc agree =
      let (_, log_de, _, at_de) = merge_lem h e d ld le (sym same_doc) in
      let (_, log_ed, _, at_ed) = merge_lem h d e le ld same_doc in
      SameOps-converge h _ _ log_de log_ed λ i. at_de i ∙ or_else_comm _ _ (agree i) ∙ sym (at_ed i)

  -- Merging is associative, whatever the tracks: both ways end in the same log, and so in the
  -- same views, digests and heads.
  pub merge_assoc :
      (a b c : Document)
      → IsLog h a
      → IsLog h b
      → IsLog h c
      → b.doc_id ≡ a.doc_id
      → c.doc_id ≡ a.doc_id
      → SameOps (merged h c (merged h b a)) (merged h (merged h c b) a)
        × ((track : String)
            → view h track (merged h c (merged h b a)) ≡ view h track (merged h (merged h c b) a))
        × (heads h (merged h c (merged h b a)) ≡ heads h (merged h (merged h c b) a))
  merge_assoc a b c la lb lc ba ca =
      let (_, log_ab, doc_ab, at_ab) = merge_lem h b a la lb ba in
      let (_, log_abc, _, at_abc) = merge_lem h c (merged h b a) log_ab lc (ca ∙ sym doc_ab) in
      let (_, log_bc, doc_bc, at_bc) = merge_lem h c b lb lc (ca ∙ sym ba) in
      let (_, log_abc', _, at_abc') = merge_lem h (merged h c b) a la log_bc (doc_bc ∙ ba) in
      let same : SameOps (merged h c (merged h b a)) (merged h (merged h c b) a) = λ i.
        at_abc i
        ∙ ap (λ x. or_else x (lookup i c.ops)) (at_ab i)
        ∙ or_else_assoc (lookup i a.ops) (lookup i b.ops) (lookup i c.ops)
        ∙ sym (ap (or_else (lookup i a.ops)) (at_bc i))
        ∙ sym (at_abc' i) in
      let (views, same_heads) = SameOps-converge h _ _ log_abc log_abc' same in
      (same, λ track. (views track).0, same_heads)

-- The log that holds one operation, on the given track.
abbrev pub solo : Hashing → String → Op → Document
solo h track op = record {
  doc_id = op.doc_id;
  ops = (op_id h op, record op { track = track }) ∷ [];
}

-- The replica's own classification stays.
solo_merge :
    (h : Hashing) (s t : String) (op : Op) → merged h (solo h t op) (solo h s op) ≡ solo h s op
unfolding merge merge_loop add_op op_id lookup
solo_merge h s t op = ground (arith, str_ord.cmp_self op.doc_id, str_ord.cmp_self (op_id h op))

track_tests : ((authorized =? authorized) ≡ true) × ((authorized =? observed) ≡ false)
unfolding str_ord
track_tests = (refl, refl)

solo-authorized_view :
    (h : Hashing) (op : Op)
    → op.deletion ≡ false
    → (authorized_view h (solo h authorized op) ≡ (op.key, op.value) ∷ [])
      × (authorized_view h (solo h observed op) ≡ [])
unfolding authorized_view winners_from challenge collect put sort_by lookup
solo-authorized_view h op live =
    (ground (arith, track_tests.0, str_ord.cmp_self op.key), ground (arith, track_tests.1))

-- The order of merges shows where replicas classified one operation differently: the replica that
-- had it authorized keeps it in its authorized view after the merge, and the one that had it
-- observed does not get it there.
pub merge_tracks_differ :
    (h : Hashing) (op : Op)
    → op.deletion ≡ false
    → (authorized_view h (merged h (solo h observed op) (solo h authorized op))
        ≡ (op.key, op.value) ∷ [])
      × (authorized_view h (merged h (solo h authorized op) (solo h observed op)) ≡ [])
merge_tracks_differ h op live =
    rw (solo_merge h authorized observed op, solo_merge h observed authorized op)
      (solo-authorized_view h op live)
