-- ===== src/Lab/Accepted.antt =====
-- What holds of a scenario that was accepted (lab/simulator.py, `_normalize_operations`).
use szl_mesh.Common.Dict.{Dict, lookup, has, IsMap, put-IsMap, All-put, length-put, values}
use szl_mesh.Common.Json.{Json, Fields, Hashing, null, bool, int, negative, float, str, arr, obj}
use szl_mesh.Common.Best.{All-perm}
use szl_mesh.Common.Order.{◌=?◌, str_ord}
use szl_mesh.Common.Result.{Result, ok, ok_inj, bind-ok}
use szl_mesh.Common.Truth.{get, get_or}
use szl_mesh.Common.{
  ℕ, suc, ◌+◌, ◌≤◌, ◌<◌, ◌%◌, Bool, true, false, ◌&&◌, String, List, [], ◌∷◌, ◌≡◌, refl, sym, ap,
  ◌∙◌, arith, All, All-append, All-imp, All-map, length, length-append, leb, ltb, ltb→lt, leb→le,
  Option-cases, inl, inr, subst,
}
use szl_mesh.Crdt.{Op, op_id}
use szl_mesh.Lab.Copies.{read_all-values, read_all-IsMap, length-perm}
use szl_mesh.Lab.Orders.{AreUnique}
use szl_mesh.Lab.Scenario.{
  Normalized, Scenario, nothing_yet, require, bounded_int, bounded_text, boolean, track_of,
  checked_value, row_node_id, rows_of, row_keys, known_keys, has_shape, read_row, take_in,
  normalize_row, normalize_loop, normalize_operations, read_scenario, max_lamport, max_operations,
  max_replicas, max_key_bytes, max_doc_id_bytes,
}

require-ok :
    {A : Type 0} (test : Bool) (rest : Result A) (a : A)
    → require test rest ≡ ok a
    → (test ≡ true) × (rest ≡ ok a)
require-ok test rest a e = ground arith

bounded_int-ok :
    (within : ℕ → Bool) (j : Json) (n : ℕ) → bounded_int within j ≡ ok n → within n ≡ true
bounded_int-ok within (int m) n e =
    let (t, r) = require-ok (within m) (ok m) n e in ap within (sym (ok_inj r)) ∙ t
bounded_int-ok within null n e = cc
bounded_int-ok within (bool b) n e = cc
bounded_int-ok within (negative m) n e = cc
bounded_int-ok within (float s) n e = cc
bounded_int-ok within (str s) n e = cc
bounded_int-ok within (arr xs) n e = cc
bounded_int-ok within (obj fs) n e = cc

length-values : (m : Dict String Op) → length (values m) ≡ length m
length-values [] = refl
length-values (e ∷ m) = ap suc (length-values m)

-- An operation of the document, with a Lamport time and an origin within bounds.
abbrev pub InBounds : String → ℕ → ℕ × Op → Type 0
InBounds doc_id replicas e = (e.1.doc_id ≡ doc_id) × (e.0 < replicas) × (e.1.lamport ≤ max_lamport)

module _ (h : Hashing) (doc_id : String) (replicas : ℕ) where
  read_row-InBounds :
      (index : ℕ) (row : Fields) (read : ℕ × Op)
      → read_row h doc_id replicas index row ≡ ok read
      → InBounds doc_id replicas read
  unfolding read_row
  read_row-InBounds index row read e =
      let (node_id, _, e₁) = bind-ok (row_node_id h row) _ read e in
      let (key, _, e₂) = bind-ok (bounded_text max_key_bytes (get "key" row)) _ read e₁ in
      let (lamport, timed, e₃) =
        bind-ok (bounded_int (λ n. leb n max_lamport) (get "lamport" row)) _ read e₂ in
      let (deletion, _, e₄) = bind-ok (boolean (get_or "deletion" (bool false) row)) _ read e₃ in
      let (track, _, e₅) = bind-ok (track_of (get_or "track" (str "OBSERVED") row)) _ read e₄ in
      let (origin, placed, e₆) =
        bind-ok (bounded_int (λ n. ltb n replicas) (get_or "origin" (int (index % replicas)) row)) _
          read e₅ in
      let (value, _, e₇) = bind-ok (checked_value h (get "value" row)) _ read e₆ in
      let early = bounded_int-ok (λ n. leb n max_lamport) (get "lamport" row) lamport timed in
      let near =
        bounded_int-ok (λ n. ltb n replicas) (get_or "origin" (int (index % replicas)) row) origin
          placed in
      subst (InBounds doc_id replicas) (ok_inj e₇)
        (refl, ltb→lt origin replicas near, leb→le lamport max_lamport early)

  -- What the loop keeps, after it took in `taken` operations.
  pub record IsNormal (taken : ℕ) (s : Normalized) : Type 0 where
    pub unique : IsMap s.unique
    pub named : All (λ e. (op_id h e.1 ≡ e.0) × (e.1.doc_id ≡ doc_id)) s.unique
    pub bounded : All (InBounds doc_id replicas) s.delivered
    pub taken_in : length s.delivered ≡ taken
    pub counted : length s.delivered ≡ length s.unique + s.duplicates

  nothing_yet-IsNormal : IsNormal 0 nothing_yet
  nothing_yet-IsNormal = record {
    unique = tt;
    named = tt;
    bounded = tt;
    taken_in = refl;
    counted = refl;
  }

  take_in-IsNormal :
      (taken origin : ℕ) (op : Op) (s t : Normalized)
      → IsNormal taken s
      → InBounds doc_id replicas (origin, op)
      → take_in h origin op s ≡ ok t
      → IsNormal (taken + 1) t
  unfolding take_in has
  take_in-IsNormal taken origin op s t n inside e =
      let more = length-append s.delivered ((origin, op) ∷ []) in
      let bounded =
        All-append (InBounds doc_id replicas) s.delivered ((origin, op) ∷ []) n.bounded
          (inside, tt) in
      elim (Option-cases (lookup (op_id h op) s.unique)) [
        | inl new ↦ subst (IsNormal (taken + 1)) (ok_inj (rw (new, take_in) at e)) (record {
          unique = put-IsMap (op_id h op) op s.unique n.unique;
          named =
              All-put (λ e. (op_id h e.1 ≡ e.0) × (e.1.doc_id ≡ doc_id)) (op_id h op) op s.unique
                n.named (refl, inside.0);
          bounded = bounded;
          taken_in = omega (arith, more, n.taken_in);
          counted = ground (arith, more, n.counted, length-put (op_id h op) op s.unique, new);
        })
        | inr (prior, present) ↦
            let (_, kept) = require-ok (prior.track =? op.track) _ t (rw (present, take_in) at e) in
            subst (IsNormal (taken + 1)) (ok_inj kept) (record {
              unique = n.unique;
              named = n.named;
              bounded = bounded;
              taken_in = omega (arith, more, n.taken_in);
              counted = omega (arith, more, n.counted);
            })
      ]

  normalize_row-IsNormal :
      (taken index : ℕ) (row : Json) (s t : Normalized)
      → IsNormal taken s
      → normalize_row h doc_id replicas index row s ≡ ok t
      → IsNormal (taken + 1) t
  unfolding normalize_row
  normalize_row-IsNormal taken index (obj row) s t n e =
      let (_, e₁) = require-ok (known_keys row_keys row) _ t e in
      let (read, reads, e₂) = bind-ok (read_row h doc_id replicas index row) _ t e₁ in
      take_in-IsNormal taken read.0 read.1 s t n (read_row-InBounds index row read reads) e₂
  normalize_row-IsNormal taken index null s t n e = cc
  normalize_row-IsNormal taken index (bool b) s t n e = cc
  normalize_row-IsNormal taken index (int m) s t n e = cc
  normalize_row-IsNormal taken index (negative m) s t n e = cc
  normalize_row-IsNormal taken index (float x) s t n e = cc
  normalize_row-IsNormal taken index (str x) s t n e = cc
  normalize_row-IsNormal taken index (arr xs) s t n e = cc

  normalize_loop-IsNormal :
      (taken index : ℕ) (rows : List Json) (s t : Normalized)
      → IsNormal taken s
      → normalize_loop h doc_id replicas index rows s ≡ ok t
      → IsNormal (taken + length rows) t
  unfolding normalize_loop
  normalize_loop-IsNormal taken index [] s t n e =
      subst (λ k. IsNormal k t) (omega arith) (subst (IsNormal taken) (ok_inj e) n)
  normalize_loop-IsNormal taken index (row ∷ rows) s t n e =
      let (u, first, rest) = bind-ok (normalize_row h doc_id replicas index row s) _ t e in
      subst (λ k. IsNormal k t) (omega arith)
        (normalize_loop-IsNormal (taken + 1) (index + 1) rows u t
          (normalize_row-IsNormal taken index row s u n first) rest)

-- A scenario within the limits: 2 to 8 replicas; 1 to 64 delivered operations, each of the document,
-- with an origin among the replicas and a Lamport time below 2^31; the different operations are
-- each there once, and with the repetitions they are as many as were delivered.
pub record IsAccepted (h : Hashing) (s : Scenario) : Type 0 where
  pub least_replicas : 2 ≤ s.replicas
  pub most_replicas : s.replicas ≤ max_replicas
  pub some_delivered : 1 ≤ length s.delivered
  pub most_delivered : length s.delivered ≤ max_operations
  pub bounded : All (InBounds s.doc_id s.replicas) s.delivered
  pub once : AreUnique h s.doc_id s.unique
  pub counted : length s.delivered ≡ length s.unique + s.duplicates

module _ (h : Hashing) where
  scenario-IsAccepted :
      (doc_id : String) (replicas : ℕ) (rows : List Json) (parts : List (ℕ × Op) × (List Op × ℕ))
      → (leb 2 replicas && leb replicas max_replicas) ≡ true
      → normalize_operations h doc_id replicas rows ≡ ok parts
      → IsAccepted h (record {
        doc_id = doc_id;
        replicas = replicas;
        delivered = parts.0;
        unique = parts.1.0;
        duplicates = parts.1.1;
      })
  unfolding normalize_operations
  scenario-IsAccepted doc_id replicas rows parts fits e =
      let (some_rows, e₁) =
        require-ok (leb 1 (length rows) && leb (length rows) max_operations) _ parts e in
      let (state, looped, e₂) =
        bind-ok (normalize_loop h doc_id replicas 0 rows nothing_yet) _ parts e₁ in
      let n =
        normalize_loop-IsNormal h doc_id replicas 0 0 rows nothing_yet state
          (nothing_yet-IsNormal h doc_id replicas) looped in
      let p = read_all-values state.unique n.unique in
      let once =
        (read_all-IsMap h state.unique n.unique (All-imp state.unique n.named (λ e p. p.0))).0 in
      let owned =
        All-perm (λ (op : Op). op.doc_id ≡ doc_id) p
          (All-map (λ (op : Op). op.doc_id ≡ doc_id) (λ e. e.1) state.unique
            (All-imp state.unique n.named (λ e p. p.1))) in
      subst
        (λ x. IsAccepted h (record {
          doc_id = doc_id;
          replicas = replicas;
          delivered = x.0;
          unique = x.1.0;
          duplicates = x.1.1;
        }))
        (ok_inj e₂)
        (record {
          least_replicas = ground (arith, fits);
          most_replicas = ground (arith, fits);
          some_delivered = ground (arith, some_rows, n.taken_in);
          most_delivered = ground (arith, some_rows, n.taken_in);
          bounded = n.bounded;
          once = (once, owned);
          counted = omega (arith, n.counted, length-perm p, length-values state.unique);
        })

  -- A scenario that is accepted is within the limits: 2 to 8 replicas; 1 to 64 delivered
  -- operations, each of the document, with an origin among the replicas and a Lamport time below
  -- 2^31; the different operations are each there once, and with the repetitions they are as many
  -- as were delivered.
  pub read_scenario-IsAccepted :
      (value : Json) (s : Scenario) → read_scenario h value ≡ ok s → IsAccepted h s
  unfolding read_scenario
  read_scenario-IsAccepted (obj value) s e =
      let (_, e₁) = require-ok _ _ s e in
      let (doc_id, _, e₂) = bind-ok (bounded_text max_doc_id_bytes (get "doc_id" value)) _ s e₁ in
      let (_, e₃) = require-ok (has_shape 96 doc_id) _ s e₂ in
      let (replicas, fits, e₄) =
        bind-ok (bounded_int (λ n. leb 2 n && leb n max_replicas) (get "replicas" value)) _ s e₃ in
      let (rows, _, e₅) = bind-ok (rows_of (get "operations" value)) _ s e₄ in
      let (parts, normal, e₆) = bind-ok (normalize_operations h doc_id replicas rows) _ s e₅ in
      subst (IsAccepted h) (ok_inj e₆) (
        scenario-IsAccepted doc_id replicas rows parts
          (bounded_int-ok (λ n. leb 2 n && leb n max_replicas) (get "replicas" value) replicas fits)
          normal)
  read_scenario-IsAccepted null s e = cc
  read_scenario-IsAccepted (bool b) s e = cc
  read_scenario-IsAccepted (int m) s e = cc
  read_scenario-IsAccepted (negative m) s e = cc
  read_scenario-IsAccepted (float x) s e = cc
  read_scenario-IsAccepted (str x) s e = cc
  read_scenario-IsAccepted (arr xs) s e = cc
