-- ===== src/Crdt.antt =====
-- src/szl_mesh/crdt.py: operations, the operation log of a document, and the views that are
-- materialised from it. A method returns its result, or the exception, beside the new document.
pub mod Log
pub mod Winners
pub mod Views
pub mod Merge
pub mod Lww
pub mod Sync
mod Tests
use szl_mesh.Common.Dict.{Dict, lookup, put, keys, values}
use szl_mesh.Common.Json.{Json, Hashing, Bytes, object, str, int, bool}
use szl_mesh.Common.Order.{◌=?◌, ◌<?◌, str_ord, nat_ord, pair_ord}
use szl_mesh.Common.Result.{Result, ok, raise, value_error}
use szl_mesh.Common.Sort.{sort_by}
use szl_mesh.Common.Members.{mem}
use szl_mesh.Common.{
  ℕ, ◌+◌, Bool, true, false, not, String, none, some, List, [], ◌∷◌, map, if◌then◌else◌, any,
  length,
}

abbrev pub authorized : String
authorized = "AUTHORIZED"

abbrev pub observed : String
observed = "OBSERVED"

abbrev pub revoked : String
revoked = "REVOKED"

-- Clocks start at 0 and only advance, so a Lamport time is a natural number. A value is JSON,
-- which is immutable here: the source's deep copies keep it so.
pub record Op : Type 0 where
  pub doc_id : String
  pub key : String
  pub value : Json
  pub lamport : ℕ
  pub node_id : String
  pub deletion : Bool
  pub track : String

pub record Document : Type 0 where
  pub doc_id : String
  pub ops : Dict String Op

abbrev pub empty : String → Document
empty doc_id = record { doc_id = doc_id; ops = [] }

unfoldable pub set_op_track : String → String → Document → Document
set_op_track id track d = elim (lookup id d.ops) [
  | none ↦ d
  | some existing ↦ record d { ops = put id (record existing { track = track }) d.ops }
]

-- The second loop of `_materialise`, over the sorted keys. A key is read once, so a write to
-- `out` is always a new entry.
unfoldable pub collect : Dict String Op → List String → Dict String Json
collect winners [] = []
collect winners (k ∷ ks) = elim (lookup k winners) [
  | none ↦ collect winners ks
  | some op ↦ if op.deletion then collect winners ks else (k, op.value) ∷ collect winners ks
]

abbrev pub not_revoked : Op → Bool
not_revoked op = not (op.track =? revoked)

abbrev pub in_tracks : List String → Op → Bool
in_tracks tracks op = mem op.track tracks

-- The operations in the order of their identifiers; `self._ops[k]` never misses.
unfoldable pub read_all : Dict String Op → List String → List Op
read_all ops [] = []
read_all ops (i ∷ is) = elim (lookup i ops) [
  | none ↦ read_all ops is
  | some op ↦ op ∷ read_all ops is
]

unfoldable pub all_ops : Document → List Op
unfolding read_all
all_ops d = read_all d.ops (sort_by (λ i. i) (keys d.ops))

abbrev pub len : Document → ℕ
len d = length d.ops

-- The fields that the operation's identity covers. The track is not one of them.
abbrev pub op_body : String → String → Json → ℕ → String → Bool → Json
op_body doc_id key value lamport node_id deletion = object (
    ("doc", str doc_id)
    ∷ ("key", str key)
    ∷ ("value", value)
    ∷ ("lamport", int lamport)
    ∷ ("node", str node_id)
    ∷ ("del", bool deletion)
    ∷ [])

module _ (h : Hashing) where
  open h use {canonical, sha256}

  unfoldable pub compute_op_id : String → String → Json → ℕ → String → Bool → String
  compute_op_id doc_id key value lamport node_id deletion =
      sha256 (canonical (op_body doc_id key value lamport node_id deletion))

  unfoldable pub op_id : Op → String
  unfolding compute_op_id
  op_id op = compute_op_id op.doc_id op.key op.value op.lamport op.node_id op.deletion

  pub raw_bytes : Op → Bytes
  raw_bytes op = canonical (op_body op.doc_id op.key op.value op.lamport op.node_id op.deletion)

  unfoldable pub order_key : Op → ℕ × (String × String)
  order_key op = (op.lamport, (op.node_id, op_id op))

  -- True if the operation is new.
  unfoldable pub add_op : Op → Document → Result Bool × Document
  add_op op d =
      if op.doc_id =? d.doc_id
      then elim (lookup (op_id op) d.ops) [
        | some _ ↦ (ok false, d)
        | none ↦ (ok true, record d { ops = put (op_id op) op d.ops })
      ]
      else (raise value_error, d)

  -- The loop of `merge` and `merge_ops`; `added` counts the new operations. What was added before
  -- an exception stays in the log.
  unfoldable pub merge_loop : ℕ → List Op → Document → Result ℕ × Document
  merge_loop added [] d = (ok added, d)
  merge_loop added (op ∷ ops) d =
      let (result, d') = add_op op d in
      elim result [
        | raise e ↦ (raise e, d')
        | ok new ↦ merge_loop (if new then added + 1 else added) ops d'
      ]

  unfoldable pub merge_ops : List Op → Document → Result ℕ × Document
  merge_ops ops d = merge_loop 0 ops d

  unfoldable pub merge : Document → Document → Result ℕ × Document
  merge other d =
      if other.doc_id =? d.doc_id then merge_loop 0 (values other.ops) d else (raise value_error, d)

  -- One round of the loop that finds each key's winner among the operations that `keep` admits.
  unfoldable pub challenge : (Op → Bool) → Dict String Op → Op → Dict String Op
  challenge keep winners op =
      if keep op
      then elim (lookup op.key winners) [
        | none ↦ put op.key op winners
        | some cur ↦ if order_key cur <? order_key op then put op.key op winners else winners
      ]
      else winners

  unfoldable pub winners_from : (Op → Bool) → Dict String Op → List Op → Dict String Op
  winners_from keep winners [] = winners
  winners_from keep winners (op ∷ ops) = winners_from keep (challenge keep winners op) ops

  unfoldable pub materialise : List String → Document → Dict String Json
  materialise tracks d =
      let winners = winners_from (in_tracks tracks) [] (values d.ops) in
      collect winners (sort_by (λ k. k) (keys winners))

  unfoldable pub authorized_view : Document → Dict String Json
  unfolding materialise
  authorized_view = materialise (authorized ∷ [])

  unfoldable pub observed_view : Document → Dict String Json
  unfolding materialise
  observed_view = materialise (authorized ∷ observed ∷ [])

  unfoldable pub view : String → Document → Dict String Json
  unfolding authorized_view observed_view
  view track d = if track =? authorized then authorized_view d else observed_view d

  unfoldable pub heads : Document → List String
  heads d = sort_by (λ i. i) (map op_id (values (winners_from not_revoked [] (values d.ops))))

  unfoldable pub state_digest : String → Document → String
  unfolding view
  state_digest track d = sha256 (canonical (object (view track d)))
