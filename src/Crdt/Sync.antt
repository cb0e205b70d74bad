-- ===== src/Crdt/Sync.antt =====
-- Operations as dictionaries (crdt.py, `Op.to_dict` and `Op.from_dict`), in which nodes exchange
-- them.
use szl_mesh.Common.Json.{Json, Fields, Hashing, object, to_fields, str, int, bool, get_field}
use szl_mesh.Common.Order.{str_ord}
use szl_mesh.Common.Result.{Result, ok, raise, ◌>>=◌, key_error}
use szl_mesh.Common.Truth.{get_or}
use szl_mesh.Common.{false, String, none, some, [], ◌∷◌, ◌≡◌, refl}
use szl_mesh.Crdt.{Op, observed, op_id, compute_op_id}

-- An operation as it is read, before anything is known of its fields.
pub record ReadOp : Type 0 where
  pub doc_id : Json
  pub key : Json
  pub value : Json
  pub lamport : Json
  pub node_id : Json
  pub deletion : Json
  pub track : Json

-- The same operation, with its fields as JSON.
abbrev pub as_read : Op → ReadOp
as_read op = record {
  doc_id = str op.doc_id;
  key = str op.key;
  value = op.value;
  lamport = int op.lamport;
  node_id = str op.node_id;
  deletion = bool op.deletion;
  track = str op.track;
}

-- `d[k]`
unfoldable pub item : String → Fields → Result Json
unfolding get_field
item k d = elim (get_field k d) [ none ↦ raise key_error | some v ↦ ok v ]

unfoldable pub from_dict : Fields → Result ReadOp
unfolding item get_or
from_dict d = item "doc_id" d >>= λ doc_id. item "key" d >>= λ key. item "value" d >>= λ value.
    item "lamport" d >>= λ lamport. item "node_id" d >>= λ node_id. ok (record {
      doc_id = doc_id;
      key = key;
      value = value;
      lamport = lamport;
      node_id = node_id;
      deletion = get_or "deletion" (bool false) d;
      track = get_or "track" (str observed) d;
    })

-- The identifier of an operation that was read, over the fields that it covers.
abbrev pub read_body : ReadOp → Json
read_body r = object (
    ("doc", r.doc_id)
    ∷ ("key", r.key)
    ∷ ("value", r.value)
    ∷ ("lamport", r.lamport)
    ∷ ("node", r.node_id)
    ∷ ("del", r.deletion)
    ∷ [])

module _ (h : Hashing) where
  unfoldable pub op_dict : Op → Fields
  unfolding op_id
  op_dict op = to_fields (
      ("doc_id", str op.doc_id)
      ∷ ("key", str op.key)
      ∷ ("value", op.value)
      ∷ ("lamport", int op.lamport)
      ∷ ("node_id", str op.node_id)
      ∷ ("deletion", bool op.deletion)
      ∷ ("track", str op.track)
      ∷ ("op_id", str (op_id h op))
      ∷ [])

  unfoldable pub read_id : ReadOp → String
  read_id r = h.sha256 (h.canonical (read_body r))

  -- An operation that is written as a dictionary is read back as it was, its track included, and
  -- the identifier of what is read is the one that was written beside it.
  pub from_dict-op_dict :
      (op : Op)
      → (from_dict (op_dict op) ≡ ok (as_read op))
        × (item "op_id" (op_dict op) ≡ ok (str (read_id (as_read op))))
  unfolding from_dict op_dict item get_or get_field op_id compute_op_id read_id str_ord
  from_dict-op_dict op = (refl, refl)
