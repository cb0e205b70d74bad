-- ===== src/Lab/Scenario.antt =====
-- What the scenario runner accepts (lab/simulator.py, `_bounded_text`, `_normalize_operations` and
-- the first part of `simulate_scenario`; lab/config.py, the bounds).
use szl_mesh.Common.Dict.{Dict, lookup, put, keys}
use szl_mesh.Common.Dsse.{ascii}
use szl_mesh.Common.Json.{
  Json, Items, Fields, Hashing, null, bool, int, negative, float, str, arr, obj, nil, cons, end,
  field,
}
use szl_mesh.Common.Order.{◌=?◌, str_ord}
use szl_mesh.Common.Members.{mem}
use szl_mesh.Common.Result.{Result, ok, raise, value_error, type_error, simulation_error, ◌>>=◌}
use szl_mesh.Common.Sort.{sort_by}
use szl_mesh.Common.Truth.{get, get_or, from_items}
use szl_mesh.Common.{
  ℕ, ◌+◌, ◌%◌, Bool, true, false, not, ◌&&◌, ◌||◌, String, none, some, List, [], ◌∷◌, ◌++◌,
  if◌then◌else◌, leb, ltb, ◌==◌, all, any, length,
}
use szl_mesh.Crdt.{Op, op_id, read_all, authorized, observed, revoked}

abbrev pub max_replicas : ℕ
max_replicas = 8

abbrev pub max_operations : ℕ
max_operations = 64

abbrev pub max_key_bytes : ℕ
max_key_bytes = 128

abbrev pub max_value_bytes : ℕ
max_value_bytes = 4096

abbrev pub max_doc_id_bytes : ℕ
max_doc_id_bytes = 96

abbrev pub max_node_id_bytes : ℕ
max_node_id_bytes = 64

abbrev pub max_lamport : ℕ
max_lamport = 2147483647

-- A test that raises SimulationError.
abbrev pub require : {A : Type 0} → Bool → Result A → Result A
require test rest = if test then rest else raise simulation_error

-- The characters that `str.strip` takes away.
unfoldable pub is_space : ℕ → Bool
is_space c =
    (leb 9 c && leb c 13)
    || (leb 28 c && leb c 32)
    || ((c == 133) || (c == 160) || (c == 5760))
    || ((leb 8192 c && leb c 8202) || (c == 8232) || (c == 8233))
    || ((c == 8239) || (c == 8287) || (c == 12288))

abbrev starts_with_space : List ℕ → Bool
starts_with_space [] = false
starts_with_space (c ∷ cs) = is_space c

abbrev ends_with_space : List ℕ → Bool
ends_with_space [] = false
ends_with_space (c ∷ []) = is_space c
ends_with_space (c ∷ d ∷ cs) = ends_with_space (d ∷ cs)

abbrev pub is_surrogate : ℕ → Bool
is_surrogate c = leb 0xD800 c && leb c 0xDFFF

-- `len(value.encode("utf-8"))`
unfoldable pub utf8_length : List ℕ → ℕ
utf8_length [] = 0
utf8_length (c ∷ cs) =
    (if ltb c 0x80 then 1 else if ltb c 0x800 then 2 else if ltb c 0x10000 then 3 else 4)
    + utf8_length cs

unfoldable pub bounded_text : ℕ → Json → Result String
unfolding utf8_length is_space
bounded_text maximum (str value) =
    let cs = ascii value in
    require (not (starts_with_space cs || ends_with_space cs) && ltb 0 (length cs)) (
      if any is_surrogate cs
      then raise value_error
      else require (leb (utf8_length cs) maximum)
          (require (not (any (λ c. ltb c 32) cs)) (ok value)))
bounded_text maximum _ = raise simulation_error

abbrev pub is_alphanumeric : ℕ → Bool
is_alphanumeric c =
    (leb b'A' c && leb c b'Z') || (leb b'a' c && leb c b'z') || (leb b'0' c && leb c b'9')

-- `[A-Za-z0-9][A-Za-z0-9._:-]{0,n-1}`
abbrev name_shape : ℕ → List ℕ → Bool
name_shape n [] = false
name_shape n (c ∷ cs) =
    is_alphanumeric c
    && (all (λ d. is_alphanumeric d || (d == b'.') || (d == b'_') || (d == b':') || (d == b'-')) cs
        && leb (length cs + 1) n)

-- `DOC_ID_RE` and `NODE_ID_RE`
unfoldable pub has_shape : ℕ → String → Bool
has_shape n s = name_shape n (ascii s)

-- An integer, not a Boolean, within bounds; none of the bounds admits a negative one.
abbrev pub bounded_int : (ℕ → Bool) → Json → Result ℕ
bounded_int within (int n) = require (within n) (ok n)
bounded_int within _ = raise simulation_error

abbrev pub boolean : Json → Result Bool
boolean (bool b) = ok b
boolean _ = raise simulation_error

-- A list or a dictionary cannot be looked up in the set of tracks.
unfoldable pub track_of : Json → Result String
track_of (str track) = require (mem track (authorized ∷ observed ∷ revoked ∷ [])) (ok track)
track_of (arr _) = raise type_error
track_of (obj _) = raise type_error
track_of _ = raise simulation_error

abbrev pub rows_of : Json → Result (List Json)
rows_of (arr rows) = ok (from_items rows)
rows_of _ = raise simulation_error

abbrev pub row_keys : List String
row_keys = "node_id" ∷ "key" ∷ "value" ∷ "lamport" ∷ "deletion" ∷ "track" ∷ "origin" ∷ []

-- No key of the dictionary is unknown.
abbrev pub known_keys : List String → Fields → Bool
known_keys known end = true
known_keys known (field k v fs) = mem k known && known_keys known fs

abbrev text_prints : String → Bool
text_prints s = not (any is_surrogate (ascii s))

-- Finite numbers and texts without lone surrogates: what `canonical_bytes` prints.
unfoldable mutual
  pub prints : Json → Bool
  prints null = true
  prints (bool b) = true
  prints (int n) = true
  prints (negative n) = true
  prints (float s) = not (mem s ("nan" ∷ "inf" ∷ "-inf" ∷ []))
  prints (str s) = text_prints s
  prints (arr xs) = prints_items xs
  prints (obj fs) = prints_fields fs

  pub prints_items : Items → Bool
  prints_items nil = true
  prints_items (cons x xs) = prints x && prints_items xs

  pub prints_fields : Fields → Bool
  prints_fields end = true
  prints_fields (field k v fs) = text_prints k && (prints v && prints_fields fs)

-- What `_normalize_operations` builds: the operations as they were delivered, each with its origin,
-- the different ones by their identifiers, and the number of repetitions.
pub record Normalized : Type 0 where
  pub delivered : List (ℕ × Op)
  pub unique : Dict String Op
  pub duplicates : ℕ

abbrev pub nothing_yet : Normalized
nothing_yet = record { delivered = []; unique = []; duplicates = 0 }

pub record Scenario : Type 0 where
  pub doc_id : String
  pub replicas : ℕ
  pub delivered : List (ℕ × Op)
  pub unique : List Op
  pub duplicates : ℕ

module _ (h : Hashing) where
  -- `len(canonical_bytes(value)) <= MAX_VALUE_BYTES`
  unfoldable pub checked_value : Json → Result Json
  checked_value value =
      require (prints value)
        (require (leb (length (h.canonical_json value)) max_value_bytes) (ok value))

  abbrev pub row_node_id : Fields → Result String
  row_node_id row = bounded_text max_node_id_bytes (get "node_id" row) >>= λ node_id.
      require (has_shape 64 node_id) (ok node_id)

  -- One row, with the replica that it starts at.
  unfoldable pub read_row : String → ℕ → ℕ → Fields → Result (ℕ × Op)
  unfolding bounded_text has_shape track_of checked_value get_or
  read_row doc_id replicas index row = row_node_id row >>= λ node_id.
      bounded_text max_key_bytes (get "key" row) >>= λ key.
      bounded_int (λ n. leb n max_lamport) (get "lamport" row) >>= λ lamport.
      boolean (get_or "deletion" (bool false) row) >>= λ deletion.
      track_of (get_or "track" (str observed) row) >>= λ track.
      bounded_int (λ n. ltb n replicas) (get_or "origin" (int (index % replicas)) row) >>= λ origin.
      checked_value (get "value" row) >>= λ value. ok (
        origin,
        record {
          doc_id = doc_id;
          key = key;
          value = value;
          lamport = lamport;
          node_id = node_id;
          deletion = deletion;
          track = track;
        },
      )

  -- An operation that came before counts as a repetition, if it is on the same track.
  unfoldable pub take_in : ℕ → Op → Normalized → Result Normalized
  take_in origin op state = elim (lookup (op_id h op) state.unique) [
    | none ↦ ok (record state {
      delivered = state.delivered ++ (origin, op) ∷ [];
      unique = put (op_id h op) op state.unique;
    })
    | some prior ↦ require (prior.track =? op.track) (
        ok (record state {
          delivered = state.delivered ++ (origin, op) ∷ [];
          duplicates = state.duplicates + 1;
        }))
  ]

  -- One round of the loop.
  unfoldable pub normalize_row : String → ℕ → ℕ → Json → Normalized → Result Normalized
  unfolding read_row take_in
  normalize_row doc_id replicas index (obj row) state =
      require (known_keys row_keys row)
        (read_row doc_id replicas index row >>= λ read. take_in read.0 read.1 state)
  normalize_row doc_id replicas index _ state = raise simulation_error

  -- The loop over the rows, from the row `index` on.
  unfoldable pub normalize_loop : String → ℕ → ℕ → List Json → Normalized → Result Normalized
  unfolding normalize_row
  normalize_loop doc_id replicas index [] state = ok state
  normalize_loop doc_id replicas index (row ∷ rows) state =
      normalize_row doc_id replicas index row state
      >>= normalize_loop doc_id replicas (index + 1) rows

  unfoldable pub normalize_operations :
      String → ℕ → List Json → Result (List (ℕ × Op) × (List Op × ℕ))
  unfolding normalize_loop
  normalize_operations doc_id replicas operations =
      require (leb 1 (length operations) && leb (length operations) max_operations) (
        normalize_loop doc_id replicas 0 operations nothing_yet >>= λ state. ok (
          state.delivered,
          (read_all state.unique (sort_by (λ i. i) (keys state.unique)), state.duplicates),
        ))

  -- The first part of `simulate_scenario`.
  unfoldable pub read_scenario : Json → Result Scenario
  unfolding normalize_operations bounded_text has_shape get_or
  read_scenario (obj value) =
      require (known_keys ("doc_id" ∷ "replicas" ∷ "operations" ∷ []) value) (
        bounded_text max_doc_id_bytes (get "doc_id" value) >>= λ doc_id.
        require (has_shape 96 doc_id) (
          bounded_int (λ n. leb 2 n && leb n max_replicas) (get "replicas" value) >>= λ replicas.
          rows_of (get "operations" value) >>= λ rows.
          normalize_operations doc_id replicas rows >>= λ parts. ok (record {
            doc_id = doc_id;
            replicas = replicas;
            delivered = parts.0;
            unique = parts.1.0;
            duplicates = parts.1.1;
          })))
  read_scenario _ = raise simulation_error
