-- ===== src/Spine.antt =====
-- src/szl_mesh/spine.py: a state transition as a receipt of the shared library szl_receipt, which is
-- optional and is the record `SzlReceipt`.
pub mod Bound
pub mod Fold
mod Tests
use Prim.Native.String.{◌∷◌ as cons_str}
use szl_mesh.Common.Json.{
  Json, Items, Fields, Bytes, Hashing, null, bool, str, arr, obj, nil, cons, end, field, array,
  object, to_fields,
}
use szl_mesh.Common.Order.{◌=?◌, str_ord}
use szl_mesh.Common.Result.{
  Result, ok, raise, ◌>>=◌, type_error, attribute_error, spine_unavailable,
}
use szl_mesh.Common.Truth.{get, get_or, as_fields, as_text, is_text}
use szl_mesh.Common.{Bool, true, false, String, Option, none, some, List, [], ◌∷◌, if◌then◌else◌}
use szl_mesh.Receipts.Verify.{decode_statement}
use szl_mesh.Receipts.{Crypto, doctrine_version, kernel_commit, slsa_level}

abbrev pcgi_receipt_schema : String
pcgi_receipt_schema = "szl.pcgi.receipt/szl-mesh-state-transition/v1"

abbrev pub receipt_kind : String
receipt_kind = "szl-mesh-state-transition"

abbrev pub default_policy_id : String
default_policy_id = "szl.pcgi.policy/szl-mesh-doctrine-gate/v1"

abbrev energy_unavailable : String
energy_unavailable = "UNAVAILABLE"

-- `digest kind body` is `Receipt(kind, body).digest()`; `sign_receipt kind body private_key_pem
-- organ keyid` is the envelope, and `verify_receipt` the answer with its detail. The model's library
-- has a digest for every body and an answer on every envelope.
pub record SzlReceipt : Type 0 where
  pub digest : String → Fields → String
  pub sign_receipt : String → Fields → Option String → String → String → Result Fields
  pub verify_receipt : Fields → Option String → Bool × String

-- `list(s)` of a text is its characters, `list(d)` of a dictionary its keys.
abbrev characters : String → Items
characters String.[] = nil
characters (String.◌∷◌ c s) = cons (str (cons_str c "")) (characters s)

abbrev keys_of : Fields → Items
keys_of end = nil
keys_of (field k v fs) = cons (str k) (keys_of fs)

-- `list(x)`
abbrev pub list_of : Json → Result Items
list_of (arr items) = ok items
list_of (str s) = ok (characters s)
list_of (obj fs) = ok (keys_of fs)
list_of _ = raise type_error

unfoldable pub transition_input : Fields → Result Fields
unfolding get_or
transition_input stmt = list_of (get_or "from_state_head" (arr nil) stmt) >>= λ from_heads. ok (
    to_fields (
      ("crdt_document_id", get "crdt_document_id" stmt)
      ∷ ("from_state_head", arr from_heads)
      ∷ ("change_hash", get "change_hash" stmt)
      ∷ ("transition_class", get "transition_class" stmt)
      ∷ []))

unfoldable pub transition_output : Fields → Result Fields
unfolding get_or
transition_output stmt = list_of (get_or "to_state_head" (arr nil) stmt) >>= λ to_heads. ok (
    to_fields
      (("crdt_document_id", get "crdt_document_id" stmt) ∷ ("to_state_head", arr to_heads) ∷ []))

-- The caller's `policy_id`, `quorum_id` and `witnesses`; no witnesses are the empty list.
pub record Context : Type 0 where
  pub policy_id : String
  pub quorum_id : Option String
  pub witnesses : List Json

abbrev optional_text : Option String → Json
optional_text none = null
optional_text (some s) = str s

module _ (szl_receipt : Option SzlReceipt) where
  abbrev pub require_szl_receipt : Result SzlReceipt
  require_szl_receipt = elim szl_receipt [ none ↦ raise spine_unavailable | some lib ↦ ok lib ]

  abbrev pub digest_of : Fields → Result String
  digest_of body = require_szl_receipt >>= λ lib. ok (lib.digest "_digest" body)

  unfoldable pub transition_input_digest : Fields → Result String
  unfolding transition_input
  transition_input_digest stmt = transition_input stmt >>= digest_of

  unfoldable pub transition_output_digest : Fields → Result String
  unfolding transition_output
  transition_output_digest stmt = transition_output stmt >>= digest_of

  abbrev pub receipt_body : Context → Fields → String → String → Fields
  receipt_body context stmt input_digest output_digest = to_fields (
      ("schema", str pcgi_receipt_schema)
      ∷ ("kind", str receipt_kind)
      ∷ (
        "subject",
        object
            (("node_id", get "node_id" stmt) ∷ ("quorum_id", optional_text context.quorum_id) ∷ []),
      )
      ∷ ("doctrine_version", str doctrine_version)
      ∷ ("kernel_commit", str kernel_commit)
      ∷ ("slsa_level", str slsa_level)
      ∷ ("input_digest", str input_digest)
      ∷ ("output_digest", str output_digest)
      ∷ ("policy_id", str context.policy_id)
      ∷ (
        "energy",
        object (
            ("measured", bool false)
            ∷ ("joules", str energy_unavailable)
            ∷ (
              "reason",
              str "szl-mesh measures no joules; energy reported UNAVAILABLE, never fabricated.",
            )
            ∷ []),
      )
      ∷ ("witnesses", array context.witnesses)
      ∷ (
        "transition",
        object (
            ("crdt_document_id", get "crdt_document_id" stmt)
            ∷ ("transition_class", get "transition_class" stmt)
            ∷ ("change_hash", get "change_hash" stmt)
            ∷ []),
      )
      ∷ (
        "honesty",
        object (
            ("asserts", str "integrity/reproducibility, NOT correctness")
            ∷ (
              "receipt_is",
              str
                  "evidence trail binding this decision (subject+input+output+policy+energy), NOT a proof the transition is correct",
            )
            ∷ ("bft", str "no unconditional BFT is claimed here (Conjecture 2)")
            ∷ []),
      )
      ∷ [])

  unfoldable pub build_mesh_receipt_body : Context → Fields → Result Fields
  unfolding transition_input_digest transition_output_digest get_or
  build_mesh_receipt_body context stmt = transition_input_digest stmt >>= λ input_digest.
      transition_output_digest stmt >>= λ output_digest.
      ok (receipt_body context stmt input_digest output_digest)

  unfoldable pub mesh_receipt_body_digest : Context → Fields → Result String
  unfolding build_mesh_receipt_body
  mesh_receipt_body_digest context stmt = build_mesh_receipt_body context stmt >>= digest_of

  unfoldable pub emit_mesh_receipt :
      Context → Option String → String → String → Fields → Result Fields
  unfolding build_mesh_receipt_body
  emit_mesh_receipt context private_key_pem organ keyid stmt = require_szl_receipt >>= λ lib.
      build_mesh_receipt_body context stmt >>= λ body.
      lib.sign_receipt receipt_kind body private_key_pem organ keyid

  module _ (hashing : Hashing) (crypto : Crypto) (b64decode : String → Option Bytes) where
    -- A statement that is no dictionary has no `get`, which the body is made with.
    unfoldable pub emit_mesh_receipt_from_dsse :
        Context → Option String → String → String → Fields → Result Fields
    unfolding decode_statement emit_mesh_receipt
    emit_mesh_receipt_from_dsse context private_key_pem organ keyid dsse_receipt =
        decode_statement hashing crypto dsse_receipt >>= λ stmt. elim (as_fields stmt) [
          | none ↦ require_szl_receipt >>= λ lib. raise attribute_error
          | some fields ↦ emit_mesh_receipt context private_key_pem organ keyid fields
        ]

    -- What the envelope's payload holds, unless an exception is raised and caught.
    abbrev pub payload_of : Fields → Option Json
    payload_of envelope = elim (as_text (get "payload" envelope)) [
      | none ↦ none
      | some payload ↦ elim (b64decode payload) [ none ↦ none | some bytes ↦ crypto.loads bytes ]
    ]

    unfoldable pub rebind : Context → Fields → Fields → Result (Bool × String)
    unfolding transition_input_digest transition_output_digest mesh_receipt_body_digest get_or
    rebind context stmt body = transition_input_digest stmt >>= λ input_digest.
        if is_text input_digest (get "input_digest" body)
        then (transition_output_digest stmt >>= λ output_digest.
            if is_text output_digest (get "output_digest" body)
            then (digest_of body >>= λ found. mesh_receipt_body_digest context stmt >>= λ expected.
                if found =? expected
                then ok (true, "ok")
                else ok (false, "mesh-body-rebind-mismatch"))
            else ok (false, "output-digest-rebind-mismatch"))
        else ok (false, "input-digest-rebind-mismatch")

    -- The exception's text is left out of a decoding error's detail.
    unfoldable pub verify_mesh_receipt :
        Context → Option String → Option Fields → Fields → Result (Bool × String)
    unfolding rebind get_or
    verify_mesh_receipt context public_key_pem statement envelope = require_szl_receipt >>= λ lib.
        let answer = lib.verify_receipt envelope public_key_pem in
        if answer.0
        then elim statement [
          | none ↦ ok (true, "ok")
          | some stmt ↦ elim (payload_of envelope) [
            | none ↦ ok (false, "payload decode error")
            | some payload ↦ elim (as_fields payload) [
              | none ↦ ok (false, "mesh-body-not-object")
              | some body ↦ rebind context stmt body
            ]
          ]
        ]
        else ok answer
