-- ===== src/Spine/Tests.antt =====
-- Runs of the spine's receipts, and their theorems at concrete inputs.
use Prim.Native.String.{◌++◌ as append_str}
use szl_mesh.Common.Json.{Json, Fields, Bytes, str, obj, null, get_field, array, to_fields}
use szl_mesh.Common.Order.{str_ord}
use szl_mesh.Common.Result.{ok, raise, type_error, spine_unavailable, ok_inj}
use szl_mesh.Common.Truth.{get, get_or, as_text}
use szl_mesh.Common.{true, false, String, Option, none, some, [], ◌∷◌, ◌≡◌, refl, sym, ap}
use szl_mesh.Common.Dsse.{ascii, pae}
use szl_mesh.Receipts.Samples.{hashing}
use szl_mesh.Receipts.UnarySamples.{unary_crypto, codec}
use szl_mesh.Receipts.{
  Crypto, payload_type, index, b64url_encode, signature_entry, node_id_from_pubkey,
  build_dsse_receipt,
}
use szl_mesh.Spine.Fold.{build-fold-verify}
use szl_mesh.Spine.Bound.{IsBound, Issues, verify_mesh_receipt_iff, emit-verify}
use szl_mesh.Spine.{
  SzlReceipt, Context, default_policy_id, receipt_body, build_mesh_receipt_body, emit_mesh_receipt,
  emit_mesh_receipt_from_dsse, payload_of, verify_mesh_receipt,
}

abbrev text_at : String → Fields → String
text_at k fs = elim (as_text (get k fs)) [ none ↦ "-" | some s ↦ s ]

-- A digest is the texts that it is made of, and what signs is told from its name.
abbrev lib : SzlReceipt
lib = record {
  digest =
      λ kind fs. append_str (text_at "policy_id" fs) (append_str "/" (text_at "change_hash" fs));
  sign_receipt = λ kind body pem organ keyid. elim pem [
    | none ↦ ok (to_fields (("payload", str "p") ∷ []))
    | some key ↦ ok (to_fields (("payload", str "p") ∷ ("signer", str key) ∷ []))
  ];
  verify_receipt = λ envelope pem. elim (as_text (get "signer" envelope)) [
    | none ↦ (false, "unsigned-honest")
    | some key ↦ (true, "ok")
  ];
}

abbrev stmt : Fields
stmt = to_fields (
    ("crdt_document_id", str "doc")
    ∷ ("from_state_head", array [])
    ∷ ("to_state_head", array (str "head" ∷ []))
    ∷ ("change_hash", str "c")
    ∷ ("transition_class", str "COMMAND")
    ∷ ("node_id", str "digest")
    ∷ [])

abbrev context : Context
context = record { policy_id = default_policy_id; quorum_id = some "q"; witnesses = [] }

abbrev body : Fields
body = receipt_body (some lib) context stmt "-/c" "-/-"

-- The statement's JSON is empty, and an envelope's payload is the body of the sample's receipt.
abbrev reads : Bytes → Option Json
reads [] = some (obj stmt)
reads (x ∷ xs) = some (obj body)

abbrev reader : Crypto
reader = unary_crypto reads

abbrev b64decode : String → Option Bytes
b64decode s = some (1 ∷ [])

abbrev envelope : Fields
envelope = to_fields (("payload", str "p") ∷ ("signer", str "key") ∷ [])

built_body : build_mesh_receipt_body (some lib) context stmt ≡ ok body
unfolding build_mesh_receipt_body get_field str_ord
built_body = refl

emitted : emit_mesh_receipt (some lib) context (some "key") "szl-mesh" "" stmt ≡ ok envelope
unfolding emit_mesh_receipt get_field str_ord
emitted = refl

unsigned :
    verify_mesh_receipt
      (some lib)
      hashing
      reader
      b64decode
      context
      none
      none
      (to_fields (("payload", str "p") ∷ []))
    ≡ ok (false, "unsigned-honest")
unfolding verify_mesh_receipt get_field str_ord
unsigned = refl

other_policy :
    verify_mesh_receipt
      (some lib)
      hashing
      reader
      b64decode
      (record { policy_id = "other"; quorum_id = some "q"; witnesses = [] })
      none
      (some stmt)
      envelope
    ≡ ok (false, "mesh-body-rebind-mismatch")
unfolding verify_mesh_receipt get_field str_ord
other_policy = refl

no_heads :
    build_mesh_receipt_body (some lib) context (to_fields (("from_state_head", null) ∷ []))
    ≡ raise type_error
unfolding build_mesh_receipt_body get_field str_ord
no_heads = refl

not_installed :
    emit_mesh_receipt none context (some "key") "szl-mesh" "" stmt ≡ raise spine_unavailable
unfolding emit_mesh_receipt
not_installed = refl

verify_mesh_receipt_iff_example :
    ((d : String)
      → verify_mesh_receipt (some lib) hashing reader b64decode context none (some stmt) envelope
        ≡ ok (true, d)
      → IsBound lib hashing reader b64decode none context stmt envelope)
    × (IsBound lib hashing reader b64decode none context stmt envelope
        → verify_mesh_receipt (some lib) hashing reader b64decode context none (some stmt) envelope
          ≡ ok (true, "ok"))
verify_mesh_receipt_iff_example =
    verify_mesh_receipt_iff lib hashing reader b64decode none context stmt envelope

signer_of : (e : Fields) → envelope ≡ e → (lib.verify_receipt e (some "pub")).0 ≡ true
unfolding get_or get_field str_ord
signer_of e same = sym (ap (λ x. (lib.verify_receipt x (some "pub")).0) same)

payload_in :
    (e : Fields) → envelope ≡ e → payload_of (some lib) hashing reader b64decode e ≡ some (obj body)
unfolding get_or get_field str_ord
payload_in e same = sym (ap (λ x. payload_of (some lib) hashing reader b64decode x) same)

issues : Issues lib hashing reader b64decode "key" "pub" body
issues = record {
  verifies = λ kind organ keyid e signs. signer_of e (ok_inj signs);
  carries = λ kind organ keyid e signs. (body, payload_in e (ok_inj signs), (λ k s at. at), refl);
}

emit-verify_example :
    verify_mesh_receipt
      (some lib)
      hashing
      reader
      b64decode
      context
      (some "pub")
      (some stmt)
      envelope
    ≡ ok (true, "ok")
emit-verify_example =
    emit-verify lib hashing reader b64decode "key" "pub" context "szl-mesh" "" stmt body envelope
      built_body issues emitted

abbrev mesh_receipt : Fields
mesh_receipt = to_fields (
    ("payloadType", str payload_type)
    ∷ ("payload", str (b64url_encode hashing reader []))
    ∷ (
      "signatures",
      array (
          obj (signature_entry hashing reader "digest" (7 ∷ pae (ascii payload_type) []) (7 ∷ []))
          ∷ []),
    )
    ∷ [])

issued : build_dsse_receipt hashing reader stmt 7 ≡ ok mesh_receipt
unfolding build_dsse_receipt node_id_from_pubkey get_or get_field str_ord
issued = refl

folded :
    emit_mesh_receipt_from_dsse
      (some lib)
      hashing
      reader
      b64decode
      context
      (some "key")
      "szl-mesh"
      ""
      mesh_receipt
    ≡ ok envelope
unfolding emit_mesh_receipt_from_dsse index get_field str_ord b64url_encode
folded = refl

build-fold-verify_example :
    (emit_mesh_receipt (some lib) context (some "key") "szl-mesh" "" stmt ≡ ok envelope)
    × (verify_mesh_receipt
          (some lib)
          hashing
          reader
          b64decode
          context
          (some "pub")
          (some stmt)
          envelope
        ≡ ok (true, "ok"))
build-fold-verify_example =
    build-fold-verify hashing reader (codec reads) lib b64decode 7 "key" "pub" context "szl-mesh" ""
      stmt stmt mesh_receipt body envelope refl issued built_body issues folded
