-- ===== src/Receipts/Tests.antt =====
-- Runs of the receipt model, and its theorems at concrete inputs.
use szl_mesh.Common.Dict.{Dict, lookup}
use szl_mesh.Common.Dsse.{ascii, pae}
use szl_mesh.Common.Json.{Fields, Bytes, obj, str, get_field, to_fields, array}
use szl_mesh.Common.Order.{str_ord}
use szl_mesh.Common.Result.{ok}
use szl_mesh.Common.Truth.{get_or}
use szl_mesh.Common.{true, String, some, [], ◌∷◌, ◌≡◌, ◌↔◌, refl}
use szl_mesh.Crdt.{authorized}
use szl_mesh.Receipts.Enrolled.{SignedBy, authorized-SignedBy}
use szl_mesh.Receipts.Gate.{IsAuthorized, authorized_iff}
use szl_mesh.Receipts.Issue.{verify-build}
use szl_mesh.Receipts.Validate.{GateResult, validate_receipt}
use szl_mesh.Receipts.Verify.{verify_receipt_signature}
use szl_mesh.Receipts.Samples.{hashing, crypto, toy_stmt, toy_receipt}
use szl_mesh.Receipts.UnarySamples.{unary_crypto, codec, pair}
use szl_mesh.Receipts.{
  Crypto, valid, payload_type, b64url_encode, build_dsse_receipt, signature_entry,
  node_id_from_pubkey,
}

abbrev toy_registry : Dict String Bytes
toy_registry = ("digest", ascii "key=") ∷ []

abbrev toy_gate : GateResult
toy_gate = record { track = authorized; receipt_status = valid; statement = some toy_stmt }

toy_validates :
    validate_receipt hashing crypto (obj toy_receipt) [] 100000003 [] 5 (some toy_registry)
    ≡ ok toy_gate
unfolding validate_receipt get_field get_or lookup str_ord
toy_validates = refl

authorized_iff_example :
    ((r : GateResult) × (validate_receipt hashing crypto
          (obj toy_receipt)
          []
          100000003
          []
          5
          (some toy_registry)
        ≡ ok r)
      × (r.track ≡ authorized))
    ↔ IsAuthorized hashing crypto toy_receipt [] 100000003 [] 5 (some toy_registry)
authorized_iff_example =
    authorized_iff hashing crypto toy_receipt [] 100000003 [] 5 (some toy_registry)

authorized-SignedBy_example : SignedBy hashing crypto toy_receipt [] [] toy_registry
authorized-SignedBy_example =
    authorized-SignedBy hashing crypto toy_receipt [] 100000003 [] 5 toy_registry toy_gate
      toy_validates refl

abbrev unary_reader : Crypto
unary_reader = unary_crypto (λ b. some (obj toy_stmt))

abbrev issued : Fields
issued = to_fields (
    ("payloadType", str payload_type)
    ∷ ("payload", str (b64url_encode hashing unary_reader []))
    ∷ (
      "signatures",
      array (
          obj (
            signature_entry hashing unary_reader "digest" (7 ∷ pae (ascii payload_type) [])
              (7 ∷ []))
          ∷ []),
    )
    ∷ [])

issue_toy : build_dsse_receipt hashing unary_reader toy_stmt 7 ≡ ok issued
unfolding build_dsse_receipt node_id_from_pubkey get_or get_field str_ord
issue_toy = refl

verify-build_example : verify_receipt_signature hashing unary_reader (obj issued) ≡ ok true
verify-build_example =
    verify-build hashing unary_reader (codec (λ b. some (obj toy_stmt))) 7
      (pair (λ b. some (obj toy_stmt))) toy_stmt toy_stmt issued refl refl issue_toy
