-- ===== src/Receipts/Verify.antt =====
-- The signature check (receipts.py, `decode_statement` and `verify_receipt_signature`).
use szl_mesh.Common.Dsse.{pae}
use szl_mesh.Common.Json.{Json, Fields, Bytes, Hashing, arr, obj, nil, cons}
use szl_mesh.Common.Order.{str_ord}
use szl_mesh.Common.Result.{Result, ok, raise, ◌>>=◌, value_error, type_error, key_error}
use szl_mesh.Common.Truth.{get, as_fields, as_text, is_text}
use szl_mesh.Common.{Bool, false, String, Option, none, some}
use szl_mesh.Receipts.{Crypto, index, or_value_error, requires, b64url_decode, node_id_from_pubkey}

-- `signatures[0]` of a list of one dictionary.
abbrev pub only_entry : Json → Option Fields
only_entry (arr (cons (obj sig_entry) nil)) = some sig_entry
only_entry _ = none

-- The `except` clause names these exceptions, but not UnsupportedAlgorithm. A failed check is a
-- false answer of `verify` instead of an InvalidSignature.
abbrev pub caught : Result Bool → Result Bool
caught (raise value_error) = ok false
caught (raise type_error) = ok false
caught (raise key_error) = ok false
caught (raise e) = raise e
caught (ok b) = ok b

module _ (hashing : Hashing) (crypto : Crypto) where
  unfoldable pub decode_statement : Fields → Result Json
  unfolding b64url_decode index
  decode_statement receipt = index "payload" receipt >>= λ payload.
      b64url_decode hashing crypto payload >>= λ bytes. or_value_error (crypto.loads bytes)

  -- The end of the body of `verify_receipt_signature`, once the key is loaded.
  unfoldable pub verify_signer : crypto.PublicKey → Fields → Fields → Bytes → Result Bool
  unfolding node_id_from_pubkey b64url_decode index
  verify_signer key sig_entry stmt signing_input =
      let signer = node_id_from_pubkey hashing crypto key in
      requires (crypto.is_p256 key) (
        requires (is_text signer (get "keyid" sig_entry)) (
          requires (is_text signer (get "node_id" stmt)) (
            index "sig" sig_entry >>= λ sig_text. b64url_decode hashing crypto sig_text >>= λ sig.
            ok (crypto.verify key sig signing_input))))

  -- From the payload on, with the one signature.
  unfoldable pub verify_payload : String → Fields → Fields → Result Bool
  unfolding verify_signer pae b64url_decode index
  verify_payload declared_type receipt sig_entry = index "payload" receipt >>= λ payload_b64.
      b64url_decode hashing crypto payload_b64 >>= λ stmt_json.
      or_value_error (crypto.loads stmt_json) >>= λ stmt. elim (as_fields stmt) [
        | none ↦ ok false
        | some fields ↦ index "public_key_der" sig_entry >>= λ der_text.
            b64url_decode hashing crypto der_text >>= λ pub_der.
            crypto.load_der_public_key pub_der >>= λ key.
            verify_signer key sig_entry fields (pae (hashing.utf8 declared_type) stmt_json)
      ]

  unfoldable pub verify_body : Fields → Result Bool
  unfolding verify_payload index
  verify_body receipt = elim (as_text (get "payloadType" receipt)) [
    | none ↦ ok false
    | some declared_type ↦ index "signatures" receipt >>= λ signatures.
        elim (only_entry signatures) [
          | none ↦ ok false
          | some sig_entry ↦
              requires (is_text "ECDSA-P256-SHA256" (get "sig_alg" sig_entry))
                (verify_payload declared_type receipt sig_entry)
        ]
  ]

  unfoldable pub verify_receipt_signature : Json → Result Bool
  unfolding verify_body
  verify_receipt_signature (obj receipt) = caught (verify_body receipt)
  verify_receipt_signature _ = ok false
