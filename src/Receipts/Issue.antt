-- ===== src/Receipts/Issue.antt =====
-- Receipts that a node issues (receipts.py, `build_dsse_receipt`).
use szl_mesh.Common.Dsse.{pae}
use szl_mesh.Common.Json.{Json, Fields, Bytes, Hashing, obj, str, get_field, array, to_fields}
use szl_mesh.Common.Order.{str_ord}
use szl_mesh.Common.Result.{ok, ok_inj}
use szl_mesh.Common.Truth.{get, get_or, is_text}
use szl_mesh.Common.{
  true, String, some, [], ◌∷◌, ◌≡◌, refl, ap, ◌∙◌, arith, Bool-cases, inl, inr, subst,
}
use szl_mesh.Receipts.Base64.{Codec, decode-encode}
use szl_mesh.Receipts.Verify.{
  caught, verify_signer, verify_payload, verify_body, verify_receipt_signature,
}
use szl_mesh.Receipts.{
  Crypto, payload_type, index, b64url_encode, node_id_from_pubkey, signature_entry,
  build_dsse_receipt,
}

-- ECDSA keys as documented: a key is loaded from its own bytes, and verifies what its private half
-- signed.
pub record KeyPair (crypto : Crypto) (priv : crypto.PrivateKey) : Type 0 where
  pub loads :
      crypto.load_der_public_key (crypto.public_bytes (crypto.public_key priv))
      ≡ ok (crypto.public_key priv)
  pub curve : crypto.is_p256 (crypto.public_key priv) ≡ true
  pub verifies : (m : Bytes) → crypto.verify (crypto.public_key priv) (crypto.sign priv m) m ≡ true

module _ (hashing : Hashing) (crypto : Crypto) (codec : Codec crypto) (priv : crypto.PrivateKey)
    (pair : KeyPair crypto priv) where
  abbrev signer : String
  signer = node_id_from_pubkey hashing crypto (crypto.public_key priv)

  abbrev entry : Bytes → Fields
  entry stmt_json =
      signature_entry hashing crypto signer
        (crypto.sign priv (pae (hashing.utf8 payload_type) stmt_json))
        (crypto.public_bytes (crypto.public_key priv))

  is_text_refl : (s : String) (j : Json) → j ≡ str s → is_text s j ≡ true
  is_text_refl s j e = rw e (ground (arith, str_ord.cmp_self s))

  entry_keyid : (stmt_json : Bytes) → get "keyid" (entry stmt_json) ≡ str signer
  unfolding get_or get_field str_ord
  entry_keyid stmt_json = refl

  entry_sig :
      (stmt_json : Bytes)
      → index "sig" (entry stmt_json)
        ≡ ok (
            str (
              b64url_encode hashing crypto
                (crypto.sign priv (pae (hashing.utf8 payload_type) stmt_json))))
  unfolding index get_field str_ord
  entry_sig stmt_json = refl

  signed_entry :
      (stmt_json : Bytes) (loaded : Fields)
      → is_text signer (get "node_id" loaded) ≡ true
      → verify_signer hashing crypto
          (crypto.public_key priv)
          (entry stmt_json)
          loaded
          (pae (hashing.utf8 payload_type) stmt_json)
        ≡ ok true
  unfolding verify_signer
  signed_entry stmt_json loaded named =
      rw
        (
          pair.curve,
          is_text_refl signer (get "keyid" (entry stmt_json)) (entry_keyid stmt_json),
          named,
          entry_sig stmt_json,
          decode-encode hashing crypto codec
              (crypto.sign priv (pae (hashing.utf8 payload_type) stmt_json)),
          verify_signer,
        )
        (ap ok (pair.verifies (pae (hashing.utf8 payload_type) stmt_json)))

  abbrev issued : Bytes → Fields
  issued stmt_json = to_fields (
      ("payloadType", str payload_type)
      ∷ ("payload", str (b64url_encode hashing crypto stmt_json))
      ∷ ("signatures", array (obj (entry stmt_json) ∷ []))
      ∷ [])

  issued_payload :
      (stmt_json : Bytes) (loaded : Fields)
      → crypto.loads stmt_json ≡ some (obj loaded)
      → is_text signer (get "node_id" loaded) ≡ true
      → verify_payload hashing crypto payload_type (issued stmt_json) (entry stmt_json) ≡ ok true
  unfolding verify_payload index get_field str_ord
  issued_payload stmt_json loaded parsed named =
      rw
        (
          decode-encode hashing crypto codec stmt_json,
          parsed,
          decode-encode hashing crypto codec (crypto.public_bytes (crypto.public_key priv)),
          pair.loads,
          verify_payload,
        )
        (signed_entry stmt_json loaded named)

  issued_body :
      (stmt_json : Bytes) (loaded : Fields)
      → crypto.loads stmt_json ≡ some (obj loaded)
      → is_text signer (get "node_id" loaded) ≡ true
      → verify_body hashing crypto (issued stmt_json) ≡ ok true
  unfolding verify_body index get_or get_field str_ord
  issued_body stmt_json loaded parsed named = issued_payload stmt_json loaded parsed named

  -- A receipt that is built for a statement verifies, where the statement's JSON is read back as an
  -- object with the same "node_id", base64 is as in RFC 4648, and the key is a P-256 key that is
  -- loaded from its own bytes and verifies what it signs.
  pub verify-build :
      (stmt loaded receipt : Fields)
      → crypto.loads (hashing.canonical (obj stmt)) ≡ some (obj loaded)
      → get "node_id" loaded ≡ get "node_id" stmt
      → build_dsse_receipt hashing crypto stmt priv ≡ ok receipt
      → verify_receipt_signature hashing crypto (obj receipt) ≡ ok true
  unfolding build_dsse_receipt verify_receipt_signature
  verify-build stmt loaded receipt parsed kept e =
      elim (Bool-cases (is_text signer (get "node_id" stmt))) [
        | inr other ↦ absurd (cc (rw (other, build_dsse_receipt) at e))
        | inl named ↦
            subst (λ r. verify_receipt_signature hashing crypto (obj r) ≡ ok true)
              (ok_inj (rw (named, build_dsse_receipt) at e))
              (ap caught (
                issued_body (hashing.canonical (obj stmt)) loaded parsed
                  (ap (is_text signer) kept ∙ named)))
      ]
