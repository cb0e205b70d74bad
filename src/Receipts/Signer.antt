-- ===== src/Receipts/Signer.antt =====
-- What a verified receipt carries (receipts.py, `verify_receipt_signature`).
use szl_mesh.Common.Dsse.{pae}
use szl_mesh.Common.Json.{Json, Fields, Bytes, Hashing, obj}
use szl_mesh.Common.Order.{str_ord}
use szl_mesh.Common.Result.{Result, ok, raise, value_error, type_error, key_error, bind-ok, ok_inj}
use szl_mesh.Common.Truth.{get, as_fields, as_text, is_text}
use szl_mesh.Common.{
  Bool, true, false, String, Option, none, some, ◌≡◌, refl, ap, Option-cases, inl, inr,
}
use szl_mesh.Receipts.Verify.{
  only_entry, caught, verify_signer, verify_payload, verify_body, verify_receipt_signature,
}
use szl_mesh.Receipts.{Crypto, index, or_value_error, requires, b64url_decode, node_id_from_pubkey}

requires-true :
    (b : Bool) (rest : Result Bool) → requires b rest ≡ ok true → (b ≡ true) × (rest ≡ ok true)
requires-true true rest e = (refl, e)
requires-true false rest e = absurd (cc (ok_inj e))

caught-true : (o : Result Bool) → caught o ≡ ok true → o ≡ ok true
caught-true (ok b) e = e
caught-true (raise x) e =
    elim x as (λ x. caught (raise x) ≡ ok true → raise x ≡ ok true) [
      | value_error ↦ λ e. absurd (cc (ok_inj e))
      | type_error ↦ λ e. absurd (cc (ok_inj e))
      | key_error ↦ λ e. absurd (cc (ok_inj e))
      | _ ↦ λ e. e
    ]
      e

module _ (hashing : Hashing) (crypto : Crypto) where
  -- The signature entry's key signed the bytes, and is the one that the entry and the statement
  -- name.
  pub record IsBound (sig_entry stmt : Fields) (signing_input : Bytes) (key : crypto.PublicKey)
      : Type 0 where
    pub curve : crypto.is_p256 key ≡ true
    pub keyid : is_text (node_id_from_pubkey hashing crypto key) (get "keyid" sig_entry) ≡ true
    pub node_id : is_text (node_id_from_pubkey hashing crypto key) (get "node_id" stmt) ≡ true
    pub sig_text : Json
    pub sig_field : index "sig" sig_entry ≡ ok sig_text
    pub sig : Bytes
    pub sig_bytes : b64url_decode hashing crypto sig_text ≡ ok sig
    pub verifies : crypto.verify key sig signing_input ≡ true

  verify_signer-IsBound :
      (key : crypto.PublicKey) (sig_entry stmt : Fields) (signing_input : Bytes)
      → verify_signer hashing crypto key sig_entry stmt signing_input ≡ ok true
      → IsBound sig_entry stmt signing_input key
  unfolding verify_signer
  verify_signer-IsBound key sig_entry stmt signing_input e =
      let (curve, e₁) = requires-true (crypto.is_p256 key) _ e in
      let (keyid, e₂) =
        requires-true (is_text (node_id_from_pubkey hashing crypto key) (get "keyid" sig_entry)) _
          e₁ in
      let (node_id, e₃) =
        requires-true (is_text (node_id_from_pubkey hashing crypto key) (get "node_id" stmt)) _
          e₂ in
      let (sig_text, sig_field, e₄) = bind-ok (index "sig" sig_entry) _ true e₃ in
      let (sig, sig_bytes, e₅) = bind-ok (b64url_decode hashing crypto sig_text) _ true e₄ in
      record {
        curve = curve;
        keyid = keyid;
        node_id = node_id;
        sig_text = sig_text;
        sig_field = sig_field;
        sig = sig;
        sig_bytes = sig_bytes;
        verifies = ok_inj e₅;
      }

  -- The receipt's payload decodes to a statement; its one signature carries a P-256 key, which
  -- signed the payload under the declared type and which both the signature and the statement name
  -- by the digest of the key.
  pub record IsSigned (receipt : Fields) : Type 0 where
    pub declared_type : String
    pub declared : as_text (get "payloadType" receipt) ≡ some declared_type
    pub signatures : Json
    pub signed : index "signatures" receipt ≡ ok signatures
    pub sig_entry : Fields
    pub only : only_entry signatures ≡ some sig_entry
    pub algorithm : is_text "ECDSA-P256-SHA256" (get "sig_alg" sig_entry) ≡ true
    pub payload : Json
    pub payload_field : index "payload" receipt ≡ ok payload
    pub stmt_json : Bytes
    pub payload_bytes : b64url_decode hashing crypto payload ≡ ok stmt_json
    pub loaded : Json
    pub loads : crypto.loads stmt_json ≡ some loaded
    pub stmt : Fields
    pub statement : as_fields loaded ≡ some stmt
    pub der_text : Json
    pub der_field : index "public_key_der" sig_entry ≡ ok der_text
    pub pub_der : Bytes
    pub der_bytes : b64url_decode hashing crypto der_text ≡ ok pub_der
    pub key : crypto.PublicKey
    pub key_loaded : crypto.load_der_public_key pub_der ≡ ok key
    pub bound : IsBound sig_entry stmt (pae (hashing.utf8 declared_type) stmt_json) key

  or_value_error-ok : {A : Type 0} (o : Option A) (a : A) → or_value_error o ≡ ok a → o ≡ some a
  or_value_error-ok none a e = cc
  or_value_error-ok (some b) a e = ap some (ok_inj e)

  verify_payload-IsSigned :
      (receipt : Fields) (declared_type : String)
      → as_text (get "payloadType" receipt) ≡ some declared_type
      → (signatures : Json) → index "signatures" receipt ≡ ok signatures
      → (sig_entry : Fields) → only_entry signatures ≡ some sig_entry
      → is_text "ECDSA-P256-SHA256" (get "sig_alg" sig_entry) ≡ true
      → verify_payload hashing crypto declared_type receipt sig_entry ≡ ok true
      → IsSigned receipt
  unfolding verify_payload
  verify_payload-IsSigned receipt declared_type declared signatures signed sig_entry only algorithm
        e =
      let (payload, payload_field, e₁) = bind-ok (index "payload" receipt) _ true e in
      let (stmt_json, payload_bytes, e₂) =
        bind-ok (b64url_decode hashing crypto payload) _ true e₁ in
      let (loaded, loads, e₃) = bind-ok (or_value_error (crypto.loads stmt_json)) _ true e₂ in
      elim (Option-cases (as_fields loaded)) [
        | inl other ↦ absurd (cc (ok_inj (rw other at e₃)))
        | inr (stmt, statement) ↦
            let (der_text, der_field, e₄) =
              bind-ok (index "public_key_der" sig_entry) _ true (rw statement at e₃) in
            let (pub_der, der_bytes, e₅) =
              bind-ok (b64url_decode hashing crypto der_text) _ true e₄ in
            let (key, key_loaded, e₆) = bind-ok (crypto.load_der_public_key pub_der) _ true e₅ in
            record {
              declared_type = declared_type;
              declared = declared;
              signatures = signatures;
              signed = signed;
              sig_entry = sig_entry;
              only = only;
              algorithm = algorithm;
              payload = payload;
              payload_field = payload_field;
              stmt_json = stmt_json;
              payload_bytes = payload_bytes;
              loaded = loaded;
              loads = or_value_error-ok (crypto.loads stmt_json) loaded loads;
              stmt = stmt;
              statement = statement;
              der_text = der_text;
              der_field = der_field;
              pub_der = pub_der;
              der_bytes = der_bytes;
              key = key;
              key_loaded = key_loaded;
              bound =
                  verify_signer-IsBound key sig_entry stmt
                    (pae (hashing.utf8 declared_type) stmt_json) e₆;
            }
      ]

  verify_body-IsSigned :
      (receipt : Fields) → verify_body hashing crypto receipt ≡ ok true → IsSigned receipt
  unfolding verify_body
  verify_body-IsSigned receipt e = elim (Option-cases (as_text (get "payloadType" receipt))) [
    | inl untyped ↦ absurd (cc (ok_inj (rw (untyped, verify_body) at e)))
    | inr (declared_type, declared) ↦
        let (signatures, signed, e₁) =
          bind-ok (index "signatures" receipt) _ true (rw (declared, verify_body) at e) in
        elim (Option-cases (only_entry signatures)) [
          | inl other ↦ absurd (cc (ok_inj (rw other at e₁)))
          | inr (sig_entry, only) ↦
              let (algorithm, e₂) =
                requires-true (is_text "ECDSA-P256-SHA256" (get "sig_alg" sig_entry)) _
                  (rw only at e₁) in
              verify_payload-IsSigned receipt declared_type declared signatures signed sig_entry
                only algorithm e₂
        ]
  ]

  pub verify_receipt_signature-IsSigned :
      (receipt : Fields)
      → verify_receipt_signature hashing crypto (obj receipt) ≡ ok true
      → IsSigned receipt
  unfolding verify_receipt_signature
  verify_receipt_signature-IsSigned receipt e =
      verify_body-IsSigned receipt (caught-true (verify_body hashing crypto receipt) e)
