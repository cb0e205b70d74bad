-- ===== src/Spine/Fold.antt =====
-- From a mesh receipt to a receipt of the shared library (receipts.py, `build_dsse_receipt`;
-- spine.py, `emit_mesh_receipt_from_dsse`).
use szl_mesh.Common.Json.{Fields, Bytes, Hashing, obj, str, get_field}
use szl_mesh.Common.Order.{str_ord}
use szl_mesh.Common.Result.{ok, ok_inj}
use szl_mesh.Common.Truth.{get, is_text}
use szl_mesh.Common.{true, String, Option, some, ◌≡◌, refl, Bool-cases, inl, inr, subst}
use szl_mesh.Receipts.Base64.{Codec, decode-encode}
use szl_mesh.Receipts.Verify.{decode_statement}
use szl_mesh.Receipts.{Crypto, index, b64url_encode, node_id_from_pubkey, build_dsse_receipt}
use szl_mesh.Spine.Bound.{Issues, emit-verify}
use szl_mesh.Spine.{
  SzlReceipt, Context, build_mesh_receipt_body, emit_mesh_receipt, emit_mesh_receipt_from_dsse,
  verify_mesh_receipt,
}

module _ (hashing : Hashing) (crypto : Crypto) (codec : Codec crypto) where
  payload-build :
      (priv : crypto.PrivateKey) (stmt receipt : Fields)
      → build_dsse_receipt hashing crypto stmt priv ≡ ok receipt
      → index "payload" receipt
        ≡ ok (str (b64url_encode hashing crypto (hashing.canonical (obj stmt))))
  unfolding build_dsse_receipt index get_field str_ord
  payload-build priv stmt receipt e =
      elim (Bool-cases (
        is_text (node_id_from_pubkey hashing crypto (crypto.public_key priv))
          (get "node_id" stmt))) [
            | inr other ↦ absurd (cc (rw (other, build_dsse_receipt) at e))
            | inl named ↦
                subst
                  (λ r.
                    index "payload" r
                    ≡ ok (str (b64url_encode hashing crypto (hashing.canonical (obj stmt)))))
                  (ok_inj (rw (named, build_dsse_receipt) at e)) refl
          ]

  decode-build :
      (priv : crypto.PrivateKey) (stmt loaded receipt : Fields)
      → crypto.loads (hashing.canonical (obj stmt)) ≡ some (obj loaded)
      → build_dsse_receipt hashing crypto stmt priv ≡ ok receipt
      → decode_statement hashing crypto receipt ≡ ok (obj loaded)
  unfolding decode_statement
  decode-build priv stmt loaded receipt parsed e =
      rw
        (
          payload-build priv stmt receipt e,
          decode-encode hashing crypto codec (hashing.canonical (obj stmt)),
          parsed,
        )
        refl

  module _ (lib : SzlReceipt) (b64decode : String → Option Bytes) where
    -- A mesh receipt is folded into what is emitted for the statement that its JSON is read back
    -- as, and that is verified against this statement with the public key. Base64 is as in RFC
    -- 4648; the library's signatures on the body verify and the payload is read back.
    pub build-fold-verify :
        (priv : crypto.PrivateKey) (pem pub_pem : String) (context : Context) (organ keyid : String)
        (stmt loaded receipt body envelope : Fields)
        → crypto.loads (hashing.canonical (obj stmt)) ≡ some (obj loaded)
        → build_dsse_receipt hashing crypto stmt priv ≡ ok receipt
        → build_mesh_receipt_body (some lib) context loaded ≡ ok body
        → Issues lib hashing crypto b64decode pem pub_pem body
        → emit_mesh_receipt_from_dsse
            (some lib)
            hashing
            crypto
            b64decode
            context
            (some pem)
            organ
            keyid
            receipt
          ≡ ok envelope
        → (emit_mesh_receipt (some lib) context (some pem) organ keyid loaded ≡ ok envelope)
          × (verify_mesh_receipt
                (some lib)
                hashing
                crypto
                b64decode
                context
                (some pub_pem)
                (some loaded)
                envelope
              ≡ ok (true, "ok"))
    unfolding emit_mesh_receipt_from_dsse
    build-fold-verify priv pem pub_pem context organ keyid stmt loaded receipt body envelope parsed
          issued built law e =
        let emitted = rw (decode-build priv stmt loaded receipt parsed issued) at e in
        (
          emitted,
          emit-verify lib hashing crypto b64decode pem pub_pem context organ keyid loaded body
              envelope built law emitted,
        )
