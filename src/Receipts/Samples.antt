-- ===== src/Receipts/Samples.antt =====
-- A small cryptography, and a receipt made with it, for the tests.
use szl_mesh.Common.Dsse.{ascii}
use szl_mesh.Common.Json.{Fields, Bytes, Hashing, obj, str, to_fields, array, object}
use szl_mesh.Common.Order.{◌=?◌, str_ord}
use szl_mesh.Common.Result.{ok, raise, value_error}
use szl_mesh.Common.{true, none, some, [], ◌∷◌, if◌then◌else◌}
use szl_mesh.Receipts.{
  Crypto, same_bytes, texts, doctrine_version, kernel_commit, payload_type, section_889_vendors,
}

abbrev pub hashing : Hashing
hashing = record {
  canonical = λ j. [];
  canonical_json = λ j. [];
  utf8 = ascii;
  sha256 = λ bs. "digest";
  hmac_sha256 = λ k bs. bs;
  base64 = λ bs. "";
}

abbrev pub toy_stmt : Fields
toy_stmt = to_fields (
    ("doctrine_version", str doctrine_version)
    ∷ ("kernel_commit", str kernel_commit)
    ∷ ("change_hash", str "digest")
    ∷ ("node_id", str "digest")
    ∷ ("timestamp_utc", str "now")
    ∷ ("policy_context", object (("section_889_vendors", texts section_889_vendors) ∷ []))
    ∷ [])

-- Texts decode to their codes, the one key is `ascii "key="`, and the one statement `toy_stmt`.
abbrev pub crypto : Crypto
crypto = record {
  PublicKey = Bytes;
  PrivateKey = Bytes;
  urlsafe_b64decode = λ s. some (ascii s);
  urlsafe_b64encode = λ b. "";
  loads = λ b. some (obj toy_stmt);
  load_der_public_key = λ b. if same_bytes b (ascii "key=") then ok b else raise value_error;
  is_p256 = λ k. true;
  public_bytes = λ k. k;
  verify = λ k sig m. same_bytes sig (ascii "sig=");
  public_key = λ k. k;
  sign = λ k m. ascii "sig=";
  strptime = λ s. if s =? "now" then some 100 else none;
}

abbrev pub toy_receipt : Fields
toy_receipt = to_fields (
    ("payloadType", str payload_type)
    ∷ ("payload", str "p")
    ∷ (
      "signatures",
      array (
          object (
            ("keyid", str "digest")
            ∷ ("sig", str "sig")
            ∷ ("sig_alg", str "ECDSA-P256-SHA256")
            ∷ ("public_key_der", str "key")
            ∷ [])
          ∷ []),
    )
    ∷ [])
