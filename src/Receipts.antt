-- ===== src/Receipts.antt =====
-- src/szl_mesh/receipts.py: receipts on state transitions, their signature check, and the gate. What
-- the source takes from the cryptography package and from Python's codecs and clock is the record
-- `Crypto`.
pub mod Verify
pub mod Validate
pub mod Gate
pub mod Base64
pub mod Signer
pub mod Enrolled
pub mod Issue
pub mod Samples
pub mod UnarySamples
mod Tests
use Prim.Native.Char.{code}
use Prim.Native.String.{◌++◌ as append_str, ◌∷◌ as cons_str}
use szl_mesh.Common.Dict.{Dict, lookup}
use szl_mesh.Common.Dsse.{pae, ascii}
use szl_mesh.Common.Json.{
  Json, Items, Fields, Bytes, Hashing, null, bool, int, str, arr, obj, nil, cons, object, array,
  to_fields, get_field,
}
use szl_mesh.Common.Members.{mem}
use szl_mesh.Common.Order.{◌=?◌, str_ord}
use szl_mesh.Common.Result.{
  Result, ok, raise, ◌>>=◌, value_error, type_error, key_error, unsupported_algorithm,
}
use szl_mesh.Common.Truth.{get, as_fields, as_text, is_text}
use szl_mesh.Common.{
  ℕ, zero, suc, ◌+◌, ◌-◌, ◌*◌, ◌%◌, Bool, true, false, not, ◌&&◌, String, Option, none, some, List,
  [], ◌∷◌, map, if◌then◌else◌, ltb, leb, length, ◌==◌,
}
use szl_mesh.Crdt.{authorized, observed}

abbrev pub doctrine_version : String
doctrine_version = "749/14/163"

abbrev pub kernel_commit : String
kernel_commit = "c7c0ba17"

abbrev pub slsa_level : String
slsa_level = "L1"

abbrev pub section_889_vendors : List String
section_889_vendors = "Huawei" ∷ "ZTE" ∷ "Hytera" ∷ "Hikvision" ∷ "Dahua" ∷ []

abbrev pub payload_type : String
payload_type = "application/vnd.szl.mesh.state-transition+json"

abbrev pub statement_type : String
statement_type = "szl-mesh/state-transition/v1"

abbrev pub transition_classes : List String
transition_classes =
    "PLATFORM_STATUS" ∷ "DEPLOYMENT" ∷ "PACKAGE" ∷ "COMMAND" ∷ "CELL_FORMATION" ∷ []

pub data ReceiptStatus : Type 0 where
  valid missing bad_signature wrong_doctrine wrong_kernel revoked clock_skew hash_mismatch :
      ReceiptStatus
  bad_vendors : ReceiptStatus

-- `none` stands for a ValueError, which UnicodeDecodeError and JSONDecodeError are; a RecursionError
-- of the JSON decoder is caught wherever a ValueError is, and is one here. `load_der_public_key`
-- gives the key, or the exception that it raises. `is_p256` is the test that a key is an elliptic
-- curve key on SECP256R1. Times are in seconds, of a time zone and a start that do not matter.
pub record Crypto : Type 1 where
  pub PublicKey : Type 0
  pub PrivateKey : Type 0
  pub urlsafe_b64decode : String → Option Bytes
  pub urlsafe_b64encode : Bytes → String
  pub loads : Bytes → Option Json
  pub load_der_public_key : Bytes → Result PublicKey
  pub is_p256 : PublicKey → Bool
  pub public_bytes : PublicKey → Bytes
  pub verify : PublicKey → Bytes → Bytes → Bool
  pub public_key : PrivateKey → PublicKey
  pub sign : PrivateKey → Bytes → Bytes
  pub strptime : String → Option ℕ

-- `"=" * k`
abbrev pub pad : ℕ → String
pad zero = ""
pad (suc k) = cons_str "=" (pad k)

abbrev pub text_length : String → ℕ
text_length s = length (ascii s)

-- `s.rstrip("=")`
abbrev pub rstrip_pad : String → String
rstrip_pad String.[] = ""
rstrip_pad (String.◌∷◌ c s) =
    let rest = rstrip_pad s in if (rest =? "") && (code c == b'=') then "" else cons_str c rest

-- `d[k]`
unfoldable pub index : String → Fields → Result Json
unfolding get_field
index k fs = elim (get_field k fs) [ none ↦ raise key_error | some v ↦ ok v ]

abbrev pub or_value_error : {A : Type 0} → Option A → Result A
or_value_error none = raise value_error
or_value_error (some a) = ok a

-- `if not b: return False`
abbrev pub requires : Bool → Result Bool → Result Bool
requires b rest = if b then rest else ok false

abbrev pub are_texts : List String → Items → Bool
are_texts [] nil = true
are_texts (s ∷ ss) (cons x xs) = is_text s x && are_texts ss xs
are_texts _ _ = false

abbrev pub same_bytes : Bytes → Bytes → Bool
same_bytes [] [] = true
same_bytes (x ∷ xs) (y ∷ ys) = (x == y) && same_bytes xs ys
same_bytes _ _ = false

abbrev pub texts : List String → Json
texts ss = array (map str ss)

module _ (hashing : Hashing) (crypto : Crypto) where
  unfoldable pub b64url_encode : Bytes → String
  b64url_encode b = rstrip_pad (crypto.urlsafe_b64encode b)

  -- A value that is no text has no concatenation with one.
  unfoldable pub b64url_decode : Json → Result Bytes
  b64url_decode (str s) =
      or_value_error (crypto.urlsafe_b64decode (append_str s (pad ((4 - text_length s % 4) % 4))))
  b64url_decode _ = raise type_error

  unfoldable pub node_id_from_pubkey : crypto.PublicKey → String
  node_id_from_pubkey pubkey = hashing.sha256 (crypto.public_bytes pubkey)

  -- The timestamp is the one that is given, or else the clock's.
  unfoldable pub build_state_transition_statement :
      String → String → List String → List String → String → String → String → Result Fields
  build_state_transition_statement doc_id change_hash from_heads to_heads node_id class
        timestamp_utc =
      if mem class transition_classes
      then ok (
          to_fields (
            ("type", str statement_type)
            ∷ ("doctrine_version", str doctrine_version)
            ∷ ("kernel_commit", str kernel_commit)
            ∷ ("crdt_document_id", str doc_id)
            ∷ ("change_hash", str change_hash)
            ∷ ("from_state_head", texts from_heads)
            ∷ ("to_state_head", texts to_heads)
            ∷ ("transition_class", str class)
            ∷ ("node_id", str node_id)
            ∷ ("timestamp_utc", str timestamp_utc)
            ∷ (
              "policy_context",
              object (
                  ("section_889_vendors", texts section_889_vendors)
                  ∷ ("slsa_level", str slsa_level)
                  ∷ []),
            )
            ∷ []))
      else raise value_error

  -- The receipt's one signature, and the receipt itself.
  abbrev pub signature_entry : String → Bytes → Bytes → Fields
  signature_entry signer sig pub_der = to_fields (
      ("keyid", str signer)
      ∷ ("sig", str (b64url_encode sig))
      ∷ ("sig_alg", str "ECDSA-P256-SHA256")
      ∷ ("sig_encoding", str "base64url")
      ∷ ("public_key_der", str (b64url_encode pub_der))
      ∷ [])

  unfoldable pub build_dsse_receipt : Fields → crypto.PrivateKey → Result Fields
  unfolding node_id_from_pubkey b64url_encode pae
  build_dsse_receipt stmt private_key =
      let pub_der = crypto.public_bytes (crypto.public_key private_key) in
      let signer = node_id_from_pubkey (crypto.public_key private_key) in
      let stmt_json = hashing.canonical (obj stmt) in
      if is_text signer (get "node_id" stmt)
      then ok (
          to_fields (
            ("payloadType", str payload_type)
            ∷ ("payload", str (b64url_encode stmt_json))
            ∷ (
              "signatures",
              array (
                  obj (
                    signature_entry signer
                      (crypto.sign private_key (pae (hashing.utf8 payload_type) stmt_json)) pub_der)
                  ∷ []),
            )
            ∷ []))
      else raise value_error
