-- ===== src/Receipts/Validate.antt =====
-- The receipt gate (receipts.py, `validate_receipt`). A receipt that is no dictionary is missing.
use szl_mesh.Common.Dict.{Dict, lookup}
use szl_mesh.Common.Json.{Json, Fields, Bytes, Hashing, null, str, arr, obj, get_field}
use szl_mesh.Common.Members.{mem}
use szl_mesh.Common.Order.{str_ord}
use szl_mesh.Common.Result.{Result, ok, raise, ◌>>=◌, type_error}
use szl_mesh.Common.Truth.{get, as_fields, is_text}
use szl_mesh.Common.{
  ℕ, ◌+◌, ◌-◌, ◌*◌, Bool, true, false, not, String, Option, none, some, List, if◌then◌else◌, ltb,
}
use szl_mesh.Crdt.{authorized, observed}
use szl_mesh.Receipts.{
  doctrine_version, kernel_commit, section_889_vendors, payload_type, ReceiptStatus, valid, missing,
  bad_signature, wrong_doctrine, wrong_kernel, revoked, clock_skew, hash_mismatch, bad_vendors,
  Crypto, index, are_texts, same_bytes, b64url_decode,
}
use szl_mesh.Receipts.Verify.{only_entry, decode_statement, verify_receipt_signature}

pub record GateResult : Type 0 where
  pub track : String
  pub receipt_status : ReceiptStatus
  pub statement : Option Fields

-- `abs((now_utc - ts).total_seconds()) > clock_skew_seconds`, with the current time in
-- microseconds.
abbrev pub microseconds : ℕ → ℕ
microseconds s = s * 1000000

abbrev pub out_of_window : ℕ → ℕ → ℕ → Bool
out_of_window now_utc ts clock_skew_seconds =
    ltb (microseconds clock_skew_seconds)
      ((now_utc - microseconds ts) + (microseconds ts - now_utc))

abbrev pub known_key : Dict String Bytes → Json → Option Bytes
known_key registry (str node_id) = lookup node_id registry
known_key registry _ = none

abbrev pub is_known : Option Bytes → Bytes → Bool
is_known none sig_pub = false
is_known (some known) sig_pub = same_bytes known sig_pub

abbrev pub is_revoked : List String → Json → Bool
is_revoked revoked_node_ids (str node_id) = mem node_id revoked_node_ids
is_revoked revoked_node_ids _ = false

abbrev pub has_vendors : Json → Bool
has_vendors (arr vendors) = are_texts section_889_vendors vendors
has_vendors _ = false

abbrev pub vendors_of : Json → Json
vendors_of (obj policy_context) = get "section_889_vendors" policy_context
vendors_of _ = null

abbrev pub observes : ReceiptStatus → Option Fields → Result GateResult
observes status stmt = ok (record { track = observed; receipt_status = status; statement = stmt })

-- The statement, where the payload decodes to a dictionary.
abbrev pub statement_of : Result Json → Option Fields
statement_of (ok stmt) = as_fields stmt
statement_of (raise e) = none

module _ (hashing : Hashing) (crypto : Crypto) where
  -- The key bytes that the receipt's signature carries.
  abbrev pub key_text : Fields → Result Json
  key_text receipt = index "signatures" receipt >>= λ signatures. elim (only_entry signatures) [
    | none ↦ raise type_error
    | some sig_entry ↦ index "public_key_der" sig_entry
  ]

  unfoldable pub embedded_key : Fields → Result Bytes
  unfolding index b64url_decode
  embedded_key receipt = key_text receipt >>= λ der_text. b64url_decode hashing crypto der_text

  -- Without a registry every signer is taken.
  unfoldable pub is_enrolled : Option (Dict String Bytes) → Fields → Json → Result Bool
  unfolding embedded_key lookup
  is_enrolled none receipt node_id = ok true
  is_enrolled (some registry) receipt node_id =
      embedded_key receipt >>= λ sig_pub. ok (is_known (known_key registry node_id) sig_pub)

  abbrev pub timestamp_of : Json → Option ℕ
  timestamp_of (str s) = crypto.strptime s
  timestamp_of _ = none

  -- Steps 8 to 10.
  unfoldable pub gate_change : Fields → Bytes → ℕ → List String → ℕ → Result GateResult
  unfolding get_field
  gate_change stmt change_raw_bytes now_utc revoked_node_ids clock_skew_seconds =
      if is_revoked revoked_node_ids (get "node_id" stmt)
      then observes revoked (some stmt)
      else if not (is_text (hashing.sha256 change_raw_bytes) (get "change_hash" stmt))
      then observes hash_mismatch (some stmt)
      else elim (timestamp_of (get "timestamp_utc" stmt)) [
        | none ↦ observes clock_skew (some stmt)
        | some ts ↦
            if out_of_window now_utc ts clock_skew_seconds
            then observes clock_skew (some stmt)
            else ok (record { track = authorized; receipt_status = valid; statement = some stmt })
      ]

  -- Steps 6 and 7, and the registry.
  unfoldable pub gate_signer :
      Fields → Fields → Bytes → ℕ → List String → ℕ → Option (Dict String Bytes) → Result GateResult
  unfolding verify_receipt_signature is_enrolled gate_change
  gate_signer receipt stmt change_raw_bytes now_utc revoked_node_ids clock_skew_seconds registry =
      verify_receipt_signature hashing crypto (obj receipt) >>= λ verified.
      if not verified
      then observes bad_signature (some stmt)
      else (is_enrolled registry receipt (get "node_id" stmt) >>= λ enrolled.
          if not enrolled
          then observes bad_signature (some stmt)
          else gate_change stmt change_raw_bytes now_utc revoked_node_ids clock_skew_seconds)

  unfoldable pub validate_receipt :
      Json → Bytes → ℕ → List String → ℕ → Option (Dict String Bytes) → Result GateResult
  unfolding decode_statement gate_signer
  validate_receipt (obj receipt) change_raw_bytes now_utc revoked_node_ids clock_skew_seconds
        registry =
      if not (is_text payload_type (get "payloadType" receipt))
      then observes missing none
      else elim (statement_of (decode_statement hashing crypto receipt)) [
        | none ↦ observes missing none
        | some stmt ↦
            if not (is_text doctrine_version (get "doctrine_version" stmt))
            then observes wrong_doctrine (some stmt)
            else if not (is_text kernel_commit (get "kernel_commit" stmt))
            then observes wrong_kernel (some stmt)
            else if not (has_vendors (vendors_of (get "policy_context" stmt)))
            then observes bad_vendors (some stmt)
            else gate_signer receipt stmt change_raw_bytes now_utc revoked_node_ids
                clock_skew_seconds registry
      ]
  validate_receipt _ change_raw_bytes now_utc revoked_node_ids clock_skew_seconds registry =
      observes missing none
