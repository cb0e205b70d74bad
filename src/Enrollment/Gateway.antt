-- ===== src/Enrollment/Gateway.antt =====
-- The enrollment call (enrollment.py, `FormationGateway.enroll`) and the requests made for it.
use Prim.Native.String.{◌++◌ as append_str}
use szl_mesh.Common.Dict.{put, has}
use szl_mesh.Common.Json.{Bytes, Hashing}
use szl_mesh.Common.Members.{mem}
use szl_mesh.Common.Order.{◌=?◌, str_ord}
use szl_mesh.Common.Result.{Result, ok, raise, type_error}
use szl_mesh.Common.{ℕ, true, false, not, String, Option, none, some, if◌then◌else◌}
use szl_mesh.Receipts.Validate.{out_of_window}
use szl_mesh.Receipts.{
  Crypto, doctrine_version, kernel_commit, slsa_level, same_bytes, node_id_from_pubkey,
}
use szl_mesh.Enrollment.{
  Platform, Request, Failure, bad_formation_proof, bad_timestamp, timestamp_out_of_window,
  wrong_doctrine, wrong_kernel, wrong_slsa, revoked, section_889_not_confirmed,
  section_889_violation, duplicate_node_id, invalid_public_key, node_id_key_mismatch,
  EnrollmentResult, FormationGateway, or_empty, claim_of, attestation_of, is_given, confirmed,
  is_covered, is_ascii,
}

module _ (hashing : Hashing) (crypto : Crypto) (platform : Platform) where
  unfoldable pub compute_formation_key_proof : Bytes → String → String → String → String → String
  compute_formation_key_proof formation_key node_id timestamp_utc doctrine kernel =
      platform.hmac_hexdigest formation_key
        (hashing.utf8 (append_str node_id (append_str timestamp_utc (append_str doctrine kernel))))

  unfoldable pub build_enrollment_request :
      Bytes → String → Bytes → String → String → String → String → String → Request
  unfolding compute_formation_key_proof
  build_enrollment_request formation_key node_id public_key_der timestamp_utc doctrine kernel slsa
        hardware_vendor =
      record {
        node_id = some node_id;
        public_key_der = some public_key_der;
        formation_key_proof =
            some (compute_formation_key_proof formation_key node_id timestamp_utc doctrine kernel);
        timestamp_utc = some timestamp_utc;
        doctrine_claim = some (record {
          doctrine_version = some doctrine;
          kernel_commit = some kernel;
          slsa_level = some slsa;
        });
        section_889_attestation = some (record {
          vendor_exclusion_confirmed = some true;
          hardware_vendor = some hardware_vendor;
          attestation_method = some "self_report";
        });
      }

  abbrev pub Outcome : Type 0
  Outcome = FormationGateway × EnrollmentResult

  abbrev pub rejects : FormationGateway → String → Failure → Outcome
  rejects self node_id reason = (
    self,
    record { success = false; node_id = node_id; failure_reason = some reason; enrolled_at = none },
  )

  -- The key's steps, once no entry has the node's name.
  unfoldable pub enroll_key : FormationGateway → String → Option Bytes → ℕ → Outcome
  unfolding node_id_from_pubkey put
  enroll_key self node_id none now_utc = rejects self node_id invalid_public_key
  enroll_key self node_id (some public_key_der) now_utc =
      elim (crypto.load_der_public_key public_key_der) [
        | raise e ↦ rejects self node_id invalid_public_key
        | ok key ↦
            if not (crypto.is_p256 key)
            then rejects self node_id invalid_public_key
            else if not (same_bytes public_key_der (crypto.public_bytes key))
            then rejects self node_id invalid_public_key
            else if not (node_id =? node_id_from_pubkey hashing crypto key)
            then rejects self node_id node_id_key_mismatch
            else (
              record self {
                cert_store =
                    put node_id
                      (record {
                        node_id = node_id;
                        public_key_der = crypto.public_bytes key;
                        enrolled_at = platform.strftime now_utc;
                        doctrine_version = doctrine_version;
                        kernel_commit = kernel_commit;
                      })
                      self.cert_store;
              },
              record {
                success = true;
                node_id = node_id;
                failure_reason = none;
                enrolled_at = some (platform.strftime now_utc);
              },
            )
      ]

  -- Steps 3 to 7 and the guard on the name.
  unfoldable pub enroll_claims : FormationGateway → Request → String → ℕ → Outcome
  unfolding is_covered has enroll_key
  enroll_claims self req node_id now_utc =
      let claim = claim_of req.doctrine_claim in
      let att = attestation_of req.section_889_attestation in
      if not (is_given doctrine_version claim.doctrine_version)
      then rejects self node_id wrong_doctrine
      else if not (is_given kernel_commit claim.kernel_commit)
      then rejects self node_id wrong_kernel
      else if not (is_given slsa_level claim.slsa_level)
      then rejects self node_id wrong_slsa
      else if mem node_id self.revoked
      then rejects self node_id revoked
      else if not (confirmed att.vendor_exclusion_confirmed)
      then rejects self node_id section_889_not_confirmed
      else if is_covered (platform.strip_lower (or_empty att.hardware_vendor))
      then rejects self node_id section_889_violation
      else if has node_id self.cert_store
      then rejects self node_id duplicate_node_id
      else enroll_key self node_id req.public_key_der now_utc

  abbrev pub timestamp_of : Option String → Option ℕ
  timestamp_of none = none
  timestamp_of (some s) = crypto.strptime s

  -- `hmac.compare_digest` takes ASCII texts only; the expected one is hexadecimal.
  unfoldable pub enroll : FormationGateway → Request → ℕ → Result Outcome
  unfolding compute_formation_key_proof enroll_claims
  enroll self req now_utc =
      let node_id = or_empty req.node_id in
      let claim = claim_of req.doctrine_claim in
      let proof = or_empty req.formation_key_proof in
      let expected =
        compute_formation_key_proof self.formation_key node_id (or_empty req.timestamp_utc)
          (or_empty claim.doctrine_version) (or_empty claim.kernel_commit) in
      if not (is_ascii proof)
      then raise type_error
      else if not (proof =? expected)
      then ok (rejects self node_id bad_formation_proof)
      else elim (timestamp_of req.timestamp_utc) [
        | none ↦ ok (rejects self node_id bad_timestamp)
        | some ts ↦
            if out_of_window now_utc ts self.skew
            then ok (rejects self node_id timestamp_out_of_window)
            else ok (enroll_claims self req node_id now_utc)
      ]
