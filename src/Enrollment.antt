-- ===== src/Enrollment.antt =====
-- src/szl_mesh/enrollment.py: enrollment of nodes at a formation gateway. A call returns the gateway
-- that it leaves, or raises and leaves it as it was.
pub mod Gateway
pub mod Store
pub mod Enroll
pub mod Run
mod Tests
use Prim.Native.String.{◌++◌ as append_str}
use szl_mesh.Common.Dict.{Dict, lookup, put, has}
use szl_mesh.Common.Dsse.{ascii}
use szl_mesh.Common.Json.{Bytes, Hashing}
use szl_mesh.Common.Members.{mem}
use szl_mesh.Common.Order.{◌=?◌, str_ord}
use szl_mesh.Common.Result.{Result, ok, raise, type_error}
use szl_mesh.Common.{
  ℕ, ◌+◌, ◌-◌, ◌*◌, Bool, true, false, not, ◌&&◌, ◌||◌, String, Option, none, some, List, [], ◌∷◌,
  map, if◌then◌else◌, ltb, any, all, ◌==◌,
}
use szl_mesh.Receipts.Validate.{out_of_window}
use szl_mesh.Receipts.{
  Crypto, doctrine_version, kernel_commit, slsa_level, same_bytes, node_id_from_pubkey,
}

-- The covered vendors' short names in lower case, and their legal names.
abbrev pub section_889_match : List String
section_889_match =
    "huawei" ∷ "zte" ∷ "hytera" ∷ "hikvision" ∷ "dahua" ∷ "huawei technologies" ∷ "zte corporation"
    ∷ "hytera communications" ∷ "hangzhou hikvision" ∷ "hikvision digital" ∷ "dahua technology" ∷ []

-- The source's calls of hmac and of text and time functions.
pub record Platform : Type 0 where
  pub hmac_hexdigest : Bytes → Bytes → String
  pub strip_lower : String → String
  pub strftime : ℕ → String

-- A request, whose entries may be missing. Texts are texts; a key that is not of type bytes is
-- none.
pub record DoctrineClaim : Type 0 where
  pub doctrine_version : Option String
  pub kernel_commit : Option String
  pub slsa_level : Option String

pub record Attestation : Type 0 where
  pub vendor_exclusion_confirmed : Option Bool
  pub hardware_vendor : Option String
  pub attestation_method : Option String

pub record Request : Type 0 where
  pub node_id : Option String
  pub public_key_der : Option Bytes
  pub formation_key_proof : Option String
  pub timestamp_utc : Option String
  pub doctrine_claim : Option DoctrineClaim
  pub section_889_attestation : Option Attestation

pub data Failure : Type 0 where
  bad_formation_proof bad_timestamp timestamp_out_of_window wrong_doctrine wrong_kernel : Failure
  wrong_slsa revoked section_889_not_confirmed section_889_violation duplicate_node_id : Failure
  invalid_public_key node_id_key_mismatch : Failure

pub record EnrollmentResult : Type 0 where
  pub success : Bool
  pub node_id : String
  pub failure_reason : Option Failure
  pub enrolled_at : Option String

pub record CertEntry : Type 0 where
  pub node_id : String
  pub public_key_der : Bytes
  pub enrolled_at : String
  pub doctrine_version : String
  pub kernel_commit : String

pub record FormationGateway : Type 0 where
  pub formation_id : String
  pub formation_key : Bytes
  pub skew : ℕ
  pub cert_store : Dict String CertEntry
  pub revoked : List String

abbrev pub gateway : String → Bytes → ℕ → FormationGateway
gateway formation_id formation_key skew = record {
  formation_id = formation_id;
  formation_key = formation_key;
  skew = skew;
  cert_store = [];
  revoked = [];
}

abbrev pub or_empty : Option String → String
or_empty none = ""
or_empty (some s) = s

abbrev pub claim_of : Option DoctrineClaim → DoctrineClaim
claim_of (some claim) = claim
claim_of none = record { doctrine_version = none; kernel_commit = none; slsa_level = none }

abbrev pub attestation_of : Option Attestation → Attestation
attestation_of (some att) = att
attestation_of none = record {
  vendor_exclusion_confirmed = none;
  hardware_vendor = none;
  attestation_method = none;
}

-- `d.get(k) == s`
abbrev pub is_given : String → Option String → Bool
is_given s none = false
is_given s (some t) = t =? s

abbrev pub confirmed : Option Bool → Bool
confirmed none = false
confirmed (some b) = b

abbrev pub starts_with : Bytes → Bytes → Bool
starts_with [] ys = true
starts_with (x ∷ xs) [] = false
starts_with (x ∷ xs) (y ∷ ys) = (x == y) && starts_with xs ys

abbrev pub occurs : Bytes → Bytes → Bool
occurs xs [] = starts_with xs []
occurs xs (y ∷ ys) = starts_with xs (y ∷ ys) || occurs xs ys

-- `m in s`
abbrev pub is_in : String → String → Bool
is_in m s = occurs (ascii m) (ascii s)

unfoldable pub is_covered : String → Bool
is_covered vendor =
    not (vendor =? "") && any (λ m. is_in m vendor || is_in vendor m) section_889_match

abbrev pub registry_of : List String → Dict String CertEntry → Dict String Bytes
registry_of revoked_ids [] = []
registry_of revoked_ids ((nid, e) ∷ store) =
    let rest = registry_of revoked_ids store in
    if mem nid revoked_ids then rest else (nid, e.public_key_der) ∷ rest

unfoldable pub pubkey_registry : FormationGateway → Dict String Bytes
pubkey_registry self = registry_of self.revoked self.cert_store

unfoldable pub revoke : FormationGateway → String → FormationGateway
revoke self node_id =
    if mem node_id self.revoked then self else record self { revoked = node_id ∷ self.revoked }

abbrev pub is_ascii : String → Bool
is_ascii s = all (λ c. ltb c 128) (ascii s)
