-- ===== src/Enrollment/Tests.antt =====
-- Runs of the enrollment model, and its theorems at concrete inputs.
use szl_mesh.Common.Dict.{lookup, put, has}
use szl_mesh.Common.Dsse.{ascii}
use szl_mesh.Common.Json.{Bytes, Hashing}
use szl_mesh.Common.Order.{◌=?◌, str_ord}
use szl_mesh.Common.Result.{ok}
use szl_mesh.Common.{true, false, none, some, List, [], ◌∷◌, ◌≡◌, refl, if◌then◌else◌}
use szl_mesh.Common.Members.{mem}
use szl_mesh.Enrollment.Enroll.{enroll-Stepped}
use szl_mesh.Enrollment.Gateway.{rejects, build_enrollment_request, enroll}
use szl_mesh.Enrollment.Run.{Call, enrolls, revokes, run, registry-IsKeyOf}
use szl_mesh.Enrollment.Store.{IsKeyOf, Stepped}
use szl_mesh.Enrollment.{
  Platform, Request, FormationGateway, gateway, pubkey_registry, revoke, node_id_key_mismatch,
}
use szl_mesh.Receipts.{
  Crypto, doctrine_version, kernel_commit, slsa_level, same_bytes, node_id_from_pubkey,
}

abbrev hashing : Hashing
hashing = record {
  canonical = λ j. [];
  canonical_json = λ j. [];
  utf8 = ascii;
  sha256 = λ bs. if same_bytes bs (ascii "k1") then "n1" else "n2";
  hmac_sha256 = λ k bs. bs;
  base64 = λ bs. "";
}

-- A key is its own encoding.
abbrev crypto : Crypto
crypto = record {
  PublicKey = Bytes;
  PrivateKey = Bytes;
  urlsafe_b64decode = λ s. none;
  urlsafe_b64encode = λ b. "";
  loads = λ b. none;
  load_der_public_key = λ b. ok b;
  is_p256 = λ k. true;
  public_bytes = λ k. k;
  verify = λ k sig m. false;
  public_key = λ k. k;
  sign = λ k m. [];
  strptime = λ s. if s =? "now" then some 100 else none;
}

abbrev platform : Platform
platform = record {
  hmac_hexdigest = λ k m. if same_bytes k (ascii "secret") then "proof" else "other";
  strip_lower = λ s. s;
  strftime = λ t. "now";
}

abbrev new_gateway : FormationGateway
new_gateway = gateway "f" (ascii "secret") 300

abbrev honest : Request
honest =
    build_enrollment_request hashing crypto platform (ascii "secret") "n1" (ascii "k1") "now"
      doctrine_version kernel_commit slsa_level "acme"

-- A captured proof beside another key.
abbrev stolen : Request
stolen = record honest { public_key_der = some (ascii "k2") }

stolen_key_is_refused :
    enroll hashing crypto platform new_gateway stolen 100000000
    ≡ ok (rejects hashing crypto platform new_gateway "n1" node_id_key_mismatch)
unfolding enroll build_enrollment_request has lookup str_ord node_id_from_pubkey
stolen_key_is_refused = refl

enroll-Stepped_example :
    Stepped hashing crypto platform new_gateway stolen 100000000
      (rejects hashing crypto platform new_gateway "n1" node_id_key_mismatch)
enroll-Stepped_example =
    enroll-Stepped hashing crypto platform new_gateway stolen 100000000
      (rejects hashing crypto platform new_gateway "n1" node_id_key_mismatch) stolen_key_is_refused

abbrev calls : List (Call hashing crypto platform)
calls =
    enrolls stolen 100000000
    ∷ enrolls honest 100000000
    ∷ enrolls honest 100000000
    ∷ revokes "n2"
    ∷ []

n1_is_enrolled :
    lookup "n1" (pubkey_registry (run hashing crypto platform new_gateway calls))
    ≡ some (ascii "k1")
unfolding run enroll build_enrollment_request has lookup put str_ord node_id_from_pubkey revoke
    pubkey_registry
n1_is_enrolled = refl

registry-IsKeyOf_example :
    IsKeyOf hashing crypto platform "n1" (ascii "k1")
    × (mem "n1" (run hashing crypto platform new_gateway calls).revoked ≡ false)
registry-IsKeyOf_example =
    registry-IsKeyOf hashing crypto platform "f" (ascii "secret") 300 calls "n1" (ascii "k1")
      n1_is_enrolled
