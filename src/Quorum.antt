-- ===== src/Quorum.antt =====
-- src/szl_mesh/quorum.py: quorum certificates, and the corroboration ledger that runs beside the
-- documents. The consensus engine is a library: what is used of it is the record `Engine`.
pub mod Organs
pub mod Counts
pub mod Certificate
pub mod Ledger
pub mod Subset
pub mod Propose
pub mod Samples
mod Tests
use szl_mesh.Common.Dict.{Dict, has}
use szl_mesh.Common.Json.{
  Json, Items, Fields, null, bool, arr, int, str, obj, field, end, object, array, get_field,
}
use szl_mesh.Common.Order.{◌=?◌, str_ord}
use szl_mesh.Common.Result.{Result, ok, raise, value_error, type_error, ◌>>=◌}
use szl_mesh.Common.Truth.{or_json, get, get_or, as_text, as_fields, as_list, is_int, from_items}
use szl_mesh.Common.{
  ℕ, Bool, true, false, not, ◌&&◌, String, Option, none, some, List, [], ◌∷◌, ◌≡◌, if◌then◌else◌,
  leb, length, map, any, all,
}

abbrev pub organ_verdict_payload_type : String
organ_verdict_payload_type = "application/vnd.szl.khipu.organ-verdict+json"

-- What the engine says of one record. An organ that is no text is read as absent.
pub record OrganCheck : Type 0 where
  pub organ : Option String
  pub counts : Bool

-- A record as `verify_quorum` hands it to the engine.
pub record Verdict : Type 0 where
  pub organ : Json
  pub keyid : Json
  pub payload_type : Json
  pub payload : Json
  pub signature : Json
  pub verdict : Json

-- Lists and dictionaries have no hash, so that no dictionary has an entry for them.
abbrev pub is_hashable : Json → Bool
is_hashable (arr items) = false
is_hashable (obj fs) = false
is_hashable _ = true

abbrev pub each_hashable : List Verdict → Bool
each_hashable vs = all (λ v. is_hashable v.organ) vs

-- `tally` checks each record alone and in order. It looks the organ up, so it raises a TypeError
-- where one has no hash. A check names the record's organ, and a record counts only if its organ
-- has a public key.
pub record Engine : Type 0 where
  pub check : String → Dict String String → Verdict → OrganCheck
  pub tally : String → List Verdict → Dict String String → Result (List OrganCheck)
  pub tally_each :
      (action_hash : String) (vs : List Verdict) (pubkeys : Dict String String)
      → tally action_hash vs pubkeys
        ≡ (if each_hashable vs then ok (map (check action_hash pubkeys) vs) else raise type_error)
  pub check_organ :
      (action_hash : String) (pubkeys : Dict String String) (v : Verdict)
      → (check action_hash pubkeys v).organ ≡ as_text v.organ
  pub check_keyed :
      (action_hash : String) (pubkeys : Dict String String) (v : Verdict) (organ : String)
      → (check action_hash pubkeys v).counts ≡ true
      → (check action_hash pubkeys v).organ ≡ some organ
      → has organ pubkeys ≡ true

pub record QuorumCertificate : Type 0 where
  pub action_hash : String
  pub witnesses : List Fields
  pub threshold : ℕ
  pub n : ℕ
  pub canonical : Bool
  pub consensus_count : ℕ

unfoldable pub witness_dict : Fields → Json
unfolding get_or
witness_dict w = object (
    ("organ", get "organ" w)
    ∷ ("keyid", get "keyid" w)
    ∷ ("sig", or_json (get "signature" w) (get "sig" w))
    ∷ ("payloadType", get_or "payloadType" (str organ_verdict_payload_type) w)
    ∷ ("payload", get "payload" w)
    ∷ ("verdict", get_or "verdict" (str "allow") w)
    ∷ [])

-- The entries that `verify_quorum` reads; the labels beside them are left out.
unfoldable pub to_dict : QuorumCertificate → Fields
unfolding witness_dict
to_dict qc = field "schema" (str "szl.mesh.quorum_certificate/v1") (
    field "action_hash" (str qc.action_hash) (
      field "threshold" (int qc.threshold) (
        field "n" (int qc.n) (
          field "canonical" (bool qc.canonical) (
            field "consensus_count" (int qc.consensus_count)
              (field "witnesses" (array (map witness_dict qc.witnesses)) end))))))

pub record QuorumVerification : Type 0 where
  pub action_hash : String
  pub threshold : ℕ
  pub n : ℕ
  pub consensus_count : ℕ
  pub canonical : Bool
  pub checks : List OrganCheck

-- Numbers below 1 are read as 0.
unfoldable pub validate_quorum_policy : ℕ → ℕ → Bool
validate_quorum_policy threshold n = leb 1 threshold && leb threshold n

-- What is handed in: a certificate, a dictionary, or something else.
pub data Submission : Type 0 where
  certificate : QuorumCertificate → Submission
  document : Fields → Submission
  other : Submission

unfoldable pub submitted : Submission → Option Fields
unfolding to_dict
submitted (certificate qc) = some (to_dict qc)
submitted (document fs) = some fs
submitted other = none

unfoldable pub verdict_of : Fields → Verdict
unfolding get_or
verdict_of w = record {
  organ = get "organ" w;
  keyid = get "keyid" w;
  payload_type = get_or "payloadType" (str organ_verdict_payload_type) w;
  payload = get "payload" w;
  signature = or_json (get "sig" w) (get "signature" w);
  verdict = get_or "verdict" (str "allow") w;
}

-- Entries that are no dictionaries are ignored.
abbrev pub verdicts_of : List Json → List Verdict
verdicts_of [] = []
verdicts_of (obj w ∷ ws) = verdict_of w ∷ verdicts_of ws
verdicts_of (_ ∷ ws) = verdicts_of ws

-- The set of organs with a check that counts.
unfoldable pub counting_organs : List OrganCheck → List String
counting_organs [] = []
counting_organs (c ∷ cs) =
    let organs = counting_organs cs in
    elim c.organ [
      | none ↦ organs
      | some organ ↦
          if c.counts
          then (if any (λ o. o =? organ) organs then organs else organ ∷ organs)
          else organs
    ]

abbrev pub closed : ℕ → ℕ → QuorumVerification
closed threshold n = record {
  action_hash = "";
  threshold = threshold;
  n = n;
  consensus_count = 0;
  canonical = false;
  checks = [];
}

unfoldable pub counted : String → ℕ → ℕ → List OrganCheck → QuorumVerification
unfolding counting_organs
counted action_hash threshold n checks =
    let consensus_count = length (counting_organs checks) in
    record {
      action_hash = action_hash;
      threshold = threshold;
      n = n;
      consensus_count = consensus_count;
      canonical = leb threshold consensus_count;
      checks = checks;
    }

module _ (engine : Engine) where
  -- From the dictionary's list of witnesses.
  unfoldable pub count_witnesses :
      String → Dict String String → ℕ → ℕ → List Json → Result QuorumVerification
  unfolding counted
  count_witnesses action_hash pubkeys threshold n raw =
      engine.tally action_hash (verdicts_of raw) pubkeys >>= λ checks.
      ok (counted action_hash threshold n checks)

  abbrev pub raw_witnesses : Json → List Json
  raw_witnesses w = elim (as_list w) [ none ↦ [] | some items ↦ from_items items ]

  unfoldable pub verify_dict : Fields → Dict String String → ℕ → ℕ → Result QuorumVerification
  unfolding count_witnesses get_or
  verify_dict qcd pubkeys threshold n =
      if is_int threshold (get_or "threshold" (int threshold) qcd)
        && is_int n (get_or "n" (int n) qcd)
      then elim (as_text (get "action_hash" qcd)) [
        | none ↦ ok (closed threshold n)
        | some action_hash ↦
            if action_hash =? ""
            then ok (closed threshold n)
            else count_witnesses action_hash pubkeys threshold n
                (raw_witnesses (get "witnesses" qcd))
      ]
      else ok (closed threshold n)

  unfoldable pub verify_quorum : Submission → Dict String String → ℕ → ℕ → Result QuorumVerification
  unfolding validate_quorum_policy submitted verify_dict
  verify_quorum qc pubkeys threshold n =
      if validate_quorum_policy threshold n
      then elim (submitted qc) [
        | none ↦ ok (closed threshold n)
        | some qcd ↦ verify_dict qcd pubkeys threshold n
      ]
      else raise value_error
