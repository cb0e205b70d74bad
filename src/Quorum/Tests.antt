-- ===== src/Quorum/Tests.antt =====
-- Runs of the quorum model, and its theorems at concrete inputs.
use mathlib.Core.List.{Memᴰ}
use szl_mesh.Common.Dict.{lookup, has}
use szl_mesh.Common.Json.{Json, Fields, obj, arr, nil, field, end, get_field}
use szl_mesh.Common.Members.{mem}
use szl_mesh.Common.Order.{◌=?◌, str_ord}
use szl_mesh.Common.Result.{ok, raise, value_error, type_error}
use szl_mesh.Common.Truth.{get}
use szl_mesh.Common.{
  true, false, String, some, List, [], ◌∷◌, ◌≡◌, refl, arith, All, not, ◌||◌, ◌⊎◌, ◌≤◌, leb, subst,
  Bool-cases, inl, inr,
}
use szl_mesh.Quorum.Certificate.{IsQuorate, verify_quorum-IsQuorate, verify_quorum_outcome}
use szl_mesh.Quorum.Propose.Proposal.{Votes, propose-verify}
use szl_mesh.Quorum.Propose.{raw, propose_action}
use szl_mesh.Quorum.Subset.{count_witnesses_subset}
use szl_mesh.Quorum.{
  QuorumCertificate, QuorumVerification, certificate, verify_quorum, count_witnesses, verdict_of,
  verdicts_of, raw_witnesses, each_hashable, submitted, validate_quorum_policy,
}
use szl_mesh.Quorum.Samples.{
  engine, toy_witness, qc, pubkeys, signer, hashing, signs, private_keys, asked_organs, proposed,
}

abbrev outcome : QuorumVerification
outcome = record {
  action_hash = "h";
  threshold = 3;
  n = 4;
  consensus_count = 3;
  canonical = true;
  checks =
      record { organ = some "sentra"; counts = true }
      ∷ record { organ = some "amaru"; counts = true }
      ∷ record { organ = some "amaru"; counts = true }
      ∷ record { organ = some "a11oy"; counts = false }
      ∷ record { organ = some "killinchu"; counts = true }
      ∷ [];
}

verify_qc : verify_quorum engine (certificate qc) pubkeys 3 4 ≡ ok outcome
unfolding verify_quorum has lookup get_field str_ord verdict_of
verify_qc = refl

verify_quorum-IsQuorate_example :
    (qcd : Fields) × (submitted (certificate qc) ≡ some qcd)
    × IsQuorate engine pubkeys 3 4 qcd outcome
verify_quorum-IsQuorate_example =
    verify_quorum-IsQuorate engine pubkeys 3 4 (certificate qc) outcome verify_qc refl

-- An organ that is a list cannot be looked up.
abbrev unhashable : QuorumCertificate
unhashable = record {
  action_hash = "h";
  witnesses = field "organ" (arr nil) end ∷ toy_witness "sentra" "h" ∷ [];
  threshold = 3;
  n = 4;
  canonical = false;
  consensus_count = 0;
}

verify_unhashable : verify_quorum engine (certificate unhashable) pubkeys 3 4 ≡ raise type_error
unfolding verify_quorum has lookup get_field str_ord verdict_of
verify_unhashable = refl

verify_quorum_outcome_example :
    ((validate_quorum_policy 3 4 ≡ false)
      × (verify_quorum engine (certificate unhashable) pubkeys 3 4 ≡ raise value_error))
    ⊎ ((validate_quorum_policy 3 4 ≡ true)
        × (((qcd : Fields) × (submitted (certificate unhashable) ≡ some qcd)
              × (each_hashable (verdicts_of (raw_witnesses engine (get "witnesses" qcd))) ≡ false)
              × (verify_quorum engine (certificate unhashable) pubkeys 3 4 ≡ raise type_error))
            ⊎ ((v : QuorumVerification) × (verify_quorum engine (certificate unhashable) pubkeys 3 4
                  ≡ ok v)
                × (v.threshold ≡ 3)
                × (v.n ≡ 4)
                × (v.canonical ≡ leb 3 v.consensus_count))))
verify_quorum_outcome_example = verify_quorum_outcome engine pubkeys 3 4 (certificate unhashable)

-- A forged record before the honest ones, and one of these replayed.
abbrev honest_records : List Json
honest_records = obj (toy_witness "sentra" "h") ∷ obj (toy_witness "amaru" "h") ∷ []

abbrev padded_records : List Json
padded_records =
    obj (toy_witness "amaru" "x")
    ∷ obj (toy_witness "sentra" "h")
    ∷ obj (toy_witness "amaru" "h")
    ∷ obj (toy_witness "sentra" "h")
    ∷ []

padded : All (λ w. Memᴰ w padded_records) honest_records
padded = (Memᴰ.tail (Memᴰ.head refl), (Memᴰ.tail (Memᴰ.tail (Memᴰ.head refl)), tt))

abbrev honest_outcome : QuorumVerification
honest_outcome = record {
  action_hash = "h";
  threshold = 2;
  n = 4;
  consensus_count = 2;
  canonical = true;
  checks =
      record { organ = some "sentra"; counts = true }
      ∷ record { organ = some "amaru"; counts = true }
      ∷ [];
}

abbrev padded_outcome : QuorumVerification
padded_outcome = record {
  action_hash = "h";
  threshold = 2;
  n = 4;
  consensus_count = 2;
  canonical = true;
  checks =
      record { organ = some "amaru"; counts = false }
      ∷ record { organ = some "sentra"; counts = true }
      ∷ record { organ = some "amaru"; counts = true }
      ∷ record { organ = some "sentra"; counts = true }
      ∷ [];
}

count_honest : count_witnesses engine "h" pubkeys 2 4 honest_records ≡ ok honest_outcome
unfolding count_witnesses has lookup get_field str_ord verdict_of
count_honest = refl

count_padded : count_witnesses engine "h" pubkeys 2 4 padded_records ≡ ok padded_outcome
unfolding count_witnesses has lookup get_field str_ord verdict_of
count_padded = refl

count_witnesses_subset_example :
    (honest_outcome.consensus_count ≤ padded_outcome.consensus_count)
    × ((not honest_outcome.canonical || padded_outcome.canonical) ≡ true)
count_witnesses_subset_example =
    count_witnesses_subset engine "h" pubkeys 2 4 honest_records padded_records honest_outcome
      padded_outcome count_honest count_padded padded

propose_two :
    propose_action hashing signer (raw []) private_keys asked_organs 2 4 [] "ok" "" "" ≡ ok proposed
unfolding propose_action lookup str_ord
propose_two = refl

abbrev VotesTwo : String → Type 0
VotesTwo organ =
    Votes engine hashing signer signs asked_organs private_keys [] pubkeys "digest" "ok" "" "" organ

votes_two : (organ : String) → mem organ ("sentra" ∷ "amaru" ∷ []) ≡ true → VotesTwo organ
unfolding lookup str_ord
votes_two organ m = elim (Bool-cases ("sentra" =? organ)) [
  | inl e ↦ subst VotesTwo (str_ord.same "sentra" organ (ground (arith, e))) (record {
    asked = refl;
    pem = "P1";
    keyed = refl;
    usable = refl;
    allows = refl;
    pub_pem = "P1";
    derived = refl;
    trusted = refl;
  })
  | inr n ↦ subst VotesTwo (str_ord.same "amaru" organ (ground (arith, m, n))) (record {
    asked = refl;
    pem = "P2";
    keyed = refl;
    usable = refl;
    allows = refl;
    pub_pem = "P2";
    derived = refl;
    trusted = refl;
  })
]

propose-verify_example :
    (v : QuorumVerification) × (verify_quorum engine (certificate proposed) pubkeys 2 4 ≡ ok v)
    × (v.canonical ≡ true)
    × (v.action_hash ≡ "digest")
unfolding str_ord
propose-verify_example =
    propose-verify engine hashing signer signs private_keys [] pubkeys "ok" "" "" (raw [])
      asked_organs 2 4 proposed ("sentra" ∷ "amaru" ∷ []) propose_two refl (refl, (refl, tt))
      (omega arith) votes_two
