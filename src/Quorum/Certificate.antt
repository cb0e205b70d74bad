-- ===== src/Quorum/Certificate.antt =====
-- What a verified certificate means (quorum.py, `verify_quorum`).
use szl_mesh.Common.Dict.{Dict, keys}
use szl_mesh.Common.Json.{Fields, int}
use szl_mesh.Common.Members.{mem, Distinct, length-Distinct}
use szl_mesh.Common.Order.{◌=?◌, str_ord}
use szl_mesh.Common.Result.{ok, raise, value_error, type_error, ok_inj}
use szl_mesh.Common.Truth.{get, get_or, as_text, is_int}
use szl_mesh.Common.{
  ℕ, ◌≤◌, true, false, ◌&&◌, String, some, List, ◌≡◌, refl, sym, ap, ◌∙◌, arith, any, leb, length,
  Bool-cases, Option-cases, inl, inr, ◌⊎◌, subst,
}
use szl_mesh.Quorum.Organs.{
  checks_of, counts_for, counting_organs-Distinct, mem-counting_organs, any-checks, any-keyed,
  mem-keys,
}
use szl_mesh.Quorum.{
  Verdict, Engine, QuorumVerification, Submission, submitted, verdicts_of, raw_witnesses,
  counting_organs, closed, counted, each_hashable, count_witnesses, verify_dict, verify_quorum,
  validate_quorum_policy,
}
use szl_mesh.Quorum.Counts.{count_witnesses-counted, count_witnesses_raises, count_witnesses-ok}

module _ (engine : Engine) (pubkeys : Dict String String) (threshold n : ℕ) where
  -- The certificate states the caller's policy and an action, and at least `threshold` different
  -- organs, each with a public key, signed an allowing verdict on that action.
  pub record IsQuorate (qcd : Fields) (v : QuorumVerification) : Type 0 where
    pub positive : 1 ≤ threshold
    pub declared :
        is_int threshold (get_or "threshold" (int threshold) qcd)
          && is_int n (get_or "n" (int n) qcd)
        ≡ true
    pub bound : as_text (get "action_hash" qcd) ≡ some v.action_hash
    pub named : (v.action_hash =? "") ≡ false
    pub organs : List String
    pub different : Distinct organs
    pub enough : threshold ≤ length organs
    pub counted : v.consensus_count ≡ length organs
    pub signed :
        (organ : String)
        → mem organ organs
          ≡ any
              (counts_for engine v.action_hash pubkeys organ)
              (verdicts_of (raw_witnesses engine (get "witnesses" qcd)))
    pub few : length organs ≤ length (keys pubkeys)

  closed_not_canonical : (v : QuorumVerification) → closed threshold n ≡ v → v.canonical ≡ false
  closed_not_canonical v e = sym (ap (λ (x : QuorumVerification). x.canonical) e)

  abbrev verdicts : Fields → List Verdict
  verdicts qcd = verdicts_of (raw_witnesses engine (get "witnesses" qcd))

  abbrev counted_organs : String → Fields → List String
  counted_organs ah qcd = counting_organs (checks_of engine ah pubkeys (verdicts qcd))

  signed_by :
      (ah : String) (qcd : Fields) (organ : String)
      → mem organ (counted_organs ah qcd) ≡ any (counts_for engine ah pubkeys organ) (verdicts qcd)
  signed_by ah qcd organ =
      mem-counting_organs organ (checks_of engine ah pubkeys (verdicts qcd))
      ∙ any-checks engine ah pubkeys organ (verdicts qcd)

  few_organs : (ah : String) (qcd : Fields) → length (counted_organs ah qcd) ≤ length (keys pubkeys)
  few_organs ah qcd =
      length-Distinct (counted_organs ah qcd) (keys pubkeys)
        (counting_organs-Distinct (checks_of engine ah pubkeys (verdicts qcd)))
        (λ organ m.
          mem-keys organ pubkeys
          ∙ any-keyed engine ah pubkeys organ (verdicts qcd) (sym (signed_by ah qcd organ) ∙ m))

  counted-IsQuorate :
      (qcd : Fields) (ah : String)
      → 1 ≤ threshold
      → (is_int threshold (get_or "threshold" (int threshold) qcd)
          && is_int n (get_or "n" (int n) qcd))
        ≡ true
      → as_text (get "action_hash" qcd) ≡ some ah
      → (ah =? "") ≡ false
      → leb threshold (length (counted_organs ah qcd)) ≡ true
      → IsQuorate qcd (counted ah threshold n (checks_of engine ah pubkeys (verdicts qcd)))
  unfolding counted
  counted-IsQuorate qcd ah positive declared bound named enough = record {
    positive = positive;
    declared = declared;
    bound = bound;
    named = named;
    organs = counted_organs ah qcd;
    different = counting_organs-Distinct (checks_of engine ah pubkeys (verdicts qcd));
    enough = ground (arith, enough);
    counted = refl;
    signed = signed_by ah qcd;
    few = few_organs ah qcd;
  }

  pub verify_dict-counts :
      (qcd : Fields) (ah : String)
      → (is_int threshold (get_or "threshold" (int threshold) qcd)
          && is_int n (get_or "n" (int n) qcd))
        ≡ true
      → as_text (get "action_hash" qcd) ≡ some ah
      → (ah =? "") ≡ false
      → verify_dict engine qcd pubkeys threshold n
        ≡ count_witnesses engine ah pubkeys threshold n (raw_witnesses engine (get "witnesses" qcd))
  unfolding verify_dict
  verify_dict-counts qcd ah declared bound named = rw (declared, bound, named) refl

  -- Where the verdict is not the closed one, the witnesses were counted.
  verify_dict_cases :
      (qcd : Fields)
      → (verify_dict engine qcd pubkeys threshold n ≡ ok (closed threshold n))
        ⊎ ((ah : String) × ((is_int threshold (get_or "threshold" (int threshold) qcd)
                && is_int n (get_or "n" (int n) qcd))
              ≡ true)
            × (as_text (get "action_hash" qcd) ≡ some ah)
            × ((ah =? "") ≡ false))
  unfolding verify_dict
  verify_dict_cases qcd =
      elim (Bool-cases (
        is_int threshold (get_or "threshold" (int threshold) qcd)
        && is_int n (get_or "n" (int n) qcd))) [
          | inr differs ↦ inl (rw differs refl)
          | inl declared ↦ elim (Option-cases (as_text (get "action_hash" qcd))) [
            | inl absent ↦ inl (rw (declared, absent) refl)
            | inr (ah, bound) ↦ elim (Bool-cases (ah =? "")) [
              | inl empty ↦ inl (rw (declared, bound, empty) refl)
              | inr named ↦ inr (ah, declared, bound, named)
            ]
          ]
        ]

  verify_dict-IsQuorate :
      (qcd : Fields) (v : QuorumVerification)
      → 1 ≤ threshold
      → verify_dict engine qcd pubkeys threshold n ≡ ok v
      → v.canonical ≡ true
      → IsQuorate qcd v
  unfolding counted
  verify_dict-IsQuorate qcd v positive e canonical = elim (verify_dict_cases qcd) [
    | inl empty ↦ absurd (cc (closed_not_canonical v (ok_inj (sym empty ∙ e)), canonical))
    | inr (ah, declared, bound, named) ↦
        let (hashable, same) =
          count_witnesses-ok engine ah pubkeys threshold n _ v
            (sym (verify_dict-counts qcd ah declared bound named) ∙ e) in
        let enough = ap (λ (x : QuorumVerification). x.canonical) same ∙ canonical in
        subst (IsQuorate qcd) same (counted-IsQuorate qcd ah positive declared bound named enough)
  ]

  -- A submission that is verified as canonical is a certificate or a dictionary that is quorate:
  -- it declares the caller's own threshold and n, names an action, and at least `threshold`
  -- different organs that have public keys each signed an allowing verdict on that action.
  pub verify_quorum-IsQuorate :
      (qc : Submission) (v : QuorumVerification)
      → verify_quorum engine qc pubkeys threshold n ≡ ok v
      → v.canonical ≡ true
      → (qcd : Fields) × (submitted qc ≡ some qcd) × IsQuorate qcd v
  unfolding verify_quorum validate_quorum_policy
  verify_quorum-IsQuorate qc v e canonical =
      elim (Bool-cases (leb 1 threshold && leb threshold n)) [
        | inr bad ↦ absurd (ground (arith, bad, rw bad at e))
        | inl good ↦ elim (Option-cases (submitted qc)) [
          | inl absent ↦ absurd (cc (ok_inj (rw (good, absent) at e), canonical))
          | inr (qcd, present) ↦ (
            qcd,
            present,
            verify_dict-IsQuorate qcd v (ground (arith, good)) (rw (good, present) at e) canonical,
          )
        ]
      ]

  -- The verdict repeats the policy and is canonical exactly if it counts enough organs.
  abbrev Answers : QuorumVerification → Type 0
  Answers v =
      (v.threshold ≡ threshold) × (v.n ≡ n) × (v.canonical ≡ leb threshold v.consensus_count)

  closed-Answers : 1 ≤ threshold → Answers (closed threshold n)
  closed-Answers positive = (refl, refl, ground (arith, positive))

  -- What `verify_quorum` gives where the policy is valid and a dictionary was submitted.
  verify_dict_outcome :
      (qcd : Fields)
      → 1 ≤ threshold
      → ((verify_dict engine qcd pubkeys threshold n ≡ raise type_error)
          × (each_hashable (verdicts qcd) ≡ false))
        ⊎ ((v : QuorumVerification) × (verify_dict engine qcd pubkeys threshold n ≡ ok v)
            × (v.threshold ≡ threshold)
            × (v.n ≡ n)
            × (v.canonical ≡ leb threshold v.consensus_count))
  unfolding counted
  verify_dict_outcome qcd positive = elim (verify_dict_cases qcd) [
    | inl e ↦ let (t, m, c) = closed-Answers positive in inr (closed threshold n, e, t, m, c)
    | inr (ah, declared, bound, named) ↦
        let e = verify_dict-counts qcd ah declared bound named in
        elim (Bool-cases (each_hashable (verdicts qcd))) [
          | inl hashable ↦ inr (
            _,
            e ∙ count_witnesses-counted engine ah pubkeys threshold n _ hashable,
            refl,
            refl,
            refl,
          )
          | inr unhashable ↦
              inl
                (e ∙ count_witnesses_raises engine ah pubkeys threshold n _ unhashable, unhashable)
        ]
  ]

  -- A ValueError is raised exactly where the caller's policy is not 1 <= threshold <= n. Under a
  -- valid policy a verdict is returned, which repeats the policy and is canonical exactly if it
  -- counts at least `threshold` organs, unless a dictionary or certificate is submitted with a
  -- witness record whose organ is a list or a dictionary and a TypeError is raised.
  pub verify_quorum_outcome :
      (qc : Submission)
      → ((validate_quorum_policy threshold n ≡ false)
          × (verify_quorum engine qc pubkeys threshold n ≡ raise value_error))
        ⊎ ((validate_quorum_policy threshold n ≡ true)
            × (((qcd : Fields) × (submitted qc ≡ some qcd)
                  × (each_hashable (verdicts_of (raw_witnesses engine (get "witnesses" qcd)))
                      ≡ false)
                  × (verify_quorum engine qc pubkeys threshold n ≡ raise type_error))
                ⊎ ((v : QuorumVerification) × (verify_quorum engine qc pubkeys threshold n ≡ ok v)
                    × (v.threshold ≡ threshold)
                    × (v.n ≡ n)
                    × (v.canonical ≡ leb threshold v.consensus_count))))
  unfolding verify_quorum validate_quorum_policy
  verify_quorum_outcome qc = elim (Bool-cases (leb 1 threshold && leb threshold n)) [
    | inr bad ↦ inl (bad, rw bad refl)
    | inl good ↦
        let positive : 1 ≤ threshold = ground (arith, good) in
        inr (
          good,
          elim (Option-cases (submitted qc)) [
            | inl absent ↦
                let (t, m, c) = closed-Answers positive in
                inr (closed threshold n, rw (good, absent) refl, t, m, c)
            | inr (qcd, present) ↦ elim (verify_dict_outcome qcd positive) [
              | inl (raises, unhashable) ↦ inl (qcd, present, unhashable, rw (good, present) raises)
              | inr (v, e, t, m, c) ↦ inr (v, rw (good, present) e, t, m, c)
            ]
          ],
        )
  ]
