-- ===== src/Quorum/Propose/Proposal.antt =====
-- A proposal that enough organs sign is verified (quorum.py, `propose_action`, `verify_quorum`).
use szl_mesh.Common.Dict.{Dict, lookup}
use szl_mesh.Common.Json.{Fields, Hashing, null, str, obj, get_field}
use szl_mesh.Common.Members.{mem, Distinct, length-Distinct}
use szl_mesh.Common.Order.{◌=?◌, str_ord}
use szl_mesh.Common.Result.{ok, ok_inj, bind-ok}
use szl_mesh.Common.Truth.{get, truthy, get_or}
use szl_mesh.Common.{
  ℕ, ◌≤◌, true, false, String, some, List, [], ◌∷◌, ◌≡◌, refl, sym, ap, ap₂, all, ◌&&◌, ◌∙◌, arith,
  length, map, Bool-cases, inl, inr, subst,
}
use szl_mesh.Quorum.Counts.{count_witnesses-counted}
use szl_mesh.Quorum.Organs.{counts_for, any-checks, mem-counting_organs, checks_of}
use szl_mesh.Quorum.Propose.Votes.{
  collect_all, collect_signed, collect_each, Memᴰ-map, verify-to_dict,
}
use szl_mesh.Quorum.Propose.{Action, Signer, verdict_for, reason_for, propose_action, action_hash}
use szl_mesh.Quorum.Subset.{any-Memᴰ, any-verdicts, passes}
use szl_mesh.Quorum.{
  Engine, QuorumCertificate, QuorumVerification, certificate, witness_dict, verdict_of, verdicts_of,
  counting_organs, counted, each_hashable, is_hashable, verify_quorum, validate_quorum_policy,
  submitted,
}

-- A verdict that an organ signed names the organ and has its signature under "signature"; an
-- allowing one counts for the organ where the organ's public key is the one of the key that signed.
pub record SignsFor (engine : Engine) (signer : Signer) : Type 0 where
  pub stores :
      (organ ah verdict pem reason lean_sha ts : String) (r : Fields)
      → signer.sign_verdict organ ah verdict pem reason lean_sha ts ≡ ok r
      → (truthy (get "signature" r) ≡ true) × (get "sig" r ≡ null)
  pub names :
      (organ ah verdict pem reason lean_sha ts : String) (r : Fields)
      → signer.sign_verdict organ ah verdict pem reason lean_sha ts ≡ ok r
      → get "organ" r ≡ str organ
  pub counts :
      (organ ah pem reason lean_sha ts pub_pem : String) (r : Fields) (pubkeys : Dict String String)
      → signer.sign_verdict organ ah "allow" pem reason lean_sha ts ≡ ok r
      → signer.public_pem pem ≡ ok pub_pem
      → lookup organ pubkeys ≡ some pub_pem
      → counts_for engine ah pubkeys organ (verdict_of r) ≡ true

-- What `verify_quorum` reads of a record that `to_dict` wrote is what the record says.
verdict_of-witness_dict :
    (r : Fields)
    → truthy (get "signature" r) ≡ true
    → get "sig" r ≡ null
    → (fs : Fields) × (witness_dict r ≡ obj fs) × (verdict_of fs ≡ verdict_of r)
unfolding witness_dict verdict_of get_or get_field str_ord
verdict_of-witness_dict r s a = (_, refl, rw (s, a, s) refl)

organ_of-witness_dict :
    (r : Fields)
    → (fs : Fields) × (witness_dict r ≡ obj fs) × ((verdict_of fs).organ ≡ get "organ" r)
unfolding witness_dict verdict_of get_or get_field str_ord
organ_of-witness_dict r = (_, refl, refl)

each_hashable-witness_dict :
    (rs : List Fields)
    → each_hashable (verdicts_of (map witness_dict rs)) ≡ all (λ r. is_hashable (get "organ" r)) rs
each_hashable-witness_dict [] = refl
each_hashable-witness_dict (r ∷ rs) =
    let (fs, shape, same) = organ_of-witness_dict r in
    ap (λ w. each_hashable (verdicts_of (w ∷ map witness_dict rs))) shape
    ∙ ap₂ (λ o b. is_hashable o && b) same (each_hashable-witness_dict rs)

module _ (engine : Engine) (hashing : Hashing) (signer : Signer)
    (honest : SignsFor engine signer) where
  -- The verdict on the records that a certificate holds.
  abbrev tallied : String → Dict String String → ℕ → ℕ → List Fields → QuorumVerification
  tallied ah pubkeys threshold n rs =
      counted ah threshold n (checks_of engine ah pubkeys (verdicts_of (map witness_dict rs)))

  -- An organ that can and does sign: it is asked, has a key, does not dissent, and the verifier has
  -- the key that goes with it.
  pub record Votes (organs : List String) (witness_keys verdicts pubkeys : Dict String String)
      (ah reason lean_sha ts organ : String) : Type 0 where
    pub asked : mem organ organs ≡ true
    pub pem : String
    pub keyed : lookup organ witness_keys ≡ some pem
    pub usable : (pem =? "") ≡ false
    pub allows :
        verdict_for hashing signer ah witness_keys verdicts reason lean_sha ts organ ≡ "allow"
    pub pub_pem : String
    pub derived : signer.public_pem pem ≡ ok pub_pem
    pub trusted : lookup organ pubkeys ≡ some pub_pem

  counts-witness_dict :
      (ah reason lean_sha ts organ pem pub_pem why : String) (r : Fields)
      (pubkeys : Dict String String)
      → signer.sign_verdict organ ah "allow" pem why lean_sha ts ≡ ok r
      → signer.public_pem pem ≡ ok pub_pem
      → lookup organ pubkeys ≡ some pub_pem
      → passes (counts_for engine ah pubkeys organ) (witness_dict r) ≡ true
  counts-witness_dict ah reason lean_sha ts organ pem pub_pem why r pubkeys signs derived trusted =
      let (set, unset) = honest.stores organ ah "allow" pem why lean_sha ts r signs in
      let (fs, shape, same) = verdict_of-witness_dict r set unset in
      ap (passes (counts_for engine ah pubkeys organ)) shape
      ∙ ap (counts_for engine ah pubkeys organ) same
      ∙ honest.counts organ ah pem why lean_sha ts pub_pem r pubkeys signs derived trusted

  module _ (witness_keys verdicts pubkeys : Dict String String) (reason lean_sha ts : String) where
    hashable_if_collected :
        (organs : List String) (ah : String) (res : List Fields × Dict String String)
        → collect_all hashing signer ah witness_keys verdicts reason lean_sha ts organs [] []
          ≡ ok res
        → each_hashable (verdicts_of (map witness_dict res.0)) ≡ true
    hashable_if_collected organs ah res e =
        each_hashable-witness_dict res.0
        ∙ collect_each hashing signer ah witness_keys verdicts reason lean_sha ts
            (λ r. is_hashable (get "organ" r))
            (λ organ pem r signs.
              ap is_hashable (honest.names organ ah _ pem _ lean_sha ts r signs))
            organs [] [] res e refl

    counted_if_voted :
        (organs : List String) (ah organ : String) (res : List Fields × Dict String String)
        → collect_all hashing signer ah witness_keys verdicts reason lean_sha ts organs [] []
          ≡ ok res
        → Votes organs witness_keys verdicts pubkeys ah reason lean_sha ts organ
        → mem organ
            (counting_organs (checks_of engine ah pubkeys (verdicts_of (map witness_dict res.0))))
          ≡ true
    counted_if_voted organs ah organ res e v =
        let (r, signs, here) =
          collect_signed hashing signer ah witness_keys verdicts reason lean_sha ts organs [] [] res
            e organ v.pem v.asked v.keyed v.usable in
        let vs = verdicts_of (map witness_dict res.0) in
        mem-counting_organs organ (checks_of engine ah pubkeys vs)
        ∙ any-checks engine ah pubkeys organ vs
        ∙ any-verdicts (counts_for engine ah pubkeys organ) (map witness_dict res.0)
        ∙ any-Memᴰ (passes (counts_for engine ah pubkeys organ)) (witness_dict r)
            (map witness_dict res.0) (Memᴰ-map witness_dict r res.0 here)
            (counts-witness_dict ah reason lean_sha ts organ v.pem v.pub_pem
              (reason_for hashing signer ah witness_keys verdicts reason lean_sha ts organ) r
              pubkeys
              (ap
                  (λ w.
                    signer.sign_verdict organ ah w v.pem
                      (reason_for hashing signer ah witness_keys verdicts reason lean_sha ts organ)
                      lean_sha ts)
                  (sym v.allows)
                ∙ signs)
              v.derived v.trusted)

    enough-counted :
        (organs : List String) (ah : String) (voters : List String) (threshold n : ℕ)
        (res : List Fields × Dict String String)
        → collect_all hashing signer ah witness_keys verdicts reason lean_sha ts organs [] []
          ≡ ok res
        → Distinct voters
        → threshold ≤ length voters
        → ((organ : String)
            → mem organ voters ≡ true
            → Votes organs witness_keys verdicts pubkeys ah reason lean_sha ts organ)
        → (tallied ah pubkeys threshold n res.0).canonical ≡ true
    unfolding counted
    enough-counted organs ah voters threshold n res e different enough votes =
        let below =
          length-Distinct voters
            (counting_organs (checks_of engine ah pubkeys (verdicts_of (map witness_dict res.0))))
            different (λ organ m. counted_if_voted organs ah organ res e (votes organ m)) in
        ground (arith, enough, below)

    -- The certificate is verified as canonical for its own action.
    abbrev Verifies : ℕ → ℕ → QuorumCertificate → Type 0
    Verifies threshold n qc =
        (v : QuorumVerification) × (verify_quorum engine (certificate qc) pubkeys threshold n
          ≡ ok v)
        × (v.canonical ≡ true)
        × (v.action_hash ≡ qc.action_hash)

    verifies :
        (qc : QuorumCertificate)
        → validate_quorum_policy qc.threshold qc.n ≡ true
        → (qc.action_hash =? "") ≡ false
        → each_hashable (verdicts_of (map witness_dict qc.witnesses)) ≡ true
        → (tallied qc.action_hash pubkeys qc.threshold qc.n qc.witnesses).canonical ≡ true
        → Verifies qc.threshold qc.n qc
    unfolding verify_quorum submitted counted
    verifies qc valid named hashable canonical = (
      tallied qc.action_hash pubkeys qc.threshold qc.n qc.witnesses,
      rw valid (
          verify-to_dict engine qc pubkeys named
          ∙ count_witnesses-counted engine qc.action_hash pubkeys qc.threshold qc.n
              (map witness_dict qc.witnesses) hashable),
      canonical,
      refl,
    )

    -- A certificate that was collected from organs of which at least `threshold` different ones
    -- voted is verified as canonical for its own action, by whoever holds those organs' public
    -- keys, where the action has a hash and the engine counts the verdicts that it signs.
    pub propose-verify :
        (action : Action) (organs : List String) (threshold n : ℕ) (qc : QuorumCertificate)
        (voters : List String)
        → propose_action hashing signer action witness_keys organs threshold n verdicts reason
            lean_sha ts
          ≡ ok qc
        → (qc.action_hash =? "") ≡ false
        → Distinct voters
        → threshold ≤ length voters
        → ((organ : String)
            → mem organ voters ≡ true
            → Votes organs witness_keys verdicts pubkeys qc.action_hash reason lean_sha ts organ)
        → Verifies threshold n qc
    unfolding propose_action
    propose-verify action organs threshold n qc voters e =
        elim (Bool-cases (validate_quorum_policy threshold n)) [
          | inr bad ↦ absurd (cc (rw bad at e))
          | inl good ↦
              let (ah, hashed, e₁) =
                bind-ok (action_hash hashing signer action) _ qc (rw good at e) in
              let (res, collected, e₂) =
                bind-ok
                  (collect_all hashing signer ah witness_keys verdicts reason lean_sha ts organs []
                    [])
                  _ qc e₁ in
              subst
                (λ q.
                  (q.action_hash =? "") ≡ false
                  → Distinct voters
                  → threshold ≤ length voters
                  → ((organ : String)
                      → mem organ voters ≡ true
                      → Votes organs witness_keys verdicts pubkeys q.action_hash reason lean_sha ts
                          organ)
                  → Verifies threshold n q)
                (ok_inj e₂)
                (λ named different enough votes.
                  verifies _ good named (hashable_if_collected organs ah res collected) (
                    enough-counted organs ah voters threshold n res collected different enough
                      votes))
        ]
