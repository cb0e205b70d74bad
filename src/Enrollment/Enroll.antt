-- ===== src/Enrollment/Enroll.antt =====
-- The outcome of an enrollment (enrollment.py, `FormationGateway.enroll`).
use szl_mesh.Common.Dict.{has}
use szl_mesh.Common.Json.{Hashing}
use szl_mesh.Common.Members.{mem}
use szl_mesh.Common.Order.{◌=?◌, str_ord}
use szl_mesh.Common.Result.{ok, ok_inj}
use szl_mesh.Common.{
  ℕ, true, false, String, Option, none, some, ◌≡◌, refl, sym, ap₂, ◌∙◌, arith, Bool-cases,
  Option-cases, inl, inr, subst,
}
use szl_mesh.Enrollment.Gateway.{
  Outcome, rejects, enroll_key, enroll_claims, enroll, compute_formation_key_proof, timestamp_of,
}
use szl_mesh.Enrollment.{
  Platform, Request, FormationGateway, Failure, wrong_doctrine, wrong_kernel, wrong_slsa, revoked,
  section_889_not_confirmed, section_889_violation, duplicate_node_id, bad_formation_proof,
  bad_timestamp, timestamp_out_of_window, or_empty, claim_of, attestation_of, is_given, confirmed,
  is_covered, is_ascii,
}
use szl_mesh.Receipts.Validate.{out_of_window}
use szl_mesh.Receipts.{Crypto, doctrine_version, kernel_commit, slsa_level}
use szl_mesh.Enrollment.Store.{Stepped, enroll_key-Kept}

module _ (hashing : Hashing) (crypto : Crypto) (platform : Platform) where
  rejected-Stepped :
      (self : FormationGateway) (req : Request) (now_utc : ℕ) (reason : Failure)
      (o : Outcome hashing crypto platform)
      → o ≡ rejects hashing crypto platform self (or_empty req.node_id) reason
      → Stepped hashing crypto platform self req now_utc o
  rejected-Stepped self req now_utc reason o e =
      subst (Stepped hashing crypto platform self req now_utc) (sym e) (inl (refl, refl))

  module _ (self : FormationGateway) (req : Request) (now_utc : ℕ) where
    abbrev Proven : Type 0
    Proven =
        or_empty req.formation_key_proof
        ≡ compute_formation_key_proof hashing crypto platform self.formation_key
            (or_empty req.node_id) (or_empty req.timestamp_utc)
            (or_empty (claim_of req.doctrine_claim).doctrine_version)
            (or_empty (claim_of req.doctrine_claim).kernel_commit)

    given_lem : (t : String) (o : Option String) → is_given t o ≡ true → or_empty o ≡ t
    given_lem t none e = cc
    given_lem t (some u) e = ground (arith, str_ord.same u t, e)

    claims-key :
        is_given doctrine_version (claim_of req.doctrine_claim).doctrine_version ≡ true
        → is_given kernel_commit (claim_of req.doctrine_claim).kernel_commit ≡ true
        → is_given slsa_level (claim_of req.doctrine_claim).slsa_level ≡ true
        → mem (or_empty req.node_id) self.revoked ≡ false
        → confirmed (attestation_of req.section_889_attestation).vendor_exclusion_confirmed ≡ true
        → is_covered (
            platform.strip_lower
              (or_empty (attestation_of req.section_889_attestation).hardware_vendor))
          ≡ false
        → has (or_empty req.node_id) self.cert_store ≡ false
        → enroll_claims hashing crypto platform self req (or_empty req.node_id) now_utc
          ≡ enroll_key hashing crypto platform self
              (or_empty req.node_id)
              req.public_key_der
              now_utc
    unfolding enroll_claims
    claims-key doctrine kernel slsa trusted excluded uncovered fresh =
        rw (doctrine, kernel, slsa, trusted, excluded, uncovered, fresh, enroll_claims) refl

    enroll_claims-Stepped :
        (ts : ℕ)
        → Proven
        → timestamp_of hashing crypto platform req.timestamp_utc ≡ some ts
        → out_of_window now_utc ts self.skew ≡ false
        → Stepped hashing crypto platform self req now_utc
            (enroll_claims hashing crypto platform self req (or_empty req.node_id) now_utc)
    unfolding enroll_claims
    enroll_claims-Stepped ts proven timed within =
        let node_id = or_empty req.node_id in
        let claim = claim_of req.doctrine_claim in
        let att = attestation_of req.section_889_attestation in
        let vendor = platform.strip_lower (or_empty att.hardware_vendor) in
        let no = λ (reason : Failure).
          rejected-Stepped self req now_utc reason
            (enroll_claims hashing crypto platform self req node_id now_utc) in
        elim (Bool-cases (is_given doctrine_version claim.doctrine_version)) [
          | inr other ↦ no wrong_doctrine (rw (other, enroll_claims) refl)
          | inl doctrine ↦ elim (Bool-cases (is_given kernel_commit claim.kernel_commit)) [
            | inr other ↦ no wrong_kernel (rw (doctrine, other, enroll_claims) refl)
            | inl kernel ↦ elim (Bool-cases (is_given slsa_level claim.slsa_level)) [
              | inr other ↦ no wrong_slsa (rw (doctrine, kernel, other, enroll_claims) refl)
              | inl slsa ↦ elim (Bool-cases (mem node_id self.revoked)) [
                | inl gone ↦ no revoked (rw (doctrine, kernel, slsa, gone, enroll_claims) refl)
                | inr trusted ↦ elim (Bool-cases (confirmed att.vendor_exclusion_confirmed)) [
                  | inr other ↦
                      no section_889_not_confirmed
                        (rw (doctrine, kernel, slsa, trusted, other, enroll_claims) refl)
                  | inl excluded ↦ elim (Bool-cases (is_covered vendor)) [
                    | inl covered ↦ no section_889_violation (
                        rw (doctrine, kernel, slsa, trusted, excluded, covered, enroll_claims) refl)
                    | inr uncovered ↦ elim (Bool-cases (has node_id self.cert_store)) [
                      | inl taken ↦ no duplicate_node_id (
                          rw
                            (
                              doctrine, kernel, slsa, trusted, excluded, uncovered, taken,
                              enroll_claims,
                            )
                            refl)
                      | inr fresh ↦
                          subst (Stepped hashing crypto platform self req now_utc)
                            (sym (claims-key doctrine kernel slsa trusted excluded uncovered fresh))
                            (elim (enroll_key-Kept hashing crypto platform self node_id
                              req.public_key_der now_utc) [
                                | inl refused ↦ inl refused
                                | inr (success, der, presented, owned, stored) ↦ inr (
                                  success,
                                  record {
                                    der = der;
                                    presented = presented;
                                    owned = owned;
                                    fresh = fresh;
                                    stored = stored;
                                    proven =
                                        proven
                                        ∙ ap₂
                                            (compute_formation_key_proof hashing crypto platform
                                              self.formation_key node_id
                                              (or_empty req.timestamp_utc))
                                            (given_lem doctrine_version claim.doctrine_version
                                              doctrine)
                                            (given_lem kernel_commit claim.kernel_commit kernel);
                                    ts = ts;
                                    timed = timed;
                                    within = within;
                                    slsa = slsa;
                                    trusted = trusted;
                                    excluded = excluded;
                                    uncovered = uncovered;
                                  },
                                )
                              ])
                    ]
                  ]
                ]
              ]
            ]
          ]
        ]

    -- An enrollment that returns either refuses, and leaves the gateway as it was, or accepts. It
    -- accepts only a request whose proof is made with the formation's key over the locked doctrine
    -- and kernel, in time, from a node that is neither revoked nor enrolled nor of a covered
    -- vendor, and that presents the P-256 key whose digest is its name; that key is what it stores.
    pub enroll-Stepped :
        (o : Outcome hashing crypto platform)
        → enroll hashing crypto platform self req now_utc ≡ ok o
        → Stepped hashing crypto platform self req now_utc o
    unfolding enroll
    enroll-Stepped o e =
        let proof = or_empty req.formation_key_proof in
        let node_id = or_empty req.node_id in
        let expected =
          compute_formation_key_proof hashing crypto platform self.formation_key node_id
            (or_empty req.timestamp_utc) (or_empty (claim_of req.doctrine_claim).doctrine_version)
            (or_empty (claim_of req.doctrine_claim).kernel_commit) in
        let no =
          λ (reason : Failure)
              (x : ok (rejects hashing crypto platform self node_id reason) ≡ ok o).
            rejected-Stepped self req now_utc reason o (sym (ok_inj x)) in
        elim (Bool-cases (is_ascii proof)) [
          | inr other ↦ absurd (cc (rw (other, enroll) at e))
          | inl plain ↦ elim (Bool-cases (proof =? expected)) [
            | inr other ↦ no bad_formation_proof (rw (plain, other, enroll) at e)
            | inl proven ↦
                elim (Option-cases (timestamp_of hashing crypto platform req.timestamp_utc)) [
                  | inl untimed ↦ no bad_timestamp (rw (plain, proven, untimed, enroll) at e)
                  | inr (ts, timed) ↦ elim (Bool-cases (out_of_window now_utc ts self.skew)) [
                    | inl stale ↦
                        no timestamp_out_of_window (rw (plain, proven, timed, stale, enroll) at e)
                    | inr within ↦
                        subst (Stepped hashing crypto platform self req now_utc)
                          (ok_inj (rw (plain, proven, timed, within, enroll) at e))
                          (enroll_claims-Stepped ts
                            (str_ord.same proof expected (ground (arith, proven))) timed within)
                  ]
                ]
          ]
        ]
