-- ===== src/Enrollment/Store.antt =====
-- The gateway's store and its registry (enrollment.py, `FormationGateway`): what an enrollment leaves
-- in it, over any run of calls.
use szl_mesh.Common.Dict.{put, has, IsMap}
use szl_mesh.Common.Json.{Bytes, Hashing}
use szl_mesh.Common.Members.{mem}
use szl_mesh.Common.Order.{◌=?◌, str_ord}
use szl_mesh.Common.Result.{ok, Result-cases}
use szl_mesh.Common.{
  ℕ, true, false, String, Option, none, some, ◌≡◌, refl, sym, ap, arith, All, Bool-cases, inl, inr,
  ◌⊎◌, subst,
}
use szl_mesh.Enrollment.Gateway.{
  Outcome, rejects, enroll_key, compute_formation_key_proof, timestamp_of,
}
use szl_mesh.Enrollment.{
  Platform, Request, CertEntry, FormationGateway, Failure, invalid_public_key, node_id_key_mismatch,
  or_empty, claim_of, attestation_of, is_given, confirmed, is_covered,
}
use szl_mesh.Receipts.Enrolled.{same_bytes_lem}
use szl_mesh.Receipts.Validate.{out_of_window}
use szl_mesh.Receipts.{
  Crypto, same_bytes, node_id_from_pubkey, doctrine_version, kernel_commit, slsa_level,
}

module _ (hashing : Hashing) (crypto : Crypto) (platform : Platform) where
  -- The bytes are those of a P-256 key whose digest is the name.
  pub record IsKeyOf (node_id : String) (der : Bytes) : Type 0 where
    pub key : crypto.PublicKey
    pub loaded : crypto.load_der_public_key der ≡ ok key
    pub curve : crypto.is_p256 key ≡ true
    pub canonical : der ≡ crypto.public_bytes key
    pub named : node_id ≡ node_id_from_pubkey hashing crypto key

  abbrev pub Bound : String × CertEntry → Type 0
  Bound ne = (ne.1.node_id ≡ ne.0) × IsKeyOf ne.0 ne.1.public_key_der

  -- Every entry is under its node's name, with that node's key, and no name has two.
  abbrev pub IsStore : FormationGateway → Type 0
  IsStore self = IsMap self.cert_store × All Bound self.cert_store

  -- The gateway with the node's entry written.
  abbrev pub stored_key : FormationGateway → String → Bytes → ℕ → FormationGateway
  stored_key self node_id der now_utc = record self {
    cert_store =
        put node_id
          (record {
            node_id = node_id;
            public_key_der = der;
            enrolled_at = platform.strftime now_utc;
            doctrine_version = doctrine_version;
            kernel_commit = kernel_commit;
          })
          self.cert_store;
  }

  -- What a successful enrollment did.
  pub record Enrolled (self : FormationGateway) (req : Request) (now_utc : ℕ)
      (after : FormationGateway) : Type 0 where
    pub der : Bytes
    pub presented : req.public_key_der ≡ some der
    pub owned : IsKeyOf (or_empty req.node_id) der
    pub fresh : has (or_empty req.node_id) self.cert_store ≡ false
    pub stored : after ≡ stored_key self (or_empty req.node_id) der now_utc
    pub proven :
        or_empty req.formation_key_proof
        ≡ compute_formation_key_proof hashing crypto platform self.formation_key
            (or_empty req.node_id)
            (or_empty req.timestamp_utc)
            doctrine_version
            kernel_commit
    pub ts : ℕ
    pub timed : timestamp_of hashing crypto platform req.timestamp_utc ≡ some ts
    pub within : out_of_window now_utc ts self.skew ≡ false
    pub slsa : is_given slsa_level (claim_of req.doctrine_claim).slsa_level ≡ true
    pub trusted : mem (or_empty req.node_id) self.revoked ≡ false
    pub excluded :
        confirmed (attestation_of req.section_889_attestation).vendor_exclusion_confirmed ≡ true
    pub uncovered :
        is_covered (
          platform.strip_lower
            (or_empty (attestation_of req.section_889_attestation).hardware_vendor))
        ≡ false

  -- A refused call leaves the gateway as it is; an accepted one passed every step.
  abbrev pub Stepped : FormationGateway → Request → ℕ → Outcome hashing crypto platform → Type 0
  Stepped self req now_utc o =
      ((o.1.success ≡ false) × (o.0 ≡ self))
      ⊎ ((o.1.success ≡ true) × Enrolled self req now_utc o.0)

  abbrev pub Kept :
      FormationGateway → String → Option Bytes → ℕ → Outcome hashing crypto platform → Type 0
  Kept self node_id presented now_utc o =
      ((o.1.success ≡ false) × (o.0 ≡ self))
      ⊎ ((o.1.success ≡ true)
          × (der : Bytes) × (presented ≡ some der)
          × IsKeyOf node_id der
          × (o.0 ≡ stored_key self node_id der now_utc))

  pub rejected-Kept :
      (self : FormationGateway) (node_id : String) (presented : Option Bytes) (now_utc : ℕ)
      (reason : Failure) (o : Outcome hashing crypto platform)
      → o ≡ rejects hashing crypto platform self node_id reason
      → Kept self node_id presented now_utc o
  rejected-Kept self node_id presented now_utc reason o e =
      subst (Kept self node_id presented now_utc) (sym e) (inl (refl, refl))

  pub enroll_key-Kept :
      (self : FormationGateway) (node_id : String) (presented : Option Bytes) (now_utc : ℕ)
      → Kept self node_id presented now_utc
          (enroll_key hashing crypto platform self node_id presented now_utc)
  unfolding enroll_key
  enroll_key-Kept self node_id none now_utc = inl (refl, refl)
  enroll_key-Kept self node_id (some der) now_utc =
      let no = λ (reason : Failure).
        rejected-Kept self node_id (some der) now_utc reason
          (enroll_key hashing crypto platform self node_id (some der) now_utc) in
      elim (Result-cases (crypto.load_der_public_key der)) [
        | inr (e, refused) ↦ no invalid_public_key (rw (refused, enroll_key) refl)
        | inl (key, loaded) ↦ elim (Bool-cases (crypto.is_p256 key)) [
          | inr other ↦ no invalid_public_key (rw (loaded, other, enroll_key) refl)
          | inl curve ↦ elim (Bool-cases (same_bytes der (crypto.public_bytes key))) [
            | inr other ↦ no invalid_public_key (rw (loaded, curve, other, enroll_key) refl)
            | inl canonical ↦
                elim (Bool-cases (node_id =? node_id_from_pubkey hashing crypto key)) [
                  | inr other ↦
                      no node_id_key_mismatch
                        (rw (loaded, curve, canonical, other, enroll_key) refl)
                  | inl named ↦
                      let der_is = same_bytes_lem der (crypto.public_bytes key) canonical in
                      subst (λ o. Kept self node_id (some der) now_utc o)
                        (sym (accepted key loaded curve canonical named))
                        (inr (
                          refl,
                          der,
                          refl,
                          record {
                            key = key;
                            loaded = loaded;
                            curve = curve;
                            canonical = der_is;
                            named =
                                str_ord.same node_id (node_id_from_pubkey hashing crypto key)
                                  (ground (arith, named));
                          },
                          ap (λ b. stored_key self node_id b now_utc) (sym der_is),
                        ))
                ]
          ]
        ]
      ]
    where
      accepted :
          (key : crypto.PublicKey)
          → crypto.load_der_public_key der ≡ ok key
          → crypto.is_p256 key ≡ true
          → same_bytes der (crypto.public_bytes key) ≡ true
          → (node_id =? node_id_from_pubkey hashing crypto key) ≡ true
          → enroll_key hashing crypto platform self node_id (some der) now_utc ≡ (
            stored_key self node_id (crypto.public_bytes key) now_utc,
            record {
              success = true;
              node_id = node_id;
              failure_reason = none;
              enrolled_at = some (platform.strftime now_utc);
            },
          )
      accepted key loaded curve canonical named =
          rw (loaded, curve, canonical, named, enroll_key) refl
