-- ===== src/Enrollment/Run.antt =====
-- Any run of calls on a gateway (enrollment.py, `FormationGateway`).
use szl_mesh.Common.Dict.{Dict, lookup, IsMap, put-IsMap, All-put, All-lookup}
use szl_mesh.Common.Json.{Bytes, Hashing}
use szl_mesh.Common.Members.{mem}
use szl_mesh.Common.Order.{◌=?◌, str_ord}
use szl_mesh.Common.Result.{ok, raise}
use szl_mesh.Common.{
  ℕ, false, String, some, List, [], ◌∷◌, ◌≡◌, refl, sym, ap, ◌∙◌, arith, All, Bool-cases, inl, inr,
  subst,
}
use szl_mesh.Enrollment.Gateway.{Outcome, enroll}
use szl_mesh.Enrollment.{
  Platform, Request, CertEntry, FormationGateway, gateway, registry_of, pubkey_registry, revoke,
  or_empty,
}
use szl_mesh.Receipts.{Crypto}
use szl_mesh.Enrollment.Store.{IsKeyOf, Bound, IsStore, stored_key}
use szl_mesh.Enrollment.Enroll.{enroll-Stepped}

module _ (hashing : Hashing) (crypto : Crypto) (platform : Platform) where
  -- One call: an enrollment, which may raise, or a revocation.
  pub data Call : Type 0 where
    enrolls : Request → ℕ → Call
    revokes : String → Call

  abbrev pub after_call : FormationGateway → Call → FormationGateway
  after_call self (revokes node_id) = revoke self node_id
  after_call self (enrolls req now_utc) = elim (enroll hashing crypto platform self req now_utc) [
    | ok o ↦ o.0
    | raise e ↦ self
  ]

  unfoldable pub run : FormationGateway → List Call → FormationGateway
  run self [] = self
  run self (c ∷ cs) = run (after_call self c) cs

  stored_key-IsStore :
      (self : FormationGateway) (node_id : String) (der : Bytes) (now_utc : ℕ)
      → IsStore hashing crypto platform self
      → IsKeyOf hashing crypto platform node_id der
      → IsStore hashing crypto platform
          (stored_key hashing crypto platform self node_id der now_utc)
  stored_key-IsStore self node_id der now_utc h owned = (
    put-IsMap node_id _ self.cert_store h.0,
    All-put (Bound hashing crypto platform) node_id _ self.cert_store h.1 (refl, owned),
  )

  revoke_store :
      (self : FormationGateway) (node_id : String)
      → (revoke self node_id).cert_store ≡ self.cert_store
  unfolding revoke
  revoke_store self node_id = elim (Bool-cases (mem node_id self.revoked)) [
    | inl e ↦ rw (e, revoke) refl
    | inr e ↦ rw (e, revoke) refl
  ]

  enroll-IsStore :
      (self : FormationGateway) (req : Request) (now_utc : ℕ) (o : Outcome hashing crypto platform)
      → enroll hashing crypto platform self req now_utc ≡ ok o
      → IsStore hashing crypto platform self
      → IsStore hashing crypto platform o.0
  enroll-IsStore self req now_utc o e h =
      elim (enroll-Stepped hashing crypto platform self req now_utc o e) [
        | inl (refused, same) ↦ subst (IsStore hashing crypto platform) (sym same) h
        | inr (success, enrolled) ↦
            subst (IsStore hashing crypto platform) (sym enrolled.stored)
              (stored_key-IsStore self (or_empty req.node_id) enrolled.der now_utc h enrolled.owned)
      ]

  after_call-IsStore :
      (self : FormationGateway) (c : Call)
      → IsStore hashing crypto platform self
      → IsStore hashing crypto platform (after_call self c)
  after_call-IsStore self (revokes node_id) h =
      subst (λ store. IsMap store × All (Bound hashing crypto platform) store)
        (sym (revoke_store self node_id)) h
  after_call-IsStore self (enrolls req now_utc) h =
      elim (enroll hashing crypto platform self req now_utc)
          as (λ x.
            enroll hashing crypto platform self req now_utc ≡ x
            → IsStore hashing crypto platform (elim x [ ok o ↦ o.0 | raise e ↦ self ])) [
              | ok o ↦ λ e. enroll-IsStore self req now_utc o e h
              | raise x ↦ λ e. h
            ]
        refl

  -- Whatever is called on a gateway: if each name in the store has one entry, and its key is a P-256
  -- key whose digest is that name, this is so afterwards too.
  pub run-IsStore :
      (self : FormationGateway) (cs : List Call)
      → IsStore hashing crypto platform self
      → IsStore hashing crypto platform (run self cs)
  unfolding run
  run-IsStore self [] h = h
  run-IsStore self (c ∷ cs) h = run-IsStore (after_call self c) cs (after_call-IsStore self c h)

  lookup-registry_of :
      (ids : List String) (store : Dict String CertEntry) (node_id : String) (der : Bytes)
      → IsMap store
      → lookup node_id (registry_of ids store) ≡ some der
      → (mem node_id ids ≡ false)
        × (e : CertEntry) × (lookup node_id store ≡ some e)
        × (der ≡ e.public_key_der)
  unfolding lookup
  lookup-registry_of ids [] node_id der h found = absurd (cc found)
  lookup-registry_of ids ((n, e) ∷ store) node_id der h found = elim (Bool-cases (mem n ids)) [
    | inl gone ↦
        let (live, f, at_f, same) =
          lookup-registry_of ids store node_id der h.1 (rw gone at found) in
        (live, f, ground (arith, at_f, h.0, str_ord.same n node_id), same)
    | inr live ↦ elim (Bool-cases (n =? node_id)) [
      | inl here ↦ (
        ap (λ x. mem x ids) (sym (str_ord.same n node_id (ground (arith, here)))) ∙ live,
        e,
        rw here refl,
        some_inj (sym (rw (live, here) at found)),
      )
      | inr other ↦
          let (live', f, at_f, same) =
            lookup-registry_of ids store node_id der h.1 (rw (live, other) at found) in
          (live', f, rw other at_f, same)
    ]
  ]
    where
      some_inj : {a b : Bytes} → some a ≡ some b → a ≡ b
      some_inj e = cc e

  -- The registry that receipts are checked against, after any run of calls on a new gateway: a key
  -- in it is a P-256 key whose digest is the node's name, and the node is not revoked.
  pub registry-IsKeyOf :
      (formation_id : String) (formation_key : Bytes) (skew : ℕ) (cs : List Call) (node_id : String)
      (der : Bytes)
      → lookup node_id (pubkey_registry (run (gateway formation_id formation_key skew) cs))
        ≡ some der
      → IsKeyOf hashing crypto platform node_id der
        × (mem node_id (run (gateway formation_id formation_key skew) cs).revoked ≡ false)
  unfolding pubkey_registry
  registry-IsKeyOf formation_id formation_key skew cs node_id der found =
      let self = run (gateway formation_id formation_key skew) cs in
      let h = run-IsStore (gateway formation_id formation_key skew) cs (tt, tt) in
      let (live, e, at_e, same) =
        lookup-registry_of self.revoked self.cert_store node_id der h.0 found in
      (
        subst (IsKeyOf hashing crypto platform node_id) (sym same)
            (All-lookup (Bound hashing crypto platform) node_id e self.cert_store h.1 at_e).1,
        live,
      )
