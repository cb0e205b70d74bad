-- ===== src/Node/Trust.antt =====
-- Whose operations a node takes as AUTHORIZED (node.py, `_classify` and `apply_remote`).
use szl_mesh.Common.Dict.{lookup}
use szl_mesh.Common.Json.{Json, Fields, Hashing, null, bool, int, negative, float, str, arr, obj}
use szl_mesh.Common.Result.{ok, Result-cases, ok_inj}
use szl_mesh.Common.{ℕ, Option, none, some, ◌≡◌, refl, ap, ◌∙◌, inl, inr}
use szl_mesh.Crdt.{Op, authorized, observed, raw_bytes, add_op}
use szl_mesh.Enrollment.{FormationGateway, pubkey_registry}
use szl_mesh.Node.{
  MeshNode, Applied, Gateways, the_gateway, registry_at, revoked_at, classify, apply_remote,
}
use szl_mesh.Receipts.Enrolled.{SignedBy, authorized-SignedBy}
use szl_mesh.Receipts.Gate.{observed_is_not}
use szl_mesh.Receipts.Validate.{GateResult, validate_receipt}
use szl_mesh.Receipts.{Crypto}

module _ (hashing : Hashing) (crypto : Crypto) (gateways : Gateways) (self : MeshNode crypto)
    (op : Op) where
  -- The envelope is a receipt that an enrolled key signed for this very operation, and the node
  -- knows the gateway that enrolled it.
  pub record IsTrusted (envelope : Json) : Type 0 where
    pub gateway : FormationGateway
    pub known : the_gateway hashing crypto gateways self ≡ some gateway
    pub receipt : Fields
    pub is_receipt : envelope ≡ obj receipt
    pub signed :
        SignedBy hashing crypto receipt
          (raw_bytes hashing op)
          gateway.revoked
          (pubkey_registry gateway)

  at_gateway :
      (receipt : Fields) (found : Option FormationGateway)
      → the_gateway hashing crypto gateways self ≡ found
      → SignedBy hashing crypto receipt
          (raw_bytes hashing op)
          (revoked_at hashing crypto found)
          (registry_at hashing crypto found)
      → IsTrusted (obj receipt)
  unfolding lookup
  at_gateway receipt none e s = absurd (cc s.enrolled)
  at_gateway receipt (some gateway) e s = record {
    gateway = gateway;
    known = e;
    receipt = receipt;
    is_receipt = refl;
    signed = s;
  }

  classify-IsTrusted :
      (envelope : Json) (now_utc : ℕ) (gate : GateResult)
      → classify hashing crypto gateways self op envelope now_utc ≡ ok gate
      → gate.track ≡ authorized
      → IsTrusted envelope
  unfolding classify validate_receipt
  classify-IsTrusted null now_utc gate e t =
      absurd (observed_is_not (ap (λ (g : GateResult). g.track) (ok_inj e) ∙ t))
  classify-IsTrusted (bool b) now_utc gate e t =
      absurd (observed_is_not (ap (λ (g : GateResult). g.track) (ok_inj e) ∙ t))
  classify-IsTrusted (int n) now_utc gate e t =
      absurd (observed_is_not (ap (λ (g : GateResult). g.track) (ok_inj e) ∙ t))
  classify-IsTrusted (negative n) now_utc gate e t =
      absurd (observed_is_not (ap (λ (g : GateResult). g.track) (ok_inj e) ∙ t))
  classify-IsTrusted (float s) now_utc gate e t =
      absurd (observed_is_not (ap (λ (g : GateResult). g.track) (ok_inj e) ∙ t))
  classify-IsTrusted (str s) now_utc gate e t =
      absurd (observed_is_not (ap (λ (g : GateResult). g.track) (ok_inj e) ∙ t))
  classify-IsTrusted (arr xs) now_utc gate e t =
      absurd (observed_is_not (ap (λ (g : GateResult). g.track) (ok_inj e) ∙ t))
  classify-IsTrusted (obj receipt) now_utc gate e t =
      let found = the_gateway hashing crypto gateways self in
      at_gateway receipt found refl (
        authorized-SignedBy hashing crypto receipt (raw_bytes hashing op) now_utc
          (revoked_at hashing crypto found) 5 (registry_at hashing crypto found) gate e t)

  -- A peer's operation becomes AUTHORIZED at a node only with a receipt for this very operation,
  -- signed by the key that the node's own formation gateway has enrolled, and not revoked, for the
  -- node that the receipt names; a node without a gateway authorizes nothing.
  pub apply_remote-IsTrusted :
      (envelope : Json) (now_utc : ℕ) (a : Applied)
      → (apply_remote hashing crypto gateways self op envelope now_utc).1 ≡ ok a
      → a.track ≡ authorized
      → IsTrusted envelope
  unfolding apply_remote
  apply_remote-IsTrusted envelope now_utc a e t =
      elim (Result-cases (add_op hashing (record op { track = observed }) self.doc).0) [
        | inr (x, raised) ↦ absurd (cc (rw (raised, apply_remote) at e))
        | inl (new, added) ↦
            elim (Result-cases (classify hashing crypto gateways self op envelope now_utc)) [
              | inr (x, raised) ↦ absurd (cc (rw (added, raised, apply_remote) at e))
              | inl (gate, classified) ↦ classify-IsTrusted envelope now_utc gate classified (
                  ap (λ (v : Applied). v.track) (ok_inj (rw (added, classified, apply_remote) at e))
                  ∙ t)
            ]
      ]
