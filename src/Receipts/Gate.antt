-- ===== src/Receipts/Gate.antt =====
-- When the receipt gate authorizes (receipts.py, `validate_receipt`).
use szl_mesh.Common.Dict.{Dict}
use szl_mesh.Common.Json.{Json, Fields, Bytes, Hashing, obj}
use szl_mesh.Common.Order.{◌=?◌, str_ord}
use szl_mesh.Common.Result.{Result, ok, raise, bind-ok, ok_inj}
use szl_mesh.Common.Truth.{get, is_text, as_fields_lem}
use szl_mesh.Common.{
  ℕ, true, false, String, Option, some, List, ◌≡◌, ◌≢◌, ◌↔◌, refl, ap, ◌∙◌, Option-cases,
  Bool-cases, inl, inr,
}
use szl_mesh.Crdt.{authorized, observed}
use szl_mesh.Receipts.Validate.{
  GateResult, out_of_window, is_enrolled, is_revoked, has_vendors, vendors_of, timestamp_of,
  gate_change, gate_signer, validate_receipt, statement_of, observes,
}
use szl_mesh.Receipts.Verify.{decode_statement, verify_receipt_signature}
use szl_mesh.Receipts.{Crypto, ReceiptStatus, payload_type, doctrine_version, kernel_commit, valid}

statement_of-ok : (o : Result Json) (stmt : Fields) → statement_of o ≡ some stmt → o ≡ ok (obj stmt)
statement_of-ok (ok j) stmt e = ap ok (as_fields_lem j stmt e)
statement_of-ok (raise x) stmt e = cc

pub observed_is_not : observed ≢ authorized
unfolding str_ord
observed_is_not = λ e. cc (ap (λ s. s =? authorized) e)

module _ (hashing : Hashing) (crypto : Crypto) where
  -- Everything that the gate asks of a receipt for a change.
  pub record IsAuthorized (receipt : Fields) (change : Bytes) (now_utc : ℕ)
      (revoked_node_ids : List String) (skew : ℕ) (registry : Option (Dict String Bytes))
      : Type 0 where
    pub typed : is_text payload_type (get "payloadType" receipt) ≡ true
    pub stmt : Fields
    pub decoded : decode_statement hashing crypto receipt ≡ ok (obj stmt)
    pub doctrine : is_text doctrine_version (get "doctrine_version" stmt) ≡ true
    pub kernel : is_text kernel_commit (get "kernel_commit" stmt) ≡ true
    pub vendors : has_vendors (vendors_of (get "policy_context" stmt)) ≡ true
    pub verified : verify_receipt_signature hashing crypto (obj receipt) ≡ ok true
    pub enrolled : is_enrolled hashing crypto registry receipt (get "node_id" stmt) ≡ ok true
    pub trusted : is_revoked revoked_node_ids (get "node_id" stmt) ≡ false
    pub bound : is_text (hashing.sha256 change) (get "change_hash" stmt) ≡ true
    pub ts : ℕ
    pub timed : timestamp_of hashing crypto (get "timestamp_utc" stmt) ≡ some ts
    pub fresh : out_of_window now_utc ts skew ≡ false

  module _ (receipt : Fields) (change : Bytes) (now_utc : ℕ) (revoked_node_ids : List String)
      (skew : ℕ) (registry : Option (Dict String Bytes)) where
    observes_not :
        (status : ReceiptStatus) (stmt : Option Fields) (r : GateResult)
        → observes status stmt ≡ ok r
        → r.track ≡ authorized
        → ⊥
    observes_not status stmt r e t =
        observed_is_not (ap (λ (x : GateResult). x.track) (ok_inj e) ∙ t)

    abbrev Changed : Fields → Type 0
    Changed stmt =
        (is_revoked revoked_node_ids (get "node_id" stmt) ≡ false)
        × (is_text (hashing.sha256 change) (get "change_hash" stmt) ≡ true)
        × (ts : ℕ) × (timestamp_of hashing crypto (get "timestamp_utc" stmt) ≡ some ts)
        × (out_of_window now_utc ts skew ≡ false)

    gate_change-Changed :
        (stmt : Fields) (r : GateResult)
        → gate_change hashing crypto stmt change now_utc revoked_node_ids skew ≡ ok r
        → r.track ≡ authorized
        → Changed stmt
    unfolding gate_change
    gate_change-Changed stmt r e t =
        elim (Bool-cases (is_revoked revoked_node_ids (get "node_id" stmt))) [
          | inl revoked ↦ absurd (observes_not _ _ r (rw (revoked, gate_change) at e) t)
          | inr trusted ↦
              elim (Bool-cases (is_text (hashing.sha256 change) (get "change_hash" stmt))) [
                | inr other ↦ absurd (observes_not _ _ r (rw (trusted, other, gate_change) at e) t)
                | inl bound ↦
                    elim (Option-cases (timestamp_of hashing crypto (get "timestamp_utc" stmt))) [
                      | inl untimed ↦
                          absurd
                            (observes_not _ _ r (rw (trusted, bound, untimed, gate_change) at e) t)
                      | inr (ts, timed) ↦ elim (Bool-cases (out_of_window now_utc ts skew)) [
                        | inl stale ↦ absurd (
                            observes_not _ _ r (rw (trusted, bound, timed, stale, gate_change) at e)
                              t)
                        | inr fresh ↦ (trusted, bound, ts, timed, fresh)
                      ]
                    ]
              ]
        ]

    abbrev Signed : Fields → Type 0
    Signed stmt =
        (verify_receipt_signature hashing crypto (obj receipt) ≡ ok true)
        × (is_enrolled hashing crypto registry receipt (get "node_id" stmt) ≡ ok true)
        × Changed stmt

    gate_signer-Signed :
        (stmt : Fields) (r : GateResult)
        → gate_signer hashing crypto receipt stmt change now_utc revoked_node_ids skew registry
          ≡ ok r
        → r.track ≡ authorized
        → Signed stmt
    unfolding gate_signer
    gate_signer-Signed stmt r e t =
        let (verified, holds, e₁) =
          bind-ok (verify_receipt_signature hashing crypto (obj receipt)) _ r e in
        elim (Bool-cases verified) [
          | inr bad ↦ absurd (observes_not _ _ r (rw bad at e₁) t)
          | inl good ↦
              let (enrolled, known, e₂) =
                bind-ok (is_enrolled hashing crypto registry receipt (get "node_id" stmt)) _ r
                  (rw good at e₁) in
              elim (Bool-cases enrolled) [
                | inr bad ↦ absurd (observes_not _ _ r (rw bad at e₂) t)
                | inl listed ↦ (
                  holds ∙ ap ok good,
                  known ∙ ap ok listed,
                  gate_change-Changed stmt r (rw listed at e₂) t,
                )
              ]
        ]

    validates :
        (r : GateResult)
        → validate_receipt hashing crypto
            (obj receipt)
            change
            now_utc
            revoked_node_ids
            skew
            registry
          ≡ ok r
        → r.track ≡ authorized
        → IsAuthorized receipt change now_utc revoked_node_ids skew registry
    unfolding validate_receipt
    validates r e t = elim (Bool-cases (is_text payload_type (get "payloadType" receipt))) [
      | inr untyped ↦ absurd (observes_not _ _ r (rw (untyped, validate_receipt) at e) t)
      | inl typed ↦ elim (Option-cases (statement_of (decode_statement hashing crypto receipt))) [
        | inl undecoded ↦
            absurd (observes_not _ _ r (rw (typed, undecoded, validate_receipt) at e) t)
        | inr (stmt, decoded) ↦
            elim (Bool-cases (is_text doctrine_version (get "doctrine_version" stmt))) [
              | inr other ↦
                  absurd (observes_not _ _ r (rw (typed, decoded, other, validate_receipt) at e) t)
              | inl doctrine ↦
                  elim (Bool-cases (is_text kernel_commit (get "kernel_commit" stmt))) [
                    | inr other ↦ absurd (
                        observes_not _ _ r
                          (rw (typed, decoded, doctrine, other, validate_receipt) at e) t)
                    | inl kernel ↦
                        elim (Bool-cases (has_vendors (vendors_of (get "policy_context" stmt)))) [
                          | inr other ↦ absurd (
                              observes_not _ _ r
                                (rw (typed, decoded, doctrine, kernel, other, validate_receipt) at
                                  e)
                                t)
                          | inl vendors ↦
                              let (verified, enrolled, (trusted, bound, ts, timed, fresh)) =
                                gate_signer-Signed stmt r
                                  (rw (typed, decoded, doctrine, kernel, vendors, validate_receipt)
                                    at e)
                                  t in
                              record {
                                typed = typed;
                                stmt = stmt;
                                decoded =
                                    statement_of-ok (decode_statement hashing crypto receipt) stmt
                                      decoded;
                                doctrine = doctrine;
                                kernel = kernel;
                                vendors = vendors;
                                verified = verified;
                                enrolled = enrolled;
                                trusted = trusted;
                                bound = bound;
                                ts = ts;
                                timed = timed;
                                fresh = fresh;
                              }
                        ]
                  ]
            ]
      ]
    ]

    validates_conversely :
        (a : IsAuthorized receipt change now_utc revoked_node_ids skew registry)
        → validate_receipt hashing crypto
            (obj receipt)
            change
            now_utc
            revoked_node_ids
            skew
            registry
          ≡ ok (record { track = authorized; receipt_status = valid; statement = some a.stmt })
    unfolding validate_receipt gate_signer gate_change
    validates_conversely a =
        rw
          (
            a.typed, a.decoded, a.doctrine, a.kernel, a.vendors, a.verified, a.enrolled, a.trusted,
            a.bound, a.timed, a.fresh,
          )
          refl

    -- A receipt is AUTHORIZED for a change exactly if it passes every check of the gate.
    pub authorized_iff :
        ((r : GateResult) × (validate_receipt hashing crypto
              (obj receipt)
              change
              now_utc
              revoked_node_ids
              skew
              registry
            ≡ ok r)
          × (r.track ≡ authorized))
        ↔ IsAuthorized receipt change now_utc revoked_node_ids skew registry
    authorized_iff = (
      λ h. validates h.0 h.1 h.2,
      λ a. (
        record { track = authorized; receipt_status = valid; statement = some a.stmt },
        validates_conversely a,
        refl,
      ),
    )
