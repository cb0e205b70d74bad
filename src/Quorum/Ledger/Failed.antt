-- ===== src/Quorum/Ledger/Failed.antt =====
-- The FAILED status (quorum.py, `mark_failed` and `observe`).
use szl_mesh.Common.Dict.{lookup, put, lookup-put}
use szl_mesh.Common.Order.{◌=?◌, str_ord}
use szl_mesh.Common.{
  ℕ, String, Option, none, some, List, [], ◌∷◌, ◌≡◌, refl, ap, ◌∙◌, arith, Bool-cases, inl, inr,
}
use szl_mesh.Quorum.Ledger.{
  failed, Entry, CorroborationLedger, policy_for, opened, annotate, observe, status_in, status,
  mark_failed, Event, observed, marked, run,
}

annotate_keeps_failed :
    (found : Option Entry) (node : String) (k : ℕ) (class expires : String)
    → status_in found ≡ failed
    → (annotate node k (opened found k class expires)).status ≡ failed
unfolding annotate
annotate_keeps_failed none node k class expires h = ground (arith, h)
annotate_keeps_failed (some e) node k class expires h = ground (arith, h)

observe_keeps_failed :
    (self : CorroborationLedger) (c node class expires change : String)
    → status self change ≡ failed
    → status (observe self c node class expires).0 change ≡ failed
unfolding observe status
observe_keeps_failed self c node class expires change h =
    let k = (policy_for self class).k in
    ap status_in (
      lookup-put c change (annotate node k (opened (lookup c self.entries) k class expires))
        self.entries)
    ∙ elim (Bool-cases (c =? change)) [
      | inr other ↦ rw other h
      | inl same ↦ rw same (
          annotate_keeps_failed (lookup c self.entries) node k class expires (
            ap (λ d. status_in (lookup d self.entries))
              (str_ord.same c change (ground (arith, same)))
            ∙ h))
    ]

mark_keeps_failed :
    (self : CorroborationLedger) (c change : String)
    → status self change ≡ failed
    → status (mark_failed self c) change ≡ failed
unfolding mark_failed status
mark_keeps_failed self c change h =
    elim (lookup c self.entries)
        as (λ x.
          lookup c self.entries ≡ x
          → status
              (elim x [
                | none ↦ self
                | some e ↦ record self {
                  entries =
                      put c (record e { status = failed; corroborated_at = none }) self.entries;
                }
              ])
              change
            ≡ failed) [
              | none ↦ λ absent. h
              | some e ↦ λ present.
                  ap status_in (
                    lookup-put c change (record e { status = failed; corroborated_at = none })
                      self.entries)
                  ∙ elim (Bool-cases (c =? change)) [
                    | inr other ↦ rw other h
                    | inl same ↦ rw same refl
                  ]
            ]
      refl

-- A change that is FAILED stays FAILED, whatever is observed or marked afterwards.
pub run_keeps_failed :
    (self : CorroborationLedger) (es : List Event) (change : String)
    → status self change ≡ failed
    → status (run self es) change ≡ failed
unfolding run
run_keeps_failed self [] change h = h
run_keeps_failed self (observed c node class expires ∷ es) change h =
    run_keeps_failed (observe self c node class expires).0 es change
      (observe_keeps_failed self c node class expires change h)
run_keeps_failed self (marked c ∷ es) change h =
    run_keeps_failed (mark_failed self c) es change (mark_keeps_failed self c change h)
