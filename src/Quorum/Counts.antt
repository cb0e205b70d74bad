-- ===== src/Quorum/Counts.antt =====
-- The count of witness records runs exactly if every organ can be looked up (quorum.py,
-- `verify_quorum`).
use szl_mesh.Common.Dict.{Dict}
use szl_mesh.Common.Json.{Json}
use szl_mesh.Common.Order.{str_ord}
use szl_mesh.Common.Result.{ok, raise, type_error, ok_inj}
use szl_mesh.Common.{ℕ, true, false, String, List, ◌≡◌, refl, sym, ◌∙◌, Bool-cases, inl, inr}
use szl_mesh.Quorum.Organs.{checks_of, tally-checks, tally_raises}
use szl_mesh.Quorum.{
  Engine, QuorumVerification, verdicts_of, counted, each_hashable, count_witnesses,
}

module _ (engine : Engine) (ah : String) (pubkeys : Dict String String) (threshold n : ℕ)
    (raw : List Json) where
  pub count_witnesses-counted :
      each_hashable (verdicts_of raw) ≡ true
      → count_witnesses engine ah pubkeys threshold n raw
        ≡ ok (counted ah threshold n (checks_of engine ah pubkeys (verdicts_of raw)))
  unfolding count_witnesses
  count_witnesses-counted hashable =
      rw (tally-checks engine ah pubkeys (verdicts_of raw) hashable) refl

  pub count_witnesses_raises :
      each_hashable (verdicts_of raw) ≡ false
      → count_witnesses engine ah pubkeys threshold n raw ≡ raise type_error
  unfolding count_witnesses
  count_witnesses_raises unhashable =
      rw (tally_raises engine ah pubkeys (verdicts_of raw) unhashable) refl

  pub count_witnesses-ok :
      (v : QuorumVerification)
      → count_witnesses engine ah pubkeys threshold n raw ≡ ok v
      → (each_hashable (verdicts_of raw) ≡ true)
        × (counted ah threshold n (checks_of engine ah pubkeys (verdicts_of raw)) ≡ v)
  count_witnesses-ok v e = elim (Bool-cases (each_hashable (verdicts_of raw))) [
    | inl hashable ↦ (hashable, ok_inj (sym (count_witnesses-counted hashable) ∙ e))
    | inr unhashable ↦ absurd (cc (count_witnesses_raises unhashable, e))
  ]
