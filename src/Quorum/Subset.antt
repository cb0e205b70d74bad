-- ===== src/Quorum/Subset.antt =====
-- What a peer can do to a certificate by repeating, reordering or adding witness records
-- (quorum.py, `verify_quorum`).
use mathlib.Core.List.{Memᴰ}
use szl_mesh.Common.Dict.{Dict}
use szl_mesh.Common.Json.{Json, obj, arr, null, bool, int, negative, float, str}
use szl_mesh.Common.{
  ℕ, ◌≤◌, Bool, true, false, not, ◌||◌, String, List, [], ◌∷◌, ◌≡◌, refl, sym, ap, ◌∙◌, arith, any,
  All,
}
use szl_mesh.Common.Result.{ok}
use szl_mesh.Quorum.Counts.{count_witnesses-ok}
use szl_mesh.Quorum.Organs.{counts_for, any-checks, counting_organs_mono, checks_of}
use szl_mesh.Quorum.{
  Verdict, Engine, verdict_of, verdicts_of, counted, count_witnesses, QuorumVerification,
}

abbrev pub passes : (Verdict → Bool) → Json → Bool
passes p (obj w) = p (verdict_of w)
passes p _ = false

pub any-verdicts :
    (p : Verdict → Bool) (ws : List Json) → any p (verdicts_of ws) ≡ any (passes p) ws
any-verdicts p [] = refl
any-verdicts p (null ∷ ws) = any-verdicts p ws
any-verdicts p (bool b ∷ ws) = any-verdicts p ws
any-verdicts p (int m ∷ ws) = any-verdicts p ws
any-verdicts p (negative m ∷ ws) = any-verdicts p ws
any-verdicts p (float t ∷ ws) = any-verdicts p ws
any-verdicts p (str t ∷ ws) = any-verdicts p ws
any-verdicts p (arr items ∷ ws) = any-verdicts p ws
any-verdicts p (obj w ∷ ws) = ap (λ b. p (verdict_of w) || b) (any-verdicts p ws)

pub any-Memᴰ :
    (p : Json → Bool) (w : Json) (ws : List Json) → Memᴰ w ws → p w ≡ true → any p ws ≡ true
any-Memᴰ p w [] m h = elim m [ ]
any-Memᴰ p w (x ∷ ws) (Memᴰ.head e) h = ground (arith, sym (ap p e) ∙ h)
any-Memᴰ p w (x ∷ ws) (Memᴰ.tail m) h = ground (arith, any-Memᴰ p w ws m h)

any-subset :
    (p : Json → Bool) (xs ys : List Json)
    → All (λ w. Memᴰ w ys) xs
    → any p xs ≡ true
    → any p ys ≡ true
any-subset p [] ys sub h = cc
any-subset p (x ∷ xs) ys sub h = ground (arith, any-Memᴰ p x ys sub.0, any-subset p xs ys sub.1)

any-verdicts_subset :
    (p : Verdict → Bool) (xs ys : List Json)
    → All (λ w. Memᴰ w ys) xs
    → any p (verdicts_of xs) ≡ true
    → any p (verdicts_of ys) ≡ true
any-verdicts_subset p xs ys sub h =
    any-verdicts p ys ∙ any-subset (passes p) xs ys sub (sym (any-verdicts p xs) ∙ h)

module _ (engine : Engine) (action_hash : String) (pubkeys : Dict String String)
    (threshold n : ℕ) where
  -- Where two lists of witness records are both counted and each record of the first occurs in the
  -- second, the first gives no higher count than the second, and no canonical verdict where that
  -- gives none: repeating records raises no count, and adding records, forged ones included, lowers
  -- none.
  pub count_witnesses_subset :
      (xs ys : List Json) (v w : QuorumVerification)
      → count_witnesses engine action_hash pubkeys threshold n xs ≡ ok v
      → count_witnesses engine action_hash pubkeys threshold n ys ≡ ok w
      → All (λ w. Memᴰ w ys) xs
      → (v.consensus_count ≤ w.consensus_count) × ((not v.canonical || w.canonical) ≡ true)
  unfolding counted
  count_witnesses_subset xs ys v w first second sub =
      let (_, v_is) = count_witnesses-ok engine action_hash pubkeys threshold n xs v first in
      let (_, w_is) = count_witnesses-ok engine action_hash pubkeys threshold n ys w second in
      let below =
        counting_organs_mono (checks_of engine action_hash pubkeys (verdicts_of xs))
          (checks_of engine action_hash pubkeys (verdicts_of ys))
          (λ organ m.
            any-checks engine action_hash pubkeys organ (verdicts_of ys)
            ∙ any-verdicts_subset (counts_for engine action_hash pubkeys organ) xs ys sub
                (sym (any-checks engine action_hash pubkeys organ (verdicts_of xs)) ∙ m)) in
      rw (sym v_is, sym w_is) (below, ground (arith, below))
