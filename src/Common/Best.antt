-- ===== src/Common/Best.antt =====
-- Python's `max(xs, key=key)` as a loop that keeps the current best: a later element replaces it
-- only if its key is strictly greater, so the first of several maxima stays.
use mathlib.Core.Bool.{Bool, false}
use mathlib.Core.List.Permᴰ as PermD
use mathlib.Core.List.{List, [], ◌∷◌, Permᴰ}
use mathlib.Core.Logic.{inl, inr, ◌≢◌}
use mathlib.Core.Option.{Option, none, some}
use mathlib.Core.Path.{◌≡◌, refl, subst, ap, ap₂, ◌∙◌}
use native.Mathlib.Omega.{arith}
use szl_mesh.Common.Lists.{All, select, any}
use szl_mesh.Common.Order.{Ord, ◌<?◌}
use szl_mesh.Common.Tests.{if◌then◌else◌, Bool-cases}

module _ {ℓ κ} {A : Type ℓ} (P : A → Type κ) where
  pub All-perm : {xs ys : List A} → Permᴰ xs ys → All P xs → All P ys
  All-perm Permᴰ.nil h = tt
  All-perm (Permᴰ.cons e p) h = (subst P e h.0, All-perm p h.1)
  All-perm (Permᴰ.swap e f) h = (subst P f h.1.0, (subst P e h.0, h.1.1))
  All-perm (Permᴰ.trans p q) h = All-perm q (All-perm p h)

  pub All-select : (test : A → Bool) (xs : List A) → All P xs → All P (select test xs)
  All-select test [] h = tt
  All-select test (x ∷ xs) h = ground (arith, All-select test xs h.1)

  abbrev pub OnSome : Option A → Type κ
  OnSome none = Unit
  OnSome (some a) = P a

module _ {ℓ} {A : Type ℓ} where
  select-cons :
      (test : A → Bool) (a : A) (xs ys : List A)
      → Permᴰ (select test xs) (select test ys)
      → Permᴰ (select test (a ∷ xs)) (select test (a ∷ ys))
  select-cons test a xs ys p = ground (arith, p, Permᴰ.cons {a = a} refl p)

  select-swap :
      (test : A → Bool) (a b : A) (xs : List A)
      → Permᴰ (select test (b ∷ a ∷ xs)) (select test (a ∷ b ∷ xs))
  select-swap test a b xs =
      let rest = select test xs in
      ground (
        arith,
        PermD.refl rest,
        PermD.refl (a ∷ rest),
        PermD.refl (b ∷ rest),
        Permᴰ.swap {a = b} {b = a} {l = rest} refl refl,
      )

  pub select-perm :
      (test : A → Bool) {xs ys : List A} → Permᴰ xs ys → Permᴰ (select test xs) (select test ys)
  select-perm test Permᴰ.nil = Permᴰ.nil
  select-perm test (Permᴰ.cons {a} {b} {l₁} {l₂} e p) =
      rw e (select-cons test b l₁ l₂ (select-perm test p))
  select-perm test (Permᴰ.swap {a' = a} {b' = b} {l = l} e f) = rw (e, f) (select-swap test a b l)
  select-perm test (Permᴰ.trans p q) = Permᴰ.trans (select-perm test p) (select-perm test q)

  pub any-perm : (p : A → Bool) {xs ys : List A} → Permᴰ xs ys → any p xs ≡ any p ys
  any-perm p Permᴰ.nil = refl
  any-perm p (Permᴰ.cons e q) = cc (any-perm p q, ap p e)
  any-perm p (Permᴰ.swap {a} {b} {a'} {b'} {l = l} e f) = ground (arith, ap p e, ap p f)
  any-perm p (Permᴰ.trans q r) = any-perm p q ∙ any-perm p r

module _ {ℓ κ} {A : Type ℓ} {K : Type κ} ⦃o : Ord K⦄ (key : A → K) where
  abbrev pub better : Option A → A → Option A
  better none x = some x
  better (some c) x = if key c <? key x then some x else some c

  unfoldable pub best : Option A → List A → Option A
  best cur [] = cur
  best cur (x ∷ xs) = best (better cur x) xs

  -- What holds of all candidates holds of the best one.
  pub best-OnSome {μ} :
      (P : A → Type μ) (cur : Option A) (xs : List A)
      → OnSome P cur
      → All P xs
      → OnSome P (best cur xs)
  unfolding best
  best-OnSome P cur [] hc hx = hc
  best-OnSome P none (x ∷ xs) hc hx = best-OnSome P (some x) xs hx.0 hx.1
  best-OnSome P (some c) (x ∷ xs) hc hx = best-OnSome P (better (some c) x) xs (ground arith) hx.1

  abbrev pub Beats : A → A → Type 0
  Beats w x = (key w <? key x) ≡ false

  Beats-trans : (a b c : A) → Beats a b → Beats b c → Beats a c
  Beats-trans a b c p q = ground (
    arith,
    o.mirror (key a) (key b),
    o.mirror (key b) (key c),
    o.mirror (key a) (key c),
    o.same (key a) (key b),
    o.same (key b) (key c),
    o.chain (key a) (key c) (key b),
    o.chain (key c) (key b) (key a),
    o.chain (key b) (key a) (key c),
    o.cmp_self (key a),
  )

  Beats-self : (a : A) → Beats a a
  Beats-self a = ground (arith, o.cmp_self (key a))

  best-Beats_start : (c w : A) (xs : List A) → best (some c) xs ≡ some w → Beats w c
  unfolding best
  best-Beats_start c w [] h = ground (arith, Beats-self c)
  best-Beats_start c w (x ∷ xs) h = elim (Bool-cases (key c <? key x)) [
    | inl e ↦
        Beats-trans w x c (best-Beats_start x w xs (rw e at h))
          (ground (arith, o.mirror (key c) (key x)))
    | inr e ↦ best-Beats_start c w xs (rw e at h)
  ]

  -- No candidate has a greater key than the best one.
  pub best-Beats : (cur : Option A) (w : A) (xs : List A) → best cur xs ≡ some w → All (Beats w) xs
  unfolding best
  best-Beats cur w [] h = tt
  best-Beats none w (x ∷ xs) h = (best-Beats_start x w xs h, best-Beats (some x) w xs h)
  best-Beats (some c) w (x ∷ xs) h = elim (Bool-cases (key c <? key x)) [
    | inl e ↦ (best-Beats_start x w xs (rw e at h), best-Beats (some x) w xs (rw e at h))
    | inr e ↦ (
      Beats-trans w c x (best-Beats_start c w xs (rw e at h)) e,
      best-Beats (some c) w xs (rw e at h),
    )
  ]

  module _ {μ} (S : A → Type μ) (inj : (a b : A) → S a → S b → key a ≡ key b → a ≡ b) where
    better_swap :
        (cur : Option A) (a b : A)
        → OnSome S cur
        → S a
        → S b
        → better (better cur a) b ≡ better (better cur b) a
    better_swap none a b hc ha hb =
        ground (arith, inj a b ha hb, o.same (key a) (key b), o.mirror (key a) (key b))
    better_swap (some c) a b hc ha hb = ground (
      arith,
      inj a b ha hb,
      inj c a hc ha,
      inj c b hc hb,
      o.same (key a) (key b),
      o.mirror (key a) (key b),
      o.same (key c) (key b),
      o.mirror (key c) (key b),
      o.same (key c) (key a),
      o.mirror (key c) (key a),
      o.chain (key c) (key a) (key b),
      o.chain (key c) (key b) (key a),
    )

    better-OnSome : (cur : Option A) (a : A) → OnSome S cur → S a → OnSome S (better cur a)
    better-OnSome none a hc ha = ha
    better-OnSome (some c) a hc ha = ground arith

    -- With keys that tell the elements apart, the best does not depend on their order.
    pub best-perm :
        (cur : Option A) {xs ys : List A}
        → Permᴰ xs ys
        → OnSome S cur
        → All S xs
        → best cur xs ≡ best cur ys
    unfolding best
    best-perm cur Permᴰ.nil hc hx = refl
    best-perm cur (Permᴰ.cons {a} {b} {l₂ = l} e p) hc hx =
        best-perm (better cur a) p (better-OnSome cur a hc hx.0) hx.1
        ∙ ap (λ x. best (better cur x) l) e
    best-perm cur (Permᴰ.swap {a} {b} {l = l} e f) hc hx =
        ap (λ c. best c l) (better_swap cur a b hc hx.0 hx.1.0)
        ∙ ap₂ (λ u v. best (better (better cur u) v) l) f e
    best-perm cur (Permᴰ.trans p q) hc hx =
        best-perm cur p hc hx ∙ best-perm cur q hc (All-perm S p hx)

  -- Where nothing is best there was nothing to choose from.
  pub best-none : (xs : List A) → best none xs ≡ none → xs ≡ []
  unfolding best
  best-none [] e = refl
  best-none (x ∷ xs) e = absurd (best_ne_none x xs e)
    where
      best_ne_none : (c : A) (ys : List A) → best (some c) ys ≢ none
      best_ne_none c [] = λ p. cc
      best_ne_none c (y ∷ ys) = elim (Bool-cases (key c <? key y)) [
        | inl t ↦ λ p. best_ne_none y ys (rw t at p)
        | inr t ↦ λ p. best_ne_none c ys (rw t at p)
      ]

  -- Each beats the other only if the keys are equal.
  pub Beats-antisymm : (a b : A) → Beats a b → Beats b a → key a ≡ key b
  Beats-antisymm a b p q = ground (arith, o.same (key a) (key b), o.mirror (key a) (key b))
