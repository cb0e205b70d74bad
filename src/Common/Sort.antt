-- ===== src/Common/Sort.antt =====
-- `sorted`: a stable sort by a lawful comparison of keys, and why its result depends on the
-- elements alone and not on their order of arrival.
use mathlib.Core.Bool.{true, false}
use mathlib.Core.List.Permᴰ as PermD
use mathlib.Core.List.{List, [], ◌∷◌, Permᴰ}
use mathlib.Core.Path.{◌≡◌, refl, ◌∙◌, ap₂}
use native.Mathlib.Omega.{arith}
use szl_mesh.Common.Order.{Ord, ◌<?◌}

pub cons_swap {ℓ} :
    {A : Type ℓ} (x y : A) {xs ys : List A} → Permᴰ xs (x ∷ ys) → Permᴰ (y ∷ xs) (x ∷ y ∷ ys)
cons_swap x y p = Permᴰ.trans (Permᴰ.cons refl p) (Permᴰ.swap refl refl)

module _ {ℓ κ} {A : Type ℓ} {K : Type κ} ⦃o : Ord K⦄ (key : A → K) where
  -- Before the first element with a key that is not smaller: equal keys keep their order.
  unfoldable pub place : A → List A → List A
  place x [] = x ∷ []
  place x (y ∷ ys) = elim (key y <? key x) [ true ↦ y ∷ place x ys | false ↦ x ∷ y ∷ ys ]

  -- Python's `sorted(xs, key=key)`.
  unfoldable pub sort_by : List A → List A
  unfolding place
  sort_by [] = []
  sort_by (x ∷ xs) = place x (sort_by xs)

  place-perm : (x : A) (ys : List A) → Permᴰ (place x ys) (x ∷ ys)
  unfolding place
  place-perm x [] = PermD.refl _
  place-perm x (y ∷ ys) =
      ground (
        arith,
        PermD.refl (x ∷ y ∷ ys),
        cons_swap x y {xs = place x ys} {ys = ys} (place-perm x ys),
      )

  pub sort_by-perm : (xs : List A) → Permᴰ (sort_by xs) xs
  unfolding sort_by
  sort_by-perm [] = PermD.refl _
  sort_by-perm (x ∷ xs) =
      Permᴰ.trans (place-perm x (sort_by xs)) (Permᴰ.cons refl (sort_by-perm xs))

  module _ (inj : (x y : A) → key x ≡ key y → x ≡ y) where
    place_swap : (x y : A) (zs : List A) → place x (place y zs) ≡ place y (place x zs)
    unfolding place
    place_swap x y [] = ground (arith, inj x y, o.same (key x) (key y), o.mirror (key x) (key y))
    place_swap x y (z ∷ zs) = ground (
      arith,
      inj x y,
      o.same (key x) (key y),
      o.mirror (key x) (key y),
      o.chain (key z) (key x) (key y),
      o.chain (key z) (key y) (key x),
      place_swap x y zs,
    )

    -- With keys that tell elements apart, sorting forgets the order of arrival.
    pub sort_by-eq_of_perm : {xs ys : List A} → Permᴰ xs ys → sort_by xs ≡ sort_by ys
    unfolding sort_by
    sort_by-eq_of_perm Permᴰ.nil = refl
    sort_by-eq_of_perm (Permᴰ.cons e p) = ap₂ place e (sort_by-eq_of_perm p)
    sort_by-eq_of_perm (Permᴰ.swap {a} {b} {l = l} e f) =
        place_swap a b (sort_by l) ∙ ap₂ (λ u v. place u (place v (sort_by l))) f e
    sort_by-eq_of_perm (Permᴰ.trans p q) = sort_by-eq_of_perm p ∙ sort_by-eq_of_perm q
