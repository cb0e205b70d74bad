-- ===== src/Common/Dict.antt =====
-- Python dictionaries as association lists in insertion order: writing a present key keeps its
-- place, and a new key goes to the end.
use Prim.Native.Nat.{suc}
use mathlib.Core.Bool.{Bool, true, false}
use mathlib.Core.Logic.{inl, inr}
use mathlib.Core.List.Permᴰ as PermD
use mathlib.Core.List.{List, [], ◌∷◌, Permᴰ, map}
use mathlib.Core.Option.{Option, none, some}
use mathlib.Core.Path.{◌≡◌, refl, subst}
use native.Mathlib.Omega.{arith}
use szl_mesh.Common.Lists.{All, All-imp, length, select}
use szl_mesh.Common.Order.{Ord, ◌=?◌}
use szl_mesh.Common.Sort.{cons_swap}
use szl_mesh.Common.Tests.{if◌then◌else◌, Bool-cases}

abbrev pub Dict {ℓ κ} : Type ℓ → Type κ → Type (ℓ ⊔ κ)
Dict K V = List (K × V)

module _ {ℓ κ} {K : Type ℓ} {V : Type κ} ⦃o : Ord K⦄ where
  unfoldable pub lookup : K → Dict K V → Option V
  lookup k [] = none
  lookup k ((j, v) ∷ m) = if j =? k then some v else lookup k m

  unfoldable pub put : K → V → Dict K V → Dict K V
  put k v [] = (k, v) ∷ []
  put k v ((j, w) ∷ m) = if j =? k then (j, v) ∷ m else (j, w) ∷ put k v m

  unfoldable pub remove : K → Dict K V → Dict K V
  remove k [] = []
  remove k ((j, w) ∷ m) = if j =? k then m else (j, w) ∷ remove k m

  unfoldable pub has : K → Dict K V → Bool
  unfolding lookup
  has k m = elim (lookup k m) [ none ↦ false | some _ ↦ true ]

  -- No key twice.
  abbrev pub IsMap : Dict K V → Type (ℓ ⊔ κ)
  IsMap [] = Unit
  IsMap ((k, v) ∷ m) = (lookup k m ≡ none) × IsMap m

  pub lookup-put :
      (k j : K) (v : V) (m : Dict K V)
      → lookup j (put k v m) ≡ (if k =? j then some v else lookup j m)
  unfolding lookup put
  lookup-put k j v [] = refl
  lookup-put k j v ((i, w) ∷ m) =
      ground (arith, o.same i k, o.same i j, o.same k j, o.cmp_self k, lookup-put k j v m)

  pub put-IsMap : (k : K) (v : V) (m : Dict K V) → IsMap m → IsMap (put k v m)
  unfolding lookup put
  put-IsMap k v [] h = (refl, tt)
  put-IsMap k v ((i, w) ∷ m) h =
      ground (arith, o.same k i, o.mirror k i, lookup-put k i v m, put-IsMap k v m)

  pub lookup-remove :
      (k j : K) (m : Dict K V)
      → IsMap m
      → lookup j (remove k m) ≡ (if k =? j then none else lookup j m)
  unfolding lookup remove
  lookup-remove k j [] h = ground arith
  lookup-remove k j ((i, w) ∷ m) h =
      ground (arith, o.same i k, o.same i j, o.same k j, o.cmp_self k, lookup-remove k j m)

  pub length-put :
      (k : K) (v : V) (m : Dict K V)
      → length (put k v m) ≡ (if has k m then length m else suc (length m))
  unfolding has put
  length-put k v [] = refl
  length-put k v ((i, w) ∷ m) = ground (arith, length-put k v m)

  pub remove-IsMap : (k : K) (m : Dict K V) → IsMap m → IsMap (remove k m)
  unfolding lookup remove
  remove-IsMap k [] h = tt
  remove-IsMap k ((i, w) ∷ m) h =
      ground (arith, o.same k i, o.mirror k i, lookup-remove k i m h.1, remove-IsMap k m)

  perm-remove : (k : K) (v : V) (m : Dict K V) → lookup k m ≡ some v → Permᴰ m ((k, v) ∷ remove k m)
  unfolding lookup remove
  perm-remove k v [] h = cc
  perm-remove k v ((i, w) ∷ m) h = elim (Bool-cases (i =? k)) [
    | inl e ↦ ground (arith, o.same i k, PermD.refl ((i, w) ∷ m))
    | inr e ↦ rw e (cons_swap (k, v) (i, w) (perm-remove k v m (rw e at h)))
  ]

  -- Maps that answer alike hold the same entries, in some order.
  pub perm_of_lookup :
      (m n : Dict K V) → IsMap m → IsMap n → ((k : K) → lookup k m ≡ lookup k n) → Permᴰ m n
  unfolding lookup
  perm_of_lookup [] [] hm hn alike = PermD.refl []
  perm_of_lookup [] ((k, v) ∷ n) hm hn alike = absurd (ground (arith, alike k, o.cmp_self k))
  perm_of_lookup ((k, v) ∷ m) n hm hn alike =
      Permᴰ.trans
        (Permᴰ.cons refl (
          perm_of_lookup m (remove k n) hm.1 (remove-IsMap k n hn)
            (λ j. ground (arith, alike j, lookup-remove k j n hn, hm.0, o.same k j))))
        (PermD.symm (perm-remove k v n (ground (arith, alike k, o.cmp_self k))))

  -- The answer of a lookup is an entry.
  pub All-lookup {μ} :
      (P : K × V → Type μ) (k : K) (v : V) (m : Dict K V) → All P m → lookup k m ≡ some v → P (k, v)
  unfolding lookup
  All-lookup P k v [] h e = cc
  All-lookup P k v ((i, w) ∷ m) h e = elim (Bool-cases (i =? k)) [
    | inl same ↦ subst P (ground (arith, o.same i k)) h.0
    | inr other ↦ All-lookup P k v m h.1 (rw other at e)
  ]

  pub All-put {μ} :
      (P : K × V → Type μ) (k : K) (v : V) (m : Dict K V) → All P m → P (k, v) → All P (put k v m)
  unfolding put
  All-put P k v [] h p = (p, tt)
  All-put P k v ((i, w) ∷ m) h p = elim (Bool-cases (i =? k)) [
    | inl same ↦ rw same (subst P (ground (arith, o.same i k)) p, h.1)
    | inr other ↦ rw other (h.0, All-put P k v m h.1 p)
  ]

  -- Every entry is the answer of a lookup.
  pub All-entries : (m : Dict K V) → IsMap m → All (λ e. lookup e.0 m ≡ some e.1) m
  unfolding lookup
  All-entries [] h = tt
  All-entries ((k, v) ∷ m) h = (
    ground (arith, o.cmp_self k),
    All-imp m (All-entries m h.1) (λ e p. ground (arith, o.same k e.0, h.0, p)),
  )

  -- Dropping entries by a test on the value.
  pub lookup-select :
      (p : V → Bool) (k : K) (m : Dict K V)
      → IsMap m
      → lookup k (select (λ e. p e.1) m)
        ≡ elim (lookup k m) [ none ↦ none | some v ↦ if p v then some v else none ]
  unfolding lookup
  lookup-select p k [] h = refl
  lookup-select p k ((i, w) ∷ m) h = ground (arith, lookup-select p k m h.1, h.0, o.same i k)

  pub select-IsMap : (p : V → Bool) (m : Dict K V) → IsMap m → IsMap (select (λ e. p e.1) m)
  unfolding lookup
  select-IsMap p [] h = tt
  select-IsMap p ((i, w) ∷ m) h = ground (arith, h.0, lookup-select p i m h.1, select-IsMap p m h.1)

abbrev pub keys {ℓ κ} : {K : Type ℓ} {V : Type κ} → Dict K V → List K
keys = map (λ e. e.0)

abbrev pub values {ℓ κ} : {K : Type ℓ} {V : Type κ} → Dict K V → List V
values = map (λ e. e.1)
