-- ===== src/Command/Merge/Arrival.antt =====
-- The merged body does not depend on the order in which snapshots arrive (mesh_command/app.py).
use mathlib.Core.List.{Permᴰ}
use szl_mesh.Command.Merge.{Snapshot, merged}
use szl_mesh.Common.Best.{All-perm}
use szl_mesh.Common.Json.{Hashing}
use szl_mesh.Common.Order.{Ord, ◌=?◌, str_ord}
use szl_mesh.Common.Sort.{place, sort_by}
use szl_mesh.Common.{Bool, false, List, [], ◌∷◌, ◌≡◌, refl, ap₂, ◌∙◌, arith, All, subst}

module _ {ℓ κ} {A : Type ℓ} {K : Type κ} ⦃o : Ord K⦄ (key : A → K) where
  -- No two elements have the same key.
  abbrev pub Different : List A → Type 0
  Different [] = Unit
  Different (x ∷ xs) = All (λ y. (key x =? key y) ≡ false) xs × Different xs

  place_swap :
      (x y : A) (zs : List A)
      → (key x =? key y) ≡ false
      → place key x (place key y zs) ≡ place key y (place key x zs)
  unfolding place
  place_swap x y [] ne = ground (arith, ne, o.mirror (key x) (key y))
  place_swap x y (z ∷ zs) ne = ground (
    arith,
    ne,
    o.mirror (key x) (key y),
    o.same (key x) (key y),
    o.chain (key z) (key x) (key y),
    o.chain (key z) (key y) (key x),
    place_swap x y zs,
  )

  flip : (x y : A) → (key x =? key y) ≡ false → (key y =? key x) ≡ false
  flip x y ne = ground (arith, ne, o.mirror (key x) (key y))

  Different-perm : {xs ys : List A} → Permᴰ xs ys → Different xs → Different ys
  Different-perm Permᴰ.nil d = tt
  Different-perm (Permᴰ.cons {a} {b} {l₁} {l₂} e p) d =
      subst (λ x. Different (x ∷ l₂)) e
        (All-perm (λ y. (key a =? key y) ≡ false) p d.0, Different-perm p d.1)
  Different-perm (Permᴰ.swap {a} {b} {a'} {b'} {l = l} e f) d =
      subst (λ x. Different (a' ∷ x ∷ l)) e
        (subst (λ y. Different (y ∷ a ∷ l)) f ((flip a b d.0.0, d.1.0), (d.0.1, d.1.1)))
  Different-perm (Permᴰ.trans p q) d = Different-perm q (Different-perm p d)

  sort_by-Different :
      {xs ys : List A} → Permᴰ xs ys → Different xs → sort_by key xs ≡ sort_by key ys
  unfolding sort_by
  sort_by-Different Permᴰ.nil d = refl
  sort_by-Different (Permᴰ.cons e p) d = ap₂ (place key) e (sort_by-Different p d.1)
  sort_by-Different (Permᴰ.swap {a} {b} {l = l} e f) d =
      place_swap a b (sort_by key l) d.0.0
      ∙ ap₂ (λ u v. place key u (place key v (sort_by key l))) f e
  sort_by-Different (Permᴰ.trans p q) d =
      sort_by-Different p d ∙ sort_by-Different q (Different-perm p d)

-- Snapshots of different nodes merge to one body, in whatever order they arrive. The receipt's
-- digest of the request is not part of the body.
pub merged-perm :
    (h : Hashing) (include_tombstones : Bool) {ss ts : List Snapshot}
    → Permᴰ ss ts
    → Different (λ s. s.node_id) ss
    → merged h include_tombstones ss ≡ merged h include_tombstones ts
merged-perm h include_tombstones p d = rw (sort_by-Different (λ (s : Snapshot). s.node_id) p d) refl
