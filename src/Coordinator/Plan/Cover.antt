-- ===== src/Coordinator/Plan/Cover.antt =====
-- What the plan of `_pipeline_plan` covers, against the layers that the UP tiles hold.
use mathlib.Core.List.Permᴰ as PermD
use mathlib.Core.List.{Permᴰ}
use szl_mesh.Common.Best.{any-perm, All-perm, All-select}
use szl_mesh.Common.Dict.{Dict, values}
use szl_mesh.Common.Order.{str_ord, nat_ord, pair_ord}
use szl_mesh.Common.Sort.{sort_by, sort_by-perm}
use szl_mesh.Common.{
  ℕ, suc, ◌+◌, ◌≤◌, ◌<◌, ◌↔◌, Bool, true, false, ◌&&◌, String, List, [], ◌∷◌, ◌≡◌, refl, ap, ◌∙◌,
  arith, leb, select, length, any, All, All-imp, Bool-cases, inl, inr,
}
use szl_mesh.Coordinator.Plan.Walk.{
  Walk, arrived, gap, stage, Chain, end_of, holds, none-of, none-if, plan_loop-Walk, Walk-Chain,
  Walk-length, taken, taken-All, Walk-end, Walk-All, Chain-holds,
}
use szl_mesh.Coordinator.Plan.{reaches, other_than, pipeline_plan, span}
use szl_mesh.Coordinator.Tile.Keyed.{WellKeyed, Kept, Kept-values}
use szl_mesh.Coordinator.Tile.{NodeTile, Coordinator, is_up}

any-dropped {ℓ} :
    {A : Type ℓ} (p q : A → Bool) (xs : List A)
    → any p (select q xs) ≡ false
    → All (λ x. q x ≡ false → p x ≡ false) xs
    → any p xs ≡ false
any-dropped p q [] h a = refl
any-dropped p q (x ∷ xs) h a = ground (arith, a.0, any-dropped p q xs)

any-select-both {ℓ} :
    {A : Type ℓ} (p q : A → Bool) (xs : List A) → any p (select q xs) ≡ any (λ x. q x && p x) xs
any-select-both p q [] = refl
any-select-both p q (x ∷ xs) = ground (arith, any-select-both p q xs)

nothing-reaches :
    (cursor : ℕ) (rest : List NodeTile)
    → select (reaches cursor) rest ≡ []
    → any (holds cursor) rest ≡ false
nothing-reaches cursor [] e = refl
nothing-reaches cursor (t ∷ rest) e = ground (arith, nothing-reaches cursor rest)

-- A walk that ends in a gap leaves out a layer that no tile holds.
Walk-missing :
    (tiles : Dict String NodeTile) {total cursor : ℕ} {rest stages : List NodeTile} {covered : Bool}
    → All (Kept tiles) rest
    → Walk total cursor rest stages covered
    → covered ≡ false
    → (l : ℕ) × (cursor ≤ l) × (l < total) × (any (holds l) rest ≡ false)
Walk-missing tiles k (arrived h) e = cc
Walk-missing tiles k (gap {cursor} {remaining} h none_left) e =
    (cursor, omega arith, h, nothing-reaches cursor remaining none_left)
Walk-missing tiles k (stage {cursor} {remaining} b h e w) f =
    let reached = (taken cursor remaining b e).0 in
    let kept = taken-All (Kept tiles) cursor remaining b k e in
    let (l, after, below, missing) =
      Walk-missing tiles (All-select (Kept tiles) (other_than b.node_id) remaining k) w f in
    (
      l,
      ground (arith, reached, after),
      below,
      any-dropped (holds l) (other_than b.node_id) remaining missing (
          All-imp remaining k (λ t kept_t same.
            ground (arith, kept_t, kept, same, str_ord.same t.node_id b.node_id, after))),
    )

abbrev up_of : Coordinator → List NodeTile
up_of c = sort_by span (select (λ t. is_up t.status) (values c.tiles))

-- Some UP tile holds the layer.
abbrev pub is_held : Coordinator → ℕ → Bool
is_held c l = any (λ t. is_up t.status && holds l t) (values c.tiles)

length-perm {ℓ} : {A : Type ℓ} {xs ys : List A} → Permᴰ xs ys → length xs ≡ length ys
length-perm Permᴰ.nil = refl
length-perm (Permᴰ.cons e p) = ap suc (length-perm p)
length-perm (Permᴰ.swap {l = l} e f) = refl
length-perm (Permᴰ.trans p q) = length-perm p ∙ length-perm q

up_of-held : (c : Coordinator) (l : ℕ) → any (holds l) (up_of c) ≡ is_held c l
up_of-held c l =
    any-perm (holds l) (sort_by-perm span (select (λ t. is_up t.status) (values c.tiles)))
    ∙ any-select-both (holds l) (λ t. is_up t.status) (values c.tiles)

up_of-All {ℓ} : (P : NodeTile → Type ℓ) (c : Coordinator) → All P (values c.tiles) → All P (up_of c)
up_of-All P c h =
    All-perm P (PermD.symm (sort_by-perm span (select (λ t. is_up t.status) (values c.tiles))))
      (All-select P (λ t. is_up t.status) (values c.tiles) h)

plan-Walk :
    (c : Coordinator) → Walk c.total_layers 0 (up_of c) (pipeline_plan c).0 (pipeline_plan c).1
unfolding pipeline_plan
plan-Walk c = plan_loop-Walk c.total_layers (length (up_of c) + 1) 0 (up_of c) (omega arith)

-- The stages of a plan are a chain from layer 0: each holds the layer at which the one before it
-- ends. The plan is said to be covering exactly if they reach `total_layers`. There are at most as
-- many stages as UP tiles.
pub plan-Chain :
    (c : Coordinator)
    → Chain 0 (pipeline_plan c).0
      × (leb c.total_layers (end_of 0 (pipeline_plan c).0) ≡ (pipeline_plan c).1)
      × (length (pipeline_plan c).0 ≤ length (select (λ t. is_up t.status) (values c.tiles)))
plan-Chain c = (
  Walk-Chain (plan-Walk c),
  Walk-end (plan-Walk c),
  omega (
    arith,
    Walk-length (plan-Walk c),
    length-perm (sort_by-perm span (select (λ t. is_up t.status) (values c.tiles))),
  ),
)

-- Where every tile stands under its own identifier, the plan is said to be covering exactly if
-- every layer below `total_layers` is held by an UP tile.
pub plan_covered_iff :
    (c : Coordinator)
    → WellKeyed c.tiles
    → ((pipeline_plan c).1 ≡ true) ↔ ((l : ℕ) → l < c.total_layers → is_held c l ≡ true)
plan_covered_iff c w = (
  (λ covered l below. elim (Bool-cases (is_held c l)) [
    | inl held ↦ held
    | inr missing ↦
        let on_no_stage =
          Walk-All (λ t. holds l t ≡ false) (none-of (holds l) (up_of c) (up_of-held c l ∙ missing))
            (plan-Walk c) in
        cc (
          none-if (holds l) (pipeline_plan c).0 on_no_stage,
          Chain-holds 0 l (pipeline_plan c).0 (plan-Chain c).0 (omega arith)
              (ground (arith, below, (plan-Chain c).1, covered)),
        )
  ]),
  (λ held. elim (Bool-cases (pipeline_plan c).1) [
    | inl covered ↦ covered
    | inr incomplete ↦
        let (l, after, below, missing) =
          Walk-missing c.tiles (up_of-All (Kept c.tiles) c (Kept-values c.tiles w)) (plan-Walk c)
            incomplete in
        cc (held l below, up_of-held c l, missing)
  ]),
)
