-- ===== src/Coordinator/Plan/Walk.antt =====
-- The walk of `_pipeline_plan` as a relation, which the loop follows whenever its guard allows a
-- step for each remaining tile, and what the stages it takes cover.
use szl_mesh.Common.Best.{best, best-OnSome, best-none, OnSome, All-select}
use szl_mesh.Common.Order.{◌=?◌, str_ord, nat_ord}
use szl_mesh.Common.{
  ℕ, zero, suc, ◌≤◌, ◌<◌, Bool, true, false, ◌&&◌, String, List, [], ◌∷◌, none, some, ◌≡◌, refl, ap,
  arith, ltb, leb, select, length, any, All, All-imp, Bool-cases, Option-cases, inl, inr,
  length-select-le, All-both, select-passes, subst,
}
use szl_mesh.Coordinator.Plan.{reaches, other_than, plan_loop}
use szl_mesh.Coordinator.Tile.{NodeTile}

pub data Walk (total : ℕ) : ℕ → List NodeTile → List NodeTile → Bool → Type 0 where
  arrived :
      {cursor : ℕ} {remaining : List NodeTile}
      → total ≤ cursor
      → Walk total cursor remaining [] true
  gap :
      {cursor : ℕ} {remaining : List NodeTile}
      → cursor < total
      → select (reaches cursor) remaining ≡ []
      → Walk total cursor remaining [] false
  stage :
      {cursor : ℕ} {remaining stages : List NodeTile} {covered : Bool} (b : NodeTile)
      → cursor < total
      → best (λ (t : NodeTile). t.layer_end) none (select (reaches cursor) remaining) ≡ some b
      → Walk total b.layer_end (select (other_than b.node_id) remaining) stages covered
      → Walk total cursor remaining (b ∷ stages) covered

module _ {ℓ} {A : Type ℓ} (p : A → Bool) where
  pub none-of : (xs : List A) → any p xs ≡ false → All (λ x. p x ≡ false) xs
  none-of [] h = tt
  none-of (x ∷ xs) h = ground (arith, none-of xs)

  pub none-if : (xs : List A) → All (λ x. p x ≡ false) xs → any p xs ≡ false
  none-if [] h = refl
  none-if (x ∷ xs) h = ground (arith, none-if xs h.1)

abbrev Held : List NodeTile → NodeTile → Type 0
Held rest t = any (λ u. u.node_id =? t.node_id) rest ≡ true

each-Held : (rest : List NodeTile) → All (Held rest) rest
each-Held [] = tt
each-Held (t ∷ rest) = (
  ground (arith, str_ord.cmp_self t.node_id),
  All-imp rest (each-Held rest) (λ u h. ground (arith, h)),
)

other_than-shorter :
    (id : String) (rest : List NodeTile)
    → any (λ u. u.node_id =? id) rest ≡ true
    → length (select (other_than id) rest) < length rest
other_than-shorter id [] h = cc
other_than-shorter id (t ∷ rest) h =
    ground (arith, other_than-shorter id rest, length-select-le (other_than id) rest)

-- A tile that the loop takes is one of those that are left, and reaches the cursor.
pub taken :
    (cursor : ℕ) (rest : List NodeTile) (b : NodeTile)
    → best (λ (t : NodeTile). t.layer_end) none (select (reaches cursor) rest) ≡ some b
    → (reaches cursor b ≡ true) × Held rest b
taken cursor rest b e =
    let Good = λ (t : NodeTile). (reaches cursor t ≡ true) × Held rest t in
    subst (OnSome Good) e (
      best-OnSome (λ (t : NodeTile). t.layer_end) Good none (select (reaches cursor) rest) tt
        (All-both (λ t. reaches cursor t ≡ true) (Held rest) (select (reaches cursor) rest)
          (select-passes (reaches cursor) rest)
          (All-select (Held rest) (reaches cursor) rest (each-Held rest))))

pub taken-All {ℓ} :
    (P : NodeTile → Type ℓ) (cursor : ℕ) (rest : List NodeTile) (b : NodeTile)
    → All P rest
    → best (λ (t : NodeTile). t.layer_end) none (select (reaches cursor) rest) ≡ some b
    → P b
taken-All P cursor rest b h e = subst (OnSome P) e (
    best-OnSome (λ (t : NodeTile). t.layer_end) P none (select (reaches cursor) rest) tt
      (All-select P (reaches cursor) rest h))

pub plan_loop-Walk :
    (total guard cursor : ℕ) (rest : List NodeTile)
    → length rest < guard
    → Walk total cursor rest
        (plan_loop total guard cursor rest).0
        (plan_loop total guard cursor rest).1
unfolding plan_loop
plan_loop-Walk total zero cursor rest h = absurd (omega (arith, h))
plan_loop-Walk total (suc guard) cursor rest h = elim (Bool-cases (leb total cursor)) [
  | inl there ↦ rw (there, plan_loop) (arrived (ground (arith, there)))
  | inr on ↦
      elim (Option-cases
        (best (λ (t : NodeTile). t.layer_end) none (select (reaches cursor) rest))) [
          | inl e ↦
              rw (on, e, plan_loop)
                (gap (ground (arith, on))
                  (best-none (λ (t : NodeTile). t.layer_end) (select (reaches cursor) rest) e))
          | inr (b, e) ↦
              let shorter = other_than-shorter b.node_id rest (taken cursor rest b e).1 in
              rw (on, e, plan_loop)
                (stage b (ground (arith, on)) e (
                  plan_loop-Walk total guard b.layer_end (select (other_than b.node_id) rest)
                    (omega (arith, h, shorter))))
        ]
]

-- The loop ends by its own exits: all guards above the number of tiles that are left give the same
-- plan.
pub plan_loop_ends :
    (total guard later cursor : ℕ) (rest : List NodeTile)
    → length rest < guard
    → length rest < later
    → plan_loop total guard cursor rest ≡ plan_loop total later cursor rest
unfolding plan_loop
plan_loop_ends total zero later cursor rest h k = absurd (omega (arith, h))
plan_loop_ends total (suc guard) zero cursor rest h k = absurd (omega (arith, k))
plan_loop_ends total (suc guard) (suc later) cursor rest h k =
    elim (Bool-cases (leb total cursor)) [
      | inl there ↦ rw (there, plan_loop) refl
      | inr on ↦
          elim (Option-cases
            (best (λ (t : NodeTile). t.layer_end) none (select (reaches cursor) rest))) [
              | inl e ↦ rw (on, e, plan_loop) refl
              | inr (b, e) ↦
                  let shorter = other_than-shorter b.node_id rest (taken cursor rest b e).1 in
                  rw (on, e, plan_loop)
                    (ap (λ (r : List NodeTile × Bool). (b ∷ r.0, r.1))
                      (plan_loop_ends total guard later b.layer_end
                        (select (other_than b.node_id) rest) (omega (arith, h, shorter))
                        (omega (arith, k, shorter))))
            ]
    ]

abbrev pub Chain : ℕ → List NodeTile → Type 0
Chain cursor [] = Unit
Chain cursor (t ∷ stages) = (reaches cursor t ≡ true) × Chain t.layer_end stages

abbrev pub end_of : ℕ → List NodeTile → ℕ
end_of cursor [] = cursor
end_of cursor (t ∷ stages) = end_of t.layer_end stages

abbrev pub holds : ℕ → NodeTile → Bool
holds l t = leb t.layer_start l && ltb l t.layer_end

module _ {total : ℕ} where
  pub Walk-Chain :
      {cursor : ℕ} {rest stages : List NodeTile} {covered : Bool}
      → Walk total cursor rest stages covered
      → Chain cursor stages
  Walk-Chain (arrived h) = tt
  Walk-Chain (gap h e) = tt
  Walk-Chain (stage {cursor} {remaining} b h e w) = ((taken cursor remaining b e).0, Walk-Chain w)

  pub Walk-end :
      {cursor : ℕ} {rest stages : List NodeTile} {covered : Bool}
      → Walk total cursor rest stages covered
      → leb total (end_of cursor stages) ≡ covered
  Walk-end (arrived h) = ground (arith, h)
  Walk-end (gap h e) = ground (arith, h)
  Walk-end (stage b h e w) = Walk-end w

  pub Walk-All {ℓ} :
      (P : NodeTile → Type ℓ) {cursor : ℕ} {rest stages : List NodeTile} {covered : Bool}
      → All P rest
      → Walk total cursor rest stages covered
      → All P stages
  Walk-All P h (arrived a) = tt
  Walk-All P h (gap a e) = tt
  Walk-All P h (stage {cursor} {remaining} b a e w) = (
    taken-All P cursor remaining b h e,
    Walk-All P (All-select P (other_than b.node_id) remaining h) w,
  )

  pub Walk-length :
      {cursor : ℕ} {rest stages : List NodeTile} {covered : Bool}
      → Walk total cursor rest stages covered
      → length stages ≤ length rest
  Walk-length (arrived h) = omega arith
  Walk-length (gap h e) = omega arith
  Walk-length (stage {cursor} {remaining} b h e w) =
      let shorter = other_than-shorter b.node_id remaining (taken cursor remaining b e).1 in
      omega (arith, shorter, Walk-length w)

-- Tiles whose spans meet leave no layer between them without one.
pub Chain-holds :
    (cursor l : ℕ) (stages : List NodeTile)
    → Chain cursor stages
    → cursor ≤ l
    → l < end_of cursor stages
    → any (holds l) stages ≡ true
Chain-holds cursor l [] h a b = absurd (omega (arith, a, b))
Chain-holds cursor l (t ∷ stages) h a b = elim (Bool-cases (ltb l t.layer_end)) [
  | inl inside ↦ ground (arith, h.0)
  | inr beyond ↦ ground (arith, Chain-holds t.layer_end l stages h.1 (ground (arith, beyond)) b)
]
