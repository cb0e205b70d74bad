-- ===== src/Coordinator/Layers/Exact.antt =====
-- `assign_layers` where the floats are exact, and what holds of it for any floats
-- (szl_mesh_coordinator.py).
use szl_mesh.Common.{
  ℕ, zero, suc, ◌+◌, ◌-◌, ◌≤◌, ◌<◌, min, List, [], ◌∷◌, ◌≡◌, refl, ap, ap₂, ◌∙◌, arith, ltb, ◌==◌,
  map, take, drop, set, replicate, Bool-cases, inl, inr,
}
use szl_mesh.Coordinator.Layers.Window.{
  whole, sum, covered, covered-next, take-more, slide-IsLeast, start-IsLeast, IsLeastCovered,
  whole-IsLeastCovered,
}
use szl_mesh.Coordinator.Layers.{
  Amounts, Registered, at, cover_range, cover, coverage_of, slide, share, assign_layers,
}

-- Whole numbers up to the limit are amounts, and computing with them is exact, as it is with floats
-- for whole numbers up to 2 ** 53.
pub record IsExact (amounts : Amounts) (limit : ℕ) (of : ℕ → amounts.F) : Type 0 where
  pub zero_of : amounts.zero ≡ of 0
  pub add_of : (a b : ℕ) → a + b ≤ limit → amounts.add (of a) (of b) ≡ of (a + b)
  pub shifted_of :
      (w a b : ℕ)
      → w + a ≤ limit
      → b ≤ w + a
      → amounts.shifted (of w) (of a) (of b) ≡ of (w + a - b)
  pub sum_of : (xs : List ℕ) → sum xs ≤ limit → amounts.sum (map of xs) ≡ of (sum xs)
  pub less_of : (a b : ℕ) → a ≤ limit → b ≤ limit → amounts.is_less (of a) (of b) ≡ ltb a b

sum-take : (n : ℕ) (xs : List ℕ) → sum (take n xs) ≤ sum xs
sum-take zero xs = omega arith
sum-take (suc n) [] = omega arith
sum-take (suc n) (x ∷ xs) = omega (arith, sum-take n xs)

sum-drop : (n : ℕ) (xs : List ℕ) → sum (drop n xs) ≤ sum xs
sum-drop zero xs = omega arith
sum-drop (suc n) [] = omega arith
sum-drop (suc n) (x ∷ xs) = omega (arith, sum-drop n xs)

at-drop : (i n : ℕ) (xs : List ℕ) → at whole (drop i xs) n ≡ at whole xs (i + n)
at-drop zero n xs = let e : n ≡ 0 + n = omega arith in ap (at whole xs) e
at-drop (suc i) n [] = refl
at-drop (suc i) n (x ∷ xs) =
    let e : suc (i + n) ≡ suc i + n = omega arith in at-drop i n xs ∙ ap (at whole (x ∷ xs)) e

-- A window and the layer behind it are a part of the whole.
window_next : (xs : List ℕ) (n i : ℕ) → covered xs n i + at whole xs (i + n) ≤ sum xs
window_next xs n i =
    omega
      (arith, take-more n (drop i xs), at-drop i n xs, sum-take (suc n) (drop i xs), sum-drop i xs)

sum_bump : (xs : List ℕ) (i a : ℕ) → sum xs ≤ sum (set xs i (at whole xs i + a))
sum_bump [] i a = omega arith
sum_bump (x ∷ xs) zero a = omega arith
sum_bump (x ∷ xs) (suc i) a = omega (arith, sum_bump xs i a)

cover_range_grows :
    (start left a : ℕ) (xs : List ℕ) → sum xs ≤ sum (cover_range whole start left a xs)
unfolding cover_range
cover_range_grows start zero a xs = omega arith
cover_range_grows start (suc left) a xs = omega (
  arith,
  sum_bump xs start a,
  cover_range_grows (start + 1) left a (set xs start (at whole xs start + a)),
)

cover_grows :
    (total : ℕ) (nodes : List (Registered ℕ)) (xs : List ℕ)
    → sum xs ≤ sum (cover whole total nodes xs)
unfolding cover
cover_grows total [] xs = omega arith
cover_grows total (node ∷ nodes) xs =
    let left = min node.layer_end total - node.layer_start in
    omega (
      arith,
      cover_range_grows node.layer_start left node.vram_gb xs,
      cover_grows total nodes (cover_range whole node.layer_start left node.vram_gb xs),
    )

module _ (amounts : Amounts) (limit : ℕ) (of : ℕ → amounts.F)
    (exact : IsExact amounts limit of) where
  abbrev pub as_amount : Registered ℕ → Registered amounts.F
  as_amount node = record {
    vram_gb = of node.vram_gb;
    layer_start = node.layer_start;
    layer_end = node.layer_end;
  }

  at-of : (xs : List ℕ) (i : ℕ) → at amounts (map of xs) i ≡ of (at whole xs i)
  at-of [] i = exact.zero_of
  at-of (x ∷ xs) zero = refl
  at-of (x ∷ xs) (suc i) = at-of xs i

  bump-of :
      (xs : List ℕ) (i a : ℕ)
      → sum (set xs i (at whole xs i + a)) ≤ limit
      → set (map of xs) i (amounts.add (at amounts (map of xs) i) (of a))
        ≡ map of (set xs i (at whole xs i + a))
  bump-of [] i a le = refl
  bump-of (x ∷ xs) zero a le = ap (λ y. y ∷ map of xs) (exact.add_of x a (omega (arith, le)))
  bump-of (x ∷ xs) (suc i) a le = ap (◌∷◌ (of x)) (bump-of xs i a (omega (arith, le)))

  cover_range-of :
      (start left a : ℕ) (xs : List ℕ)
      → sum (cover_range whole start left a xs) ≤ limit
      → cover_range amounts start left (of a) (map of xs)
        ≡ map of (cover_range whole start left a xs)
  unfolding cover_range
  cover_range-of start zero a xs le = refl
  cover_range-of start (suc left) a xs le =
      let xs' = set xs start (at whole xs start + a) in
      let small = cover_range_grows (start + 1) left a xs' in
      ap (cover_range amounts (start + 1) left (of a))
        (bump-of xs start a (omega (arith, small, le)))
      ∙ cover_range-of (start + 1) left a xs' le

  cover-of :
      (total : ℕ) (nodes : List (Registered ℕ)) (xs : List ℕ)
      → sum (cover whole total nodes xs) ≤ limit
      → cover amounts total (map as_amount nodes) (map of xs) ≡ map of (cover whole total nodes xs)
  unfolding cover
  cover-of total [] xs le = refl
  cover-of total (node ∷ nodes) xs le =
      let left = min node.layer_end total - node.layer_start in
      let xs' = cover_range whole node.layer_start left node.vram_gb xs in
      ap (cover amounts total (map as_amount nodes)) (
        cover_range-of node.layer_start left node.vram_gb xs
          (omega (arith, cover_grows total nodes xs', le)))
      ∙ cover-of total nodes xs' le

  replicate-of : (n : ℕ) → replicate n amounts.zero ≡ map of (replicate n 0)
  replicate-of zero = refl
  replicate-of (suc n) = ap₂ ◌∷◌ exact.zero_of (replicate-of n)

  take-of : (n : ℕ) (xs : List ℕ) → take n (map of xs) ≡ map of (take n xs)
  take-of zero xs = refl
  take-of (suc n) [] = refl
  take-of (suc n) (x ∷ xs) = ap (◌∷◌ (of x)) (take-of n xs)

  slide-of :
      (xs : List ℕ) (n left i k w start best : ℕ)
      → sum xs ≤ limit
      → 1 ≤ n
      → k ≡ suc i
      → w ≡ covered xs n i
      → best ≤ limit
      → slide amounts (map of xs) n left k (of w) start (of best)
        ≡ slide whole xs n left k w start best
  unfolding slide
  slide-of xs n zero i k w start best small pos at_k e b = refl
  slide-of xs n (suc left) i k w start best small pos at_k e b =
      let p = at whole xs (k + n - 1) in
      let q = at whole xs (k - 1) in
      let next = w + p - q in
      let from : p ≡ at whole xs (i + n) = ap (at whole xs) (omega (arith, at_k, pos)) in
      let to : q ≡ at whole xs i = ap (at whole xs) (omega (arith, at_k)) in
      let within = window_next xs n i in
      let moves = covered-next xs n i in
      let sums : next ≡ covered xs n (suc i) = omega (arith, e, from, to, moves) in
      let next_of : amounts.shifted (of w) (at amounts (map of xs) (k + n - 1))
            (at amounts (map of xs) (k - 1))
          ≡ of next =
        ap₂ (amounts.shifted (of w)) (at-of xs (k + n - 1)) (at-of xs (k - 1))
        ∙ exact.shifted_of w p q (omega (arith, e, from, within, small))
            (omega (arith, e, from, to, moves)) in
      let next_small : next ≤ limit = omega (arith, e, from, within, small) in
      let same = exact.less_of next best next_small b in
      let later : k + 1 ≡ suc (suc i) = omega (arith, at_k) in
      elim (Bool-cases (ltb next best)) [
        | inl less ↦
            rw (next_of, same, less, slide)
              (ap (λ f. slide amounts (map of xs) n left (k + 1) f k f) next_of
                ∙ slide-of xs n left (suc i) (k + 1) next k next small pos later sums next_small)
        | inr more ↦
            rw (next_of, same, more, slide)
              (ap (λ f. slide amounts (map of xs) n left (k + 1) f start (of best)) next_of
                ∙ slide-of xs n left (suc i) (k + 1) next start best small pos later sums b)
      ]

  -- A new node gets a range of the model's layers, not empty if there are any, whose coverage by
  -- the registered nodes is the least of all ranges of its length, and the first such. The amounts
  -- of memory are whole numbers, and computing with these is exact up to the sum of the coverage of
  -- all layers.
  pub assign_layers-IsLeastCovered :
      (total_layers : ℕ) (nodes : List (Registered ℕ)) (vram_gb : ℕ)
      → sum (coverage_of whole total_layers nodes) ≤ limit
      → IsLeastCovered total_layers nodes
          (assign_layers amounts total_layers (map as_amount nodes) (of vram_gb))
  unfolding assign_layers
  assign_layers-IsLeastCovered total_layers nodes vram_gb small =
      let total_vram =
        amounts.add (amounts.sum (map (λ n. n.vram_gb) (map as_amount nodes))) (of vram_gb) in
      let n = share amounts total_layers (of vram_gb) total_vram in
      let xs = coverage_of whole total_layers nodes in
      let first_sum = sum (take n xs) in
      let best = slide whole xs n (total_layers - n) 1 first_sum 0 first_sum in
      let covers : coverage_of amounts total_layers (map as_amount nodes) ≡ map of xs =
        ap (cover amounts total_layers (map as_amount nodes)) (replicate-of total_layers)
        ∙ cover-of total_layers nodes (replicate total_layers 0) small in
      let first_small : first_sum ≤ limit = omega (arith, sum-take n xs, small) in
      let starts : amounts.sum (take n (map of xs)) ≡ of first_sum =
        ap amounts.sum (take-of n xs) ∙ exact.sum_of (take n xs) first_small in
      elim (Bool-cases (amounts.is_zero total_vram)) [
        | inl none_at_all ↦ rw none_at_all (whole-IsLeastCovered total_layers nodes)
        | inr some_vram ↦ elim (Bool-cases (n == total_layers)) [
          | inl all_layers ↦ rw (some_vram, all_layers) (whole-IsLeastCovered total_layers nodes)
          | inr part ↦
              let fewer : n < total_layers = ground (arith, part) in
              let pos : 1 ≤ n = ground (arith, part) in
              let l =
                slide-IsLeast xs n (total_layers - n) 0 1 first_sum 0 first_sum pos refl refl refl
                  (start-IsLeast xs n) in
              let slid : slide amounts (coverage_of amounts total_layers (map as_amount nodes)) n
                    (total_layers - n) 1
                    (amounts.sum (take n (coverage_of amounts total_layers (map as_amount nodes))))
                    0
                    (amounts.sum (take n (coverage_of amounts total_layers (map as_amount nodes))))
                  ≡ best =
                ap
                  (λ c.
                    slide amounts c n (total_layers - n) 1 (amounts.sum (take n c)) 0
                      (amounts.sum (take n c)))
                  covers
                ∙ ap (λ f. slide amounts (map of xs) n (total_layers - n) 1 f 0 f) starts
                ∙ slide-of xs n (total_layers - n) 0 1 first_sum 0 first_sum small pos refl refl
                    first_small in
              rw (some_vram, part, slid)
                (record {
                  width = n;
                  ends = refl;
                  within = omega (arith, l.in_range, fewer);
                  some_layers = λ p. pos;
                  least = λ start inside. l.least start (omega (arith, inside));
                  first = l.first;
                })
        ]
      ]

-- A range of the model's layers, which is not empty if there are any.
pub record InModel (total_layers : ℕ) (range : ℕ × ℕ) : Type 0 where
  pub within : range.1 ≤ total_layers
  pub ordered : range.0 ≤ range.1
  pub not_empty : 1 ≤ total_layers → range.0 < range.1

module _ (amounts : Amounts) where
  slide-bound :
      (coverage : List amounts.F) (n left i : ℕ) (w : amounts.F) (start : ℕ) (best : amounts.F)
      → start < i
      → slide amounts coverage n left i w start best < i + left
  unfolding slide
  slide-bound coverage n zero i w start best before = omega (arith, before)
  slide-bound coverage n (suc left) i w start best before =
      let next =
        amounts.shifted w (at amounts coverage (i + n - 1)) (at amounts coverage (i - 1)) in
      let at_i = slide-bound coverage n left (i + 1) next i next (omega arith) in
      let at_start = slide-bound coverage n left (i + 1) next start best (omega (arith, before)) in
      elim (Bool-cases (amounts.is_less next best)) [
        | inl less ↦ rw (less, slide) (omega (arith, at_i))
        | inr more ↦ rw (more, slide) (omega (arith, at_start))
      ]

  -- Whatever the amounts and however they are rounded, the layers are such a range.
  pub assign_layers-InModel :
      (total_layers : ℕ) (nodes : List (Registered amounts.F)) (vram_gb : amounts.F)
      → InModel total_layers (assign_layers amounts total_layers nodes vram_gb)
  unfolding assign_layers
  assign_layers-InModel total_layers nodes vram_gb =
      let total_vram = amounts.add (amounts.sum (map (λ n. n.vram_gb) nodes)) vram_gb in
      let n = share amounts total_layers vram_gb total_vram in
      let xs = coverage_of amounts total_layers nodes in
      let first_sum = amounts.sum (take n xs) in
      let all : InModel total_layers (0, total_layers) = record {
        within = omega arith;
        ordered = omega arith;
        not_empty = λ p. p;
      } in
      elim (Bool-cases (amounts.is_zero total_vram)) [
        | inl none_at_all ↦ rw none_at_all all
        | inr some_vram ↦ elim (Bool-cases (n == total_layers)) [
          | inl all_layers ↦ rw (some_vram, all_layers) all
          | inr part ↦
              let fewer : n < total_layers = ground (arith, part) in
              let pos : 1 ≤ n = ground (arith, part) in
              let b = slide-bound xs n (total_layers - n) 1 first_sum 0 first_sum (omega arith) in
              rw (some_vram, part)
                (record {
                  within = omega (arith, b, fewer);
                  ordered = omega arith;
                  not_empty = λ p. omega (arith, pos);
                })
        ]
      ]
