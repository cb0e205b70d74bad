-- ===== src/Coordinator/Layers/Window.antt =====
-- The sliding window of `assign_layers` finds the least covered range, over whole numbers
-- (szl_mesh_coordinator.py).
use szl_mesh.Common.{
  ℕ, zero, suc, ◌+◌, ◌-◌, ◌*◌, ◌/◌, ◌≤◌, ◌<◌, List, [], ◌∷◌, ◌≡◌, refl, sym, ap, ◌∙◌, arith, ltb,
  ◌==◌, take, drop, Bool-cases, inl, inr, subst, ==_iff,
}
use szl_mesh.Coordinator.Layers.{Amounts, Registered, at, coverage_of, slide}

abbrev pub sum : List ℕ → ℕ
sum [] = 0
sum (x ∷ xs) = x + sum xs

-- Whole numbers as amounts; of a share the part after the point is dropped.
abbrev pub whole : Amounts
whole = record {
  F = ℕ;
  zero = 0;
  add = λ a b. a + b;
  shifted = λ w a b. w + a - b;
  sum = sum;
  is_less = ltb;
  is_zero = λ a. a == 0;
  rounded_share = λ n a b. n * a / b;
  of_json = λ j. 0;
}

-- The coverage of the `n` layers from `start` on.
abbrev pub covered : List ℕ → ℕ → ℕ → ℕ
covered coverage n start = sum (take n (drop start coverage))

pub take-more : (n : ℕ) (xs : List ℕ) → sum (take (suc n) xs) ≡ sum (take n xs) + at whole xs n
take-more zero [] = refl
take-more zero (x ∷ xs) = omega arith
take-more (suc n) [] = refl
take-more (suc n) (x ∷ xs) = omega (arith, take-more n xs)

-- Moving the window by one takes one layer in and leaves one out.
pub covered-next :
    (xs : List ℕ) (n j : ℕ)
    → covered xs n (suc j) + at whole xs j ≡ covered xs n j + at whole xs (j + n)
covered-next [] zero j = refl
covered-next [] (suc n) zero = refl
covered-next [] (suc n) (suc j) = refl
covered-next (x ∷ xs) n zero =
    let e : n ≡ 0 + n = omega arith in omega (arith, take-more n (x ∷ xs), ap (at whole (x ∷ xs)) e)
covered-next (x ∷ xs) n (suc j) =
    let e : suc (j + n) ≡ suc j + n = omega arith in
    covered-next xs n j ∙ ap (λ k. covered xs n j + at whole (x ∷ xs) k) e

-- The first of the least covered windows among those that start at `last` or before.
pub record IsLeast (coverage : List ℕ) (n last best : ℕ) : Type 0 where
  pub in_range : best ≤ last
  pub least : (j : ℕ) → j ≤ last → covered coverage n best ≤ covered coverage n j
  pub first : (j : ℕ) → j < best → covered coverage n best < covered coverage n j

extend-less :
    (xs : List ℕ) (n i best : ℕ)
    → IsLeast xs n i best
    → covered xs n (suc i) < covered xs n best
    → IsLeast xs n (suc i) (suc i)
extend-less xs n i best l less = record {
  in_range = omega arith;
  least = λ j before. elim (Bool-cases (j == suc i)) [
    | inl same ↦ ground (arith, same)
    | inr other ↦ omega (arith, less, l.least j (ground (arith, before, other)))
  ];
  first = λ j before. omega (arith, less, l.least j (omega (arith, before)));
}

extend-more :
    (xs : List ℕ) (n i best : ℕ)
    → IsLeast xs n i best
    → covered xs n best ≤ covered xs n (suc i)
    → IsLeast xs n (suc i) best
extend-more xs n i best l more = record {
  in_range = omega (arith, l.in_range);
  least = λ j before. elim (Bool-cases (j == suc i)) [
    | inl same ↦
        subst (λ k. covered xs n best ≤ covered xs n k) (sym ((==_iff j (suc i)).0 same)) more
    | inr other ↦ l.least j (ground (arith, before, other))
  ];
  first = l.first;
}

-- The loop keeps the least of the windows that it has seen, those up to `i`.
pub slide-IsLeast :
    (xs : List ℕ) (n left i k window_sum best best_sum : ℕ)
    → 1 ≤ n
    → k ≡ suc i
    → window_sum ≡ covered xs n i
    → best_sum ≡ covered xs n best
    → IsLeast xs n i best
    → IsLeast xs n (i + left) (slide whole xs n left k window_sum best best_sum)
unfolding slide
slide-IsLeast xs n zero i k window_sum best best_sum pos at_k e b l =
    subst (λ m. IsLeast xs n m best) (omega arith) l
slide-IsLeast xs n (suc left) i k window_sum best best_sum pos at_k e b l =
    let next = window_sum + at whole xs (k + n - 1) - at whole xs (k - 1) in
    let from : k + n - 1 ≡ i + n = omega (arith, at_k) in
    let to : k - 1 ≡ i = omega (arith, at_k) in
    let e' : next ≡ covered xs n (suc i) =
      omega (arith, e, covered-next xs n i, ap (at whole xs) from, ap (at whole xs) to) in
    elim (Bool-cases (ltb next best_sum)) [
      | inl less ↦
          rw (less, slide)
            (subst (λ m. IsLeast xs n m (slide whole xs n left (k + 1) next k next)) (omega arith)
              (slide-IsLeast xs n left (suc i) (k + 1) next k next pos (omega (arith, at_k)) e'
                (e' ∙ ap (covered xs n) (sym at_k))
                (subst (IsLeast xs n (suc i)) (sym at_k)
                  (extend-less xs n i best l (ground (arith, less, e', b))))))
      | inr not_less ↦
          rw (not_less, slide)
            (subst (λ m. IsLeast xs n m (slide whole xs n left (k + 1) next best best_sum))
              (omega arith)
              (slide-IsLeast xs n left (suc i) (k + 1) next best best_sum pos (omega (arith, at_k))
                e' b (extend-more xs n i best l (ground (arith, not_less, e', b)))))
    ]

pub start-IsLeast : (xs : List ℕ) (n : ℕ) → IsLeast xs n 0 0
start-IsLeast xs n = record {
  in_range = omega arith;
  least = λ j before.
      let e : 0 ≡ j = omega (arith, before) in
      subst (λ k. covered xs n 0 ≤ covered xs n k) e (omega arith);
  first = λ j before. absurd (omega (arith, before));
}

-- A range of the model's layers, not empty if there are any, whose coverage by the registered nodes
-- is the least of all ranges of its length, and the first such.
pub record IsLeastCovered (total_layers : ℕ) (nodes : List (Registered ℕ)) (range : ℕ × ℕ)
    : Type 0 where
  pub width : ℕ
  pub ends : range.1 ≡ range.0 + width
  pub within : range.1 ≤ total_layers
  pub some_layers : 1 ≤ total_layers → 1 ≤ width
  pub least :
      (start : ℕ)
      → start + width ≤ total_layers
      → covered (coverage_of whole total_layers nodes) width range.0
        ≤ covered (coverage_of whole total_layers nodes) width start
  pub first :
      (start : ℕ)
      → start < range.0
      → covered (coverage_of whole total_layers nodes) width range.0
        < covered (coverage_of whole total_layers nodes) width start

pub whole-IsLeastCovered :
    (total_layers : ℕ) (nodes : List (Registered ℕ))
    → IsLeastCovered total_layers nodes (0, total_layers)
whole-IsLeastCovered total_layers nodes = record {
  width = total_layers;
  ends = omega arith;
  within = omega arith;
  some_layers = λ p. p;
  least = λ start inside.
      let e : 0 ≡ start = omega (arith, inside) in
      let xs = coverage_of whole total_layers nodes in
      subst (λ k. covered xs total_layers 0 ≤ covered xs total_layers k) e (omega arith);
  first = λ start before. absurd (omega (arith, before));
}
