-- ===== src/Command/Clocks.antt =====
-- Vector clocks (mesh_command/app.py): what `compare_clocks` decides, and that `merge_clock` is the
-- pointwise maximum.
use mathlib.Core.List.Permᴰ as PermD
use mathlib.Core.List.{Permᴰ}
use szl_mesh.Command.{
  Clock, counter, Relation, before, after, equal, concurrent, compare_clocks, merge_values,
  merge_loop, merge_clock,
}
use szl_mesh.Common.Dict.{lookup, put, keys, IsMap, lookup-put, put-IsMap}
use szl_mesh.Common.Order.{str_ord, nat_ord, pair_ord}
use szl_mesh.Common.Sort.{sort_by-perm}
use szl_mesh.Common.{
  ℕ, max, ◌≤◌, Bool, true, false, ◌&&◌, String, List, [], ◌∷◌, ◌++◌, ◌≡◌, refl, sym, ap, ◌∙◌, arith,
  all, leb, Bool-cases, inl, inr, All, subst,
}

-- No counter of the first clock is ahead of the second's.
abbrev pub Below : Clock → Clock → Type 0
Below c d = (name : String) → counter name c ≤ counter name d

abbrev pub Holds : Clock → Clock → Relation → Type 0
Holds c d before = Below c d × ¬ Below d c
Holds c d after = Below d c × ¬ Below c d
Holds c d equal = (name : String) → counter name c ≡ counter name d
Holds c d concurrent = ¬ Below c d × ¬ Below d c

all-append {ℓ} :
    {A : Type ℓ} (p : A → Bool) (xs ys : List A) → all p (xs ++ ys) ≡ all p xs && all p ys
all-append p [] ys = refl
all-append p (x ∷ xs) ys = ground (arith, all-append p xs ys)

all-true {ℓ} : {A : Type ℓ} (p : A → Bool) (xs : List A) → ((x : A) → p x ≡ true) → all p xs ≡ true
all-true p [] h = refl
all-true p (x ∷ xs) h = ground (arith, h x, all-true p xs h)

-- A name that is no key of a clock has counter 0 there.
all-at_key :
    (p : String → Bool) (name : String) (c : Clock)
    → all p (keys c) ≡ true
    → p name ≡ false
    → counter name c ≡ 0
unfolding counter lookup
all-at_key p name [] a f = refl
all-at_key p name ((k, n) ∷ c) a f = ground (arith, str_ord.same k name, all-at_key p name c)

test-Below :
    (c d : Clock) → all (λ name. leb (counter name c) (counter name d)) (keys c) ≡ true → Below c d
test-Below c d a name = elim (Bool-cases (leb (counter name c) (counter name d))) [
  | inl le ↦ ground (arith, le)
  | inr gt ↦ ground (arith, gt, all-at_key (λ x. leb (counter x c) (counter x d)) name c a gt)
]

-- The test of one direction over the names of both clocks.
abbrev is_below : Clock → Clock → List String → Bool
is_below c d names = all (λ name. leb (counter name c) (counter name d)) names

Below-is_below : (c d : Clock) (names : List String) → Below c d → is_below c d names ≡ true
Below-is_below c d names b =
    all-true (λ name. leb (counter name c) (counter name d)) names (λ name. ground (arith, b name))

-- The relation that is returned holds: before and after mean that no counter of one clock is ahead
-- and some counter of the other is, equal that all counters are, and concurrent that each clock has
-- a counter ahead.
pub compare_clocks_lem : (left right : Clock) → Holds left right (compare_clocks left right)
unfolding compare_clocks
compare_clocks_lem left right =
    let names = keys left ++ keys right in
    let halves = λ (c d : Clock).
      all-append (λ name. leb (counter name c) (counter name d)) (keys left) (keys right) in
    let le : is_below left right names ≡ true → Below left right =
      λ e. test-Below left right (ground (arith, e, halves left right)) in
    let ge : is_below right left names ≡ true → Below right left =
      λ e. test-Below right left (ground (arith, e, halves right left)) in
    let not_le : is_below left right names ≡ false → ¬ Below left right =
      λ e b. cc (e, Below-is_below left right names b) in
    let not_ge : is_below right left names ≡ false → ¬ Below right left =
      λ e b. cc (e, Below-is_below right left names b) in
    elim (Bool-cases (is_below left right names)) [
      | inl p ↦ elim (Bool-cases (is_below right left names)) [
        | inl q ↦ rw (p, q, compare_clocks) (λ name. omega (arith, le p name, ge q name))
        | inr q ↦ rw (p, q, compare_clocks) (le p, not_ge q)
      ]
      | inr p ↦ elim (Bool-cases (is_below right left names)) [
        | inl q ↦ rw (p, q, compare_clocks) (ge q, not_le p)
        | inr q ↦ rw (p, q, compare_clocks) (not_le p, not_ge q)
      ]
    ]

lookup_swap :
    (i j : String) (v w : ℕ) (m : Clock)
    → IsMap ((i, v) ∷ (j, w) ∷ m)
    → IsMap ((j, w) ∷ (i, v) ∷ m)
      × ((k : String) → lookup k ((i, v) ∷ (j, w) ∷ m) ≡ lookup k ((j, w) ∷ (i, v) ∷ m))
unfolding lookup
lookup_swap i j v w m u = (
  (ground (arith, u.0, u.1.0, str_ord.mirror i j), (ground (arith, u.0), u.1.1)),
  λ k. ground (arith, u.0, str_ord.same i k, str_ord.same j k, str_ord.cmp_self k),
)

-- A reordered map has the same answers.
lookup-perm :
    {m n : Clock} → Permᴰ m n → IsMap m → IsMap n × ((k : String) → lookup k m ≡ lookup k n)
unfolding lookup
lookup-perm Permᴰ.nil u = (tt, λ k. refl)
lookup-perm (Permᴰ.cons {a} {b} e p) u =
    let (unique, same) = lookup-perm p u.1 in
    ((sym (same b.0) ∙ rw (ap (λ x. x.0) (sym e)) u.0, unique), λ k. rw e (ground (arith, same k)))
lookup-perm (Permᴰ.swap {a} {b} {a'} {b'} {l = l} e f) u =
    subst (λ y. IsMap (y ∷ b' ∷ l) × ((k : String) → lookup k (a ∷ b ∷ l) ≡ lookup k (y ∷ b' ∷ l)))
      f
      (subst (λ x. IsMap (b ∷ x ∷ l) × ((k : String) → lookup k (a ∷ b ∷ l) ≡ lookup k (b ∷ x ∷ l)))
        e (lookup_swap a.0 b.0 a.1 b.1 l u))
lookup-perm (Permᴰ.trans p q) u =
    let (unique, same) = lookup-perm p u in
    let (unique', same') = lookup-perm q unique in (unique', λ k. same k ∙ same' k)

merge_values_lem :
    (merged c : Clock)
    → IsMap merged
    → IsMap c
    → IsMap (merge_values merged c)
      × ((name : String)
          → counter name (merge_values merged c) ≡ max (counter name merged) (counter name c))
unfolding merge_values counter lookup
merge_values_lem merged [] um uc = (um, λ name. ground arith)
merge_values_lem merged ((node, n) ∷ c) um uc =
    let raised = max (counter node merged) n in
    let (unique, at) =
      merge_values_lem (put node raised merged) c (put-IsMap node raised merged um) uc.1 in
    (
      unique,
      λ name. ground (
        arith,
        at name,
        lookup-put node name raised merged,
        str_ord.same node name,
        str_ord.cmp_self name,
        uc.0,
      ),
    )

-- The greatest counter of a name in any of the clocks, and 0 without a clock.
abbrev pub highest : String → List Clock → ℕ
highest name [] = 0
highest name (c ∷ clocks) = max (counter name c) (highest name clocks)

merge_loop_lem :
    (merged : Clock) (clocks : List Clock)
    → IsMap merged
    → All IsMap clocks
    → IsMap (merge_loop merged clocks)
      × ((name : String)
          → counter name (merge_loop merged clocks)
            ≡ max (counter name merged) (highest name clocks))
unfolding merge_loop
merge_loop_lem merged [] um us = (um, λ name. omega arith)
merge_loop_lem merged (c ∷ clocks) um us =
    let (unique, at) = merge_values_lem merged c um us.0 in
    let (unique', at') = merge_loop_lem (merge_values merged c) clocks unique us.1 in
    (unique', λ name. omega (arith, at name, at' name))

-- The merged clock has each name once, and its counter is the greatest in any of the clocks.
pub merge_clock_lem :
    (clocks : List Clock)
    → All IsMap clocks
    → IsMap (merge_clock clocks)
      × ((name : String) → counter name (merge_clock clocks) ≡ highest name clocks)
unfolding merge_clock counter lookup
merge_clock_lem clocks us =
    let (unique, at) = merge_loop_lem [] clocks tt us in
    let (sorted, same) =
      lookup-perm (PermD.symm (sort_by-perm (λ e. e) (merge_loop [] clocks))) unique in
    (sorted, λ name. ground (arith, same name, at name))
