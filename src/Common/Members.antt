-- ===== src/Common/Members.antt =====
-- Lists of texts as Python uses them for sets: membership, and lists that hold no text twice.
use mathlib.Core.Bool.{Bool, true, false, not, ◌&&◌, ◌||◌}
use mathlib.Core.List.{List, [], ◌∷◌, ◌++◌}
use mathlib.Core.Path.{◌≡◌, refl}
use native.Mathlib.Omega.{arith}
use Prim.Native.Nat.{◌≤◌, ◌<◌}
use Prim.Native.String.{String}
use szl_mesh.Common.Lists.{any, length, select}
use szl_mesh.Common.Order.{◌=?◌, str_ord}

abbrev pub mem : String → List String → Bool
mem x xs = any (λ y. y =? x) xs

-- No text twice.
abbrev pub Distinct : List String → Type 0
Distinct [] = Unit
Distinct (x ∷ xs) = (mem x xs ≡ false) × Distinct xs

pub mem-append :
    (x : String) (xs : List String) (y : String) → mem x (xs ++ y ∷ []) ≡ mem x xs || (y =? x)
mem-append x [] y = ground arith
mem-append x (z ∷ xs) y = ground (arith, mem-append x xs y)

pub Distinct-append :
    (xs : List String) (y : String) → Distinct xs → mem y xs ≡ false → Distinct (xs ++ y ∷ [])
Distinct-append [] y d m = (refl, tt)
Distinct-append (x ∷ xs) y d m = (
  ground (arith, d.0, m, mem-append x xs y, str_ord.same y x, str_ord.cmp_self x),
  Distinct-append xs y d.1 (ground arith),
)

mem-drop :
    (x y : String) (ys : List String)
    → mem x (select (λ z. not (z =? y)) ys) ≡ mem x ys && not (y =? x)
mem-drop x y [] = refl
mem-drop x y (z ∷ ys) =
    ground (arith, mem-drop x y ys, str_ord.same z y, str_ord.same z x, str_ord.same y x)

length-drop-le :
    (y : String) (ys : List String) → length (select (λ z. not (z =? y)) ys) ≤ length ys
length-drop-le y [] = ground arith
length-drop-le y (z ∷ ys) = ground (arith, length-drop-le y ys)

length-drop :
    (y : String) (ys : List String)
    → mem y ys ≡ true
    → length (select (λ z. not (z =? y)) ys) < length ys
length-drop y [] m = cc
length-drop y (z ∷ ys) m = ground (arith, length-drop y ys, length-drop-le y ys)

-- A list of different texts is no longer than a list that has them all.
pub length-Distinct :
    (xs ys : List String)
    → Distinct xs
    → ((x : String) → mem x xs ≡ true → mem x ys ≡ true)
    → length xs ≤ length ys
length-Distinct [] ys d sub = ground arith
length-Distinct (x ∷ xs) ys d sub =
    let rest = select (λ z. not (z =? x)) ys in
    let shorter = length-drop x ys (sub x (ground (arith, str_ord.cmp_self x))) in
    let ih = length-Distinct xs rest d.1 (λ y m.
      ground (arith, mem-drop y x ys, sub y (ground (arith, m)), m, d.0, str_ord.same x y)) in
    omega (arith, shorter, ih)
