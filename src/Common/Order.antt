-- ===== src/Common/Order.antt =====
-- Lawful three-way comparisons: the order that Python's `<` gives numbers, texts, booleans and
-- tuples, and the equality test that goes with it.
use Prim.Native.Nat.{ℕ, compare, Ordering}
use Prim.Native.Nat.Ordering.{lt, eq, gt}
use Prim.Native.String.compare as text_compare
use Prim.Native.String.{String, compare as str_compare, then}
use mathlib.Core.Bool.{Bool, true, false}
use mathlib.Core.HLevel.{hedberg}
use mathlib.Core.Logic.{◌↔◌, inl, inr}
use mathlib.Core.Path.{◌≡◌}
use native.Mathlib.Omega.{arith}
use text.Mathlib.TextEquality.{path_by_compare}
use text.Mathlib.TextPositions.{compare_refl}
use szl_mesh.Common.Tests.{Bool-cases}

abbrev pub reverse : Ordering → Ordering
reverse lt = gt
reverse eq = eq
reverse gt = lt

pub record IsLawful {ℓ} {K : Type ℓ} (order : K → K → Ordering) : Type ℓ where
  pub cmp_self : (a : K) → order a a ≡ eq
  pub same : (a b : K) → order a b ≡ eq → a ≡ b
  pub mirror : (a b : K) → order b a ≡ reverse (order a b)
  pub chain : (a b c : K) → order a b ≡ lt → order b c ≡ lt → order a c ≡ lt

pub record Ord {ℓ} (K : Type ℓ) : Type ℓ where
  pub cmp : K → (K → Ordering)
  pub lawful : IsLawful cmp
  pub open lawful use *

module _ {ℓ} {K : Type ℓ} ⦃o : Ord K⦄ where
  infix 50 ◌=?◌ ◌<?◌
  abbrev pub ◌=?◌ : K → K → Bool
  a =? b = elim (o.cmp a b) [ eq ↦ true | _ ↦ false ]

  abbrev pub ◌<?◌ : K → K → Bool
  a <? b = elim (o.cmp a b) [ lt ↦ true | _ ↦ false ]

  pub =?_iff : (a b : K) → ((a =? b) ≡ true) ↔ (a ≡ b)
  =?_iff a b = ground (arith, o.same a b, o.cmp_self a)

  pub Ord-discrete : Discrete K
  Ord-discrete a b = elim (Bool-cases (a =? b)) [
    | inl e ↦ yes ((=?_iff a b).0 e)
    | inr e ↦ no (λ p. ground (arith, o.cmp_self b, p))
  ]

  pub Ord-set : IsSet K
  Ord-set = hedberg Ord-discrete

pub nat-IsLawful : IsLawful compare
nat-IsLawful = ground arith

instance unfoldable pub nat_ord : Ord ℕ
nat_ord = record { cmp = compare; lawful = nat-IsLawful }

abbrev bool_cmp : Bool → Bool → Ordering
bool_cmp false true = lt
bool_cmp true false = gt
bool_cmp _ _ = eq

pub bool-IsLawful : IsLawful bool_cmp
bool-IsLawful = ground arith

instance unfoldable pub bool_ord : Ord Bool
bool_ord = record { cmp = bool_cmp; lawful = bool-IsLawful }

-- Texts compare by their code points, first difference first.
str_mirror : (s t : String) → str_compare t s ≡ reverse (str_compare s t)
str_mirror String.[] String.[] = rw text_compare.nil-nil
str_mirror String.[] (String.◌∷◌ d t) = rw (text_compare.nil-cons, text_compare.cons-nil)
str_mirror (String.◌∷◌ c s) String.[] = rw (text_compare.nil-cons, text_compare.cons-nil)
str_mirror (String.◌∷◌ c s) (String.◌∷◌ d t) =
    rw (text_compare.cons-cons d c t s, text_compare.cons-cons c d s t)
      (ground (arith, str_mirror s t))

str_chain : (s t u : String) → str_compare s t ≡ lt → str_compare t u ≡ lt → str_compare s u ≡ lt
str_chain String.[] (String.◌∷◌ d t) (String.◌∷◌ e u) p q = text_compare.nil-cons e u
str_chain String.[] (String.◌∷◌ d t) String.[] p q = ground (arith, text_compare.cons-nil d t)
str_chain s String.[] String.[] p q = ground (arith, text_compare.nil-nil)
str_chain String.[] String.[] (String.◌∷◌ e u) p q = text_compare.nil-cons e u
str_chain (String.◌∷◌ c s) String.[] u p q = ground (arith, text_compare.cons-nil c s)
str_chain (String.◌∷◌ c s) (String.◌∷◌ d t) String.[] p q =
    ground (arith, text_compare.cons-nil d t)
str_chain (String.◌∷◌ c s) (String.◌∷◌ d t) (String.◌∷◌ e u) p q = ground (
  arith,
  text_compare.cons-cons c d s t,
  text_compare.cons-cons d e t u,
  text_compare.cons-cons c e s u,
  str_chain s t u,
)

pub str-IsLawful : IsLawful str_compare
str-IsLawful = record {
  cmp_self = compare_refl;
  same = path_by_compare;
  mirror = str_mirror;
  chain = str_chain;
}

instance unfoldable pub str_ord : Ord String
str_ord = record { cmp = str_compare; lawful = str-IsLawful }

-- Tuples compare by their first difference.
module _ {ℓ κ} {A : Type ℓ} {B : Type κ} ⦃left : Ord A⦄ ⦃right : Ord B⦄ where
  abbrev pub pair_cmp : A × B → A × B → Ordering
  pair_cmp x y = then (left.cmp x.0 y.0) (right.cmp x.1 y.1)

  pub pair-IsLawful : IsLawful {K = A × B} pair_cmp
  pair-IsLawful = record {
    cmp_self = λ x. ground (arith, left.cmp_self x.0, right.cmp_self x.1);
    same = λ x y. ground (arith, left.same x.0 y.0, right.same x.1 y.1);
    mirror = λ x y. ground (arith, left.mirror x.0 y.0, right.mirror x.1 y.1);
    chain = λ x y z. ground (
      arith,
      left.same x.0 y.0,
      left.same y.0 z.0,
      left.chain x.0 y.0 z.0,
      right.chain x.1 y.1 z.1,
    );
  }

  instance unfoldable pub pair_ord : Ord (A × B)
  pair_ord = record { cmp = pair_cmp; lawful = pair-IsLawful }
