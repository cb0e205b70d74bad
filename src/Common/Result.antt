-- ===== src/Common/Result.antt =====
-- The outcome of Python code that may raise.
use mathlib.Core.Logic.{◌⊎◌, inl, inr}
use mathlib.Core.Path.{◌≡◌, refl, ap}

pub data Exception : Type 0 where
  value_error type_error key_error index_error runtime_error stop_iteration : Exception
  unsupported_algorithm simulation_error attribute_error spine_unavailable : Exception

pub data Result {ℓ} (A : Type ℓ) : Type ℓ where
  ok : A → Result A
  raise : Exception → Result A

infixl 5 ◌>>=◌
abbrev pub ◌>>=◌ {ℓ κ} : {A : Type ℓ} {B : Type κ} → Result A → (A → Result B) → Result B
ok a >>= f = f a
raise e >>= f = raise e

pub Result-cases {ℓ} :
    {A : Type ℓ} (o : Result A) → ((a : A) × (o ≡ ok a)) ⊎ ((e : Exception) × (o ≡ raise e))
Result-cases (ok a) = inl (a, refl)
Result-cases (raise e) = inr (e, refl)

abbrev from_ok {ℓ} : {A : Type ℓ} → A → Result A → A
from_ok a (ok b) = b
from_ok a (raise e) = a

pub ok_inj {ℓ} : {A : Type ℓ} {a b : A} → ok a ≡ ok b → a ≡ b
ok_inj {a = a} e = ap (from_ok a) e

abbrev from_raise {ℓ} : {A : Type ℓ} → Exception → Result A → Exception
from_raise d (ok a) = d
from_raise d (raise e) = e

pub raise_inj {ℓ} : {A : Type ℓ} {d e : Exception} → ◌≡◌ {A = Result A} (raise d) (raise e) → d ≡ e
raise_inj {d = d} p = ap (from_raise d) p

-- A chain that returns has returned at each of its steps.
pub bind-ok {ℓ κ} :
    {A : Type ℓ} {B : Type κ} (o : Result A) (f : A → Result B) (b : B)
    → o >>= f ≡ ok b
    → (a : A) × (o ≡ ok a) × (f a ≡ ok b)
bind-ok (ok a) f b e = (a, refl, e)
bind-ok (raise x) f b e = cc
