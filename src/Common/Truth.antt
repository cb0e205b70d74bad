-- ===== src/Common/Truth.antt =====
-- Python's reading of JSON values: truth, `or`, and tests of a value's type.
use mathlib.Core.Bool.{Bool, true, false}
use mathlib.Core.List.{List, [], ◌∷◌}
use mathlib.Core.Option.{Option, none, some}
use mathlib.Core.Path.{◌≡◌, ap}
use native.Mathlib.Omega.{arith}
use Prim.Native.Nat.{ℕ}
use Prim.Native.String.{String}
use szl_mesh.Common.Json.{
  Json, Items, Fields, null, bool, int, negative, float, str, arr, obj, nil, cons, end, field,
  get_field,
}
use szl_mesh.Common.Order.{◌=?◌, str_ord}
use szl_mesh.Common.Tests.{if◌then◌else◌, ◌==◌}

-- `bool(x)`; the numbers that are equal to 0 print as `0.0` and `-0.0`.
abbrev pub truthy : Json → Bool
truthy null = false
truthy (bool b) = b
truthy (int n) = if n == 0 then false else true
truthy (negative n) = true
truthy (float s) = if s =? "0.0" then false else if s =? "-0.0" then false else true
truthy (str s) = if s =? "" then false else true
truthy (arr nil) = false
truthy (arr (cons x xs)) = true
truthy (obj end) = false
truthy (obj (field k v fs)) = true

-- `x or y`
abbrev pub or_json : Json → Json → Json
or_json x y = if truthy x then x else y

-- `d.get(k, default)`
unfoldable pub get_or : String → Json → Fields → Json
unfolding get_field
get_or k default fs = elim (get_field k fs) [ none ↦ default | some v ↦ v ]

-- `d.get(k)`
abbrev pub get : String → Fields → Json
get k d = get_or k null d

abbrev pub as_text : Json → Option String
as_text (str s) = some s
as_text _ = none

abbrev pub as_fields : Json → Option Fields
as_fields (obj fs) = some fs
as_fields _ = none

abbrev pub as_list : Json → Option Items
as_list (arr xs) = some xs
as_list _ = none

-- The value is this text.
abbrev pub is_text : String → Json → Bool
is_text s (str t) = t =? s
is_text s _ = false

-- The value is this number, and no Boolean.
abbrev pub is_int : ℕ → Json → Bool
is_int n (int m) = m == n
is_int n _ = false

abbrev pub from_items : Items → List Json
from_items nil = []
from_items (cons x xs) = x ∷ from_items xs

pub as_fields_lem : (j : Json) (fs : Fields) → as_fields j ≡ some fs → j ≡ obj fs
as_fields_lem null gs e = cc
as_fields_lem (bool b) gs e = cc
as_fields_lem (int m) gs e = cc
as_fields_lem (negative m) gs e = cc
as_fields_lem (float t) gs e = cc
as_fields_lem (str t) gs e = cc
as_fields_lem (arr xs) gs e = cc
as_fields_lem (obj fs) gs e = ap obj (cc e)

pub as_text_lem : (j : Json) (s : String) → as_text j ≡ some s → j ≡ str s
as_text_lem null s e = cc
as_text_lem (bool b) s e = cc
as_text_lem (int m) s e = cc
as_text_lem (negative m) s e = cc
as_text_lem (float t) s e = cc
as_text_lem (str t) s e = ap str (cc e)
as_text_lem (arr xs) s e = cc
as_text_lem (obj fs) s e = cc

pub is_text_lem : (s : String) (j : Json) → is_text s j ≡ true → j ≡ str s
is_text_lem s null e = cc
is_text_lem s (bool b) e = cc
is_text_lem s (int m) e = cc
is_text_lem s (negative m) e = cc
is_text_lem s (float t) e = cc
is_text_lem s (str t) e = ap str (str_ord.same t s (ground (arith, e)))
is_text_lem s (arr xs) e = cc
is_text_lem s (obj fs) e = cc
