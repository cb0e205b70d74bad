-- ===== src/Common/Json.antt =====
-- JSON values as Python holds them, and the standard library's encoding and hashing of them.
use Prim.Native.Nat.{ℕ}
use Prim.Native.String.{String}
use mathlib.Core.Bool.{Bool}
use mathlib.Core.List.{List, [], ◌∷◌}
use mathlib.Core.Option.{Option, none, some}
use szl_mesh.Common.Order.{◌=?◌, str_ord}
use szl_mesh.Common.Tests.{if◌then◌else◌}

-- `negative n` is -(n + 1), and `float` holds the text that `repr` gives the number.
mutual
  pub data Json : Type 0 where
    null : Json
    bool : Bool → Json
    int : ℕ → Json
    negative : ℕ → Json
    float : String → Json
    str : String → Json
    arr : Items → Json
    obj : Fields → Json

  pub data Items : Type 0 where
    nil : Items
    cons : Json → Items → Items

  pub data Fields : Type 0 where
    end : Fields
    field : String → Json → Fields → Fields

abbrev pub to_items : List Json → Items
to_items [] = nil
to_items (x ∷ xs) = cons x (to_items xs)

abbrev pub to_fields : List (String × Json) → Fields
to_fields [] = end
to_fields ((k, v) ∷ kvs) = field k v (to_fields kvs)

abbrev pub array : List Json → Json
array xs = arr (to_items xs)

abbrev pub object : List (String × Json) → Json
object kvs = obj (to_fields kvs)

-- `d.get(k)` on the fields of a dictionary.
unfoldable pub get_field : String → Fields → Option Json
get_field k end = none
get_field k (field j v fs) = if j =? k then some v else get_field k fs

abbrev pub Bytes : Type 0
Bytes = List ℕ

-- What the source uses of the standard library's encodings and hashes. Which bytes and digests they
-- give is left open: `canonical` is `json.dumps(..., separators=(",", ":"), sort_keys=True)` as
-- bytes, `canonical_json` the same with `ensure_ascii=False`, `sha256` the digest in hexadecimal.
pub record Hashing : Type 0 where
  pub canonical : Json → Bytes
  pub canonical_json : Json → Bytes
  pub utf8 : String → Bytes
  pub sha256 : Bytes → String
  pub hmac_sha256 : Bytes → Bytes → Bytes
  pub base64 : Bytes → String
