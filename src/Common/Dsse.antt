-- ===== src/Common/Dsse.antt =====
-- The DSSE pre-authentication encoding, which receipts.py and szl_mesh_agent.py both write out.
use Prim.Native.Char.{code}
use Prim.Native.Nat.{ℕ, zero, suc, ◌+◌, ◌/◌, ◌%◌}
use Prim.Native.String.{String}
use mathlib.Core.List.{[], ◌∷◌, ◌++◌}
use szl_mesh.Common.Json.{Bytes}
use szl_mesh.Common.Lists.{length}
use szl_mesh.Common.Tests.{ltb, if◌then◌else◌}

-- The bytes of an ASCII text.
abbrev pub ascii : String → Bytes
ascii String.[] = []
ascii (String.◌∷◌ c s) = code c ∷ ascii s

-- `str(n).encode()`, for `n` below the fuel.
pub decimal_loop : ℕ → ℕ → Bytes
decimal_loop zero n = []
decimal_loop (suc f) n =
    let rest = decimal_loop f (n / 10) in
    if ltb n 10 then (b'0' + n) ∷ [] else rest ++ (b'0' + n % 10) ∷ []

unfoldable pub decimal : ℕ → Bytes
unfolding decimal_loop
decimal n = decimal_loop (suc n) n

-- "DSSEv1" SP LEN(type) SP type SP LEN(body) SP body
unfoldable pub pae : Bytes → Bytes → Bytes
unfolding decimal
pae t body =
    ascii "DSSEv1 "
    ++ (decimal (length t) ++ (b' ' ∷ (t ++ (b' ' ∷ (decimal (length body) ++ (b' ' ∷ body))))))
