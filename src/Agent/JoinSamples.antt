-- ===== src/Agent/JoinSamples.antt =====
-- Sample data for join tokens: base64 is replaced by a unary code, and JSON by one payload.
use Prim.Native.String.{◌∷◌ as cons_str}
use szl_mesh.Agent.Gate.{Floats}
use szl_mesh.Agent.Token.Genuine.{IsBase64}
use szl_mesh.Agent.Token.{NodeHardware, Encoding, rsplit_dot}
use szl_mesh.Common.Dsse.{ascii}
use szl_mesh.Common.Json.{Fields, Bytes, Hashing, int, str, obj, to_fields}
use szl_mesh.Common.Result.{ok, raise, type_error}
use szl_mesh.Common.Order.{str_ord}
use szl_mesh.Common.{
  ℕ, zero, suc, ◌+◌, String, none, some, false, [], ◌∷◌, ◌++◌, ◌≡◌, refl, ap, ap₂, ◌∙◌, arith,
  if◌then◌else◌, ◌==◌, leb,
}

-- Numbers in unary: `n` times "a", and a "b".
abbrev run : ℕ → String → String
run zero s = cons_str "b" s
run (suc n) s = cons_str "a" (run n s)

abbrev unary : Bytes → String
unary [] = ""
unary (n ∷ ns) = run n (unary ns)

abbrev parse : ℕ → Bytes → Bytes
parse n [] = []
parse n (c ∷ cs) =
    let more = parse (suc n) cs in let next = parse 0 cs in if c == b'a' then more else n ∷ next

parse-run : (m n : ℕ) (s : String) → parse m (ascii (run n s)) ≡ (m + n) ∷ parse 0 (ascii s)
parse-run m zero s = ap (λ k. k ∷ parse 0 (ascii s)) (omega arith)
parse-run m (suc n) s = parse-run (suc m) n s ∙ ap (λ k. k ∷ parse 0 (ascii s)) (omega arith)

parse-unary : (b : Bytes) → parse 0 (ascii (unary b)) ≡ b
parse-unary [] = refl
parse-unary (n ∷ ns) =
    parse-run 0 n (unary ns) ∙ ap₂ (λ m ms. m ∷ ms) (omega arith) (parse-unary ns)

dotless_run : (n : ℕ) (s : String) → rsplit_dot s ≡ none → rsplit_dot (run n s) ≡ none
unfolding rsplit_dot
dotless_run zero s e = rw (e, rsplit_dot) refl
dotless_run (suc n) s e = rw (dotless_run n s e, rsplit_dot) refl

dotless_unary : (b : Bytes) → rsplit_dot (unary b) ≡ none
unfolding rsplit_dot
dotless_unary [] = refl
dotless_unary (n ∷ ns) = dotless_run n (unary ns) (dotless_unary ns)

abbrev pub payload : Fields
payload = to_fields (("node_id", str "tower") ∷ ("expires_at", int 3700) ∷ [])

abbrev pub hashing : Hashing
hashing = record {
  canonical = λ j. [];
  canonical_json = λ j. 4 ∷ [];
  utf8 = ascii;
  sha256 = λ bs. "tower";
  hmac_sha256 = λ k bs. k ++ bs;
  base64 = λ bs. "";
}

abbrev pub encoding : Encoding
encoding = record {
  urlsafe_b64encode = unary;
  urlsafe_b64decode = λ s. some (parse 0 (ascii s));
  loads = λ b. some (obj payload);
  is_before = λ t now. false;
}

pub base64 : IsBase64 hashing encoding
base64 = record { decodes = λ b. ap some (parse-unary b); dotless = dotless_unary }

abbrev pub floats : Floats
floats = record {
  F = ℕ;
  zero = 0;
  half = 1;
  one = 2;
  is_equal = λ a b. a == b;
  is_at_least = λ a b. leb b a;
  to_json = int;
  to_float = λ x. elim x [ int n ↦ ok n | _ ↦ raise type_error ];
  one_at_least_half = refl;
  zero_not_at_least_half = refl;
}

abbrev pub tower : NodeHardware
tower = record {
  node_name = "tower-4060ti";
  hostname = "127.0.0.1";
  port = 8000;
  arch = "sm_89";
  backend = "CUDA";
  vram_gb = int 16;
  cpu_ram_gb = int 32;
  cpu_cores = 8;
  gpu_model = some "RTX 4060 Ti";
}

abbrev pub secret : Bytes
secret = 2 ∷ 3 ∷ []

abbrev pub token : String
token = "aaaab.aabaaabaaaab"
