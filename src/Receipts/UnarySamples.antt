-- ===== src/Receipts/UnarySamples.antt =====
-- A codec and a key for the runs and examples of receipts that are issued.
use Prim.Native.String.append as text_append
use Prim.Native.String.{◌++◌ as append_str, ◌∷◌ as cons_str}
use szl_mesh.Common.Dsse.{ascii}
use szl_mesh.Common.Json.{Json, Bytes}
use szl_mesh.Common.Order.{str_ord}
use szl_mesh.Common.Result.{ok, raise, value_error}
use szl_mesh.Common.{
  ℕ, zero, suc, ◌+◌, ◌-◌, ◌%◌, true, String, none, some, Option, [], ◌∷◌, ◌≡◌, refl, ap, ap₂, ◌∙◌,
  arith, if◌then◌else◌, ◌==◌,
}
use szl_mesh.Receipts.Base64.{Codec}
use szl_mesh.Receipts.Issue.{KeyPair}
use szl_mesh.Receipts.{Crypto, pad, text_length, rstrip_pad, same_bytes}

-- A codec that writes each byte in unary.
abbrev pub run : ℕ → String → String
run zero s = cons_str "b" s
run (suc n) s = cons_str "a" (run n s)

abbrev pub unary : Bytes → String
unary [] = ""
unary (n ∷ ns) = run n (unary ns)

abbrev pub parse : ℕ → Bytes → Bytes
parse n [] = []
parse n (c ∷ cs) =
    let more = parse (suc n) cs in
    let next = parse 0 cs in if c == b'a' then more else if c == b'b' then n ∷ next else []

abbrev pub fill : Bytes → ℕ
fill b = (4 - text_length (unary b) % 4) % 4

abbrev pub unary_crypto : (Bytes → Option Json) → Crypto
unary_crypto loads = record {
  PublicKey = ℕ;
  PrivateKey = ℕ;
  urlsafe_b64decode = λ s. some (parse 0 (ascii s));
  urlsafe_b64encode = λ b. append_str (unary b) (pad (fill b));
  loads = loads;
  load_der_public_key = λ b. elim b [ [] ↦ raise value_error | k ∷ ks ↦ ok k ];
  is_p256 = λ k. true;
  public_bytes = λ k. k ∷ [];
  verify = λ k sig m. same_bytes sig (k ∷ m);
  public_key = λ k. k;
  sign = λ k m. k ∷ m;
  strptime = λ s. none;
}

parse-pad : (n k : ℕ) → parse n (ascii (pad k)) ≡ []
parse-pad n zero = refl
parse-pad n (suc k) = refl

parse-run :
    (m n : ℕ) (s t : String)
    → parse m (ascii (append_str (run n s) t)) ≡ (m + n) ∷ parse 0 (ascii (append_str s t))
parse-run m zero s t =
    rw (text_append.cons "b" s t) (ap (λ k. k ∷ parse 0 (ascii (append_str s t))) (omega arith))
parse-run m (suc n) s t =
    rw (text_append.cons "a" (run n s) t)
      (parse-run (suc m) n s t ∙ ap (λ k. k ∷ parse 0 (ascii (append_str s t))) (omega arith))

parse-unary : (b : Bytes) (k : ℕ) → parse 0 (ascii (append_str (unary b) (pad k))) ≡ b
parse-unary [] k = rw (text_append.nil (pad k)) (parse-pad 0 k)
parse-unary (n ∷ ns) k =
    parse-run 0 n (unary ns) (pad k) ∙ ap₂ (λ m ms. m ∷ ms) (omega arith) (parse-unary ns k)

bare_run : (n : ℕ) (s : String) → rstrip_pad s ≡ s → rstrip_pad (run n s) ≡ run n s
bare_run zero s e = rw e (ground arith)
bare_run (suc n) s e = rw (bare_run n s e) (ground arith)

bare_unary : (b : Bytes) → rstrip_pad (unary b) ≡ unary b
bare_unary [] = refl
bare_unary (n ∷ ns) = bare_run n (unary ns) (bare_unary ns)

pub codec : (loads : Bytes → Option Json) → Codec (unary_crypto loads)
codec loads = record {
  body = unary;
  pads = fill;
  few = λ b. omega arith;
  padded = λ b. refl;
  aligned = λ b. omega arith;
  bare = bare_unary;
  decodes = λ b. ap some (parse-unary b (fill b));
}

same_bytes_refl : (xs : Bytes) → same_bytes xs xs ≡ true
same_bytes_refl [] = refl
same_bytes_refl (x ∷ xs) = ground (arith, same_bytes_refl xs)

pub pair : (loads : Bytes → Option Json) → KeyPair (unary_crypto loads) 7
pair loads = record { loads = refl; curve = refl; verifies = λ m. same_bytes_refl (7 ∷ m) }
