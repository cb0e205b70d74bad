-- ===== src/Receipts/Base64.antt =====
-- Base64 without its padding (receipts.py, `_b64url_encode` and `_b64url_decode`).
use Prim.Native.String.append as text_append
use Prim.Native.String.{◌++◌ as append_str}
use szl_mesh.Common.Json.{Bytes, Hashing, str}
use szl_mesh.Common.Order.{str_ord}
use szl_mesh.Common.Result.{ok}
use szl_mesh.Common.{ℕ, zero, suc, ◌+◌, ◌-◌, ◌%◌, ◌<◌, String, some, ◌≡◌, refl, sym, ap, ◌∙◌, arith}
use szl_mesh.Receipts.{
  Crypto, pad, text_length, rstrip_pad, or_value_error, b64url_encode, b64url_decode,
}

-- RFC 4648: an encoded text is a body without "=" at its end, padded to a multiple of four
-- characters, and it decodes to what was encoded.
pub record Codec (crypto : Crypto) : Type 0 where
  pub body : Bytes → String
  pub pads : Bytes → ℕ
  pub few : (b : Bytes) → pads b < 4
  pub padded : (b : Bytes) → crypto.urlsafe_b64encode b ≡ append_str (body b) (pad (pads b))
  pub aligned : (b : Bytes) → (text_length (body b) + pads b) % 4 ≡ 0
  pub bare : (b : Bytes) → rstrip_pad (body b) ≡ body b
  pub decodes : (b : Bytes) → crypto.urlsafe_b64decode (crypto.urlsafe_b64encode b) ≡ some b

rstrip_all : (k : ℕ) → rstrip_pad (pad k) ≡ ""
rstrip_all zero = refl
rstrip_all (suc k) = rw (rstrip_all k) (ground (arith, str_ord.cmp_self ""))

rstrip_padded : (s : String) (k : ℕ) → rstrip_pad (append_str s (pad k)) ≡ rstrip_pad s
rstrip_padded String.[] k = rw (text_append.nil (pad k)) (rstrip_all k)
rstrip_padded (String.◌∷◌ c s) k = rw (text_append.cons c s (pad k), rstrip_padded s k) refl

pads_again : (n k : ℕ) → k < 4 → (n + k) % 4 ≡ 0 → (4 - n % 4) % 4 ≡ k
pads_again n k few aligned = omega (arith, few, aligned)

module _ (hashing : Hashing) (crypto : Crypto) (codec : Codec crypto) where
  -- Stripping the padding loses nothing.
  pub decode-encode :
      (b : Bytes) → b64url_decode hashing crypto (str (b64url_encode hashing crypto b)) ≡ ok b
  unfolding b64url_decode b64url_encode
  decode-encode b =
      let stripped : b64url_encode hashing crypto b ≡ codec.body b =
        ap rstrip_pad (codec.padded b)
        ∙ rstrip_padded (codec.body b) (codec.pads b)
        ∙ codec.bare b in
      ap
        (λ s.
          or_value_error
            (crypto.urlsafe_b64decode (append_str s (pad ((4 - text_length s % 4) % 4)))))
        stripped
      ∙ ap (λ k. or_value_error (crypto.urlsafe_b64decode (append_str (codec.body b) (pad k))))
          (pads_again (text_length (codec.body b)) (codec.pads b) (codec.few b) (codec.aligned b))
      ∙ ap (λ s. or_value_error (crypto.urlsafe_b64decode s)) (sym (codec.padded b))
      ∙ ap or_value_error (codec.decodes b)
