-- ===== src/Quorum/Samples.antt =====
-- An engine, a signer and certificates for the runs and examples of the quorum.
use szl_mesh.Common.Dict.{Dict, lookup, has}
use szl_mesh.Common.Json.{Json, Fields, Hashing, null, str, obj, field, end, object, get_field}
use szl_mesh.Common.Order.{◌=?◌, str_ord}
use szl_mesh.Common.Result.{ok, raise, type_error, ok_inj}
use szl_mesh.Common.Truth.{get, truthy, get_or, as_text, is_text}
use szl_mesh.Common.{
  Bool, true, false, ◌&&◌, String, Option, none, some, List, [], ◌∷◌, ◌≡◌, refl, arith, map, length,
  if◌then◌else◌, leb, subst, ap, sym, ◌∙◌,
}
use szl_mesh.Quorum.Organs.{counts_for}
use szl_mesh.Quorum.Propose.Proposal.{SignsFor}
use szl_mesh.Quorum.Propose.{Signer}
use szl_mesh.Quorum.{Verdict, OrganCheck, Engine, QuorumCertificate, verdict_of, each_hashable}

abbrev pub signature_over : String → Json
signature_over ah = object (("over", str ah) ∷ [])

abbrev pub is_over : String → Json → Bool
is_over ah (obj (field k v end)) = (k =? "over") && is_text ah v
is_over ah _ = false

abbrev pub keyed : Option String → Dict String String → Bool
keyed none pubkeys = false
keyed (some organ) pubkeys = has organ pubkeys

abbrev pub toy_check : String → Dict String String → Verdict → OrganCheck
toy_check ah pubkeys v = record {
  organ = as_text v.organ;
  counts = keyed (as_text v.organ) pubkeys && (is_over ah v.signature && is_text "allow" v.verdict);
}

pub toy_check_keyed :
    (ah : String) (pubkeys : Dict String String) (v : Verdict) (organ : String)
    → (toy_check ah pubkeys v).counts ≡ true
    → (toy_check ah pubkeys v).organ ≡ some organ
    → has organ pubkeys ≡ true
toy_check_keyed ah pubkeys v organ c o = ground (arith, rw o at c)

abbrev pub engine : Engine
engine = record {
  check = toy_check;
  tally = λ ah vs pubkeys.
      if each_hashable vs then ok (map (toy_check ah pubkeys) vs) else raise type_error;
  tally_each = λ ah vs pubkeys. refl;
  check_organ = λ ah pubkeys v. refl;
  check_keyed = toy_check_keyed;
}

abbrev pub toy_witness : String → String → Fields
toy_witness organ ah = field "organ" (str organ) (
    field "keyid" (str organ) (
      field "payload" null
        (field "signature" (signature_over ah) (field "verdict" (str "allow") end))))

abbrev pub qc : QuorumCertificate
qc = record {
  action_hash = "h";
  witnesses =
      toy_witness "sentra" "h"
      ∷ toy_witness "amaru" "h"
      ∷ toy_witness "amaru" "h"
      ∷ toy_witness "a11oy" "x"
      ∷ toy_witness "killinchu" "h"
      ∷ [];
  threshold = 3;
  n = 4;
  canonical = true;
  consensus_count = 3;
}

abbrev pub pubkeys : Dict String String
pubkeys = ("sentra", "P1") ∷ ("amaru", "P2") ∷ ("a11oy", "P3") ∷ ("killinchu", "P4") ∷ []

abbrev pub toy_record : String → String → String → Fields
toy_record organ ah verdict =
    field "organ" (str organ)
      (field "signature" (signature_over ah) (field "verdict" (str verdict) end))

-- The public key of `s` is `P s`.
abbrev pub signer : Signer
signer = record {
  canonical_json = λ fs. [];
  strip_lower = λ s. s;
  sign_verdict = λ organ ah verdict pem reason lean_sha ts. ok (toy_record organ ah verdict);
  public_pem = λ pem. ok pem;
  decide = λ ah rs pk threshold n. (leb threshold (length rs), length rs);
}

abbrev pub hashing : Hashing
hashing = record {
  canonical = λ j. [];
  canonical_json = λ j. [];
  utf8 = λ s. [];
  sha256 = λ bs. "digest";
  hmac_sha256 = λ k bs. bs;
  base64 = λ bs. "";
}

has_of_lookup :
    (organ pem : String) (pks : Dict String String)
    → lookup organ pks ≡ some pem
    → has organ pks ≡ true
unfolding has
has_of_lookup organ pem pks h = rw (h, has) refl

toy_counts :
    (organ ah reason lean_sha ts pem : String) (r : Fields) (pks : Dict String String)
    → signer.sign_verdict organ ah "allow" pem reason lean_sha ts ≡ ok r
    → lookup organ pks ≡ some pem
    → counts_for engine ah pks organ (verdict_of r) ≡ true
unfolding verdict_of get_or get_field str_ord
toy_counts organ ah reason lean_sha ts pem r pks e h =
    subst (λ x. counts_for engine ah pks organ (verdict_of x) ≡ true) (ok_inj e)
      (rw (has_of_lookup organ pem pks h)
        (ground (arith, str_ord.cmp_self ah, str_ord.cmp_self organ)))

toy_stores :
    (organ ah verdict : String)
    → (truthy (get "signature" (toy_record organ ah verdict)) ≡ true)
      × (get "sig" (toy_record organ ah verdict) ≡ null)
unfolding get_or get_field str_ord
toy_stores organ ah verdict = (refl, refl)

toy_names : (organ ah verdict : String) → get "organ" (toy_record organ ah verdict) ≡ str organ
unfolding get_or get_field str_ord
toy_names organ ah verdict = refl

pub signs : SignsFor engine signer
signs = record {
  stores = λ organ ah verdict pem reason lean_sha ts r e.
      subst (λ x. (truthy (get "signature" x) ≡ true) × (get "sig" x ≡ null)) (ok_inj e)
        (toy_stores organ ah verdict);
  names = λ organ ah verdict pem reason lean_sha ts r e.
      subst (λ x. get "organ" x ≡ str organ) (ok_inj e) (toy_names organ ah verdict);
  counts = λ organ ah pem reason lean_sha ts pub_pem r pks e d h.
      toy_counts organ ah reason lean_sha ts pem r pks e (h ∙ ap some (sym (ok_inj d)));
}

abbrev pub private_keys : Dict String String
private_keys = ("sentra", "P1") ∷ ("amaru", "P2") ∷ ("a11oy", "") ∷ []

abbrev pub asked_organs : List String
asked_organs = "sentra" ∷ "amaru" ∷ "a11oy" ∷ "killinchu" ∷ []

abbrev pub proposed : QuorumCertificate
proposed = record {
  action_hash = "digest";
  witnesses = toy_record "sentra" "digest" "allow" ∷ toy_record "amaru" "digest" "allow" ∷ [];
  threshold = 2;
  n = 4;
  canonical = true;
  consensus_count = 2;
}
