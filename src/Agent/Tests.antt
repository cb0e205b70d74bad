-- ===== src/Agent/Tests.antt =====
-- Runs and examples of the agent's ledger, with a toy hash whose digests are all alike.
use Prim.Native.String.compare as text_compare
use Prim.Native.String.{compare as str_compare}
use text.Mathlib.TextEquality.{path_by_compare}
use szl_mesh.Agent.Ledger.Chain.{
  IsIntact, Collision, bodies, hashes, init-IsIntact, append-IsIntact, heads_fix_receipts,
}
use szl_mesh.Agent.Ledger.{Job, Ledger, init, append, new_entry, genesis_hash}
use szl_mesh.Common.Dsse.{ascii}
use szl_mesh.Common.Json.{Hashing, Bytes, Json, Fields, int}
use szl_mesh.Common.{String, [], ◌∷◌, ◌++◌, ◌≡◌, ◌⊎◌, refl, arith, Ordering, length}

-- The texts and numbers in a JSON value, one after the other.
abbrev mutual
  print : Json → Bytes
  print (Json.int n) = n ∷ []
  print (Json.str s) = ascii s
  print (Json.obj fields) = print_fields fields
  print _ = []

  print_fields : Fields → Bytes
  print_fields Fields.end = []
  print_fields (Fields.field name value rest) = ascii name ++ print value ++ print_fields rest

abbrev toy : Hashing
toy = record {
  canonical = λ j. [];
  canonical_json = print;
  utf8 = ascii;
  sha256 = λ x. genesis_hash;
  hmac_sha256 = λ k x. x;
  base64 = λ x. "";
}

ascii-compare : (p q : String) → ascii p ≡ ascii q → str_compare p q ≡ Ordering.eq
ascii-compare String.[] String.[] e = refl
ascii-compare String.[] (String.◌∷◌ d q) e = cc
ascii-compare (String.◌∷◌ c p) String.[] e = cc
ascii-compare (String.◌∷◌ c p) (String.◌∷◌ d q) e =
    ground (arith, text_compare.cons-cons c d p q, ascii-compare p q (cc))

ascii_inj : (p q : String) → ascii p ≡ ascii q → p ≡ q
ascii_inj p q e = path_by_compare p q (ascii-compare p q e)

digest_length : (x : Bytes) → length (ascii (toy.sha256 x)) ≡ 64
digest_length x = refl

abbrev job : String → Job
job id = record {
  job_id = id;
  model = "m";
  lambda_score = int 1;
  tokens_in = 3;
  tokens_out = 5;
  latency_ms = int 7;
  label = "LIVE";
}

abbrev start : Ledger
start = init "n1" []

abbrev one : Ledger
one = (append toy start (job "j1") "t1" "t2").0

abbrev other : Ledger
other = (append toy start (job "j1") "t1" "t9").0

one-IsIntact : IsIntact toy one
one-IsIntact = append-IsIntact toy start (job "j1") "t1" "t2" (init-IsIntact toy "n1" [])

other-IsIntact : IsIntact toy other
other-IsIntact = append-IsIntact toy start (job "j1") "t1" "t9" (init-IsIntact toy "n1" [])

heads_fix_receipts_example :
    ((bodies toy one.chain ≡ bodies toy other.chain)
      × (hashes toy one.chain ≡ hashes toy other.chain))
    ⊎ Collision toy
unfolding append new_entry
heads_fix_receipts_example =
    heads_fix_receipts toy ascii_inj digest_length one other refl one-IsIntact other-IsIntact refl
      refl
