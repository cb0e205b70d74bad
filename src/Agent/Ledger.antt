-- ===== src/Agent/Ledger.antt =====
-- `JobReceiptLedger` (szl_mesh_agent.py): receipts in a hash chain, each signed. The clock's two
-- readings, for the receipt and for its envelope, are arguments.
pub mod Chain
use szl_mesh.Common.Dsse.{pae}
use szl_mesh.Common.Json.{Json, Hashing, Bytes, object, array, str, int, bool}
use szl_mesh.Common.Order.{◌=?◌, str_ord, nat_ord}
use szl_mesh.Common.{
  ℕ, suc, ◌+◌, Bool, true, false, String, List, [], ◌∷◌, ◌++◌, if◌then◌else◌, length, map, not,
}

abbrev pub payload_type_receipt : String
payload_type_receipt = "application/vnd.szl.mesh.receipt+json"

abbrev pub cosign_keyid : String
cosign_keyid = "szlholdings-cosign-d3028f8a"

abbrev pub genesis_hash : String
genesis_hash = "0000000000000000000000000000000000000000000000000000000000000000"

-- The receipt's fields that vary. The scores and the latency are JSON numbers.
pub record Receipt : Type 0 where
  pub node_id : String
  pub job_id : String
  pub seq : ℕ
  pub model : String
  pub lambda_score : Json
  pub tokens_in : ℕ
  pub tokens_out : ℕ
  pub latency_ms : Json
  pub timestamp_utc : String
  pub label : String

abbrev pub receipt_fields : Receipt → List (String × Json)
receipt_fields r =
    ("node_id", str r.node_id)
    ∷ ("job_id", str r.job_id)
    ∷ ("seq", int r.seq)
    ∷ ("model", str r.model)
    ∷ ("lambda_score", r.lambda_score)
    ∷ ("lambda_label", str "advisory-conjecture-1")
    ∷ ("tokens_in", int r.tokens_in)
    ∷ ("tokens_out", int r.tokens_out)
    ∷ ("latency_ms", r.latency_ms)
    ∷ ("timestamp_utc", str r.timestamp_utc)
    ∷ ("label", str r.label)
    ∷ ("vram_fusion", str "ROADMAP")
    ∷ []

pub record Envelope : Type 0 where
  pub payload_type : String
  pub payload : String
  pub pae_sha256 : String
  pub signed_at : String
  pub sig : String
  pub keyid : String

-- An entry keeps the two chain hashes that the source adds to its receipt.
pub record Entry : Type 0 where
  pub receipt : Receipt
  pub prev_chain_hash : String
  pub receipt_chain_hash : String
  pub dsse : Envelope
  pub chain_hash : String
  pub seq : ℕ

pub record Ledger : Type 0 where
  pub node_id : String
  pub secret : Bytes
  pub chain : List Entry
  pub head_hash : String

abbrev pub init : String → Bytes → Ledger
init node_id secret = record {
  node_id = node_id;
  secret = secret;
  chain = [];
  head_hash = genesis_hash;
}

-- What `append` is told about a job.
pub record Job : Type 0 where
  pub job_id : String
  pub model : String
  pub lambda_score : Json
  pub tokens_in : ℕ
  pub tokens_out : ℕ
  pub latency_ms : Json
  pub label : String

-- The message that `verify_chain` returns: broken or misplaced at a position, or intact.
pub data Check : Type 0 where
  broken : ℕ → Check
  misplaced : ℕ → Check
  intact : ℕ → Check

module _ (h : Hashing) where
  open h use {canonical_json, utf8, sha256, hmac_sha256, base64}

  unfoldable pub khipu_hash : String → Bytes → String
  khipu_hash prev_hash receipt_body = sha256 (utf8 prev_hash ++ receipt_body)

  unfoldable pub sign_receipt : Bytes → Json → String → Envelope
  sign_receipt secret receipt_obj signed_at =
      let body = canonical_json receipt_obj in
      let to_sign = pae (utf8 payload_type_receipt) body in
      record {
        payload_type = payload_type_receipt;
        payload = base64 body;
        pae_sha256 = sha256 to_sign;
        signed_at = signed_at;
        sig = base64 (hmac_sha256 secret to_sign);
        keyid = cosign_keyid;
      }

  abbrev pub body_of : Receipt → Bytes
  body_of r = canonical_json (object (receipt_fields r))

  abbrev pub new_receipt : Ledger → Job → String → Receipt
  new_receipt l job now = record {
    node_id = l.node_id;
    job_id = job.job_id;
    seq = length l.chain;
    model = job.model;
    lambda_score = job.lambda_score;
    tokens_in = job.tokens_in;
    tokens_out = job.tokens_out;
    latency_ms = job.latency_ms;
    timestamp_utc = now;
    label = job.label;
  }

  unfoldable pub new_entry : Ledger → Job → String → String → Entry
  new_entry l job now signed_at =
      let receipt = new_receipt l job now in
      let hash = khipu_hash l.head_hash (body_of receipt) in
      record {
        receipt = receipt;
        prev_chain_hash = l.head_hash;
        receipt_chain_hash = hash;
        dsse =
            sign_receipt l.secret
              (object (
                receipt_fields receipt
                ++ (("prev_chain_hash", str l.head_hash) ∷ ("chain_hash", str hash) ∷ [])))
              signed_at;
        chain_hash = hash;
        seq = length l.chain;
      }

  -- The new ledger, and the entry that is returned.
  unfoldable pub append : Ledger → Job → String → String → Ledger × Entry
  append l job now signed_at =
      let entry = new_entry l job now signed_at in
      (record l { chain = l.chain ++ entry ∷ []; head_hash = entry.chain_hash }, entry)

  -- The loop of `verify_chain`, at position `i` behind the hash `prev`.
  unfoldable pub verify_from : ℕ → String → List Entry → Bool × Check
  verify_from i prev [] = (true, intact i)
  verify_from i prev (entry ∷ rest) =
      if not (entry.chain_hash =? khipu_hash prev (body_of entry.receipt))
      then (false, broken i)
      else if not (entry.receipt.seq =? i)
      then (false, misplaced i)
      else verify_from (suc i) entry.chain_hash rest

  unfoldable pub verify_chain : Ledger → Bool × Check
  unfolding verify_from
  verify_chain l = verify_from 0 genesis_hash l.chain
