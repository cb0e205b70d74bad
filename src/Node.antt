-- ===== src/Node.antt =====
-- src/szl_mesh/node.py: a node's runtime, on top of its document, the receipts and the formation
-- gateway. A method returns the node that it leaves beside its result or its exception. The clock's
-- readings are arguments: `stamp`, the text of the current second, and `now_utc` in microseconds.
pub mod Clock
pub mod History
pub mod Trust
mod Tests
use szl_mesh.Common.Dict.{Dict, put, values}
use szl_mesh.Common.Json.{Json, Fields, Bytes, Hashing, null, obj}
use szl_mesh.Common.Order.{str_ord}
use szl_mesh.Common.Result.{Result, ok, raise, runtime_error}
use szl_mesh.Common.{
  ℕ, ◌+◌, Bool, true, false, String, Option, none, some, List, [], ◌∷◌, if◌then◌else◌, max,
  get_elem?, length,
}
use szl_mesh.Crdt.{
  Op, Document, empty, observed, op_id, raw_bytes, add_op, set_op_track, heads, authorized_view,
  observed_view, state_digest,
}
use szl_mesh.Enrollment.Gateway.{build_enrollment_request, enroll}
use szl_mesh.Enrollment.{Platform, FormationGateway, EnrollmentResult, pubkey_registry}
use szl_mesh.Receipts.Validate.{GateResult, validate_receipt}
use szl_mesh.Receipts.Verify.{verify_receipt_signature}
use szl_mesh.Receipts.{
  Crypto, ReceiptStatus, node_id_from_pubkey, build_state_transition_statement, build_dsse_receipt,
}

-- The gateway is a shared object: the node holds a reference to it, and a call is given its current
-- state.
pub record MeshNode (crypto : Crypto) : Type 0 where
  pub name : String
  pub doc_id : String
  pub priv : crypto.PrivateKey
  pub node_id : String
  pub doc : Document
  pub receipt_ledger : Dict String Json
  pub enrolled : Bool
  pub gateway : Option ℕ
  pub lamport : ℕ

pub record Written : Type 0 where
  pub op : Op
  pub receipt : Fields
  pub change_hash : String
  pub track : String
  pub receipt_status : ReceiptStatus

pub record Applied : Type 0 where
  pub newly_added : Bool
  pub track : String
  pub receipt_status : ReceiptStatus

-- The gateways that exist, by reference.
abbrev pub Gateways : Type 0
Gateways = List FormationGateway

module _ (hashing : Hashing) (crypto : Crypto) where
  -- The key pair is fresh.
  unfoldable pub new_node : String → String → crypto.PrivateKey → MeshNode crypto
  unfolding node_id_from_pubkey
  new_node name doc_id priv = record {
    name = name;
    doc_id = doc_id;
    priv = priv;
    node_id = node_id_from_pubkey hashing crypto (crypto.public_key priv);
    doc = empty doc_id;
    receipt_ledger = [];
    enrolled = false;
    gateway = none;
    lamport = 0;
  }

  abbrev pub own_key : MeshNode crypto → Bytes
  own_key self = crypto.public_bytes (crypto.public_key self.priv)

  -- At the gateway with this reference; with its new state and the outcome.
  unfoldable pub enroll_at :
      Platform
      → MeshNode crypto
      → ℕ
      → FormationGateway
      → Bytes
      → String
      → String
      → String
      → String
      → String
      → ℕ
      → MeshNode crypto × (FormationGateway × Result EnrollmentResult)
  unfolding build_enrollment_request enroll
  enroll_at platform self reference gateway formation_key hardware_vendor doctrine kernel slsa stamp
        now_utc =
      let req =
        build_enrollment_request hashing crypto platform formation_key self.node_id (own_key self)
          stamp doctrine kernel slsa hardware_vendor in
      elim (enroll hashing crypto platform gateway req now_utc) [
        | raise e ↦ (self, (gateway, raise e))
        | ok (gateway', result) ↦ (
          if result.success
              then record self { enrolled = true; gateway = some reference }
              else self,
          (gateway', ok result),
        )
      ]

  unfoldable pub tick : MeshNode crypto → Option ℕ → MeshNode crypto
  tick self none = record self { lamport = self.lamport + 1 }
  tick self (some observed_lamport) = record self {
    lamport = max self.lamport observed_lamport + 1;
  }

  abbrev pub the_gateway : Gateways → MeshNode crypto → Option FormationGateway
  the_gateway gateways self = elim self.gateway [
    | none ↦ none
    | some reference ↦ get_elem? gateways reference
  ]

  abbrev pub registry_at : Option FormationGateway → Dict String Bytes
  registry_at none = []
  registry_at (some gateway) = pubkey_registry gateway

  abbrev pub revoked_at : Option FormationGateway → List String
  revoked_at none = []
  revoked_at (some gateway) = gateway.revoked

  -- None is not kept.
  unfoldable pub keep_receipt : String → Json → Dict String Json → Dict String Json
  unfolding put
  keep_receipt id null ledger = ledger
  keep_receipt id envelope ledger = put id envelope ledger

  unfoldable pub classify : Gateways → MeshNode crypto → Op → Json → ℕ → Result GateResult
  unfolding validate_receipt pubkey_registry
  classify gateways self op envelope now_utc =
      validate_receipt hashing crypto envelope (raw_bytes hashing op) now_utc
        (revoked_at (the_gateway gateways self)) 5 (some (registry_at (the_gateway gateways self)))

  -- The end of `write`: the receipt is kept, and the operation takes the gate's track.
  unfoldable pub write_receipt :
      Gateways → MeshNode crypto → Op → Fields → ℕ → MeshNode crypto × Result Written
  unfolding classify set_op_track
  write_receipt gateways self op envelope now_utc =
      let change_hash = op_id hashing op in
      let kept = record self {
        receipt_ledger = put change_hash (obj envelope) self.receipt_ledger;
      } in
      elim (classify gateways self op (obj envelope) now_utc) [
        | raise e ↦ (kept, raise e)
        | ok gate ↦ (
          record kept { doc = set_op_track change_hash gate.track self.doc },
          ok (record {
            op = op;
            receipt = envelope;
            change_hash = change_hash;
            track = gate.track;
            receipt_status = gate.receipt_status;
          }),
        )
      ]

  abbrev pub next_op : MeshNode crypto → String → Json → Bool → Op
  next_op self key value deletion = record {
    doc_id = self.doc_id;
    key = key;
    value = value;
    lamport = self.lamport;
    node_id = self.node_id;
    deletion = deletion;
    track = observed;
  }

  -- What was done before an exception stays done.
  unfoldable pub write :
      Gateways
      → MeshNode crypto
      → String
      → Json
      → String
      → Bool
      → String
      → ℕ
      → MeshNode crypto × Result Written
  unfolding tick add_op heads build_state_transition_statement build_dsse_receipt write_receipt
  write gateways self key value transition_class deletion stamp now_utc =
      if self.enrolled
      then (let from_heads = heads hashing self.doc in
          let ticked = tick self none in
          let op = next_op ticked key value deletion in
          let (added, doc) = add_op hashing op self.doc in
          let grown = record ticked { doc = doc } in
          elim added [
            | raise e ↦ (grown, raise e)
            | ok new ↦
                elim (build_state_transition_statement hashing crypto self.doc_id (op_id hashing op)
                  from_heads (heads hashing doc) self.node_id transition_class stamp) [
                    | raise e ↦ (grown, raise e)
                    | ok stmt ↦ elim (build_dsse_receipt hashing crypto stmt self.priv) [
                      | raise e ↦ (grown, raise e)
                      | ok envelope ↦ write_receipt gateways grown op envelope now_utc
                    ]
                  ]
          ])
      else (self, raise runtime_error)

  -- `record["op_obj"]` and the owned copy of `record.get("receipt")`: null if there is none, or
  -- it cannot be copied.
  unfoldable pub apply_remote :
      Gateways → MeshNode crypto → Op → Json → ℕ → MeshNode crypto × Result Applied
  unfolding tick add_op classify keep_receipt set_op_track
  apply_remote gateways self op envelope now_utc =
      let ticked = tick self (some op.lamport) in
      let (added, doc) = add_op hashing (record op { track = observed }) self.doc in
      elim added [
        | raise e ↦ (record ticked { doc = doc }, raise e)
        | ok newly ↦
            let kept = record ticked {
              doc = doc;
              receipt_ledger = keep_receipt (op_id hashing op) envelope self.receipt_ledger;
            } in
            elim (classify gateways self op envelope now_utc) [
              | raise e ↦ (kept, raise e)
              | ok gate ↦ (
                record kept { doc = set_op_track (op_id hashing op) gate.track doc },
                ok (record {
                  newly_added = newly;
                  track = gate.track;
                  receipt_status = gate.receipt_status;
                }),
              )
            ]
      ]

  abbrev pub count_valid : List Json → Result ℕ
  count_valid [] = ok 0
  count_valid (env ∷ envs) = elim (verify_receipt_signature hashing crypto env) [
    | raise e ↦ raise e
    | ok valid ↦ elim (count_valid envs) [
      | raise e ↦ raise e
      | ok n ↦ ok (if valid then n + 1 else n)
    ]
  ]

  -- The valid receipts of the ledger and all of them.
  unfoldable pub verify_ledger : MeshNode crypto → Result (ℕ × ℕ)
  unfolding verify_receipt_signature
  verify_ledger self = elim (count_valid (values self.receipt_ledger)) [
    | raise e ↦ raise e
    | ok valid ↦ ok (valid, length self.receipt_ledger)
  ]
