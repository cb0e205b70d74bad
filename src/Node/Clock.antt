-- ===== src/Node/Clock.antt =====
-- A node's log and its Lamport clock (node.py, `write` and `apply_remote`).
use szl_mesh.Common.Dict.{lookup, All-put, All-lookup}
use szl_mesh.Common.Json.{Json, Fields, Hashing, obj}
use szl_mesh.Common.Order.{◌=?◌, str_ord}
use szl_mesh.Common.Result.{Result-cases}
use szl_mesh.Common.{
  ℕ, ◌+◌, ◌≤◌, Bool, String, none, some, ◌≡◌, refl, ◌∙◌, arith, max, All, All-imp, Bool-cases,
  Option-cases, inl, inr,
}
use szl_mesh.Crdt.Log.{IsLog, add_op-IsLog, set_op_track-IsLog}
use szl_mesh.Crdt.{Op, Document, observed, op_id, add_op, set_op_track, heads}
use szl_mesh.Node.{MeshNode, Gateways, tick, classify, next_op, write_receipt, write, apply_remote}
use szl_mesh.Receipts.{Crypto, build_state_transition_statement, build_dsse_receipt}

module _ (hashing : Hashing) where
  -- A log of this document, with no operation later than the clock.
  pub record IsBefore (doc_id : String) (clock : ℕ) (d : Document) : Type 0 where
    pub log : IsLog hashing d
    pub own : d.doc_id ≡ doc_id
    pub past : All (λ e. e.1.lamport ≤ clock) d.ops

  later-IsBefore :
      (doc_id : String) (clock clock' : ℕ) (d : Document)
      → clock ≤ clock'
      → IsBefore doc_id clock d
      → IsBefore doc_id clock' d
  later-IsBefore doc_id clock clock' d le b = record {
    log = b.log;
    own = b.own;
    past = All-imp d.ops b.past (λ e p. omega (arith, p, le));
  }

  add_op-past :
      (op : Op) (clock : ℕ) (d : Document)
      → op.lamport ≤ clock
      → All (λ e. e.1.lamport ≤ clock) d.ops
      → All (λ e. e.1.lamport ≤ clock) (add_op hashing op d).1.ops
  unfolding add_op
  add_op-past op clock d le h = elim (Bool-cases (op.doc_id =? d.doc_id)) [
    | inr foreign ↦ rw foreign h
    | inl same ↦ rw same (elim (Option-cases (lookup (op_id hashing op) d.ops)) [
      | inr (old, present) ↦ rw present h
      | inl fresh ↦ rw fresh (All-put (λ e. e.1.lamport ≤ clock) (op_id hashing op) op d.ops h le)
    ])
  ]

  add_op-doc_id : (op : Op) (d : Document) → (add_op hashing op d).1.doc_id ≡ d.doc_id
  unfolding add_op
  add_op-doc_id op d = ground arith

  add_op-IsBefore :
      (op : Op) (doc_id : String) (clock : ℕ) (d : Document)
      → op.lamport ≤ clock
      → IsBefore doc_id clock d
      → IsBefore doc_id clock (add_op hashing op d).1
  add_op-IsBefore op doc_id clock d le b = record {
    log = add_op-IsLog hashing op d b.log;
    own = add_op-doc_id op d ∙ b.own;
    past = add_op-past op clock d le b.past;
  }

  track-doc_id : (id track : String) (d : Document) → (set_op_track id track d).doc_id ≡ d.doc_id
  unfolding set_op_track
  track-doc_id id track d = elim (Option-cases (lookup id d.ops)) [
    | inl absent ↦ rw (absent, set_op_track) refl
    | inr (op, present) ↦ rw (present, set_op_track) refl
  ]

  track-past :
      (id track : String) (clock : ℕ) (d : Document)
      → All (λ e. e.1.lamport ≤ clock) d.ops
      → All (λ e. e.1.lamport ≤ clock) (set_op_track id track d).ops
  unfolding set_op_track
  track-past id track clock d h = elim (Option-cases (lookup id d.ops)) [
    | inl absent ↦ rw (absent, set_op_track) h
    | inr (op, present) ↦
        rw (present, set_op_track)
          (All-put (λ e. e.1.lamport ≤ clock) id (record op { track = track }) d.ops h
            (All-lookup (λ e. e.1.lamport ≤ clock) id op d.ops h present))
  ]

  set_op_track-IsBefore :
      (id track doc_id : String) (clock : ℕ) (d : Document)
      → IsBefore doc_id clock d
      → IsBefore doc_id clock (set_op_track id track d)
  set_op_track-IsBefore id track doc_id clock d b = record {
    log = set_op_track-IsLog hashing id track d b.log;
    own = track-doc_id id track d ∙ b.own;
    past = track-past id track clock d b.past;
  }

module _ (hashing : Hashing) (crypto : Crypto) where
  -- The node's document is a log of its own with no operation later than its clock.
  abbrev pub IsNode : MeshNode crypto → Type 0
  IsNode self = IsBefore hashing self.doc_id self.lamport self.doc

  write_receipt-IsNode :
      (gateways : Gateways) (self : MeshNode crypto) (op : Op) (envelope : Fields) (now_utc : ℕ)
      → IsNode self
      → IsNode (write_receipt hashing crypto gateways self op envelope now_utc).0
  unfolding write_receipt
  write_receipt-IsNode gateways self op envelope now_utc b =
      elim (Result-cases (classify hashing crypto gateways self op (obj envelope) now_utc)) [
        | inr (e, raised) ↦ rw (raised, write_receipt) b
        | inl (gate, classified) ↦
            rw (classified, write_receipt)
              (set_op_track-IsBefore hashing (op_id hashing op) gate.track self.doc_id self.lamport
                self.doc b)
      ]

  module _ (gateways : Gateways) (self : MeshNode crypto) (key : String) (value : Json)
      (transition_class : String) (deletion : Bool) (stamp : String) (now_utc : ℕ) where
    abbrev ticked : MeshNode crypto
    ticked = tick hashing crypto self none

    abbrev own_op : Op
    own_op = next_op hashing crypto ticked key value deletion

    abbrev grown : MeshNode crypto
    grown = record ticked { doc = (add_op hashing own_op self.doc).1 }

    grown-IsNode : IsNode self → IsNode grown
    unfolding tick
    grown-IsNode b =
        add_op-IsBefore hashing own_op self.doc_id (self.lamport + 1) self.doc (omega arith) (
          later-IsBefore hashing self.doc_id self.lamport (self.lamport + 1) self.doc (omega arith)
            b)

    -- Whatever `write` does, exceptions included, it leaves a log of the node's document, and a
    -- clock that no operation in it exceeds.
    pub write-IsNode :
        IsNode self
        → IsNode
            (write hashing crypto gateways self key value transition_class deletion stamp now_utc).0
    unfolding write
    write-IsNode b = elim (Bool-cases self.enrolled) [
      | inr no_member ↦ rw (no_member, write) b
      | inl member ↦ elim (Result-cases (add_op hashing own_op self.doc).0) [
        | inr (e, raised) ↦ rw (member, raised, write) (grown-IsNode b)
        | inl (new, added) ↦
            elim (Result-cases (
              build_state_transition_statement hashing crypto self.doc_id (op_id hashing own_op)
                (heads hashing self.doc) (heads hashing grown.doc) self.node_id transition_class
                stamp)) [
                  | inr (e, raised) ↦ rw (member, added, raised, write) (grown-IsNode b)
                  | inl (stmt, stated) ↦
                      elim (Result-cases (build_dsse_receipt hashing crypto stmt self.priv)) [
                        | inr (e, raised) ↦
                            rw (member, added, stated, raised, write) (grown-IsNode b)
                        | inl (envelope, built) ↦
                            rw (member, added, stated, built, write)
                              (write_receipt-IsNode gateways grown own_op envelope now_utc
                                (grown-IsNode b))
                      ]
                ]
      ]
    ]

  module _ (gateways : Gateways) (self : MeshNode crypto) (op : Op) (envelope : Json)
      (now_utc : ℕ) where
    abbrev received : MeshNode crypto
    received = record (tick hashing crypto self (some op.lamport)) {
      doc = (add_op hashing (record op { track = observed }) self.doc).1;
    }

    received-IsNode : IsNode self → IsNode received
    unfolding tick
    received-IsNode b =
        add_op-IsBefore hashing (record op { track = observed }) self.doc_id
          (max self.lamport op.lamport + 1) self.doc (omega arith)
          (later-IsBefore hashing self.doc_id self.lamport (max self.lamport op.lamport + 1)
            self.doc (omega arith) b)

    pub apply_remote-IsNode :
        IsNode self → IsNode (apply_remote hashing crypto gateways self op envelope now_utc).0
    unfolding apply_remote
    apply_remote-IsNode b =
        elim (Result-cases (add_op hashing (record op { track = observed }) self.doc).0) [
          | inr (e, raised) ↦ rw (raised, apply_remote) (received-IsNode b)
          | inl (new, added) ↦
              elim (Result-cases (classify hashing crypto gateways self op envelope now_utc)) [
                | inr (e, raised) ↦ rw (added, raised, apply_remote) (received-IsNode b)
                | inl (gate, classified) ↦
                    rw (added, classified, apply_remote)
                      (set_op_track-IsBefore hashing (op_id hashing op) gate.track received.doc_id
                        received.lamport received.doc (received-IsNode b))
              ]
        ]
