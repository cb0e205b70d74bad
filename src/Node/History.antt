-- ===== src/Node/History.antt =====
-- The history of a node (node.py): any sequence of enrollments, of its own writes and of records from peers.
use szl_mesh.Common.Json.{Json, Fields, Bytes, Hashing, obj}
use szl_mesh.Common.Result.{ok, Result-cases, ok_inj}
use szl_mesh.Common.{
  ℕ, ◌+◌, ◌<◌, Bool, String, none, List, [], ◌∷◌, ◌≡◌, refl, sym, ap, arith, All, All-imp,
  Bool-cases, inl, inr,
}
use szl_mesh.Crdt.Log.{empty-IsLog}
use szl_mesh.Crdt.{Op, op_id, add_op, heads}
use szl_mesh.Enrollment.Gateway.{build_enrollment_request, enroll}
use szl_mesh.Enrollment.{Platform, FormationGateway}
use szl_mesh.Node.Clock.{IsNode, write-IsNode, apply_remote-IsNode}
use szl_mesh.Node.{
  MeshNode, Written, Gateways, new_node, own_key, enroll_at, tick, classify, next_op, write_receipt,
  write, apply_remote,
}
use szl_mesh.Receipts.{Crypto, build_state_transition_statement, build_dsse_receipt}

-- A call, with the gateways and the clock's readings at its time.
pub data Call : Type 0 where
  writes : Gateways → String → Json → String → Bool → String → ℕ → Call
  receives : Gateways → Op → Json → ℕ → Call
  joins :
      Platform
      → ℕ
      → FormationGateway
      → Bytes
      → String
      → String
      → String
      → String
      → String
      → ℕ
      → Call

module _ (hashing : Hashing) (crypto : Crypto) where
  abbrev pub after_call : MeshNode crypto → Call → MeshNode crypto
  after_call self (writes gateways key value transition_class deletion stamp now_utc) =
      (write hashing crypto gateways self key value transition_class deletion stamp now_utc).0
  after_call self (receives gateways op envelope now_utc) =
      (apply_remote hashing crypto gateways self op envelope now_utc).0
  after_call self
        (joins platform reference gateway formation_key vendor doctrine kernel slsa stamp now_utc) =
      (enroll_at hashing crypto platform self reference gateway formation_key vendor doctrine kernel
        slsa stamp now_utc).0

  unfoldable pub run : MeshNode crypto → List Call → MeshNode crypto
  run self [] = self
  run self (c ∷ cs) = run (after_call self c) cs

  pub new_node-IsNode :
      (name doc_id : String) (priv : crypto.PrivateKey)
      → IsNode hashing crypto (new_node hashing crypto name doc_id priv)
  unfolding new_node
  new_node-IsNode name doc_id priv = record {
    log = empty-IsLog hashing doc_id;
    own = refl;
    past = tt;
  }

  enroll_at-IsNode :
      (self : MeshNode crypto) (platform : Platform) (reference : ℕ) (gateway : FormationGateway)
      (formation_key : Bytes) (vendor doctrine kernel slsa stamp : String) (now_utc : ℕ)
      → IsNode hashing crypto self
      → IsNode hashing crypto
          (enroll_at hashing crypto platform self reference gateway formation_key vendor doctrine
            kernel slsa stamp now_utc).0
  unfolding enroll_at
  enroll_at-IsNode self platform reference gateway formation_key vendor doctrine kernel slsa stamp
        now_utc b =
      let req =
        build_enrollment_request hashing crypto platform formation_key self.node_id
          (own_key hashing crypto self) stamp doctrine kernel slsa vendor in
      elim (Result-cases (enroll hashing crypto platform gateway req now_utc)) [
        | inr (e, raised) ↦ rw (raised, enroll_at) b
        | inl (o, returned) ↦ elim (Bool-cases o.1.success) [
          | inl accepted ↦ rw (returned, accepted, enroll_at) b
          | inr refused ↦ rw (returned, refused, enroll_at) b
        ]
      ]

  -- Whatever a node joins, writes and receives, calls that raise included: if its document is a log
  -- of its own, with each operation once and under its identifier, and no operation in it is later
  -- than the node's clock, this is so afterwards too.
  pub run-IsNode :
      (self : MeshNode crypto) (cs : List Call)
      → IsNode hashing crypto self
      → IsNode hashing crypto (run self cs)
  unfolding run
  run-IsNode self [] b = b
  run-IsNode self (writes gateways key value transition_class deletion stamp now_utc ∷ cs) b =
      run-IsNode
        (after_call self (writes gateways key value transition_class deletion stamp now_utc)) cs
        (write-IsNode hashing crypto gateways self key value transition_class deletion stamp now_utc
          b)
  run-IsNode self (receives gateways op envelope now_utc ∷ cs) b =
      run-IsNode (after_call self (receives gateways op envelope now_utc)) cs
        (apply_remote-IsNode hashing crypto gateways self op envelope now_utc b)
  run-IsNode self
        (joins platform reference gateway formation_key vendor doctrine kernel slsa stamp now_utc
          ∷ cs)
        b =
      run-IsNode
        (after_call self (
          joins platform reference gateway formation_key vendor doctrine kernel slsa stamp now_utc))
        cs
        (enroll_at-IsNode self platform reference gateway formation_key vendor doctrine kernel slsa
          stamp now_utc b)

  write_receipt-op :
      (gateways : Gateways) (self : MeshNode crypto) (op : Op) (envelope : Fields) (now_utc : ℕ)
      (w : Written)
      → (write_receipt hashing crypto gateways self op envelope now_utc).1 ≡ ok w
      → w.op ≡ op
  unfolding write_receipt
  write_receipt-op gateways self op envelope now_utc w e =
      elim (Result-cases (classify hashing crypto gateways self op (obj envelope) now_utc)) [
        | inr (x, raised) ↦ absurd (cc (rw (raised, write_receipt) at e))
        | inl (gate, classified) ↦
            ap (λ (v : Written). v.op) (sym (ok_inj (rw (classified, write_receipt) at e)))
      ]

  module _ (self : MeshNode crypto) (gateways : Gateways) (key : String) (value : Json)
      (transition_class : String) (deletion : Bool) (stamp : String) (now_utc : ℕ)
      (w : Written) where
    abbrev own_op : Op
    own_op = next_op hashing crypto (tick hashing crypto self none) key value deletion

    write-op :
        (write hashing crypto gateways self key value transition_class deletion stamp now_utc).1
          ≡ ok w
        → w.op ≡ own_op
    unfolding write
    write-op e = elim (Bool-cases self.enrolled) [
      | inr no_member ↦ absurd (cc (rw (no_member, write) at e))
      | inl member ↦ elim (Result-cases (add_op hashing own_op self.doc).0) [
        | inr (x, raised) ↦ absurd (cc (rw (member, raised, write) at e))
        | inl (new, added) ↦
            elim (Result-cases (
              build_state_transition_statement hashing crypto self.doc_id (op_id hashing own_op)
                (heads hashing self.doc) (heads hashing (add_op hashing own_op self.doc).1)
                self.node_id transition_class stamp)) [
                  | inr (x, raised) ↦ absurd (cc (rw (member, added, raised, write) at e))
                  | inl (stmt, stated) ↦
                      elim (Result-cases (build_dsse_receipt hashing crypto stmt self.priv)) [
                        | inr (x, raised) ↦
                            absurd (cc (rw (member, added, stated, raised, write) at e))
                        | inl (envelope, built) ↦
                            write_receipt-op gateways
                              (record (tick hashing crypto self none) {
                                doc = (add_op hashing own_op self.doc).1;
                              })
                              own_op envelope now_utc w
                              (rw (member, added, stated, built, write) at e)
                      ]
                ]
      ]
    ]

    written_at :
        (write hashing crypto gateways self key value transition_class deletion stamp now_utc).1
          ≡ ok w
        → w.op.lamport ≡ self.lamport + 1
    unfolding tick
    written_at e = ap (λ (o : Op). o.lamport) (write-op e)

  -- What a node writes, after any history that began with a new node, is later than everything in
  -- its log.
  pub write_is_later :
      (name doc_id : String) (priv : crypto.PrivateKey) (cs : List Call) (gateways : Gateways)
      (key : String) (value : Json) (transition_class : String) (deletion : Bool) (stamp : String)
      (now_utc : ℕ) (w : Written)
      → (write hashing crypto gateways
          (run (new_node hashing crypto name doc_id priv) cs)
          key
          value
          transition_class
          deletion
          stamp
          now_utc).1
        ≡ ok w
      → All
          (λ e. e.1.lamport < w.op.lamport)
          (run (new_node hashing crypto name doc_id priv) cs).doc.ops
  write_is_later name doc_id priv cs gateways key value transition_class deletion stamp now_utc w
        e =
      let self = run (new_node hashing crypto name doc_id priv) cs in
      let b =
        run-IsNode (new_node hashing crypto name doc_id priv) cs
          (new_node-IsNode name doc_id priv) in
      let le : w.op.lamport ≡ self.lamport + 1 =
        written_at self gateways key value transition_class deletion stamp now_utc w e in
      All-imp self.doc.ops b.past (λ x p. omega (arith, p, le))
