-- ===== src/Receipts/Enrolled.antt =====
-- Who signed an AUTHORIZED change (receipts.py, `validate_receipt` with a registry).
use szl_mesh.Common.Dict.{Dict, lookup}
use szl_mesh.Common.Dsse.{pae}
use szl_mesh.Common.Json.{Json, Fields, Bytes, Hashing, obj, str}
use szl_mesh.Common.Members.{mem}
use szl_mesh.Common.Order.{str_ord}
use szl_mesh.Common.Result.{Result, ok, raise, ◌>>=◌, type_error, bind-ok, ok_inj}
use szl_mesh.Common.Truth.{get, as_text, is_text_lem, as_fields_lem}
use szl_mesh.Common.{
  ℕ, true, false, String, Option, none, some, List, [], ◌∷◌, ◌≡◌, refl, sym, ap, ap₂, ◌∙◌, arith,
}
use szl_mesh.Crdt.{authorized}
use szl_mesh.Receipts.Gate.{authorized_iff}
use szl_mesh.Receipts.Signer.{IsSigned, verify_receipt_signature-IsSigned}
use szl_mesh.Receipts.Validate.{
  GateResult, embedded_key, known_key, is_known, is_enrolled, is_revoked, validate_receipt,
}
use szl_mesh.Receipts.Verify.{only_entry, decode_statement}
use szl_mesh.Receipts.{Crypto, payload_type, same_bytes, index, b64url_decode, node_id_from_pubkey}

obj_inj : {fs gs : Fields} → obj fs ≡ obj gs → fs ≡ gs
obj_inj e = cc e

some_text_inj : {s t : String} → some s ≡ some t → s ≡ t
some_text_inj e = cc e

pub same_bytes_lem : (xs ys : Bytes) → same_bytes xs ys ≡ true → xs ≡ ys
same_bytes_lem [] [] e = refl
same_bytes_lem [] (y ∷ ys) e = cc
same_bytes_lem (x ∷ xs) [] e = cc
same_bytes_lem (x ∷ xs) (y ∷ ys) e =
    ap₂ (λ a b. a ∷ b) (ground (arith, e)) (same_bytes_lem xs ys (ground (arith, e)))

is_known_lem : (k : Option Bytes) (b : Bytes) → is_known k b ≡ true → k ≡ some b
is_known_lem none b e = cc
is_known_lem (some a) b e = ap some (same_bytes_lem a b e)

module _ (hashing : Hashing) (crypto : Crypto) where
  -- The enrolled key `key` of the node `node_id` signed a statement on this change.
  pub record SignedBy (receipt : Fields) (change : Bytes) (revoked_node_ids : List String)
      (registry : Dict String Bytes) : Type 0 where
    pub node_id : String
    pub key : crypto.PublicKey
    pub der : Bytes
    pub enrolled : lookup node_id registry ≡ some der
    pub loaded : crypto.load_der_public_key der ≡ ok key
    pub curve : crypto.is_p256 key ≡ true
    pub named : node_id ≡ hashing.sha256 (crypto.public_bytes key)
    pub trusted : mem node_id revoked_node_ids ≡ false
    pub stmt_json : Bytes
    pub sig : Bytes
    pub signed : crypto.verify key sig (pae (hashing.utf8 payload_type) stmt_json) ≡ true
    pub stmt : Fields
    pub states : crypto.loads stmt_json ≡ some (obj stmt)
    pub signer : get "node_id" stmt ≡ str node_id
    pub bound : get "change_hash" stmt ≡ str (hashing.sha256 change)

  abbrev entry_key : Option Fields → Result Json
  entry_key none = raise type_error
  entry_key (some sig_entry) = index "public_key_der" sig_entry

  embedded_key-der :
      (receipt : Fields) (s : IsSigned hashing crypto receipt)
      → embedded_key hashing crypto receipt ≡ ok s.pub_der
  unfolding embedded_key
  embedded_key-der receipt s =
      ap (λ o. o >>= b64url_decode hashing crypto)
        (ap (λ o. o >>= λ signatures. entry_key (only_entry signatures)) s.signed
          ∙ ap entry_key s.only
          ∙ s.der_field)
      ∙ s.der_bytes

  decode_statement-stmt :
      (receipt : Fields) (s : IsSigned hashing crypto receipt)
      → decode_statement hashing crypto receipt ≡ ok (obj s.stmt)
  unfolding decode_statement
  decode_statement-stmt receipt s =
      rw (s.payload_field, s.payload_bytes, s.loads)
        (ap ok (as_fields_lem s.loaded s.stmt s.statement))

  named_by :
      (key : crypto.PublicKey)
      → node_id_from_pubkey hashing crypto key ≡ hashing.sha256 (crypto.public_bytes key)
  unfolding node_id_from_pubkey
  named_by key = refl

  -- A change that is AUTHORIZED under a registry was signed by the key that the registry has for
  -- the node that the statement names, and no other: the node's name is the digest of that P-256
  -- key, the node is not revoked, and what is signed is a statement on this very change.
  pub authorized-SignedBy :
      (receipt : Fields) (change : Bytes) (now_utc : ℕ) (revoked_node_ids : List String) (skew : ℕ)
      (registry : Dict String Bytes) (r : GateResult)
      → validate_receipt hashing crypto
          (obj receipt)
          change
          now_utc
          revoked_node_ids
          skew
          (some registry)
        ≡ ok r
      → r.track ≡ authorized
      → SignedBy receipt change revoked_node_ids registry
  unfolding is_enrolled
  authorized-SignedBy receipt change now_utc revoked_node_ids skew registry r e t =
      let a =
        (authorized_iff hashing crypto receipt change now_utc revoked_node_ids skew
            (some registry)).0
          (r, e, t) in
      let s = verify_receipt_signature-IsSigned hashing crypto receipt a.verified in
      let node_id = node_id_from_pubkey hashing crypto s.key in
      let stmt : a.stmt ≡ s.stmt =
        obj_inj (ok_inj (sym a.decoded ∙ decode_statement-stmt receipt s)) in
      let signer : get "node_id" s.stmt ≡ str node_id =
        is_text_lem node_id (get "node_id" s.stmt) s.bound.node_id in
      let names : get "node_id" a.stmt ≡ str node_id = ap (get "node_id") stmt ∙ signer in
      let (sig_pub, found, known) =
        bind-ok (embedded_key hashing crypto receipt) _ true a.enrolled in
      let typed : s.declared_type ≡ payload_type = some_text_inj (
        sym s.declared
        ∙ ap as_text (is_text_lem payload_type (get "payloadType" receipt) a.typed)) in
      record {
        node_id = node_id;
        key = s.key;
        der = s.pub_der;
        enrolled =
            ap (known_key registry) (sym names)
            ∙ is_known_lem (known_key registry (get "node_id" a.stmt)) sig_pub (ok_inj known)
            ∙ ap some (ok_inj (sym found ∙ embedded_key-der receipt s));
        loaded = s.key_loaded;
        curve = s.bound.curve;
        named = named_by s.key;
        trusted = ap (is_revoked revoked_node_ids) (sym names) ∙ a.trusted;
        stmt_json = s.stmt_json;
        sig = s.bound.sig;
        signed =
            ap (λ u. crypto.verify s.key s.bound.sig (pae (hashing.utf8 u) s.stmt_json)) (sym typed)
            ∙ s.bound.verifies;
        stmt = s.stmt;
        states = s.loads ∙ ap some (as_fields_lem s.loaded s.stmt s.statement);
        signer = signer;
        bound = ap (get "change_hash") (sym stmt) ∙ is_text_lem _ _ a.bound;
      }
