-- ===== src/Spine/Bound.antt =====
-- What a verified receipt is bound to (spine.py).
use szl_mesh.Common.Json.{Fields, Bytes, Hashing, Json, str, obj, get_field}
use szl_mesh.Common.Order.{◌=?◌, str_ord}
use szl_mesh.Common.Result.{Result, ok, ok_inj, bind-ok}
use szl_mesh.Common.Truth.{get, get_or, as_fields, as_fields_lem, is_text, is_text_lem}
use szl_mesh.Common.{
  Bool, true, if◌then◌else◌, String, Option, some, ◌≡◌, refl, sym, ap, ◌∙◌, arith, Bool-cases,
  Option-cases, subst, inl, inr,
}
use szl_mesh.Receipts.{Crypto}
use szl_mesh.Spine.{
  SzlReceipt, Context, receipt_kind, transition_input_digest, transition_output_digest,
  receipt_body, build_mesh_receipt_body, mesh_receipt_body_digest, emit_mesh_receipt, payload_of,
  rebind, verify_mesh_receipt,
}

abbrev answer : Bool × String → Bool
answer a = a.0

passes_equal :
    (digest : String) (x y : Result (Bool × String)) → (if digest =? digest then x else y) ≡ x
passes_equal digest x y = ground (arith, str_ord.cmp_self digest)

module _ (lib : SzlReceipt) (hashing : Hashing) (crypto : Crypto)
    (b64decode : String → Option Bytes) where
  -- The dictionary is the body of a receipt for this statement and context, as far as the digests
  -- of its transition and its own digest tell.
  pub record IsBody (context : Context) (stmt held : Fields) : Type 0 where
    pub input_digest : String
    pub output_digest : String
    pub of_input : transition_input_digest (some lib) stmt ≡ ok input_digest
    pub of_output : transition_output_digest (some lib) stmt ≡ ok output_digest
    pub same_input : get "input_digest" held ≡ str input_digest
    pub same_output : get "output_digest" held ≡ str output_digest
    pub same_body :
        lib.digest "_digest" held
        ≡ lib.digest "_digest" (receipt_body (some lib) context stmt input_digest output_digest)

  abbrev rebound : Context → Fields → Fields → Result (Bool × String)
  rebound context stmt held = rebind (some lib) hashing crypto b64decode context stmt held

  build-digests :
      (context : Context) (stmt : Fields) (i o : String)
      → transition_input_digest (some lib) stmt ≡ ok i
      → transition_output_digest (some lib) stmt ≡ ok o
      → build_mesh_receipt_body (some lib) context stmt
        ≡ ok (receipt_body (some lib) context stmt i o)
  unfolding build_mesh_receipt_body
  build-digests context stmt i o of_input of_output = rw (of_input, of_output) refl

  rebind-IsBody :
      (context : Context) (stmt held : Fields) (d : String)
      → rebound context stmt held ≡ ok (true, d)
      → IsBody context stmt held
  unfolding rebind mesh_receipt_body_digest
  rebind-IsBody context stmt held d e =
      let (i, of_input, e₁) = bind-ok (transition_input_digest (some lib) stmt) _ _ e in
      elim (Bool-cases (is_text i (get "input_digest" held))) [
        | inr differs ↦ absurd (cc (ap answer (ok_inj (rw differs at e₁))))
        | inl input_same ↦
            let (o, of_output, e₂) =
              bind-ok (transition_output_digest (some lib) stmt) _ _ (rw input_same at e₁) in
            elim (Bool-cases (is_text o (get "output_digest" held))) [
              | inr differs ↦ absurd (cc (ap answer (ok_inj (rw differs at e₂))))
              | inl output_same ↦
                  let built = build-digests context stmt i o of_input of_output in
                  let e₃ = rw (output_same, built) at e₂ in
                  elim (Bool-cases (
                    lib.digest "_digest" held
                    =? lib.digest "_digest" (receipt_body (some lib) context stmt i o))) [
                      | inr differs ↦ absurd (cc (ap answer (ok_inj (rw differs at e₃))))
                      | inl same ↦ record {
                        input_digest = i;
                        output_digest = o;
                        of_input = of_input;
                        of_output = of_output;
                        same_input = is_text_lem i (get "input_digest" held) input_same;
                        same_output = is_text_lem o (get "output_digest" held) output_same;
                        same_body = str_ord.same _ _ (ground (arith, same));
                      }
                    ]
            ]
      ]

  is_text_refl : (s : String) (j : Json) → j ≡ str s → is_text s j ≡ true
  is_text_refl s j e = rw e (ground (arith, str_ord.cmp_self s))

  IsBody-rebind :
      (context : Context) (stmt held : Fields)
      → IsBody context stmt held
      → rebound context stmt held ≡ ok (true, "ok")
  unfolding rebind mesh_receipt_body_digest
  IsBody-rebind context stmt held b =
      rw
        (
          b.of_input,
          is_text_refl b.input_digest (get "input_digest" held) b.same_input,
          b.of_output,
          is_text_refl b.output_digest (get "output_digest" held) b.same_output,
          b.same_body,
        )
        (passes_equal _ _ _)

  -- The library verifies the envelope's signature, and the payload is the body of a receipt for the
  -- statement.
  pub record IsBound (public_key_pem : Option String) (context : Context) (stmt envelope : Fields)
      : Type 0 where
    pub signed : (lib.verify_receipt envelope public_key_pem).0 ≡ true
    pub held : Fields
    pub carried : payload_of (some lib) hashing crypto b64decode envelope ≡ some (obj held)
    pub is_body : IsBody context stmt held

  -- A receipt is verified against a statement exactly if the library verifies its signature, its
  -- payload is a dictionary with the digests of the statement's transition, and that dictionary has
  -- the digest of the body that would be emitted for the statement under the same policy, quorum
  -- and witnesses.
  pub verify_mesh_receipt_iff :
      (public_key_pem : Option String) (context : Context) (stmt envelope : Fields)
      → (((d : String)
          → verify_mesh_receipt
              (some lib)
              hashing
              crypto
              b64decode
              context
              public_key_pem
              (some stmt)
              envelope
            ≡ ok (true, d)
          → IsBound public_key_pem context stmt envelope))
        × (IsBound public_key_pem context stmt envelope
            → verify_mesh_receipt
                (some lib)
                hashing
                crypto
                b64decode
                context
                public_key_pem
                (some stmt)
                envelope
              ≡ ok (true, "ok"))
  unfolding verify_mesh_receipt
  verify_mesh_receipt_iff pk context stmt envelope = (
    λ d e. elim (Bool-cases (lib.verify_receipt envelope pk).0) [
      | inr refused ↦ absurd (cc (ap answer (ok_inj (rw refused at e))))
      | inl signed ↦ elim (Option-cases (payload_of (some lib) hashing crypto b64decode envelope)) [
        | inl garbled ↦ absurd (cc (ap answer (ok_inj (rw (signed, garbled) at e))))
        | inr (payload, decoded) ↦ elim (Option-cases (as_fields payload)) [
          | inl other ↦ absurd (cc (ap answer (ok_inj (rw (signed, decoded, other) at e))))
          | inr (held, shape) ↦ record {
            signed = signed;
            held = held;
            carried = decoded ∙ ap some (as_fields_lem payload held shape);
            is_body = rebind-IsBody context stmt held d (rw (signed, decoded, shape) at e);
          }
        ]
      ]
    ],
    λ b. rw (b.signed, b.carried) (IsBody-rebind context stmt b.held b.is_body),
  )

  -- What the library documents of an envelope that it signs with a private key: its signature
  -- verifies with the public key, and its payload is the body's canonical JSON, which is read back
  -- with the same texts under the same keys and has the same digest.
  pub record Issues (pem pub_pem : String) (body : Fields) : Type 0 where
    pub verifies :
        (kind organ keyid : String) (envelope : Fields)
        → lib.sign_receipt kind body (some pem) organ keyid ≡ ok envelope
        → (lib.verify_receipt envelope (some pub_pem)).0 ≡ true
    pub carries :
        (kind organ keyid : String) (envelope : Fields)
        → lib.sign_receipt kind body (some pem) organ keyid ≡ ok envelope
        → (held : Fields) × (payload_of (some lib) hashing crypto b64decode envelope
            ≡ some (obj held))
          × ((k s : String) → get k body ≡ str s → get k held ≡ str s)
          × (lib.digest "_digest" held ≡ lib.digest "_digest" body)

  body_digests :
      (context : Context) (stmt : Fields) (i o : String)
      → (get "input_digest" (receipt_body (some lib) context stmt i o) ≡ str i)
        × (get "output_digest" (receipt_body (some lib) context stmt i o) ≡ str o)
  unfolding get_or get_field str_ord
  body_digests context stmt i o = (refl, refl)

  emitted-IsBound :
      (pem pub_pem : String)
      → (context : Context) (organ keyid i o : String) (stmt envelope : Fields)
      → Issues pem pub_pem (receipt_body (some lib) context stmt i o)
      → transition_input_digest (some lib) stmt ≡ ok i
      → transition_output_digest (some lib) stmt ≡ ok o
      → lib.sign_receipt receipt_kind
          (receipt_body (some lib) context stmt i o)
          (some pem)
          organ
          keyid
        ≡ ok envelope
      → IsBound (some pub_pem) context stmt envelope
  emitted-IsBound pem pub_pem context organ keyid i o stmt envelope law of_input of_output signs =
      let (held, carried, kept, same) = law.carries receipt_kind organ keyid envelope signs in
      let (at_input, at_output) = body_digests context stmt i o in
      record {
        signed = law.verifies receipt_kind organ keyid envelope signs;
        held = held;
        carried = carried;
        is_body = record {
          input_digest = i;
          output_digest = o;
          of_input = of_input;
          of_output = of_output;
          same_input = kept "input_digest" i at_input;
          same_output = kept "output_digest" o at_output;
          same_body = same;
        };
      }

  -- A receipt that was emitted for a statement with a private key is verified against the same
  -- statement, policy, quorum and witnesses with the public key, where the library's signatures on
  -- the receipt's body verify and the payload is read back.
  pub emit-verify :
      (pem pub_pem : String) (context : Context) (organ keyid : String)
      (stmt body envelope : Fields)
      → build_mesh_receipt_body (some lib) context stmt ≡ ok body
      → Issues pem pub_pem body
      → emit_mesh_receipt (some lib) context (some pem) organ keyid stmt ≡ ok envelope
      → verify_mesh_receipt
          (some lib)
          hashing
          crypto
          b64decode
          context
          (some pub_pem)
          (some stmt)
          envelope
        ≡ ok (true, "ok")
  unfolding emit_mesh_receipt build_mesh_receipt_body
  emit-verify pem pub_pem context organ keyid stmt body envelope built law e =
      let (i, of_input, built₁) = bind-ok (transition_input_digest (some lib) stmt) _ _ built in
      let (o, of_output, built₂) = bind-ok (transition_output_digest (some lib) stmt) _ _ built₁ in
      let signs = rw built at e in
      (verify_mesh_receipt_iff (some pub_pem) context stmt envelope).1 (
        emitted-IsBound pem pub_pem context organ keyid i o stmt envelope
          (subst (Issues pem pub_pem) (sym (ok_inj built₂)) law) of_input of_output
          (ap (λ b. lib.sign_receipt receipt_kind b (some pem) organ keyid) (ok_inj built₂)
            ∙ signs))
