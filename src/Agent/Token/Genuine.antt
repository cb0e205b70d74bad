-- ===== src/Agent/Token/Genuine.antt =====
-- What a join token that verifies is, and that an issued one does (szl_mesh_agent.py,
-- `issue_join_token` and `verify_join_token`).
use Prim.Native.Char.{Char}
use Prim.Native.String.append
use Prim.Native.String.{◌++◌ as append_str, ◌∷◌ as cons_str}
use szl_mesh.Agent.Token.{
  NodeHardware, Encoding, rsplit_dot, same_digest, is_listed, is_expired, check_payload, check_body,
  verify_join_token, issue_join_token, token_of, token_fields, node_id_of, revoke_token,
}
use szl_mesh.Common.Json.{Json, Fields, Bytes, Hashing, int, str, obj}
use szl_mesh.Common.Members.{mem}
use szl_mesh.Common.Order.{str_ord}
use szl_mesh.Common.Truth.{get, get_or, as_fields, as_fields_lem}
use szl_mesh.Common.{
  ℕ, ◌+◌, ◌≤◌, true, false, String, none, some, List, [], ◌∷◌, ◌≡◌, refl, sym, ap, ◌∙◌, arith, ltb,
  Bool-cases, Option-cases, inl, inr, subst,
}

same_digest_lem : (xs ys : Bytes) → same_digest xs ys ≡ true → xs ≡ ys
unfolding same_digest
same_digest_lem [] [] e = refl
same_digest_lem [] (y ∷ ys) e = cc
same_digest_lem (x ∷ xs) [] e = cc
same_digest_lem (x ∷ xs) (y ∷ ys) e = ground (arith, same_digest_lem xs ys)

pub same_digest_refl : (xs : Bytes) → same_digest xs xs ≡ true
unfolding same_digest
same_digest_refl [] = refl
same_digest_refl (x ∷ xs) = ground (arith, same_digest_refl xs)

-- What is not listed is no name in the set.
pub not_listed :
    (store : List String) (j : Json) (node_id : String)
    → is_listed store j ≡ some false
    → j ≡ str node_id
    → mem node_id store ≡ false
unfolding is_listed
not_listed [] j node_id e named = refl
not_listed (x ∷ xs) j node_id e named = cc (rw named at e)

is_listed_free :
    (store : List String) (node_id : String)
    → mem node_id store ≡ false
    → is_listed store (str node_id) ≡ some false
unfolding is_listed
is_listed_free [] node_id free = refl
is_listed_free (x ∷ xs) node_id free = rw free refl

pub mem-revoke_token :
    (node_id x : String) (store : List String)
    → mem x store ≡ true
    → mem x (revoke_token node_id store) ≡ true
unfolding revoke_token
mem-revoke_token node_id x store m = ground (arith, m)

pub revoke_token-mem :
    (node_id : String) (store : List String) → mem node_id (revoke_token node_id store) ≡ true
unfolding revoke_token
revoke_token-mem node_id store = ground (arith, str_ord.cmp_self node_id)

rsplit_here : (b : String) → rsplit_dot b ≡ none → rsplit_dot (cons_str "." b) ≡ some ("", b)
unfolding rsplit_dot
rsplit_here b e = rw (e, rsplit_dot) refl

rsplit_later :
    (c : Char) (s a b : String)
    → rsplit_dot s ≡ some (a, b)
    → rsplit_dot (cons_str c s) ≡ some (cons_str c a, b)
unfolding rsplit_dot
rsplit_later c s a b e = rw (e, rsplit_dot) refl

rsplit-append :
    (a b : String)
    → rsplit_dot b ≡ none
    → rsplit_dot (append_str a (append_str "." b)) ≡ some (a, b)
unfolding rsplit_dot
rsplit-append String.[] b e =
    ap rsplit_dot (
      append.nil (append_str "." b)
      ∙ append.cons "." "" b
      ∙ ap (λ s. cons_str "." s) (append.nil b))
    ∙ rsplit_here b e
rsplit-append (String.◌∷◌ c a) b e =
    ap rsplit_dot (append.cons c a (append_str "." b))
    ∙ rsplit_later c (append_str a (append_str "." b)) a b (rsplit-append a b e)

module _ (h : Hashing) (encoding : Encoding) where
  open encoding use {urlsafe_b64encode, urlsafe_b64decode, loads}

  -- The token is two parts, of which the second is the code of the first under the secret; the
  -- first holds the payload, which is not expired and names no revoked node.
  pub record IsGenuine (token : String) (secret : Bytes) (store : List String) (now : ℕ)
      (payload : Fields) : Type 0 where
    pub b64_body : String
    pub b64_mac : String
    pub split : rsplit_dot token ≡ some (b64_body, b64_mac)
    pub body : Bytes
    pub decoded : urlsafe_b64decode b64_body ≡ some body
    pub signed : urlsafe_b64decode b64_mac ≡ some (h.hmac_sha256 secret body)
    pub loaded : loads body ≡ some (obj payload)
    pub current : is_expired h encoding (get_or "expires_at" (int 0) payload) now ≡ some false
    pub permitted :
        (node_id : String) → get "node_id" payload ≡ str node_id → mem node_id store ≡ false

  -- What `check_payload` returns is the payload that it was given.
  check_payload_lem :
      (store : List String) (now : ℕ) (fields payload : Fields)
      → check_payload h encoding store now fields ≡ some payload
      → (fields ≡ payload)
        × (is_expired h encoding (get_or "expires_at" (int 0) fields) now ≡ some false)
        × (is_listed store (get "node_id" fields) ≡ some false)
  unfolding check_payload
  check_payload_lem store now fields payload e = ground (arith, e)

  check_body_lem :
      (secret : Bytes) (store : List String) (now : ℕ) (body mac : Bytes) (payload : Fields)
      → check_body h encoding secret store now body mac ≡ some payload
      → (mac ≡ h.hmac_sha256 secret body)
        × (loads body ≡ some (obj payload))
        × (check_payload h encoding store now payload ≡ some payload)
  unfolding check_body
  check_body_lem secret store now body mac payload e =
      elim (Bool-cases (same_digest (h.hmac_sha256 secret body) mac)) [
        | inr differs ↦ absurd (cc (rw (differs, check_body) at e))
        | inl same ↦ elim (Option-cases (loads body)) [
          | inl broken ↦ absurd (cc (rw (same, broken, check_body) at e))
          | inr (j, loaded) ↦ elim (Option-cases (as_fields j)) [
            | inl other ↦ absurd (cc (rw (same, loaded, other, check_body) at e))
            | inr (fields, is_object) ↦
                let checked = rw (same, loaded, is_object, check_body) at e in
                let is = (check_payload_lem store now fields payload checked).0 in
                (
                  sym (same_digest_lem (h.hmac_sha256 secret body) mac same),
                  loaded ∙ ap some (as_fields_lem j fields is_object ∙ ap obj is),
                  subst (λ x. check_payload h encoding store now x ≡ some payload) is checked,
                )
          ]
        ]
      ]

  -- A join token verifies only if it is genuine: the secret's holder signed its body, the payload
  -- that is returned is what the body holds, it is not expired, and its node is not revoked.
  pub verify_join_token-IsGenuine :
      (token : String) (secret : Bytes) (store : List String) (now : ℕ) (payload : Fields)
      → verify_join_token h encoding token secret store now ≡ some payload
      → IsGenuine token secret store now payload
  unfolding verify_join_token
  verify_join_token-IsGenuine token secret store now payload e =
      elim (Option-cases (rsplit_dot token)) [
        | inl whole ↦ absurd (cc (rw (whole, verify_join_token) at e))
        | inr ((b64_body, b64_mac), split) ↦ elim (Option-cases (urlsafe_b64decode b64_body)) [
          | inl broken ↦ absurd (cc (rw (split, broken, verify_join_token) at e))
          | inr (body, decoded) ↦ elim (Option-cases (urlsafe_b64decode b64_mac)) [
            | inl broken ↦ absurd (cc (rw (split, decoded, broken, verify_join_token) at e))
            | inr (mac, read) ↦
                let (same, loaded, checked) =
                  check_body_lem secret store now body mac payload
                    (rw (split, decoded, read, verify_join_token) at e) in
                let (_, current, unlisted) = check_payload_lem store now payload payload checked in
                record {
                  b64_body = b64_body;
                  b64_mac = b64_mac;
                  split = split;
                  body = body;
                  decoded = decoded;
                  signed = read ∙ ap some same;
                  loaded = loaded;
                  current = current;
                  permitted = λ node_id named.
                      not_listed store (get "node_id" payload) node_id unlisted named;
                }
          ]
        ]
      ]

  -- Base64 for URLs is read back, and has no dot in its alphabet.
  pub record IsBase64 : Type 0 where
    pub decodes : (body : Bytes) → urlsafe_b64decode (urlsafe_b64encode body) ≡ some body
    pub dotless : (body : Bytes) → rsplit_dot (urlsafe_b64encode body) ≡ none

  check_payload_passes :
      (store : List String) (now expires : ℕ) (node_id : String) (payload : Fields)
      → get_or "expires_at" (int 0) payload ≡ int expires
      → get "node_id" payload ≡ str node_id
      → now ≤ expires
      → mem node_id store ≡ false
      → check_payload h encoding store now payload ≡ some payload
  unfolding check_payload is_expired
  check_payload_passes store now expires node_id payload at_expiry named early free =
      let late : ltb expires now ≡ false = ground (arith, early) in
      rw (at_expiry, late, check_payload)
        (rw (named, is_listed_free store node_id free, check_payload) refl)

  check_body_passes :
      (secret : Bytes) (store : List String) (now : ℕ) (body : Bytes) (payload : Fields)
      → loads body ≡ some (obj payload)
      → check_payload h encoding store now payload ≡ some payload
      → check_body h encoding secret store now body (h.hmac_sha256 secret body) ≡ some payload
  unfolding check_body
  check_body_passes secret store now body payload loaded checked =
      rw (same_digest_refl (h.hmac_sha256 secret body), loaded, check_body) checked

  -- A token that was issued for a node verifies under the same secret, until it expires and as
  -- long as the node is not revoked, where base64 is read back and has no dot, and the payload's
  -- JSON is read back as an object with the same node and expiry.
  pub verify-issue :
      (hw : NodeHardware) (secret : Bytes) (ttl now later : ℕ) (store : List String)
      (payload : Fields)
      → IsBase64
      → loads (h.canonical_json (obj (token_fields h hw ttl now))) ≡ some (obj payload)
      → get_or "expires_at" (int 0) payload ≡ int (now + ttl)
      → get "node_id" payload ≡ str (node_id_of h hw)
      → later ≤ now + ttl
      → mem (node_id_of h hw) store ≡ false
      → verify_join_token h encoding
          (issue_join_token h encoding hw secret ttl now)
          secret
          store
          later
        ≡ some payload
  unfolding verify_join_token issue_join_token token_of
  verify-issue hw secret ttl now later store payload base64 loaded at_expiry named early free =
      let body = h.canonical_json (obj (token_fields h hw ttl now)) in
      let mac = h.hmac_sha256 secret body in
      rw
        (
          rsplit-append (urlsafe_b64encode body) (urlsafe_b64encode mac) (base64.dotless mac),
          base64.decodes body,
          base64.decodes mac,
          verify_join_token,
        )
        (check_body_passes secret store later body payload loaded (
          check_payload_passes store later (now + ttl) (node_id_of h hw) payload at_expiry named
            early free))
