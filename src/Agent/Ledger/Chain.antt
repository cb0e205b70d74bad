-- ===== src/Agent/Ledger/Chain.antt =====
-- The hash chain of a ledger (`append`, `verify_chain`): what is appended verifies, the chain only
-- grows, and two chains that verify to one head have the same bodies and hashes, or show a collision.
use native.Mathlib.Decide.{ℕ_discrete}
use szl_mesh.Agent.Ledger.{
  Entry, Ledger, Job, intact, init, genesis_hash, khipu_hash, body_of, append, new_entry,
  verify_from, verify_chain,
}
use szl_mesh.Common.Json.{Hashing, Bytes}
use szl_mesh.Common.Order.{str_ord, nat_ord}
use szl_mesh.Common.{
  ℕ, suc, ◌+◌, true, String, List, [], ◌∷◌, ◌++◌, ◌≡◌, refl, arith, length, map, ap, ap₂, sym, ◌∙◌,
  ◌≢◌, ◌⊎◌, inl, inr, length-append,
}

-- The hash behind a chain that starts at `prev`.
unfoldable pub last_hash : String → List Entry → String
last_hash prev [] = prev
last_hash prev (entry ∷ rest) = last_hash entry.chain_hash rest

bytes_discrete : Discrete Bytes
bytes_discrete = hlevel ℕ_discrete

append_cancel :
    (xs us ys vs : Bytes) → length xs ≡ length us → xs ++ ys ≡ us ++ vs → (xs ≡ us) × (ys ≡ vs)
append_cancel [] [] ys vs n e = (refl, e)
append_cancel [] (u ∷ us) ys vs n e = absurd (omega arith)
append_cancel (x ∷ xs) [] ys vs n e = absurd (omega arith)
append_cancel (x ∷ xs) (u ∷ us) ys vs n e =
    let (left, right) = append_cancel xs us ys vs (omega arith) (cc) in (cc, right)

last_hash-append :
    (prev : String) (es : List Entry) (e : Entry) → last_hash prev (es ++ e ∷ []) ≡ e.chain_hash
unfolding last_hash
last_hash-append prev [] e = refl
last_hash-append prev (x ∷ es) e = last_hash-append x.chain_hash es e

module _ (h : Hashing) where
  -- The chain verifies, and the ledger's head is the hash behind it.
  pub record IsIntact (l : Ledger) : Type 0 where
    pub verified : verify_chain h l ≡ (true, intact (length l.chain))
    pub head : l.head_hash ≡ last_hash genesis_hash l.chain

  verify_from-append :
      (i : ℕ) (prev : String) (es : List Entry) (e : Entry) (n : ℕ)
      → verify_from h i prev es ≡ (true, intact n)
      → e.chain_hash ≡ khipu_hash h (last_hash prev es) (body_of h e.receipt)
      → e.receipt.seq ≡ i + length es
      → verify_from h i prev (es ++ e ∷ []) ≡ (true, intact (i + length es + 1))
  unfolding verify_from last_hash
  verify_from-append i prev [] e n v c s =
      ground (arith, str_ord.cmp_self e.chain_hash, nat_ord.cmp_self i)
  verify_from-append i prev (x ∷ es) e n v c s =
      ground (arith, verify_from-append (suc i) x.chain_hash es e n)

  -- A new ledger is intact.
  pub init-IsIntact : (node_id : String) (secret : Bytes) → IsIntact (init node_id secret)
  unfolding verify_chain last_hash
  init-IsIntact node_id secret = record { verified = refl; head = refl }

  -- Appending keeps the chain intact: `verify_chain` accepts it, and counts one receipt more.
  pub append-IsIntact :
      (l : Ledger) (job : Job) (now signed_at : String)
      → IsIntact l
      → IsIntact (append h l job now signed_at).0
  unfolding append new_entry verify_chain
  append-IsIntact l job now signed_at v =
      let e = new_entry h l job now signed_at in
      record {
        verified =
            verify_from-append 0 genesis_hash l.chain e (length l.chain) v.verified
              (ap (λ p. khipu_hash h p (body_of h e.receipt)) v.head) (omega arith)
            ∙ ap (λ n. (true, intact n)) (omega (arith, length-append l.chain (e ∷ [])));
        head = sym (last_hash-append genesis_hash l.chain e);
      }

  -- Receipts are only ever appended: the old entries stay as they are and in place, and the new
  -- one is numbered by its position and holds the head that it was chained to.
  pub append_only :
      (l : Ledger) (job : Job) (now signed_at : String)
      → let (l', e) = append h l job now signed_at in
        (l'.chain ≡ l.chain ++ e ∷ [])
        × (e.seq ≡ length l.chain)
        × (e.receipt.seq ≡ length l.chain)
        × (e.prev_chain_hash ≡ l.head_hash)
        × (l'.head_hash ≡ e.chain_hash)
  unfolding append new_entry
  append_only l job now signed_at = (refl, refl, refl, refl, refl)

  abbrev pub run : Ledger → List (Job × (String × String)) → Ledger
  run l [] = l
  run l ((job, (now, signed_at)) ∷ jobs) = run (append h l job now signed_at).0 jobs

  run-IsIntact :
      (l : Ledger) (jobs : List (Job × (String × String))) → IsIntact l → IsIntact (run l jobs)
  run-IsIntact l [] v = v
  run-IsIntact l ((job, (now, signed_at)) ∷ jobs) v =
      run-IsIntact (append h l job now signed_at).0 jobs (append-IsIntact l job now signed_at v)

  length-run :
      (l : Ledger) (jobs : List (Job × (String × String)))
      → length (run l jobs).chain ≡ length l.chain + length jobs
  unfolding append
  length-run l [] = omega arith
  length-run l ((job, (now, signed_at)) ∷ jobs) =
      let e = new_entry h l job now signed_at in
      omega
        (arith, length-run (append h l job now signed_at).0 jobs, length-append l.chain (e ∷ []))

  -- The chain that any jobs leave in a new ledger verifies, with one receipt for each job.
  pub verify_chain-run :
      (node_id : String) (secret : Bytes) (jobs : List (Job × (String × String)))
      → verify_chain h (run (init node_id secret) jobs) ≡ (true, intact (length jobs))
  verify_chain-run node_id secret jobs =
      (run-IsIntact (init node_id secret) jobs (init-IsIntact node_id secret)).verified
      ∙ ap (λ n. (true, intact n)) (omega (arith, length-run (init node_id secret) jobs))

  -- Two texts of bytes with one digest.
  abbrev pub Collision : Type 0
  Collision = (x y : Bytes) × (x ≢ y) × (h.sha256 x ≡ h.sha256 y)

  abbrev pub bodies : List Entry → List Bytes
  bodies = map (λ e. body_of h e.receipt)

  abbrev pub hashes : List Entry → List String
  hashes = map (λ e. e.chain_hash)

  module _ (utf8_inj : (p q : String) → h.utf8 p ≡ h.utf8 q → p ≡ q)
      (digest_length : (x : Bytes) → length (h.utf8 (h.sha256 x)) ≡ 64) where
    abbrev IsDigest : String → Type 0
    IsDigest p = length (h.utf8 p) ≡ 64

    same_link :
        (p q : String) (a b : Bytes)
        → IsDigest p
        → IsDigest q
        → khipu_hash h p a ≡ khipu_hash h q b
        → ((p ≡ q) × (a ≡ b)) ⊎ Collision
    unfolding khipu_hash
    same_link p q a b dp dq e = elim (bytes_discrete (h.utf8 p ++ a) (h.utf8 q ++ b)) [
      | no other ↦ inr (h.utf8 p ++ a, h.utf8 q ++ b, other, e)
      | yes same ↦
          let (left, right) = append_cancel (h.utf8 p) (h.utf8 q) a b (dp ∙ sym dq) same in
          inl (utf8_inj p q left, right)
    ]

    khipu-IsDigest : (z prev : String) (b : Bytes) → z ≡ khipu_hash h prev b → IsDigest z
    unfolding khipu_hash
    khipu-IsDigest z prev b e = rw e (digest_length _)

    verify_from-head :
        (i : ℕ) (prev : String) (x : Entry) (es : List Entry) (n : ℕ)
        → verify_from h i prev (x ∷ es) ≡ (true, intact n)
        → (x.chain_hash ≡ khipu_hash h prev (body_of h x.receipt))
          × (verify_from h (suc i) x.chain_hash es ≡ (true, intact n))
    unfolding verify_from
    verify_from-head i prev x es n v = (
      ground (arith, str_ord.same x.chain_hash (khipu_hash h prev (body_of h x.receipt))),
      ground arith,
    )

    chains_agree :
        (i : ℕ) (p q : String) (es fs : List Entry) (n m : ℕ)
        → IsDigest p
        → IsDigest q
        → verify_from h i p es ≡ (true, intact n)
        → verify_from h i q fs ≡ (true, intact m)
        → length es ≡ length fs
        → last_hash p es ≡ last_hash q fs
        → ((p ≡ q) × (bodies es ≡ bodies fs) × (hashes es ≡ hashes fs)) ⊎ Collision
    unfolding last_hash
    chains_agree i p q [] [] n m dp dq ve vf len last = inl (last, refl, refl)
    chains_agree i p q [] (y ∷ fs) n m dp dq ve vf len last = absurd (omega arith)
    chains_agree i p q (x ∷ es) [] n m dp dq ve vf len last = absurd (omega arith)
    chains_agree i p q (x ∷ es) (y ∷ fs) n m dp dq ve vf len last =
        let (hx, re) = verify_from-head i p x es n ve in
        let (hy, rf) = verify_from-head i q y fs m vf in
        elim (chains_agree (suc i) x.chain_hash y.chain_hash es fs n m (khipu-IsDigest _ _ _ hx)
          (khipu-IsDigest _ _ _ hy) re rf (omega arith) last) [
            | inr collision ↦ inr collision
            | inl (chained, rest, behind) ↦
                elim (same_link p q (body_of h x.receipt) (body_of h y.receipt) dp dq
                  (sym hx ∙ chained ∙ hy)) [
                    | inr collision ↦ inr collision
                    | inl (same, body) ↦ inl (same, ap₂ ◌∷◌ body rest, ap₂ ◌∷◌ chained behind)
                  ]
          ]

    -- For two intact ledgers with the same head and equally many receipts, the texts that are
    -- hashed for their receipts, the canonical JSON of the receipts' bodies, are the same in the
    -- same order, and so are the chain hashes of their entries, or there are two different byte
    -- strings with one digest.
    pub heads_fix_receipts :
        (l m : Ledger)
        → length (h.utf8 genesis_hash) ≡ 64
        → IsIntact l
        → IsIntact m
        → length l.chain ≡ length m.chain
        → l.head_hash ≡ m.head_hash
        → ((bodies l.chain ≡ bodies m.chain) × (hashes l.chain ≡ hashes m.chain)) ⊎ Collision
    unfolding verify_chain
    heads_fix_receipts l m g vl vm len head =
        elim (chains_agree 0 genesis_hash genesis_hash l.chain m.chain _ _ g g vl.verified
          vm.verified len (sym vl.head ∙ head ∙ vm.head)) [
            | inl (_, same, chained) ↦ inl (same, chained)
            | inr collision ↦ inr collision
          ]
