-- ===== src/Quorum/Propose/Votes.antt =====
-- From a proposal to its verification (quorum.py, `propose_action`, `to_dict`, `verify_quorum`).
use mathlib.Core.List.Memᴰ
use mathlib.Core.List.{Memᴰ}
use szl_mesh.Common.Dict.{Dict, lookup, put}
use szl_mesh.Common.Json.{Json, Fields, Hashing, int, get_field, array, to_items}
use szl_mesh.Common.Members.{mem}
use szl_mesh.Common.Order.{◌=?◌, str_ord}
use szl_mesh.Common.Result.{Result, ok, ok_inj, bind-ok}
use szl_mesh.Common.Truth.{get, from_items, as_text, get_or, is_int}
use szl_mesh.Common.{
  Bool, all, true, false, ◌&&◌, String, some, List, [], ◌∷◌, ◌++◌, ◌≡◌, refl, sym, ap, ◌∙◌, arith,
  map, Bool-cases, Option-cases, inl, inr, subst,
}
use szl_mesh.Quorum.Certificate.{verify_dict-counts}
use szl_mesh.Quorum.Propose.{Signer, signed, collect}
use szl_mesh.Quorum.{
  Engine, QuorumCertificate, witness_dict, to_dict, count_witnesses, verify_dict, raw_witnesses,
}

all-snoc :
    (p : Fields → Bool) (xs : List Fields) (x : Fields)
    → all p xs ≡ true
    → p x ≡ true
    → all p (xs ++ x ∷ []) ≡ true
all-snoc p [] x a h = ground (arith, h)
all-snoc p (y ∷ xs) x a h = ground (arith, a, all-snoc p xs x)

module _ (hashing : Hashing) (signer : Signer) (ah : String)
    (witness_keys verdicts : Dict String String) (reason lean_sha ts : String) where
  abbrev pub collect_all :
      List String → List Fields → Dict String String → Result (List Fields × Dict String String)
  collect_all = collect hashing signer ah witness_keys verdicts reason lean_sha ts

  abbrev pub sign : String → String → Result Fields
  sign = signed hashing signer ah witness_keys verdicts reason lean_sha ts

  -- One round of the loop: either nothing was added, or the organ's signed record was.
  collect_step :
      (organ : String) (organs : List String) (ws : List Fields) (pk : Dict String String)
      (res : List Fields × Dict String String)
      → collect_all (organ ∷ organs) ws pk ≡ ok res
      → (ws' : List Fields) × (pk' : Dict String String) × (collect_all organs ws' pk' ≡ ok res)
        × ((r : Fields) → Memᴰ r ws → Memᴰ r ws')
        × ((p : Fields → Bool)
            → ((organ pem : String) (r : Fields) → sign organ pem ≡ ok r → p r ≡ true)
            → all p ws ≡ true
            → all p ws' ≡ true)
        × ((pem : String)
            → lookup organ witness_keys ≡ some pem
            → (pem =? "") ≡ false
            → (r : Fields) × (sign organ pem ≡ ok r) × Memᴰ r ws')
  unfolding collect
  collect_step organ organs ws pk res e = elim (Option-cases (lookup organ witness_keys)) [
    | inl absent ↦ (
      ws,
      pk,
      (rw (absent, collect) at e),
      (λ r m. m),
      (λ p h a. a),
      λ pem p ne. absurd (cc (absent, p)),
    )
    | inr (pem, present) ↦ elim (Bool-cases (pem =? "")) [
      | inl empty ↦ (
        ws,
        pk,
        (rw (present, empty, collect) at e),
        (λ r m. m),
        (λ p h a. a),
        λ pem' p ne. absurd (ground (arith, present, p, ne, empty)),
      )
      | inr full ↦
          let (r, signs, e₁) = bind-ok (sign organ pem) _ res (rw (present, full, collect) at e) in
          let (pub_pem, derives, e₂) = bind-ok (signer.public_pem pem) _ res e₁ in
          (
            ws ++ r ∷ [],
            put organ pub_pem pk,
            e₂,
            (λ r' m. Memᴰ.append_left (r ∷ []) m),
            (λ p h a. all-snoc p ws r a (h organ pem r signs)),
            λ pem' p ne. (
              r,
              ap (sign organ) (cc (p, present)) ∙ signs,
              Memᴰ.append_right ws (Memᴰ.head refl),
            ),
          )
    ]
  ]

  collect_kept :
      (organs : List String) (ws : List Fields) (pk : Dict String String)
      (res : List Fields × Dict String String)
      → collect_all organs ws pk ≡ ok res
      → (r : Fields) → Memᴰ r ws
      → Memᴰ r res.0
  unfolding collect
  collect_kept [] ws pk res e r m = subst (λ x. Memᴰ r x.0) (ok_inj e) m
  collect_kept (organ ∷ organs) ws pk res e r m =
      let (ws', pk', e', kept, each, added) = collect_step organ organs ws pk res e in
      collect_kept organs ws' pk' res e' r (kept r m)

  -- What holds of every record that is signed holds of every record that is collected.
  pub collect_each :
      (p : Fields → Bool)
      → ((organ pem : String) (r : Fields) → sign organ pem ≡ ok r → p r ≡ true)
      → (organs : List String) (ws : List Fields) (pk : Dict String String)
        (res : List Fields × Dict String String)
      → collect_all organs ws pk ≡ ok res
      → all p ws ≡ true
      → all p res.0 ≡ true
  unfolding collect
  collect_each p h [] ws pk res e a = subst (λ x. all p x.0 ≡ true) (ok_inj e) a
  collect_each p h (organ ∷ organs) ws pk res e a =
      let (ws', pk', e', kept, each, added) = collect_step organ organs ws pk res e in
      collect_each p h organs ws' pk' res e' (each p h a)

  pub collect_signed :
      (organs : List String) (ws : List Fields) (pk : Dict String String)
      (res : List Fields × Dict String String)
      → collect_all organs ws pk ≡ ok res
      → (organ pem : String) → mem organ organs ≡ true
      → lookup organ witness_keys ≡ some pem
      → (pem =? "") ≡ false
      → (r : Fields) × (sign organ pem ≡ ok r) × Memᴰ r res.0
  collect_signed [] ws pk res e organ pem m present full = cc
  collect_signed (o ∷ organs) ws pk res e organ pem m present full =
      let (ws', pk', e', kept, each, added) = collect_step o organs ws pk res e in
      elim (Bool-cases (o =? organ)) [
        | inl same ↦
            let eq = str_ord.same o organ (ground (arith, same)) in
            let (r, signs, here) = added pem (ap (λ x. lookup x witness_keys) eq ∙ present) full in
            (r, ap (λ x. sign x pem) (sym eq) ∙ signs, collect_kept organs ws' pk' res e' r here)
        | inr other ↦
            collect_signed organs ws' pk' res e' organ pem (ground (arith, m, other)) present full
      ]

-- `list` of a list.
from_items-to_items : (xs : List Json) → from_items (to_items xs) ≡ xs
from_items-to_items [] = refl
from_items-to_items (x ∷ xs) = ap (◌∷◌ x) (from_items-to_items xs)

pub Memᴰ-map :
    (f : Fields → Json) (r : Fields) (rs : List Fields) → Memᴰ r rs → Memᴰ (f r) (map f rs)
Memᴰ-map f r [] m = elim m [ ]
Memᴰ-map f r (x ∷ rs) (Memᴰ.head e) = Memᴰ.head (ap f e)
Memᴰ-map f r (x ∷ rs) (Memᴰ.tail m) = Memᴰ.tail (Memᴰ-map f r rs m)

declared-to_dict :
    (qc : QuorumCertificate)
    → (is_int qc.threshold (get_or "threshold" (int qc.threshold) (to_dict qc))
        && is_int qc.n (get_or "n" (int qc.n) (to_dict qc)))
      ≡ true
unfolding to_dict get_or get_field str_ord
declared-to_dict qc = ground arith

named-to_dict :
    (qc : QuorumCertificate) → as_text (get "action_hash" (to_dict qc)) ≡ some qc.action_hash
unfolding to_dict get_or get_field str_ord
named-to_dict qc = refl

witnesses-to_dict :
    (qc : QuorumCertificate) → get "witnesses" (to_dict qc) ≡ array (map witness_dict qc.witnesses)
unfolding to_dict get_or get_field str_ord
witnesses-to_dict qc = refl

pub verify-to_dict :
    (engine : Engine) (qc : QuorumCertificate) (pubkeys : Dict String String)
    → (qc.action_hash =? "") ≡ false
    → verify_dict engine (to_dict qc) pubkeys qc.threshold qc.n
      ≡ count_witnesses engine qc.action_hash pubkeys qc.threshold qc.n
          (map witness_dict qc.witnesses)
verify-to_dict engine qc pubkeys named =
    verify_dict-counts engine pubkeys qc.threshold qc.n (to_dict qc) qc.action_hash
      (declared-to_dict qc) (named-to_dict qc) named
    ∙ ap
        (λ x.
          count_witnesses engine qc.action_hash pubkeys qc.threshold qc.n (raw_witnesses engine x))
        (witnesses-to_dict qc)
    ∙ ap (count_witnesses engine qc.action_hash pubkeys qc.threshold qc.n)
        (from_items-to_items (map witness_dict qc.witnesses))
