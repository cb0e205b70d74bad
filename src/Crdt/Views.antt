-- ===== src/Crdt/Views.antt =====
-- Convergence (crdt.py, `_materialise`, `heads`, `state_digest`): what a replica shows depends on
-- the operations that it holds, and not on the order in which they came.
use mathlib.Core.List.Permᴰ as PermD
use mathlib.Core.List.{Permᴰ}
use szl_mesh.Common.Best.{best-perm, select-perm, All-select}
use szl_mesh.Common.Dict.{Dict, lookup, values, perm_of_lookup, All-entries}
use szl_mesh.Common.Json.{Hashing, object}
use szl_mesh.Common.Order.{str_ord, nat_ord, pair_ord}
use szl_mesh.Common.Sort.{sort_by-eq_of_perm}
use szl_mesh.Common.{
  Bool, String, some, List, [], ◌∷◌, ◌≡◌, refl, sym, arith, ap, ◌∙◌, All, All-map,
}
use szl_mesh.Crdt.Log.{IsLog}
use szl_mesh.Crdt.Winners.{on_key, lookup-winners_from, winners_from-IsMap}
use szl_mesh.Crdt.{
  Op, Document, op_id, order_key, winners_from, collect, materialise, view, heads, state_digest,
  not_revoked, in_tracks, authorized, observed,
}

-- Two replicas hold the same operations, on the same tracks.
abbrev pub SameOps : Document → Document → Type 0
SameOps d e = (i : String) → lookup i d.ops ≡ lookup i e.ops

collect-alike :
    (w v : Dict String Op) (ks : List String)
    → ((k : String) → lookup k w ≡ lookup k v)
    → collect w ks ≡ collect v ks
unfolding collect
collect-alike w v [] same = refl
collect-alike w v (k ∷ ks) same = ground (arith, same k, collect-alike w v ks same)

module _ (h : Hashing) where
  -- In the log: the answer to its own identifier.
  abbrev pub In : Document → Op → Type 0
  In d op = lookup (op_id h op) d.ops ≡ some op

  pub All-In : (d : Document) → IsLog h d → All (In d) (values d.ops)
  All-In d l = All-map (In d) (λ e. e.1) d.ops (all_both d.ops (All-entries d.ops l.unique) l.named)
    where
      all_both :
          (m : Dict String Op)
          → All (λ e. lookup e.0 d.ops ≡ some e.1) m
          → All (λ e. (op_id h e.1 ≡ e.0) × (e.1.doc_id ≡ d.doc_id)) m
          → All (λ e. In d e.1) m
      all_both [] a b = tt
      all_both (e ∷ m) a b = (rw b.0.0 a.0, all_both m a.1 b.1)

  -- The order of operations is total on a log: equal order keys mean one operation.
  pub order_key_inj :
      (d : Document) (a b : Op) → In d a → In d b → order_key h a ≡ order_key h b → a ≡ b
  unfolding order_key
  order_key_inj d a b ha hb e = cc (ap (λ t. t.1.1) e)

  module _ (d e : Document) (ld : IsLog h d) (le : IsLog h e) (same : SameOps d e)
      (keep : Op → Bool) where
    lookup-winners_alike :
        (k : String)
        → lookup k (winners_from h keep [] (values d.ops))
          ≡ lookup k (winners_from h keep [] (values e.ops))
    unfolding lookup
    lookup-winners_alike k =
        lookup-winners_from h keep k [] (values d.ops)
        ∙ best-perm (order_key h) (In d) (order_key_inj d) (lookup k [])
            (select-perm (on_key h keep k)
              (PermD.map (λ x. x.1) (perm_of_lookup d.ops e.ops ld.unique le.unique same)))
            tt (All-select (In d) (on_key h keep k) (values d.ops) (All-In d ld))
        ∙ sym (lookup-winners_from h keep k [] (values e.ops))

    winners_perm :
        Permᴰ (winners_from h keep [] (values d.ops)) (winners_from h keep [] (values e.ops))
    winners_perm =
        perm_of_lookup _ _ (winners_from-IsMap h keep [] _ tt) (winners_from-IsMap h keep [] _ tt)
          lookup-winners_alike

  module _ (d e : Document) (ld : IsLog h d) (le : IsLog h e) (same : SameOps d e) where
    materialise_alike : (tracks : List String) → materialise h tracks d ≡ materialise h tracks e
    unfolding materialise
    materialise_alike tracks =
        collect-alike _ _ _ (lookup-winners_alike d e ld le same (in_tracks tracks))
        ∙ ap (collect _) (
            sort_by-eq_of_perm (λ k. k) (λ x y p. p)
              (PermD.map (λ x. x.0) (winners_perm d e ld le same (in_tracks tracks))))

    view_alike : (track : String) → view h track d ≡ view h track e
    unfolding view
    view_alike track =
        ground (
          arith,
          materialise_alike (authorized ∷ []),
          materialise_alike (authorized ∷ observed ∷ []),
        )

    heads_alike : heads h d ≡ heads h e
    unfolding heads
    heads_alike =
        sort_by-eq_of_perm (λ i. i) (λ x y p. p)
          (PermD.map (op_id h) (PermD.map (λ x. x.1) (winners_perm d e ld le same not_revoked)))

    digest_alike : (track : String) → state_digest h track d ≡ state_digest h track e
    unfolding state_digest
    digest_alike track = ap (λ v. h.sha256 (h.canonical (object v))) (view_alike track)

  -- Replicas whose logs hold the same operations on the same tracks show the same view and the
  -- same digest on every track, and the same heads.
  pub SameOps-converge :
      (d e : Document)
      → IsLog h d
      → IsLog h e
      → SameOps d e
      → ((track : String)
          → (view h track d ≡ view h track e) × (state_digest h track d ≡ state_digest h track e))
        × (heads h d ≡ heads h e)
  SameOps-converge d e ld le same = (
    λ track. (view_alike d e ld le same track, digest_alike d e ld le same track),
    heads_alike d e ld le same,
  )
