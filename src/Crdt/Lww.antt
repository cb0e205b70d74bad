-- ===== src/Crdt/Lww.antt =====
-- What a materialised view shows (crdt.py, `_materialise`): under each key the value of the
-- operation with the greatest order key, unless that one is a deletion.
use szl_mesh.Common.Best.{
  best, best-OnSome, best-none, best-Beats, Beats-antisymm, Beats, OnSome, All-select, any-perm,
}
use szl_mesh.Common.Dict.{Dict, lookup, keys, values, All-lookup}
use szl_mesh.Common.Json.{Json, Hashing}
use szl_mesh.Common.Order.{◌=?◌, str_ord, nat_ord, pair_ord}
use szl_mesh.Common.Sort.{sort_by, sort_by-perm}
use szl_mesh.Common.{
  Bool, true, false, String, Option, none, some, List, [], ◌∷◌, ◌≡◌, refl, subst, arith, ap, ◌∙◌,
  if◌then◌else◌, All, select, inl, inr, Option-cases, Bool-cases,
}
use szl_mesh.Crdt.Log.{IsLog}
use szl_mesh.Crdt.Views.{In, All-In, order_key_inj}
use szl_mesh.Crdt.Winners.{on_key, lookup-winners_from}
use szl_mesh.Common.Members.{mem}
use szl_mesh.Crdt.{Op, Document, op_id, order_key, winners_from, collect, materialise, in_tracks}

-- What a winner contributes to the view.
abbrev shown : Option Op → Option Json
shown none = none
shown (some op) = if op.deletion then none else some op.value

lookup-collect :
    (k : String) (w : Dict String Op) (ks : List String)
    → lookup k (collect w ks) ≡ (if mem k ks then shown (lookup k w) else none)
unfolding collect lookup
lookup-collect k w [] = refl
lookup-collect k w (j ∷ ks) = ground (arith, str_ord.same j k, lookup-collect k w ks)

lookup-absent : (k : String) (w : Dict String Op) → mem k (keys w) ≡ false → lookup k w ≡ none
unfolding lookup
lookup-absent k [] h = refl
lookup-absent k ((j, op) ∷ w) h = ground (arith, lookup-absent k w)

All-selected {ℓ} : {A : Type ℓ} (p : A → Bool) (xs : List A) → All (λ x. p x ≡ true) (select p xs)
All-selected p [] = tt
All-selected p (x ∷ xs) = ground (arith, All-selected p xs)

-- What holds of the selected elements holds of each element that passes the test.
All-unselect {ℓ κ} :
    {A : Type ℓ} (P : A → Type κ) (p : A → Bool) (xs : List A)
    → All P (select p xs)
    → All (λ x. p x ≡ true → P x) xs
All-unselect P p [] h = tt
All-unselect {A} P p (x ∷ xs) h = elim (Bool-cases (p x)) [
  | inl e ↦
      let h' : P x × All P (select p xs) = subst (λ b. All P (kept b)) e h in
      (λ _. h'.0, All-unselect P p xs h'.1)
  | inr e ↦ (λ q. absurd (clash e q), All-unselect P p xs (subst (λ b. All P (kept b)) e h))
]
  where
    clash : {b : Bool} → b ≡ false → b ≡ true → ⊥
    clash e q = cc

    kept : Bool → List A
    kept b = elim b [ true ↦ x ∷ select p xs | false ↦ select p xs ]

lookup_if_key :
    (k : String) (w : Dict String Op)
    → (if mem k (keys w) then shown (lookup k w) else none) ≡ shown (lookup k w)
lookup_if_key k w = ground (arith, lookup-absent k w)

-- What holds of all operations of the log holds of the one that a lookup gives.
at_In {κ} :
    (h : Hashing) (d : Document) (P : Op → Type κ) (w : Op) → In h d w → All P (values d.ops) → P w
at_In h d P w e all = All-lookup (λ x. P x.1) (op_id h w) w d.ops (unmap d.ops all) e
  where
    unmap : (m : Dict String Op) → All P (values m) → All (λ x. P x.1) m
    unmap [] a = tt
    unmap (x ∷ m) a = (a.0, unmap m a.1)

module _ (h : Hashing) (tracks : List String) (d : Document) where
  abbrev candidates : String → List Op
  candidates k = select (on_key h (in_tracks tracks) k) (values d.ops)

  lookup-materialise :
      (k : String)
      → lookup k (materialise h tracks d) ≡ shown (best (order_key h) none (candidates k))
  unfolding materialise lookup
  lookup-materialise k =
      let w = winners_from h (in_tracks tracks) [] (values d.ops) in
      lookup-collect k w (sort_by (λ i. i) (keys w))
      ∙ ap (λ b. if b then shown (lookup k w) else none)
          (any-perm (λ y. y =? k) (sort_by-perm (λ i. i) (keys w)))
      ∙ lookup_if_key k w
      ∙ ap shown (lookup-winners_from h (in_tracks tracks) k [] (values d.ops))

  -- `w` is in the log on an admitted track, writes `k`, and no such operation comes after it.
  pub record Wins (k : String) (w : Op) : Type 0 where
    pub in_log : In h d w
    pub admitted : in_tracks tracks w ≡ true
    pub writes : w.key ≡ k
    pub last :
        All
          (λ op. on_key h (in_tracks tracks) k op ≡ true → Beats (order_key h) w op)
          (values d.ops)

  winner-Wins :
      IsLog h d → (k : String) (w : Op) → best (order_key h) none (candidates k) ≡ some w → Wins k w
  winner-Wins l k w e =
      let in_log =
        best-OnSome (order_key h) (In h d) none (candidates k) tt
          (All-select (In h d) (on_key h (in_tracks tracks) k) (values d.ops) (All-In h d l)) in
      let on =
        best-OnSome (order_key h) (λ op. on_key h (in_tracks tracks) k op ≡ true) none
          (candidates k) tt (All-selected (on_key h (in_tracks tracks) k) (values d.ops)) in
      let on_w = subst (OnSome (λ op. on_key h (in_tracks tracks) k op ≡ true)) e on in
      record {
        in_log = subst (OnSome (In h d)) e in_log;
        admitted = ground (arith, on_w);
        writes = ground (arith, on_w, str_ord.same w.key k);
        last =
            All-unselect (Beats (order_key h) w) (on_key h (in_tracks tracks) k) (values d.ops)
              (best-Beats (order_key h) none w (candidates k) e);
      }

  -- A key shows a value exactly as the last operation on it says: the value of a last operation
  -- that is no deletion.
  pub materialise_last_writer :
      IsLog h d
      → (k : String) (v : Json) → lookup k (materialise h tracks d) ≡ some v
      → (w : Op) × Wins k w × (w.deletion ≡ false) × (w.value ≡ v)
  materialise_last_writer l k v e = elim (Option-cases (best (order_key h) none (candidates k))) [
    | inl none_left ↦ absurd (ground (arith, lookup-materialise k))
    | inr (w, found) ↦ (
      w,
      winner-Wins l k w found,
      ground (arith, lookup-materialise k),
      ground (arith, lookup-materialise k),
    )
  ]

  -- Conversely, where an operation wins the key the view shows its value, or nothing if it is a
  -- deletion.
  pub lookup_of_Wins :
      IsLog h d
      → (k : String) (w : Op) → Wins k w
      → lookup k (materialise h tracks d) ≡ (if w.deletion then none else some w.value)
  lookup_of_Wins l k w wins = elim (Option-cases (best (order_key h) none (candidates k))) [
    | inl none_left ↦
        let empty = best-none (order_key h) (candidates k) none_left in
        absurd (
          at_In h d (λ op. on op ≡ true → ⊥) w wins.in_log
            (All-unselect (λ op. ⊥) on (values d.ops) (rw empty tt)) on_w)
    | inr (v, found) ↦
        let wins' = winner-Wins l k v found in
        let on_v : on v ≡ true = ground (arith, wins'.admitted, wins'.writes, str_ord.cmp_self k) in
        let same = order_key_inj h d w v wins.in_log wins'.in_log (
          Beats-antisymm (order_key h) w v
            (at_In h d (λ op. on op ≡ true → Beats (order_key h) w op) v wins'.in_log wins.last
              on_v)
            (at_In h d (λ op. on op ≡ true → Beats (order_key h) v op) w wins.in_log wins'.last
              on_w)) in
        ground (arith, lookup-materialise k, same)
  ]
    where
      on : Op → Bool
      on = on_key h (in_tracks tracks) k

      on_w : on w ≡ true
      on_w = ground (arith, wins.admitted, wins.writes, str_ord.cmp_self k)
