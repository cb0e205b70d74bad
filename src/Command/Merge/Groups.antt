-- ===== src/Command/Merge/Groups.antt =====
-- The registers of one key among those that are selected (mesh_command/app.py, `merge_snapshots`).
use mathlib.Core.List.{Permᴰ}
use szl_mesh.Command.Merge.{
  Register, Snapshot, Candidate, Selected, Grouped, group_of, group_registers, group_snapshots,
  winner_key, winner_of, registers_at, selected, resolve, merge_sorted,
}
use szl_mesh.Common.Best.{best, best-OnSome, OnSome}
use szl_mesh.Common.Dict.{lookup, put, keys, lookup-put, IsMap, put-IsMap}
use szl_mesh.Common.Json.{Hashing}
use szl_mesh.Common.Members.{mem}
use szl_mesh.Common.Order.{◌=?◌, str_ord, nat_ord, bool_ord, pair_ord}
use szl_mesh.Common.Sort.{sort_by, sort_by-perm}
use szl_mesh.Common.{
  Bool, true, false, not, ◌||◌, String, none, some, List, [], ◌∷◌, ◌++◌, ◌≡◌, refl, sym, ap, ap₂,
  ◌∙◌, arith, All, All-append, select, if◌then◌else◌, Bool-cases, Option-cases, inl, inr, subst,
}

-- The registers of a key, in the order of the snapshots.
abbrev pub of_node : String → String → List Register → List Candidate
of_node key node [] = []
of_node key node (r ∷ rs) = elim (r.key =? key) [
  | true ↦ (node, r) ∷ of_node key node rs
  | false ↦ of_node key node rs
]

abbrev pub candidates : String → List Snapshot → List Candidate
candidates key [] = []
candidates key (s ∷ ss) = of_node key s.node_id s.registers ++ candidates key ss

pub append_assoc {ℓ} : {A : Type ℓ} (xs ys zs : List A) → (xs ++ ys) ++ zs ≡ xs ++ (ys ++ zs)
append_assoc [] ys zs = refl
append_assoc (x ∷ xs) ys zs = ap (◌∷◌ x) (append_assoc xs ys zs)

append_nil {ℓ} : {A : Type ℓ} (xs : List A) → xs ++ [] ≡ xs
append_nil [] = refl
append_nil (x ∷ xs) = ap (◌∷◌ x) (append_nil xs)

group_of-put :
    (key k : String) (v : List Candidate) (g : Grouped)
    → group_of key (put k v g) ≡ (if k =? key then v else group_of key g)
unfolding group_of
group_of-put key k v g = ground (arith, lookup-put k key v g)

-- One more register goes to the end of its group.
group_of-one :
    (key node : String) (r : Register) (rs : List Register) (g : Grouped)
    → group_of key (put r.key (group_of r.key g ++ (node, r) ∷ []) g) ++ of_node key node rs
      ≡ group_of key g ++ of_node key node (r ∷ rs)
group_of-one key node r rs g =
    let v = group_of r.key g ++ (node, r) ∷ [] in
    elim (Bool-cases (r.key =? key)) [
      | inl same ↦
          let e : group_of key (put r.key v g) ≡ group_of key g ++ (node, r) ∷ [] = ground (
            arith,
            group_of-put key r.key v g,
            ap (λ k. group_of k g ++ (node, r) ∷ [])
                (str_ord.same r.key key (ground (arith, same))),
          ) in
          rw (same, of_node)
            (ap (λ x. x ++ of_node key node rs) e
              ∙ append_assoc (group_of key g) ((node, r) ∷ []) (of_node key node rs))
      | inr other ↦
          let e : group_of key (put r.key v g) ≡ group_of key g =
            ground (arith, group_of-put key r.key v g, other) in
          rw (other, of_node) (ap (λ x. x ++ of_node key node rs) e)
    ]

group_of-registers :
    (key node : String) (rs : List Register) (g : Grouped)
    → group_of key (group_registers node rs g) ≡ group_of key g ++ of_node key node rs
unfolding group_registers
group_of-registers key node [] g = sym (append_nil (group_of key g))
group_of-registers key node (r ∷ rs) g =
    group_of-registers key node rs (put r.key (group_of r.key g ++ (node, r) ∷ []) g)
    ∙ group_of-one key node r rs g

group_of-snapshots :
    (key : String) (ss : List Snapshot) (g : Grouped)
    → group_of key (group_snapshots ss g) ≡ group_of key g ++ candidates key ss
unfolding group_snapshots
group_of-snapshots key [] g = sym (append_nil (group_of key g))
group_of-snapshots key (s ∷ ss) g =
    group_of-snapshots key ss (group_registers s.node_id s.registers g)
    ∙ ap (λ x. x ++ candidates key ss) (group_of-registers key s.node_id s.registers g)
    ∙ append_assoc (group_of key g) (of_node key s.node_id s.registers) (candidates key ss)

group_registers-IsMap :
    (node : String) (rs : List Register) (g : Grouped) → IsMap g → IsMap (group_registers node rs g)
unfolding group_registers
group_registers-IsMap node [] g m = m
group_registers-IsMap node (r ∷ rs) g m = group_registers-IsMap node rs _ (put-IsMap r.key _ g m)

group_snapshots-IsMap : (ss : List Snapshot) (g : Grouped) → IsMap g → IsMap (group_snapshots ss g)
unfolding group_snapshots
group_snapshots-IsMap [] g m = m
group_snapshots-IsMap (s ∷ ss) g m =
    group_snapshots-IsMap ss _ (group_registers-IsMap s.node_id s.registers g m)

-- All candidates of a key have it.
of_node-All :
    (key node : String) (rs : List Register) → All (λ c. c.1.key ≡ key) (of_node key node rs)
of_node-All key node [] = tt
of_node-All key node (r ∷ rs) = elim (Bool-cases (r.key =? key)) [
  | inl same ↦ ground (arith, same, str_ord.same r.key key, of_node-All key node rs)
  | inr other ↦ ground (arith, other, of_node-All key node rs)
]

candidates-All : (key : String) (ss : List Snapshot) → All (λ c. c.1.key ≡ key) (candidates key ss)
candidates-All key [] = tt
candidates-All key (s ∷ ss) =
    All-append (λ c. c.1.key ≡ key) (of_node key s.node_id s.registers) (candidates key ss)
      (of_node-All key s.node_id s.registers) (candidates-All key ss)

-- The selected registers of a key.
abbrev pub all_at : String → List Selected → List Selected
all_at key = select (λ x. x.register.key =? key)

-- `row`, once for each time that the key is among the keys.
abbrev rows : String → List Selected → List String → List Selected
rows key row [] = []
rows key row (k ∷ ks) = if k =? key then row ++ rows key row ks else rows key row ks

rows-perm :
    (key : String) (row : List Selected) {ks js : List String}
    → Permᴰ ks js
    → rows key row ks ≡ rows key row js
rows-perm key row Permᴰ.nil = refl
rows-perm key row (Permᴰ.cons {a} {b} {l₁} {l₂} e p) =
    rw e (ap (λ x. if b =? key then row ++ x else x) (rows-perm key row p))
rows-perm key row (Permᴰ.swap {a} {b} {a'} {b'} {l = l} e f) =
    rw (e, f) (swapped (b' =? key) (a' =? key) (rows key row l))
  where
    swapped :
        (p q : Bool) (x : List Selected)
        → (if p then row ++ (if q then row ++ x else x) else (if q then row ++ x else x))
          ≡ (if q then row ++ (if p then row ++ x else x) else (if p then row ++ x else x))
    swapped true true x = refl
    swapped true false x = refl
    swapped false true x = refl
    swapped false false x = refl
rows-perm key row (Permᴰ.trans p q) = rows-perm key row p ∙ rows-perm key row q

no_entry : (key : String) (g : Grouped) → lookup key g ≡ none → mem key (keys g) ≡ false
unfolding lookup
no_entry key [] e = refl
no_entry key ((k, cs) ∷ g) e = ground (arith, no_entry key g)

-- The keys of a dictionary are different.
rows-keys :
    (key : String) (row : List Selected) (g : Grouped)
    → IsMap g
    → rows key row (keys g) ≡ (if mem key (keys g) then row else [])
unfolding lookup
rows-keys key row [] m = refl
rows-keys key row ((k, cs) ∷ g) m = elim (Bool-cases (k =? key)) [
  | inl same ↦
      let e = str_ord.same k key (ground (arith, same)) in
      let gone : mem key (keys g) ≡ false = no_entry key g (ap (λ x. lookup x g) (sym e) ∙ m.0) in
      rw same (ap (λ x. row ++ x) (rows-keys key row g m.1 ∙ rw gone refl) ∙ append_nil row)
  | inr other ↦ rw other (rows-keys key row g m.1)
]

no_key : (key : String) (g : Grouped) → mem key (keys g) ≡ false → group_of key g ≡ []
unfolding group_of lookup
no_key key [] m = refl
no_key key ((k, cs) ∷ g) m = ground (arith, no_key key g)

module _ (h : Hashing) (include_tombstones : Bool) where
  -- What is selected from a list of candidates.
  unfoldable pub row_of : List Candidate → List Selected
  row_of cs = elim (winner_of h cs) [
    | none ↦ []
    | some w ↦ if not w.1.tombstone || include_tombstones then selected h w ∷ [] else []
  ]

  pub row_of-none : (cs : List Candidate) → winner_of h cs ≡ none → row_of cs ≡ []
  unfolding row_of
  row_of-none cs e = rw (e, row_of) refl

  pub row_of-some :
      (cs : List Candidate) (w : Candidate)
      → winner_of h cs ≡ some w
      → row_of cs ≡ (if not w.1.tombstone || include_tombstones then selected h w ∷ [] else [])
  unfolding row_of
  row_of-some cs w e = rw (e, row_of) refl

  all_at-registers_at :
      (key : String) (w : Candidate) (rest : List Selected)
      → w.1.key ≡ key
      → all_at key (registers_at h include_tombstones w ++ rest)
        ≡ (if not w.1.tombstone || include_tombstones then selected h w ∷ [] else [])
          ++ all_at key rest
  unfolding registers_at
  all_at-registers_at key w rest e = ground (arith, e, str_ord.cmp_self key)

  all_at-other :
      (key : String) (w : Candidate) (rest : List Selected)
      → (w.1.key =? key) ≡ false
      → all_at key (registers_at h include_tombstones w ++ rest) ≡ all_at key rest
  unfolding registers_at
  all_at-other key w rest ne = ground (arith, ne)

  winner-key :
      (key : String) (cs : List Candidate) (w : Candidate)
      → All (λ c. c.1.key ≡ key) cs
      → winner_of h cs ≡ some w
      → w.1.key ≡ key
  unfolding winner_of
  winner-key key cs w a e =
      subst (OnSome (λ c. c.1.key ≡ key)) e
        (best-OnSome (λ item. winner_key h item.1) (λ c. c.1.key ≡ key) none cs tt a)

  -- The keys are resolved one by one; each adds what is selected from its own group.
  all_at-resolve :
      (key : String) (g : Grouped) (ks : List String)
      → ((k : String) → All (λ c. c.1.key ≡ k) (group_of k g))
      → all_at key (resolve h include_tombstones g ks).0 ≡ rows key (row_of (group_of key g)) ks
  unfolding resolve
  all_at-resolve key g [] own = refl
  all_at-resolve key g (k ∷ ks) own =
      let ih = all_at-resolve key g ks own in
      let rest = (resolve h include_tombstones g ks).0 in
      let row = row_of (group_of key g) in
      elim (Bool-cases (k =? key)) [
        | inl same ↦
            let e = str_ord.same k key (ground (arith, same)) in
            let at_key : row_of (group_of key g) ≡ row_of (group_of k g) =
              ap (λ x. row_of (group_of x g)) (sym e) in
            elim (Option-cases (winner_of h (group_of k g))) [
              | inl nobody ↦
                  rw (nobody, same, resolve)
                    (ih ∙ ap (λ x. x ++ rows key row ks) (sym (at_key ∙ row_of-none _ nobody)))
              | inr (w, wins) ↦
                  let named = winner-key k (group_of k g) w (own k) wins in
                  rw (wins, same, resolve)
                    (all_at-registers_at key w rest (named ∙ e)
                      ∙ ap₂ ◌++◌ (sym (at_key ∙ row_of-some _ w wins)) ih)
            ]
        | inr other ↦ elim (Option-cases (winner_of h (group_of k g))) [
          | inl nobody ↦ rw (nobody, other, resolve) ih
          | inr (w, wins) ↦
              let named = winner-key k (group_of k g) w (own k) wins in
              rw (wins, other, resolve)
                (all_at-other key w rest (ap (λ x. x =? key) named ∙ other) ∙ ih)
        ]
      ]

  own_groups :
      (ss : List Snapshot) (k : String)
      → All (λ c. c.1.key ≡ k) (group_of k (group_snapshots ss []))
  unfolding group_of lookup
  own_groups ss k =
      subst (All (λ c. c.1.key ≡ k)) (sym (group_of-snapshots k ss [])) (candidates-All k ss)

  -- The registers of a key that are selected are those of its candidates.
  pub all_at-merge_sorted :
      (key : String) (ss : List Snapshot)
      → all_at key (merge_sorted h include_tombstones ss).registers ≡ row_of (candidates key ss)
  unfolding merge_sorted lookup winner_of best
  all_at-merge_sorted key ss =
      let g = group_snapshots ss [] in
      let at_key : group_of key g ≡ candidates key ss = group_of-snapshots key ss [] in
      let row = row_of (group_of key g) in
      all_at-resolve key g (sort_by (λ k. k) (keys g)) (own_groups ss)
      ∙ rows-perm key row (sort_by-perm (λ k. k) (keys g))
      ∙ rows-keys key row g (group_snapshots-IsMap ss [] tt)
      ∙ elim (Bool-cases (mem key (keys g))) [
        | inl there ↦ rw there (ap row_of at_key)
        | inr absent ↦
            rw absent (sym (ap row_of (sym at_key ∙ no_key key g absent) ∙ row_of-none [] refl))
      ]
