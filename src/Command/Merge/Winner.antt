-- ===== src/Command/Merge/Winner.antt =====
-- Which register of a key is selected (mesh_command/app.py, `merge_snapshots`).
use mathlib.Core.List.Permᴰ as PermD
use mathlib.Core.List.{Memᴰ, Permᴰ}
use szl_mesh.Command.Merge.Groups.{
  of_node, candidates, append_assoc, all_at, all_at-merge_sorted, row_of-none, row_of-some,
}
use szl_mesh.Command.Merge.{
  Register, Snapshot, Candidate, Selected, winner_key, winner_of, selected, digest, in_order,
  merge_snapshots, MergeRequest,
}
use szl_mesh.Common.Best.{best, best-OnSome, best-Beats, OnSome, All-perm}
use szl_mesh.Common.Json.{Hashing}
use szl_mesh.Common.Order.{◌<?◌, str_ord, nat_ord, bool_ord, pair_ord}
use szl_mesh.Common.Sort.{sort_by-perm}
use szl_mesh.Common.{
  Bool, true, false, not, ◌||◌, String, none, some, List, [], ◌∷◌, ◌++◌, ◌≡◌, refl, ◌<◌, ltb, ◌∙◌,
  arith, All, All-imp, Bool-cases, Option-cases, inl, inr, ◌⊎◌, ◌≢◌, subst,
}

nil-perm : {xs ys : List Candidate} → Permᴰ xs ys → xs ≡ [] → ys ≡ []
nil-perm Permᴰ.nil e = refl
nil-perm (Permᴰ.cons d p) e = absurd (cc e)
nil-perm (Permᴰ.swap d f) e = absurd (cc e)
nil-perm (Permᴰ.trans p q) e = nil-perm q (nil-perm p e)

-- Snapshots in another order have the same candidates, in another order.
candidates-perm :
    (key : String) {ss ts : List Snapshot}
    → Permᴰ ss ts
    → Permᴰ (candidates key ss) (candidates key ts)
candidates-perm key Permᴰ.nil = Permᴰ.nil
candidates-perm key (Permᴰ.cons {a} {b} {l₁} {l₂} e p) =
    let xs = of_node key a.node_id a.registers in
    subst
      (λ x.
        Permᴰ (xs ++ candidates key l₁) (of_node key x.node_id x.registers ++ candidates key l₂))
      e (PermD.append_left xs (candidates-perm key p))
candidates-perm key (Permᴰ.swap {a} {b} {a'} {b'} {l = l} e f) =
    let xs = of_node key a.node_id a.registers in
    let ys = of_node key b.node_id b.registers in
    let zs = candidates key l in
    let swapped : Permᴰ (xs ++ (ys ++ zs)) (ys ++ (xs ++ zs)) =
      subst (λ u. Permᴰ u (ys ++ (xs ++ zs))) (append_assoc xs ys zs)
        (subst (λ u. Permᴰ ((xs ++ ys) ++ zs) u) (append_assoc ys xs zs)
          (PermD.append_right zs (PermD.append_comm xs ys))) in
    subst (λ x. Permᴰ (xs ++ (ys ++ zs)) (candidates key (a' ∷ x ∷ l))) e
      (subst (λ y. Permᴰ (xs ++ (ys ++ zs)) (candidates key (y ∷ a ∷ l))) f swapped)
candidates-perm key (Permᴰ.trans p q) = Permᴰ.trans (candidates-perm key p) (candidates-perm key q)

All-mem : (cs : List Candidate) → All (λ c. Memᴰ c cs) cs
All-mem [] = tt
All-mem (c ∷ cs) = (Memᴰ.head refl, All-imp cs (All-mem cs) (λ x m. Memᴰ.tail m))

-- Registers come in the order of their logical times; then of their writers, then of the digests of
-- their values, and then a tombstone comes last.
pub data IsUpTo (h : Hashing) (a b : Register) : Type 0 where
  earlier : a.logical_time < b.logical_time → IsUpTo h a b
  lower_writer : a.logical_time ≡ b.logical_time → (a.writer <? b.writer) ≡ true → IsUpTo h a b
  lower_digest :
      a.logical_time ≡ b.logical_time
      → a.writer ≡ b.writer
      → (digest h a.value <? digest h b.value) ≡ true
      → IsUpTo h a b
  same_up_to_tombstone :
      a.logical_time ≡ b.logical_time
      → a.writer ≡ b.writer
      → digest h a.value ≡ digest h b.value
      → (not a.tombstone || b.tombstone) ≡ true
      → IsUpTo h a b

module _ (h : Hashing) where
  -- The candidate is among them, and all of them are up to it.
  pub record IsWinner (cs : List Candidate) (w : Candidate) : Type 0 where
    pub among : Memᴰ w cs
    pub greatest : All (λ c. IsUpTo h c.1 w.1) cs

  up_to : (a b : Register) → (winner_key h b <? winner_key h a) ≡ false → IsUpTo h a b
  unfolding winner_key pair_ord nat_ord bool_ord
  up_to a b e =
      let da = digest h a.value in
      let db = digest h b.value in
      elim (Bool-cases (ltb a.logical_time b.logical_time)) [
        | inl sooner ↦ earlier (ground (arith, sooner))
        | inr not_sooner ↦
            let times : a.logical_time ≡ b.logical_time = ground (arith, e, not_sooner) in
            elim (Bool-cases (a.writer <? b.writer)) [
              | inl lower ↦ lower_writer times lower
              | inr not_lower ↦
                  let writers : a.writer ≡ b.writer = ground (
                    arith,
                    e,
                    times,
                    not_lower,
                    str_ord.mirror a.writer b.writer,
                    str_ord.same a.writer b.writer,
                  ) in
                  elim (Bool-cases (da <? db)) [
                    | inl lower ↦ lower_digest times writers lower
                    | inr no_lower ↦
                        let digests : da ≡ db = ground (
                          arith,
                          e,
                          times,
                          writers,
                          no_lower,
                          str_ord.cmp_self a.writer,
                          str_ord.mirror da db,
                          str_ord.same da db,
                        ) in
                        same_up_to_tombstone times writers digests (
                          ground (
                            arith,
                            e,
                            times,
                            writers,
                            digests,
                            str_ord.cmp_self a.writer,
                            str_ord.cmp_self da,
                          ))
                  ]
            ]
      ]

  -- What wins in a list wins in every arrangement of it.
  winner_of-IsWinner :
      {cs ds : List Candidate} (w : Candidate)
      → Permᴰ cs ds
      → winner_of h cs ≡ some w
      → IsWinner ds w
  unfolding winner_of
  winner_of-IsWinner {cs} {ds} w p e = record {
    among = subst (OnSome (λ c. Memᴰ c ds)) e (
        best-OnSome (λ item. winner_key h item.1) (λ c. Memᴰ c ds) none cs tt
          (All-perm (λ c. Memᴰ c ds) (PermD.symm p) (All-mem ds)));
    greatest =
        All-perm (λ c. IsUpTo h c.1 w.1) p
          (All-imp cs (best-Beats (λ item. winner_key h item.1) none w cs e)
            (λ c beats. up_to c.1 w.1 beats));
  }

  best-some :
      (c : Candidate) (cs : List Candidate) → best (λ item. winner_key h item.1) (some c) cs ≢ none
  unfolding best
  best-some c [] e = cc
  best-some c (d ∷ cs) e = ground (arith, best-some c cs, best-some d cs, e)

  winner_of-none : (cs : List Candidate) → winner_of h cs ≡ none → cs ≡ []
  unfolding winner_of best
  winner_of-none [] e = refl
  winner_of-none (c ∷ cs) e = absurd (best-some c cs e)

  -- The selected register is the candidate's, with its node and the digest of its value.
  pub record IsFrom (w : Candidate) (x : Selected) : Type 0 where
    pub same_register : x.register ≡ w.1
    pub same_node : x.selected_from_node ≡ w.0
    pub digested : x.value_sha256 ≡ h.sha256 (h.canonical_json w.1.value)

module _ (h : Hashing) (include_tombstones : Bool) where
  -- For each key, the snapshots' registers are none, and then none is selected. Or one of them is
  -- not exceeded by any other in logical time, then writer, then digest of the value, then being a
  -- tombstone. If it is a tombstone and these are not asked for, no register of the key is selected;
  -- else it is the only one, with its node and its digest.
  pub shown-merge_snapshots :
      (key : String) (snapshots : List Snapshot)
      → let request : MergeRequest = record {
        snapshots = snapshots;
        include_tombstones = include_tombstones;
      } in
        let cs = candidates key snapshots in
        let found = all_at key (merge_snapshots h request).body.registers in
        ((cs ≡ []) × (found ≡ []))
        ⊎ ((w : Candidate) × IsWinner h cs w
            × (((w.1.tombstone ≡ true) × (include_tombstones ≡ false) × (found ≡ []))
                ⊎ (((not w.1.tombstone || include_tombstones) ≡ true)
                    × (x : Selected) × (found ≡ x ∷ [])
                    × IsFrom h w x)))
  unfolding merge_snapshots
  shown-merge_snapshots key snapshots =
      let ss = in_order h include_tombstones snapshots in
      let cs = candidates key ss in
      let p = candidates-perm key (sort_by-perm (λ (s : Snapshot). s.node_id) snapshots) in
      elim (Option-cases (winner_of h cs)) [
        | inl nobody ↦ inl (
          nil-perm p (winner_of-none h cs nobody),
          all_at-merge_sorted h include_tombstones key ss
              ∙ row_of-none h include_tombstones cs nobody,
        )
        | inr (w, wins) ↦
            let found =
              all_at-merge_sorted h include_tombstones key ss
              ∙ row_of-some h include_tombstones cs w wins in
            inr (
              w,
              winner_of-IsWinner h w p wins,
              elim (Bool-cases (not w.1.tombstone || include_tombstones)) [
                | inl visible ↦ inr (
                  visible,
                  selected h w,
                  found ∙ rw visible refl,
                  record { same_register = refl; same_node = refl; digested = refl },
                )
                | inr hidden ↦
                    inl (ground (arith, hidden), ground (arith, hidden), found ∙ rw hidden refl)
              ],
            )
      ]
