-- ===== src/Coordinator/Pick/Replay.antt =====
-- Replay determinism (F1): a pick depends on the candidates, not on their order.
use mathlib.Core.List.{Permᴰ}
use szl_mesh.Common.Best.{All-perm, All-select, select-perm}
use szl_mesh.Common.Order.{str_ord}
use szl_mesh.Common.Result.{Result, ok, raise, ◌>>=◌}
use szl_mesh.Common.Sort.{sort_by-eq_of_perm}
use szl_mesh.Common.{
  ℕ, String, Option, some, List, [], ◌∷◌, ◌≡◌, refl, sym, ap, ◌∙◌, arith, select, min, ◌==◌, All,
}
use szl_mesh.Coordinator.Pick.Least.{ids, f1_seeded_pick-mem}
use szl_mesh.Coordinator.Pick.{
  Candidate, Random, min_from, first_with_id, f1_seeded_pick, break_tie, least_of,
  f1_least_connections_pick,
}
use szl_mesh.Coordinator.Tile.{is_up}

bind-ext {ℓ κ} :
    {A : Type ℓ} {B : Type κ} (o : Result A) {f g : A → Result B}
    → ((a : A) → f a ≡ g a)
    → (o >>= f) ≡ (o >>= g)
bind-ext (ok a) same = same a
bind-ext (raise e) same = refl

-- The order of the identifiers does not matter.
pub f1_seeded_pick-perm :
    (r : Random) (request_id : String) {xs ys : List String}
    → Permᴰ xs ys
    → f1_seeded_pick r request_id xs ≡ f1_seeded_pick r request_id ys
unfolding f1_seeded_pick
f1_seeded_pick-perm r request_id Permᴰ.nil = refl
f1_seeded_pick-perm r request_id (Permᴰ.cons {a} {b} {l₁} {l₂} e p) =
    rw
      (sort_by-eq_of_perm (λ i. i) (λ x y h. h)
        (Permᴰ.cons {a = a} {b = b} {l₁ = l₁} {l₂ = l₂} e p))
      refl
f1_seeded_pick-perm r request_id (Permᴰ.swap {a} {b} {a'} {b'} {l = l} e f) =
    rw
      (sort_by-eq_of_perm (λ i. i) (λ x y h. h)
        (Permᴰ.swap {a = a} {b = b} {a' = a'} {b' = b'} {l = l} e f))
      refl
f1_seeded_pick-perm r request_id (Permᴰ.trans p q) =
    f1_seeded_pick-perm r request_id p ∙ f1_seeded_pick-perm r request_id q

tie : Random → String → List Candidate → Result Candidate
tie r request_id tied = f1_seeded_pick r request_id (ids tied) >>= (λ i. first_with_id i tied)

break_tie_lem :
    (r : Random) (request_id : String) (tied : List Candidate)
    → break_tie r request_id tied ≡ tie r request_id tied
unfolding break_tie tie first_with_id
break_tie_lem r request_id [] = refl
break_tie_lem r request_id (c ∷ []) =
    let (id, picked, m) = f1_seeded_pick-mem r request_id c.node_id [] in
    sym (ap (λ o. o >>= (λ i. first_with_id i (c ∷ []))) picked ∙ ground (arith, m))
break_tie_lem r request_id (c ∷ d ∷ tied) = refl

-- A table in which every candidate is found by its identifier.
abbrev Filed : (String → Option Candidate) → Candidate → Type 0
Filed table c = table c.node_id ≡ some c

module _ (table : String → Option Candidate) where
  first_with_id-perm :
      (id : String) {cs ds : List Candidate}
      → Permᴰ cs ds
      → All (Filed table) cs
      → first_with_id id cs ≡ first_with_id id ds
  unfolding first_with_id
  first_with_id-perm id Permᴰ.nil f = refl
  first_with_id-perm id (Permᴰ.cons {a} {b} e p) f =
      rw e (ground (arith, first_with_id-perm id p f.1))
  first_with_id-perm id (Permᴰ.swap {a} {b} {a'} {b'} {l = l} e g) f =
      rw (sym e, sym g)
        (ground (arith, f.0, f.1.0, str_ord.same a.node_id id, str_ord.same b.node_id id))
  first_with_id-perm id (Permᴰ.trans p q) f =
      first_with_id-perm id p f ∙ first_with_id-perm id q (All-perm (Filed table) p f)

ids-perm : {cs ds : List Candidate} → Permᴰ cs ds → Permᴰ (ids cs) (ids ds)
ids-perm Permᴰ.nil = Permᴰ.nil
ids-perm (Permᴰ.cons e p) = Permᴰ.cons (ap (λ (c : Candidate). c.node_id) e) (ids-perm p)
ids-perm (Permᴰ.swap {l = l} e f) =
    Permᴰ.swap (ap (λ (c : Candidate). c.node_id) e) (ap (λ (c : Candidate). c.node_id) f)
ids-perm (Permᴰ.trans p q) = Permᴰ.trans (ids-perm p) (ids-perm q)

min_comm : (x y : ℕ) → min x y ≡ min y x
min_comm x y = omega arith

min_swap : (n x y : ℕ) → min (min n x) y ≡ min (min n y) x
min_swap n x y = omega arith

min_from-perm : (n : ℕ) {cs ds : List Candidate} → Permᴰ cs ds → min_from n cs ≡ min_from n ds
min_from-perm n Permᴰ.nil = refl
min_from-perm n (Permᴰ.cons {a} {b} e p) = rw e (min_from-perm (min n b.active_connections) p)
min_from-perm n (Permᴰ.swap {a} {b} {a'} {b'} {l = l} e f) =
    rw (sym e, sym f)
      (ap (λ k. min_from k l) (min_swap n a.active_connections b.active_connections))
min_from-perm n (Permᴰ.trans p q) = min_from-perm n p ∙ min_from-perm n q

module _ (table : String → Option Candidate) (r : Random) (request_id : String) where
  tie-perm :
      {cs ds : List Candidate}
      → Permᴰ cs ds
      → All (Filed table) cs
      → tie r request_id cs ≡ tie r request_id ds
  unfolding tie
  tie-perm {cs} {ds} p f =
      ap (λ o. o >>= (λ i. first_with_id i cs)) (f1_seeded_pick-perm r request_id (ids-perm p))
      ∙ bind-ext (f1_seeded_pick r request_id (ids ds)) (λ i. first_with_id-perm table i p f)

  -- Among the tied.
  abbrev low : ℕ → List Candidate → List Candidate
  low n = select (λ x. x.active_connections == n)

  tie_low :
      (m n : ℕ) {cs ds : List Candidate}
      → m ≡ n
      → Permᴰ cs ds
      → All (Filed table) cs
      → break_tie r request_id (low m cs) ≡ break_tie r request_id (low n ds)
  tie_low m n {cs} {ds} e p f = rw e (
      break_tie_lem r request_id (low n cs)
      ∙ tie-perm (select-perm (λ x. x.active_connections == n) p)
          (All-select (Filed table) (λ x. x.active_connections == n) cs f)
      ∙ sym (break_tie_lem r request_id (low n ds)))

  least_of-perm :
      {cs ds : List Candidate}
      → Permᴰ cs ds
      → All (Filed table) cs
      → least_of r request_id cs ≡ least_of r request_id ds
  unfolding least_of
  least_of-perm Permᴰ.nil f = refl
  least_of-perm (Permᴰ.cons {a} {b} {l₁} {l₂} e p) f =
      tie_low (min_from a.active_connections l₁) (min_from b.active_connections l₂)
        (rw e (min_from-perm b.active_connections p)) (Permᴰ.cons e p) f
  least_of-perm (Permᴰ.swap {a} {b} {a'} {b'} {l = l} e g) f =
      tie_low (min_from a.active_connections (b ∷ l)) (min_from a'.active_connections (b' ∷ l))
        (rw (e, g) (ap (λ k. min_from k l) (min_comm b'.active_connections a'.active_connections)))
        (Permᴰ.swap e g) f
  least_of-perm (Permᴰ.trans p q) f =
      least_of-perm p f ∙ least_of-perm q (All-perm (Filed table) p f)

  -- The pick depends on the set of candidates and not on the order in which they are listed,
  -- where an identifier tells the candidate.
  pub f1_least_connections_pick-perm :
      {cs ds : List Candidate}
      → Permᴰ cs ds
      → All (Filed table) cs
      → f1_least_connections_pick r request_id cs ≡ f1_least_connections_pick r request_id ds
  unfolding f1_least_connections_pick
  f1_least_connections_pick-perm {cs} {ds} p f =
      least_of-perm (select-perm (λ c. is_up c.status) p)
        (All-select (Filed table) (λ c. is_up c.status) cs f)
