-- ===== src/Coordinator/Pick/Least.antt =====
-- Which candidate `f1_least_connections_pick` returns.
use Prim.Native.String.{◌++◌ as append_str}
use szl_mesh.Common.Best.{All-select}
use szl_mesh.Common.Order.{◌=?◌, str_ord}
use szl_mesh.Common.Result.{ok, raise, ◌>>=◌, runtime_error}
use szl_mesh.Common.Sort.{sort_by, sort_by-perm}
use szl_mesh.Common.Best.{any-perm}
use szl_mesh.Common.{
  select-any, selects-none, ℕ, suc, ◌≤◌, true, false, ◌||◌, String, List, [], ◌∷◌, some, ◌≡◌, refl,
  sym, ap, ◌∙◌, arith, select, any, min, map, ◌==◌, get_elem?, All, All-imp, All-both,
  select-passes, Bool-cases, inl, inr,
}
use szl_mesh.Common.Members.{mem}
use szl_mesh.Coordinator.Pick.{
  Candidate, Random, join, min_from, first_with_id, f1_seeded_pick, break_tie, least_of,
  f1_least_connections_pick,
}
use szl_mesh.Coordinator.Tile.{is_up}

abbrev pub ids : List Candidate → List String
ids = map (λ c. c.node_id)

choice-mem :
    (r : Random) (seed : ℕ) (xs : List String)
    → any (λ x. true) xs ≡ true
    → mem (r.choice seed xs) xs ≡ true
choice-mem r seed [] h = cc
choice-mem r seed (x ∷ xs) h = r.choice_mem seed x xs

-- The seeded pick among identifiers gives one of them.
pub f1_seeded_pick-mem :
    (r : Random) (request_id x : String) (xs : List String)
    → (id : String) × (f1_seeded_pick r request_id (x ∷ xs) ≡ ok id) × (mem id (x ∷ xs) ≡ true)
unfolding f1_seeded_pick
f1_seeded_pick-mem r request_id x xs =
    let sorted = sort_by (λ i. i) (x ∷ xs) in
    let seed = r.seed_of (append_str request_id (append_str "|" (join sorted))) in
    let order = sort_by-perm (λ i. i) (x ∷ xs) in
    (
      r.choice seed sorted,
      refl,
      sym (any-perm (λ y. y =? r.choice seed sorted) order)
          ∙ choice-mem r seed sorted (any-perm (λ y. true) order),
    )

-- The first candidate with an identifier that some candidate has.
pub first_with_id-found {ℓ} :
    (P : Candidate → Type ℓ) (id : String) (cs : List Candidate)
    → All P cs
    → mem id (ids cs) ≡ true
    → (c : Candidate) × (first_with_id id cs ≡ ok c) × (c.node_id ≡ id) × P c
unfolding first_with_id
first_with_id-found P id [] h m = cc
first_with_id-found P id (c ∷ cs) h m = elim (Bool-cases (c.node_id =? id)) [
  | inl same ↦ (c, rw same refl, ground (arith, same, str_ord.same c.node_id id), h.0)
  | inr other ↦
      let (found, e, named, p) = first_with_id-found P id cs h.1 (rw other at m) in
      (found, rw other e, named, p)
]

pub break_tie-found {ℓ} :
    (P : Candidate → Type ℓ) (r : Random) (request_id : String) (c : Candidate)
    (tied : List Candidate)
    → All P (c ∷ tied)
    → (picked : Candidate) × (break_tie r request_id (c ∷ tied) ≡ ok picked) × P picked
unfolding break_tie
break_tie-found P r request_id c [] h = (c, refl, h.0)
break_tie-found P r request_id c (d ∷ tied) h =
    let (id, picked, m) = f1_seeded_pick-mem r request_id c.node_id (ids (d ∷ tied)) in
    let (found, e, named, p) = first_with_id-found P id (c ∷ d ∷ tied) h m in
    (found, ap (λ o. o >>= (λ i. first_with_id i (c ∷ d ∷ tied))) picked ∙ e, p)

min_from-lower :
    (n : ℕ) (cs : List Candidate)
    → (min_from n cs ≤ n) × All (λ c. min_from n cs ≤ c.active_connections) cs
min_from-lower n [] = (omega arith, tt)
min_from-lower n (c ∷ cs) =
    let (low, rest) = min_from-lower (min n c.active_connections) cs in
    (omega (arith, low), (omega (arith, low), rest))

min_from-attained :
    (n : ℕ) (cs : List Candidate)
    → ((n == min_from n cs) || any (λ c. c.active_connections == min_from n cs) cs) ≡ true
min_from-attained n [] = ground arith
min_from-attained n (c ∷ cs) = ground (arith, min_from-attained (min n c.active_connections) cs)

pub break_tie-some {ℓ} :
    (P : Candidate → Type ℓ) (r : Random) (request_id : String) (tied : List Candidate)
    → any (λ x. true) tied ≡ true
    → All P tied
    → (picked : Candidate) × (break_tie r request_id tied ≡ ok picked) × P picked
break_tie-some P r request_id [] h a = cc
break_tie-some P r request_id (c ∷ tied) h a = break_tie-found P r request_id c tied a

abbrev pub Least : List Candidate → Candidate → Type 0
Least online c = All (λ x. c.active_connections ≤ x.active_connections) online

least_of-found {ℓ} :
    (P : Candidate → Type ℓ) (r : Random) (request_id : String) (c : Candidate)
    (online : List Candidate)
    → All P (c ∷ online)
    → (picked : Candidate) × (least_of r request_id (c ∷ online) ≡ ok picked)
      × P picked
      × Least (c ∷ online) picked
unfolding least_of
least_of-found P r request_id c online h =
    let lowest = min_from c.active_connections online in
    let is_low = λ (x : Candidate). x.active_connections == lowest in
    let lower = min_from-lower c.active_connections online in
    let (picked, e, (p, low)) =
      break_tie-some (λ x. P x × (is_low x ≡ true)) r request_id (select is_low (c ∷ online))
        (select-any is_low (c ∷ online) (min_from-attained c.active_connections online))
        (All-both P (λ x. is_low x ≡ true) (select is_low (c ∷ online))
          (All-select P is_low (c ∷ online) h) (select-passes is_low (c ∷ online))) in
    (picked, e, p, All-imp (c ∷ online) lower (λ x h. ground (arith, low, h)))

abbrev Place : List Candidate → Candidate → Type 0
Place cs c = (i : ℕ) × (get_elem? cs i ≡ some c)

places : (cs : List Candidate) → All (Place cs) cs
places [] = tt
places (c ∷ cs) = ((0, refl), All-imp cs (places cs) (λ x h. (suc h.0, h.1)))

least_of-some {ℓ} :
    (P : Candidate → Type ℓ) (r : Random) (request_id : String) (online : List Candidate)
    → any (λ x. true) online ≡ true
    → All P online
    → (picked : Candidate) × (least_of r request_id online ≡ ok picked)
      × P picked
      × Least online picked
least_of-some P r request_id [] h a = cc
least_of-some P r request_id (c ∷ online) h a = least_of-found P r request_id c online a

-- What holds of all candidates holds of the one that is picked.
pub f1_least_connections_pick-found {ℓ} :
    (P : Candidate → Type ℓ) (r : Random) (request_id : String) (cs : List Candidate)
    → any (λ c. is_up c.status) cs ≡ true
    → All P cs
    → (picked : Candidate) × (f1_least_connections_pick r request_id cs ≡ ok picked)
      × P picked
      × (is_up picked.status ≡ true)
      × Least (select (λ c. is_up c.status) cs) picked
unfolding f1_least_connections_pick
f1_least_connections_pick-found P r request_id cs h a =
    let online = λ (c : Candidate). is_up c.status in
    let (picked, e, (p, up), least) =
      least_of-some (λ c. P c × (is_up c.status ≡ true)) r request_id (select online cs)
        (select-any online cs h)
        (All-both P (λ c. is_up c.status ≡ true) (select online cs) (All-select P online cs a)
          (select-passes online cs)) in
    (picked, e, p, up, least)

-- With a candidate that is UP, the pick is a candidate that is UP and has no more active
-- connections than any other that is.
pub f1_least_connections_pick-Least :
    (r : Random) (request_id : String) (cs : List Candidate)
    → any (λ c. is_up c.status) cs ≡ true
    → (picked : Candidate) × (i : ℕ) × (f1_least_connections_pick r request_id cs ≡ ok picked)
      × (get_elem? cs i ≡ some picked)
      × (is_up picked.status ≡ true)
      × Least (select (λ c. is_up c.status) cs) picked
f1_least_connections_pick-Least r request_id cs h =
    let (picked, e, (i, at), up, least) =
      f1_least_connections_pick-found (Place cs) r request_id cs h (places cs) in
    (picked, i, e, at, up, least)

-- With none, it raises.
pub f1_least_connections_pick-none :
    (r : Random) (request_id : String) (cs : List Candidate)
    → any (λ c. is_up c.status) cs ≡ false
    → f1_least_connections_pick r request_id cs ≡ raise runtime_error
unfolding f1_least_connections_pick least_of
f1_least_connections_pick-none r request_id cs h = rw (selects-none (λ c. is_up c.status) cs h) refl
