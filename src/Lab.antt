-- ===== src/Lab.antt =====
-- lab/simulator.py: the replicas of a scenario, which all take the same operations, each in an order
-- of its own.
pub mod Scenario
pub mod Simulate
pub mod Orders
pub mod Reconcile
pub mod Copies
pub mod Checks
pub mod Accepted
pub mod Outcome
mod Tests
use Prim.Native.Nat.Ordering.{lt, eq, gt}
use mathlib.Core.List.{reverse as reverse_list}
use szl_mesh.Common.Dict.{Dict}
use szl_mesh.Common.Json.{Json, Hashing}
use szl_mesh.Common.Order.{Ord, IsLawful, ◌=?◌, str_ord, nat_ord, pair_ord, nat-IsLawful}
use szl_mesh.Common.Result.{Result, ok}
use szl_mesh.Common.Sort.{sort_by}
use szl_mesh.Common.{
  ℕ, zero, suc, ◌+◌, ◌%◌, Bool, true, false, ◌&&◌, String, List, [], ◌∷◌, ◌++◌, if◌then◌else◌,
  compare, Ordering, arith, all, take, drop, length, ◌==◌, map, ◌≡◌, ap, sym,
}
use szl_mesh.Crdt.{
  Op, Document, empty, op_id, merge_ops, heads, authorized_view, observed_view, state_digest,
  authorized, observed, len,
}

-- `-lamport`, whose order is the reverse one.
pub record Down : Type 0 where
  pub lamport : ℕ

abbrev down_cmp : Down → Down → Ordering
down_cmp a b = compare b.lamport a.lamport

pub down-IsLawful : IsLawful down_cmp
down-IsLawful = record {
  cmp_self = λ a. nat-IsLawful.cmp_self a.lamport;
  same = λ a b e. ap (λ n. record { lamport = n }) (sym (nat-IsLawful.same b.lamport a.lamport e));
  mirror = λ a b. nat-IsLawful.mirror b.lamport a.lamport;
  chain = λ a b c p q. nat-IsLawful.chain c.lamport b.lamport a.lamport q p;
}

instance unfoldable pub down_ord : Ord Down
down_ord = record { cmp = down_cmp; lawful = down-IsLawful }

pub record Snapshot : Type 0 where
  pub replica : ℕ
  pub operation_count : ℕ
  pub heads : List String
  pub authorized_view : Dict String Json
  pub observed_view : Dict String Json
  pub authorized_digest : String
  pub observed_digest : String

abbrev pub same_texts : List String → List String → Bool
same_texts [] [] = true
same_texts (x ∷ xs) (y ∷ ys) = (x =? y) && same_texts xs ys
same_texts _ _ = false

-- `len(set(xs)) == 1`
abbrev pub all_alike {ℓ} : {A : Type ℓ} → (A → A → Bool) → List A → Bool
all_alike same [] = false
all_alike same (x ∷ xs) = all (same x) xs

unfoldable pub converged : List Snapshot → Bool
converged final =
    all_alike ◌=?◌ (map (λ s. s.observed_digest) final)
    && (all_alike ◌=?◌ (map (λ s. s.authorized_digest) final)
        && all_alike same_texts (map (λ s. s.heads) final))

module _ (h : Hashing) where
  unfoldable pub document : String → List Op → Document
  unfolding merge_ops
  document doc_id operations = (merge_ops h operations (empty doc_id)).1

  -- The replica's name is its number.
  unfoldable pub snapshot : ℕ → Document → Snapshot
  unfolding heads authorized_view observed_view state_digest
  snapshot name d = record {
    replica = name;
    operation_count = len d;
    heads = heads h d;
    authorized_view = authorized_view h d;
    observed_view = observed_view h d;
    authorized_digest = state_digest h authorized d;
    observed_digest = state_digest h observed d;
  }

  abbrev pub delivery_key : Op → String × (Down × (String × String))
  delivery_key op = (op.key, (record { lamport = op.lamport }, (op.node_id, op_id h op)))

  unfoldable pub order_for_replica : List Op → ℕ → List Op
  order_for_replica [] index = []
  order_for_replica (op ∷ ops) index =
      let values = op ∷ ops in
      let strategy = index % 4 in
      if strategy == 0
      then values
      else if strategy == 1
      then reverse_list values
      else if strategy == 2
      then (let offset = index % length values in drop offset values ++ take offset values)
      else sort_by delivery_key values

  -- Digests and heads before and after the operations are added once more.
  abbrev pub same_state : Document → Document → Bool
  same_state d e =
      (state_digest h authorized d =? state_digest h authorized e)
      && ((state_digest h observed d =? state_digest h observed e)
          && same_texts (heads h d) (heads h e))

  abbrev pub adds_nothing : Result ℕ → Bool
  adds_nothing (ok zero) = true
  adds_nothing _ = false

  unfoldable pub replays : List Op → Document → Bool
  unfolding merge_ops
  replays unique d =
      let (replay_additions, d') = merge_ops h unique d in
      adds_nothing replay_additions && same_state d d'

  -- The loop over the replicas: the snapshots of those from `index` on, and whether the replay
  -- changed none of them.
  unfoldable pub reconcile : String → List Op → ℕ → ℕ → List Snapshot × Bool
  unfolding document order_for_replica replays snapshot merge_ops
  reconcile doc_id unique index zero = ([], true)
  reconcile doc_id unique index (suc left) =
      let d = document doc_id (order_for_replica unique index) in
      let rest = reconcile doc_id unique (index + 1) left in
      (snapshot (index + 1) (merge_ops h unique d).1 ∷ rest.0, replays unique d && rest.1)
