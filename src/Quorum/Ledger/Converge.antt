-- ===== src/Quorum/Ledger/Converge.antt =====
-- What the corroboration ledger counts (quorum.py, `CorroborationLedger`): the set of the nodes that
-- observed a change, in whatever order and however often they did.
use szl_mesh.Common.Dict.{Dict, lookup, lookup-put, All-put, All-lookup}
use szl_mesh.Common.Members.{mem, Distinct, length-Distinct}
use szl_mesh.Common.Order.{◌=?◌, str_ord}
use szl_mesh.Common.{
  ℕ, ◌≤◌, Bool, false, ◌&&◌, ◌||◌, String, none, some, List, [], ◌∷◌, ◌≡◌, refl, sym, ap, ◌∙◌,
  arith, if◌then◌else◌, leb, length, All, Bool-cases, inl, inr, any,
}
use szl_mesh.Quorum.Ledger.{
  Status, status_in, pending, corroborated, is_failed, Policy, Entry, CorroborationLedger,
  policy_for, opened, add_node, annotate, observe, status,
}
use szl_mesh.Quorum.Ledger.Nodes.{
  nodes_in, nodes_of, count_distinct-Distinct, mem-add_node, add_node-Distinct, length-add_node,
  opened_nodes, length-add_node-le,
}

-- Which observation reached the ledger: the change and the node.
abbrev pub Observation : Type 0
Observation = String × String

abbrev pub observes : String → String → Observation → Bool
observes change node o = (o.0 =? change) && (o.1 =? node)

-- Each change has one transition class.
module _ (class_of : String → String) (expires : String → String) where
  abbrev pub observe_one : CorroborationLedger → Observation → CorroborationLedger
  observe_one self o = (observe self o.0 o.1 (class_of o.0) (expires o.0)).0

  unfoldable pub observe_all : CorroborationLedger → List Observation → CorroborationLedger
  observe_all self [] = self
  observe_all self (o ∷ os) = observe_all (observe_one self o) os

  abbrev pub k_of : CorroborationLedger → String → ℕ
  k_of self change = (policy_for self (class_of change)).k

  nodes_of-observe :
      (self : CorroborationLedger) (o : Observation) (change node : String)
      → mem node (nodes_of change (observe_one self o))
        ≡ mem node (nodes_of change self) || observes change node o
  unfolding observe annotate
  nodes_of-observe self o change node =
      let k = k_of self o.0 in
      let e = opened (lookup o.0 self.entries) k (class_of o.0) (expires o.0) in
      ap (λ x. mem node (nodes_in x)) (lookup-put o.0 change (annotate o.1 k e) self.entries)
      ∙ elim (Bool-cases (o.0 =? change)) [
        | inr other ↦ rw other (ground arith)
        | inl same ↦ rw same (
            mem-add_node node o.1 e.corroborating_nodes
            ∙ ap (λ xs. mem node xs || (o.1 =? node))
                (opened_nodes (lookup o.0 self.entries) k (class_of o.0) (expires o.0)
                  ∙ ap (λ c. nodes_of c self) (str_ord.same o.0 change (ground (arith, same)))))
      ]

  k_of-observe :
      (self : CorroborationLedger) (o : Observation) (change : String)
      → k_of (observe_one self o) change ≡ k_of self change
  unfolding observe policy_for
  k_of-observe self o change = refl

  -- The nodes of a change after a run are those from before and those that observed it.
  pub nodes_of-observe_all :
      (self : CorroborationLedger) (os : List Observation) (change node : String)
      → mem node (nodes_of change (observe_all self os))
        ≡ mem node (nodes_of change self) || any (observes change node) os
  unfolding observe_all
  nodes_of-observe_all self [] change node = ground arith
  nodes_of-observe_all self (o ∷ os) change node = ground (
    arith,
    nodes_of-observe_all (observe_one self o) os change node,
    nodes_of-observe self o change node,
  )

  -- An entry in step with its nodes.
  abbrev Entered : CorroborationLedger → String × Entry → Type 0
  Entered self ce =
      Distinct ce.1.corroborating_nodes
      × (1 ≤ length ce.1.corroborating_nodes)
      × (ce.1.status ≡ (
          if leb (k_of self ce.0) (length ce.1.corroborating_nodes) then corroborated else pending))

  abbrev pub IsInStep : CorroborationLedger → Type 0
  IsInStep self = All (Entered self) self.entries

  status-annotate :
      (node : String) (k : ℕ) (e : Entry)
      → Distinct e.corroborating_nodes
      → is_failed e.status ≡ false
      → (leb k (length e.corroborating_nodes) ≡ false → e.status ≡ pending)
      → (annotate node k e).status
        ≡ (if leb k (length (add_node node e.corroborating_nodes)) then corroborated else pending)
  unfolding annotate
  status-annotate node k e d live below =
      let nodes = add_node node e.corroborating_nodes in
      rw (count_distinct-Distinct nodes (add_node-Distinct node e.corroborating_nodes d))
        (ground (arith, live, below, length-add_node-le node e.corroborating_nodes))

  annotate-Entered :
      (self : CorroborationLedger) (change node : String) (e : Entry)
      → Distinct e.corroborating_nodes
      → is_failed e.status ≡ false
      → (leb (k_of self change) (length e.corroborating_nodes) ≡ false → e.status ≡ pending)
      → Entered self (change, annotate node (k_of self change) e)
  unfolding annotate
  annotate-Entered self change node e d live below = (
    add_node-Distinct node e.corroborating_nodes d,
    length-add_node node e.corroborating_nodes,
    status-annotate node (k_of self change) e d live below,
  )

  observe-IsInStep :
      (self : CorroborationLedger) (o : Observation) → IsInStep self → IsInStep (observe_one self o)
  unfolding observe
  observe-IsInStep self o h =
      All-put (Entered self) o.0
        (annotate o.1 (k_of self o.0)
          (opened (lookup o.0 self.entries) (k_of self o.0) (class_of o.0) (expires o.0)))
        self.entries h
        (elim (lookup o.0 self.entries)
            as (λ x.
              lookup o.0 self.entries ≡ x
              → Entered self (
                o.0,
                annotate o.1 (k_of self o.0)
                    (opened x (k_of self o.0) (class_of o.0) (expires o.0)),
              )) [
                | none ↦ λ absent.
                    annotate-Entered self o.0 o.1
                      (opened none (k_of self o.0) (class_of o.0) (expires o.0)) tt refl (λ b. refl)
                | some e ↦ λ present.
                    let entered = All-lookup (Entered self) o.0 e self.entries h present in
                    annotate-Entered self o.0 o.1 e entered.0 (ground (arith, entered.2))
                      (λ b. ground (arith, entered.2, b))
              ]
          refl)

  observe_all-IsInStep :
      (self : CorroborationLedger) (os : List Observation)
      → IsInStep self
      → IsInStep (observe_all self os)
  unfolding observe_all
  observe_all-IsInStep self [] h = h
  observe_all-IsInStep self (o ∷ os) h =
      observe_all-IsInStep (observe_one self o) os (observe-IsInStep self o h)

  k_of-observe_all :
      (self : CorroborationLedger) (os : List Observation) (change : String)
      → k_of (observe_all self os) change ≡ k_of self change
  unfolding observe_all
  k_of-observe_all self [] change = refl
  k_of-observe_all self (o ∷ os) change =
      k_of-observe_all (observe_one self o) os change ∙ k_of-observe self o change

  -- The status that a set of nodes is given.
  abbrev pub status_by : ℕ → List String → Status
  status_by k [] = pending
  status_by k (x ∷ xs) = if leb k (length (x ∷ xs)) then corroborated else pending

  status-nodes_of :
      (self : CorroborationLedger) (change : String)
      → IsInStep self
      → (status self change ≡ status_by (k_of self change) (nodes_of change self))
        × Distinct (nodes_of change self)
  unfolding status
  status-nodes_of self change h =
      elim (lookup change self.entries)
          as (λ x.
            lookup change self.entries ≡ x
            → (status_in x ≡ status_by (k_of self change) (nodes_in x)) × Distinct (nodes_in x)) [
              | none ↦ λ absent. (refl, tt)
              | some e ↦ λ present.
                  let entered = All-lookup (Entered self) change e self.entries h present in
                  (nonempty (k_of self change) e.corroborating_nodes entered.1 entered.2, entered.0)
            ]
        refl
    where
      nonempty :
          (k : ℕ) {s : Status} (xs : List String)
          → 1 ≤ length xs
          → s ≡ (if leb k (length xs) then corroborated else pending)
          → s ≡ status_by k xs
      nonempty k [] le e = absurd (omega (arith, le))
      nonempty k (x ∷ xs) le e = e

  -- Over one transition class for each change, and from a ledger without entries: a change is
  -- CORROBORATED after a run of observations if it was observed and `k` different nodes observed
  -- it, however far apart in time, else PENDING; the nodes counted are those that observed it,
  -- whatever the order and however often.
  pub status-observe_all :
      (policies : Dict String Policy) (os : List Observation) (change : String)
      → (nodes : List String) × Distinct nodes
        × ((node : String) → mem node nodes ≡ any (observes change node) os)
        × (status (observe_all (record { policies = policies; entries = [] }) os) change
            ≡ status_by (k_of (record { policies = policies; entries = [] }) change) nodes)
  unfolding lookup
  status-observe_all policies os change =
      let start : CorroborationLedger = record { policies = policies; entries = [] } in
      let (same, different) =
        status-nodes_of (observe_all start os) change (observe_all-IsInStep start os tt) in
      (
        nodes_of change (observe_all start os),
        different,
        (λ node. nodes_of-observe_all start os change node),
        same
            ∙ ap (λ k. status_by k (nodes_of change (observe_all start os)))
                (k_of-observe_all start os change),
      )

  status_by-length :
      (k : ℕ) (xs ys : List String) → length xs ≡ length ys → status_by k xs ≡ status_by k ys
  status_by-length k [] [] e = refl
  status_by-length k [] (y ∷ ys) e = absurd (omega (arith, e))
  status_by-length k (x ∷ xs) [] e = absurd (omega (arith, e))
  status_by-length k (x ∷ xs) (y ∷ ys) e = rw e refl

  -- Collectors that saw the same observations, in whatever order and however often, agree on the
  -- status of every change.
  pub status_converges :
      (policies : Dict String Policy) (os ps : List Observation) (change : String)
      → ((node : String) → any (observes change node) os ≡ any (observes change node) ps)
      → status (observe_all (record { policies = policies; entries = [] }) os) change
        ≡ status (observe_all (record { policies = policies; entries = [] }) ps) change
  status_converges policies os ps change alike =
      let (xs, dx, hx, sx) = status-observe_all policies os change in
      let (ys, dy, hy, sy) = status-observe_all policies ps change in
      let below = length-Distinct xs ys dx (λ x m. hy x ∙ sym (alike x) ∙ sym (hx x) ∙ m) in
      let above = length-Distinct ys xs dy (λ y m. hx y ∙ alike y ∙ sym (hy y) ∙ m) in
      sx
      ∙ status_by-length (k_of (record { policies = policies; entries = [] }) change) xs ys
          (omega (arith, below, above))
      ∙ sym sy
