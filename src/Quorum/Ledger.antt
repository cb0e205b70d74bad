-- ===== src/Quorum/Ledger.antt =====
-- The corroboration ledger (quorum.py, `CorroborationLedger`): counts, per change, the nodes that
-- observed it, beside the documents. Annotations stay in the ledger; `dict(e)` is the entry.
pub mod Nodes
pub mod Converge
pub mod Failed
mod Tests
use szl_mesh.Common.Dict.{Dict, lookup, put, lookup-put}
use szl_mesh.Common.Members.{mem, Distinct, mem-append, Distinct-append}
use szl_mesh.Common.Order.{◌=?◌, str_ord}
use szl_mesh.Common.{
  ℕ, suc, ◌≤◌, Bool, true, false, ◌&&◌, ◌||◌, not, String, Option, none, some, List, [], ◌∷◌, ◌++◌,
  ◌≡◌, refl, sym, ap, ◌∙◌, arith, if◌then◌else◌, leb, length, All, Bool-cases, Option-cases, inl,
  inr, ◌≢◌, ◌↔◌,
}

pub data Status : Type 0 where
  pending corroborated failed : Status

pub record Policy : Type 0 where
  pub k : ℕ
  pub window_seconds : ℕ

pub record Entry : Type 0 where
  pub status : Status
  pub corroborating_nodes : List String
  pub policy_k : ℕ
  pub transition_class : String
  pub window_expires_at : String
  pub corroborated_at : Option String

pub record CorroborationLedger : Type 0 where
  pub policies : Dict String Policy
  pub entries : Dict String Entry

abbrev pub default_policies : Dict String Policy
default_policies =
    ("COMMAND", record { k = 2; window_seconds = 30 })
    ∷ ("PLATFORM_STATUS", record { k = 2; window_seconds = 30 })
    ∷ ("DEPLOYMENT", record { k = 1; window_seconds = 60 })
    ∷ ("PACKAGE", record { k = 1; window_seconds = 120 })
    ∷ ("CELL_FORMATION", record { k = 2; window_seconds = 10 })
    ∷ []

unfoldable pub policy_for : CorroborationLedger → String → Policy
unfolding lookup
policy_for self transition_class = elim (lookup transition_class self.policies) [
  | none ↦ record { k = 2; window_seconds = 30 }
  | some policy ↦ policy
]

-- The entry as it stands, or a new one.
abbrev pub opened : Option Entry → ℕ → String → String → Entry
opened (some e) k transition_class window_expires_at = e
opened none k transition_class window_expires_at = record {
  status = pending;
  corroborating_nodes = [];
  policy_k = k;
  transition_class = transition_class;
  window_expires_at = window_expires_at;
  corroborated_at = none;
}

abbrev pub is_failed : Status → Bool
is_failed failed = true
is_failed _ = false

unfoldable pub add_node : String → List String → List String
add_node node_id nodes = if mem node_id nodes then nodes else nodes ++ node_id ∷ []

-- Python's `len(set(xs))`
unfoldable pub count_distinct : List String → ℕ
count_distinct [] = 0
count_distinct (x ∷ xs) = let rest = count_distinct xs in if mem x xs then rest else suc rest

unfoldable pub annotate : String → ℕ → Entry → Entry
unfolding add_node count_distinct
annotate node_id k e =
    let nodes = add_node node_id e.corroborating_nodes in
    record e {
      corroborating_nodes = nodes;
      status =
          if not (is_failed e.status) && leb k (count_distinct nodes)
          then corroborated
          else e.status;
    }

unfoldable pub observe :
    CorroborationLedger → String → String → String → String → CorroborationLedger × Entry
unfolding policy_for annotate lookup put
observe self change_hash node_id transition_class window_expires_at =
    let k = (policy_for self transition_class).k in
    let e =
      annotate node_id k
        (opened (lookup change_hash self.entries) k transition_class window_expires_at) in
    (record self { entries = put change_hash e self.entries }, e)

-- A change without an entry is PENDING.
abbrev pub status_in : Option Entry → Status
status_in none = pending
status_in (some e) = e.status

unfoldable pub status : CorroborationLedger → String → Status
unfolding lookup
status self change_hash = status_in (lookup change_hash self.entries)

unfoldable pub mark_failed : CorroborationLedger → String → CorroborationLedger
unfolding lookup put
mark_failed self change_hash = elim (lookup change_hash self.entries) [
  | none ↦ self
  | some e ↦ record self {
    entries = put change_hash (record e { status = failed; corroborated_at = none }) self.entries;
  }
]

-- One call on the ledger.
pub data Event : Type 0 where
  observed : String → String → String → String → Event
  marked : String → Event

unfoldable pub run : CorroborationLedger → List Event → CorroborationLedger
unfolding observe mark_failed
run self [] = self
run self (observed change node class expires ∷ es) =
    run (observe self change node class expires).0 es
run self (marked change ∷ es) = run (mark_failed self change) es

unfoldable pub combined_classification : String → Status → String
combined_classification receipt_status corroboration_status = elim corroboration_status [
  | corroborated ↦
      if receipt_status =? "AUTHORIZED"
      then "Highest confidence — command-ready"
      else if receipt_status =? "OBSERVED"
      then "Medium confidence — multiple nodes agree, no doctrine proof"
      else "Unknown"
  | pending ↦
      if receipt_status =? "AUTHORIZED"
      then "High confidence (single-receipt) — usable for command"
      else if receipt_status =? "OBSERVED"
      then "Low confidence — situational awareness only"
      else "Unknown"
  | failed ↦
      if receipt_status =? "AUTHORIZED"
      then "Alert — node signed receipt but peers don't corroborate the value"
      else "Unknown"
]
