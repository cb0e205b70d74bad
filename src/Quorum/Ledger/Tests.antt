-- ===== src/Quorum/Ledger/Tests.antt =====
-- Runs of the corroboration ledger, and its theorems at concrete inputs.
use szl_mesh.Common.Dict.{lookup, put}
use szl_mesh.Common.Members.{mem, Distinct}
use szl_mesh.Common.Order.{str_ord}
use szl_mesh.Common.{String, List, [], ◌∷◌, ◌≡◌, refl, any}
use szl_mesh.Quorum.Ledger.Converge.{
  Observation, observes, observe_all, status-observe_all, status_by,
}
use szl_mesh.Quorum.Ledger.{
  CorroborationLedger, Event, observed, marked, observe, status, mark_failed, default_policies,
  policy_for, corroborated, failed,
}

abbrev empty_ledger : CorroborationLedger
empty_ledger = record { policies = default_policies; entries = [] }

abbrev status_class : String → String
status_class change = "PLATFORM_STATUS"

abbrev no_expiry : String → String
no_expiry change = ""

abbrev seen : List Observation
seen = ("c", "node1") ∷ ("c", "node2") ∷ []

abbrev seen_again : List Observation
seen_again = ("c", "node2") ∷ ("c", "node1") ∷ ("c", "node2") ∷ []

two_nodes : status (observe_all status_class no_expiry empty_ledger seen) "c" ≡ corroborated
unfolding status observe observe_all str_ord lookup put
two_nodes = refl

-- A second observation of one node, under a class that needs one node only.
abbrev lowered : CorroborationLedger
lowered =
    (observe (observe empty_ledger "c" "node1" "PLATFORM_STATUS" "").0 "c" "node1" "DEPLOYMENT"
      "").0

one_node_corroborates : status lowered "c" ≡ corroborated
unfolding status observe observe_all str_ord lookup put
one_node_corroborates = refl

status-observe_all_example :
    (nodes : List String) × Distinct nodes
    × ((node : String) → mem node nodes ≡ any (observes "c" node) seen)
    × (status (observe_all status_class no_expiry empty_ledger seen) "c"
        ≡ status_by status_class no_expiry 2 nodes)
unfolding policy_for lookup str_ord
status-observe_all_example = status-observe_all status_class no_expiry default_policies seen "c"

abbrev failed_ledger : CorroborationLedger
failed_ledger = mark_failed (observe empty_ledger "c" "node1" "COMMAND" "").0 "c"

c_failed : status failed_ledger "c" ≡ failed
unfolding status observe mark_failed str_ord lookup put
c_failed = refl

abbrev later : List Event
later = observed "c" "node2" "COMMAND" "" ∷ observed "c" "node3" "PACKAGE" "" ∷ marked "d" ∷ []
