-- ===== src/Quorum/Ledger/Nodes.antt =====
-- The nodes of an entry (quorum.py, `observe`): a list that holds no node twice.
use szl_mesh.Common.Dict.{lookup}
use szl_mesh.Common.Members.{mem, Distinct, mem-append, Distinct-append}
use szl_mesh.Common.Order.{◌=?◌, str_ord}
use szl_mesh.Common.{
  ℕ, ◌≤◌, ◌||◌, String, Option, none, some, List, [], ◌∷◌, ◌≡◌, refl, arith, length, Bool-cases,
  inl, inr, length-append,
}
use szl_mesh.Quorum.Ledger.{Entry, CorroborationLedger, opened, add_node, count_distinct}

abbrev pub nodes_in : Option Entry → List String
nodes_in none = []
nodes_in (some e) = e.corroborating_nodes

abbrev pub nodes_of : String → CorroborationLedger → List String
nodes_of change self = nodes_in (lookup change self.entries)

pub count_distinct-Distinct : (xs : List String) → Distinct xs → count_distinct xs ≡ length xs
unfolding count_distinct
count_distinct-Distinct [] d = refl
count_distinct-Distinct (x ∷ xs) d = ground (arith, d.0, count_distinct-Distinct xs d.1)

pub mem-add_node :
    (x node : String) (nodes : List String)
    → mem x (add_node node nodes) ≡ mem x nodes || (node =? x)
unfolding add_node
mem-add_node x node nodes = ground (arith, mem-append x nodes node, str_ord.same node x)

pub add_node-Distinct :
    (node : String) (nodes : List String) → Distinct nodes → Distinct (add_node node nodes)
unfolding add_node
add_node-Distinct node nodes d = elim (Bool-cases (mem node nodes)) [
  | inl e ↦ rw e d
  | inr e ↦ rw e (Distinct-append nodes node d e)
]

pub length-add_node : (node : String) (nodes : List String) → 1 ≤ length (add_node node nodes)
unfolding add_node
length-add_node node [] = ground arith
length-add_node node (x ∷ nodes) = ground arith

pub opened_nodes :
    (found : Option Entry) (k : ℕ) (class expires : String)
    → (opened found k class expires).corroborating_nodes ≡ nodes_in found
opened_nodes none k class expires = refl
opened_nodes (some e) k class expires = refl

pub length-add_node-le :
    (node : String) (nodes : List String) → length nodes ≤ length (add_node node nodes)
unfolding add_node
length-add_node-le node nodes = ground (arith, length-append nodes (node ∷ []))
