-- ===== src/Command/Merge.antt =====
-- `merge_snapshots` (mesh_command/app.py). The registers and snapshots are those that the request's
-- validation has let through.
pub mod Groups
pub mod Winner
pub mod Arrival
use szl_mesh.Command.{Clock, Relation, compare_clocks, merge_clock}
use szl_mesh.Common.Best.{best}
use szl_mesh.Common.Dict.{Dict, lookup, put, keys}
use szl_mesh.Common.Json.{Json, Hashing, array, object, str, int, bool}
use szl_mesh.Common.Order.{◌=?◌, str_ord, nat_ord, bool_ord, pair_ord}
use szl_mesh.Common.Sort.{sort_by}
use szl_mesh.Common.{
  ℕ, Bool, true, false, not, ◌||◌, String, Option, none, some, List, [], ◌∷◌, ◌++◌, map, any,
  length, if◌then◌else◌,
}

pub record Register : Type 0 where
  pub key : String
  pub value : Json
  pub logical_time : ℕ
  pub writer : String
  pub tombstone : Bool

pub record Snapshot : Type 0 where
  pub node_id : String
  pub clock : Clock
  pub registers : List Register

abbrev schema : String
schema = "szl.mesh-convergence-receipt/v1"

-- A register with the node that it is from.
abbrev pub Candidate : Type 0
Candidate = String × Register

pub record Conflict : Type 0 where
  pub key : String
  pub candidate_count : ℕ
  pub candidate_nodes : List String
  pub selected_writer : String
  pub selected_node : String

pub record Selected : Type 0 where
  pub register : Register
  pub selected_from_node : String
  pub value_sha256 : String

pub record ClockRelation : Type 0 where
  pub left : String
  pub right : String
  pub relation : Relation

pub record Body : Type 0 where
  pub nodes : List String
  pub merged_clock : Clock
  pub registers : List Selected
  pub conflicts : List Conflict
  pub clock_relations : List ClockRelation

pub record MergeRequest : Type 0 where
  pub snapshots : List Snapshot
  pub include_tombstones : Bool

pub record MergeReceipt : Type 0 where
  pub input_digest : String
  pub output_digest : String
  pub canonical_output_bytes : ℕ

pub record Response : Type 0 where
  pub body : Body
  pub receipt : MergeReceipt

abbrev pub Grouped : Type 0
Grouped = Dict String (List Candidate)

-- `grouped[key]`, of a dictionary whose missing entries are empty lists.
unfoldable pub group_of : String → Grouped → List Candidate
group_of key grouped = elim (lookup key grouped) [ none ↦ [] | some candidates ↦ candidates ]

unfoldable pub group_registers : String → List Register → Grouped → Grouped
unfolding group_of
group_registers node [] grouped = grouped
group_registers node (register ∷ registers) grouped =
    group_registers node registers
      (put register.key (group_of register.key grouped ++ (node, register) ∷ []) grouped)

unfoldable pub group_snapshots : List Snapshot → Grouped → Grouped
unfolding group_registers
group_snapshots [] grouped = grouped
group_snapshots (snapshot ∷ snapshots) grouped =
    group_snapshots snapshots (group_registers snapshot.node_id snapshot.registers grouped)

abbrev relate : Snapshot → List Snapshot → List ClockRelation
relate left [] = []
relate left (right ∷ rest) =
    record {
      left = left.node_id;
      right = right.node_id;
      relation = compare_clocks left.clock right.clock;
    }
    ∷ relate left rest

-- Each pair of snapshots, in order.
unfoldable pub clock_relations_of : List Snapshot → List ClockRelation
clock_relations_of [] = []
clock_relations_of (left ∷ rest) = relate left rest ++ clock_relations_of rest

module _ (h : Hashing) where
  abbrev pub digest : Json → String
  digest value = h.sha256 (h.canonical_json value)

  abbrev model_dump : Register → Json
  model_dump r = object (
      ("key", str r.key)
      ∷ ("value", r.value)
      ∷ ("logical_time", int r.logical_time)
      ∷ ("writer", str r.writer)
      ∷ ("tombstone", bool r.tombstone)
      ∷ [])

  abbrev clock_json : Clock → Json
  clock_json clock = object (map (λ e. (e.0, int e.1)) clock)

  abbrev snapshot_json : Snapshot → Json
  snapshot_json s = object (
      ("node_id", str s.node_id)
      ∷ ("clock", object (("values", clock_json s.clock) ∷ []))
      ∷ ("registers", array (map model_dump s.registers))
      ∷ [])

  -- `request.model_dump(mode="json")`: the snapshots as they arrived.
  abbrev request_json : MergeRequest → Json
  request_json request = object (
      ("snapshots", array (map snapshot_json request.snapshots))
      ∷ ("include_tombstones", bool request.include_tombstones)
      ∷ [])

  abbrev conflict_json : Conflict → Json
  conflict_json c = object (
      ("key", str c.key)
      ∷ ("candidate_count", int c.candidate_count)
      ∷ ("candidate_nodes", array (map str c.candidate_nodes))
      ∷ ("selected_writer", str c.selected_writer)
      ∷ ("selected_node", str c.selected_node)
      ∷ ("resolution", str "DETERMINISTIC_LWW_REGISTER")
      ∷ [])

  abbrev selected_json : Selected → Json
  selected_json x = object (
      ("key", str x.register.key)
      ∷ ("value", x.register.value)
      ∷ ("logical_time", int x.register.logical_time)
      ∷ ("writer", str x.register.writer)
      ∷ ("tombstone", bool x.register.tombstone)
      ∷ ("selected_from_node", str x.selected_from_node)
      ∷ ("value_sha256", str x.value_sha256)
      ∷ [])

  abbrev relation_text : Relation → String
  relation_text Relation.before = "before"
  relation_text Relation.after = "after"
  relation_text Relation.equal = "equal"
  relation_text Relation.concurrent = "concurrent"

  abbrev relation_json : ClockRelation → Json
  relation_json x = object (
      ("left", str x.left)
      ∷ ("right", str x.right)
      ∷ ("relation", str (relation_text x.relation))
      ∷ [])

  abbrev pub body_json : Body → Json
  body_json body = object (
      ("schema", str schema)
      ∷ ("algorithm", str "deterministic-lww-register-v1")
      ∷ ("nodes", array (map str body.nodes))
      ∷ ("merged_clock", clock_json body.merged_clock)
      ∷ ("registers", array (map selected_json body.registers))
      ∷ ("conflicts", array (map conflict_json body.conflicts))
      ∷ ("clock_relations", array (map relation_json body.clock_relations))
      ∷ ("input_state", str "OPERATOR_SUPPLIED")
      ∷ ("network_state", str "NOT_ACCESSED")
      ∷ ("execution_authority", bool false)
      ∷ [])

  unfoldable pub receipt_of : MergeRequest → Body → MergeReceipt
  receipt_of request body = record {
    input_digest = digest (request_json request);
    output_digest = digest (body_json body);
    canonical_output_bytes = length (h.canonical_json (body_json body));
  }

  unfoldable pub winner_key : Register → ℕ × (String × (String × Bool))
  winner_key r = (r.logical_time, (r.writer, (digest r.value, r.tombstone)))

  -- The first of the candidates with the greatest key.
  unfoldable pub winner_of : List Candidate → Option Candidate
  winner_of candidates = best (λ item. winner_key item.1) none candidates

  -- `len({digest(...) for ...}) > 1`
  abbrev are_distinct : List Candidate → Bool
  are_distinct [] = false
  are_distinct (c ∷ cs) = any (λ d. not (digest (model_dump d.1) =? digest (model_dump c.1))) cs

  unfoldable pub conflicts_at : String → List Candidate → Candidate → List Conflict
  conflicts_at key candidates winner =
      if are_distinct candidates
      then record {
        key = key;
        candidate_count = length candidates;
        candidate_nodes = sort_by (λ i. i) (map (λ c. c.0) candidates);
        selected_writer = winner.1.writer;
        selected_node = winner.0;
      }
        ∷ []
      else []

  abbrev pub selected : Candidate → Selected
  selected winner = record {
    register = winner.1;
    selected_from_node = winner.0;
    value_sha256 = digest winner.1.value;
  }

  module _ (include_tombstones : Bool) where
    -- What a winner adds to the registers.
    unfoldable pub registers_at : Candidate → List Selected
    registers_at winner =
        if not winner.1.tombstone || include_tombstones then selected winner ∷ [] else []

    -- The loop over the keys, which all have candidates.
    unfoldable pub resolve : Grouped → List String → List Selected × List Conflict
    unfolding conflicts_at registers_at
    resolve grouped [] = ([], [])
    resolve grouped (key ∷ rest) =
        let (registers, conflicts) = resolve grouped rest in
        elim (winner_of (group_of key grouped)) [
          | none ↦ (registers, conflicts)
          | some winner ↦ (
            registers_at winner ++ registers,
            conflicts_at key (group_of key grouped) winner ++ conflicts,
          )
        ]

    -- The body, of snapshots in the order of their nodes.
    unfoldable pub merge_sorted : List Snapshot → Body
    unfolding group_snapshots resolve clock_relations_of merge_clock
    merge_sorted snapshots =
        let grouped = group_snapshots snapshots [] in
        let (registers, conflicts) = resolve grouped (sort_by (λ k. k) (keys grouped)) in
        record {
          nodes = map (λ s. s.node_id) snapshots;
          merged_clock = merge_clock (map (λ s. s.clock) snapshots);
          registers = registers;
          conflicts = conflicts;
          clock_relations = clock_relations_of snapshots;
        }

    abbrev pub in_order : List Snapshot → List Snapshot
    in_order = sort_by (λ s. s.node_id)

    abbrev pub merged : List Snapshot → Body
    merged snapshots = merge_sorted (in_order snapshots)

  unfoldable pub merge_snapshots : MergeRequest → Response
  unfolding merge_sorted receipt_of
  merge_snapshots request =
      let body = merged request.include_tombstones request.snapshots in
      record { body = body; receipt = receipt_of request body }
