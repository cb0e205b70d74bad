-- ===== src/Lab/Tests.antt =====
-- A scenario of three replicas, and the theorem on it.
use szl_mesh.Common.Dict.{Dict, lookup, put}
use szl_mesh.Common.Json.{
  Json, Items, Fields, Bytes, Hashing, null, bool, int, negative, float, str, arr, obj, nil, cons,
  end, field, get_field, object, array, to_fields,
}
use szl_mesh.Common.Order.{◌=?◌, str_ord, bool_ord, nat_ord}
use szl_mesh.Common.Result.{ok, raise, simulation_error}
use szl_mesh.Common.Sort.{sort_by, place}
use szl_mesh.Common.Truth.{get_or}
use szl_mesh.Common.{
  ℕ, Bool, ◌&&◌, String, some, List, [], ◌∷◌, ◌≡◌, refl, true, false, if◌then◌else◌, ◌==◌, arith,
}
use szl_mesh.Crdt.{Op, op_id, observed, compute_op_id, read_all}
use szl_mesh.Lab.Orders.{AreUnique}
use szl_mesh.Lab.Reconcile.{reconcile-converged}
use szl_mesh.Lab.Accepted.{IsAccepted, read_scenario-IsAccepted}
use szl_mesh.Lab.Outcome.{IsConverged, simulate_scenario-IsConverged}
use szl_mesh.Lab.Scenario.{
  Scenario, read_scenario, normalize_operations, normalize_loop, normalize_row, read_row, take_in,
  bounded_text, has_shape, track_of, checked_value, prints, is_space, utf8_length,
}
use szl_mesh.Lab.Simulate.{Report, simulate_scenario}
use szl_mesh.Lab.{reconcile, converged, order_for_replica}

-- A hash that tells operations by their Lamport time.
abbrev stamp : Json → Bytes
stamp (obj fs) = elim (get_field "lamport" fs) [ some (int n) ↦ n ∷ [] | _ ↦ [] ]
stamp j = []

abbrev digest : Bytes → String
digest [] = "none"
digest (n ∷ _) = if n == 1 then "one" else if n == 2 then "two" else "three"

abbrev hashing : Hashing
hashing = record {
  canonical = stamp;
  canonical_json = stamp;
  utf8 = λ s. [];
  sha256 = digest;
  hmac_sha256 = λ k x. x;
  base64 = λ x. "";
}

abbrev set_key : ℕ → String → Op
set_key lamport node_id = record {
  doc_id = "fleet-state";
  key = "route";
  value = int lamport;
  lamport = lamport;
  node_id = node_id;
  deletion = false;
  track = observed;
}

abbrev scenario : List Op
scenario = set_key 1 "west" ∷ set_key 2 "east" ∷ set_key 3 "center" ∷ []

once : AreUnique hashing "fleet-state" scenario
unfolding lookup op_id compute_op_id get_field str_ord
once = ((refl, (refl, (refl, tt))), (refl, (refl, (refl, tt))))

rotated :
    order_for_replica hashing scenario 2
    ≡ set_key 3 "center" ∷ set_key 1 "west" ∷ set_key 2 "east" ∷ []
unfolding order_for_replica
rotated = refl

reconcile-converged_example :
    (converged (reconcile hashing "fleet-state" scenario 0 3).0 ≡ true)
    × ((reconcile hashing "fleet-state" scenario 0 3).1 ≡ true)
reconcile-converged_example =
    reconcile-converged hashing "fleet-state" scenario once 3 (omega arith)

-- Equality of JSON values and of views.
mutual
  same_json : Json → Json → Bool
  same_json null null = true
  same_json (bool a) (bool b) = a =? b
  same_json (int a) (int b) = a == b
  same_json (negative a) (negative b) = a == b
  same_json (float a) (float b) = a =? b
  same_json (str a) (str b) = a =? b
  same_json (arr a) (arr b) = same_items a b
  same_json (obj a) (obj b) = same_fields a b
  same_json _ _ = false

  same_items : Items → Items → Bool
  same_items nil nil = true
  same_items (cons a xs) (cons b ys) = same_json a b && same_items xs ys
  same_items _ _ = false

  same_fields : Fields → Fields → Bool
  same_fields end end = true
  same_fields (field j a xs) (field k b ys) = (j =? k) && (same_json a b && same_fields xs ys)
  same_fields _ _ = false

mutual
  unfolding same_json same_items same_fields

  same_json_refl : (a : Json) → same_json a a ≡ true
  same_json_refl null = refl
  same_json_refl (bool a) = ground (arith, bool_ord.cmp_self a)
  same_json_refl (int a) = ground arith
  same_json_refl (negative a) = ground arith
  same_json_refl (float a) = ground (arith, str_ord.cmp_self a)
  same_json_refl (str a) = ground (arith, str_ord.cmp_self a)
  same_json_refl (arr a) = same_items_refl a
  same_json_refl (obj a) = same_fields_refl a

  same_items_refl : (a : Items) → same_items a a ≡ true
  same_items_refl nil = refl
  same_items_refl (cons a xs) = ground (arith, same_json_refl a, same_items_refl xs)

  same_fields_refl : (a : Fields) → same_fields a a ≡ true
  same_fields_refl end = refl
  same_fields_refl (field k a xs) =
      ground (arith, str_ord.cmp_self k, same_json_refl a, same_fields_refl xs)

same_view : Dict String Json → Dict String Json → Bool
same_view v w = same_fields (to_fields v) (to_fields w)

same_view_self : (v : Dict String Json) → same_view v v ≡ true
unfolding same_view
same_view_self v = same_fields_refl (to_fields v)

abbrev row : String → ℕ → String → Json
row node_id lamport track = object (
    ("node_id", str node_id)
    ∷ ("key", str "route")
    ∷ ("value", int lamport)
    ∷ ("lamport", int lamport)
    ∷ ("track", str track)
    ∷ [])

abbrev scenario_with : List Json → Json
scenario_with rows =
    object (("doc_id", str "fleet-state") ∷ ("replicas", int 3) ∷ ("operations", array rows) ∷ [])

-- Two operations, the first delivered twice.
abbrev partition_rejoin : Json
partition_rejoin =
    scenario_with (row "west" 1 "OBSERVED" ∷ row "east" 2 "OBSERVED" ∷ row "west" 1 "OBSERVED" ∷ [])

abbrev accepted : Scenario
accepted = record {
  doc_id = "fleet-state";
  replicas = 3;
  delivered = (0, set_key 1 "west") ∷ (1, set_key 2 "east") ∷ (2, set_key 1 "west") ∷ [];
  unique = set_key 1 "west" ∷ set_key 2 "east" ∷ [];
  duplicates = 1;
}

accepts : read_scenario hashing partition_rejoin ≡ ok accepted
unfolding read_scenario normalize_operations normalize_loop normalize_row read_row take_in
    bounded_text has_shape track_of checked_value get_or get_field str_ord lookup put op_id
    compute_op_id read_all sort_by place prints is_space utf8_length
accepts = refl

-- One operation on two tracks is refused.
rejects_tracks :
    read_scenario hashing (scenario_with (row "west" 1 "OBSERVED" ∷ row "west" 1 "REVOKED" ∷ []))
    ≡ raise simulation_error
unfolding read_scenario normalize_operations normalize_loop normalize_row read_row take_in
    bounded_text has_shape track_of checked_value get_or get_field str_ord lookup put op_id
    compute_op_id read_all sort_by place prints is_space utf8_length
rejects_tracks = refl

read_scenario-IsAccepted_example : IsAccepted hashing accepted
read_scenario-IsAccepted_example =
    read_scenario-IsAccepted hashing partition_rejoin accepted accepts

simulate_scenario-IsConverged_example :
    (r : Report) × (simulate_scenario hashing same_view partition_rejoin ≡ ok r)
    × IsConverged hashing same_view same_view_self accepted r
simulate_scenario-IsConverged_example =
    simulate_scenario-IsConverged hashing same_view same_view_self partition_rejoin accepted accepts
