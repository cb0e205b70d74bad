-- ===== src/Node/Tests.antt =====
-- Runs of the node model, and its theorems at concrete inputs.
use szl_mesh.Common.Dict.{lookup, put, has}
use szl_mesh.Common.Dsse.{ascii}
use szl_mesh.Common.Json.{obj, str, null, get_field}
use szl_mesh.Common.Order.{str_ord}
use szl_mesh.Common.Result.{Result, ok, raise}
use szl_mesh.Common.Truth.{get_or}
use szl_mesh.Common.{true, false, some, List, [], ◌∷◌, ◌≡◌, refl}
use szl_mesh.Crdt.{Op, op_id, observed, authorized, add_op}
use szl_mesh.Enrollment.Gateway.{enroll}
use szl_mesh.Enrollment.{Platform, FormationGateway, pubkey_registry}
use szl_mesh.Node.Clock.{IsNode}
use szl_mesh.Node.History.{Call, joins, receives, run, run-IsNode, new_node-IsNode}
use szl_mesh.Node.Trust.{IsTrusted, apply_remote-IsTrusted}
use szl_mesh.Node.{MeshNode, enroll_at, Written, Applied, new_node, write, apply_remote, tick}
use szl_mesh.Receipts.Samples.{hashing, crypto, toy_receipt}
use szl_mesh.Receipts.Validate.{validate_receipt}
use szl_mesh.Receipts.{valid, build_dsse_receipt, doctrine_version, kernel_commit, slsa_level}

abbrev formation : FormationGateway
formation = record {
  formation_id = "f";
  formation_key = [];
  skew = 300;
  cert_store =
      (
        "digest",
        record {
          node_id = "digest";
          public_key_der = ascii "key=";
          enrolled_at = "";
          doctrine_version = "";
          kernel_commit = "";
        },
      )
      ∷ [];
  revoked = [];
}

abbrev fresh : MeshNode crypto
fresh = new_node hashing crypto "a" "d" (ascii "key=")

abbrev member : MeshNode crypto
member = record fresh { enrolled = true; gateway = some 0 }

abbrev remote_op : Op
remote_op = record {
  doc_id = "d";
  key = "k";
  value = str "v";
  lamport = 4;
  node_id = "digest";
  deletion = false;
  track = observed;
}

abbrev applied : Applied
applied = record { newly_added = true; track = authorized; receipt_status = valid }

remote_is_authorized :
    (apply_remote hashing crypto (formation ∷ []) member remote_op (obj toy_receipt) 100000003).1
    ≡ ok applied
unfolding apply_remote validate_receipt get_field get_or lookup str_ord put pubkey_registry add_op
    new_node
remote_is_authorized = refl

apply_remote-IsTrusted_example :
    IsTrusted hashing crypto (formation ∷ []) member remote_op (obj toy_receipt)
apply_remote-IsTrusted_example =
    apply_remote-IsTrusted hashing crypto (formation ∷ []) member remote_op (obj toy_receipt)
      100000003 applied remote_is_authorized refl

abbrev platform : Platform
platform = record { hmac_hexdigest = λ k m. "proof"; strip_lower = λ s. s; strftime = λ t. "now" }

abbrev no_one : FormationGateway
no_one = record formation { cert_store = [] }

-- The node enrolls, a record of a foreign document raises though the clock has ticked, and a peer's
-- record is kept.
abbrev history : List Call
history =
    joins platform 0 no_one [] "acme" doctrine_version kernel_commit slsa_level "now" 100000000
    ∷ receives [] (record remote_op { doc_id = "other" }) null 0
    ∷ receives [] remote_op null 0
    ∷ []

abbrev grown : MeshNode crypto
grown = run hashing crypto fresh history

run-IsNode_example : IsNode hashing crypto grown
run-IsNode_example =
    run-IsNode hashing crypto fresh history (new_node-IsNode hashing crypto "a" "d" (ascii "key="))

clock_ticks : (grown.lamport ≡ 6) × (grown.enrolled ≡ true)
unfolding run apply_remote enroll_at enroll has lookup str_ord put add_op tick new_node
    validate_receipt
clock_ticks = (refl, refl)

abbrev write_result : Result Written
write_result =
    (write hashing crypto (formation ∷ []) grown "k" (str "w") "COMMAND" false "now" 100000000).1

abbrev written_or_toy : Result Written → Written
written_or_toy (ok w) = w
written_or_toy (raise e) = record {
  op = remote_op;
  receipt = toy_receipt;
  change_hash = "";
  track = observed;
  receipt_status = valid;
}

write_returns : write_result ≡ ok (written_or_toy write_result)
unfolding write run apply_remote enroll_at enroll has lookup str_ord put add_op tick new_node
    validate_receipt build_dsse_receipt get_or get_field op_id
write_returns = refl
