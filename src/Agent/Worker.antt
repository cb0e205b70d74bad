-- ===== src/Agent/Worker.antt =====
-- `MeshNodeAgent` (szl_mesh_agent.py). Readings of the clock, the random identifier of a job without
-- one, and the printed times of a receipt are arguments. The heartbeat's thread is left out, and so
-- are the registry's and the revocation set's other users, but for `revoke` below.
pub mod Credit
pub mod Accept
use szl_mesh.Agent.Gate.{Floats, Request, lambda_gate_check, or_default, truthy}
use szl_mesh.Agent.Ledger.{Ledger, Entry, Job, init, append}
use szl_mesh.Agent.Registry.{
  NodeRegistry, register, registry_heartbeat, evict_stale, add_contribution,
}
use szl_mesh.Agent.Token.{
  NodeHardware, Encoding, node_id_of, issue_join_token, verify_join_token, revoke_token,
  join_token_ttl_s,
}
use szl_mesh.Common.Result.{Result, ok, raise}
use szl_mesh.Common.Json.{Json, Fields, Bytes, Hashing, end}
use szl_mesh.Common.{
  ℕ, ◌+◌, Bool, true, false, String, Option, none, some, List, [], ◌∷◌, if◌then◌else◌,
}

-- One credit: `AYNI_CREDIT_PER_JOB`.
abbrev pub ayni_credit_per_job : ℕ
ayni_credit_per_job = 1

pub record MeshNodeAgent : Type 0 where
  pub hw : NodeHardware
  pub secret : Bytes
  pub registry : NodeRegistry
  pub revocation_store : List String
  pub token : Option String
  pub token_payload : Option Fields
  pub ledger : Ledger
  pub contribution : ℕ
  pub running : Bool

-- The numbers of a request, as `int` and `float` read them.
pub record Work (floats : Floats) : Type 0 where
  pub request : Request floats
  pub tokens_in : Option ℕ
  pub tokens_out : Option ℕ
  pub latency_ms : Option floats.F

-- The readings of an acceptance: the clock at the check of the token, a random identifier, and
-- the times that are printed in the receipt and in its envelope.
pub record WorkReadings : Type 0 where
  pub now : ℕ
  pub random_id : String
  pub timestamp : String
  pub signed_at : String

abbrev pub text_or : Option String → String → String
text_or none d = d
text_or (some s) d = if truthy (some s) then s else d

module _ (h : Hashing) where
  abbrev pub new_agent : NodeHardware → Bytes → NodeRegistry → List String → MeshNodeAgent
  new_agent hw secret registry revocation_store = record {
    hw = hw;
    secret = secret;
    registry = registry;
    revocation_store = revocation_store;
    token = none;
    token_payload = none;
    ledger = init (node_id_of h hw) secret;
    contribution = 0;
    running = false;
  }

  unfoldable pub revoke_self : MeshNodeAgent → MeshNodeAgent
  unfolding revoke_token
  revoke_self a = record a {
    revocation_store = revoke_token (node_id_of h a.hw) a.revocation_store;
    token = none;
    token_payload = none;
    running = false;
  }

  unfoldable pub send_heartbeat : ℕ → MeshNodeAgent → MeshNodeAgent
  unfolding registry_heartbeat
  send_heartbeat now a = record a {
    registry = (registry_heartbeat (node_id_of h a.hw) now a.registry).1;
  }

  module _ (encoding : Encoding) where
    -- The clock is read for the token, for its check and for the registry.
    unfoldable pub issue_self_token : ℕ → ℕ → ℕ → MeshNodeAgent → MeshNodeAgent
    unfolding register
    issue_self_token issued checked seen a =
        let token = issue_join_token h encoding a.hw a.secret join_token_ttl_s issued in
        let payload = verify_join_token h encoding token a.secret a.revocation_store checked in
        record a {
          token = some token;
          token_payload = payload;
          registry = register h a.hw (or_default payload end) seen a.registry;
        }

    unfoldable pub accept_external_token : String → ℕ → ℕ → MeshNodeAgent → Bool × MeshNodeAgent
    unfolding register
    accept_external_token token checked seen a =
        elim (verify_join_token h encoding token a.secret a.revocation_store checked) [
          | none ↦ (false, a)
          | some payload ↦ (
            true,
            record a {
              token = some token;
              token_payload = some payload;
              registry = register h a.hw payload seen a.registry;
            },
          )
        ]

    -- The token that the agent holds verifies.
    abbrev pub has_valid_token : ℕ → MeshNodeAgent → Bool
    has_valid_token now a = elim a.token [
      | none ↦ false
      | some token ↦ elim (verify_join_token h encoding token a.secret a.revocation_store now) [
        | none ↦ false
        | some payload ↦ true
      ]
    ]

    module _ (floats : Floats) where
      abbrev pub job_of : Work floats → floats.F → String → Job
      job_of work score random_id = record {
        job_id = text_or work.request.request_id random_id;
        model = or_default work.request.model "unknown";
        lambda_score = floats.to_json score;
        tokens_in = or_default work.tokens_in 0;
        tokens_out = or_default work.tokens_out 0;
        latency_ms = floats.to_json (or_default work.latency_ms floats.zero);
        label = or_default work.request.label "LIVE";
      }

      -- What an accepted request leaves behind: a receipt and a credit.
      unfoldable pub receipted :
          Work floats → floats.F → WorkReadings → MeshNodeAgent → MeshNodeAgent × Entry
      unfolding add_contribution
      receipted work score readings a =
          let (ledger, entry) =
            append h a.ledger (job_of work score readings.random_id) readings.timestamp
              readings.signed_at in
          (
            record a {
              ledger = ledger;
              contribution = a.contribution + ayni_credit_per_job;
              registry = (add_contribution (node_id_of h a.hw) ayni_credit_per_job a.registry).1;
            },
            entry,
          )

      -- The agent, and the receipt's entry if the request is accepted; a score that is no number
      -- raises.
      unfoldable pub accept_work :
          Work floats → WorkReadings → MeshNodeAgent → MeshNodeAgent × Result (Option Entry)
      unfolding receipted
      accept_work work readings a =
          if has_valid_token readings.now a
          then elim (lambda_gate_check floats work.request) [
            | raise e ↦ (a, raise e)
            | ok checked ↦
                if checked.0
                then (let (a', entry) = receipted work checked.1 readings a in
                    (a', ok (some entry)))
                else (a, ok none)
          ]
          else (a, ok none)
