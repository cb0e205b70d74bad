-- ===== src/Agent/JoinTests.antt =====
-- Runs of join tokens and of an agent at work, and the theorems on them at concrete inputs.
use szl_mesh.Agent.Gate.{lambda_gate_check, given_score}
use szl_mesh.Agent.Ledger.{Entry}
use szl_mesh.Agent.Token.Genuine.{IsGenuine, verify_join_token-IsGenuine, verify-issue}
use szl_mesh.Agent.Token.{
  node_id_of, verify_join_token, issue_join_token, check_payload, is_expired, is_listed,
}
use szl_mesh.Agent.Worker.{
  MeshNodeAgent, Work, WorkReadings, new_agent, accept_work, issue_self_token, receipted,
}
use szl_mesh.Agent.Worker.Accept.{IsGoverned, HoldsOther, accept_work-IsGoverned, revoked_refuses}
use szl_mesh.Agent.Worker.Credit.{Call, IsAccounted, history-IsAccounted, history, after}
use szl_mesh.Common.Json.{get_field}
use szl_mesh.Common.Result.{Exception, ok, raise}
use szl_mesh.Common.Order.{str_ord}
use szl_mesh.Common.Truth.{get_or}
use szl_mesh.Common.{none, some, List, [], ◌∷◌, ◌≡◌, refl, arith, ◌⊎◌}
use szl_mesh.Agent.JoinSamples.{payload, hashing, encoding, base64, floats, tower, secret, token}

issues : issue_join_token hashing encoding tower secret 3600 100 ≡ token
unfolding issue_join_token
issues = refl

verifies : verify_join_token hashing encoding token secret ("spare" ∷ []) 200 ≡ some payload
unfolding verify_join_token check_payload is_expired is_listed get_or get_field str_ord
verifies = refl

-- A revoked node's token, and one with another code, are refused.
refuses :
    (verify_join_token hashing encoding token secret ("tower" ∷ []) 200 ≡ none)
    × (verify_join_token hashing encoding "aaaab.aabaaabaaab" secret [] 200 ≡ none)
    × (verify_join_token hashing encoding token secret [] 3701 ≡ none)
unfolding verify_join_token check_payload is_expired is_listed get_or get_field str_ord
refuses = (refl, refl, refl)

verify_join_token-IsGenuine_example :
    IsGenuine hashing encoding token secret ("spare" ∷ []) 200 payload
verify_join_token-IsGenuine_example =
    verify_join_token-IsGenuine hashing encoding token secret ("spare" ∷ []) 200 payload verifies

verify-issue_example :
    verify_join_token hashing encoding
      (issue_join_token hashing encoding tower secret 3600 100)
      secret
      ("spare" ∷ [])
      200
    ≡ some payload
unfolding get_or get_field str_ord node_id_of
verify-issue_example =
    verify-issue hashing encoding tower secret 3600 100 200 ("spare" ∷ []) payload base64 refl refl
      refl (omega arith) refl

abbrev job : Work floats
job = record {
  request = record {
    request_id = some "smoke-001";
    model = some "llama-3-8b";
    label = none;
    lambda_score = none;
  };
  tokens_in = some 128;
  tokens_out = some 64;
  latency_ms = none;
}

abbrev readings : WorkReadings
readings = record { now = 200; random_id = "f0"; timestamp = "t1"; signed_at = "t2" }

abbrev fresh : MeshNodeAgent
fresh = new_agent hashing tower secret [] []

history-IsAccounted_example : IsAccounted hashing encoding floats (
    history hashing encoding floats
      (Call.issue 100 100 101
        ∷ Call.work job readings
        ∷ Call.heartbeat 230
        ∷ Call.leave
        ∷ Call.work job readings
        ∷ [])
      fresh)
history-IsAccounted_example =
    history-IsAccounted hashing encoding floats
      (Call.issue 100 100 101
        ∷ Call.work job readings
        ∷ Call.heartbeat 230
        ∷ Call.leave
        ∷ Call.work job readings
        ∷ [])
      tower secret []

accept_work-IsGoverned_example :
    (accept_work hashing encoding floats job readings
        (issue_self_token hashing encoding 100 100 101 fresh)
      ≡ (issue_self_token hashing encoding 100 100 101 fresh, ok none))
    ⊎ ((e : Exception) × (accept_work hashing encoding floats job readings
            (issue_self_token hashing encoding 100 100 101 fresh)
          ≡ (issue_self_token hashing encoding 100 100 101 fresh, raise e))
        × (given_score floats job.request ≡ raise e))
    ⊎ ((a' : MeshNodeAgent) × (entry : Entry) × (accept_work hashing encoding floats job readings
            (issue_self_token hashing encoding 100 100 101 fresh)
          ≡ (a', ok (some entry)))
        × IsGoverned hashing encoding floats job readings
            (issue_self_token hashing encoding 100 100 101 fresh)
            a'
            entry)
accept_work-IsGoverned_example =
    accept_work-IsGoverned hashing encoding floats job readings
      (issue_self_token hashing encoding 100 100 101 fresh)

abbrev wary : MeshNodeAgent
wary = new_agent hashing tower secret [] ("spare" ∷ [])

abbrev after_issue : List (Call hashing encoding floats)
after_issue = Call.issue 100 100 101 ∷ []

wary_accepts :
    accept_work hashing encoding floats job readings
      (history hashing encoding floats after_issue wary)
    ≡ (
      (receipted hashing encoding floats job 2 readings
          (history hashing encoding floats after_issue wary)).0,
      ok (
          some
            (receipted hashing encoding floats job 2 readings
              (history hashing encoding floats after_issue wary)).1),
    )
unfolding accept_work after issue_self_token verify_join_token check_payload is_expired is_listed
    get_or get_field str_ord node_id_of lambda_gate_check given_score issue_join_token
wary_accepts = refl

revoked_refuses_example :
    HoldsOther hashing encoding "spare" 200 (history hashing encoding floats after_issue wary)
unfolding str_ord
revoked_refuses_example =
    revoked_refuses hashing encoding floats after_issue wary "spare" job readings _ _ refl
      wary_accepts
