-- ===== src/Agent/Worker/Accept.antt =====
-- Which work an agent accepts (szl_mesh_agent.py, `MeshNodeAgent.accept_work`).
use szl_mesh.Agent.Gate.{Floats, lambda_gate_check, lambda_gate_check-raise, given_score}
use szl_mesh.Agent.Ledger.{Entry, append}
use szl_mesh.Agent.Token.{Encoding, verify_join_token}
use szl_mesh.Agent.Token.Genuine.{IsGenuine, verify_join_token-IsGenuine}
use szl_mesh.Agent.Worker.{
  MeshNodeAgent, Work, WorkReadings, has_valid_token, receipted, accept_work,
}
use szl_mesh.Agent.Worker.Credit.{Call, history, history-mem, accept_work_cases}
use szl_mesh.Common.Json.{Fields, Hashing, str}
use szl_mesh.Common.Members.{mem}
use szl_mesh.Common.Result.{Exception, ok, raise, ok_inj}
use szl_mesh.Common.Order.{str_ord}
use szl_mesh.Common.Truth.{get}
use szl_mesh.Common.{
  ℕ, ◌+◌, true, String, none, some, List, [], ◌∷◌, ◌++◌, ◌≡◌, ◌≢◌, refl, sym, ap, ◌∙◌, Option-cases,
  inl, inr, ◌⊎◌,
}

nothing : (entry : Entry) → ok none ≢ ok (some entry)
nothing entry e = cc (ok_inj e)

module _ (h : Hashing) (encoding : Encoding) where
  -- A valid token is one that the agent holds, and that is genuine.
  valid-IsGenuine :
      (now : ℕ) (a : MeshNodeAgent)
      → has_valid_token h encoding now a ≡ true
      → (token : String) × (payload : Fields) × (a.token ≡ some token)
        × IsGenuine h encoding token a.secret a.revocation_store now payload
  valid-IsGenuine now a v = elim (Option-cases a.token) [
    | inl absent ↦ absurd (cc (rw (absent, has_valid_token) at v))
    | inr (token, held) ↦
        elim (Option-cases (verify_join_token h encoding token a.secret a.revocation_store now)) [
          | inl refused ↦ absurd (cc (rw (held, refused, has_valid_token) at v))
          | inr (payload, verified) ↦ (
            token,
            payload,
            held,
            verify_join_token-IsGenuine h encoding token a.secret a.revocation_store now payload
                verified,
          )
        ]
  ]

  -- The agent holds a token that verifies and does not name the node.
  pub record HoldsOther (node_id : String) (now : ℕ) (a : MeshNodeAgent) : Type 0 where
    pub token : String
    pub payload : Fields
    pub held : a.token ≡ some token
    pub verified : verify_join_token h encoding token a.secret a.revocation_store now ≡ some payload
    pub other : get "node_id" payload ≢ str node_id

  module _ (floats : Floats) where
    -- Work that was accepted: the agent holds a genuine token, the gate passed, and exactly one
    -- receipt, which is the entry returned, and one credit were added.
    pub record IsGoverned (w : Work floats) (readings : WorkReadings) (a a' : MeshNodeAgent)
        (entry : Entry) : Type 0 where
      pub token : String
      pub payload : Fields
      pub held : a.token ≡ some token
      pub genuine : IsGenuine h encoding token a.secret a.revocation_store readings.now payload
      pub score : floats.F
      pub passed : lambda_gate_check floats w.request ≡ ok (true, score)
      pub receipt : a'.ledger.chain ≡ a.ledger.chain ++ entry ∷ []
      pub credit : a'.contribution ≡ a.contribution + 1
      pub same_token : a'.token ≡ a.token
      pub same_store : a'.revocation_store ≡ a.revocation_store

    -- Work is accepted only under a genuine token that the agent holds and when the gate passes, and
    -- then adds exactly one receipt, the one that is returned, and one credit. Work that is refused,
    -- and work whose score is no number and raises, leaves the agent as it was.
    pub accept_work-IsGoverned :
        (w : Work floats) (readings : WorkReadings) (a : MeshNodeAgent)
        → (accept_work h encoding floats w readings a ≡ (a, ok none))
          ⊎ ((e : Exception) × (accept_work h encoding floats w readings a ≡ (a, raise e))
              × (given_score floats w.request ≡ raise e))
          ⊎ ((a' : MeshNodeAgent) × (entry : Entry) × (accept_work h encoding floats w readings a
                ≡ (a', ok (some entry)))
              × IsGoverned w readings a a' entry)
    unfolding receipted append
    accept_work-IsGoverned w readings a = elim (accept_work_cases h encoding floats w readings a) [
      | inl (same, _) ↦ inl same
      | inr (inl (e, same, raised)) ↦
          inr (inl (e, same, lambda_gate_check-raise floats w.request e raised))
      | inr (inr (score, valid, passed, made)) ↦
          let (token, payload, held, genuine) = valid-IsGenuine readings.now a valid in
          inr (
            inr (
              (receipted h encoding floats w score readings a).0,
              (receipted h encoding floats w score readings a).1,
              made,
              record {
                token = token;
                payload = payload;
                held = held;
                genuine = genuine;
                score = score;
                passed = passed;
                receipt = refl;
                credit = refl;
                same_token = refl;
                same_store = refl;
              },
            ))
    ]

    -- Once a node is in the set of revoked nodes, an agent with that set, whatever it has done
    -- since, accepts work only while it holds a token that verifies and does not name that node.
    pub revoked_refuses :
        (cs : List (Call h encoding floats)) (a : MeshNodeAgent) (node_id : String)
        (w : Work floats) (readings : WorkReadings) (a' : MeshNodeAgent) (entry : Entry)
        → mem node_id a.revocation_store ≡ true
        → accept_work h encoding floats w readings (history h encoding floats cs a)
          ≡ (a', ok (some entry))
        → HoldsOther node_id readings.now (history h encoding floats cs a)
    revoked_refuses cs a node_id w readings a' entry revoked accepted =
        let b = history h encoding floats cs a in
        let still = history-mem h encoding floats cs node_id a revoked in
        elim (accept_work_cases h encoding floats w readings b) [
          | inl (same, _) ↦ absurd (nothing entry (ap (λ x. x.1) (sym same ∙ accepted)))
          | inr (inl (_, same, _)) ↦ absurd (cc (ap (λ x. x.1) (sym same ∙ accepted)))
          | inr (inr (_, valid, _, _)) ↦ elim (Option-cases b.token) [
            | inl absent ↦ absurd (cc (rw (absent, has_valid_token) at valid))
            | inr (token, held) ↦
                elim (Option-cases
                  (verify_join_token h encoding token b.secret b.revocation_store readings.now)) [
                    | inl refused ↦ absurd (cc (rw (held, refused, has_valid_token) at valid))
                    | inr (payload, verified) ↦
                        let g =
                          verify_join_token-IsGenuine h encoding token b.secret b.revocation_store
                            readings.now payload verified in
                        record {
                          token = token;
                          payload = payload;
                          held = held;
                          verified = verified;
                          other = λ named. absurd (cc (g.permitted node_id named, still));
                        }
                  ]
          ]
        ]
