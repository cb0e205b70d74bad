-- ===== src/Agent/Worker/Credit.antt =====
-- The accounts of an agent over its history (szl_mesh_agent.py, `MeshNodeAgent`).
use szl_mesh.Agent.Gate.{Floats, lambda_gate_check}
use szl_mesh.Agent.Ledger.{append, new_entry}
use szl_mesh.Agent.Ledger.Chain.{IsIntact, init-IsIntact, append-IsIntact}
use szl_mesh.Agent.Registry.{
  NodeRegistry, NodeInfo, registry_heartbeat, evict_stale, add_contribution,
}
use szl_mesh.Agent.Token.{NodeHardware, Encoding, node_id_of, verify_join_token, revoke_token}
use szl_mesh.Agent.Token.Genuine.{mem-revoke_token}
use szl_mesh.Agent.Worker.{
  MeshNodeAgent, Work, WorkReadings, new_agent, revoke_self, send_heartbeat, issue_self_token,
  accept_external_token, has_valid_token, job_of, receipted, accept_work, ayni_credit_per_job,
}
use szl_mesh.Common.Dict.{lookup, put, lookup-put}
use szl_mesh.Common.Json.{Bytes, Hashing}
use szl_mesh.Common.Members.{mem}
use szl_mesh.Common.Result.{Exception, ok, raise, Result-cases}
use szl_mesh.Common.Order.{◌=?◌, str_ord}
use szl_mesh.Common.{
  ℕ, ◌+◌, ◌≤◌, true, false, String, none, some, List, [], ◌∷◌, ◌≡◌, refl, sym, ap, ◌∙◌, ◌⊎◌, arith,
  length, length-append, Bool-cases, Option-cases, inl, inr, subst, if◌then◌else◌,
}

-- Its credit in the registry, 0 for a node that is not there.
abbrev pub credit_of : String → NodeRegistry → ℕ
credit_of node_id nodes = elim (lookup node_id nodes) [ none ↦ 0 | some info ↦ info.contribution ]

credit_of-put :
    (id j : String) (info : NodeInfo) (nodes : NodeRegistry)
    → credit_of id (put j info nodes) ≡ (if j =? id then info.contribution else credit_of id nodes)
credit_of-put id j info nodes = ground (arith, lookup-put j id info nodes)

credit_of-heartbeat :
    (id j : String) (now : ℕ) (nodes : NodeRegistry)
    → credit_of id (registry_heartbeat j now nodes).1 ≡ credit_of id nodes
unfolding registry_heartbeat
credit_of-heartbeat id j now nodes = elim (Option-cases (lookup j nodes)) [
  | inl absent ↦ rw (absent, registry_heartbeat) refl
  | inr (info, present) ↦
      rw (present, registry_heartbeat)
        (credit_of-put id j (record info { last_seen = now; is_online = true }) nodes
          ∙ ground (arith, str_ord.same j id, present))
]

credit_of-evict :
    (id : String) (now : ℕ) (nodes : NodeRegistry)
    → credit_of id (evict_stale now nodes).0 ≡ credit_of id nodes
unfolding evict_stale lookup
credit_of-evict id now [] = refl
credit_of-evict id now ((j, info) ∷ nodes) = ground (arith, credit_of-evict id now nodes)

credit_of-add :
    (id : String) (delta : ℕ) (nodes : NodeRegistry)
    → credit_of id (add_contribution id delta nodes).1 ≤ credit_of id nodes + delta
unfolding add_contribution
credit_of-add id delta nodes = elim (Option-cases (lookup id nodes)) [
  | inl absent ↦ rw (absent, add_contribution) (ground (arith, absent))
  | inr (info, present) ↦
      rw (present, add_contribution)
        (ground (
          arith,
          present,
          str_ord.cmp_self id,
          credit_of-put id id (record info { contribution = info.contribution + delta }) nodes,
        ))
]

module _ (h : Hashing) (encoding : Encoding) (floats : Floats) where
  -- The chain of receipts verifies, the agent has one credit for each receipt, and the registry
  -- does not credit it with more.
  pub record IsAccounted (a : MeshNodeAgent) : Type 0 where
    pub chain : IsIntact h a.ledger
    pub credited : a.contribution ≡ length a.ledger.chain
    pub not_more : credit_of (node_id_of h a.hw) a.registry ≤ a.contribution

  -- What can happen to an agent: its own methods, the eviction of its registry, and the revocation
  -- of a node in the set that it shares.
  pub data Call : Type 0 where
    issue : ℕ → ℕ → ℕ → Call
    join : String → ℕ → ℕ → Call
    leave : Call
    heartbeat : ℕ → Call
    evict : ℕ → Call
    revoke : String → Call
    work : Work floats → WorkReadings → Call

  unfoldable pub after : Call → MeshNodeAgent → MeshNodeAgent
  unfolding revoke_token issue_self_token accept_external_token revoke_self send_heartbeat
  after (issue issued checked seen) a = issue_self_token h encoding issued checked seen a
  after (join token checked seen) a = (accept_external_token h encoding token checked seen a).1
  after leave a = revoke_self h a
  after (heartbeat now) a = send_heartbeat h now a
  after (evict now) a = record a { registry = (evict_stale now a.registry).0 }
  after (revoke node_id) a = record a { revocation_store = revoke_token node_id a.revocation_store }
  after (work w readings) a = (accept_work h encoding floats w readings a).0

  abbrev pub history : List Call → MeshNodeAgent → MeshNodeAgent
  history [] a = a
  history (c ∷ cs) a = history cs (after c a)

  -- The cases of `accept_work`: nothing has happened, the score has raised, or the token verified,
  -- the gate passed and a receipt was made.
  pub accept_work_cases :
      (w : Work floats) (readings : WorkReadings) (a : MeshNodeAgent)
      → (accept_work h encoding floats w readings a ≡ (a, ok none)
          × ((has_valid_token h encoding readings.now a ≡ false)
              ⊎ ((score : floats.F) × (lambda_gate_check floats w.request ≡ ok (false, score)))))
        ⊎ ((e : Exception) × (accept_work h encoding floats w readings a ≡ (a, raise e))
            × (lambda_gate_check floats w.request ≡ raise e))
        ⊎ ((score : floats.F) × (has_valid_token h encoding readings.now a ≡ true)
            × (lambda_gate_check floats w.request ≡ ok (true, score))
            × (accept_work h encoding floats w readings a ≡ (
              (receipted h encoding floats w score readings a).0,
              ok (some (receipted h encoding floats w score readings a).1),
            )))
  unfolding accept_work
  accept_work_cases w readings a = elim (Bool-cases (has_valid_token h encoding readings.now a)) [
    | inr bad ↦ inl (rw bad refl, inl bad)
    | inl good ↦ elim (Result-cases (lambda_gate_check floats w.request)) [
      | inr (e, raised) ↦ inr (inl (e, rw (good, raised) refl, raised))
      | inl ((true, score), passed) ↦ inr (inr (score, good, passed, rw (good, passed) refl))
      | inl ((false, score), failed) ↦ inl (rw (good, failed) refl, inr (score, failed))
    ]
  ]

  receipted-IsAccounted :
      (w : Work floats) (score : floats.F) (readings : WorkReadings) (a : MeshNodeAgent)
      → IsAccounted a
      → IsAccounted (receipted h encoding floats w score readings a).0
  unfolding receipted append
  receipted-IsAccounted w score readings a p =
      let job = job_of h encoding floats w score readings.random_id in
      let e = new_entry h a.ledger job readings.timestamp readings.signed_at in
      record {
        chain = append-IsIntact h a.ledger job readings.timestamp readings.signed_at p.chain;
        credited = omega (arith, p.credited, length-append a.ledger.chain (e ∷ []));
        not_more =
            omega
              (arith, p.not_more, credit_of-add (node_id_of h a.hw) ayni_credit_per_job a.registry);
      }

  register-not_more :
      (a : MeshNodeAgent) (nodes : NodeRegistry) (info : NodeInfo)
      → info.contribution ≡ 0
      → credit_of (node_id_of h a.hw) (put (node_id_of h a.hw) info nodes) ≤ a.contribution
  register-not_more a nodes info new =
      let id = node_id_of h a.hw in
      ground (arith, credit_of-put id id info nodes, str_ord.cmp_self id, new)

  after-IsAccounted : (c : Call) (a : MeshNodeAgent) → IsAccounted a → IsAccounted (after c a)
  unfolding after
  after-IsAccounted (issue issued checked seen) a p = record {
    chain = p.chain;
    credited = p.credited;
    not_more = register-not_more a a.registry _ refl;
  }
  after-IsAccounted (join token checked seen) a p =
      elim (Option-cases (verify_join_token h encoding token a.secret a.revocation_store checked)) [
        | inl refused ↦ rw (refused, after) p
        | inr (payload, verified) ↦
            rw (verified, after)
              (record {
                chain = p.chain;
                credited = p.credited;
                not_more = register-not_more a a.registry _ refl;
              })
      ]
  after-IsAccounted leave a p = record {
    chain = p.chain;
    credited = p.credited;
    not_more = p.not_more;
  }
  after-IsAccounted (heartbeat now) a p = record {
    chain = p.chain;
    credited = p.credited;
    not_more = omega (
      arith,
      p.not_more,
      credit_of-heartbeat (node_id_of h a.hw) (node_id_of h a.hw) now a.registry,
    );
  }
  after-IsAccounted (evict now) a p = record {
    chain = p.chain;
    credited = p.credited;
    not_more = omega (arith, p.not_more, credit_of-evict (node_id_of h a.hw) now a.registry);
  }
  after-IsAccounted (revoke node_id) a p = record {
    chain = p.chain;
    credited = p.credited;
    not_more = p.not_more;
  }
  after-IsAccounted (work w readings) a p = elim (accept_work_cases w readings a) [
    | inl (same, _) ↦ subst (λ x. IsAccounted x.0) (sym same) p
    | inr (inl (_, same, _)) ↦ subst (λ x. IsAccounted x.0) (sym same) p
    | inr (inr (score, _, _, made)) ↦
        subst (λ x. IsAccounted x.0) (sym made) (receipted-IsAccounted w score readings a p)
  ]

  after_all-IsAccounted :
      (cs : List Call) (a : MeshNodeAgent) → IsAccounted a → IsAccounted (history cs a)
  after_all-IsAccounted [] a p = p
  after_all-IsAccounted (c ∷ cs) a p =
      after_all-IsAccounted cs (after c a) (after-IsAccounted c a p)

  -- After any calls on a new agent with a registry of its own, refused work and revocations
  -- included, its chain of receipts verifies, it has one credit for each receipt, and the registry
  -- does not credit it with more.
  pub history-IsAccounted :
      (cs : List Call) (hw : NodeHardware) (secret : Bytes) (store : List String)
      → IsAccounted (history cs (new_agent h hw secret [] store))
  unfolding lookup
  history-IsAccounted cs hw secret store =
      after_all-IsAccounted cs (new_agent h hw secret [] store) (record {
        chain = init-IsIntact h (node_id_of h hw) secret;
        credited = refl;
        not_more = omega arith;
      })

  -- A revocation lasts.
  pub history-mem :
      (cs : List Call) (node_id : String) (a : MeshNodeAgent)
      → mem node_id a.revocation_store ≡ true
      → mem node_id (history cs a).revocation_store ≡ true
  unfolding after receipted
  history-mem [] node_id a m = m
  history-mem (c ∷ cs) node_id a m = history-mem cs node_id (after c a) (kept c)
    where
      kept : (c : Call) → mem node_id (after c a).revocation_store ≡ true
      kept (issue issued checked seen) = m
      kept (join token checked seen) =
          elim (Option-cases
            (verify_join_token h encoding token a.secret a.revocation_store checked)) [
              | inl refused ↦ rw (refused, after) m
              | inr (payload, verified) ↦ rw (verified, after) m
            ]
      kept leave = mem-revoke_token (node_id_of h a.hw) node_id a.revocation_store m
      kept (heartbeat now) = m
      kept (evict now) = m
      kept (revoke other) = mem-revoke_token other node_id a.revocation_store m
      kept (work w readings) = elim (accept_work_cases w readings a) [
        | inl (same, _) ↦ ap (λ x. mem node_id x.0.revocation_store) same ∙ m
        | inr (inl (_, same, _)) ↦ ap (λ x. mem node_id x.0.revocation_store) same ∙ m
        | inr (inr (_, _, _, made)) ↦ ap (λ x. mem node_id x.0.revocation_store) made ∙ m
      ]
