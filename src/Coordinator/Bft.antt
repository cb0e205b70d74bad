-- ===== src/Coordinator/Bft.antt =====
-- `KhipuBFT`: the witnesses of each job, counted against a quorum.
use szl_mesh.Common.Dict.{Dict, lookup, put, lookup-put}
use szl_mesh.Common.Order.{◌=?◌, str_ord}
use szl_mesh.Common.Members.{mem, Distinct, mem-append, Distinct-append}
use szl_mesh.Common.{
  ℕ, Bool, String, List, [], ◌∷◌, ◌++◌, some, none, ◌≡◌, ◌||◌, ◌&&◌, ◌∙◌, arith, if◌then◌else◌, leb,
  any, length,
}

pub record Bft : Type 0 where
  pub quorum : ℕ
  pub witnesses : Dict String (List String)

abbrev pub bft_quorum : ℕ
bft_quorum = 3

abbrev pub init : ℕ → Bft
init quorum = record { quorum = quorum; witnesses = [] }

unfoldable pub of_job : String → Bft → List String
of_job job b = elim (lookup job b.witnesses) [ none ↦ [] | some ws ↦ ws ]

-- Whether the quorum is reached, and the number of witnesses.
unfoldable pub witness : String → String → Bft → (Bool × ℕ) × Bft
unfolding of_job
witness job node b =
    let ws = of_job job b in
    let ws' = if mem node ws then ws else ws ++ node ∷ [] in
    ((leb b.quorum (length ws'), length ws'), record b { witnesses = put job ws' b.witnesses })

-- The number of witnesses and whether the quorum is reached, as `status` reports them.
unfoldable pub status : String → Bft → ℕ × Bool
unfolding of_job
status job b = (length (of_job job b), leb b.quorum (length (of_job job b)))

-- What a call does to the witnesses of every job.
of_job-witness :
    (job node q : String) (b : Bft)
    → of_job q (witness job node b).1 ≡ (
        if job =? q
        then (if mem node (of_job job b) then of_job job b else of_job job b ++ node ∷ [])
        else of_job q b)
unfolding witness
of_job-witness job node q b =
    let ws = of_job job b in
    ground (
      arith,
      str_ord.same job q,
      lookup-put job q (if mem node ws then ws else ws ++ node ∷ []) b.witnesses,
    )

-- The calls of `witness`, in order.
abbrev pub run : List (String × String) → Bft → Bft
run [] b = b
run ((job, node) ∷ calls) b = run calls (witness job node b).1

abbrev pub witnessed : String → String → List (String × String) → Bool
witnessed job node calls = any (λ c. (c.0 =? job) && (c.1 =? node)) calls

witness-Distinct :
    (job node q : String) (b : Bft)
    → Distinct (of_job q b)
    → Distinct (of_job job b)
    → Distinct (of_job q (witness job node b).1)
witness-Distinct job node q b d dj =
    rw (of_job-witness job node q b) (ground (arith, Distinct-append (of_job job b) node dj))

mem-witness :
    (job node q n : String) (b : Bft)
    → mem n (of_job q (witness job node b).1) ≡ mem n (of_job q b) || ((job =? q) && (node =? n))
mem-witness job node q n b =
    rw (of_job-witness job node q b)
      (ground (arith, str_ord.same job q, str_ord.same node n, mem-append n (of_job job b) node))

run_from :
    (calls : List (String × String)) (b : Bft)
    → ((job : String) → Distinct (of_job job b))
    → (job : String)
    → Distinct (of_job job (run calls b))
      × ((n : String)
          → mem n (of_job job (run calls b)) ≡ mem n (of_job job b) || witnessed job n calls)
run_from [] b d job = (d job, λ n. ground arith)
run_from ((j, node) ∷ calls) b d job =
    let (distinct, at) =
      run_from calls (witness j node b).1 (λ q. witness-Distinct j node q b (d q) (d j)) job in
    (distinct, λ n. at n ∙ ground (arith, mem-witness j node job n b))

-- What a call returns is what `status` reports after it.
status-witness :
    (job node : String) (b : Bft)
    → let (result, after) = witness job node b in status job after ≡ (result.1, result.0)
unfolding witness status
status-witness job node b =
    let ws = of_job job b in
    ground (
      arith,
      str_ord.cmp_self job,
      lookup-put job job (if mem node ws then ws else ws ++ node ∷ []) b.witnesses,
    )

-- After any calls the witnesses of a job are the nodes that witnessed it, each counted once
-- however often it called; and one more call returns the count, and whether it reaches the quorum,
-- that `status` then reports.
pub witnesses_lem :
    (quorum : ℕ) (calls : List (String × String)) (job : String)
    → let b = run calls (init quorum) in
      Distinct (of_job job b)
      × ((n : String) → mem n (of_job job b) ≡ witnessed job n calls)
      × ((n : String)
          → status job (witness job n b).1 ≡ ((witness job n b).0.1, (witness job n b).0.0))
unfolding of_job lookup
witnesses_lem quorum calls job =
    let (distinct, at) = run_from calls (init quorum) (λ q. tt) job in
    (distinct, at, λ n. status-witness job n (run calls (init quorum)))
