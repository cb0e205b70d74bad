-- ===== src/Coordinator/Relay.antt =====
-- `ChaskiRelay`: request identifiers seen within the time to live. The clock is an argument; a
-- call reads it twice, for the eviction and for the entry.
use szl_mesh.Common.Dict.{
  Dict, lookup, put, has, IsMap, lookup-put, lookup-select, select-IsMap, put-IsMap,
}
use szl_mesh.Common.Order.{◌=?◌, str_ord}
use szl_mesh.Common.{
  ℕ, ◌-◌, Bool, true, false, not, String, some, none, List, [], ◌∷◌, All, All-imp, ◌≡◌, refl, sym,
  subst, arith, ◌∙◌, if◌then◌else◌, ltb, leb, select, or_else, Option,
}

pub record Relay : Type 0 where
  pub seen : Dict String ℕ
  pub ttl : ℕ

-- Times are read in ticks from a clock that does not run backwards.
abbrev pub is_stale : ℕ → ℕ → ℕ → Bool
is_stale ttl now ts = ltb ttl (now - ts)

unfoldable pub evict : ℕ → Relay → Relay
evict now r = record r { seen = select (λ e. not (is_stale r.ttl now e.1)) r.seen }

unfoldable pub is_duplicate : String → ℕ → ℕ → Relay → Bool × Relay
unfolding evict
is_duplicate request_id now then_now r =
    let r' = evict now r in
    if has request_id r'.seen
    then (true, r')
    else (false, record r' { seen = put request_id then_now r'.seen })

-- A note that is not stale yet.
abbrev pub live : ℕ → ℕ → Option ℕ → Option ℕ
live ttl now none = none
live ttl now (some ts) = if is_stale ttl now ts then none else some ts

abbrev pub is_some {ℓ} : {A : Type ℓ} → Option A → Bool
is_some none = false
is_some (some a) = true

-- Each identifier is noted once.
abbrev pub IsValid : Relay → Type 0
IsValid r = IsMap r.seen

-- A call keeps the invariant.
pub is_duplicate-IsValid :
    (id : String) (now note : ℕ) (r : Relay) → IsValid r → IsValid (is_duplicate id now note r).1
unfolding is_duplicate
is_duplicate-IsValid id now note r v =
    let fresh = λ (ts : ℕ). not (is_stale r.ttl now ts) in
    let kept = select-IsMap fresh r.seen v in
    ground (arith, kept, put-IsMap id note (select (λ e. fresh e.1) r.seen) kept)

-- A request is a duplicate exactly if it was noted within the time to live.
pub is_duplicate_iff :
    (id : String) (now note : ℕ) (r : Relay)
    → IsValid r
    → (is_duplicate id now note r).0 ≡ is_some (live r.ttl now (lookup id r.seen))
unfolding is_duplicate has
is_duplicate_iff id now note r v =
    ground (arith, lookup-select (λ ts. not (is_stale r.ttl now ts)) id r.seen v)

-- What a call leaves behind: the identifier, as first noted within the time to live, and of the
-- others those that are not stale.
pub lookup-is_duplicate :
    (id q : String) (now note : ℕ) (r : Relay)
    → IsValid r
    → lookup q (is_duplicate id now note r).1.seen ≡ (
        let kept = live r.ttl now (lookup q r.seen) in
        if id =? q then or_else kept (some note) else kept)
unfolding is_duplicate has
lookup-is_duplicate id q now note r v =
    let fresh = λ (ts : ℕ). not (is_stale r.ttl now ts) in
    ground (
      arith,
      lookup-select fresh id r.seen v,
      lookup-select fresh q r.seen v,
      str_ord.same id q,
      lookup-put id q note (select (λ e. fresh e.1) r.seen),
    )

is_duplicate-ttl :
    (id : String) (now note : ℕ) (r : Relay) → (is_duplicate id now note r).1.ttl ≡ r.ttl
unfolding is_duplicate
is_duplicate-ttl id now note r = ground arith

-- A call: the identifier, and the clock at the eviction and at the entry.
abbrev pub Check : Type 0
Check = String × (ℕ × ℕ)

abbrev pub checks : List Check → Relay → Relay
checks [] r = r
checks ((id, (now, note)) ∷ cs) r = checks cs (is_duplicate id now note r).1

-- A note stays as it is as long as all calls find it live.
lookup-checks :
    (id : String) (note : ℕ) (cs : List Check) (r : Relay)
    → IsValid r
    → lookup id r.seen ≡ some note
    → All (λ c. is_stale r.ttl c.1.0 note ≡ false) cs
    → IsValid (checks cs r)
      × (lookup id (checks cs r).seen ≡ some note)
      × ((checks cs r).ttl ≡ r.ttl)
lookup-checks id note [] r v noted live_at = (v, noted, refl)
lookup-checks id note ((q, (now, again)) ∷ cs) r v noted live_at =
    let r' = (is_duplicate q now again r).1 in
    let v' = is_duplicate-IsValid q now again r v in
    let same = is_duplicate-ttl q now again r in
    let noted' : lookup id r'.seen ≡ some note =
      ground (arith, lookup-is_duplicate q id now again r v, noted, live_at.0) in
    let (valid, kept, ttl) =
      lookup-checks id note cs r' v' noted'
        (subst (λ t. All (λ c. is_stale t c.1.0 note ≡ false) cs) (sym same) live_at.1) in
    (valid, kept, ttl ∙ same)

-- Relaying is idempotent. After a request that was let through, whatever other requests and
-- repetitions come within the time to live of its note, a repetition is a duplicate exactly if it
-- comes within this time, too.
pub relay_once :
    (id : String) (now note : ℕ) (cs : List Check) (later again : ℕ) (r : Relay)
    → IsValid r
    → All (λ c. leb (c.1.0 - note) r.ttl ≡ true) cs
    → (is_duplicate id now note r).0 ≡ false
    → (is_duplicate id later again (checks cs (is_duplicate id now note r).1)).0
      ≡ leb (later - note) r.ttl
relay_once id now note cs later again r v within first =
    let r' = (is_duplicate id now note r).1 in
    let same = is_duplicate-ttl id now note r in
    let noted : lookup id r'.seen ≡ some note = ground (
      arith,
      is_duplicate_iff id now note r v,
      lookup-is_duplicate id id now note r v,
      str_ord.cmp_self id,
      first,
    ) in
    let (valid, kept, ttl) =
      lookup-checks id note cs r' (is_duplicate-IsValid id now note r v) noted
        (All-imp cs within (λ c w. ground (arith, w, same))) in
    is_duplicate_iff id later again (checks cs r') valid ∙ ground (arith, kept, ttl, same)
