-- ===== src/Quorum/Organs.antt =====
-- The set of counting organs (quorum.py, `verify_quorum`): each organ once, whatever records repeat
-- it or contradict it.
use szl_mesh.Common.Members.{mem, Distinct, length-Distinct}
use szl_mesh.Common.Dict.{Dict, has, keys, lookup}
use szl_mesh.Common.Order.{◌=?◌, str_ord}
use szl_mesh.Common.Result.{ok, raise, type_error}
use szl_mesh.Common.{
  ◌≤◌, Bool, true, false, ◌&&◌, String, none, some, List, [], ◌∷◌, ◌≡◌, refl, sym, ◌∙◌, arith, any,
  length, map,
}
use szl_mesh.Quorum.{OrganCheck, Verdict, Engine, counting_organs, each_hashable}

-- The check counts, for this organ.
abbrev pub is_for : String → OrganCheck → Bool
is_for organ c = c.counts && elim c.organ [ none ↦ false | some o ↦ o =? organ ]

pub counting_organs-Distinct : (cs : List OrganCheck) → Distinct (counting_organs cs)
unfolding counting_organs
counting_organs-Distinct [] = tt
counting_organs-Distinct (c ∷ cs) = ground (arith, counting_organs-Distinct cs)

-- An organ is in the set exactly if some check counts for it.
pub mem-counting_organs :
    (organ : String) (cs : List OrganCheck) → mem organ (counting_organs cs) ≡ any (is_for organ) cs
unfolding counting_organs
mem-counting_organs organ [] = refl
mem-counting_organs organ (c ∷ cs) =
    elim c.organ
        as (λ o. c.organ ≡ o → mem organ (counting_organs (c ∷ cs)) ≡ any (is_for organ) (c ∷ cs)) [
          | none ↦ λ e. ground (arith, mem-counting_organs organ cs)
          | some o ↦ λ e. ground (arith, mem-counting_organs organ cs, str_ord.same o organ)
        ]
      refl

-- Checks that count for no other organs give no larger set.
pub counting_organs_mono :
    (cs ds : List OrganCheck)
    → ((organ : String) → any (is_for organ) cs ≡ true → any (is_for organ) ds ≡ true)
    → length (counting_organs cs) ≤ length (counting_organs ds)
counting_organs_mono cs ds sub =
    length-Distinct (counting_organs cs) (counting_organs ds) (counting_organs-Distinct cs)
      (λ organ m. mem-counting_organs organ ds ∙ sub organ (sym (mem-counting_organs organ cs) ∙ m))

is_for_lem :
    (organ : String) (c : OrganCheck)
    → is_for organ c ≡ true
    → (c.counts ≡ true) × (c.organ ≡ some organ)
is_for_lem organ c m =
    elim c.organ as (λ o. c.organ ≡ o → (c.counts ≡ true) × (c.organ ≡ some organ)) [
      | none ↦ λ e. ground (arith, m)
      | some o ↦ λ e. ground (arith, m, str_ord.same o organ)
    ]
      refl

pub mem-keys :
    (organ : String) (pubkeys : Dict String String) → mem organ (keys pubkeys) ≡ has organ pubkeys
unfolding has lookup
mem-keys organ [] = refl
mem-keys organ ((k, v) ∷ pubkeys) = ground (arith, mem-keys organ pubkeys)

module _ (engine : Engine) (action_hash : String) (pubkeys : Dict String String) where
  abbrev pub checks_of : List Verdict → List OrganCheck
  checks_of vs = map (engine.check action_hash pubkeys) vs

  pub tally-checks :
      (vs : List Verdict)
      → each_hashable vs ≡ true
      → engine.tally action_hash vs pubkeys ≡ ok (checks_of vs)
  tally-checks vs hashable = engine.tally_each action_hash vs pubkeys ∙ rw hashable refl

  pub tally_raises :
      (vs : List Verdict)
      → each_hashable vs ≡ false
      → engine.tally action_hash vs pubkeys ≡ raise type_error
  tally_raises vs unhashable = engine.tally_each action_hash vs pubkeys ∙ rw unhashable refl

  -- The record is valid, allows the action, and is of this organ.
  abbrev pub counts_for : String → Verdict → Bool
  counts_for organ v = is_for organ (engine.check action_hash pubkeys v)

  pub any-checks :
      (organ : String) (vs : List Verdict)
      → any (is_for organ) (checks_of vs) ≡ any (counts_for organ) vs
  any-checks organ [] = refl
  any-checks organ (v ∷ vs) = ground (arith, any-checks organ vs)

  counts_for-keyed :
      (organ : String) (v : Verdict) → counts_for organ v ≡ true → has organ pubkeys ≡ true
  counts_for-keyed organ v m =
      let (counts, names) = is_for_lem organ (engine.check action_hash pubkeys v) m in
      engine.check_keyed action_hash pubkeys v organ counts names

  pub any-keyed :
      (organ : String) (vs : List Verdict)
      → any (counts_for organ) vs ≡ true
      → has organ pubkeys ≡ true
  any-keyed organ [] m = cc
  any-keyed organ (v ∷ vs) m = ground (arith, counts_for-keyed organ v, any-keyed organ vs)
