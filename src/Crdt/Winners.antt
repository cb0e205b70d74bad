-- ===== src/Crdt/Winners.antt =====
-- The loop that finds each key's winner (crdt.py, `_materialise` and `heads`), against the plain
-- maximum of the operations on that key.
use szl_mesh.Common.Best.{better, best}
use szl_mesh.Common.Dict.{Dict, lookup, IsMap, lookup-put, put-IsMap}
use szl_mesh.Common.Json.{Hashing}
use szl_mesh.Common.Order.{◌=?◌, str_ord, nat_ord, pair_ord}
use szl_mesh.Common.{Bool, ◌&&◌, String, List, [], ◌∷◌, ◌≡◌, refl, arith, if◌then◌else◌, select}
use szl_mesh.Crdt.{Op, order_key, challenge, winners_from}

module _ (h : Hashing) (keep : Op → Bool) where
  abbrev pub on_key : String → Op → Bool
  on_key k op = keep op && op.key =? k

  pub lookup-challenge :
      (k : String) (w : Dict String Op) (op : Op)
      → lookup k (challenge h keep w op)
        ≡ (if on_key k op then better (order_key h) (lookup k w) op else lookup k w)
  unfolding challenge
  lookup-challenge k w op = ground (arith, lookup-put op.key k op w, str_ord.same op.key k)

  -- The winner of a key is the best of the operations on it.
  pub lookup-winners_from :
      (k : String) (w : Dict String Op) (ops : List Op)
      → lookup k (winners_from h keep w ops)
        ≡ best (order_key h) (lookup k w) (select (on_key k) ops)
  unfolding winners_from best
  lookup-winners_from k w [] = refl
  lookup-winners_from k w (op ∷ ops) =
      ground (arith, lookup-winners_from k (challenge h keep w op) ops, lookup-challenge k w op)

  pub winners_from-IsMap :
      (w : Dict String Op) (ops : List Op) → IsMap w → IsMap (winners_from h keep w ops)
  unfolding winners_from challenge
  winners_from-IsMap w [] u = u
  winners_from-IsMap w (op ∷ ops) u =
      winners_from-IsMap (challenge h keep w op) ops (ground (arith, u, put-IsMap op.key op w u))
