-- ===== src/Crdt/Tests.antt =====
-- Runs and examples of documents, with a toy hash that tells operations by their Lamport time.
use szl_mesh.Common.Dict.{lookup, put}
use szl_mesh.Common.Json.{Json, Hashing, Bytes, int, str, obj, get_field}
use szl_mesh.Common.Order.{str_ord, nat_ord, pair_ord}
use szl_mesh.Common.Sort.{sort_by}
use szl_mesh.Common.Result.{ok}
use szl_mesh.Common.{
  ℕ, String, some, [], ◌∷◌, ◌≡◌, refl, false, if◌then◌else◌, arith, ◌==◌, Ordering,
}
use szl_mesh.Crdt.Log.{IsLog}
use szl_mesh.Crdt.Lww.{Wins, materialise_last_writer}
use szl_mesh.Crdt.Merge.{Agree, merged, merge_comm, merge_assoc}
use szl_mesh.Crdt.Views.{SameOps}
use szl_mesh.Crdt.Sync.{from_dict, as_read, item, read_id, op_dict, from_dict-op_dict}
use szl_mesh.Crdt.{
  Op, Document, op_id, materialise, view, heads, state_digest, authorized, order_key, collect,
  winners_from, challenge,
}

abbrev stamp : Json → Bytes
stamp (obj fs) = elim (get_field "lamport" fs) [ some (int n) ↦ n ∷ [] | _ ↦ [] ]
stamp j = []

abbrev digest : Bytes → String
digest [] = "none"
digest (n ∷ _) = if n == 1 then "one" else if n == 2 then "two" else "three"

abbrev toy : Hashing
toy = record {
  canonical = stamp;
  canonical_json = stamp;
  utf8 = λ s. [];
  sha256 = digest;
  hmac_sha256 = λ k x. x;
  base64 = λ x. "";
}

abbrev write : ℕ → ℕ → Op
write lamport v = record {
  doc_id = "doc";
  key = "k";
  value = int v;
  lamport = lamport;
  node_id = "n";
  deletion = false;
  track = "AUTHORIZED";
}

abbrev one : Document
one = record { doc_id = "doc"; ops = ("one", write 1 10) ∷ [] }

abbrev two : Document
two = record { doc_id = "doc"; ops = ("two", write 2 20) ∷ [] }

abbrev three : Document
three = record { doc_id = "doc"; ops = ("three", write 3 30) ∷ [] }

abbrev both : Document
both = record { doc_id = "doc"; ops = ("one", write 1 10) ∷ ("two", write 2 20) ∷ [] }

abbrev both' : Document
both' = record { doc_id = "doc"; ops = ("two", write 2 20) ∷ ("one", write 1 10) ∷ [] }

one-IsLog : IsLog toy one
unfolding op_id get_field str_ord lookup
one-IsLog = record { unique = (refl, tt); named = ((refl, refl), tt) }

two-IsLog : IsLog toy two
unfolding op_id get_field str_ord lookup
two-IsLog = record { unique = (refl, tt); named = ((refl, refl), tt) }

three-IsLog : IsLog toy three
unfolding op_id get_field str_ord lookup
three-IsLog = record { unique = (refl, tt); named = ((refl, refl), tt) }

both-IsLog : IsLog toy both
unfolding op_id get_field str_ord lookup
both-IsLog = record { unique = (refl, (refl, tt)); named = ((refl, refl), ((refl, refl), tt)) }

both'-IsLog : IsLog toy both'
unfolding op_id get_field str_ord lookup
both'-IsLog = record { unique = (refl, (refl, tt)); named = ((refl, refl), ((refl, refl), tt)) }

one_not_two : str_ord.cmp "one" "two" ≡ Ordering.lt
unfolding str_ord
one_not_two = refl

one-two-Agree : Agree one two
unfolding lookup
one-two-Agree i a b p q =
    absurd (ground (arith, p, q, str_ord.same "one" i, str_ord.same "two" i, one_not_two))

SameOps-both : SameOps both both'
unfolding lookup
SameOps-both i = ground (arith, str_ord.same "one" i, str_ord.same "two" i, one_not_two)

merge_comm_example :
    ((track : String)
      → (view toy track (merged toy two one) ≡ view toy track (merged toy one two))
        × (state_digest toy track (merged toy two one)
            ≡ state_digest toy track (merged toy one two)))
    × (heads toy (merged toy two one) ≡ heads toy (merged toy one two))
merge_comm_example = merge_comm toy one two one-IsLog two-IsLog refl one-two-Agree

merge_assoc_example :
    SameOps (merged toy three (merged toy two one)) (merged toy (merged toy three two) one)
    × ((track : String)
        → view toy track (merged toy three (merged toy two one))
          ≡ view toy track (merged toy (merged toy three two) one))
    × (heads toy (merged toy three (merged toy two one))
        ≡ heads toy (merged toy (merged toy three two) one))
merge_assoc_example = merge_assoc toy one two three one-IsLog two-IsLog three-IsLog refl refl

materialise_last_writer_example :
    (w : Op) × Wins toy (authorized ∷ []) both "k" w × (w.deletion ≡ false) × (w.value ≡ int 20)
unfolding materialise collect winners_from challenge order_key op_id lookup put sort_by str_ord
    nat_ord pair_ord get_field
materialise_last_writer_example =
    materialise_last_writer toy (authorized ∷ []) both both-IsLog "k" (int 20) refl

second-Wins : Wins toy (authorized ∷ []) both "k" (write 2 20)
unfolding order_key op_id lookup str_ord nat_ord pair_ord get_field
second-Wins = record {
  in_log = refl;
  admitted = refl;
  writes = refl;
  last = ((λ e. refl), ((λ e. refl), tt));
}

abbrev sent : Op
sent = write 1 2

from_dict-op_dict_example :
    (from_dict (op_dict toy sent) ≡ ok (as_read sent))
    × (item "op_id" (op_dict toy sent) ≡ ok (str (read_id toy (as_read sent))))
from_dict-op_dict_example = from_dict-op_dict toy sent
