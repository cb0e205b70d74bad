-- ===== src/Coordinator/Samples.antt =====
-- A small mesh, requests and candidates, for the runs and examples of the coordinator.
use szl_mesh.Agent.Gate.{Floats, Request}
use szl_mesh.Agent.Ledger.Chain.{init-IsIntact}
use szl_mesh.Agent.Ledger.{init}
use szl_mesh.Common.Dict.{lookup}
use szl_mesh.Common.Json.{int, Hashing}
use szl_mesh.Common.Result.{ok, raise, type_error}
use szl_mesh.Common.Order.{str_ord, nat_ord}
use szl_mesh.Common.{ℕ, true, String, none, some, List, [], ◌∷◌, ◌≡◌, refl, arith, leb, ◌==◌, ◌+◌}
use szl_mesh.Common.Members.{mem}
use szl_mesh.Coordinator.Bft.{status, init as new_bft}
use szl_mesh.Coordinator.Dispatch.Valid.{IsSound}
use szl_mesh.Coordinator.Dispatch.{Readings}
use szl_mesh.Coordinator.Pick.{Candidate, Random}
use szl_mesh.Coordinator.Relay.{Relay}
use szl_mesh.Coordinator.Tile.Keyed.{WellKeyed}
use szl_mesh.Coordinator.Tile.{TileStatus, up, down, NodeTile, Coordinator}

abbrev pub relay : Relay
relay = record { seen = ("a", 10) ∷ []; ttl = 300 }

-- The last of the list; any choice does.
abbrev pub last_of : String → List String → String
last_of x [] = x
last_of x (y ∷ ys) = last_of y ys

abbrev pub pick_last : List String → String
pick_last [] = ""
pick_last (x ∷ xs) = last_of x xs

pub last_of-mem : (x : String) (xs : List String) → mem (last_of x xs) (x ∷ xs) ≡ true
last_of-mem x [] = ground (arith, str_ord.cmp_self x)
last_of-mem x (y ∷ ys) = ground (arith, last_of-mem y ys)

abbrev pub random : Random
random = record {
  seed_of = λ s. 0;
  choice = λ seed xs. pick_last xs;
  choice_mem = λ seed x xs. last_of-mem x xs;
}

abbrev pub candidate : String → ℕ → TileStatus → Candidate
candidate id connections status = record {
  node_id = id;
  node_name = id;
  hostname = "host";
  port = 8080;
  vram_gb = int 16;
  layer_start = 0;
  layer_end = 32;
  active_connections = connections;
  status = status;
}

abbrev pub candidates : List Candidate
candidates =
    candidate "a" 2 up ∷ candidate "b" 0 down ∷ candidate "c" 2 up ∷ candidate "d" 3 up ∷ []

abbrev pub tile : String → ℕ → ℕ → TileStatus → NodeTile
tile id start end status = record {
  node_id = id;
  node_name = id;
  hostname = "host";
  port = 8080;
  arch = "x86_64";
  backend = "cpu";
  vram_gb = int 16;
  cpu_ram_gb = int 64;
  layer_start = start;
  layer_end = end;
  token = "t";
  status = status;
  active_connections = 0;
  total_jobs = 0;
  contribution = 0;
  last_seen = 0;
  down_reason = none;
}

abbrev pub mesh : Coordinator
mesh = record {
  total_layers = 32;
  token_ttl = 3600;
  tiles =
      ("a", tile "a" 0 12 up)
      ∷ ("b", tile "b" 0 32 down)
      ∷ ("c", tile "c" 10 20 up)
      ∷ ("d", tile "d" 16 40 up)
      ∷ [];
  revocation_store = [];
  routing_ledger = init "coordinator" [];
  relay = relay;
  bft = new_bft 3;
  active_connections = [];
}

pub mesh-WellKeyed : WellKeyed mesh.tiles
unfolding lookup str_ord
mesh-WellKeyed = ((refl, (refl, (refl, (refl, tt)))), (refl, (refl, (refl, (refl, tt)))))

-- Halves stand for floats.
abbrev pub halves : Floats
halves = record {
  F = ℕ;
  zero = 0;
  half = 1;
  one = 2;
  is_equal = λ a b. a == b;
  is_at_least = λ a b. leb b a;
  to_json = int;
  to_float = λ x. elim x [ int n ↦ ok n | _ ↦ raise type_error ];
  one_at_least_half = refl;
  zero_not_at_least_half = refl;
}

abbrev pub toy : Hashing
toy = record {
  canonical = λ j. [];
  canonical_json = λ j. [];
  utf8 = λ s. [];
  sha256 = λ x. "digest";
  hmac_sha256 = λ k x. x;
  base64 = λ x. "";
}

abbrev pub readings : ℕ → Readings
readings step = record {
  token_hex = "token";
  now = 400 + step;
  then_now = 400 + step;
  timestamp_utc = "2024-01-01T00:00:00Z";
  signed_at = "2024-01-01T00:00:00Z";
}

abbrev pub request : Request halves
request = record { request_id = some "q"; model = some "m"; label = none; lambda_score = none }

pub mesh-IsSound : IsSound halves toy random mesh
unfolding lookup
mesh-IsSound = record {
  keyed = mesh-WellKeyed;
  chained = init-IsIntact toy "coordinator" [];
  noted = (refl, tt);
}
