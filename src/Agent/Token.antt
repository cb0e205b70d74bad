-- ===== src/Agent/Token.antt =====
-- Join tokens (szl_mesh_agent.py, `NodeHardware`, `issue_join_token`, `verify_join_token` and
-- `revoke_token`). Times are read in seconds; sizes of memory are JSON numbers.
pub mod Genuine
use Prim.Native.Char.{code}
use Prim.Native.String.{◌++◌ as append_str, ◌∷◌ as cons_str}
use szl_mesh.Common.Dsse.{ascii, decimal}
use szl_mesh.Common.Json.{
  Json, Fields, Bytes, Hashing, null, bool, int, negative, float, str, arr, obj, to_fields,
}
use szl_mesh.Common.Members.{mem}
use szl_mesh.Common.Order.{str_ord}
use szl_mesh.Common.Truth.{get, get_or, as_fields}
use szl_mesh.Common.{
  ℕ, zero, suc, ◌+◌, Bool, true, false, ◌&&◌, String, Option, none, some, List, [], ◌∷◌, ◌++◌,
  if◌then◌else◌, ltb, ◌==◌,
}
use szl_mesh.Agent.Gate.{or_default}

abbrev pub join_token_ttl_s : ℕ
join_token_ttl_s = 3600

pub record NodeHardware : Type 0 where
  pub node_name : String
  pub hostname : String
  pub port : ℕ
  pub arch : String
  pub backend : String
  pub vram_gb : Json
  pub cpu_ram_gb : Json
  pub cpu_cores : ℕ
  pub gpu_model : Option String

-- What the tokens need of the standard library: base64 for URLs, which fails on a wrong padding,
-- `json.loads`, which fails on bytes that are no JSON, and whether a float is below a time.
pub record Encoding : Type 0 where
  pub urlsafe_b64encode : Bytes → String
  pub urlsafe_b64decode : String → Option Bytes
  pub loads : Bytes → Option Json
  pub is_before : String → ℕ → Bool

-- `s[:n]`
unfoldable pub first_of : ℕ → String → String
first_of zero s = ""
first_of (suc n) String.[] = ""
first_of (suc n) (String.◌∷◌ c s) = cons_str c (first_of n s)

-- `s.rsplit(".", 1)`, where the text has a dot.
unfoldable pub rsplit_dot : String → Option (String × String)
rsplit_dot String.[] = none
rsplit_dot (String.◌∷◌ c s) =
    let rest = rsplit_dot s in
    elim rest [
      | some (a, b) ↦ some (cons_str c a, b)
      | none ↦ if code c == b'.' then some ("", s) else none
    ]

-- `hmac.compare_digest`
unfoldable pub same_digest : Bytes → Bytes → Bool
same_digest [] [] = true
same_digest (x ∷ xs) (y ∷ ys) = (x == y) && same_digest xs ys
same_digest _ _ = false

-- The set of revoked nodes.
unfoldable pub revoke_token : String → List String → List String
revoke_token node_id store = if mem node_id store then store else node_id ∷ store

-- `revocation_store and node_id in revocation_store`; a list or a dictionary cannot be looked up.
unfoldable pub is_listed : List String → Json → Option Bool
is_listed [] node_id = some false
is_listed (x ∷ xs) (str node_id) = some (mem node_id (x ∷ xs))
is_listed (x ∷ xs) (arr _) = none
is_listed (x ∷ xs) (obj _) = none
is_listed (x ∷ xs) _ = some false

module _ (h : Hashing) where
  unfoldable pub node_id_of : NodeHardware → String
  unfolding first_of decimal
  node_id_of hw = first_of 16 (h.sha256 (h.utf8 (append_str hw.hostname ":") ++ decimal hw.port))

  unfoldable pub token_fields : NodeHardware → ℕ → ℕ → Fields
  unfolding node_id_of
  token_fields hw ttl_seconds now = to_fields (
      ("node_id", str (node_id_of hw))
      ∷ ("node_name", str hw.node_name)
      ∷ ("hostname", str hw.hostname)
      ∷ ("port", int hw.port)
      ∷ ("arch", str hw.arch)
      ∷ ("backend", str hw.backend)
      ∷ ("vram_gb", hw.vram_gb)
      ∷ ("cpu_ram_gb", hw.cpu_ram_gb)
      ∷ ("cpu_cores", int hw.cpu_cores)
      ∷ ("gpu_model", str (or_default hw.gpu_model ""))
      ∷ ("issued_at", int now)
      ∷ ("expires_at", int (now + ttl_seconds))
      ∷ ("label", str "LIVE")
      ∷ ("vram_fusion", str "ROADMAP")
      ∷ ("throughput_label", str "MODELED")
      ∷ [])

  module _ (encoding : Encoding) where
    open encoding use {urlsafe_b64encode, urlsafe_b64decode, loads, is_before}

    -- The token that carries a body.
    unfoldable pub token_of : Bytes → Bytes → String
    token_of secret body =
        append_str (urlsafe_b64encode body)
          (append_str "." (urlsafe_b64encode (h.hmac_sha256 secret body)))

    unfoldable pub issue_join_token : NodeHardware → Bytes → ℕ → ℕ → String
    unfolding token_fields token_of
    issue_join_token hw secret ttl_seconds now =
        token_of secret (h.canonical_json (obj (token_fields hw ttl_seconds now)))

    -- `expires_at < time.time()`; what is no number cannot be compared.
    unfoldable pub is_expired : Json → ℕ → Option Bool
    is_expired (int t) now = some (ltb t now)
    is_expired (negative t) now = some true
    is_expired (bool b) now = some (ltb (if b then 1 else 0) now)
    is_expired (float t) now = some (is_before t now)
    is_expired _ now = none

    -- The checks on a payload, once its signature is found right.
    unfoldable pub check_payload : List String → ℕ → Fields → Option Fields
    unfolding is_expired is_listed get_or
    check_payload store now payload = elim (is_expired (get_or "expires_at" (int 0) payload) now) [
      | some false ↦ elim (is_listed store (get "node_id" payload)) [
        | some false ↦ some payload
        | _ ↦ none
      ]
      | _ ↦ none
    ]

    unfoldable pub check_body : Bytes → List String → ℕ → Bytes → Bytes → Option Fields
    unfolding check_payload same_digest
    check_body secret store now body actual_mac =
        if same_digest (h.hmac_sha256 secret body) actual_mac
        then elim (loads body) [
          | none ↦ none
          | some payload ↦ elim (as_fields payload) [
            | none ↦ none
            | some fields ↦ check_payload store now fields
          ]
        ]
        else none

    -- Every exception is caught, and answered by `none`.
    unfoldable pub verify_join_token : String → Bytes → List String → ℕ → Option Fields
    unfolding check_body rsplit_dot
    verify_join_token token secret store now = elim (rsplit_dot token) [
      | none ↦ none
      | some (b64_body, b64_mac) ↦ elim (urlsafe_b64decode b64_body) [
        | none ↦ none
        | some body ↦ elim (urlsafe_b64decode b64_mac) [
          | none ↦ none
          | some actual_mac ↦ check_body secret store now body actual_mac
        ]
      ]
    ]
