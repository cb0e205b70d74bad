-- ===== src/Quorum/Propose.antt =====
-- Collecting a quorum certificate (quorum.py, `action_hash` and `propose_action`).
pub mod Votes
pub mod Proposal
use Prim.Native.String.{◌++◌ as append_str}
use szl_mesh.Common.Dict.{Dict, lookup, put}
use szl_mesh.Common.Json.{Json, Fields, Bytes, Hashing}
use szl_mesh.Common.Order.{◌=?◌, str_ord}
use szl_mesh.Common.Result.{Result, ok, raise, value_error, type_error, ◌>>=◌}
use szl_mesh.Common.{
  ℕ, Bool, true, false, ◌&&◌, ◌||◌, String, Option, none, some, List, [], ◌∷◌, ◌++◌, ◌≡◌,
  if◌then◌else◌, leb, length, ◌==◌, all,
}
use szl_mesh.Common.Dsse.{ascii}
use szl_mesh.Quorum.{QuorumCertificate, validate_quorum_policy}

-- What is handed in as an action.
pub data Action : Type 0 where
  text : String → Action
  raw : Bytes → Action
  dict : Fields → Action
  unsupported : Action

-- The engine's signing: `sign_verdict organ action_hash verdict pem reason lean_sha ts` is the
-- record that one organ signs, `public_pem` the public key that a private one has, and `decide` the
-- engine's decision (canonical or not) and count on the records that were collected.
pub record Signer : Type 0 where
  pub canonical_json : Fields → Bytes
  pub strip_lower : String → String
  pub sign_verdict : String → String → String → String → String → String → String → Result Fields
  pub public_pem : String → Result String
  pub decide : String → List Fields → Dict String String → ℕ → ℕ → Bool × ℕ

abbrev is_hex : ℕ → Bool
is_hex c = (leb b'0' c && leb c b'9') || (leb b'a' c && leb c b'f')

unfoldable pub is_digest : String → Bool
is_digest s = (length (ascii s) == 64) && all is_hex (ascii s)

module _ (hashing : Hashing) (signer : Signer) where
  unfoldable pub action_hash : Action → Result String
  unfolding is_digest
  action_hash (text action) =
      let s = signer.strip_lower action in
      if is_digest s then ok s else ok (hashing.sha256 (hashing.utf8 action))
  action_hash (raw action) = ok (hashing.sha256 action)
  action_hash (dict action) = ok (hashing.sha256 (signer.canonical_json action))
  action_hash unsupported = raise type_error

  -- `d.get(k, default)` on texts
  abbrev get_text : String → String → Dict String String → String
  get_text k default d = elim (lookup k d) [ none ↦ default | some v ↦ v ]

  module _ (ah : String) (witness_keys verdicts : Dict String String)
      (reason lean_sha ts : String) where
    abbrev pub verdict_for : String → String
    verdict_for organ = get_text organ "allow" verdicts

    abbrev pub reason_for : String → String
    reason_for organ =
        if verdict_for organ =? "allow"
        then reason
        else get_text (append_str organ ":reason") "dissent" verdicts

    -- The record that an organ signs.
    abbrev pub signed : String → String → Result Fields
    signed organ pem =
        signer.sign_verdict organ ah (verdict_for organ) pem (reason_for organ) lean_sha ts

    -- The loop over the organs; one without a key is passed over.
    unfoldable pub collect :
        List String → List Fields → Dict String String → Result (List Fields × Dict String String)
    unfolding lookup put
    collect [] witnesses pubkeys = ok (witnesses, pubkeys)
    collect (organ ∷ organs) witnesses pubkeys = elim (lookup organ witness_keys) [
      | none ↦ collect organs witnesses pubkeys
      | some pem ↦
          if pem =? ""
          then collect organs witnesses pubkeys
          else signed organ pem >>= λ rec. signer.public_pem pem >>= λ pub_pem.
              collect organs (witnesses ++ rec ∷ []) (put organ pub_pem pubkeys)
    ]

  unfoldable pub propose_action :
      Action
      → Dict String String
      → List String
      → ℕ
      → ℕ
      → Dict String String
      → String
      → String
      → String
      → Result QuorumCertificate
  unfolding validate_quorum_policy action_hash collect
  propose_action action witness_keys organs threshold n verdicts reason lean_sha ts =
      if validate_quorum_policy threshold n
      then (action_hash action >>= λ ah.
          collect ah witness_keys verdicts reason lean_sha ts organs [] [] >>= λ collected.
          let result = signer.decide ah collected.0 collected.1 threshold n in
          ok (record {
            action_hash = ah;
            witnesses = collected.0;
            threshold = threshold;
            n = n;
            canonical = result.0;
            consensus_count = result.1;
          }))
      else raise value_error
