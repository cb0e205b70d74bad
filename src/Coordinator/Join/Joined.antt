-- ===== src/Coordinator/Join/Joined.antt =====
-- What a join and a heartbeat leave behind (szl_mesh_coordinator.py).
use szl_mesh.Agent.Token.Genuine.{IsBase64, verify_join_token-IsGenuine, verify-issue}
use szl_mesh.Agent.Token.{
  NodeHardware, Encoding, node_id_of, issue_join_token, verify_join_token, token_fields,
}
use szl_mesh.Common.Dict.{lookup, put, lookup-put, put-IsMap, All-put}
use szl_mesh.Common.Json.{Fields, Hashing, int, str, obj}
use szl_mesh.Common.Order.{◌=?◌, str_ord}
use szl_mesh.Common.Truth.{get, get_or, is_text, is_text_lem}
use szl_mesh.Common.{
  ℕ, ◌+◌, ◌≤◌, true, false, String, some, ◌≡◌, refl, arith, if◌then◌else◌, Bool-cases, Option-cases,
  inl, inr,
}
use szl_mesh.Coordinator.Join.{
  mesh_secret, registered_nodes, new_tile, join_node, receive_heartbeat,
}
use szl_mesh.Coordinator.Layers.Exact.{InModel, assign_layers-InModel}
use szl_mesh.Coordinator.Layers.{Amounts, assign_layers}
use szl_mesh.Coordinator.Tile.{Coordinator, NodeTile, up, is_revoked}
use szl_mesh.Coordinator.Tile.Keyed.{WellKeyed}

module _ (h : Hashing) (encoding : Encoding) (amounts : Amounts) where
  -- The node's tile is there, UP and with the layers assigned to it; all other tiles, the
  -- connections of other nodes and the set of revoked nodes are as they were.
  pub record IsJoined (hw : NodeHardware) (issued : ℕ) (c c' : Coordinator) (tile : NodeTile)
      : Type 0 where
    pub present :
        (id : String)
        → lookup id c'.tiles ≡ (if node_id_of h hw =? id then some tile else lookup id c.tiles)
    pub named : tile.node_id ≡ node_id_of h hw
    pub is_up : tile.status ≡ up
    pub token : tile.token ≡ issue_join_token h encoding hw (mesh_secret c) c.token_ttl issued
    pub layers :
        (tile.layer_start, tile.layer_end)
        ≡ assign_layers amounts c.total_layers
            (registered_nodes h encoding amounts c)
            (amounts.of_json hw.vram_gb)
    pub in_model : InModel c.total_layers (tile.layer_start, tile.layer_end)
    pub connections :
        (id : String)
        → lookup id c'.active_connections
          ≡ (if node_id_of h hw =? id then some 0 else lookup id c.active_connections)
    pub keyed : WellKeyed c.tiles → WellKeyed c'.tiles
    pub same_store : c'.revocation_store ≡ c.revocation_store

  -- A node that joins gets a tile under its name that is UP, holds its token and the layers that
  -- assign_layers gives its memory, a range of the model's layers that is not empty if there are
  -- any, and no connections. All other tiles and connections and the set of revoked nodes stay as
  -- they were, and tiles stay under their own names.
  pub join_node-IsJoined :
      (hw : NodeHardware) (issued seen : ℕ) (c : Coordinator)
      → let (tile, c') = join_node h encoding amounts hw issued seen c in
        IsJoined hw issued c c' tile
  unfolding join_node
  join_node-IsJoined hw issued seen c =
      let id = node_id_of h hw in
      let tile = new_tile h encoding amounts hw issued seen c in
      record {
        present = λ j. lookup-put id j tile c.tiles;
        named = refl;
        is_up = refl;
        token = refl;
        layers = refl;
        in_model =
            assign_layers-InModel amounts c.total_layers (registered_nodes h encoding amounts c)
              (amounts.of_json hw.vram_gb);
        connections = λ j. lookup-put id j 0 c.active_connections;
        keyed = λ w. (
          put-IsMap id tile c.tiles w.0,
          All-put (λ e. e.1.node_id ≡ e.0) id tile c.tiles w.1 refl,
        );
        same_store = refl;
      }

  -- A heartbeat of a node that is revoked is refused, whatever its token, and changes nothing.
  pub heartbeat_revoked :
      (node_id token : String) (checked seen : ℕ) (c : Coordinator)
      → is_revoked node_id c ≡ true
      → receive_heartbeat h encoding amounts node_id token checked seen c ≡ (false, c)
  unfolding receive_heartbeat is_revoked
  heartbeat_revoked node_id token checked seen c revoked =
      elim (Option-cases
        (verify_join_token h encoding token (mesh_secret c) c.revocation_store checked)) [
          | inl refused ↦ rw (refused, receive_heartbeat) refl
          | inr (payload, verified) ↦ elim (Bool-cases (is_text node_id (get "node_id" payload))) [
            | inr other ↦ rw (verified, other, receive_heartbeat) refl
            | inl same ↦
                let g =
                  verify_join_token-IsGenuine h encoding token (mesh_secret c) c.revocation_store
                    checked payload verified in
                absurd (
                  cc (
                    g.permitted node_id (is_text_lem node_id (get "node_id" payload) same),
                    revoked,
                  ))
          ]
        ]

  -- A revoked node that joins again is shown as UP, though every heartbeat of it is refused.
  pub rejoin_revoked :
      (hw : NodeHardware) (issued seen : ℕ) (c : Coordinator)
      → is_revoked (node_id_of h hw) c ≡ true
      → let (tile, c') = join_node h encoding amounts hw issued seen c in
        (lookup (node_id_of h hw) c'.tiles ≡ some tile)
        × (tile.status ≡ up)
        × ((token : String) (checked later : ℕ)
            → receive_heartbeat h encoding amounts (node_id_of h hw) token checked later c'
              ≡ (false, c'))
  unfolding join_node is_revoked
  rejoin_revoked hw issued seen c revoked =
      let id = node_id_of h hw in
      let tile = new_tile h encoding amounts hw issued seen c in
      let c' = (join_node h encoding amounts hw issued seen c).1 in
      (
        ground (arith, lookup-put id id tile c.tiles, str_ord.cmp_self id),
        refl,
        λ token checked later. heartbeat_revoked id token checked later c' revoked,
      )

  heartbeat_accepts :
      (node_id token : String) (checked seen : ℕ) (c : Coordinator) (payload : Fields)
      (tile : NodeTile)
      → verify_join_token h encoding token (mesh_secret c) c.revocation_store checked ≡ some payload
      → get "node_id" payload ≡ str node_id
      → lookup node_id c.tiles ≡ some tile
      → receive_heartbeat h encoding amounts node_id token checked seen c ≡ (
        true,
        record c { tiles = put node_id (record tile { last_seen = seen; status = up }) c.tiles },
      )
  unfolding receive_heartbeat
  heartbeat_accepts node_id token checked seen c payload tile verified named here =
      let same : is_text node_id (get "node_id" payload) ≡ true =
        rw named (ground (arith, str_ord.cmp_self node_id)) in
      rw (verified, same, here, receive_heartbeat) refl

  -- The heartbeat of a node with the token that it got when it joined is accepted until the token
  -- expires, if the node is not revoked, and leaves its tile UP and seen at that time; base64 is
  -- read back and has no dot, and the payload's JSON is read back as an object with the same node
  -- and expiry.
  pub join-heartbeat :
      (hw : NodeHardware) (issued seen checked later : ℕ) (c : Coordinator) (payload : Fields)
      → IsBase64 h encoding
      → encoding.loads (h.canonical_json (obj (token_fields h hw c.token_ttl issued)))
        ≡ some (obj payload)
      → get_or "expires_at" (int 0) payload ≡ int (issued + c.token_ttl)
      → get "node_id" payload ≡ str (node_id_of h hw)
      → checked ≤ issued + c.token_ttl
      → is_revoked (node_id_of h hw) c ≡ false
      → let (tile, c') = join_node h encoding amounts hw issued seen c in
        (c'' : Coordinator) × (receive_heartbeat h encoding amounts
            (node_id_of h hw)
            tile.token
            checked
            later
            c'
          ≡ (true, c''))
        × (lookup (node_id_of h hw) c''.tiles
            ≡ some (record tile { last_seen = later; status = up }))
  unfolding join_node is_revoked
  join-heartbeat hw issued seen checked later c payload base64 loaded at_expiry named early free =
      let id = node_id_of h hw in
      let tile = new_tile h encoding amounts hw issued seen c in
      let c' = (join_node h encoding amounts hw issued seen c).1 in
      let tile' = record tile { last_seen = later; status = up } in
      (
        record c' { tiles = put id tile' c'.tiles },
        heartbeat_accepts id tile.token checked later c' payload tile
            (verify-issue h encoding hw (mesh_secret c) c.token_ttl issued checked
              c.revocation_store payload base64 loaded at_expiry named early free)
            named (ground (arith, lookup-put id id tile c.tiles, str_ord.cmp_self id)),
        ground (arith, lookup-put id id tile' c'.tiles, str_ord.cmp_self id),
      )
