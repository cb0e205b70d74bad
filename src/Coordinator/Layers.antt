-- ===== src/Coordinator/Layers.antt =====
-- `assign_layers` (szl_mesh_coordinator.py), over the floats that amounts of memory are.
pub mod Window
pub mod Exact
use szl_mesh.Common.Json.{Json}
use szl_mesh.Common.{
  ℕ, zero, suc, ◌+◌, ◌-◌, min, max, Bool, true, false, List, [], ◌∷◌, if◌then◌else◌, ◌==◌, map,
  take, set, replicate,
}

-- What the source does with amounts of memory, which are finite floats: `shifted w a b` is
-- `w + (a - b)`, `sum` is Python's, and `rounded_share n a b` is `round(n * a / b)`, where a
-- number below zero is read as zero. `of_json` is the number that a JSON value stands for.
pub record Amounts : Type 1 where
  pub F : Type 0
  pub zero : F
  pub add : F → F → F
  pub shifted : F → F → F → F
  pub sum : List F → F
  pub is_less : F → F → Bool
  pub is_zero : F → Bool
  pub rounded_share : ℕ → F → F → ℕ
  pub of_json : Json → F

-- What is read of a registered node.
pub record Registered (F : Type 0) : Type 0 where
  pub vram_gb : F
  pub layer_start : ℕ
  pub layer_end : ℕ

module _ (amounts : Amounts) where
  open amounts use {F, add, shifted, is_less}

  -- `xs[i]`; the source reads within the list.
  abbrev pub at : List F → ℕ → F
  at [] i = amounts.zero
  at (x ∷ xs) zero = x
  at (x ∷ xs) (suc i) = at xs i

  -- `for i in range(start, start + left): coverage[i] += amount`
  unfoldable pub cover_range : ℕ → ℕ → F → List F → List F
  cover_range start zero amount coverage = coverage
  cover_range start (suc left) amount coverage =
      cover_range (start + 1) left amount (set coverage start (add (at coverage start) amount))

  unfoldable pub cover : ℕ → List (Registered F) → List F → List F
  unfolding cover_range
  cover total_layers [] coverage = coverage
  cover total_layers (node ∷ nodes) coverage = cover total_layers nodes (
      cover_range node.layer_start (min node.layer_end total_layers - node.layer_start) node.vram_gb
        coverage)

  abbrev pub coverage_of : ℕ → List (Registered F) → List F
  coverage_of total_layers nodes = cover total_layers nodes (replicate total_layers amounts.zero)

  -- The loop over the starts from `i` on, `left` of them; `window_sum` is the coverage of the
  -- window before. The first of the windows of the least sums is returned.
  unfoldable pub slide : List F → ℕ → ℕ → ℕ → F → ℕ → F → ℕ
  slide coverage n_layers zero i window_sum best_start best_sum = best_start
  slide coverage n_layers (suc left) i window_sum best_start best_sum =
      let window_sum' = shifted window_sum (at coverage (i + n_layers - 1)) (at coverage (i - 1)) in
      elim (is_less window_sum' best_sum) [
        | true ↦ slide coverage n_layers left (i + 1) window_sum' i window_sum'
        | false ↦ slide coverage n_layers left (i + 1) window_sum' best_start best_sum
      ]

  abbrev pub share : ℕ → F → F → ℕ
  share total_layers new_node_vram_gb total_vram =
      min (max 1 (amounts.rounded_share total_layers new_node_vram_gb total_vram)) total_layers

  unfoldable pub assign_layers : ℕ → List (Registered F) → F → ℕ × ℕ
  unfolding cover slide
  assign_layers total_layers nodes new_node_vram_gb =
      let coverage = coverage_of total_layers nodes in
      let total_vram = add (amounts.sum (map (λ n. n.vram_gb) nodes)) new_node_vram_gb in
      if amounts.is_zero total_vram
      then (0, total_layers)
      else (let n_layers = share total_layers new_node_vram_gb total_vram in
          if n_layers == total_layers
          then (0, total_layers)
          else (let window_sum = amounts.sum (take n_layers coverage) in
              let best_start =
                slide coverage n_layers (total_layers - n_layers) 1 window_sum 0 window_sum in
              (best_start, best_start + n_layers)))
