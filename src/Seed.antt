-- ===== src/Seed.antt =====
-- src/vllm_expert_pager/table.py: `ExpertTable.seed`, which updates the RAM tier's table from the
-- routing of a prefill that does not fit in it.
pub mod Ranking
pub mod Tiers
pub mod Covers
pub mod InsertionTopk
pub mod Brought
mod Tests
use Prim.Native.Nat.{max}
use vllm_expert_pager.Base.{
  ℕ, zero, suc, ◌+◌, ◌-◌, Bool, true, false, ◌&&◌, ◌||◌, List, [], ◌∷◌, Option, none, some, ltb,
  ◌==◌, if◌then◌else◌, is_some, tabulate,
}
use vllm_expert_pager.Tensor.Argsort.{Argsort}
use vllm_expert_pager.Table.{ExpertTable, ids, clamp, acquire}
use Ranking.{TopK}

-- `t.index_add_(0, idx, ones)`
unfoldable pub index_add : List ℕ → (ℕ → ℕ) → ℕ → ℕ
index_add [] t j = t j
index_add (i ∷ is) t j = let rest = index_add is t j in if i == j then rest + 1 else rest

module _ (topk : TopK) (ram vram : ExpertTable) (topk_ids : List (Option ℕ)) where
  -- How often each expert is referenced.
  unfoldable pub counts : ℕ → ℕ
  unfolding index_add
  counts = index_add (ids ram topk_ids) (λ _. 0)

  -- `max(R - S, 1)`
  abbrev pub places : ℕ
  places = max (ram.num_slots - vram.num_slots) 1

  unfoldable pub ranked : ℕ → ℕ
  ranked = topk.largest ram.num_experts counts places

  -- The most referenced experts, the first in place of those that no id names.
  unfoldable pub top : List (Option ℕ)
  unfolding tabulate
  top = tabulate places (λ j. some (if ltb 0 (counts (ranked j)) then ranked j else ranked 0))

module _ (sort : Argsort) (topk : TopK) (ram vram : ExpertTable) (topk_ids : List (Option ℕ)) where
  -- The table after the first of the two acquisitions.
  unfoldable pub after_top : ExpertTable
  after_top =
      if ltb vram.num_slots ram.num_slots
      then (acquire sort ram (top topk ram vram topk_ids)).table
      else ram

  module _ (need : ℕ → Bool) where
    -- Whether the expert in a VRAM slot has a RAM row, or will have one read.
    unfoldable pub staged : ℕ → Bool
    staged s =
        is_some (vram.expert_in s)
        && (is_some (after_top.slot_of (clamp (vram.expert_in s)))
            || need (clamp (vram.expert_in s)))

    unfoldable pub vram_experts : List (Option ℕ)
    unfolding tabulate
    vram_experts =
        tabulate vram.num_slots
          (λ s. if staged s then vram.expert_in s else some (ranked topk ram vram topk_ids 0))

    unfoldable pub seed : ExpertTable
    seed = record (acquire sort after_top vram_experts).table {
      hits = ram.hits;
      misses = ram.misses;
    }
