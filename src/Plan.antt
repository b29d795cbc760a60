-- ===== src/Plan.antt =====
-- src/vllm_expert_pager/table.py: `ExpertTable.plan_chunks`, which splits a prefill's experts into
-- chunks of the working slab. A position, like the other entries, is `none` for -1, with what torch's
-- `%` and `//` give for it.
pub mod Layout
mod Tests
use vllm_expert_pager.Base.{
  ℕ, zero, suc, ◌+◌, ◌-◌, ◌*◌, ◌/◌, ◌%◌, Bool, true, false, not, ◌&&◌, ◌||◌, Option, none, some,
  ltb, if◌then◌else◌, is_some, same,
}
use vllm_expert_pager.Tensor.Put.{index_put}
use vllm_expert_pager.Tensor.Count.{count}
use vllm_expert_pager.Table.{ExpertTable, clamp, at}

-- `x - 1`
abbrev pub minus_one : ℕ → Option ℕ
minus_one zero = none
minus_one (suc n) = some n

-- `pos % w`
abbrev pub mod_of : ℕ → Option ℕ → ℕ
mod_of w none = w - 1
mod_of w (some p) = p % w

-- `pos // w`
abbrev pub div_of : ℕ → Option ℕ → Option ℕ
div_of w none = none
div_of w (some p) = some (p / w)

-- `pos // w % 2`
abbrev pub face_of : ℕ → Option ℕ → ℕ
face_of w p = mod_of 2 (div_of w p)

pub record Plan : Type 0 where
  pub dst_row : ℕ → ℕ
  pub src_row : ℕ → ℕ
  pub maps : ℕ → ℕ → Option ℕ
  pub todo : ℕ → Option ℕ
  pub ssd : ℕ → Option ℕ
  pub late : ℕ → Option ℕ

module _ (t : ExpertTable) (before : ℕ → Option ℕ) (need : ℕ → Bool) (rows : ℕ) where
  -- `N`
  unfoldable pub chunks : ℕ
  chunks = (t.num_experts + rows - 1) / rows + 1

  -- The old slot is still usable: unchanged, or evicted.
  unfoldable pub old_ok : ℕ → Bool
  old_ok e = is_some (before e) && (not (is_some (t.slot_of e)) || same (t.slot_of e) (before e))

  unfoldable pub ssd : ℕ → Bool
  ssd e = not (old_ok e) && (need e || is_some (before e))

  unfoldable pub first : ℕ → Bool
  first e = need e && not (ssd e)

  unfoldable pub boundary : ℕ
  boundary = (count first t.num_experts + rows - 1) / rows * rows

  unfoldable pub pos : ℕ → Option ℕ
  pos e =
      if first e then minus_one (count first (suc e)) else minus_one (boundary + count ssd (suc e))

  unfoldable pub dst_row : ℕ → ℕ
  dst_row e = mod_of rows (pos e)

  unfoldable pub chunk : ℕ → Option ℕ
  chunk e = if need e then div_of rows (pos e) else none

  unfoldable pub maps : ℕ → ℕ → Option ℕ
  maps k e = if same (chunk e) (some k) then some (dst_row e) else none

  unfoldable pub listing : (ℕ → Bool) → ℕ → Option ℕ
  listing mask =
      index_put t.num_experts (λ e. if mask e then at (chunks * rows) (pos e) else chunks * rows)
        (λ e. some e) (λ _. none)

  module _ (ram_base working_base : ℕ) where
    unfoldable pub shared : ℕ → ℕ
    shared e = working_base + face_of rows (pos e) * rows + dst_row e

    unfoldable pub src_row : ℕ → ℕ
    src_row e =
        if old_ok e
        then clamp (before e) + ram_base
        else (if is_some (t.slot_of e) then clamp (t.slot_of e) + ram_base else shared e)

    module _ (cached_row : ℕ → Option ℕ) where
      unfoldable pub in_todo : ℕ → Bool
      in_todo e = need e && (not (ssd e) || is_some (cached_row e))

      unfoldable pub in_late : ℕ → Bool
      in_late e = need e && ssd e && not (is_some (cached_row e))

      unfoldable pub plan_chunks : Plan
      plan_chunks = record {
        dst_row = dst_row;
        src_row = src_row;
        maps = maps;
        todo = listing in_todo;
        ssd = listing ssd;
        late = listing in_late;
      }
