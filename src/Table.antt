-- ===== src/Table.antt =====
-- src/vllm_expert_pager/table.py: `ExpertTable`, the expert-to-slot table of one layer and one tier.
-- Numbers are unbounded here; a step stays below `_PROTECT` in the theorems that need it. A tensor is
-- a function of the index.
pub mod Victim
pub mod Update
pub mod Acquire
pub mod Order
pub mod Todo
mod Tests
pub mod Invariant
use vllm_expert_pager.Base.{
  ℕ, suc, ◌+◌, ◌-◌, ◌^◌, Bool, true, false, not, ◌&&◌, List, map, Option, none, some, length, ltb,
  if◌then◌else◌, is_some, Result, ok, raise, value_error,
}
use Prim.Native.Nat.{min}
use vllm_expert_pager.Tensor.Put.{index_put, index_fill}
use vllm_expert_pager.Tensor.Count.{count}
use vllm_expert_pager.Tensor.Argsort.{Argsort}

abbrev pub protect : ℕ
protect = 2 ^ 40

-- Every tensor has one element more than its name says, the sink, at `num_experts` or `num_slots`.
pub record ExpertTable : Type 0 where
  pub num_experts : ℕ
  pub num_slots : ℕ
  pub slot_of : ℕ → Option ℕ  -- expert to slot; -1 means not cached
  pub expert_in : ℕ → Option ℕ  -- slot to expert; -1 means free
  pub last_used : ℕ → ℕ
  pub step : ℕ
  pub hits : ℕ
  pub misses : ℕ

unfoldable pub init : ℕ → ℕ → Result ExpertTable
init num_experts num_slots =
    if ltb num_slots 1
    then raise value_error
    else ok (record {
      num_experts = num_experts;
      num_slots = num_slots;
      slot_of = λ _. none;
      expert_in = λ _. none;
      last_used = λ _. 0;
      step = 1;
      hits = 0;
      misses = 0;
    })

-- `x.clamp(min=0)`
abbrev pub clamp : Option ℕ → ℕ
clamp none = 0
clamp (some i) = i

-- Where torch reads or writes for an index into a tensor whose last index is `n`: -1 is the last.
abbrev pub at : ℕ → Option ℕ → ℕ
at n none = n
at n (some i) = i

-- `_ids`: a routed id of -1 goes to the sink.
abbrev pub ids : ExpertTable → List (Option ℕ) → List ℕ
ids t = map (at t.num_experts)

unfoldable pub need_mask : ExpertTable → List (Option ℕ) → ℕ → Bool
need_mask t topk_ids = index_fill (ids t topk_ids) true (λ _. false)

-- `cumsum(mask, 0) - 1`. Where no entry is set so far this is 0 for the code's -1, which the code
-- clamps to 0 or does not read.
abbrev pub rank_in : (ℕ → Bool) → ℕ → ℕ
rank_in mask e = count mask (suc e) - 1

-- The entries set in `mask`, packed from the front of a tensor whose sink is `n`.
unfoldable pub packed : ℕ → (ℕ → Bool) → ℕ → ℕ → Option ℕ
packed num_experts mask n =
    index_put num_experts (λ e. if mask e then rank_in mask e else n) (λ e. some e) (λ _. none)

unfoldable pub pack : ExpertTable → (ℕ → Bool) → ℕ → Option ℕ
unfolding packed
pack t mask = packed t.num_experts mask t.num_experts

pub record Acquired : Type 0 where
  pub table : ExpertTable
  pub expert_map : ℕ → Option ℕ
  pub slot : ℕ → Option ℕ
  pub todo : ℕ → Option ℕ

-- The steps of `acquire`, in its own names.
module _ (t : ExpertTable) (topk_ids : List (Option ℕ)) where
  unfoldable pub hit : ℕ → Bool
  hit e = need_mask t topk_ids e && is_some (t.slot_of e)

  unfoldable pub miss : ℕ → Bool
  miss e = need_mask t topk_ids e && not (is_some (t.slot_of e))

  unfoldable pub slot_used : ℕ → Bool
  slot_used s = is_some (t.expert_in s) && hit (clamp (t.expert_in s))

  unfoldable pub key : ℕ → ℕ
  key s = t.last_used s + (if slot_used s then protect else 0)

module _ (sort : Argsort) (t : ExpertTable) (topk_ids : List (Option ℕ)) where
  unfoldable pub victim : ℕ → ℕ
  victim e =
      sort.order t.num_slots (key t topk_ids) (min (rank_in (miss t topk_ids) e) (t.num_slots - 1))

  unfoldable pub slot_after : ℕ → Option ℕ
  slot_after e = if miss t topk_ids e then some (victim e) else t.slot_of e

  unfoldable pub slot_of_cleared : ℕ → Option ℕ
  slot_of_cleared =
      index_put t.num_experts
        (λ e.
          if miss t topk_ids e && is_some (t.expert_in (victim e))
          then clamp (t.expert_in (victim e))
          else t.num_experts)
        (λ _. none) t.slot_of

  unfoldable pub slot_of_after : ℕ → Option ℕ
  slot_of_after =
      index_put t.num_experts (λ e. if miss t topk_ids e then e else t.num_experts)
        (λ e. some (victim e)) slot_of_cleared

  unfoldable pub expert_in_after : ℕ → Option ℕ
  expert_in_after =
      index_put t.num_experts (λ e. if miss t topk_ids e then victim e else t.num_slots)
        (λ e. some e) t.expert_in

  unfoldable pub last_used_after : ℕ → ℕ
  last_used_after =
      index_put t.num_experts
        (λ e. if need_mask t topk_ids e then at t.num_slots (slot_after e) else t.num_slots)
        (λ _. t.step) t.last_used

  unfoldable pub acquire : Acquired
  acquire = record {
    table = record t {
      slot_of = slot_of_after;
      expert_in = expert_in_after;
      last_used = last_used_after;
      step = t.step + 1;
      hits = t.hits + count (hit t topk_ids) t.num_experts;
      misses = t.misses + count (miss t topk_ids) t.num_experts;
    };
    expert_map = λ e. if need_mask t topk_ids e then slot_after e else none;
    slot = slot_after;
    todo = packed t.num_experts (miss t topk_ids) (length topk_ids);
  }
