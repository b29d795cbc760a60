-- ===== src/Kernel.antt =====
-- src/vllm_expert_pager/acquire.py: the Triton kernel that updates both tables of a layer in one
-- launch. A vector register is a function of the lane; `BLOCK_E` and `BLOCK_S` lanes run in step, so
-- every load of a phase comes before its stores, as the barriers of the source have it.
pub mod Sort
pub mod InsertionLanes
mod Positions
mod Masks
pub mod Equivalence
mod Widths
pub mod Pair
mod Tests
use Prim.Native.Nat.{min, max}
use vllm_expert_pager.Base.{
  ℕ, zero, suc, ◌+◌, ◌-◌, ◌*◌, ◌%◌, ◌/◌, ◌^◌, Bool, true, false, not, ◌&&◌, ◌||◌, List, [], ◌∷◌,
  Option, none, some, length, ltb, ◌==◌, if◌then◌else◌, is_some, same, Result, ok, raise,
  value_error,
}
use vllm_expert_pager.Tensor.Put.{store}
use vllm_expert_pager.Tensor.Count.{count}
use vllm_expert_pager.Table.{ExpertTable, protect, clamp, at, rank_in}
use Sort.{TlSort}

-- `_SLOT_BITS`
abbrev pub slot_bits : ℕ
slot_bits = 9

-- The loop over `topk_ptr`: whether an id of the step equals `x`.
unfoldable pub routed : List (Option ℕ) → Option ℕ → Bool
routed [] x = false
routed (k ∷ ks) x = routed ks x || same x k

-- What one program of the kernel writes.
pub record Outputs : Type 0 where
  pub table : ExpertTable
  pub map : ℕ → Option ℕ
  pub slot : ℕ → Option ℕ
  pub todo : ℕ → Option ℕ

module _ (t : ExpertTable) (topk : List (Option ℕ)) where
  unfoldable pub need : ℕ → Bool
  unfolding routed
  need e = routed topk (some e) && ltb e t.num_experts

  unfoldable pub used : ℕ → Bool
  unfolding routed
  used s = routed topk (t.expert_in s) && is_some (t.expert_in s)

  unfoldable pub hit : ℕ → Bool
  hit e = need e && is_some (t.slot_of e)

  unfoldable pub miss : ℕ → Bool
  miss e = need e && not (is_some (t.slot_of e))

  -- The sort key of a slot; the padding lanes go last.
  unfoldable pub key : ℕ → ℕ
  key s = if ltb s t.num_slots then t.last_used s + (if used s then protect else 0) else 2 * protect

  -- `(key << _SLOT_BITS) | s`: the low bits are clear before, so the `|` is a sum.
  unfoldable pub packed_key : ℕ → ℕ
  packed_key s = key s * 2 ^ slot_bits + s

module _ (sort : TlSort) (block_e block_s : ℕ) (t : ExpertTable) (topk : List (Option ℕ)) where
  -- `tl.sort(...) & ((1 << _SLOT_BITS) - 1)`
  unfoldable pub order : ℕ → ℕ
  order i = packed_key t topk (sort.source block_s (packed_key t topk) i) % 2 ^ slot_bits

  unfoldable pub victim : ℕ → ℕ
  victim e = order (min (rank_in (miss t topk) e) (t.num_slots - 1))

  unfoldable pub evicted : ℕ → Option ℕ
  evicted e = t.expert_in (victim e)

  unfoldable pub slot_after : ℕ → Option ℕ
  slot_after e = if miss t topk e then some (victim e) else t.slot_of e

  unfoldable pub slot_of_cleared : ℕ → Option ℕ
  slot_of_cleared =
      store block_e (λ e. clamp (evicted e)) (λ _. none) (λ e. miss t topk e && is_some (evicted e))
        t.slot_of

  unfoldable pub slot_of_after : ℕ → Option ℕ
  slot_of_after = store block_e (λ e. e) (λ e. some (victim e)) (miss t topk) slot_of_cleared

  unfoldable pub expert_in_after : ℕ → Option ℕ
  expert_in_after = store block_e victim (λ e. some e) (miss t topk) t.expert_in

  unfoldable pub last_used_after : ℕ → ℕ
  last_used_after =
      store block_e (λ e. clamp (slot_after e)) (λ _. t.step) (need t topk) t.last_used

  -- `_acquire`, over the buffers that it overwrites; `write_map` is `WRITE_MAP`.
  unfoldable pub acquire : (write_map : Bool) (map slot todo : ℕ → Option ℕ) → Outputs
  acquire write_map map slot todo = record {
    table = record t {
      slot_of = slot_of_after;
      expert_in = expert_in_after;
      last_used = last_used_after;
      step = t.step + 1;
      hits = t.hits + count (hit t topk) block_e;
      misses = t.misses + count (miss t topk) block_e;
    };
    map =
        store block_e (λ e. e) (λ e. if need t topk e then slot_after e else none)
          (λ e. write_map && ltb e t.num_experts) map;
    slot = store block_e (λ e. e) slot_after (λ e. ltb e t.num_experts) slot;
    todo =
        store block_e (rank_in (miss t topk)) (λ e. some e) (miss t topk)
          (store block_e (λ e. e) (λ _. none) (λ e. ltb e (length topk)) todo);
  }

-- `int.bit_length`
unfoldable pub bit_length_fuel : ℕ → ℕ → ℕ
bit_length_fuel zero n = 0
bit_length_fuel (suc f) n = let rest = bit_length_fuel f (n / 2) in if n == 0 then 0 else suc rest

unfoldable pub bit_length : ℕ → ℕ
unfolding bit_length_fuel
bit_length n = bit_length_fuel n n

-- `1 << (n - 1).bit_length()`; the bit length of -1 is 1.
unfoldable pub block_of : ℕ → ℕ
unfolding bit_length
block_of n = if n == 0 then 2 else 2 ^ bit_length (n - 1)

-- `AcquirePair`: the two tables and the buffers at fixed addresses.
pub record AcquirePair : Type 0 where
  pub vram : ExpertTable
  pub ram : ExpertTable
  pub block_e : ℕ
  pub block_s : ℕ
  pub expert_map : ℕ → Option ℕ
  pub vram_slot : ℕ → Option ℕ
  pub ram_slot : ℕ → Option ℕ
  pub vram_todo : ℕ → Option ℕ
  pub ram_todo : ℕ → Option ℕ

unfoldable pub fresh_pair : ExpertTable → ExpertTable → AcquirePair
fresh_pair vram ram = record {
  vram = vram;
  ram = ram;
  block_e = block_of vram.num_experts;
  block_s = block_of (max vram.num_slots ram.num_slots);
  expert_map = λ _. none;
  vram_slot = λ _. some 0;
  ram_slot = λ _. some 0;
  vram_todo = λ _. none;
  ram_todo = λ _. none;
}

unfoldable pub init : ExpertTable → ExpertTable → Result AcquirePair
unfolding fresh_pair
init vram ram =
    if not (vram.num_experts == ram.num_experts)
    then raise value_error
    else if ltb (2 ^ slot_bits) (block_of (max vram.num_slots ram.num_slots))
    then raise value_error
    else ok (fresh_pair vram ram)

-- `_acquire_pair_kernel`: program 0 updates the VRAM table and writes the map, program 1 the RAM
-- table.
abbrev pub acquire_pair_kernel : TlSort → AcquirePair → List (Option ℕ) → Outputs × Outputs
acquire_pair_kernel sort p topk =
    let a =
      acquire sort p.block_e p.block_s p.vram topk true p.expert_map p.vram_slot p.vram_todo in
    (a, acquire sort p.block_e p.block_s p.ram topk false a.map p.ram_slot p.ram_todo)

-- `__call__`
unfoldable pub call : TlSort → AcquirePair → List (Option ℕ) → AcquirePair
call sort p topk =
    let (a, b) = acquire_pair_kernel sort p topk in
    record p {
      vram = a.table;
      ram = b.table;
      expert_map = b.map;
      vram_slot = a.slot;
      ram_slot = b.slot;
      vram_todo = a.todo;
      ram_todo = b.todo;
    }
