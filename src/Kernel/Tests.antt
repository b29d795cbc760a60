-- ===== src/Kernel/Tests.antt =====
-- Runs of the kernel on small inputs, and the theorems at inputs that meet their hypotheses.
use Prim.Native.Nat.{max}
use vllm_expert_pager.Base.{
  ℕ, ◌<◌, ◌≤◌, ◌≡◌, refl, true, [], ◌∷◌, none, some, arith, map, raise, value_error, ◌*◌, ◌⊎◌, ◌≢◌,
  ok,
}
use vllm_expert_pager.Tensor.Put.{store, update, index_fill}
use vllm_expert_pager.Tensor.Count.{count}
use vllm_expert_pager.Tensor.InsertionSort.{insertion_sort, insertion_order, sorted, insert}
use vllm_expert_pager.Table
use vllm_expert_pager.Table.{ExpertTable, need_mask}
use vllm_expert_pager.Table.Invariant.{Consistent, init-Consistent}
use vllm_expert_pager.Kernel.InsertionLanes.{lane_sort}
use vllm_expert_pager.Kernel.Widths.{block_of_bounds}
use vllm_expert_pager.Kernel.Equivalence.{Matches, acquire-Matches}
use vllm_expert_pager.Kernel.Pair.{IsPair, init-IsPair, init-accepts, call-IsPair, call-serves}
use vllm_expert_pager.Kernel.{
  AcquirePair, routed, need, used, hit, miss, key, packed_key, order, victim, evicted, slot_after,
  slot_of_cleared, slot_of_after, expert_in_after, last_used_after, acquire, init, call,
  bit_length_fuel, bit_length, block_of, fresh_pair,
}

program : Unit {0}
unfolding routed need used hit miss key packed_key order victim evicted slot_after slot_of_cleared
    slot_of_after expert_in_after last_used_after acquire init call bit_length_fuel bit_length
    block_of fresh_pair store update index_fill count insertion_order sorted insert Table.init
program = tt

abbrev table_of : ℕ → ℕ → ExpertTable
table_of E S = record {
  num_experts = E;
  num_slots = S;
  slot_of = λ _. none;
  expert_in = λ _. none;
  last_used = λ _. 0;
  step = 1;
  hits = 0;
  misses = 0;
}

abbrev pair : AcquirePair
pair = fresh_pair (table_of 5 2) (table_of 5 3)

abbrev pair_1 : AcquirePair
pair_1 = call lane_sort pair (some 4 ∷ some 1 ∷ [])

abbrev pair_2 : AcquirePair
pair_2 = call lane_sort pair_1 (some 0 ∷ none ∷ [])

two_decodes :
    (map pair_2.expert_map (0 ∷ 1 ∷ 4 ∷ []) ≡ some 0 ∷ none ∷ none ∷ [])
    × (map pair_2.ram.slot_of (0 ∷ 1 ∷ 4 ∷ []) ≡ some 2 ∷ some 0 ∷ some 1 ∷ [])
    × (map pair_2.vram_todo (0 ∷ 1 ∷ []) ≡ some 0 ∷ none ∷ [])
unfolding program
two_decodes = (refl, refl, refl)

valid : (E S : ℕ) → 1 ≤ S → Consistent (table_of E S)
unfolding Table.init
valid E S pos = (init-Consistent E S (ground arith)).0

too_many_slots : init (table_of 600 2) (table_of 600 513) ≡ raise value_error
unfolding program
too_many_slots = refl

block_of_bounds_example : (5 ≤ block_of 5) × (block_of 5 < 2 * 5)
block_of_bounds_example = block_of_bounds 5 (omega arith)

acquire-Matches_example :
    Matches 5 2 2 true
      (λ _. none)
      (acquire lane_sort 8 4
        (table_of 5 2)
        (some 4 ∷ some 1 ∷ [])
        true
        (λ _. none)
        (λ _. none)
        (λ _. none))
      (Table.acquire insertion_sort (table_of 5 2) (some 4 ∷ some 1 ∷ []))
acquire-Matches_example =
    acquire-Matches lane_sort insertion_sort 8 4 (table_of 5 2) (some 4 ∷ some 1 ∷ [])
      (valid 5 2 (omega arith)) (omega arith) (omega arith) (omega arith) (omega arith) true
      (λ _. none) (λ _. none) (λ _. none) (omega arith)

init-accepts_example :
    ((◌≡◌ {A = ℕ} 5 5)
      × (max 2 3 ≤ 512)
      × (p : AcquirePair) × (init (table_of 5 2) (table_of 5 3) ≡ ok p)
      × (p.vram ≡ table_of 5 2)
      × (p.ram ≡ table_of 5 3)
      × (5 ≤ p.block_e)
      × (2 ≤ p.block_s)
      × (3 ≤ p.block_s)
      × (p.block_s ≤ 512))
    ⊎ (((◌≢◌ {A = ℕ} 5 5) ⊎ (512 < max 2 3))
        × (init (table_of 5 2) (table_of 5 3) ≡ raise value_error))
init-accepts_example = init-accepts (table_of 5 2) (table_of 5 3) (omega arith)

pair_valid : IsPair pair
unfolding program
pair_valid =
    init-IsPair (table_of 5 2) (table_of 5 3) (valid 5 2 (omega arith)) (valid 5 3 (omega arith))
      (omega arith) (omega arith) refl

call-IsPair_example : IsPair pair_1
unfolding fresh_pair
call-IsPair_example =
    call-IsPair lane_sort insertion_sort pair (some 4 ∷ some 1 ∷ []) pair_valid (omega arith)
      (omega arith) (omega arith)

pair_1_valid : IsPair pair_1
unfolding fresh_pair
pair_1_valid =
    call-IsPair lane_sort insertion_sort pair (some 4 ∷ some 1 ∷ []) pair_valid (omega arith)
      (omega arith) (omega arith)

call-serves_example :
    (s : ℕ) × (r : ℕ) × (s < 2)
    × (pair_2.expert_map 0 ≡ some s)
    × (pair_2.vram_slot 0 ≡ some s)
    × (pair_2.vram.expert_in s ≡ some 0)
    × (r < 3)
    × (pair_2.ram_slot 0 ≡ some r)
    × (pair_2.ram.expert_in r ≡ some 0)
unfolding program need_mask
call-serves_example =
    call-serves lane_sort insertion_sort pair_1 (some 0 ∷ none ∷ []) pair_1_valid (omega arith)
      (omega arith) (omega arith) 0 (omega arith) refl
