-- ===== src/Decode/Tests.antt =====
-- Two decode steps over tiers of two and three slots.
use vllm_expert_pager.Base.{ℕ, ◌+◌, ◌<◌, ◌≤◌, ◌≡◌, refl, Bool, [], ◌∷◌, none, some, arith, map, ltb}
use vllm_expert_pager.Tensor.Put.{store, update, index_fill}
use vllm_expert_pager.Tensor.Count.{count}
use vllm_expert_pager.Tensor.InsertionSort.{insertion_sort, insertion_order, sorted, insert}
use vllm_expert_pager.Table.{ExpertTable, need_mask}
use vllm_expert_pager.Table
use vllm_expert_pager.Table.Invariant.{Consistent, init-Consistent}
use vllm_expert_pager.Kernel.InsertionLanes.{lane_sort}
use vllm_expert_pager.Kernel.Pair.{IsPair, init-IsPair, call-IsPair}
use vllm_expert_pager.Kernel.{
  AcquirePair, routed, need, used, hit, miss, key, packed_key, order, victim, evicted, slot_after,
  slot_of_cleared, slot_of_after, expert_in_after, last_used_after, acquire, init, call,
  bit_length_fuel, bit_length, block_of, fresh_pair,
}
use vllm_expert_pager.Decode.{
  Slabs, put_entry, put_list, listed, read_rows, first_gather, second_gather, forward_decode,
}
use vllm_expert_pager.Decode.Truth.{decode-stays_true, decode-sees_weights}

decoding : Unit {0}
unfolding routed need used hit miss key packed_key order victim evicted slot_after slot_of_cleared
    slot_of_after expert_in_after last_used_after acquire init call bit_length_fuel bit_length
    block_of fresh_pair store update index_fill count insertion_order sorted insert Table.init
    put_entry put_list listed read_rows first_gather second_gather forward_decode need_mask
decoding = tt

abbrev tier : ℕ → ExpertTable
tier S = record {
  num_experts = 5;
  num_slots = S;
  slot_of = λ _. none;
  expert_in = λ _. none;
  last_used = λ _. 0;
  step = 1;
  hits = 0;
  misses = 0;
}

tier-Consistent : (S : ℕ) → 1 ≤ S → Consistent (tier S)
unfolding decoding
tier-Consistent S pos = (init-Consistent 5 S (ground arith)).0

abbrev pair : AcquirePair
pair = fresh_pair (tier 2) (tier 3)

abbrev empty : Slabs
empty = record { rows = λ _. none; cache = λ _. none }

-- The first read lands before the second copy.
abbrev landed : ℕ → ℕ → Bool
landed j i = ltb i j

abbrev pair_1 : AcquirePair
pair_1 = call lane_sort pair (some 4 ∷ some 1 ∷ [])

abbrev slabs_1 : Slabs
slabs_1 = forward_decode lane_sort 6 landed pair (some 4 ∷ some 1 ∷ []) empty

abbrev slabs_2 : Slabs
slabs_2 = forward_decode lane_sort 6 landed pair_1 (some 0 ∷ none ∷ []) slabs_1

two_steps :
    (map slabs_2.cache (0 ∷ 1 ∷ []) ≡ some 0 ∷ some 4 ∷ [])
    × (map slabs_2.rows (6 ∷ 7 ∷ 8 ∷ []) ≡ some 1 ∷ some 4 ∷ some 0 ∷ [])
unfolding decoding
two_steps = (refl, refl)

pair-IsPair : IsPair pair
unfolding decoding
pair-IsPair =
    init-IsPair (tier 2) (tier 3) (tier-Consistent 2 (omega arith))
      (tier-Consistent 3 (omega arith)) (omega arith) (omega arith) refl

pair_1-IsPair : IsPair pair_1
unfolding fresh_pair
pair_1-IsPair =
    call-IsPair lane_sort insertion_sort pair (some 4 ∷ some 1 ∷ []) pair-IsPair (omega arith)
      (omega arith) (omega arith)

first_true :
    (e : ℕ)
    → e < 5
    → ((s : ℕ) → pair_1.ram.slot_of e ≡ some s → slabs_1.rows (s + 6) ≡ some e)
      × ((s : ℕ) → pair_1.vram.slot_of e ≡ some s → slabs_1.cache s ≡ some e)
unfolding fresh_pair
first_true e le =
    decode-stays_true lane_sort insertion_sort pair (some 4 ∷ some 1 ∷ []) pair-IsPair (omega arith)
      (omega arith) (omega arith) 6 landed empty (λ f s lf h. absurd (ground arith))
      (λ f s lf h. absurd (ground arith)) e le

decode-stays_true_example :
    ((s : ℕ)
      → (call lane_sort pair_1 (some 0 ∷ none ∷ [])).ram.slot_of 4 ≡ some s
      → slabs_2.rows (s + 6) ≡ some 4)
    × ((s : ℕ)
        → (call lane_sort pair_1 (some 0 ∷ none ∷ [])).vram.slot_of 4 ≡ some s
        → slabs_2.cache s ≡ some 4)
unfolding fresh_pair call acquire
decode-stays_true_example =
    decode-stays_true lane_sort insertion_sort pair_1 (some 0 ∷ none ∷ []) pair_1-IsPair
      (omega arith) (omega arith) (omega arith) 6 landed slabs_1
      (λ f s lf h. (first_true f lf).0 s h) (λ f s lf h. (first_true f lf).1 s h) 4 (omega arith)

decode-sees_weights_example :
    (s : ℕ) × ((call lane_sort pair_1 (some 0 ∷ none ∷ [])).expert_map 0 ≡ some s)
    × (slabs_2.cache s ≡ some 0)
unfolding fresh_pair call acquire need_mask index_fill update
decode-sees_weights_example =
    decode-sees_weights lane_sort insertion_sort pair_1 (some 0 ∷ none ∷ []) pair_1-IsPair
      (omega arith) (omega arith) (omega arith) 6 landed slabs_1
      (λ f s lf h. (first_true f lf).0 s h) (λ f s lf h. (first_true f lf).1 s h) 0 (omega arith)
      refl
