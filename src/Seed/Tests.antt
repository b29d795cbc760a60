-- ===== src/Seed/Tests.antt =====
-- The seed of a RAM tier of three slots over a VRAM tier of one, from a prefill of six ids.
use vllm_expert_pager.Base.{
  ℕ, ◌≤◌, ◌<◌, ◌≡◌, ◌⊎◌, refl, inl, Bool, true, List, [], ◌∷◌, Option, none, some, arith, map,
  if◌then◌else◌, ◌==◌, tabulate,
}
use vllm_expert_pager.Tensor.Put.{update, index_put, index_fill}
use vllm_expert_pager.Tensor.Count.{count}
use vllm_expert_pager.Tensor.InsertionSort.{insertion_sort, insertion_order, sorted, insert}
use vllm_expert_pager.Table.{
  ExpertTable, need_mask, packed, hit, miss, slot_used, key, victim, slot_after, slot_of_cleared,
  slot_of_after, expert_in_after, last_used_after, acquire,
}
use vllm_expert_pager.Table.Invariant.{Consistent}
use vllm_expert_pager.Seed.InsertionTopk.{
  insertion_topk, insertion_largest, descending_key, ceiling,
}
use vllm_expert_pager.Seed.Tiers.{seed-Consistent, seed-vram_newer}
use vllm_expert_pager.Seed.Covers.{Displaced, seed-covers_vram}
use vllm_expert_pager.Seed.Brought.{seed-brings_needed}
use vllm_expert_pager.Seed.{index_add, counts, ranked, top, after_top, staged, vram_experts, seed}

seeding : Unit {0}
unfolding index_add counts ranked top after_top staged vram_experts seed insertion_largest
    descending_key ceiling tabulate need_mask packed hit miss slot_used key victim slot_after
    slot_of_cleared slot_of_after expert_in_after last_used_after acquire update index_put
    index_fill count insertion_order sorted insert
seeding = tt

abbrev ram : ExpertTable
ram = record {
  num_experts = 5;
  num_slots = 3;
  slot_of = λ e. if e == 2 then some 0 else none;
  expert_in = λ s. if s == 0 then some 2 else none;
  last_used = λ s. if s == 0 then 1 else 0;
  step = 2;
  hits = 7;
  misses = 1;
}

abbrev vram : ExpertTable
vram = record {
  num_experts = 5;
  num_slots = 1;
  slot_of = λ e. if e == 2 then some 0 else none;
  expert_in = λ s. if s == 0 then some 2 else none;
  last_used = λ s. if s == 0 then 1 else 0;
  step = 2;
  hits = 0;
  misses = 0;
}

abbrev routing : List (Option ℕ)
routing = some 4 ∷ some 1 ∷ some 4 ∷ some 0 ∷ some 1 ∷ some 4 ∷ []

abbrev needed : ℕ → Bool
needed = need_mask ram routing

seeded :
    (map (seed insertion_sort insertion_topk ram vram routing needed).slot_of (0 ∷ 1 ∷ 2 ∷ 4 ∷ [])
      ≡ none ∷ some 1 ∷ some 0 ∷ some 2 ∷ [])
    × ((seed insertion_sort insertion_topk ram vram routing needed).hits ≡ 7)
unfolding seeding
seeded = (refl, refl)

ram-Consistent : Consistent ram
ram-Consistent = record {
  positive = omega arith;
  forward = λ e s lt h. ground arith;
  backward = λ s e lt h. ground arith;
  clock = λ s lt. ground arith;
}

seed-Consistent_example : Consistent (seed insertion_sort insertion_topk ram vram routing needed)
seed-Consistent_example =
    seed-Consistent insertion_sort insertion_topk ram vram routing needed ram-Consistent
      (omega arith) (omega arith)

seed-covers_vram_example :
    let q = seed insertion_sort insertion_topk ram vram routing needed in
    ((r : ℕ) × (r < 3)
      × (q.slot_of 2 ≡ some r)
      × (q.expert_in r ≡ some 2)
      × ((u : ℕ) → u < 3 → q.last_used u ≤ q.last_used r))
    ⊎ Displaced insertion_sort insertion_topk ram vram routing needed ram-Consistent
        (omega arith)
        (omega arith)
        q
        2
seed-covers_vram_example =
    seed-covers_vram insertion_sort insertion_topk ram vram routing needed ram-Consistent
      (omega arith) (omega arith) 0 2 (omega arith) (omega arith) refl (inl refl)

-- Both tiers have expert 2, which is not referenced; with two slots in the RAM tier and both in use,
-- expert 0 takes its slot, since it is the oldest, and expert 2 is not in the RAM tier after `seed`.
abbrev full_ram : ExpertTable
full_ram = record {
  num_experts = 5;
  num_slots = 2;
  slot_of = λ e. if e == 2 then some 0 else (if e == 3 then some 1 else none);
  expert_in = λ s. if s == 0 then some 2 else (if s == 1 then some 3 else none);
  last_used = λ s. if s == 0 then 1 else 2;
  step = 3;
  hits = 0;
  misses = 0;
}

displaced_run :
    let q =
      seed insertion_sort insertion_topk full_ram vram
        (some 0 ∷ some 0 ∷ some 1 ∷ [])
        (need_mask full_ram (some 0 ∷ some 0 ∷ some 1 ∷ [])) in
    (map full_ram.slot_of (0 ∷ 2 ∷ 3 ∷ []) ≡ none ∷ some 0 ∷ some 1 ∷ [])
    × (map q.slot_of (0 ∷ 2 ∷ 3 ∷ []) ≡ some 0 ∷ none ∷ some 1 ∷ [])
unfolding seeding
displaced_run = (refl, refl)

seed-brings_needed_example : need_mask ram routing 1 ≡ true
unfolding seeding
seed-brings_needed_example =
    seed-brings_needed insertion_sort insertion_topk ram vram routing ram-Consistent (omega arith)
      (omega arith) (omega arith) 4 (omega arith) refl 1 (omega arith) refl refl

seed-vram_newer_example :
    let q = seed insertion_sort insertion_topk ram vram routing needed in
    (r : ℕ) × (q.slot_of 2 ≡ some r) × (q.last_used 1 < q.last_used r)
unfolding seeding
seed-vram_newer_example =
    seed-vram_newer insertion_sort insertion_topk ram vram routing needed ram-Consistent
      (omega arith) (omega arith) 0 2 1 1 (omega arith) (omega arith) refl (inl refl) (omega arith)
      (λ q. omega (arith, q)) (λ x lt st q. ground arith) refl
