-- ===== src/Table/Tests.antt =====
-- Runs of the table on small inputs, and the theorems at inputs that meet their hypotheses.
use vllm_expert_pager.Base.{
  ℕ, ◌<◌, ◌≡◌, ◌⊎◌, ok, refl, ◌↔◌, true, [], ◌∷◌, none, some, arith, is_some, raise, value_error,
  map, ℕ_discrete, ◌+◌, ◌≤◌,
}
use vllm_expert_pager.Tensor.Put.{update, index_put, index_fill}
use vllm_expert_pager.Tensor.Count.{count}
use vllm_expert_pager.Tensor.Argsort.{Before}
use vllm_expert_pager.Tensor.InsertionSort.{insertion_sort, insertion_order, sorted, insert}
use vllm_expert_pager.Table.Invariant.{Consistent, init-Consistent, init_lem}
use vllm_expert_pager.Table.Acquire.{
  acquire-Consistent, acquire-serves, acquire-keeps_hits, acquire-leaves_rest, expert_map_iff,
}
use vllm_expert_pager.Table.Order.{acquire-takes_oldest}
use vllm_expert_pager.Table.Todo.{Lists, pack-Lists, acquire-todo, acquire-counts}
use vllm_expert_pager.Table.{
  ExpertTable, init, need_mask, pack, packed, hit, miss, slot_used, key, victim, slot_after,
  slot_of_cleared, slot_of_after, expert_in_after, last_used_after, acquire,
}

program : Unit {0}
unfolding init need_mask pack packed hit miss slot_used key victim slot_after slot_of_cleared
    slot_of_after expert_in_after last_used_after acquire update index_put index_fill count
    insertion_order sorted insert
program = tt

abbrev fresh : ExpertTable
fresh = record {
  num_experts = 5;
  num_slots = 2;
  slot_of = λ _. none;
  expert_in = λ _. none;
  last_used = λ _. 0;
  step = 1;
  hits = 0;
  misses = 0;
}

-- test_acquire_evicts_least_recently_used
abbrev one_step : ExpertTable
one_step = (acquire insertion_sort fresh (some 0 ∷ some 3 ∷ [])).table

abbrev two_steps : ExpertTable
two_steps = (acquire insertion_sort one_step (some 0 ∷ none ∷ [])).table

abbrev three_steps : ExpertTable
three_steps = (acquire insertion_sort two_steps (some 2 ∷ [])).table

evicts_least_recent :
    (map three_steps.slot_of (0 ∷ 1 ∷ 2 ∷ 3 ∷ []) ≡ some 0 ∷ none ∷ some 1 ∷ none ∷ [])
    × (three_steps.hits ≡ 1)
    × (three_steps.misses ≡ 3)
unfolding program
evicts_least_recent = (refl, refl, refl)

init-zero : init 5 0 ≡ raise value_error
unfolding program
init-zero = refl

packs :
    map
      (pack fresh (λ e. elim (ℕ_discrete e 3) [ yes _ ↦ true | no _ ↦ is_some (fresh.slot_of e) ]))
      (0 ∷ 1 ∷ [])
    ≡ some 3 ∷ none ∷ []
unfolding program ℕ_discrete
packs = refl

init_lem_example :
    (((◌≡◌ {A = ℕ} 2 0)) × (init 5 2 ≡ raise value_error))
    ⊎ ((0 < 2)
        × (t : ExpertTable) × (init 5 2 ≡ ok t)
        × Consistent t
        × (t.num_experts ≡ 5)
        × (t.num_slots ≡ 2)
        × ((e : ℕ) → t.slot_of e ≡ none))
init_lem_example = init_lem 5 2

start-Consistent : Consistent fresh
unfolding program
start-Consistent = (init-Consistent 5 2 refl).0

acquire-Consistent_example : Consistent one_step
acquire-Consistent_example =
    acquire-Consistent insertion_sort fresh (some 0 ∷ some 3 ∷ []) start-Consistent (omega arith)
      (omega arith)

one_step-Consistent : Consistent one_step
one_step-Consistent =
    acquire-Consistent insertion_sort fresh (some 0 ∷ some 3 ∷ []) start-Consistent (omega arith)
      (omega arith)

two_steps-Consistent : Consistent two_steps
unfolding acquire
two_steps-Consistent =
    acquire-Consistent insertion_sort one_step (some 0 ∷ none ∷ []) one_step-Consistent
      (omega arith) (omega arith)

acquire-serves_example :
    (s : ℕ) × (s < 2)
    × ((acquire insertion_sort two_steps (some 2 ∷ [])).expert_map 2 ≡ some s)
    × ((acquire insertion_sort two_steps (some 2 ∷ [])).slot 2 ≡ some s)
    × (three_steps.slot_of 2 ≡ some s)
    × (three_steps.expert_in s ≡ some 2)
    × (three_steps.last_used s ≡ 3)
unfolding program
acquire-serves_example =
    acquire-serves insertion_sort two_steps (some 2 ∷ []) two_steps-Consistent (omega arith)
      (omega arith) 2 (omega arith) refl

acquire-keeps_hits_example :
    (two_steps.slot_of 0 ≡ some 0)
    × (two_steps.expert_in 0 ≡ some 0)
    × ((acquire insertion_sort one_step (some 0 ∷ none ∷ [])).expert_map 0 ≡ some 0)
unfolding program
acquire-keeps_hits_example =
    acquire-keeps_hits insertion_sort one_step (some 0 ∷ none ∷ []) one_step-Consistent
      (omega arith) (omega arith) 0 0 (omega arith) refl refl

expert_map_iff_example :
    ((acquire insertion_sort two_steps (some 2 ∷ [])).expert_map 2 ≡ some 1)
    ↔ ((need_mask two_steps (some 2 ∷ []) 2 ≡ true) × (three_steps.slot_of 2 ≡ some 1))
unfolding acquire
expert_map_iff_example =
    expert_map_iff insertion_sort two_steps (some 2 ∷ []) two_steps-Consistent (omega arith)
      (omega arith) 2 1 (omega arith)

acquire-takes_oldest_example : Before two_steps.last_used 1 0
unfolding program
acquire-takes_oldest_example =
    acquire-takes_oldest insertion_sort two_steps (some 2 ∷ []) two_steps-Consistent (omega arith)
      (omega arith) 2 1 0 (omega arith) refl (omega arith) refl (omega arith) refl
      (λ e h. ground arith)

pack-Lists_example :
    Lists 5 (λ e. is_some (fresh.slot_of e)) 5 (pack fresh (λ e. is_some (fresh.slot_of e)))
pack-Lists_example = pack-Lists fresh (λ e. is_some (fresh.slot_of e))

acquire-todo_example :
    Lists 5
      (miss fresh (some 0 ∷ some 3 ∷ []))
      2
      (acquire insertion_sort fresh (some 0 ∷ some 3 ∷ [])).todo
acquire-todo_example = acquire-todo insertion_sort fresh (some 0 ∷ some 3 ∷ [])

acquire-counts_example :
    (one_step.misses
      ≡ 0 + count (λ j. is_some ((acquire insertion_sort fresh (some 0 ∷ some 3 ∷ [])).todo j)) 2)
    × (one_step.hits
          + count (λ j. is_some ((acquire insertion_sort fresh (some 0 ∷ some 3 ∷ [])).todo j)) 2
        ≡ 0 + count (need_mask fresh (some 0 ∷ some 3 ∷ [])) 5)
    × (count (need_mask fresh (some 0 ∷ some 3 ∷ [])) 5 ≤ 2)
acquire-counts_example = acquire-counts insertion_sort fresh (some 0 ∷ some 3 ∷ [])

acquire-leaves_rest_example : (two_steps.slot_of 0 ≡ some 0) × (three_steps.last_used 0 ≡ 2)
unfolding program
acquire-leaves_rest_example =
    acquire-leaves_rest insertion_sort two_steps (some 2 ∷ []) two_steps-Consistent (omega arith)
      (omega arith) 0 0 (omega arith) refl refl
