-- ===== src/Prefill/Tests.antt =====
-- The prefill of ids 3 and 2 with a RAM tier of two slots that holds 0 and 3, of which 3 is in VRAM
-- too, in chunks of two rows.
use vllm_expert_pager.Base.{
  ℕ, ◌+◌, ◌<◌, ◌≡◌, refl, Bool, true, false, List, [], ◌∷◌, Option, none, some, arith, is_some,
  if◌then◌else◌, ◌==◌, tabulate,
}
use vllm_expert_pager.Tensor.Put.{update, index_put, index_fill}
use vllm_expert_pager.Tensor.Count.{count}
use vllm_expert_pager.Tensor.InsertionSort.{insertion_sort, insertion_order, sorted, insert}
use vllm_expert_pager.Table.{
  ExpertTable, need_mask, packed, hit, miss, slot_used, key, victim, slot_after, slot_of_cleared,
  slot_of_after, expert_in_after, last_used_after, acquire,
}
use vllm_expert_pager.Table.Invariant.{Consistent}
use vllm_expert_pager.Plan.{
  chunks, old_ok, ssd, first, boundary, pos, dst_row, chunk, maps, listing, shared, src_row,
  in_todo, in_late, plan_chunks,
}
use vllm_expert_pager.Seed.{index_add, counts, ranked, top, after_top, staged, vram_experts, seed}
use vllm_expert_pager.Seed.InsertionTopk.{
  insertion_topk, insertion_largest, descending_key, ceiling,
}
use vllm_expert_pager.Prefill.{
  State, running, finished, Program, source, copy_entry, copy, publish, mentions, here, next,
  publish_first, copy_todo, publish_next, wait, copy_late, slice, issue, waiting,
}
use vllm_expert_pager.Fetch.{any_expert}
use vllm_expert_pager.Prefill.Rows.{Setting}
use vllm_expert_pager.Prefill.Invariant.{program}
use vllm_expert_pager.Prefill.Truth.{begin, Reaches, run-sees_weights, finished-truthful}
use vllm_expert_pager.Prefill.Ending.{finished_from}
use vllm_expert_pager.Prefill.Acquiring
use vllm_expert_pager.Prefill.Seeding

prefill : Unit {0}
unfolding chunks old_ok ssd first boundary pos dst_row chunk maps listing shared src_row in_todo
    in_late plan_chunks update index_put count need_mask packed hit miss slot_used key victim
    slot_after slot_of_cleared slot_of_after expert_in_after last_used_after acquire index_fill
    insertion_order sorted insert source copy_entry copy publish issue any_expert mentions index_add
    counts ranked top after_top staged vram_experts seed insertion_largest descending_key ceiling
    tabulate
prefill = tt

abbrev ram : ExpertTable
ram = record {
  num_experts = 5;
  num_slots = 2;
  slot_of = λ e. if e == 0 then some 0 else (if e == 3 then some 1 else none);
  expert_in = λ s. if s == 0 then some 0 else (if s == 1 then some 3 else none);
  last_used = λ s. 1;
  step = 2;
  hits = 0;
  misses = 2;
}

abbrev routing : List (Option ℕ)
routing = some 3 ∷ some 2 ∷ []

abbrev rows : ℕ → Option ℕ
rows r = if r == 2 then some 0 else (if r == 3 then some 3 else none)

abbrev cached_row : ℕ → Option ℕ
cached_row e = if e == 3 then some 0 else none

abbrev slab : ℕ → Option ℕ
slab r = if r == 0 then some 3 else none

ram-Consistent : Consistent ram
ram-Consistent = record {
  positive = omega arith;
  forward = λ e s lt h. ground arith;
  backward = λ s e lt h. ground arith;
  clock = λ s lt. ground arith;
}

ram_truthful : (e s : ℕ) → e < 5 → ram.slot_of e ≡ some s → rows (s + 2) ≡ some e
ram_truthful e s lt h = ground arith

vram_truthful : (e c : ℕ) → e < 5 → cached_row e ≡ some c → slab c ≡ some e
vram_truthful e c lt h = ground arith

abbrev after : ExpertTable
after = (acquire insertion_sort ram routing).table

abbrev setting : Setting after ram.slot_of 2 2 6 cached_row slab rows
setting =
    Acquiring.setting insertion_sort ram routing ram-Consistent (omega arith) (omega arith) 2 2 6
      cached_row slab rows (omega arith) (omega arith) ram_truthful vram_truthful

abbrev need : ℕ → Bool
need = need_mask ram routing

abbrev origin : State
origin = begin after ram.slot_of need 2 2 6 cached_row slab rows setting (λ _. none)

abbrev PathTo : State → State → Type 0
PathTo = Reaches after ram.slot_of need 2 2 6 cached_row slab rows setting

abbrev code : Program
code = program after ram.slot_of need 2 2 6 cached_row slab rows

-- Chunk 0 has no read of its own.
abbrev at_run : State
at_run = record {
  rows = rows;
  working =
      copy code rows 2 (slice 2 code.plan.late 0)
        (copy code rows 2 (slice 2 code.plan.todo 0) (λ _. none));
  pending = publish code 1 (publish code 0 (λ _. false));
  tickets = issue code 1 (issue code 0 (λ _. 0));
  pc = running 0;
}

nothing_read :
    any_expert 2 (slice 2 code.plan.ssd 0) ≡ true
    → (j e : ℕ) → j < 2
    → slice 2 code.plan.ssd (at_run.tickets 0) j ≡ some e
    → at_run.pending e ≡ false
unfolding prefill
nothing_read reads = absurd (ground arith)

to_run : PathTo origin at_run
unfolding plan_chunks chunks acquire publish issue
to_run =
    next
      (next
        (next (next (next here (publish_first refl refl)) (copy_todo 0 refl refl))
          (publish_next 0 refl refl))
        (wait 0 refl nothing_read refl))
      (copy_late 0 refl refl)

-- Chunk 1 has a read, that of expert 2.
abbrev at_wait : State
at_wait = record at_run {
  working = copy code rows 2 (slice 2 code.plan.todo 1) at_run.working;
  pending = publish code 2 at_run.pending;
  tickets = issue code 2 at_run.tickets;
  pc = waiting 1;
}

run-sees_weights_example : at_run.working 0 ≡ some 3
unfolding prefill
run-sees_weights_example =
    run-sees_weights after ram.slot_of need 2 2 6 cached_row slab rows setting (λ _. none) at_run
      to_run 0 3 0 refl (omega arith) refl

ended : (v : State) × PathTo origin v × (v.pc ≡ finished)
ended =
    finished_from after ram.slot_of need 2 2 6 cached_row slab rows setting (λ _. none) origin here

came_in : (e : ℕ) → e < 5 → is_some (after.slot_of e) ≡ true → ram.slot_of e ≡ none → need e ≡ true
unfolding acquire
came_in e lt h q =
    Acquiring.brings_needed insertion_sort ram routing ram-Consistent (omega arith) (omega arith) e
      lt h q

finished-truthful_example : ended.0.rows (0 + 2) ≡ some 2
unfolding prefill
finished-truthful_example =
    finished-truthful after ram.slot_of need 2 2 6 cached_row slab rows setting came_in (λ _. none)
      ended.0 ended.1 ended.2 2 0 (omega arith) refl

acquire-stays_true_example : ended.0.rows (0 + 2) ≡ some 2
unfolding prefill
acquire-stays_true_example =
    Acquiring.acquire-stays_true insertion_sort ram routing ram-Consistent (omega arith)
      (omega arith) 2 2 6 cached_row slab rows (omega arith) (omega arith) ram_truthful
      vram_truthful (λ _. none) ended.0 ended.1 ended.2 2 0 (omega arith) refl

-- The same with a seed, from ids that do not fit in the RAM tier.
abbrev many : List (Option ℕ)
many = some 4 ∷ some 1 ∷ some 4 ∷ []

abbrev vram : ExpertTable
vram = record {
  num_experts = 5;
  num_slots = 1;
  slot_of = λ e. if e == 3 then some 0 else none;
  expert_in = λ s. if s == 0 then some 3 else none;
  last_used = λ s. 1;
  step = 2;
  hits = 0;
  misses = 1;
}

abbrev seeded : ExpertTable
seeded =
    Seeding.Seeded insertion_sort insertion_topk ram vram many ram-Consistent (omega arith)
      (omega arith) (omega arith)

abbrev seed_setting : Setting seeded ram.slot_of 2 2 6 cached_row slab rows
seed_setting =
    Seeding.setting insertion_sort insertion_topk ram vram many ram-Consistent (omega arith)
      (omega arith) (omega arith) 2 2 6 cached_row slab rows (omega arith) (omega arith)
      ram_truthful vram_truthful

abbrev seed_origin : State
seed_origin =
    begin seeded ram.slot_of (need_mask ram many) 2 2 6 cached_row slab rows seed_setting
      (λ _. none)

seed_ended :
    (v : State) × Reaches seeded ram.slot_of
      (need_mask ram many)
      2
      2
      6
      cached_row
      slab
      rows
      seed_setting
      seed_origin
      v
    × (v.pc ≡ finished)
seed_ended =
    finished_from seeded ram.slot_of (need_mask ram many) 2 2 6 cached_row slab rows seed_setting
      (λ _. none) seed_origin here

seed-stays_true_example : seed_ended.0.rows (0 + 2) ≡ some 4
unfolding prefill
seed-stays_true_example =
    Seeding.seed-stays_true insertion_sort insertion_topk ram vram many ram-Consistent (omega arith)
      (omega arith) (omega arith) 2 2 6 cached_row slab rows (omega arith) (omega arith)
      ram_truthful vram_truthful 4 (omega arith) refl (λ _. none) seed_ended.0 seed_ended.1
      seed_ended.2 4 0 (omega arith) refl
