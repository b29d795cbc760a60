-- ===== src/Table/Invariant.antt =====
-- The well-formed tables: `check_invariants` of tests/test_table.py, and the clock.
use vllm_expert_pager.Base.{
  ℕ, ◌<◌, ◌≡◌, ◌⊎◌, refl, none, some, arith, ok, raise, value_error, ltb, false, Bool-cases, inl,
  inr, ℕ_discrete,
}
use vllm_expert_pager.Table.{ExpertTable, init}

pub record Consistent (t : ExpertTable) : Type 0 where
  pub positive : 0 < t.num_slots
  -- `slot_of` and `expert_in` are inverses of each other
  pub forward :
      (e s : ℕ)
      → e < t.num_experts
      → t.slot_of e ≡ some s
      → (s < t.num_slots) × (t.expert_in s ≡ some e)
  pub backward :
      (s e : ℕ)
      → s < t.num_slots
      → t.expert_in s ≡ some e
      → (e < t.num_experts) × (t.slot_of e ≡ some s)
  -- no slot has been used in the step to come
  pub clock : (s : ℕ) → s < t.num_slots → t.last_used s < t.step

-- No two experts share a slot.
pub slot_of_injective :
    {t : ExpertTable} (c : Consistent t) (e f s : ℕ)
    → e < t.num_experts
    → f < t.num_experts
    → t.slot_of e ≡ some s
    → t.slot_of f ≡ some s
    → e ≡ f
slot_of_injective {t} c e f s le lf he hf =
    let p : t.expert_in s ≡ some e = (c.forward e s le he).1 in
    let q : t.expert_in s ≡ some f = (c.forward f s lf hf).1 in cc

abbrev empty : ℕ → ℕ → ExpertTable
empty E S = record {
  num_experts = E;
  num_slots = S;
  slot_of = λ _. none;
  expert_in = λ _. none;
  last_used = λ _. 0;
  step = 1;
  hits = 0;
  misses = 0;
}

empty-Consistent : (E S : ℕ) → ltb S 1 ≡ false → Consistent (empty E S)
empty-Consistent E S large = record {
  positive = ground arith;
  forward = λ e s lt h. cc;
  backward = λ s e lt h. cc;
  clock = λ s lt. omega arith;
}

-- A table that the constructor makes is consistent.
pub init-Consistent :
    (num_experts num_slots : ℕ) {t : ExpertTable}
    → init num_experts num_slots ≡ ok t
    → Consistent t × (t.num_experts ≡ num_experts) × (t.num_slots ≡ num_slots)
unfolding init
init-Consistent E S {t} h = elim (Bool-cases (ltb S 1)) [
  | inl small ↦ absurd (ground arith)
  | inr large ↦ ground (arith, empty-Consistent E S large)
]

-- `ExpertTable(num_experts, num_slots)` raises ValueError exactly for `num_slots == 0`; otherwise it
-- makes a consistent table of these sizes that caches no expert.
pub init_lem :
    (num_experts num_slots : ℕ)
    → ((num_slots ≡ 0) × (init num_experts num_slots ≡ raise value_error))
      ⊎ ((0 < num_slots)
          × (t : ExpertTable) × (init num_experts num_slots ≡ ok t)
          × Consistent t
          × (t.num_experts ≡ num_experts)
          × (t.num_slots ≡ num_slots)
          × ((e : ℕ) → t.slot_of e ≡ none))
unfolding init
init_lem E S = elim (ℕ_discrete S 0) [
  | yes none_ ↦ inl (none_, ground arith)
  | no some_ ↦
      let large : ltb S 1 ≡ false = ground arith in
      inr (omega arith, empty E S, rw large refl, empty-Consistent E S large, refl, refl, λ e. refl)
]
