-- ===== src/Seed/Tiers.antt =====
-- What `seed` leaves of the VRAM tier's experts in the RAM tier's table.

use vllm_expert_pager.Base.{
  ℕ, zero, suc, ◌+◌, ◌≤◌, ◌<◌, ◌≡◌, refl, ◌≢◌, ◌⊎◌, inl, inr, Bool, true, false, List, Option, some,
  arith, length, ltb, is_some, tabulate, length-tabulate, Bool-cases, map, ℕ_discrete,
}
use vllm_expert_pager.Tensor.Put.{index_fill, update}
use vllm_expert_pager.Tensor.Argsort.{Argsort}
use vllm_expert_pager.Table.{ExpertTable, at, acquire, need_mask, protect}
use vllm_expert_pager.Table.Invariant.{Consistent}
use vllm_expert_pager.Table.Acquire.{acquire-Consistent, acquire-serves, acquire-leaves_rest}
use vllm_expert_pager.Seed.Ranking.{TopK}
use vllm_expert_pager.Seed.{ranked, top, after_top, staged, vram_experts, seed}

-- An entry of the list of ids is needed.
pub need-tabulate :
    (E n : ℕ) (f : ℕ → Option ℕ) (j e : ℕ)
    → j < n
    → f j ≡ some e
    → index_fill (map (at E) (tabulate n f)) true (λ _. false) e ≡ true
unfolding index_fill update tabulate
need-tabulate E zero f j e lt h = elim lt [ ]
need-tabulate E (suc n) f zero e lt h = ground arith
need-tabulate E (suc n) f (suc j) e lt h =
    ground (arith, need-tabulate E n (λ i. f (suc i)) j e (omega arith) h)

-- What is needed is an entry of the list.
pub tabulate-need :
    (E n : ℕ) (f : ℕ → Option ℕ) (e : ℕ)
    → e < E
    → index_fill (map (at E) (tabulate n f)) true (λ _. false) e ≡ true
    → (j : ℕ) × (j < n) × (f j ≡ some e)
unfolding index_fill update tabulate
tabulate-need E zero f e le h = absurd (ground arith)
tabulate-need E (suc n) f e le h = elim (ℕ_discrete (at E (f 0)) e) [
  | yes q ↦ (0, omega arith, ground arith)
  | no ne ↦
      let (j, lt, q) = tabulate-need E n (λ i. f (suc i)) e le (ground arith) in
      (suc j, omega arith, q)
]

module _ (sort : Argsort) (topk : TopK) (ram vram : ExpertTable) (topk_ids : List (Option ℕ))
    (need : ℕ → Bool) (c : Consistent ram) (tiers : vram.num_slots ≤ ram.num_slots)
    (young : ram.step + 1 ≤ protect) where
  abbrev first : ExpertTable
  first = after_top sort topk ram vram topk_ids

  abbrev second : List (Option ℕ)
  second = vram_experts sort topk ram vram topk_ids need

  pub top-fits :
      ltb vram.num_slots ram.num_slots ≡ true → length (top topk ram vram topk_ids) ≤ ram.num_slots
  unfolding top
  top-fits more = rw length-tabulate (ground arith)

  -- The first acquisition leaves a well-formed table with the same experts and slots.
  pub first-valid :
      Consistent first
      × (first.num_experts ≡ ram.num_experts)
      × (first.num_slots ≡ ram.num_slots)
      × (first.step ≤ ram.step + 1)
  unfolding after_top acquire
  first-valid = elim (Bool-cases (ltb vram.num_slots ram.num_slots)) [
    | inl more ↦ rw more (
      acquire-Consistent sort ram (top topk ram vram topk_ids) c (top-fits more) (omega arith),
      refl,
      refl,
      omega arith,
    )
    | inr same ↦ rw same (c, refl, refl, omega arith)
  ]

  pub second-fits : length second ≤ first.num_slots
  unfolding vram_experts
  second-fits = rw length-tabulate (omega (arith, first-valid.2))

  pub first-young : first.step ≤ protect
  first-young = omega (arith, first-valid.3)

  -- `seed` keeps the RAM tier's table well formed.
  pub seed-Consistent : Consistent (seed sort topk ram vram topk_ids need)
  unfolding seed
  seed-Consistent =
      let v = acquire-Consistent sort first second first-valid.0 second-fits first-young in
      record { positive = v.positive; forward = v.forward; backward = v.backward; clock = v.clock }

  seed_newest :
      (u : ℕ) → u < ram.num_slots → (acquire sort first second).table.last_used u ≤ first.step
  unfolding acquire
  seed_newest u lu =
      let v = acquire-Consistent sort first second first-valid.0 second-fits first-young in
      omega (arith, v.clock u (omega (arith, first-valid.2)))

  -- A VRAM expert that is still in the RAM tier, or that the step references, is among the ids.
  staged-needed :
      (s e : ℕ)
      → s < vram.num_slots
      → vram.expert_in s ≡ some e
      → (is_some (first.slot_of e) ≡ true) ⊎ (need e ≡ true)
      → need_mask first second e ≡ true
  unfolding vram_experts staged need_mask
  staged-needed s e ls held or_needed =
      need-tabulate first.num_experts vram.num_slots _ s e ls (ground arith)

  -- Every expert of the VRAM tier that is in the RAM tier after the first acquisition, or that the
  -- step references, ends in the RAM tier, with a stamp that no other slot exceeds.
  pub staged-covered :
      (s e : ℕ)
      → s < vram.num_slots
      → e < ram.num_experts
      → vram.expert_in s ≡ some e
      → (is_some (first.slot_of e) ≡ true) ⊎ (need e ≡ true)
      → let q = seed sort topk ram vram topk_ids need in
        (r : ℕ) × (r < ram.num_slots)
        × (q.slot_of e ≡ some r)
        × (q.expert_in r ≡ some e)
        × ((u : ℕ) → u < ram.num_slots → q.last_used u ≤ q.last_used r)
  unfolding seed
  staged-covered s e ls le held or_needed =
      let (r, lr, _, _, here, there, stamp) =
        acquire-serves sort first second first-valid.0 second-fits first-young e
          (omega (arith, first-valid.1)) (staged-needed s e ls held or_needed) in
      (r, omega (arith, first-valid.2), here, there, λ u lu. omega (arith, seed_newest u lu, stamp))

  pub unstaged-unneeded :
      (f : ℕ)
      → f < ram.num_experts
      → f ≢ ranked topk ram vram topk_ids 0
      → ((s : ℕ)
          → s < vram.num_slots
          → staged sort topk ram vram topk_ids need s ≡ true
          → vram.expert_in s ≢ some f)
      → need_mask first second f ≡ false
  unfolding vram_experts need_mask
  unstaged-unneeded f lf apart unstaged = elim (Bool-cases (need_mask first second f)) [
    | inr out ↦ out
    | inl ne ↦
        let (j, lj, q) =
          tabulate-need first.num_experts vram.num_slots _ f (omega (arith, first-valid.1)) ne in
        elim (Bool-cases (staged sort topk ram vram topk_ids need j)) [
          | inl st ↦ absurd (unstaged j lj st (ground arith))
          | inr un ↦ absurd (ground arith)
        ]
  ]

  -- The experts of the VRAM tier are newer than all the others that the RAM tier then holds, but for
  -- the most referenced one: the decode steps that follow evict those others first.
  pub seed-vram_newer :
      (s e f u : ℕ)
      → s < vram.num_slots
      → e < ram.num_experts
      → vram.expert_in s ≡ some e
      → (is_some (first.slot_of e) ≡ true) ⊎ (need e ≡ true)
      → f < ram.num_experts
      → f ≢ ranked topk ram vram topk_ids 0
      → ((x : ℕ)
          → x < vram.num_slots
          → staged sort topk ram vram topk_ids need x ≡ true
          → vram.expert_in x ≢ some f)
      → (seed sort topk ram vram topk_ids need).slot_of f ≡ some u
      → let q = seed sort topk ram vram topk_ids need in
        (r : ℕ) × (q.slot_of e ≡ some r) × (q.last_used u < q.last_used r)
  unfolding seed
  seed-vram_newer s e f u ls le held or_needed lf apart unstaged here_f =
      let (r, lr, _, _, here, there, stamp) =
        acquire-serves sort first second first-valid.0 second-fits first-young e
          (omega (arith, first-valid.1)) (staged-needed s e ls held or_needed) in
      let lf' : f < first.num_experts = omega (arith, first-valid.1) in
      let (was, kept) =
        acquire-leaves_rest sort first second first-valid.0 second-fits first-young f u lf'
          (unstaged-unneeded f lf apart unstaged) here_f in
      let old = first-valid.0.clock u (first-valid.0.forward f u lf' was).0 in
      (r, here, omega (arith, stamp, kept, old))
