-- ===== src/Seed/Covers.antt =====
-- Which experts of the VRAM tier are in the RAM tier after `seed`: `ExpertTable.seed` of
-- src/vllm_expert_pager/table.py.
use vllm_expert_pager.Base.{
  ℕ, ◌+◌, ◌≤◌, ◌<◌, ◌≡◌, ◌≢◌, ◌⊎◌, inl, inr, Bool, true, false, List, Option, none, some, arith,
  ltb, is_some, Bool-cases, Option-cases,
}
use vllm_expert_pager.Tensor.Argsort.{Argsort}
use vllm_expert_pager.Table.{ExpertTable, acquire, need_mask, protect}
use vllm_expert_pager.Table.Invariant.{Consistent}
use vllm_expert_pager.Table.Acquire.{acquire-serves, acquire-evicts, acquire-leaves_rest}
use vllm_expert_pager.Seed.Ranking.{TopK}
use vllm_expert_pager.Seed.Tiers.{
  need-tabulate, top-fits, first-valid, first-young, second-fits, staged-covered, unstaged-unneeded,
}
use vllm_expert_pager.Seed.{places, ranked, top, after_top, staged, vram_experts, seed}

module _ (sort : Argsort) (topk : TopK) (ram vram : ExpertTable) (topk_ids : List (Option ℕ))
    (need : ℕ → Bool) (c : Consistent ram) (tiers : vram.num_slots ≤ ram.num_slots)
    (young : ram.step + 1 ≤ protect) where
  abbrev first : ExpertTable
  first = after_top sort topk ram vram topk_ids

  abbrev second : List (Option ℕ)
  second = vram_experts sort topk ram vram topk_ids need

  -- The RAM tier has the expert, and no slot is newer.
  abbrev pub Newest : ExpertTable → ℕ → Type 0
  Newest q e =
      (r : ℕ) × (r < ram.num_slots)
      × (q.slot_of e ≡ some r)
      × (q.expert_in r ≡ some e)
      × ((u : ℕ) → u < ram.num_slots → q.last_used u ≤ q.last_used r)

  -- The RAM tier has not the expert: its slot went to an expert that the tier had not, one of the most
  -- referenced.
  abbrev pub Displaced : ExpertTable → ℕ → Type 0
  Displaced q e =
      (q.slot_of e ≡ none)
      × (need e ≡ false)
      × (vram.num_slots < ram.num_slots)
      × (r : ℕ) × (ram.slot_of e ≡ some r)
      × (f : ℕ) × (f < ram.num_experts)
      × (need_mask ram (top topk ram vram topk_ids) f ≡ true)
      × (ram.slot_of f ≡ none)
      × (first.expert_in r ≡ some f)

  best-in_first :
      ltb vram.num_slots ram.num_slots ≡ true
      → (e : ℕ) → e < ram.num_experts
      → first.slot_of e ≡ none
      → e ≢ ranked topk ram vram topk_ids 0
  unfolding after_top top need_mask
  best-in_first more e le gone q =
      let named : need_mask ram (top topk ram vram topk_ids) e ≡ true =
        need-tabulate ram.num_experts (places topk ram vram topk_ids) _ 0 e (omega arith)
          (ground arith) in
      let (r, _, _, _, here, _, _) =
        acquire-serves sort ram (top topk ram vram topk_ids) c
          (top-fits sort topk ram vram topk_ids need c tiers young more) (omega arith) e le named in
      ground arith

  stays_out :
      (e : ℕ)
      → e < ram.num_experts
      → ltb vram.num_slots ram.num_slots ≡ true
      → first.slot_of e ≡ none
      → need e ≡ false
      → (seed sort topk ram vram topk_ids need).slot_of e ≡ none
  unfolding seed staged
  stays_out e le more gone out =
      let idle : need_mask first second e ≡ false =
        unstaged-unneeded sort topk ram vram topk_ids need c tiers young e le
          (best-in_first more e le gone) (λ s ls st held. ground arith) in
      elim (Option-cases ((acquire sort first second).table.slot_of e)) [
        | inl absent ↦ absent
        | inr (q, held) ↦ absurd (
            ground (
              arith,
              (acquire-leaves_rest sort first second
                  (first-valid sort topk ram vram topk_ids need c tiers young).0
                  (second-fits sort topk ram vram topk_ids need c tiers young)
                  (first-young sort topk ram vram topk_ids need c tiers young) e q
                  (omega (arith, (first-valid sort topk ram vram topk_ids need c tiers young).1))
                  idle held).0,
            ))
      ]

  displaced :
      (e r : ℕ)
      → e < ram.num_experts
      → ram.slot_of e ≡ some r
      → first.slot_of e ≡ none
      → need e ≡ false
      → Displaced (seed sort topk ram vram topk_ids need) e
  unfolding after_top
  displaced e r le here gone out = elim (Bool-cases (ltb vram.num_slots ram.num_slots)) [
    | inr same ↦ absurd (ground arith)
    | inl more ↦
        let (f, lf, named, absent, taken) =
          acquire-evicts sort ram (top topk ram vram topk_ids) c
            (top-fits sort topk ram vram topk_ids need c tiers young more) (omega arith) e r le here
            (ground arith) in
        (
          stays_out e le more gone out,
          out,
          ground arith,
          r,
          here,
          f,
          lf,
          named,
          absent,
          ground arith,
        )
  ]

  -- A VRAM expert that the RAM tier has before `seed`, or that the step references, ends in the RAM
  -- tier with a stamp that no slot exceeds, or is displaced: it is not referenced, the RAM tier has
  -- more slots, and a most referenced expert that the tier had not took its slot. The RAM tier's table
  -- is consistent, it has no fewer slots than the VRAM tier, and the step is below the protection.
  pub seed-covers_vram :
      (s e : ℕ)
      → s < vram.num_slots
      → e < ram.num_experts
      → vram.expert_in s ≡ some e
      → (is_some (ram.slot_of e) ≡ true) ⊎ (need e ≡ true)
      → Newest (seed sort topk ram vram topk_ids need) e
        ⊎ Displaced (seed sort topk ram vram topk_ids need) e
  seed-covers_vram s e ls le held had = elim (Bool-cases (need e)) [
    | inl ne ↦
        inl (staged-covered sort topk ram vram topk_ids need c tiers young s e ls le held (inr ne))
    | inr out ↦ elim (Option-cases (first.slot_of e)) [
      | inr (q, here) ↦ inl (
          staged-covered sort topk ram vram topk_ids need c tiers young s e ls le held
            (inl (ground arith)))
      | inl gone ↦ elim (Option-cases (ram.slot_of e)) [
        | inr (r, here) ↦ inr (displaced e r le here gone out)
        | inl never ↦ absurd (ground arith)
      ]
    ]
  ]
