-- ===== src/Seed/Brought.antt =====
-- The experts that `seed` brings into the RAM tier.

use vllm_expert_pager.Base.{
  ℕ, zero, suc, ◌+◌, ◌≤◌, ◌<◌, ◌≡◌, sym, ap, ◌∙◌, ◌≢◌, ◌⊎◌, inl, inr, Bool, true, false, List, [],
  ◌∷◌, Option, none, some, arith, ltb, is_some, Bool-cases, Option-cases, ℕ_discrete,
}
use vllm_expert_pager.Tensor.Put.{index_fill, update}
use vllm_expert_pager.Tensor.Argsort.{Argsort}
use vllm_expert_pager.Table.{ExpertTable, ids, acquire, need_mask, protect}
use vllm_expert_pager.Table.Invariant.{Consistent}
use vllm_expert_pager.Table.Acquire.{acquire-leaves_rest}
use vllm_expert_pager.Seed.Ranking.{TopK}
use vllm_expert_pager.Seed.Tiers.{tabulate-need, top-fits, first-valid, first-young, second-fits}
use vllm_expert_pager.Seed.{
  counts, index_add, places, ranked, top, after_top, staged, vram_experts, seed,
}

-- What is counted is needed, and the reverse.
counted-needed :
    (l : List ℕ) (e : ℕ) → 0 < index_add l (λ _. 0) e → index_fill l true (λ _. false) e ≡ true
unfolding index_add index_fill update
counted-needed [] e h = absurd (omega arith)
counted-needed (i ∷ is) e h = ground (arith, counted-needed is e)

needed-counted :
    (l : List ℕ) (e : ℕ) → index_fill l true (λ _. false) e ≡ true → 0 < index_add l (λ _. 0) e
unfolding index_add index_fill update
needed-counted [] e h = absurd (ground arith)
needed-counted (i ∷ is) e h = ground (arith, needed-counted is e)

-- Whether a list of indices names one.
find_index :
    (n : ℕ) (f : ℕ → ℕ) (x : ℕ) → ((j : ℕ) × (j < n) × (f j ≡ x)) ⊎ ((j : ℕ) → j < n → f j ≢ x)
find_index zero f x = inr (λ j lt _. elim lt [ ])
find_index (suc n) f x = elim (ℕ_discrete (f n) x) [
  | yes q ↦ inl (n, omega arith, q)
  | no other ↦ elim (find_index n f x) [
    | inl (j, lj, q) ↦ inl (j, omega arith, q)
    | inr out ↦ inr (λ j lt q. elim (ℕ_discrete j n) [
      | yes e ↦ other (ap f (sym e) ∙ q)
      | no ne ↦ out j (omega arith) q
    ])
  ]
]

module _ (sort : Argsort) (topk : TopK) (ram vram : ExpertTable) (topk_ids : List (Option ℕ))
    (c : Consistent ram) (tiers : vram.num_slots ≤ ram.num_slots) (young : ram.step + 1 ≤ protect)
    (roomy : ram.num_slots ≤ ram.num_experts) where
  abbrev needed : ℕ → Bool
  needed = need_mask ram topk_ids

  abbrev best : ℕ
  best = ranked topk ram vram topk_ids 0

  abbrev first : ExpertTable
  first = after_top sort topk ram vram topk_ids

  abbrev second : List (Option ℕ)
  second = vram_experts sort topk ram vram topk_ids needed

  referenced : (e : ℕ) → 0 < counts topk ram vram topk_ids e → needed e ≡ true
  unfolding counts need_mask
  referenced e h = counted-needed (ids ram topk_ids) e h

  -- No count exceeds the first one.
  best-greatest :
      (x : ℕ)
      → x < ram.num_experts
      → counts topk ram vram topk_ids x ≤ counts topk ram vram topk_ids best
  unfolding ranked
  best-greatest x lx =
      let room : places topk ram vram topk_ids ≤ ram.num_experts = ground arith in
      let some_place : 0 < places topk ram vram topk_ids = ground arith in
      elim (find_index (places topk ram vram topk_ids) (ranked topk ram vram topk_ids) x) [
        | inr out ↦
            topk.greatest ram.num_experts (counts topk ram vram topk_ids)
              (places topk ram vram topk_ids) x 0 room lx out some_place
        | inl (zero, lj, q) ↦ ground (arith, ap (counts topk ram vram topk_ids) q)
        | inl (suc j, lj, q) ↦
            let d =
              topk.descending ram.num_experts (counts topk ram vram topk_ids)
                (places topk ram vram topk_ids) 0 (suc j) room (omega arith) lj in
            ground (arith, ap (counts topk ram vram topk_ids) q, d)
      ]

  -- The first of the most referenced experts is referenced, if one is.
  best-needed : (x : ℕ) → x < ram.num_experts → needed x ≡ true → needed best ≡ true
  unfolding counts need_mask
  best-needed x lx nx =
      counted-needed (ids ram topk_ids) best
        (omega (arith, needed-counted (ids ram topk_ids) x nx, best-greatest x lx))

  -- An expert of `top` is needed.
  top-needed :
      needed best ≡ true
      → (f : ℕ) → f < ram.num_experts
      → need_mask ram (top topk ram vram topk_ids) f ≡ true
      → needed f ≡ true
  unfolding top need_mask
  top-needed nb f lf h =
      let (j, lj, q) = tabulate-need ram.num_experts (places topk ram vram topk_ids) _ f lf h in
      elim (Bool-cases (ltb 0 (counts topk ram vram topk_ids (ranked topk ram vram topk_ids j)))) [
        | inl more ↦
            let who : ranked topk ram vram topk_ids j ≡ f = ground arith in
            ap needed (sym who) ∙ referenced (ranked topk ram vram topk_ids j) (ground arith)
        | inr none_ ↦ let who : best ≡ f = ground arith in ap needed (sym who) ∙ nb
      ]

  -- What the first acquisition brings in is needed.
  first-brings_needed :
      needed best ≡ true
      → (f q : ℕ) → f < ram.num_experts
      → first.slot_of f ≡ some q
      → ram.slot_of f ≡ none
      → needed f ≡ true
  unfolding after_top
  first-brings_needed nb f q lf held out = elim (Bool-cases (ltb vram.num_slots ram.num_slots)) [
    | inr same ↦ absurd (ground arith)
    | inl more ↦ elim (Bool-cases (need_mask ram (top topk ram vram topk_ids) f)) [
      | inl in_top ↦ top-needed nb f lf in_top
      | inr idle ↦ absurd (
          ground (
            arith,
            (acquire-leaves_rest sort ram (top topk ram vram topk_ids) c
                (top-fits sort topk ram vram topk_ids needed c tiers young more) (omega arith) f q
                lf idle (ground arith)).0,
          ))
    ]
  ]

  -- What the second acquisition names is needed, unless it was there.
  second-brings_needed :
      needed best ≡ true
      → (f : ℕ) → f < ram.num_experts
      → need_mask first second f ≡ true
      → ram.slot_of f ≡ none
      → needed f ≡ true
  unfolding vram_experts need_mask staged
  second-brings_needed nb f lf named out =
      let (j, lj, q) =
        tabulate-need first.num_experts vram.num_slots _ f
          (omega (arith, (first-valid sort topk ram vram topk_ids needed c tiers young).1)) named in
      elim (Bool-cases (staged sort topk ram vram topk_ids needed j)) [
        | inr out_of ↦ let who : best ≡ f = ground arith in ap needed (sym who) ∙ nb
        | inl ok ↦ elim (Bool-cases (needed f)) [
          | inl nf ↦ nf
          | inr not_needed ↦
              let in_vram : vram.expert_in j ≡ some f = ground arith in
              elim (Option-cases (first.slot_of f)) [
                | inl gone ↦ absurd (ground arith)
                | inr (r, held) ↦ first-brings_needed nb f r lf held out
              ]
        ]
      ]

  -- An expert that `seed` brings into the RAM tier's table is needed in the step, if the step
  -- references any expert: a row is then read for it. This needs a consistent table with no more
  -- slots than experts and no fewer than the VRAM tier, and steps below `_PROTECT`.
  pub seed-brings_needed :
      (x : ℕ)
      → x < ram.num_experts
      → need_mask ram topk_ids x ≡ true
      → (f : ℕ) → f < ram.num_experts
      → is_some ((seed sort topk ram vram topk_ids (need_mask ram topk_ids)).slot_of f) ≡ true
      → ram.slot_of f ≡ none
      → need_mask ram topk_ids f ≡ true
  unfolding seed
  seed-brings_needed x lx nx f lf held out =
      let (valid, same_experts, _, _) =
        first-valid sort topk ram vram topk_ids needed c tiers young in
      elim (Option-cases ((acquire sort first second).table.slot_of f)) [
        | inl q ↦ absurd (ground arith)
        | inr (q, here) ↦ elim (Bool-cases (need_mask first second f)) [
          | inl named ↦ second-brings_needed (best-needed x lx nx) f lf named out
          | inr idle ↦
              first-brings_needed (best-needed x lx nx) f q lf
                (acquire-leaves_rest sort first second valid
                  (second-fits sort topk ram vram topk_ids needed c tiers young)
                  (first-young sort topk ram vram topk_ids needed c tiers young) f q (omega arith)
                  idle here).0
                out
        ]
      ]
