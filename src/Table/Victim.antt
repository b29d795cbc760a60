-- ===== src/Table/Victim.antt =====
-- The slots that `acquire` takes for the misses.
use Prim.Native.Nat.{min}
use vllm_expert_pager.Base.{
  ℕ, suc, ◌+◌, ◌-◌, ◌≤◌, ◌<◌, ◌≡◌, ap, sym, inl, inr, true, false, List, Option, some, arith,
  length, leb, is_some, dec_lt, Bool-cases, Option-cases, ℕ_discrete, ◌∙◌, length-map,
}
use vllm_expert_pager.Tensor.Count.{
  count, count_mono, count-suc, count-injective, count-le_of_injection, count-split,
  count-index_fill-le, count-from,
}
use vllm_expert_pager.Tensor.Argsort.{Argsort, Before}
use vllm_expert_pager.Table.Invariant.{Consistent}
use vllm_expert_pager.Table.{
  ExpertTable, need_mask, hit, miss, slot_used, key, victim, rank_in, protect, clamp, at,
}

-- Positions of the sorted order are distinct.
pub order-injective :
    (sort : Argsort) (n : ℕ) (k : ℕ → ℕ) (i j : ℕ)
    → i < n
    → j < n
    → sort.order n k i ≡ sort.order n k j
    → i ≡ j
order-injective sort n k i j li lj e = elim (dec_lt i j) [
  | yes lt ↦ absurd (apart i j lt lj e)
  | no ge ↦ elim (dec_lt j i) [ yes gt ↦ absurd (apart j i gt li (sym e)) | no le ↦ omega arith ]
]
  where
    apart : (a b : ℕ) → a < b → b < n → sort.order n k a ≡ sort.order n k b → ⊥
    apart a b lt lb q =
        let before : Before k (sort.order n k a) (sort.order n k b) =
          sort.ascending n k a b lt lb in
        let same : k (sort.order n k a) ≡ k (sort.order n k b) = ap k q in ground arith

module _ (t : ExpertTable) (topk_ids : List (Option ℕ)) where
  -- As many experts are needed as hit and miss.
  pub hit-miss-count :
      count (hit t topk_ids) t.num_experts + count (miss t topk_ids) t.num_experts
      ≡ count (need_mask t topk_ids) t.num_experts
  unfolding hit miss
  hit-miss-count = count-split (need_mask t topk_ids) (λ e. is_some (t.slot_of e)) t.num_experts

  pub need_count-le : count (need_mask t topk_ids) t.num_experts ≤ length topk_ids
  unfolding need_mask
  need_count-le =
      omega (arith, count-index_fill-le _ t.num_experts, length-map (at t.num_experts) topk_ids)

  module _ (c : Consistent t) where
    -- A used slot holds a needed expert.
    pub slot_used-expert :
        (s : ℕ)
        → s < t.num_slots
        → slot_used t topk_ids s ≡ true
        → (x : ℕ) × (t.expert_in s ≡ some x)
          × (x < t.num_experts)
          × (t.slot_of x ≡ some s)
          × (hit t topk_ids x ≡ true)
    unfolding slot_used
    slot_used-expert s lt h = elim (Option-cases (t.expert_in s)) [
      | inl e ↦ absurd (ground arith)
      | inr (x, e) ↦ let back = c.backward s x lt e in (x, e, back.0, back.1, ground arith)
    ]

    hit-need_mask : (e : ℕ) → hit t topk_ids e ≡ true → need_mask t topk_ids e ≡ true
    unfolding hit
    hit-need_mask e h = ground arith

    -- The slot of an expert that the step does not need is not in use, nor is a free slot.
    pub unused_of_unneeded :
        (r : ℕ)
        → r < t.num_slots
        → ((e : ℕ) → t.expert_in r ≡ some e → need_mask t topk_ids e ≡ false)
        → slot_used t topk_ids r ≡ false
    unused_of_unneeded r lr h = elim (Bool-cases (slot_used t topk_ids r)) [
      | inr free ↦ free
      | inl used ↦
          let (x, held, _, _, hx) = slot_used-expert r lr used in
          absurd (ground (arith, h x held, hit-need_mask x hx))
    ]

    -- The experts that hit are as many as the used slots at least.
    pub slot_used-le_hits :
        count (slot_used t topk_ids) t.num_slots ≤ count (hit t topk_ids) t.num_experts
    slot_used-le_hits =
        count-le_of_injection _ t.num_slots _ t.num_experts (λ s. clamp (t.expert_in s))
          (λ s lt h. let (x, e, le, back, hx) = slot_used-expert s lt h in rw e (le, hx))
          (λ i j li lj hi hj q.
            let (x, ei, lx, bx, hx) = slot_used-expert i li hi in
            let (y, ej, ly, byy, hy) = slot_used-expert j lj hj in ground arith)

    module _ (fits : length topk_ids ≤ t.num_slots) where
      pub miss-used_count :
          count (miss t topk_ids) t.num_experts + count (slot_used t topk_ids) t.num_slots
          ≤ t.num_slots
      miss-used_count = omega (arith, hit-miss-count, need_count-le, slot_used-le_hits)

      module _ (young : t.step ≤ protect) where
        used_later :
            (a b : ℕ)
            → b < t.num_slots
            → Before (key t topk_ids) a b
            → slot_used t topk_ids a ≡ true
            → slot_used t topk_ids b ≡ true
        unfolding key
        used_later a b lb before ua = ground (arith, c.clock b lb)

        -- The positions below the number of misses hold slots that are not in use.
        pub order-unused :
            (sort : Argsort) (r : ℕ)
            → r < count (miss t topk_ids) t.num_experts
            → slot_used t topk_ids (sort.order t.num_slots (key t topk_ids) r) ≡ false
        order-unused sort r lt = elim (Bool-cases (slot_used t topk_ids (pos r))) [
          | inr free ↦ free
          | inl used ↦ absurd (
              omega (
                arith,
                miss-used_count,
                count-from r t.num_slots,
                count-le_of_injection (leb r) t.num_slots (slot_used t topk_ids) t.num_slots pos
                    (λ i li ri.
                      (sort.bounded t.num_slots (key t topk_ids) i li, later used i li ri))
                    (λ i j li lj ri rj.
                      order-injective sort t.num_slots (key t topk_ids) i j li lj),
              ))
        ]
          where
            pos : ℕ → ℕ
            pos = sort.order t.num_slots (key t topk_ids)

            later :
                slot_used t topk_ids (pos r) ≡ true
                → (i : ℕ) → i < t.num_slots
                → leb r i ≡ true
                → slot_used t topk_ids (pos i) ≡ true
            later used i li ri = elim (ℕ_discrete r i) [
              | yes e ↦ rw (← e) used
              | no ne ↦
                  used_later (pos r) (pos i) (sort.bounded t.num_slots (key t topk_ids) i li)
                    (sort.ascending t.num_slots (key t topk_ids) r i (ground arith) li) used
            ]

        module _ (sort : Argsort) where
          pub rank-lt :
              (e : ℕ)
              → e < t.num_experts
              → miss t topk_ids e ≡ true
              → rank_in (miss t topk_ids) e < count (miss t topk_ids) t.num_experts
          rank-lt e le me = omega (
            arith,
            count-suc (miss t topk_ids) e me,
            count_mono (miss t topk_ids) (suc e) t.num_experts le,
          )

          -- The ordinal of a miss is its position in the sorted order: the clamp changes nothing.
          pub victim-order :
              (e : ℕ)
              → e < t.num_experts
              → miss t topk_ids e ≡ true
              → victim sort t topk_ids e
                ≡ sort.order t.num_slots (key t topk_ids) (rank_in (miss t topk_ids) e)
          unfolding victim
          victim-order e le me =
              let r = rank_in (miss t topk_ids) e in
              let inside : min r (t.num_slots - 1) ≡ r =
                omega (arith, rank-lt e le me, miss-used_count) in
              ap (sort.order t.num_slots (key t topk_ids)) inside

          pub victim-lt :
              (e : ℕ)
              → e < t.num_experts
              → miss t topk_ids e ≡ true
              → victim sort t topk_ids e < t.num_slots
          victim-lt e le me = rw (victim-order e le me) (
              sort.bounded t.num_slots (key t topk_ids) _
                (omega (arith, rank-lt e le me, miss-used_count)))

          -- A slot in use is never taken.
          pub victim-unused :
              (e : ℕ)
              → e < t.num_experts
              → miss t topk_ids e ≡ true
              → slot_used t topk_ids (victim sort t topk_ids e) ≡ false
          victim-unused e le me = rw (victim-order e le me) (order-unused sort _ (rank-lt e le me))

          -- No slot is taken twice.
          pub victim-injective :
              (e f : ℕ)
              → e < t.num_experts
              → f < t.num_experts
              → miss t topk_ids e ≡ true
              → miss t topk_ids f ≡ true
              → victim sort t topk_ids e ≡ victim sort t topk_ids f
              → e ≡ f
          victim-injective e f le lf me mf q =
              let mask = miss t topk_ids in
              let ranks : rank_in mask e ≡ rank_in mask f =
                order-injective sort t.num_slots (key t topk_ids) (rank_in mask e) (rank_in mask f)
                  (omega (arith, rank-lt e le me, miss-used_count))
                  (omega (arith, rank-lt f lf mf, miss-used_count))
                  (sym (victim-order e le me) ∙ q ∙ victim-order f lf mf) in
              count-injective mask e f me mf
                (omega (arith, ranks, count-suc mask e me, count-suc mask f mf))
