-- ===== src/Table/Acquire.antt =====
-- The table after `acquire`, when the step's ids fit in the slots.
use vllm_expert_pager.Base.{
  ℕ, ◌≤◌, ◌<◌, ◌≡◌, ap, sym, ◌∙◌, ◌≢◌, ◌⊎◌, inl, inr, true, false, List, Option, none, some, arith,
  length, Bool-cases, Option-cases, ◌↔◌, subst,
}
use vllm_expert_pager.Tensor.Argsort.{Argsort}
use vllm_expert_pager.Table.Invariant.{Consistent}
use vllm_expert_pager.Table.Victim.{victim-lt, victim-unused, slot_used-expert, unused_of_unneeded}
use vllm_expert_pager.Table.Update.{
  miss-parts, hit-need, cached_of_not-miss, not-miss_of_cached, not-miss_of_unneeded, taker,
  expert_in-taken, expert_in-left, slot_of-Missed, slot_of-evicted, slot_of-left, hit-slot_used,
  last_used-needed, last_used-left,
}
use vllm_expert_pager.Table.{
  ExpertTable, need_mask, miss, slot_used, victim, protect, acquire, slot_after, slot_of_after,
  expert_in_after, last_used_after,
}

module _ (sort : Argsort) (t : ExpertTable) (topk_ids : List (Option ℕ)) (c : Consistent t)
    (fits : length topk_ids ≤ t.num_slots) (young : t.step ≤ protect) where
  -- An expert that is not missed keeps its slot, or leaves the table with no other expert's slot
  -- changing hands.
  slot_of-not_missed_cases :
      (e : ℕ)
      → e < t.num_experts
      → miss t topk_ids e ≡ false
      → (slot_of_after sort t topk_ids e ≡ none)
        ⊎ ((s : ℕ) × (slot_of_after sort t topk_ids e ≡ some s)
            × (t.slot_of e ≡ some s)
            × (expert_in_after sort t topk_ids s ≡ some e))
  slot_of-not_missed_cases e le ne = elim (Option-cases (t.slot_of e)) [
    | inl absent ↦ inl (
        slot_of-left sort t topk_ids c fits young e le ne (λ m lm mm held.
          let back = c.backward _ e (victim-lt t topk_ids c fits young sort m lm mm) held in cc)
        ∙ absent)
    | inr (s, here) ↦
        let (ls, held) = c.forward e s le here in
        elim (taker sort t topk_ids c fits young s) [
          | inl (m, lm, mm, q) ↦
              inl (slot_of-evicted sort t topk_ids c fits young m e lm mm (ap t.expert_in q ∙ held))
          | inr left ↦ inr (
            s,
            slot_of-left sort t topk_ids c fits young e le ne (λ m lm mm held'.
                  let back =
                    (c.backward _ e (victim-lt t topk_ids c fits young sort m lm mm) held').1 in
                  left m lm mm (ground arith))
                ∙ here,
            here,
            expert_in-left sort t topk_ids c fits young s ls left ∙ held,
          )
        ]
  ]

  forward-after :
      (e s : ℕ)
      → e < t.num_experts
      → slot_of_after sort t topk_ids e ≡ some s
      → (s < t.num_slots) × (expert_in_after sort t topk_ids s ≡ some e)
  forward-after e s le h = elim (Bool-cases (miss t topk_ids e)) [
    | inl me ↦ ground (
      arith,
      slot_of-Missed sort t topk_ids c fits young e le me,
      expert_in-taken sort t topk_ids c fits young e le me,
      victim-lt t topk_ids c fits young sort e le me,
    )
    | inr ne ↦ elim (slot_of-not_missed_cases e le ne) [
      | inl gone ↦ absurd (ground arith)
      | inr (r, hr, old, held) ↦ ground (arith, c.forward e r le old)
    ]
  ]

  backward-after :
      (s e : ℕ)
      → s < t.num_slots
      → expert_in_after sort t topk_ids s ≡ some e
      → (e < t.num_experts) × (slot_of_after sort t topk_ids e ≡ some s)
  backward-after s e ls h = elim (taker sort t topk_ids c fits young s) [
    | inl (m, lm, mm, q) ↦ ground (
      arith,
      slot_of-Missed sort t topk_ids c fits young m lm mm,
      expert_in-taken sort t topk_ids c fits young m lm mm,
    )
    | inr left ↦
        let (le, old) =
          c.backward s e ls (sym (expert_in-left sort t topk_ids c fits young s ls left) ∙ h) in
        (
          le,
          slot_of-left sort t topk_ids c fits young e le (not-miss_of_cached t topk_ids e s old)
                (λ m lm mm held.
                  let back =
                    (c.backward _ e (victim-lt t topk_ids c fits young sort m lm mm) held).1 in
                  left m lm mm (ground arith))
              ∙ old,
        )
  ]

  -- The slot of a needed expert: a missed one takes a slot, another keeps its own.
  slot_after-missed :
      (e : ℕ)
      → miss t topk_ids e ≡ true
      → slot_after sort t topk_ids e ≡ some (victim sort t topk_ids e)
  unfolding slot_after
  slot_after-missed e me = rw me

  slot_after-hit : (e s : ℕ) → t.slot_of e ≡ some s → slot_after sort t topk_ids e ≡ some s
  unfolding slot_after
  slot_after-hit e s h = rw (not-miss_of_cached t topk_ids e s h, h)

  -- A slot is stamped with the step if it is taken or in use, and keeps its stamp otherwise.
  pub last_used_cases :
      (s : ℕ)
      → s < t.num_slots
      → (last_used_after sort t topk_ids s ≡ t.step)
        ⊎ (last_used_after sort t topk_ids s ≡ t.last_used s)
  last_used_cases s ls = elim (taker sort t topk_ids c fits young s) [
    | inl (m, lm, mm, q) ↦ inl (
        last_used-needed sort t topk_ids c fits young m s lm (miss-parts t topk_ids m mm).0
          (slot_after-missed m mm ∙ ap some q))
    | inr left ↦ elim (Bool-cases (slot_used t topk_ids s)) [
      | inr free ↦ inr (last_used-left sort t topk_ids c fits young s ls free left)
      | inl used ↦
          let (x, _, lx, here, hx) = slot_used-expert t topk_ids c s ls used in
          inl (
            last_used-needed sort t topk_ids c fits young x s lx (hit-need t topk_ids x hx)
              (slot_after-hit x s here))
    ]
  ]

  -- `acquire` keeps the table well formed.
  pub acquire-Consistent : Consistent (acquire sort t topk_ids).table
  unfolding acquire
  acquire-Consistent = record {
    positive = c.positive;
    forward = forward-after;
    backward = backward-after;
    clock = λ s ls. ground (arith, c.clock s ls, last_used_cases s ls);
  }

  -- A slot in use is not taken, and its expert stays.
  hit-left :
      (e s : ℕ)
      → e < t.num_experts
      → need_mask t topk_ids e ≡ true
      → t.slot_of e ≡ some s
      → (m : ℕ) → m < t.num_experts
      → miss t topk_ids m ≡ true
      → victim sort t topk_ids m ≢ s
  hit-left e s le ne here m lm mm q = ground (
    arith,
    ap (slot_used t topk_ids) q,
    victim-unused t topk_ids c fits young sort m lm mm,
    hit-slot_used sort t topk_ids c fits young e s le ne here,
  )

  hit-slot_of :
      (e s : ℕ)
      → e < t.num_experts
      → need_mask t topk_ids e ≡ true
      → t.slot_of e ≡ some s
      → slot_of_after sort t topk_ids e ≡ some s
  hit-slot_of e s le ne here =
      slot_of-left sort t topk_ids c fits young e le (not-miss_of_cached t topk_ids e s here)
        (λ m lm mm held.
          let back = (c.backward _ e (victim-lt t topk_ids c fits young sort m lm mm) held).1 in
          hit-left e s le ne here m lm mm (ground arith))
      ∙ here

  -- A needed expert that is cached stays in its slot: it is never evicted, nor moved.
  pub acquire-keeps_hits :
      (e s : ℕ)
      → e < t.num_experts
      → need_mask t topk_ids e ≡ true
      → t.slot_of e ≡ some s
      → ((acquire sort t topk_ids).table.slot_of e ≡ some s)
        × ((acquire sort t topk_ids).table.expert_in s ≡ some e)
        × ((acquire sort t topk_ids).expert_map e ≡ some s)
  unfolding acquire
  acquire-keeps_hits e s le ne here = (
    hit-slot_of e s le ne here,
    expert_in-left sort t topk_ids c fits young s (c.forward e s le here).0
          (hit-left e s le ne here)
        ∙ (c.forward e s le here).1,
    rw ne (slot_after-hit e s here),
  )

  -- Every needed expert ends in a slot of its own, the one that the result names; it holds that
  -- expert and is stamped with the step.
  pub acquire-serves :
      (e : ℕ)
      → e < t.num_experts
      → need_mask t topk_ids e ≡ true
      → let r = acquire sort t topk_ids in
        (s : ℕ) × (s < t.num_slots)
        × (r.expert_map e ≡ some s)
        × (r.slot e ≡ some s)
        × (r.table.slot_of e ≡ some s)
        × (r.table.expert_in s ≡ some e)
        × (r.table.last_used s ≡ t.step)
  unfolding acquire
  acquire-serves e le ne = elim (Bool-cases (miss t topk_ids e)) [
    | inl me ↦
        let v = victim sort t topk_ids e in
        (
          v,
          victim-lt t topk_ids c fits young sort e le me,
          rw ne (slot_after-missed e me),
          slot_after-missed e me,
          slot_of-Missed sort t topk_ids c fits young e le me,
          expert_in-taken sort t topk_ids c fits young e le me,
          last_used-needed sort t topk_ids c fits young e v le ne (slot_after-missed e me),
        )
    | inr he ↦
        let (s, here) = cached_of_not-miss t topk_ids e ne he in
        (
          s,
          (c.forward e s le here).0,
          rw ne (slot_after-hit e s here),
          slot_after-hit e s here,
          hit-slot_of e s le ne here,
          (acquire-keeps_hits e s le ne here).1,
          last_used-needed sort t topk_ids c fits young e s le ne (slot_after-hit e s here),
        )
  ]

  -- An expert that loses its slot loses it to a missed one.
  pub acquire-evicts :
      (e r : ℕ)
      → e < t.num_experts
      → t.slot_of e ≡ some r
      → (acquire sort t topk_ids).table.slot_of e ≡ none
      → (m : ℕ) × (m < t.num_experts)
        × (need_mask t topk_ids m ≡ true)
        × (t.slot_of m ≡ none)
        × ((acquire sort t topk_ids).table.expert_in r ≡ some m)
  unfolding acquire
  acquire-evicts e r le here gone = elim (taker sort t topk_ids c fits young r) [
    | inl (m, lm, mm, q) ↦
        let (nm, out) = miss-parts t topk_ids m mm in
        let taken = expert_in-taken sort t topk_ids c fits young m lm mm in
        (m, lm, nm, out, sym (ap (expert_in_after sort t topk_ids) q) ∙ taken)
    | inr left ↦
        let same =
          slot_of-left sort t topk_ids c fits young e le (not-miss_of_cached t topk_ids e r here)
            (λ m lm mm held.
              let back = (c.backward _ e (victim-lt t topk_ids c fits young sort m lm mm) held).1 in
              left m lm mm (ground arith)) in
        absurd (ground (arith, same))
  ]

  unmapped :
      (e : ℕ) → need_mask t topk_ids e ≡ false → (acquire sort t topk_ids).expert_map e ≡ none
  unfolding acquire
  unmapped e out = rw out

  -- The map names exactly the needed experts, each with its slot in the updated table.
  pub expert_map_iff :
      (e s : ℕ)
      → e < t.num_experts
      → ((acquire sort t topk_ids).expert_map e ≡ some s)
        ↔ ((need_mask t topk_ids e ≡ true) × ((acquire sort t topk_ids).table.slot_of e ≡ some s))
  expert_map_iff e s le = (there, back)
    where
      there :
          (acquire sort t topk_ids).expert_map e ≡ some s
          → (need_mask t topk_ids e ≡ true) × ((acquire sort t topk_ids).table.slot_of e ≡ some s)
      there h = elim (Bool-cases (need_mask t topk_ids e)) [
        | inr out ↦ absurd (ground (arith, unmapped e out))
        | inl ne ↦ let (r, _, mapped, _, here, _, _) = acquire-serves e le ne in (ne, ground arith)
      ]

      back :
          (need_mask t topk_ids e ≡ true) × ((acquire sort t topk_ids).table.slot_of e ≡ some s)
          → (acquire sort t topk_ids).expert_map e ≡ some s
      back (ne, here') = let (r, _, mapped, _, here, _, _) = acquire-serves e le ne in ground arith

  -- An expert that the step does not need and that stays in the table keeps its slot and its stamp.
  pub acquire-leaves_rest :
      (f q : ℕ)
      → f < t.num_experts
      → need_mask t topk_ids f ≡ false
      → (acquire sort t topk_ids).table.slot_of f ≡ some q
      → (t.slot_of f ≡ some q) × ((acquire sort t topk_ids).table.last_used q ≡ t.last_used q)
  unfolding acquire
  acquire-leaves_rest f q lf out h =
      elim (slot_of-not_missed_cases f lf (not-miss_of_unneeded t topk_ids f out)) [
        | inl gone ↦ absurd (ground arith)
        | inr (r, here, old, held) ↦
            let same : r ≡ q = ground arith in
            let (lr, was) = c.forward f r lf old in
            let left : (m : ℕ)
                → m < t.num_experts
                → miss t topk_ids m ≡ true
                → victim sort t topk_ids m ≢ r =
              λ m lm mm e.
                let given =
                  ap (expert_in_after sort t topk_ids) (sym e)
                  ∙ expert_in-taken sort t topk_ids c fits young m lm mm in
                let who : m ≡ f = ground arith in
                ground (arith, ap (need_mask t topk_ids) who, miss-parts t topk_ids m mm) in
            let idle =
              unused_of_unneeded t topk_ids c r lr
                (λ e he. let who : e ≡ f = ground arith in ap (need_mask t topk_ids) who ∙ out) in
            (
              old ∙ ap some same,
              subst (λ s. last_used_after sort t topk_ids s ≡ t.last_used s) same
                  (last_used-left sort t topk_ids c fits young r lr idle left),
            )
      ]
