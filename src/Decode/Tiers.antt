-- ===== src/Decode/Tiers.antt =====
-- What a decode step does to one tier's table, as the copies need it.
use vllm_expert_pager.Base.{
  ℕ, ◌≤◌, ◌<◌, ◌≡◌, ◌⊎◌, inl, inr, sym, ◌∙◌, Bool, true, List, Option, none, some, arith, length,
  Bool-cases, Option-cases,
}
use vllm_expert_pager.Tensor.Argsort.{Argsort}
use vllm_expert_pager.Table.{ExpertTable, acquire, need_mask, miss, protect}
use vllm_expert_pager.Table.Invariant.{Consistent, slot_of_injective}
use vllm_expert_pager.Table.Acquire.{
  acquire-Consistent, acquire-keeps_hits, acquire-serves, acquire-leaves_rest,
}
use vllm_expert_pager.Table.Todo.{acquire-todo}
use vllm_expert_pager.Table.Update.{miss-parts}
use vllm_expert_pager.Table.Victim.{hit-miss-count, need_count-le}

pub record Tier (E K : ℕ) (need : ℕ → Bool) (before after slot todo : ℕ → Option ℕ) : Type 0 where
  -- a list of loads holds needed experts that were not in the table
  pub missed : (i e : ℕ) → i < K → todo i ≡ some e → (e < E) × (need e ≡ true) × (before e ≡ none)
  -- an expert of the table is in the list, or was there
  pub loaded :
      (e s : ℕ)
      → e < E
      → after e ≡ some s
      → ((i : ℕ) × (i < K) × (todo i ≡ some e)) ⊎ (before e ≡ some s)
  pub named : (e : ℕ) → e < E → need e ≡ true → (s : ℕ) × (after e ≡ some s) × (slot e ≡ some s)
  pub alone : (e f s : ℕ) → e < E → f < E → after e ≡ some s → after f ≡ some s → e ≡ f

module _ (sort : Argsort) (t : ExpertTable) (topk_ids : List (Option ℕ)) (c : Consistent t)
    (fits : length topk_ids ≤ t.num_slots) (young : t.step ≤ protect) where
  of_miss : (e : ℕ) → need_mask t topk_ids e ≡ true → t.slot_of e ≡ none → miss t topk_ids e ≡ true
  unfolding miss
  of_miss e ne out = ground arith

  miss-none : (e : ℕ) → miss t topk_ids e ≡ true → t.slot_of e ≡ none
  unfolding miss
  miss-none e m = elim (Option-cases (t.slot_of e)) [
    | inl q ↦ q
    | inr (s, q) ↦ absurd (ground arith)
  ]

  pub acquire-Tier :
      Tier t.num_experts
        (length topk_ids)
        (need_mask t topk_ids)
        t.slot_of
        (acquire sort t topk_ids).table.slot_of
        (acquire sort t topk_ids).slot
        (acquire sort t topk_ids).todo
  unfolding acquire
  acquire-Tier =
      let lists = acquire-todo sort t topk_ids in
      let valid = acquire-Consistent sort t topk_ids c fits young in
      record {
        missed = λ i e li h.
            let (_, le, me) = lists.sound i e li h in
            (le, (miss-parts t topk_ids e me).0, miss-none e me);
        loaded = λ e s le h. elim (Bool-cases (need_mask t topk_ids e)) [
          | inr idle ↦ inr (acquire-leaves_rest sort t topk_ids c fits young e s le idle h).0
          | inl ne ↦ elim (Option-cases (t.slot_of e)) [
            | inl out ↦
                let (i, li, at_i) = lists.complete e le (of_miss e ne out) in
                inl (i, omega (arith, hit-miss-count t topk_ids, need_count-le t topk_ids), at_i)
            | inr (r, held) ↦
                let (kept, _, _) = acquire-keeps_hits sort t topk_ids c fits young e r le ne held in
                inr (held ∙ sym kept ∙ h)
          ]
        ];
        named = λ e le ne.
            let (s, _, _, at_slot, at_table, _, _) =
              acquire-serves sort t topk_ids c fits young e le ne in
            (s, at_table, at_slot);
        alone = λ e f s le lf he hf. slot_of_injective valid e f s le lf he hf;
      }
