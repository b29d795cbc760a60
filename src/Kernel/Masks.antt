-- ===== src/Kernel/Masks.antt =====
-- The lanes' masks and keys against the reference's.
use vllm_expert_pager.Base.{
  ℕ, ◌≤◌, ◌<◌, ◌≡◌, refl, true, false, List, [], ◌∷◌, Option, none, some, arith, Option-cases, inl,
  inr, map,
}
use vllm_expert_pager.Tensor.Put.{update, index_fill}
use vllm_expert_pager.Table
use vllm_expert_pager.Table.{ExpertTable, at, protect, need_mask, slot_used}
use vllm_expert_pager.Table.Invariant.{Consistent}
use vllm_expert_pager.Kernel.{routed, need, used, hit, miss, key}

routed-index_fill :
    (E : ℕ) (topk : List (Option ℕ)) (e : ℕ)
    → e < E
    → index_fill (map (at E) topk) true (λ _. false) e ≡ routed topk (some e)
unfolding index_fill update routed
routed-index_fill E [] e lt = refl
routed-index_fill E (none ∷ ks) e lt = ground (arith, routed-index_fill E ks e lt)
routed-index_fill E (some k ∷ ks) e lt = ground (arith, routed-index_fill E ks e lt)

module _ (t : ExpertTable) (topk : List (Option ℕ)) where
  pub need-need_mask : (e : ℕ) → e < t.num_experts → need t topk e ≡ need_mask t topk e
  unfolding need need_mask
  need-need_mask e lt = ground (arith, routed-index_fill t.num_experts topk e lt)

  pub need-outside : (e : ℕ) → t.num_experts ≤ e → need t topk e ≡ false
  unfolding need
  need-outside e ge = ground arith

  pub hit-hit : (e : ℕ) → e < t.num_experts → hit t topk e ≡ Table.hit t topk e
  unfolding hit Table.hit
  hit-hit e lt = rw (need-need_mask e lt)

  pub miss-miss : (e : ℕ) → e < t.num_experts → miss t topk e ≡ Table.miss t topk e
  unfolding miss Table.miss
  miss-miss e lt = rw (need-need_mask e lt)

  pub hit-outside : (e : ℕ) → t.num_experts ≤ e → hit t topk e ≡ false
  unfolding hit
  hit-outside e ge = rw (need-outside e ge)

  pub miss-outside : (e : ℕ) → t.num_experts ≤ e → miss t topk e ≡ false
  unfolding miss
  miss-outside e ge = rw (need-outside e ge)

  pub used-slot_used : Consistent t → (s : ℕ) → s < t.num_slots → used t topk s ≡ slot_used t topk s
  unfolding used slot_used Table.hit need_mask
  used-slot_used c s lt = elim (Option-cases (t.expert_in s)) [
    | inl e ↦ ground arith
    | inr (x, e) ↦ ground (arith, c.backward s x lt e, routed-index_fill t.num_experts topk x)
  ]

  -- Within the slots the keys agree, and padding keys are beyond all of them.
  pub key-key : Consistent t → (s : ℕ) → s < t.num_slots → key t topk s ≡ Table.key t topk s
  unfolding key Table.key
  key-key c s lt = ground (arith, used-slot_used c s lt)

  pub key-padding :
      Consistent t
      → t.step ≤ protect
      → (s x : ℕ) → t.num_slots ≤ s
      → x < t.num_slots
      → Table.key t topk x < key t topk s
  unfolding key Table.key
  key-padding c young s x ge lt = ground (arith, c.clock x lt)
