-- ===== src/Table/Update.antt =====
-- What `acquire` leaves in each cell of `slot_of`, `expert_in` and `last_used`.
use vllm_expert_pager.Base.{
  ℕ, ◌≤◌, ◌<◌, ◌≡◌, ◌∙◌, ◌≢◌, ◌⊎◌, inl, inr, true, false, ◌&&◌, List, Option, none, some, arith,
  length, Bool-cases, Option-cases, ◌==◌,
}
use vllm_expert_pager.Tensor.Put.{index_put_hit, index_put_miss, index_put_same}
use vllm_expert_pager.Tensor.Count.{find_set}
use vllm_expert_pager.Tensor.Argsort.{Argsort}
use vllm_expert_pager.Table.Invariant.{Consistent}
use vllm_expert_pager.Table.Victim.{victim-lt, victim-injective}
use vllm_expert_pager.Table.{
  ExpertTable, need_mask, hit, miss, slot_used, victim, protect, slot_after, slot_of_cleared,
  slot_of_after, expert_in_after, last_used_after,
}

module _ (t : ExpertTable) (topk_ids : List (Option ℕ)) where
  -- A miss is needed and not cached.
  pub miss-parts :
      (e : ℕ) → miss t topk_ids e ≡ true → (need_mask t topk_ids e ≡ true) × (t.slot_of e ≡ none)
  unfolding miss
  miss-parts e h = ground arith

  pub hit-need : (e : ℕ) → hit t topk_ids e ≡ true → need_mask t topk_ids e ≡ true
  unfolding hit
  hit-need e h = ground arith

  -- A needed expert that is no miss is cached.
  pub cached_of_not-miss :
      (e : ℕ)
      → need_mask t topk_ids e ≡ true
      → miss t topk_ids e ≡ false
      → (s : ℕ) × (t.slot_of e ≡ some s)
  unfolding miss
  cached_of_not-miss e n h = elim (Option-cases (t.slot_of e)) [
    | inl q ↦ absurd (ground arith)
    | inr (s, q) ↦ (s, q)
  ]

  pub not-miss_of_cached : (e s : ℕ) → t.slot_of e ≡ some s → miss t topk_ids e ≡ false
  unfolding miss
  not-miss_of_cached e s h = ground arith

  pub not-miss_of_unneeded : (e : ℕ) → need_mask t topk_ids e ≡ false → miss t topk_ids e ≡ false
  unfolding miss
  not-miss_of_unneeded e h = ground arith

module _ (sort : Argsort) (t : ExpertTable) (topk_ids : List (Option ℕ)) (c : Consistent t)
    (fits : length topk_ids ≤ t.num_slots) (young : t.step ≤ protect) where
  abbrev Missed : ℕ → Type 0
  Missed e = miss t topk_ids e ≡ true

  abbrev taken : ℕ → ℕ
  taken = victim sort t topk_ids

  -- The expert that takes slot `s`, if one does.
  pub taker :
      (s : ℕ)
      → ((m : ℕ) × (m < t.num_experts) × Missed m × (taken m ≡ s))
        ⊎ ((m : ℕ) → m < t.num_experts → Missed m → taken m ≢ s)
  taker s = elim (find_set (λ m. miss t topk_ids m && taken m == s) t.num_experts) [
    | inl (m, lm, h) ↦ inl (m, lm, ground arith, ground arith)
    | inr clear ↦ inr (λ m lm mm q. absurd (ground (arith, clear m lm)))
  ]

  pub expert_in-taken :
      (m : ℕ) → m < t.num_experts → Missed m → expert_in_after sort t topk_ids (taken m) ≡ some m
  unfolding expert_in_after
  expert_in-taken m lm mm =
      index_put_hit t.num_experts _ _ t.expert_in m (taken m) lm (rw mm) (λ k lk q.
        elim (Bool-cases (miss t topk_ids k)) [
          | inl mk ↦ victim-injective t topk_ids c fits young sort k m lk lm mk mm (ground arith)
          | inr nk ↦ absurd (ground (arith, victim-lt t topk_ids c fits young sort m lm mm))
        ])

  pub expert_in-left :
      (s : ℕ)
      → s < t.num_slots
      → ((m : ℕ) → m < t.num_experts → Missed m → taken m ≢ s)
      → expert_in_after sort t topk_ids s ≡ t.expert_in s
  unfolding expert_in_after
  expert_in-left s ls left = index_put_miss t.num_experts _ _ t.expert_in s (λ k lk.
      elim (Bool-cases (miss t topk_ids k)) [
        | inl mk ↦ rw mk (left k lk mk)
        | inr nk ↦ rw nk (λ e. absurd (omega arith))
      ])

  pub slot_of-Missed :
      (e : ℕ) → e < t.num_experts → Missed e → slot_of_after sort t topk_ids e ≡ some (taken e)
  unfolding slot_of_after
  slot_of-Missed e le me = index_put_hit t.num_experts _ _ _ e e le (rw me) (λ k lk q.
      elim (Bool-cases (miss t topk_ids k)) [
        | inl mk ↦ ground arith
        | inr nk ↦ absurd (ground arith)
      ])

  slot_of-not_missed :
      (e : ℕ)
      → e < t.num_experts
      → miss t topk_ids e ≡ false
      → slot_of_after sort t topk_ids e ≡ slot_of_cleared sort t topk_ids e
  unfolding slot_of_after
  slot_of-not_missed e le ne = index_put_miss t.num_experts _ _ _ e (λ k lk.
      elim (Bool-cases (miss t topk_ids k)) [
        | inl mk ↦ λ q. absurd (ground arith)
        | inr nk ↦ λ q. absurd (ground arith)
      ])

  pub slot_of-evicted :
      (m e : ℕ)
      → m < t.num_experts
      → Missed m
      → t.expert_in (taken m) ≡ some e
      → slot_of_after sort t topk_ids e ≡ none
  unfolding slot_of_cleared
  slot_of-evicted m e lm mm held =
      let back = c.backward (taken m) e (victim-lt t topk_ids c fits young sort m lm mm) held in
      slot_of-not_missed e back.0 (not-miss_of_cached t topk_ids e _ back.1)
      ∙ index_put_same t.num_experts _ none t.slot_of m e lm (rw (mm, held))

  pub slot_of-left :
      (e : ℕ)
      → e < t.num_experts
      → miss t topk_ids e ≡ false
      → ((m : ℕ) → m < t.num_experts → Missed m → t.expert_in (taken m) ≢ some e)
      → slot_of_after sort t topk_ids e ≡ t.slot_of e
  unfolding slot_of_cleared
  slot_of-left e le ne left =
      slot_of-not_missed e le ne
      ∙ index_put_miss t.num_experts _ _ _ e (λ k lk. elim (Bool-cases (miss t topk_ids k)) [
        | inl mk ↦ λ q. left k lk mk (ground arith)
        | inr nk ↦ λ q. absurd (ground arith)
      ])

  -- The slot of an expert that hits is in use.
  pub hit-slot_used :
      (e s : ℕ)
      → e < t.num_experts
      → need_mask t topk_ids e ≡ true
      → t.slot_of e ≡ some s
      → slot_used t topk_ids s ≡ true
  unfolding slot_used hit
  hit-slot_used e s le ne h = ground (arith, c.forward e s le h)

  pub last_used-needed :
      (e s : ℕ)
      → e < t.num_experts
      → need_mask t topk_ids e ≡ true
      → slot_after sort t topk_ids e ≡ some s
      → last_used_after sort t topk_ids s ≡ t.step
  unfolding last_used_after
  last_used-needed e s le ne h =
      index_put_same t.num_experts _ t.step t.last_used e s le (rw (ne, h))

  pub last_used-left :
      (s : ℕ)
      → s < t.num_slots
      → slot_used t topk_ids s ≡ false
      → ((m : ℕ) → m < t.num_experts → Missed m → taken m ≢ s)
      → last_used_after sort t topk_ids s ≡ t.last_used s
  unfolding last_used_after slot_after
  last_used-left s ls free left = index_put_miss t.num_experts _ _ t.last_used s (λ k lk q.
      elim (Bool-cases (need_mask t topk_ids k)) [
        | inr nk ↦ absurd (ground arith)
        | inl nk ↦ elim (Bool-cases (miss t topk_ids k)) [
          | inl mk ↦ left k lk mk (ground arith)
          | inr hk ↦
              let (r, hr) = cached_of_not-miss t topk_ids k nk hk in
              absurd (ground (arith, hit-slot_used k r lk nk hr))
        ]
      ])
