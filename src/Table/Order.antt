-- ===== src/Table/Order.antt =====
-- The order in which `acquire` takes the slots.
use vllm_expert_pager.Base.{
  ℕ, ◌≤◌, ◌<◌, ◌≡◌, ap, sym, ◌∙◌, ◌≢◌, inl, inr, Bool, true, false, List, Option, none, some, arith,
  length, dec_lt, subst,
}
use vllm_expert_pager.Tensor.Argsort.{Argsort, Before}
use vllm_expert_pager.Tensor.Count.{count-onto}
use vllm_expert_pager.Table.Invariant.{Consistent}
use vllm_expert_pager.Table.Victim.{victim-unused, victim-order, rank-lt, unused_of_unneeded}
use vllm_expert_pager.Table.Update.{miss-parts, taker, expert_in-taken, expert_in-left}
use vllm_expert_pager.Table.{
  ExpertTable, need_mask, miss, slot_used, key, victim, protect, rank_in, acquire, expert_in_after,
}

module _ (sort : Argsort) (t : ExpertTable) (topk_ids : List (Option ℕ)) (c : Consistent t)
    (fits : length topk_ids ≤ t.num_slots) (young : t.step ≤ protect) where
  -- An unused slot that no miss takes stands behind all the taken ones.
  taken-Before :
      (m r : ℕ)
      → m < t.num_experts
      → miss t topk_ids m ≡ true
      → r < t.num_slots
      → ((k : ℕ) → k < t.num_experts → miss t topk_ids k ≡ true → victim sort t topk_ids k ≢ r)
      → Before (key t topk_ids) (victim sort t topk_ids m) r
  taken-Before m r lm mm lr left =
      let (i, li, at_i) = sort.onto t.num_slots (key t topk_ids) r lr in
      rw (victim-order t topk_ids c fits young sort m lm mm) (
        subst (Before (key t topk_ids) _) at_i
          (sort.ascending t.num_slots (key t topk_ids) _ i (behind i at_i) li))
    where
      mask : ℕ → Bool
      mask = miss t topk_ids

      behind : (i : ℕ) → sort.order t.num_slots (key t topk_ids) i ≡ r → rank_in mask m < i
      behind i at_i = elim (dec_lt (rank_in mask m) i) [
        | yes lt ↦ lt
        | no ge ↦
            let (k, lk, mk, rank) =
              count-onto mask t.num_experts i
                (omega (arith, rank-lt t topk_ids c fits young sort m lm mm)) in
            let same : rank_in mask k ≡ i = omega (arith, rank) in
            absurd (
              left k lk mk (
                victim-order t topk_ids c fits young sort k lk mk
                ∙ ap (sort.order t.num_slots (key t topk_ids)) same
                ∙ at_i))
      ]

  key-unused :
      (a b : ℕ)
      → slot_used t topk_ids a ≡ false
      → slot_used t topk_ids b ≡ false
      → Before (key t topk_ids) a b
      → Before t.last_used a b
  unfolding key
  key-unused a b fa fb h = ground arith

  -- `acquire` takes the least recently used slots, the lower number first among equals: a slot that
  -- is given to a missed expert comes before every slot that keeps its content unneeded.
  pub acquire-takes_oldest :
      (m s r : ℕ)
      → m < t.num_experts
      → t.slot_of m ≡ none
      → s < t.num_slots
      → (acquire sort t topk_ids).table.expert_in s ≡ some m
      → r < t.num_slots
      → (acquire sort t topk_ids).table.expert_in r ≡ t.expert_in r
      → ((e : ℕ) → t.expert_in r ≡ some e → need_mask t topk_ids e ≡ false)
      → Before t.last_used s r
  unfolding acquire
  acquire-takes_oldest m s r lm absent ls given lr kept idle =
      elim (taker sort t topk_ids c fits young s) [
        | inr left ↦
            let held =
              c.backward s m ls
                (sym (expert_in-left sort t topk_ids c fits young s ls left) ∙ given) in
            absurd (ground arith)
        | inl (k, lk, mk, q) ↦
            let before = taken-Before k r lk mk lr untaken in
            rw (← q) (
              key-unused _ r (victim-unused t topk_ids c fits young sort k lk mk)
                (unused_of_unneeded t topk_ids c r lr idle) before)
      ]
    where
      untaken :
          (k : ℕ) → k < t.num_experts → miss t topk_ids k ≡ true → victim sort t topk_ids k ≢ r
      untaken k lk mk q =
          let held : t.expert_in r ≡ some k =
            sym kept
            ∙ ap (expert_in_after sort t topk_ids) (sym q)
            ∙ expert_in-taken sort t topk_ids c fits young k lk mk in
          ground (arith, c.backward r k lr held, miss-parts t topk_ids k mk)
