-- ===== src/Decode/Truth.antt =====
-- The slabs and the tables across a decode step (`forward_modular`).
use vllm_expert_pager.Base.{
  ℕ, ◌+◌, ◌≤◌, ◌<◌, ◌≡◌, inl, inr, sym, ap, ◌∙◌, Bool, true, List, Option, some, arith, length,
  refl,
}
use vllm_expert_pager.Tensor.Argsort.{Argsort}
use vllm_expert_pager.Table.{need_mask, protect}
use vllm_expert_pager.Kernel.{AcquirePair, call}
use vllm_expert_pager.Kernel.Sort.{TlSort}
use vllm_expert_pager.Kernel.Pair.{IsPair, call-serves, vram-Matches, ram-Matches, need_mask-tiers}
use vllm_expert_pager.Decode.{Slabs, forward_decode}
use vllm_expert_pager.Decode.Tiers.{Tier, acquire-Tier}
use vllm_expert_pager.Decode.Copies.{rows-end, cache-after}

-- The same facts for results that agree below the bounds.
Tier-moved :
    {E E' K : ℕ} {need need' : ℕ → Bool} {before after after' slot slot' todo todo' : ℕ → Option ℕ}
    → E' ≡ E
    → ((e : ℕ) → need' e ≡ need e)
    → ((e : ℕ) → e < E → after' e ≡ after e)
    → ((e : ℕ) → e < E → slot' e ≡ slot e)
    → ((i : ℕ) → i < K → todo' i ≡ todo i)
    → Tier E K need before after slot todo
    → Tier E' K need' before after' slot' todo'
Tier-moved same_e same_n same_a same_s same_t tier = record {
  missed = λ i e li h.
      let (le, ne, out) = tier.missed i e li (sym (same_t i li) ∙ h) in
      (omega arith, same_n e ∙ ne, out);
  loaded = λ e s le h. elim (tier.loaded e s (omega arith) (sym (same_a e (omega arith)) ∙ h)) [
    | inl (i, li, q) ↦ inl (i, li, same_t i li ∙ q)
    | inr held ↦ inr held
  ];
  named = λ e le ne.
      let (s, at_table, at_slot) = tier.named e (omega arith) (sym (same_n e) ∙ ne) in
      (s, same_a e (omega arith) ∙ at_table, same_s e (omega arith) ∙ at_slot);
  alone = λ e f s le lf he hf.
      tier.alone e f s (omega arith) (omega arith) (sym (same_a e (omega arith)) ∙ he)
        (sym (same_a f (omega arith)) ∙ hf);
}

module _ (sort : TlSort) (reference : Argsort) (p : AcquirePair) (topk : List (Option ℕ))
    (v : IsPair p) (fits : length topk ≤ p.vram.num_slots) (young_v : p.vram.step ≤ protect)
    (young_r : p.ram.step ≤ protect) where
  vram-Tier :
      let q = call sort p topk in
      Tier p.vram.num_experts
        (length topk)
        (need_mask p.vram topk)
        p.vram.slot_of
        q.vram.slot_of
        q.vram_slot
        q.vram_todo
  unfolding call
  vram-Tier =
      let m = vram-Matches sort reference p topk v fits young_v young_r in
      Tier-moved refl (λ e. refl) m.slot_of m.slot m.todo
        (acquire-Tier reference p.vram topk v.vram_valid fits young_v)

  ram-Tier :
      let q = call sort p topk in
      Tier p.vram.num_experts
        (length topk)
        (need_mask p.vram topk)
        p.ram.slot_of
        q.ram.slot_of
        q.ram_slot
        q.ram_todo
  unfolding call
  ram-Tier =
      let m = ram-Matches sort reference p topk v fits young_v young_r in
      Tier-moved v.experts (need_mask-tiers sort reference p topk v fits young_v young_r) m.slot_of
        m.slot m.todo
        (acquire-Tier reference p.ram topk v.ram_valid (omega (arith, v.tiers)) young_r)

  module _ (base : ℕ) (landed : ℕ → ℕ → Bool) (m : Slabs)
      (rows_true : (e s : ℕ)
        → e < p.vram.num_experts
        → p.ram.slot_of e ≡ some s
        → m.rows (s + base) ≡ some e)
      (cache_true : (e s : ℕ)
        → e < p.vram.num_experts
        → p.vram.slot_of e ≡ some s
        → m.cache s ≡ some e) where
    -- A decode step keeps both slabs true of their tables, whenever the reads land: if every row that
    -- a tier's table names held its expert before, so it does after the step, for the updated tables.
    -- This needs a well-formed pair, ids that fit in the VRAM tier, and steps up to `_PROTECT`.
    pub decode-stays_true :
        (e : ℕ)
        → e < p.vram.num_experts
        → ((s : ℕ)
            → (call sort p topk).ram.slot_of e ≡ some s
            → (forward_decode sort base landed p topk m).rows (s + base) ≡ some e)
          × ((s : ℕ)
              → (call sort p topk).vram.slot_of e ≡ some s
              → (forward_decode sort base landed p topk m).cache s ≡ some e)
    unfolding forward_decode
    decode-stays_true e le = (
      λ s at.
          rows-end p.vram.num_experts (length topk) base (need_mask p.vram topk) _ _ _ _ _ _ _ _
            vram-Tier ram-Tier m.rows m.cache rows_true cache_true landed e s le at,
      λ s at.
          cache-after p.vram.num_experts (length topk) base (need_mask p.vram topk) _ _ _ _ _ _ _ _
            vram-Tier ram-Tier m.rows m.cache rows_true cache_true landed e s le at,
    )

    -- After the copies of a decode step the map sends each needed expert to a row of the cache slab
    -- that holds it, whenever the reads land; under the same conditions.
    pub decode-sees_weights :
        (e : ℕ)
        → e < p.vram.num_experts
        → need_mask p.vram topk e ≡ true
        → (s : ℕ) × ((call sort p topk).expert_map e ≡ some s)
          × ((forward_decode sort base landed p topk m).cache s ≡ some e)
    decode-sees_weights e le ne =
        let (s, r, _, mapped, slotted, _, _, _, _) =
          call-serves sort reference p topk v fits young_v young_r e le ne in
        let (s', at_table, at_slot) = vram-Tier.named e le ne in
        let same_slot : s' ≡ s = ground arith in
        (s, mapped, (decode-stays_true e le).1 s (at_table ∙ ap some same_slot))
