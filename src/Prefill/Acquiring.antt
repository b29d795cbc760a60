-- ===== src/Prefill/Acquiring.antt =====
-- The prefill after `ExpertTable.acquire` (K <= R).
use vllm_expert_pager.Base.{
  ℕ, ◌+◌, ◌≤◌, ◌<◌, ◌≡◌, inl, inr, true, List, Option, none, some, arith, length, is_some,
  Bool-cases, Option-cases,
}
use vllm_expert_pager.Tensor.Argsort.{Argsort}
use vllm_expert_pager.Table.{ExpertTable, acquire, need_mask, protect}
use vllm_expert_pager.Table.Invariant.{Consistent}
use vllm_expert_pager.Table.Acquire.{acquire-leaves_rest, acquire-Consistent}
use vllm_expert_pager.Prefill.{finished, State}
use vllm_expert_pager.Prefill.Rows.{Setting}
use vllm_expert_pager.Prefill.Truth.{begin, Reaches, finished-truthful}

module _ (sort : Argsort) (ram : ExpertTable) (topk_ids : List (Option ℕ)) (c : Consistent ram)
    (fits : length topk_ids ≤ ram.num_slots) (young : ram.step ≤ protect) where
  -- An expert that `acquire` brings into the table is needed.
  pub brings_needed :
      (e : ℕ)
      → e < ram.num_experts
      → is_some ((acquire sort ram topk_ids).table.slot_of e) ≡ true
      → ram.slot_of e ≡ none
      → need_mask ram topk_ids e ≡ true
  brings_needed e le held out = elim (Bool-cases (need_mask ram topk_ids e)) [
    | inl ne ↦ ne
    | inr idle ↦ elim (Option-cases ((acquire sort ram topk_ids).table.slot_of e)) [
      | inl q ↦ absurd (ground arith)
      | inr (s, q) ↦
          absurd
            (ground (arith, (acquire-leaves_rest sort ram topk_ids c fits young e s le idle q).0))
    ]
  ]

  module _ (w ram_base working_base : ℕ) (cached_row slab rows : ℕ → Option ℕ) (some_rows : 0 < w)
      (above : ram_base + ram.num_slots ≤ working_base)
      (truthful : (e s : ℕ)
        → e < ram.num_experts
        → ram.slot_of e ≡ some s
        → rows (s + ram_base) ≡ some e)
      (cached : (e c : ℕ) → e < ram.num_experts → cached_row e ≡ some c → slab c ≡ some e) where
    pub setting :
        Setting
          (acquire sort ram topk_ids).table
          ram.slot_of
          w
          ram_base
          working_base
          cached_row
          slab
          rows
    unfolding acquire
    setting = record {
      valid = acquire-Consistent sort ram topk_ids c fits young;
      some_rows = some_rows;
      above = above;
      truthful = truthful;
      cached = cached;
    }

    -- A prefill whose ids fit in the RAM tier keeps the RAM tier true: if the table was consistent and
    -- named rows that held its experts, then at the end of every run of the prefill each row that the
    -- table of `acquire` names holds its expert.
    pub acquire-stays_true :
        (working : ℕ → Option ℕ) (u : State)
        → Reaches
            (acquire sort ram topk_ids).table
            ram.slot_of
            (need_mask ram topk_ids)
            w
            ram_base
            working_base
            cached_row
            slab
            rows
            setting
            (begin
              (acquire sort ram topk_ids).table
              ram.slot_of
              (need_mask ram topk_ids)
              w
              ram_base
              working_base
              cached_row
              slab
              rows
              setting
              working)
            u
        → u.pc ≡ finished
        → (e s : ℕ) → e < ram.num_experts
        → (acquire sort ram topk_ids).table.slot_of e ≡ some s
        → u.rows (s + ram_base) ≡ some e
    unfolding acquire
    acquire-stays_true working u reached at e s le held =
        finished-truthful (acquire sort ram topk_ids).table ram.slot_of (need_mask ram topk_ids) w
          ram_base working_base cached_row slab rows setting brings_needed working u reached at e s
          le held
