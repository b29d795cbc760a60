-- ===== src/Prefill/Seeding.antt =====
-- The prefill after `ExpertTable.seed` (K > R).
use vllm_expert_pager.Base.{ℕ, ◌+◌, ◌≤◌, ◌<◌, ◌≡◌, true, List, Option, some, arith}
use vllm_expert_pager.Tensor.Argsort.{Argsort}
use vllm_expert_pager.Table.{ExpertTable, acquire, need_mask, protect}
use vllm_expert_pager.Table.Invariant.{Consistent}
use vllm_expert_pager.Seed.{seed}
use vllm_expert_pager.Seed.Ranking.{TopK}
use vllm_expert_pager.Seed.Tiers.{first-valid, seed-Consistent}
use vllm_expert_pager.Seed.Brought.{seed-brings_needed}
use vllm_expert_pager.Prefill.{finished, State}
use vllm_expert_pager.Prefill.Rows.{Setting}
use vllm_expert_pager.Prefill.Truth.{begin, Reaches, finished-truthful}

module _ (sort : Argsort) (topk : TopK) (ram vram : ExpertTable) (topk_ids : List (Option ℕ))
    (c : Consistent ram) (tiers : vram.num_slots ≤ ram.num_slots) (young : ram.step + 1 ≤ protect)
    (roomy : ram.num_slots ≤ ram.num_experts) where
  abbrev pub Seeded : ExpertTable
  Seeded = seed sort topk ram vram topk_ids (need_mask ram topk_ids)

  seed-sizes : (Seeded.num_experts ≡ ram.num_experts) × (Seeded.num_slots ≡ ram.num_slots)
  unfolding seed acquire
  seed-sizes =
      let (_, experts, slots, _) =
        first-valid sort topk ram vram topk_ids (need_mask ram topk_ids) c tiers young in
      (experts, slots)

  module _ (w ram_base working_base : ℕ) (cached_row slab rows : ℕ → Option ℕ) (some_rows : 0 < w)
      (above : ram_base + ram.num_slots ≤ working_base)
      (truthful : (e s : ℕ)
        → e < ram.num_experts
        → ram.slot_of e ≡ some s
        → rows (s + ram_base) ≡ some e)
      (cached : (e c : ℕ) → e < ram.num_experts → cached_row e ≡ some c → slab c ≡ some e) where
    pub setting : Setting Seeded ram.slot_of w ram_base working_base cached_row slab rows
    setting = record {
      valid = seed-Consistent sort topk ram vram topk_ids (need_mask ram topk_ids) c tiers young;
      some_rows = some_rows;
      above = omega (arith, seed-sizes);
      truthful = λ e s le h. truthful e s (omega (arith, seed-sizes)) h;
      cached = λ e s le h. cached e s (omega (arith, seed-sizes)) h;
    }

    -- A prefill that does not fit in the RAM tier keeps it true, if the step references an expert: if
    -- the table was consistent and named rows that held its experts, then at the end of every run of
    -- the prefill each row that the table of `seed` names holds its expert.
    pub seed-stays_true :
        (x : ℕ)
        → x < ram.num_experts
        → need_mask ram topk_ids x ≡ true
        → (working : ℕ → Option ℕ) (u : State)
        → Reaches Seeded ram.slot_of
            (need_mask ram topk_ids)
            w
            ram_base
            working_base
            cached_row
            slab
            rows
            setting
            (begin Seeded ram.slot_of
              (need_mask ram topk_ids)
              w
              ram_base
              working_base
              cached_row
              slab
              rows
              setting
              working)
            u
        → u.pc ≡ finished
        → (e s : ℕ) → e < ram.num_experts
        → Seeded.slot_of e ≡ some s
        → u.rows (s + ram_base) ≡ some e
    seed-stays_true x lx nx working u reached at e s le held =
        finished-truthful Seeded ram.slot_of (need_mask ram topk_ids) w ram_base working_base
          cached_row slab rows setting
          (λ f lf has out.
            seed-brings_needed sort topk ram vram topk_ids c tiers young roomy x lx nx f
              (omega (arith, seed-sizes)) has out)
          working u reached at e s (omega (arith, seed-sizes)) held
