-- ===== src/Plan/Tests.antt =====
-- A plan of five experts in chunks of two rows: experts 0 and 3 hold slots before the step, which
-- needs 2, 3 and 4, and in which 2 takes the slot of 0.
use vllm_expert_pager.Base.{
  ℕ, ◌<◌, ◌≡◌, refl, ◌↔◌, Bool, true, [], ◌∷◌, Option, none, some, arith, map, if◌then◌else◌, ◌==◌,
  leb,
}
use vllm_expert_pager.Tensor.Put.{update, index_put}
use vllm_expert_pager.Tensor.Count.{count}
use vllm_expert_pager.Table.{ExpertTable}
use vllm_expert_pager.Plan.Layout.{maps_once, maps_injective, listing_iff, needed_cases}
use vllm_expert_pager.Plan.{
  chunks, old_ok, ssd, first, boundary, pos, dst_row, chunk, maps, listing, shared, src_row,
  in_todo, in_late, plan_chunks,
}

plan : Unit {0}
unfolding chunks old_ok ssd first boundary pos dst_row chunk maps listing shared src_row in_todo
    in_late plan_chunks update index_put count
plan = tt

abbrev before : ℕ → Option ℕ
before e = if e == 0 then some 0 else (if e == 3 then some 1 else none)

abbrev table : ExpertTable
table = record {
  num_experts = 5;
  num_slots = 2;
  slot_of = λ e. if e == 2 then some 0 else (if e == 3 then some 1 else none);
  expert_in = λ s. if s == 0 then some 2 else (if s == 1 then some 3 else none);
  last_used = λ _. 1;
  step = 2;
  hits = 0;
  misses = 0;
}

abbrev need : ℕ → Bool
need e = leb 2 e

abbrev cached : ℕ → Option ℕ
cached e = if e == 4 then some 0 else none

-- Expert 3 is copied first, then 2 and 4 are read, of which 4 is copied from VRAM.
layout :
    (map (plan_chunks table before need 2 10 20 cached).dst_row (2 ∷ 3 ∷ 4 ∷ []) ≡ 0 ∷ 0 ∷ 1 ∷ [])
    × (map (plan_chunks table before need 2 10 20 cached).src_row (2 ∷ 3 ∷ 4 ∷ [])
        ≡ 10 ∷ 11 ∷ 23 ∷ [])
    × (map (plan_chunks table before need 2 10 20 cached).todo (0 ∷ 1 ∷ 2 ∷ 3 ∷ [])
        ≡ some 3 ∷ none ∷ none ∷ some 4 ∷ [])
    × (map (plan_chunks table before need 2 10 20 cached).ssd (0 ∷ 1 ∷ 2 ∷ 3 ∷ [])
        ≡ none ∷ none ∷ some 2 ∷ some 4 ∷ [])
    × (map (plan_chunks table before need 2 10 20 cached).late (0 ∷ 1 ∷ 2 ∷ 3 ∷ [])
        ≡ none ∷ none ∷ some 2 ∷ none ∷ [])
unfolding plan
layout = (refl, refl, refl, refl, refl)

maps_once_example :
    (k : ℕ) × (k < chunks table before need 2)
    × (maps table before need 2 k 4 ≡ some (dst_row table before need 2 4))
    × (dst_row table before need 2 4 < 2)
    × ((j r : ℕ) → maps table before need 2 j 4 ≡ some r → j ≡ k)
maps_once_example = maps_once table before need 2 (omega arith) 4 (omega arith) refl

maps_injective_example : ◌≡◌ {A = ℕ} 4 4
unfolding plan
maps_injective_example =
    maps_injective table before need 2 (omega arith) 4 4 1 1 (omega arith) (omega arith) refl refl

listing_iff_example :
    (listing table before need 2 need 3 ≡ some 4)
    ↔ ((4 < 5) × (need 4 ≡ true) × (pos table before need 2 4 ≡ some 3))
unfolding chunks
listing_iff_example =
    listing_iff table before need 2 (omega arith) need
      (needed_cases table before need 2 (omega arith)) 3 4 (omega arith)
