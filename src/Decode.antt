-- ===== src/Decode.antt =====
-- src/vllm_expert_pager/experts.py: the decode branch of `forward_modular`, from the update of the
-- tables to the two gathers. A row's content is the number of the expert whose weights it holds. In
-- the first launch the reads of the host land at any time while the rows in RAM are copied; it ends
-- when all have landed. The expansion of compressed rows and the MoE are left out.
pub mod Tiers
pub mod Copies
pub mod Truth
mod Tests
use vllm_expert_pager.Base.{
  ℕ, zero, suc, ◌+◌, Bool, true, false, not, ◌&&◌, ◌||◌, List, Option, none, some, length,
  if◌then◌else◌, same,
}
use vllm_expert_pager.Tensor.Put.{update}
use vllm_expert_pager.Table.{clamp}
use vllm_expert_pager.Kernel.{AcquirePair, call}
use vllm_expert_pager.Kernel.Sort.{TlSort}

-- The rows of the RAM tier and of the cache slab.
pub record Slabs : Type 0 where
  pub rows : ℕ → Option ℕ
  pub cache : ℕ → Option ℕ

-- One entry of a list that `_gather_loop` or the host walks: `value j e` goes to row `dst e`.
unfoldable pub put_entry :
    (ℕ → ℕ) → (ℕ → ℕ → Option ℕ) → ℕ → Option ℕ → (ℕ → Option ℕ) → ℕ → Option ℕ
put_entry dst value j none m = m
put_entry dst value j (some e) m = update m (dst e) (value j e)

-- The first `n` entries of a list.
unfoldable pub put_list :
    ℕ → (ℕ → Option ℕ) → (ℕ → ℕ) → (ℕ → ℕ → Option ℕ) → (ℕ → Option ℕ) → ℕ → Option ℕ
unfolding put_entry
put_list zero l dst value m = m
put_list (suc n) l dst value m = put_entry dst value n (l n) (put_list n l dst value m)

-- Whether a list of length `n` holds the entry.
unfoldable pub listed : ℕ → (ℕ → Option ℕ) → Option ℕ → Bool
listed zero l x = false
listed (suc n) l x = listed n l x || same (l n) x

-- `active & (tl.load(ssd_ptr + k) != e)`
abbrev pub skipping : ℕ → (ℕ → Option ℕ) → (ℕ → Option ℕ) → ℕ → Option ℕ
skipping K ssd todo j = if listed K ssd (todo j) then none else todo j

module _ (K : ℕ) (todo ssd : ℕ → Option ℕ) (dst src : ℕ → ℕ) where
  -- The rows of the RAM tier when the reads in `landed` have landed.
  unfoldable pub read_rows : (ℕ → Bool) → (ℕ → Option ℕ) → ℕ → Option ℕ
  unfolding put_list
  read_rows landed = put_list K (λ i. if landed i then ssd i else none) src (λ _ e. some e)

  -- The launch with the fetch; `landed j` has the reads that have landed at the copy of entry `j`.
  unfoldable pub first_gather : (ℕ → ℕ → Bool) → Slabs → Slabs
  unfolding read_rows put_list listed
  first_gather landed m = record {
    rows = read_rows (λ _. true) m.rows;
    cache =
        put_list K (skipping K ssd todo) dst (λ j e. read_rows (landed j) m.rows (src e)) m.cache;
  }

  -- The launch for the experts that were read.
  unfoldable pub second_gather : Slabs → Slabs
  unfolding put_list
  second_gather m = record m { cache = put_list K ssd dst (λ j e. m.rows (src e)) m.cache }

-- The decode branch, for a layer whose rows start at `base`.
unfoldable pub forward_decode :
    TlSort → ℕ → (ℕ → ℕ → Bool) → AcquirePair → List (Option ℕ) → Slabs → Slabs
unfolding first_gather second_gather
forward_decode sort base landed p topk_ids m =
    let q = call sort p topk_ids in
    let dst : ℕ → ℕ = λ e. clamp (q.vram_slot e) in
    let src : ℕ → ℕ = λ e. clamp (q.ram_slot e) + base in
    second_gather (length topk_ids) q.vram_todo q.ram_todo dst src
      (first_gather (length topk_ids) q.vram_todo q.ram_todo dst src landed m)
