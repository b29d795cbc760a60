-- ===== src/Codec/Expand.antt =====
-- src/vllm_expert_pager/codec.py: `_decode_rows_kernel` and `decode_rows`, the expansion of the rows of a
-- list. -1 is `none`; a slab is a function of the row and of the 64-bit word in it, and its programs run
-- one after another.
pub mod Rows
pub mod Decoded
use vllm_expert_pager.Base.{
  ℕ, zero, suc, ◌+◌, ◌-◌, ◌*◌, ◌/◌, Bool, true, false, ◌&&◌, not, Option, none, some, is_some, ltb,
  ◌==◌, if◌then◌else◌,
}
use vllm_expert_pager.Tensor.Put.{update}
use vllm_expert_pager.Table.{clamp}
use vllm_expert_pager.Codec.{lanes}
use vllm_expert_pager.Codec.Decode.{word32, store_group}

-- `groups`
abbrev pub groups : ℕ → ℕ → ℕ
groups n_bytes chunk = n_bytes / (chunk * lanes)

-- `tl.load(ssd_ptr + k) != e` for all `k` below `K`.
unfoldable pub not_listed : ℕ → (ℕ → Option ℕ) → ℕ → Bool
not_listed zero ssd e = true
not_listed (suc k) ssd e =
    not_listed k ssd e && not (elim (ssd k) [ none ↦ false | some d ↦ d == e ])

-- The two names' slabs, w13 and w2.
pub record Slabs : Type 0 where
  pub rows0 : ℕ → ℕ → ℕ
  pub rows1 : ℕ → ℕ → ℕ

module _ (K : ℕ) (todo dst_row cache_row : ℕ → Option ℕ) (stg0 stg1 : ℕ → ℕ → ℕ)
    (lut : ℕ → ℕ → ℕ → ℕ) (skip : Option (ℕ → Option ℕ)) (chunk N0 N1 : ℕ) where
  unfoldable pub active : ℕ → Bool
  unfolding not_listed
  active e =
      elim skip [ none ↦ true | some ssd ↦ not_listed K ssd e ] && not (is_some (cache_row e))

  -- The row that entry `j` of the list writes, if it is active.
  unfoldable pub target : ℕ → Option (ℕ × ℕ)
  unfolding active
  target j = elim (todo j) [
    | none ↦ none
    | some e ↦ if active e then some (e, clamp (dst_row e)) else none
  ]

  -- The calls of `_decode_group` in program `(j, g)`.
  unfoldable pub expand : ℕ → ℕ → ℕ → ℕ → Slabs → Slabs
  unfolding update store_group word32
  expand j g e row s =
      if ltb g (groups N0 chunk)
      then record s {
        rows0 = update s.rows0 row (
            store_group (lut e 0) (stg0 j) (groups N0 chunk) chunk g (word32 (stg0 j) g) (chunk / 8)
              (s.rows0 row));
      }
      else record s {
        rows1 = update s.rows1 row (
            store_group (lut e 1) (stg1 j) (groups N1 chunk) chunk (g - groups N0 chunk)
              (word32 (stg1 j) (g - groups N0 chunk)) (chunk / 8) (s.rows1 row));
      }

  -- `if active`
  abbrev pub expand_target : Option (ℕ × ℕ) → ℕ → ℕ → Slabs → Slabs
  expand_target none j g s = s
  expand_target (some (e, row)) j g s = expand j g e row s

  unfoldable pub program : ℕ → ℕ → Slabs → Slabs
  unfolding target expand
  program j g s = expand_target (target j) j g s

  -- The first `n` programs of entry `j`.
  unfoldable pub entry : ℕ → ℕ → Slabs → Slabs
  unfolding program
  entry j zero s = s
  entry j (suc g) s = program j g (entry j g s)

  -- The programs of the first `n` entries.
  unfoldable pub entries : ℕ → Slabs → Slabs
  unfolding entry
  entries zero s = s
  entries (suc j) s = entry j (groups N0 chunk + groups N1 chunk) (entries j s)

  unfoldable pub decode_rows : Slabs → Slabs
  unfolding entries
  decode_rows s = entries K s
