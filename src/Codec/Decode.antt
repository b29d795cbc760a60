-- ===== src/Codec/Decode.antt =====
-- src/vllm_expert_pager/codec.py: `_decode_group`, one program of the kernel that expands a record. Its
-- 32 lanes are functions of the lane; a 64-bit register is kept below 2 ^ 64. `level -= n` stops at 0 here
-- and `buf >> n` is a division: the source's int32 and int64 agree where `level` is at least `n` and `buf`
-- below 2 ^ 63. `G * CHUNK * LANES` is an int32 there and has no bound here;
-- they agree for rows of fewer than 2 ^ 31 values.
pub mod Fields
pub mod Places
pub mod Record
pub mod Streams
pub mod Registers
pub mod Packed
pub mod Rows
use vllm_expert_pager.Base.{
  ℕ, zero, suc, ◌+◌, ◌-◌, ◌*◌, ◌/◌, ◌%◌, ◌^◌, Bool, true, false, ltb, if◌then◌else◌,
}
use Prim.Native.Nat.{bit_or}
use vllm_expert_pager.Tensor.Count.{count}
use vllm_expert_pager.Tensor.Put.{index_put}
use vllm_expert_pager.Codec.{limit, lanes, lut_bytes}

-- A 32-bit word of a record, from its bytes.
unfoldable pub word32 : (ℕ → ℕ) → ℕ → ℕ
word32 bytes i =
    bytes (4 * i)
    + 256 * bytes (4 * i + 1)
    + 256 ^ 2 * bytes (4 * i + 2)
    + 256 ^ 3 * bytes (4 * i + 3)

-- `((s & 8) << 4) | ((ent >> 4) << 3) | (s & 7)`
unfoldable pub out_byte : ℕ → ℕ → ℕ
out_byte s ent = bit_or (bit_or (s / 8 % 2 * 2 ^ 7) (ent / 2 ^ 4 * 2 ^ 3)) (s % 8)

pub record Lanes : Type 0 where
  pub rp : ℕ
  pub buf : ℕ → ℕ
  pub level : ℕ → ℕ

module _ (lut8 src : ℕ → ℕ) (G chunk g : ℕ) where
  -- `nib32` and `huff32`, as word indices.
  abbrev pub nib32 : ℕ
  nib32 = G + 1 + g * (chunk / 8) * lanes

  abbrev pub huff32 : ℕ
  huff32 = G + 1 + G * chunk * lanes / 8

  unfoldable pub refills : Lanes → ℕ → Bool
  refills s lane = ltb (s.level lane) limit

  -- The word that a lane reads in this step.
  unfoldable pub read_word : Lanes → ℕ → ℕ
  unfolding word32 refills count
  read_word s lane =
      if refills s lane then word32 src (huff32 + s.rp + count (refills s) (suc lane) - 1) else 0

  unfoldable pub filled : Lanes → ℕ → ℕ
  unfolding read_word refills
  filled s lane =
      if refills s lane
      then bit_or (s.buf lane) (read_word s lane % 2 ^ 32 * 2 ^ s.level lane) % 2 ^ 64
      else s.buf lane

  unfoldable pub level_filled : Lanes → ℕ → ℕ
  unfolding refills
  level_filled s lane = if refills s lane then s.level lane + 32 else s.level lane

  -- `ent`
  unfoldable pub looked_up : Lanes → ℕ → ℕ
  unfolding filled
  looked_up s lane = lut8 (filled s lane % lut_bytes)

  -- The registers after one symbol.
  unfoldable pub advance : Lanes → Lanes
  unfolding refills filled level_filled looked_up count
  advance s = record {
    rp = s.rp + count (refills s) lanes;
    buf = λ lane. filled s lane / 2 ^ (looked_up s lane % 16);
    level = λ lane. level_filled s lane - looked_up s lane % 16;
  }

  -- The registers before symbol `i` of the chunks.
  unfoldable pub lanes_at : ℕ → ℕ → Lanes
  unfolding advance
  lanes_at rp zero = record { rp = rp; buf = λ _. 0; level = λ _. 0 }
  lanes_at rp (suc i) = advance (lanes_at rp i)

  -- `o` for value `k` of word `m`.
  unfoldable pub value_out : ℕ → ℕ → ℕ → ℕ → ℕ
  unfolding out_byte looked_up lanes_at word32
  value_out rp m k lane =
      out_byte (word32 src (nib32 + m * lanes + lane) / 2 ^ (4 * k) % 16)
        (looked_up (lanes_at rp (m * 8 + k)) lane)

  -- `out` after `k` values.
  unfoldable pub word_out : ℕ → ℕ → ℕ → ℕ → ℕ
  unfolding value_out
  word_out rp m zero lane = 0
  word_out rp m (suc k) lane =
      bit_or (word_out rp m k lane) (value_out rp m k lane * 2 ^ (8 * k)) % 2 ^ 64

  -- The 64-bit word that is stored at `(g * lanes + lane) * (chunk / 8) + m` of the row.
  unfoldable pub decode_group : ℕ → ℕ → ℕ → ℕ
  unfolding word_out
  decode_group rp m lane = word_out rp m 8 lane

module _ (lut8 src : ℕ → ℕ) (G chunk : ℕ) where
  -- The row after the first `m` words of each chunk of group `g`.
  unfoldable pub store_group : ℕ → ℕ → ℕ → (ℕ → ℕ) → ℕ → ℕ
  unfolding decode_group index_put
  store_group g rp zero dst = dst
  store_group g rp (suc m) dst =
      index_put lanes (λ lane. (g * lanes + lane) * (chunk / 8) + m)
        (decode_group lut8 src G chunk g rp m) (store_group g rp m dst)

  -- The row after the programs of its first `n` groups: each takes its `rp` from the record.
  unfoldable pub store_groups : ℕ → (ℕ → ℕ) → ℕ → ℕ
  unfolding store_group word32
  store_groups zero dst = dst
  store_groups (suc g) dst = store_group g (word32 src g) (chunk / 8) (store_groups g dst)
