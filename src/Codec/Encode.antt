-- ===== src/Codec/Encode.antt =====
-- src/vllm_expert_pager/codec.py: `encode`, from a row of bytes to its record, for the lengths and codes
-- that `Code` gives for the row. A tensor of two dimensions is a function of two indices.
pub mod Size
pub mod Chunks
pub mod Refills
pub mod Keys
pub mod Interleave
pub mod Positions
use vllm_expert_pager.Base.{
  ℕ, zero, suc, ◌+◌, ◌-◌, ◌*◌, ◌/◌, ◌%◌, ◌^◌, Bool, true, false, ◌&&◌, not, ltb, leb, ◌==◌,
  if◌then◌else◌, Result, ok, raise, value_error, Option, none, some,
}
use Prim.Native.Nat.{bit_or, max}
use vllm_expert_pager.Tensor.Sum.{sum_below}
use vllm_expert_pager.Tensor.Count.{count}
use vllm_expert_pager.Tensor.Argsort.{Argsort, AnySort}
use vllm_expert_pager.Codec.{limit, lanes}
use vllm_expert_pager.Codec.Code.{make_lut, codes}

-- `torch.cumsum(f, 0) - f`
unfoldable pub cumsum_before : (ℕ → ℕ) → ℕ → ℕ
unfolding sum_below
cumsum_before f i = sum_below f (suc i) - f i

-- The largest of the first `n` entries.
unfoldable pub max_below : (ℕ → ℕ) → ℕ → ℕ
max_below f zero = 0
max_below f (suc n) = max (max_below f n) (f n)

-- `torch.searchsorted`: the first of `n` indices at which the test holds, and `n` if there is none.
unfoldable pub search : ℕ → (ℕ → Bool) → ℕ
search zero p = 0
search (suc n) p = let r = search n p in if ltb r n then r else if p n then n else suc n

-- `t.scatter_add_(0, idx, val)` for `n` writes.
unfoldable pub scatter_add : ℕ → (ℕ → ℕ) → (ℕ → ℕ) → (ℕ → ℕ) → ℕ → ℕ
scatter_add zero idx val t x = t x
scatter_add (suc n) idx val t x =
    let rest = scatter_add n idx val t x in if idx n == x then rest + val n else rest

-- `t[mask]`: the index of entry `j` of those that are set among `n`.
unfoldable pub masked : ℕ → (ℕ → Bool) → ℕ → ℕ
unfolding search count
masked n mask j = search n (λ q. mask q && count mask q == j)

-- `(x >> 3) & 15`
abbrev pub exponent : ℕ → ℕ
exponent x = x / 2 ^ 3 % 16

-- `((x >> 7) << 3) | (x & 7)`
unfoldable pub sign_mantissa : ℕ → ℕ
sign_mantissa x = bit_or (x / 2 ^ 7 * 2 ^ 3) (x % 8)

-- Byte `b` of a 32-bit word, lowest first.
abbrev pub byte_of : ℕ → ℕ → ℕ
byte_of v b = v / 256 ^ b % 256

module _ (sort : AnySort) (lengths codes : ℕ → ℕ) (chunk N : ℕ) (raw : ℕ → ℕ) where
  abbrev pub chunk_count : ℕ
  chunk_count = N / chunk

  abbrev pub group_count : ℕ
  group_count = N / (chunk * lanes)

  abbrev pub symbol : ℕ → ℕ → ℕ
  symbol c i = exponent (raw (c * chunk + i))

  -- `n`
  abbrev pub width : ℕ → ℕ → ℕ
  width c i = lengths (symbol c i)

  unfoldable pub before : ℕ → ℕ → ℕ
  unfolding cumsum_before
  before c = cumsum_before (width c)

  unfoldable pub nw : ℕ → ℕ
  unfolding before
  nw c = (before c (chunk - 1) + (limit - 1)) / 32 + 1

  unfoldable pub kmax : ℕ
  unfolding nw max_below
  kmax = max_below nw chunk_count

  -- `at`: the first symbol with `before >= 32 * k - (limit - 1)`.
  unfoldable pub refill_at : ℕ → ℕ → ℕ
  unfolding before search
  refill_at c k = search chunk (λ i. leb (32 * k) (before c i + (limit - 1)))

  unfoldable pub valid : ℕ → ℕ → Bool
  unfolding refill_at
  valid c k = ltb (refill_at c k) chunk

  unfoldable pub total_words : ℕ
  unfolding nw sum_below
  total_words = sum_below nw chunk_count

  abbrev pub head : ℕ
  head = 4 * (group_count + 1) + N / 2

  unfoldable pub wbase : ℕ → ℕ
  unfolding nw cumsum_before
  wbase = cumsum_before nw

  -- `start`, for the flattened index of a symbol.
  unfoldable pub start : ℕ → ℕ
  unfolding wbase before
  start q = wbase (q / chunk) * 32 + before (q / chunk) (q % chunk)

  -- `v`
  abbrev pub value : ℕ → ℕ
  value q = codes (exponent (raw q))

  unfoldable pub words : ℕ → ℕ
  unfolding start scatter_add
  words =
      scatter_add (chunk_count * chunk) (λ q. start q / 32 + 1)
        (λ q. value q / 2 ^ (32 - start q % 32))
        (scatter_add (chunk_count * chunk) (λ q. start q / 32)
          (λ q. value q * 2 ^ (start q % 32) % 2 ^ 32) (λ _. 0))

  -- `key`, `src` and `valid` for the flattened index of a word `(c, k)`.
  unfoldable pub key : ℕ → ℕ
  unfolding kmax refill_at
  key q = (q / kmax / lanes * chunk + refill_at (q / kmax) (q % kmax)) * lanes + q / kmax % lanes

  unfoldable pub word_source : ℕ → ℕ
  unfolding kmax wbase
  word_source q = wbase (q / kmax) + q % kmax

  unfoldable pub is_word : ℕ → Bool
  unfolding kmax valid
  is_word q = valid (q / kmax) (q % kmax)

  -- The flattened index of word `j` of those that are valid.
  unfoldable pub word_at : ℕ → ℕ
  unfolding masked is_word kmax
  word_at = masked (chunk_count * kmax) is_word

  unfoldable pub interleaved : ℕ → ℕ
  unfolding words key word_source word_at is_word kmax count
  interleaved j = words (
      word_source
        (word_at (sort.order (count is_word (chunk_count * kmax)) (λ i. key (word_at i)) j)))

  unfoldable pub per_group : ℕ → ℕ
  unfolding nw sum_below
  per_group g = sum_below (λ lane. nw (g * lanes + lane)) lanes

  unfoldable pub gstart : ℕ → ℕ
  unfolding per_group cumsum_before sum_below
  gstart g = if g == group_count then sum_below per_group group_count else cumsum_before per_group g

  -- `sm[0::2] | (sm[1::2] << 4)`
  unfoldable pub nibbles : ℕ → ℕ
  unfolding sign_mantissa
  nibbles b = bit_or (sign_mantissa (raw (2 * b))) (sign_mantissa (raw (2 * b + 1)) * 2 ^ 4)

  -- `fixed`, which stands in `(group, word, lane)` order.
  unfoldable pub fixed : ℕ → ℕ
  unfolding nibbles
  fixed x =
      let word = x / 4 in
      let g = word / (chunk / 8 * lanes) in
      let m = word / lanes % (chunk / 8) in
      nibbles (((g * lanes + word % lanes) * (chunk / 8) + m) * 4 + x % 4)

  -- The record, byte by byte.
  unfoldable pub record_bytes : ℕ → ℕ
  unfolding gstart fixed interleaved total_words
  record_bytes x =
      if ltb x (4 * (group_count + 1))
      then byte_of (gstart (x / 4)) (x % 4)
      else if ltb x head
      then fixed (x - 4 * (group_count + 1))
      else if ltb x (head + 4 * total_words)
      then byte_of (interleaved ((x - head) / 4)) ((x - head) % 4)
      else 0

  unfoldable pub nbytes : ℕ
  unfolding total_words
  nbytes = head + 4 * total_words

  -- The record, if it fits.
  unfoldable pub fit_record : ℕ → Result (ℕ → ℕ)
  unfolding record_bytes nbytes
  fit_record pitch = if ltb pitch nbytes then raise value_error else ok record_bytes

-- `torch.tensor(code.lut, dtype=torch.uint8)`, with -1 as 255.
unfoldable pub lut_tensor : (ℕ → Option ℕ) → ℕ → ℕ
lut_tensor l x = elim (l x) [ none ↦ 255 | some v ↦ v ]

-- The record and the table of a row, for the code lengths of its histogram.
unfoldable pub encode :
    Argsort → AnySort → (ℕ → ℕ) → ℕ → ℕ → (ℕ → ℕ) → ℕ → Result ((ℕ → ℕ) × (ℕ → ℕ))
unfolding fit_record lut_tensor make_lut codes
encode sort argsort lengths chunk N raw pitch =
    if not (N % (chunk * lanes) == 0) then raise value_error else elim (make_lut sort lengths) [
      | raise e ↦ raise e
      | ok lut ↦ elim (fit_record argsort lengths (codes sort lengths) chunk N raw pitch) [
        | raise e ↦ raise e
        | ok record_ ↦ ok (record_, lut_tensor lut)
      ]
    ]
