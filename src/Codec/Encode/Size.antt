-- ===== src/Codec/Encode/Size.antt =====
-- How large a record of `encode` can get: src/vllm_expert_pager/codec.py.
use vllm_expert_pager.Base.{ℕ, zero, suc, ◌+◌, ◌-◌, ◌*◌, ◌/◌, ◌≤◌, ◌<◌, arith}
use vllm_expert_pager.Tensor.Sum.{sum_below}
use vllm_expert_pager.Tensor.Argsort.{AnySort}
use vllm_expert_pager.Codec.{limit, lanes}
use vllm_expert_pager.Codec.Encode.{
  cumsum_before, symbol, before, nw, total_words, chunk_count, nbytes,
}

sum_below-bound : (f : ℕ → ℕ) (k n : ℕ) → ((i : ℕ) → f i ≤ k) → sum_below f n ≤ n * k
unfolding sum_below
sum_below-bound f k zero h = omega arith
sum_below-bound f k (suc n) h = ground (arith, sum_below-bound f k n h, h n)

-- The 32-bit words of a chunk whose codes all have nine bits.
abbrev pub most_words : ℕ → ℕ
most_words chunk = (limit * (chunk - 1) + (limit - 1)) / 32 + 1

-- The bytes of a record whose chunks all have these words.
abbrev pub most_bytes : ℕ → ℕ → ℕ
most_bytes chunk N = 4 * (N / (chunk * lanes) + 1) + N / 2 + 4 * (N / chunk * most_words chunk)

module _ (sort : AnySort) (lengths codes : ℕ → ℕ) (chunk N : ℕ) (raw : ℕ → ℕ)
    (short : (s : ℕ) → s < 16 → lengths s ≤ limit) where
  before-bound : (c i : ℕ) → before sort lengths codes chunk N raw c i ≤ i * limit
  unfolding before cumsum_before sum_below
  before-bound c i =
      let width-le = λ (j : ℕ). short (symbol sort lengths codes chunk N raw c j) (omega arith) in
      omega (
        arith,
        sum_below-bound (λ j. lengths (symbol sort lengths codes chunk N raw c j)) limit i width-le,
      )

  nw-bound : (c : ℕ) → nw sort lengths codes chunk N raw c ≤ most_words chunk
  unfolding nw
  nw-bound c = omega (arith, before-bound c (chunk - 1))

  pub nbytes-bound : nbytes sort lengths codes chunk N raw ≤ most_bytes chunk N
  unfolding nbytes total_words
  nbytes-bound = omega (
    arith,
    sum_below-bound (nw sort lengths codes chunk N raw) (most_words chunk)
        (chunk_count sort lengths codes chunk N raw) nw-bound,
  )
