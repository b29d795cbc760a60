-- ===== src/Codec/Encode/Chunks.antt =====
-- The words of each chunk before they are interleaved: its stream of codes, cut at 32 bits.
use native.Mathlib.Nat.{div-eq_of_lt, lt_of_lt_of_le, pow-le-pow_right, zero-div}
use vllm_expert_pager.Base.{
  ℕ, zero, suc, ◌+◌, ◌-◌, ◌*◌, ◌/◌, ◌%◌, ◌^◌, ◌≤◌, ◌<◌, ◌≡◌, ◌≢◌, sym, ap, ◌∙◌, arith, dec_lt, ◌==◌,
  if◌then◌else◌,
}
use vllm_expert_pager.Tensor.Sum.{
  sum_below, sum_below-le, sum_below-ext, sum_below-add, sum_below-zero, sum_below-single,
  sum_below-grid,
}
use vllm_expert_pager.Tensor.Argsort.{AnySort}
use vllm_expert_pager.Codec.{limit}
use vllm_expert_pager.Codec.Words.{gains_word, fields_lt, pow_split, pow_pos}
use vllm_expert_pager.Codec.Encode.{
  cumsum_before, scatter_add, symbol, width, before, nw, wbase, start, value, words, chunk_count,
}

pub cumsum_before-sum : (f : ℕ → ℕ) (i : ℕ) → cumsum_before f i ≡ sum_below f i
unfolding cumsum_before sum_below
cumsum_before-sum f i = omega arith

scatter_add-sum :
    (n : ℕ) (idx val t : ℕ → ℕ) (x : ℕ)
    → scatter_add n idx val t x ≡ t x + sum_below (λ q. if idx q == x then val q else 0) n
unfolding scatter_add sum_below
scatter_add-sum zero idx val t x = omega arith
scatter_add-sum (suc n) idx val t x = ground (arith, scatter_add-sum n idx val t x)

grid : (c i n : ℕ) → i < n → ((c * n + i) / n ≡ c) × ((c * n + i) % n ≡ i)
grid c i n lt = grind arith

module _ (sort : AnySort) (lengths codes : ℕ → ℕ) (chunk N : ℕ) (raw : ℕ → ℕ)
    (short : (s : ℕ) → s < 16 → lengths s ≤ limit)
    (fits : (s : ℕ) → s < 16 → codes s < 2 ^ lengths s) (some_chunk : 0 < chunk) where
  abbrev pub bit : ℕ → ℕ → ℕ
  bit = before sort lengths codes chunk N raw

  abbrev pub wide : ℕ → ℕ → ℕ
  wide = width sort lengths codes chunk N raw

  abbrev pub code : ℕ → ℕ → ℕ
  code c i = codes (symbol sort lengths codes chunk N raw c i)

  abbrev pub words_of : ℕ → ℕ
  words_of = nw sort lengths codes chunk N raw

  abbrev pub base : ℕ → ℕ
  base = wbase sort lengths codes chunk N raw

  abbrev pub rows : ℕ
  rows = chunk_count sort lengths codes chunk N raw

  -- The bits of the codes of the first `n` symbols of a chunk.
  unfoldable pub stream : ℕ → ℕ → ℕ
  stream c zero = 0
  stream c (suc n) = stream c n + code c n * 2 ^ bit c n

  pub bit-zero : (c : ℕ) → bit c 0 ≡ 0
  unfolding before sum_below
  bit-zero c = cumsum_before-sum (wide c) 0

  pub bit-suc : (c i : ℕ) → bit c (suc i) ≡ bit c i + wide c i
  unfolding before sum_below
  bit-suc c i = omega (arith, cumsum_before-sum (wide c) i, cumsum_before-sum (wide c) (suc i))

  pub wide-le : (c i : ℕ) → wide c i ≤ limit
  wide-le c i = short (symbol sort lengths codes chunk N raw c i) (omega arith)

  pub code-lt : (c i : ℕ) → code c i < 2 ^ wide c i
  code-lt c i = fits (symbol sort lengths codes chunk N raw c i) (omega arith)

  pub bit-le : (c i j : ℕ) → i ≤ j → bit c i ≤ bit c j
  unfolding before
  bit-le c i j le = omega (
    arith,
    cumsum_before-sum (wide c) i,
    cumsum_before-sum (wide c) j,
    sum_below-le (wide c) i j le,
  )

  pub stream-lt : (c n : ℕ) → stream c n < 2 ^ bit c n
  unfolding stream
  stream-lt c zero = pow_pos (bit c 0)
  stream-lt c (suc n) = omega (
    arith,
    fields_lt (stream c n) (code c n) (2 ^ bit c n) (2 ^ wide c n) (stream-lt c n) (code-lt c n),
    pow_split (bit c (suc n)) (bit c n) (wide c n) (bit-suc c n),
  )

  -- The bits of a chunk end within its words.
  pub bit-end : (c i : ℕ) → i < chunk → bit c i + limit ≤ 32 * words_of c
  unfolding nw
  bit-end c i li = let last = bit-le c i (chunk - 1) (omega arith) in omega arith

  pub base-zero : base 0 ≡ 0
  unfolding wbase sum_below
  base-zero = cumsum_before-sum words_of 0

  pub base-suc : (c : ℕ) → base (suc c) ≡ base c + words_of c
  unfolding wbase sum_below
  base-suc c = omega (arith, cumsum_before-sum words_of c, cumsum_before-sum words_of (suc c))

  pub base-le : (c d : ℕ) → c ≤ d → base c ≤ base d
  unfolding wbase
  base-le c d le = omega (
    arith,
    cumsum_before-sum words_of c,
    cumsum_before-sum words_of d,
    sum_below-le words_of c d le,
  )

  -- What the code of symbol `i` of chunk `c` adds to word `x`.
  abbrev gain : ℕ → ℕ → ℕ → ℕ
  gain x c i =
      let b = base c * 32 + bit c i in
      (if b / 32 == x then code c i * 2 ^ (b % 32) % 2 ^ 32 else 0)
      + (if b / 32 + 1 == x then code c i / 2 ^ (32 - b % 32) else 0)

  -- The same, for a symbol whose place is computed.
  gain_at : ℕ → ℕ → ℕ → ℕ → ℕ
  gain_at x v c i =
      let b = base c * 32 + bit c i in
      (if b / 32 == x then v * 2 ^ (b % 32) % 2 ^ 32 else 0)
      + (if b / 32 + 1 == x then v / 2 ^ (32 - b % 32) else 0)

  words-gains :
      (x : ℕ)
      → words sort lengths codes chunk N raw x ≡ sum_below (λ c. sum_below (gain x c) chunk) rows
  unfolding words start gain_at
  words-gains x = omega (
    arith,
    scatter_add-sum (rows * chunk) (λ q. place q / 32 + 1) high_value
        (scatter_add (rows * chunk) (λ q. place q / 32) low_value (λ _. 0)) x,
    scatter_add-sum (rows * chunk) (λ q. place q / 32) low_value (λ _. 0) x,
    sum_below-add low high (rows * chunk),
    sum_below-grid (λ q. low q + high q) rows chunk,
    cells,
  )
    where
      place : ℕ → ℕ
      place = start sort lengths codes chunk N raw

      low_value : ℕ → ℕ
      low_value q = value sort lengths codes chunk N raw q * 2 ^ (place q % 32) % 2 ^ 32

      high_value : ℕ → ℕ
      high_value q = value sort lengths codes chunk N raw q / 2 ^ (32 - place q % 32)

      low : ℕ → ℕ
      low q = if place q / 32 == x then low_value q else 0

      high : ℕ → ℕ
      high q = if place q / 32 + 1 == x then high_value q else 0

      cells :
          sum_below (λ c. sum_below (λ i. low (c * chunk + i) + high (c * chunk + i)) chunk) rows
          ≡ sum_below (λ c. sum_below (gain x c) chunk) rows
      cells = sum_below-ext _ _ rows (λ c lc. sum_below-ext _ _ chunk (λ i li.
          ap (λ (d : ℕ). gain_at x (code c i) d ((c * chunk + i) % chunk)) (grid c i chunk li).0
          ∙ ap (gain_at x (code c i) c) (grid c i chunk li).1))

  high-zero : (c i : ℕ) → bit c i % 32 + limit ≤ 32 → code c i / 2 ^ (32 - bit c i % 32) ≡ 0
  high-zero c i room =
      div-eq_of_lt
        (lt_of_lt_of_le (code-lt c i) (pow-le-pow_right (omega arith) (omega (arith, wide-le c i))))

  -- A code that is not of the chunk of a word adds nothing to it.
  gain-other : (c d k i : ℕ) → c ≢ d → k < words_of c → i < chunk → gain (base c + k) d i ≡ 0
  gain-other c d k i ne lk li =
      let end = bit-end d i li in
      let place : (base d * 32 + bit d i) / 32 ≡ base d + bit d i / 32 = omega arith in
      let rest : (base d * 32 + bit d i) % 32 ≡ bit d i % 32 = omega arith in
      elim (dec_lt c d) [
        | yes lt ↦
            let after : base c + words_of c ≤ base d =
              omega (arith, base-suc c, base-le (suc c) d lt) in
            ground arith
        | no ge ↦
            let after : base d + words_of d ≤ base c =
              omega (arith, base-suc d, base-le (suc d) c (omega arith)) in
            let crossing : bit d i % 32 + limit ≤ 32 → code d i / 2 ^ (32 - bit d i % 32) ≡ 0 =
              λ room. high-zero d i room in
            ground (arith, crossing)
      ]

  -- Word `k` of a chunk has bits `32 * k` to `32 * k + 31` of its stream.
  gain-stream :
      (c k n : ℕ)
      → n ≤ chunk
      → sum_below (gain (base c + k) c) n ≡ stream c n / 2 ^ (32 * k) % 2 ^ 32
  unfolding sum_below stream
  gain-stream c k zero le = sym (ap (λ (t : ℕ). t % 2 ^ 32) (zero-div (2 ^ (32 * k))))
  gain-stream c k (suc n) le =
      let one =
        gains_word (stream c n) (code c n) (bit c n) (wide c n) (bit c n / 32) (bit c n % 32) k
          (stream-lt c n) (code-lt c n) (wide-le c n) (omega arith) (omega arith) in
      let place : (base c * 32 + bit c n) / 32 ≡ base c + bit c n / 32 = omega arith in
      let rest : (base c * 32 + bit c n) % 32 ≡ bit c n % 32 = omega arith in
      ground (arith, gain-stream c k n, one)

  -- Word `k` of chunk `c`, before the words are interleaved.
  pub words-stream :
      (c k : ℕ)
      → c < rows
      → k < words_of c
      → words sort lengths codes chunk N raw (base c + k) ≡ stream c chunk / 2 ^ (32 * k) % 2 ^ 32
  words-stream c k lc lk =
      words-gains (base c + k)
      ∙ sum_below-single (λ d. sum_below (gain (base c + k) d) chunk) rows c lc
          (λ d ld ne.
            sum_below-ext (gain (base c + k) d) (λ _. 0) chunk
              (λ i li. gain-other c d k i (λ e. ne (sym e)) lk li)
            ∙ sum_below-zero chunk)
      ∙ gain-stream c k chunk (omega arith)
