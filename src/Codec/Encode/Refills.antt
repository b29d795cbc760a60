-- ===== src/Codec/Encode/Refills.antt =====
-- When a lane needs its next word: `at` of `encode`.
use vllm_expert_pager.Base.{
  ℕ, zero, suc, ◌+◌, ◌-◌, ◌*◌, ◌/◌, ◌^◌, ◌≤◌, ◌<◌, ◌≡◌, ◌⊎◌, refl, sym, ap, ◌∙◌, inl, inr, Bool,
  true, false, arith, ℕ_discrete, dec_lt, ltb, leb, ◌==◌, ◌&&◌, Bool-cases,
}
use vllm_expert_pager.Tensor.Argsort.{AnySort}
use vllm_expert_pager.Tensor.Count.{count, count-onto, count-suc, count_mono}
use vllm_expert_pager.Codec.{limit}
use vllm_expert_pager.Codec.Encode.{search, masked, nw, refill_at}
use vllm_expert_pager.Codec.Encode.Chunks.{bit, bit-zero, bit-suc, wide-le, words_of}

pub search-le : (n : ℕ) (p : ℕ → Bool) → search n p ≤ n
unfolding search
search-le zero p = omega arith
search-le (suc n) p = ground (arith, search-le n p)

pub search-before : (n : ℕ) (p : ℕ → Bool) (j : ℕ) → j < search n p → p j ≡ false
unfolding search
search-before zero p j lt = absurd (omega arith)
search-before (suc n) p j lt = elim (Bool-cases (ltb (search n p) n)) [
  | inl found ↦ search-before n p j (ground arith)
  | inr none_ ↦ elim (ℕ_discrete j n) [
    | yes here ↦ elim (Bool-cases (p n)) [
      | inl on ↦ absurd (ground arith)
      | inr off ↦ ap p here ∙ off
    ]
    | no ne ↦ search-before n p j (ground (arith, search-le n p))
  ]
]

pub search-here : (n : ℕ) (p : ℕ → Bool) → search n p < n → p (search n p) ≡ true
unfolding search
search-here zero p lt = absurd (omega arith)
search-here (suc n) p lt = elim (Bool-cases (ltb (search n p) n)) [
  | inl found ↦ rw found (search-here n p (ground arith))
  | inr none_ ↦ elim (Bool-cases (p n)) [
    | inl on ↦ rw (none_, on) on
    | inr off ↦ absurd (ground arith)
  ]
]

-- The first index at which the test holds is the result.
pub search-first :
    (n : ℕ) (p : ℕ → Bool) (i : ℕ)
    → i < n
    → p i ≡ true
    → ((j : ℕ) → j < i → p j ≡ false)
    → search n p ≡ i
search-first n p i li on off = elim (dec_lt (search n p) i) [
  | yes low ↦ absurd (ground (arith, off (search n p) low, search-here n p (omega arith)))
  | no ge ↦ elim (dec_lt i (search n p)) [
    | yes high ↦ absurd (ground (arith, search-before n p i high))
    | no le ↦ omega arith
  ]
]

-- Entry `j` of the set ones is the one with `j` before it.
pub masked-rank :
    (n : ℕ) (mask : ℕ → Bool) (q : ℕ) → q < n → mask q ≡ true → masked n mask (count mask q) ≡ q
unfolding masked
masked-rank n mask q lq mq =
    search-first n (λ x. mask x && count mask x == count mask q) q lq (ground arith)
      (λ j lj. elim (Bool-cases (mask j)) [
        | inr off ↦ ground arith
        | inl on ↦ ground (arith, count-suc mask j on, count_mono mask (suc j) q lj)
      ])

pub masked-set :
    (n : ℕ) (mask : ℕ → Bool) (j : ℕ)
    → j < count mask n
    → (masked n mask j < n) × (mask (masked n mask j) ≡ true) × (count mask (masked n mask j) ≡ j)
masked-set n mask j lj =
    let (e, le, me, rank) = count-onto mask n j lj in
    let ranked : count mask e ≡ j = omega (arith, count-suc mask e me) in
    let here : masked n mask j ≡ e = ap (masked n mask) (sym ranked) ∙ masked-rank n mask e le me in
    (omega arith, ap mask here ∙ me, ap (count mask) here ∙ ranked)

module _ (sort : AnySort) (lengths codes : ℕ → ℕ) (chunk N : ℕ) (raw : ℕ → ℕ)
    (short : (s : ℕ) → s < 16 → lengths s ≤ limit)
    (fits : (s : ℕ) → s < 16 → codes s < 2 ^ lengths s) (some_chunk : 0 < chunk) where
  abbrev at_bit : ℕ → ℕ → ℕ
  at_bit = bit sort lengths codes chunk N raw short fits some_chunk

  abbrev refill : ℕ → ℕ → ℕ
  refill = refill_at sort lengths codes chunk N raw

  -- The words that a lane has loaded before symbol `i`.
  abbrev pub loaded : ℕ → ℕ → ℕ
  loaded c zero = 0
  loaded c (suc i) = (at_bit c i + (limit - 1)) / 32 + 1

  pub loaded_steps :
      (c i : ℕ) → (loaded c (suc i) ≡ loaded c i) ⊎ (loaded c (suc i) ≡ loaded c i + 1)
  loaded_steps c zero =
      inr (omega (arith, bit-zero sort lengths codes chunk N raw short fits some_chunk c))
  loaded_steps c (suc i) =
      let next = bit-suc sort lengths codes chunk N raw short fits some_chunk c i in
      let narrow = wide-le sort lengths codes chunk N raw short fits some_chunk c i in ground arith

  pub loaded-le : (c i j : ℕ) → i ≤ j → loaded c i ≤ loaded c j
  loaded-le c i zero le = let q : i ≡ 0 = omega arith in rw q (omega arith)
  loaded-le c i (suc j) le = elim (ℕ_discrete i (suc j)) [
    | yes q ↦ rw q (omega arith)
    | no ne ↦ ground (arith, loaded-le c i j (omega arith), loaded_steps c j)
  ]

  -- In the end it has loaded all words of its chunk.
  pub loaded-end :
      (c : ℕ) → loaded c chunk ≡ words_of sort lengths codes chunk N raw short fits some_chunk c
  unfolding nw
  loaded-end c = ap (loaded c) last
    where
      last : chunk ≡ suc (chunk - 1)
      last = omega arith

  -- A lane loads word `k` before symbol `i` exactly if `at` says so.
  pub refill_at-loaded :
      (c k i : ℕ) → i < chunk → loaded c i ≡ k → loaded c (suc i) ≡ k + 1 → refill c k ≡ i
  unfolding refill_at
  refill_at-loaded c k i li before_ after_ =
      search-first chunk (λ j. leb (32 * k) (at_bit c j + (limit - 1))) i li (ground arith)
        (λ j lj. let le = loaded-le c (suc j) i lj in ground arith)

  pub loaded-refill_at :
      (c k : ℕ)
      → refill c k < chunk
      → (loaded c (refill c k) ≡ k) × (loaded c (suc (refill c k)) ≡ k + 1)
  unfolding refill_at
  loaded-refill_at c k lt =
      let on = search-here chunk (λ j. leb (32 * k) (at_bit c j + (limit - 1))) lt in
      let below = low (refill c k) refl in ground (arith, loaded_steps c (refill c k))
    where
      low : (r : ℕ) → r ≡ refill c k → loaded c r ≤ k
      low zero q = omega arith
      low (suc r) q =
          let off =
            search-before chunk (λ j. leb (32 * k) (at_bit c j + (limit - 1))) r (omega arith) in
          ground arith
