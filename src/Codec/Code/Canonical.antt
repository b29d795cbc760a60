-- ===== src/Codec/Code/Canonical.antt =====
-- The codes as intervals: the code of turn `i` stands for the numbers of `limit` bits that begin with
-- it, and the intervals of the turns follow each other.
use native.Mathlib.Nat.{pow-suc, mul_assoc}
use vllm_expert_pager.Base.{
  ℕ, zero, suc, ◌+◌, ◌-◌, ◌*◌, ◌/◌, ◌%◌, ◌^◌, ◌≤◌, ◌<◌, ◌≡◌, refl, sym, ap, ◌∙◌, ◌≢◌, arith,
  ℕ_discrete, dec_lt,
}
use vllm_expert_pager.Tensor.Put.{update}
use vllm_expert_pager.Tensor.Argsort.{Argsort}
use vllm_expert_pager.Tensor.Sum.{sum_below}
use vllm_expert_pager.Codec.{limit}
use vllm_expert_pager.Codec.Bits.{mirror, pow-add}
use vllm_expert_pager.Codec.Code.{order, code_at, canon, reversed, read_reversed}

push_digit : (acc d p m : ℕ) → (acc * 2 + d) * p + m ≡ acc * (p * 2) + (d * p + m)
push_digit acc d p m = grind arith

read_reversed-mirror :
    (fuel n c acc : ℕ)
    → n ≤ fuel
    → c < 2 ^ n
    → read_reversed fuel n c acc ≡ acc * 2 ^ n + mirror n c
unfolding read_reversed mirror
read_reversed-mirror zero zero c acc le fits = omega arith
read_reversed-mirror zero (suc n) c acc le fits = absurd (omega arith)
read_reversed-mirror (suc fuel) zero c acc le fits = ground arith
read_reversed-mirror (suc fuel) (suc n) c acc le fits =
    let rest =
      read_reversed-mirror fuel n (c / 2) (acc * 2 + c % 2) (omega arith)
        (omega (arith, pow-suc 2 n)) in
    ground (
      arith,
      rest,
      push_digit acc (c % 2) (2 ^ n) (mirror n (c / 2)),
      ap (λ (t : ℕ). acc * t) (pow-suc 2 n),
    )

-- When `c` has no more than `n` digits, its reversal has the `n` lowest.
pub reversed-mirror : (n c : ℕ) → c < 2 ^ n → reversed n c ≡ mirror n c
unfolding reversed
reversed-mirror n c fits = omega (arith, read_reversed-mirror (n + c) n c 0 (omega arith) fits)

module _ (sort : Argsort) (lengths : ℕ → ℕ) (short : (s : ℕ) → s < 16 → lengths s ≤ limit) where
  abbrev pub width : ℕ → ℕ
  width i = 2 ^ (limit - lengths (order sort lengths i))

  -- The numbers before those of turn `i`.
  abbrev pub left : ℕ → ℕ
  left = sum_below width

  order-lt : (i : ℕ) → i < 16 → order sort lengths i < 16
  unfolding order
  order-lt i li = sort.bounded 16 lengths i li

  order-le :
      (i : ℕ) → suc i < 16 → lengths (order sort lengths i) ≤ lengths (order sort lengths (suc i))
  unfolding order
  order-le i li = let before = sort.ascending 16 lengths i (suc i) (omega arith) li in ground arith

  pub order-injective :
      (i j : ℕ) → i < 16 → j < 16 → order sort lengths i ≡ order sort lengths j → i ≡ j
  unfolding order
  order-injective i j li lj q = elim (dec_lt i j) [
    | yes lt ↦
        let before = sort.ascending 16 lengths i j lt lj in absurd (ground (arith, ap lengths q))
    | no ge ↦ elim (dec_lt j i) [
      | yes gt ↦
          let before = sort.ascending 16 lengths j i gt li in absurd (ground (arith, ap lengths q))
      | no le ↦ omega arith
    ]
  ]

  widen : (c m n : ℕ) → c * 2 ^ m * 2 ^ n ≡ c * 2 ^ (m + n)
  widen c m n = mul_assoc c (2 ^ m) (2 ^ n) ∙ ap (λ (t : ℕ). c * t) (sym (pow-add 2 m n))

  -- The code of turn `i` begins the interval of turn `i`.
  pub code_at-left : (i : ℕ) → i < 16 → code_at sort lengths i * width i ≡ left i
  unfolding code_at sum_below
  code_at-left zero li = omega arith
  code_at-left (suc i) li =
      let before = code_at-left i (omega arith) in
      let long = order-le i li in
      let fits = short (order sort lengths (suc i)) (order-lt (suc i) li) in
      let exponent : lengths (order sort lengths (suc i))
            - lengths (order sort lengths i)
            + (limit - lengths (order sort lengths (suc i)))
          ≡ limit - lengths (order sort lengths i) =
        omega arith in
      widen (code_at sort lengths i + 1)
        (lengths (order sort lengths (suc i)) - lengths (order sort lengths i))
        (limit - lengths (order sort lengths (suc i)))
      ∙ ap (λ (e : ℕ). (code_at sort lengths i + 1) * 2 ^ e) exponent
      ∙ omega arith

  canon-later :
      (n i s : ℕ)
      → n ≤ 16
      → i < n
      → order sort lengths i ≡ s
      → canon sort lengths n s ≡ code_at sort lengths i
  unfolding canon update
  canon-later zero i s le li q = absurd (omega arith)
  canon-later (suc n) i s le li q = elim (ℕ_discrete i n) [
    | yes here ↦ ground (arith, ap (order sort lengths) here, ap (code_at sort lengths) here)
    | no other ↦
        let apart : order sort lengths n ≢ s =
          λ h. other (order-injective i n (omega arith) (omega arith) (q ∙ sym h)) in
        ground (arith, canon-later n i s (omega arith) (omega arith) q)
  ]

  -- `canon` has the code of the turn of each symbol.
  pub canon-turn :
      (i : ℕ) → i < 16 → canon sort lengths 16 (order sort lengths i) ≡ code_at sort lengths i
  canon-turn i li = canon-later 16 i (order sort lengths i) (omega arith) li refl
