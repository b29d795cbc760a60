-- ===== src/Codec/Decode/Places.antt =====
-- Where a record has the sign and mantissa of a value: a word of eight of them for each lane.
use native.Mathlib.Nat.{mul_comm, div-div-eq-div-mul}
use vllm_expert_pager.Base.{
  ℕ, zero, suc, ◌+◌, ◌-◌, ◌*◌, ◌/◌, ◌%◌, ◌^◌, ◌<◌, ◌≡◌, sym, ap, ◌∙◌, arith,
}
use vllm_expert_pager.Codec.Bits.{bit_or-high_fields}
use vllm_expert_pager.Codec.Encode.{sign_mantissa}
use vllm_expert_pager.Codec.Decode.{word32}

pub sign_mantissa-lt : (x : ℕ) → x < 256 → sign_mantissa x < 16
unfolding sign_mantissa
sign_mantissa-lt x lx =
    let parts = bit_or-high_fields 3 (x / 2 ^ 7) (x % 8) (omega arith) in omega arith

all_eight :
    (n : ℕ → ℕ)
    → ((j : ℕ) → j < 8 → n j < 16)
    → (n 0 < 16)
      × (n 1 < 16)
      × (n 2 < 16)
      × (n 3 < 16)
      × (n 4 < 16)
      × (n 5 < 16)
      × (n 6 < 16)
      × (n 7 < 16)
all_eight n small = (
  small 0 (omega arith),
  small 1 (omega arith),
  small 2 (omega arith),
  small 3 (omega arith),
  small 4 (omega arith),
  small 5 (omega arith),
  small 6 (omega arith),
  small 7 (omega arith),
)

-- The word of eight values of four bits gives back each of them.
pub nibble_of :
    (n : ℕ → ℕ) (k : ℕ)
    → ((j : ℕ) → j < 8 → n j < 16)
    → k < 8
    → (n 0
          + n 1 * 2 ^ 4
          + 256 * (n 2 + n 3 * 2 ^ 4)
          + 256 ^ 2 * (n 4 + n 5 * 2 ^ 4)
          + 256 ^ 3 * (n 6 + n 7 * 2 ^ 4))
        / 2 ^ (4 * k)
        % 16
      ≡ n k
nibble_of n zero small lk = omega (arith, all_eight n small)
nibble_of n (suc zero) small lk = omega (arith, all_eight n small)
nibble_of n (suc (suc zero)) small lk = omega (arith, all_eight n small)
nibble_of n (suc (suc (suc zero))) small lk = omega (arith, all_eight n small)
nibble_of n (suc (suc (suc (suc zero)))) small lk = omega (arith, all_eight n small)
nibble_of n (suc (suc (suc (suc (suc zero))))) small lk = omega (arith, all_eight n small)
nibble_of n (suc (suc (suc (suc (suc (suc zero)))))) small lk = omega (arith, all_eight n small)
nibble_of n (suc (suc (suc (suc (suc (suc (suc zero))))))) small lk =
    omega (arith, all_eight n small)
nibble_of n (suc (suc (suc (suc (suc (suc (suc (suc k)))))))) small lk = absurd (omega arith)

grid : (c k n : ℕ) → k < n → ((c * n + k) / n ≡ c) × ((c * n + k) % n ≡ k)
grid c k n lt = grind arith

pub place_of :
    (g m lane c l : ℕ)
    → m < c
    → lane < l
    → ((g * c * l + m * l + lane) / (c * l) ≡ g)
      × ((g * c * l + m * l + lane) / l % c ≡ m)
      × ((g * c * l + m * l + lane) % l ≡ lane)
place_of g m lane c l lm ll =
    let whole_ : g * c * l + m * l + lane ≡ (g * c + m) * l + lane = grind arith in
    let (row, column) = grid (g * c + m) lane l ll in
    let (group, rest) = grid g m c lm in
    let over : (g * c * l + m * l + lane) / l ≡ g * c + m = ap (λ (t : ℕ). t / l) whole_ ∙ row in
    (
      ap (λ (t : ℕ). (g * c * l + m * l + lane) / t) (mul_comm c l)
          ∙ sym (div-div-eq-div-mul (g * c * l + m * l + lane) l c)
          ∙ ap (λ (t : ℕ). t / c) over
          ∙ group,
      ap (λ (t : ℕ). t % c) over ∙ rest,
      ap (λ (t : ℕ). t % l) whole_ ∙ column,
    )

pub in_fixed :
    (g m lane n c l : ℕ) → g < n → m < c → lane < l → g * c * l + m * l + lane < n * c * l
in_fixed g m lane n c l lg lm ll =
    let row : g * c + m < n * c = grind arith in
    let whole_ : g * c * l + m * l + lane ≡ (g * c + m) * l + lane = grind arith in
    let end : (g * c + m) * l + lane < n * c * l = grind arith in omega arith

pub eighths : (n c l : ℕ) → n * (c * 8) * l ≡ n * c * l * 8
eighths n c l = grind arith

pub twice : (r c m b : ℕ) → 2 * ((r * c + m) * 4 + b) ≡ r * (c * 8) + m * 8 + 2 * b
twice r c m b = grind arith

pub offset : (a w b : ℕ) → 4 * (a + w) + b - 4 * a ≡ 4 * w + b
offset a w b = omega arith

pub word32-four :
    (f : ℕ → ℕ) (i a b c d : ℕ)
    → f (4 * i + 0) ≡ a
    → f (4 * i + 1) ≡ b
    → f (4 * i + 2) ≡ c
    → f (4 * i + 3) ≡ d
    → word32 f i ≡ a + 256 * b + 256 ^ 2 * c + 256 ^ 3 * d
unfolding word32
word32-four f i a b c d ha hb hc hd =
    let first : 4 * i ≡ 4 * i + 0 = omega arith in omega (arith, ap f first)
