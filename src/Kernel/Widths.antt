-- ===== src/Kernel/Widths.antt =====
-- The number of lanes, `1 << (n - 1).bit_length()`.
use native.Mathlib.Nat.{pow-succ', pow-le-pow_right}
use vllm_expert_pager.Base.{
  ℕ, zero, suc, ◌-◌, ◌*◌, ◌/◌, ◌^◌, ◌≤◌, ◌<◌, ◌≡◌, refl, arith, ◌==◌, Bool-cases, inl, inr,
  ℕ_discrete, false, dec_lt,
}
use vllm_expert_pager.Kernel.{bit_length_fuel, bit_length, block_of}

pow-suc_lem : (k : ℕ) → 2 ^ suc k ≡ 2 * 2 ^ k
pow-suc_lem k = pow-succ' 2 k

bit_length_fuel-bound : (f n : ℕ) → n ≤ f → n < 2 ^ bit_length_fuel f n
unfolding bit_length_fuel
bit_length_fuel-bound zero n le = omega arith
bit_length_fuel-bound (suc f) n le = elim (Bool-cases (n == 0)) [
  | inl z ↦ ground arith
  | inr nz ↦
      rw nz
        (ground (arith, pow-suc_lem (bit_length_fuel f (n / 2)), bit_length_fuel-bound f (n / 2)))
]

bit_length_fuel-zero : (f : ℕ) → bit_length_fuel f 0 ≡ 0
unfolding bit_length_fuel
bit_length_fuel-zero zero = refl
bit_length_fuel-zero (suc f) = refl

bit_length_fuel-low : (f n : ℕ) → 0 < n → n ≤ f → 2 ^ bit_length_fuel f n ≤ 2 * n
unfolding bit_length_fuel
bit_length_fuel-low zero n pos le = absurd (omega arith)
bit_length_fuel-low (suc f) n pos le = elim (ℕ_discrete (n / 2) 0) [
  | yes z ↦ let one : n ≡ 1 = omega arith in rw one (rw (bit_length_fuel-zero f) (omega arith))
  | no nz ↦
      let nonzero : (n == 0) ≡ false = ground arith in
      rw nonzero (
        omega (
          arith,
          pow-suc_lem (bit_length_fuel f (n / 2)),
          bit_length_fuel-low f (n / 2) (omega arith) (omega arith),
        ))
]

-- The width is at least `n`, and less than twice `n`.
pub block_of_bounds : (n : ℕ) → 1 ≤ n → (n ≤ block_of n) × (block_of n < 2 * n)
unfolding block_of bit_length
block_of_bounds n pos = elim (ℕ_discrete n 1) [
  | yes one ↦ rw one (omega arith, omega arith)
  | no more ↦
      let nonzero : (n == 0) ≡ false = ground arith in
      let above = bit_length_fuel-bound (n - 1) (n - 1) (omega arith) in
      let below = bit_length_fuel-low (n - 1) (n - 1) (omega arith) (omega arith) in
      rw nonzero (omega arith, omega arith)
]

block_of-power : (n : ℕ) → (b : ℕ) × (block_of n ≡ 2 ^ b)
unfolding block_of
block_of-power n = elim (Bool-cases (n == 0)) [
  | inl z ↦ (1, rw z refl)
  | inr nz ↦ (bit_length (n - 1), rw nz refl)
]

-- A power of two that is wide enough for the count is wide enough for the block.
pub block_of-fits : (n k : ℕ) → 1 ≤ n → n ≤ 2 ^ k → block_of n ≤ 2 ^ k
block_of-fits n k pos le =
    let (b, q) = block_of-power n in
    elim (dec_lt k b) [
      | no narrow ↦
          omega (arith, q, pow-le-pow_right {n = 2} (omega arith) {i = b} {j = k} (omega arith))
      | yes wide ↦ absurd (
          omega (
            arith,
            q,
            (block_of_bounds n pos).1,
            pow-suc_lem k,
            pow-le-pow_right {n = 2} (omega arith) {i = suc k} {j = b} (omega arith),
          ))
    ]

pub block_of-covers : (n : ℕ) → n ≤ block_of n
block_of-covers n = elim (ℕ_discrete n 0) [
  | yes z ↦ omega arith
  | no nz ↦ (block_of_bounds n (omega arith)).0
]
