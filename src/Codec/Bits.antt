-- ===== src/Codec/Bits.antt =====
-- Bit fields as arithmetic: `|` of disjoint fields, and the reversal of the lowest bits.
use Prim.Native.Nat.{bit_or, bit_or-bitwise, digits, max}
use native.Mathlib.Nat.{pow-suc, pow-zero, zero-add, suc-add, add-zero, add-suc, mul_assoc}
use native.Mathlib.Numerals.{add-one}
use vllm_expert_pager.Base.{
  ℕ, zero, suc, ◌+◌, ◌*◌, ◌/◌, ◌%◌, ◌^◌, ◌≤◌, ◌<◌, ◌≡◌, refl, sym, ap, ◌∙◌, arith,
}

-- The digits of `a` and `b` from the lowest, as the native operation computes them.
abbrev or_fuel : ℕ → ℕ → ℕ → ℕ
or_fuel n a b = digits (λ d. d) max n a b

or_fuel-enough : (n m a b : ℕ) → a ≤ n → a ≤ m → or_fuel n a b ≡ or_fuel m a b
or_fuel-enough zero zero a b p q = refl
or_fuel-enough zero (suc m) zero b p q = refl
or_fuel-enough zero (suc m) (suc a) b p q = absurd (omega arith)
or_fuel-enough (suc n) zero zero b p q = refl
or_fuel-enough (suc n) zero (suc a) b p q = absurd (omega arith)
or_fuel-enough (suc n) (suc m) zero b p q = refl
or_fuel-enough (suc n) (suc m) (suc a) b p q =
    omega (arith, or_fuel-enough n m (suc a / 2) (b / 2) (omega arith) (omega arith))

zero-bit_or : (b : ℕ) → bit_or 0 b ≡ b
zero-bit_or b = bit_or-bitwise 0 b

bit_or_halves : (a b : ℕ) → bit_or a b ≡ bit_or (a / 2) (b / 2) * 2 + max (a % 2) (b % 2)
bit_or_halves zero b = omega (arith, zero-bit_or b, zero-bit_or (b / 2))
bit_or_halves (suc a) b = omega (
  arith,
  bit_or-bitwise (suc a) b,
  bit_or-bitwise (suc a / 2) (b / 2),
  or_fuel-enough a (suc a / 2) (suc a / 2) (b / 2) (omega arith) (omega arith),
)

double_shift : (q k : ℕ) → q * 2 ^ suc k ≡ 2 * (q * 2 ^ k)
double_shift q k = omega (arith, ap (λ (t : ℕ). q * t) (pow-suc 2 k))

-- A low field and a high one do not overlap.
pub bit_or-fields : (k r q : ℕ) → r < 2 ^ k → bit_or r (q * 2 ^ k) ≡ r + q * 2 ^ k
bit_or-fields zero r q fits =
    let none_low : r ≡ 0 = omega arith in rw none_low (omega (arith, zero-bit_or (q * 2 ^ 0)))
bit_or-fields (suc k) r q fits = ground (
  arith,
  bit_or_halves r (q * 2 ^ suc k),
  double_shift q k,
  pow-suc 2 k,
  bit_or-fields k (r / 2) q (omega (arith, pow-suc 2 k)),
)

bit_or-zero_fuel : (n a : ℕ) → a ≤ n → bit_or a 0 ≡ a
bit_or-zero_fuel n zero le = zero-bit_or 0
bit_or-zero_fuel zero (suc a) le = absurd (omega arith)
bit_or-zero_fuel (suc n) (suc a) le =
    omega (arith, bit_or_halves (suc a) 0, bit_or-zero_fuel n (suc a / 2) (omega arith))

pub bit_or-high_fields : (k q r : ℕ) → r < 2 ^ k → bit_or (q * 2 ^ k) r ≡ q * 2 ^ k + r
bit_or-high_fields zero q r fits =
    let none_low : r ≡ 0 = omega arith in
    rw none_low (omega (arith, bit_or-zero_fuel (q * 2 ^ 0) (q * 2 ^ 0) (omega arith)))
bit_or-high_fields (suc k) q r fits = ground (
  arith,
  bit_or_halves (q * 2 ^ suc k) r,
  double_shift q k,
  pow-suc 2 k,
  bit_or-high_fields k q (r / 2) (omega (arith, pow-suc 2 k)),
)

-- The `n` lowest bits of `c` in reverse.
unfoldable pub mirror : ℕ → ℕ → ℕ
mirror zero c = 0
mirror (suc n) c = c % 2 * 2 ^ n + mirror n (c / 2)

bit_times : (d p : ℕ) → d < 2 → d * p ≤ p
bit_times d p lt = grind arith

pub mirror-lt : (n c : ℕ) → mirror n c < 2 ^ n
unfolding mirror
mirror-lt zero c = omega arith
mirror-lt (suc n) c =
    omega (arith, mirror-lt n (c / 2), pow-suc 2 n, bit_times (c % 2) (2 ^ n) (omega arith))

pub pow-add : (a m n : ℕ) → a ^ (m + n) ≡ a ^ m * a ^ n
pow-add a m zero = rw (add-zero, pow-zero) (omega arith)
pow-add a m (suc n) =
    rw (add-suc, pow-suc, pow-suc)
      (ap (λ (t : ℕ). t * a) (pow-add a m n) ∙ mul_assoc (a ^ m) (a ^ n) a)

add_fields : (d a b p q : ℕ) → d * (p * q) + (a * q + b) ≡ (d * p + a) * q + b
add_fields d a b p q = grind arith

-- The reversal of two fields is the reversal of each, in reverse.
pub mirror-fields :
    (m n r c : ℕ) → r < 2 ^ m → mirror (m + n) (r + c * 2 ^ m) ≡ mirror m r * 2 ^ n + mirror n c
unfolding mirror
mirror-fields zero n r c fits =
    let none_low : r ≡ 0 = omega arith in
    let whole : r + c * 2 ^ 0 ≡ c = omega arith in rw zero-add (omega (arith, ap (mirror n) whole))
mirror-fields (suc m) n r c fits =
    let low : (r + c * 2 ^ suc m) % 2 ≡ r % 2 = omega (arith, double_shift c m) in
    let high : (r + c * 2 ^ suc m) / 2 ≡ r / 2 + c * 2 ^ m = omega (arith, double_shift c m) in
    rw (suc-add, mirror)
      (rw (low, high)
        (omega (
          arith,
          mirror-fields m n (r / 2) c (omega (arith, pow-suc 2 m)),
          ap (λ (t : ℕ). r % 2 * t) (pow-add 2 m n),
          add_fields (r % 2) (mirror m (r / 2)) (mirror n c) (2 ^ m) (2 ^ n),
        )))

-- Reversing twice gives the number back.
pub mirror-mirror : (n c : ℕ) → c < 2 ^ n → mirror n (mirror n c) ≡ c
mirror-mirror zero c fits = unfold mirror in omega arith
mirror-mirror (suc n) c fits =
    let split : mirror (suc n) c ≡ mirror n (c / 2) + c % 2 * 2 ^ n =
      unfold mirror in omega arith in
    let one : mirror 1 (c % 2) ≡ c % 2 = unfold mirror in omega arith in
    ap (mirror (suc n)) split
    ∙ ap (λ (k : ℕ). mirror k (mirror n (c / 2) + c % 2 * 2 ^ n)) (sym (add-one n))
    ∙ mirror-fields n 1 (mirror n (c / 2)) (c % 2) (mirror-lt n (c / 2))
    ∙ omega (arith, one, mirror-mirror n (c / 2) (omega (arith, pow-suc 2 n)))
