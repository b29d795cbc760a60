-- ===== src/Codec/Decode/Fields.antt =====
-- The bit fields that `_decode_group` takes apart and joins.
use native.Mathlib.Nat.{
  div-add-mod', mod-lt, add-mul-div_left, mul_comm, div-lt_iff_lt-mul, lt_of_lt_of_le, mod-eq_of_lt,
}
use vllm_expert_pager.Base.{
  ℕ, ◌+◌, ◌-◌, ◌*◌, ◌/◌, ◌%◌, ◌^◌, ◌≤◌, ◌<◌, ◌≡◌, sym, ap, ◌∙◌, arith, subst,
}
use Prim.Native.Nat.{bit_or}
use vllm_expert_pager.Codec.Bits.{bit_or-fields, bit_or-high_fields, pow-add}
use vllm_expert_pager.Codec.Words.{
  low_field, lower_word, pow_split, pow_pos, pow_mono, under_div, fields_lt,
}
use vllm_expert_pager.Codec.Encode.{sign_mantissa, exponent}
use vllm_expert_pager.Codec.Decode.{word32, out_byte}

pub word32-bytes :
    (bytes : ℕ → ℕ) (i v : ℕ)
    → v < 2 ^ 32
    → ((b : ℕ) → b < 4 → bytes (4 * i + b) ≡ v / 256 ^ b % 256)
    → word32 bytes i ≡ v
unfolding word32
word32-bytes bytes i v lt h =
    let first : 4 * i ≡ 4 * i + 0 = omega arith in
    omega (
      arith,
      ap bytes first,
      h 0 (omega arith),
      h 1 (omega arith),
      h 2 (omega arith),
      h 3 (omega arith),
    )

-- A sign and a mantissa with an exponent give the byte.
pub out_byte-sign_mantissa :
    (x n : ℕ) → x < 256 → n < 16 → out_byte (sign_mantissa x) (exponent x * 2 ^ 4 + n) ≡ x
unfolding out_byte sign_mantissa
out_byte-sign_mantissa x n lx ln =
    let parts : bit_or (x / 2 ^ 7 * 2 ^ 3) (x % 8) ≡ x / 128 * 8 + x % 8 =
      bit_or-high_fields 3 (x / 2 ^ 7) (x % 8) (omega arith) in
    let sign : (x / 128 * 8 + x % 8) / 8 % 2 ≡ x / 128 = omega arith in
    let low : (x / 128 * 8 + x % 8) % 8 ≡ x % 8 = omega arith in
    let symbol : (exponent x * 2 ^ 4 + n) / 2 ^ 4 ≡ exponent x = omega arith in
    let high : bit_or (x / 128 * 2 ^ 7) (exponent x * 2 ^ 3) ≡ x / 8 * 2 ^ 3 =
      bit_or-high_fields 7 (x / 128) (exponent x * 2 ^ 3) (omega arith) ∙ omega arith in
    ap
      (λ (t : ℕ).
        bit_or (bit_or (t / 8 % 2 * 2 ^ 7) ((exponent x * 2 ^ 4 + n) / 2 ^ 4 * 2 ^ 3)) (t % 8))
      parts
    ∙ ap
        (λ (t : ℕ).
          bit_or (bit_or (t * 2 ^ 7) ((exponent x * 2 ^ 4 + n) / 2 ^ 4 * 2 ^ 3))
            ((x / 128 * 8 + x % 8) % 8))
        sign
    ∙ ap (λ (t : ℕ). bit_or (bit_or (x / 128 * 2 ^ 7) (t * 2 ^ 3)) ((x / 128 * 8 + x % 8) % 8))
        symbol
    ∙ ap (λ (t : ℕ). bit_or (bit_or (x / 128 * 2 ^ 7) (exponent x * 2 ^ 3)) t) low
    ∙ ap (λ (t : ℕ). bit_or t (x % 8)) high
    ∙ bit_or-high_fields 3 (x / 8) (x % 8) (omega arith)
    ∙ omega arith

-- The bits of a stream from `p` on, when the word at `p * q` is put above those that are there.
word_above :
    (s p q w : ℕ)
    → 0 < p
    → 0 < q
    → 0 < w
    → s % (p * q * w) / p ≡ s % (p * q) / p + s / (p * q) % w * q
word_above s p q w pp pq pw =
    let whole_ : 0 < p * q = grind arith in
    let split : s % (p * q * w) ≡ s % (p * q) + s / (p * q) % w * (p * q) =
      ap (λ (t : ℕ). t % (p * q * w)) (sym (div-add-mod' s (p * q)) ∙ omega arith)
      ∙ low_field (s % (p * q)) (s / (p * q)) (p * q) w (mod-lt s whole_) pw in
    let move : s / (p * q) % w * (p * q) ≡ p * (s / (p * q) % w * q) = grind arith in
    ap (λ (t : ℕ). t / p) (split ∙ ap (λ (t : ℕ). s % (p * q) + t) move)
    ∙ add-mul-div_left (s % (p * q)) (s / (p * q) % w * q) pp

left_bits : (s p q m : ℕ) → 0 < p → 0 < q → m ≡ p * q → s % m / p < q
left_bits s p q m pp pq split =
    let some : 0 < m = grind arith in
    (div-lt_iff_lt-mul pp).1 (lt_of_lt_of_le (mod-lt s some) (omega (arith, mul_comm p q)))

-- The same for the register: `|` puts the word above the bits that are left.
pub refill_bits :
    (s b l n : ℕ)
    → n < 9
    → 32 * l ≡ b + n
    → bit_or (s % 2 ^ (32 * l) / 2 ^ b) (s / 2 ^ (32 * l) % 2 ^ 32 % 2 ^ 32 * 2 ^ n) % 2 ^ 64
      ≡ s % 2 ^ (32 * (l + 1)) / 2 ^ b
refill_bits s b l n ln at =
    let place : 2 ^ (32 * l) ≡ 2 ^ b * 2 ^ n = pow_split (32 * l) b n at in
    let next : 2 ^ (32 * (l + 1)) ≡ 2 ^ (32 * l) * 2 ^ 32 =
      pow_split (32 * (l + 1)) (32 * l) 32 (omega arith) in
    let word = s / 2 ^ (32 * l) % 2 ^ 32 in
    let left : s % 2 ^ (32 * l) / 2 ^ b < 2 ^ n =
      left_bits s (2 ^ b) (2 ^ n) (2 ^ (32 * l)) (pow_pos b) (pow_pos n) place in
    let room : 2 ^ n * 2 ^ 32 ≤ 2 ^ 64 =
      subst (λ (t : ℕ). t ≤ 2 ^ 64) (pow-add 2 n 32) (pow_mono (n + 32) 64 (omega arith)) in
    let small : s % 2 ^ (32 * l) / 2 ^ b + word * 2 ^ n < 2 ^ 64 =
      lt_of_lt_of_le (fields_lt (s % 2 ^ (32 * l) / 2 ^ b) word (2 ^ n) (2 ^ 32) left (omega arith))
        room in
    let above : s % (2 ^ (32 * l) * 2 ^ 32) / 2 ^ b ≡ s % 2 ^ (32 * l) / 2 ^ b + word * 2 ^ n =
      subst (λ (t : ℕ). s % (t * 2 ^ 32) / 2 ^ b ≡ s % t / 2 ^ b + s / t % 2 ^ 32 * 2 ^ n)
        (sym place) (word_above s (2 ^ b) (2 ^ n) (2 ^ 32) (pow_pos b) (pow_pos n) (pow_pos 32)) in
    let same : word % 2 ^ 32 ≡ word = omega arith in
    ap (λ (t : ℕ). bit_or (s % 2 ^ (32 * l) / 2 ^ b) (t * 2 ^ n) % 2 ^ 64) same
    ∙ ap (λ (t : ℕ). t % 2 ^ 64) (bit_or-fields n (s % 2 ^ (32 * l) / 2 ^ b) word left)
    ∙ mod-eq_of_lt small
    ∙ sym above
    ∙ ap (λ (t : ℕ). s % t / 2 ^ b) (sym next)

-- Its lowest bits are those of the stream.
pub low_bits : (s b l : ℕ) → b + 9 ≤ 32 * l → s % 2 ^ (32 * l) / 2 ^ b % 2 ^ 9 ≡ s / 2 ^ b % 2 ^ 9
low_bits s b l le =
    let m = 2 ^ (32 * l) in
    let e = 2 ^ (32 * l - b - 9) in
    let place : m ≡ 2 ^ b * (2 ^ 9 * e) =
      pow_split (32 * l) b (9 + (32 * l - b - 9)) (omega arith)
      ∙ ap (λ (t : ℕ). 2 ^ b * t) (pow-add 2 9 (32 * l - b - 9)) in
    sym (
      ap (λ (t : ℕ). t / 2 ^ b % 2 ^ 9) (sym (div-add-mod' s m) ∙ omega arith)
      ∙ ap (λ (t : ℕ). (s % m + s / m * t) / 2 ^ b % 2 ^ 9) place
      ∙ lower_word (s % m) (s / m) (2 ^ b) (2 ^ 9) e (pow_pos b))

field_above : (v rest p q : ℕ) → v * p + rest * (p * q) ≡ (v + rest * q) * p
field_above v rest p q = grind arith

-- The lowest nine bits of a stream from `b` on begin with the code there.
pub next_code :
    (s v rest b n : ℕ)
    → s < 2 ^ b
    → v < 2 ^ n
    → n ≤ 9
    → (s + v * 2 ^ b + rest * 2 ^ (b + n)) / 2 ^ b % 2 ^ 9 ≡ v + rest % 2 ^ (9 - n) * 2 ^ n
next_code s v rest b n ls lv ln =
    let move : v * 2 ^ b + rest * 2 ^ (b + n) ≡ (v + rest * 2 ^ n) * 2 ^ b =
      ap (λ (t : ℕ). v * 2 ^ b + rest * t) (pow-add 2 b n) ∙ field_above v rest (2 ^ b) (2 ^ n) in
    let high : 2 ^ 9 ≡ 2 ^ n * 2 ^ (9 - n) = pow_split 9 n (9 - n) (omega arith) in
    ap (λ (t : ℕ). t / 2 ^ b % 2 ^ 9) (omega (arith, move))
    ∙ ap (λ (t : ℕ). t % 2 ^ 9) (under_div s (v + rest * 2 ^ n) (2 ^ b) ls)
    ∙ ap (λ (t : ℕ). (v + rest * 2 ^ n) % t) high
    ∙ low_field v rest (2 ^ n) (2 ^ (9 - n)) lv (pow_pos (9 - n))
