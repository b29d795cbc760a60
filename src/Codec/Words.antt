-- ===== src/Codec/Words.antt =====
-- A stream of codes as one number, and its 32-bit words.
use native.Mathlib.Nat.{
  one-le-pow, pow-le-pow_right, add-mul-div_left, add-mul-mod_self_right, mod-eq_of_lt,
  div-eq_of_lt, div-add-mod, mod-lt, le-mul_of_pos_right, lt_of_lt_of_le, lt_of_le_of_lt,
  div-le_self, zero-div, le_trans, le_of_eq, zero-add, div-div-eq-div-mul, div-lt_iff_lt-mul,
  mul_assoc, mul_comm,
}
use vllm_expert_pager.Base.{
  ℕ, ◌+◌, ◌-◌, ◌*◌, ◌/◌, ◌%◌, ◌^◌, ◌≤◌, ◌<◌, ◌≡◌, sym, ap, ◌∙◌, arith, ℕ_discrete, dec_lt, ◌==◌,
  if◌then◌else◌, subst,
}
use vllm_expert_pager.Codec.Bits.{pow-add}

pub pow_pos : (n : ℕ) → 0 < 2 ^ n
pow_pos n = one-le-pow n 2 (omega arith)

pub pow_mono : (a b : ℕ) → a ≤ b → 2 ^ a ≤ 2 ^ b
pow_mono a b le = pow-le-pow_right (omega arith) le

pub pow_split : (a b c : ℕ) → a ≡ b + c → 2 ^ a ≡ 2 ^ b * 2 ^ c
pow_split a b c q = ap (λ (e : ℕ). 2 ^ e) q ∙ pow-add 2 b c

-- A low field under one of `v`.
pub under_div : (a v m : ℕ) → a < m → (a + v * m) / m ≡ v
under_div a v m lt = grind arith

expand : (a d q r m : ℕ) → a + (d * q + r) * m ≡ a + r * m + q * (m * d)
expand a d q r m = grind arith

pub fields_lt : (a r m d : ℕ) → a < m → r < d → a + r * m < m * d
fields_lt a r m d la lr = grind arith

-- Two fields below `m * d`.
pub low_field : (a v m d : ℕ) → a < m → 0 < d → (a + v * m) % (m * d) ≡ a + v % d * m
low_field a v m d lt some_d =
    ap (λ (t : ℕ). (a + t * m) % (m * d)) (sym (div-add-mod v d))
    ∙ ap (λ (t : ℕ). t % (m * d)) (expand a d (v / d) (v % d) m)
    ∙ add-mul-mod_self_right (a + v % d * m) (v / d) (m * d)
    ∙ mod-eq_of_lt (fields_lt a (v % d) m d lt (mod-lt v some_d))

pub lower_word : (s v p x e : ℕ) → 0 < p → (s + v * (p * (x * e))) / p % x ≡ s / p % x
lower_word s v p x e some_p =
    let move : v * (p * (x * e)) ≡ p * (v * e * x) = grind arith in
    ap (λ (t : ℕ). (s + t) / p % x) move
    ∙ ap (λ (t : ℕ). t % x) (add-mul-div_left s (v * e * x) some_p)
    ∙ add-mul-mod_self_right (s / p) (v * e) x

same_word :
    (s v p m d : ℕ)
    → 0 < p
    → 0 < d
    → s < m * p
    → (s + v * (p * m)) / p % (m * d) ≡ s / p % (m * d) + v * m % (m * d)
same_word s v p m d some_p some_d ls =
    let move : v * (p * m) ≡ p * (v * m) = grind arith in
    let small : s / p < m = (div-lt_iff_lt-mul some_p).1 ls in
    let wide : m ≤ m * d = le-mul_of_pos_right m some_d in
    let alone : v * m % (m * d) ≡ v % d * m =
      ap (λ (t : ℕ). t % (m * d)) (sym (zero-add (v * m)))
      ∙ low_field 0 v m d (omega arith) some_d
      ∙ omega arith in
    ap (λ (t : ℕ). (s + t) / p % (m * d)) move
    ∙ ap (λ (t : ℕ). t % (m * d)) (add-mul-div_left s (v * m) some_p)
    ∙ low_field (s / p) v m d small some_d
    ∙ omega (arith, alone, mod-eq_of_lt (lt_of_lt_of_le small wide))

next_word :
    (s v p m d x : ℕ)
    → s < p * m
    → v < x
    → (s + v * (p * m)) / (p * (m * d)) % x ≡ s / (p * (m * d)) % x + v / d
next_word s v p m d x ls lv =
    let split : p * (m * d) ≡ p * m * d = sym (mul_assoc p m d) in
    let gone : s / (p * (m * d)) ≡ 0 =
      ap (λ (t : ℕ). s / t) split
      ∙ sym (div-div-eq-div-mul s (p * m) d)
      ∙ ap (λ (t : ℕ). t / d) (div-eq_of_lt ls)
      ∙ zero-div d in
    ap (λ (t : ℕ). (s + v * (p * m)) / t % x) split
    ∙ ap (λ (t : ℕ). t % x) (sym (div-div-eq-div-mul (s + v * (p * m)) (p * m) d))
    ∙ ap (λ (t : ℕ). t / d % x) (under_div s v (p * m) ls)
    ∙ mod-eq_of_lt (lt_of_le_of_lt (div-le_self v d) lv)
    ∙ omega (arith, ap (λ (t : ℕ). t % x) gone)

beyond_word : (s v b n e : ℕ) → s < 2 ^ b → v < 2 ^ n → b + n ≤ e → (s + v * 2 ^ b) / 2 ^ e ≡ 0
beyond_word s v b n e ls lv le = div-eq_of_lt (
    lt_of_lt_of_le (fields_lt s v (2 ^ b) (2 ^ n) ls lv)
      (le_trans (le_of_eq (sym (pow-add 2 b n))) (pow-le-pow_right (omega arith) le)))

-- What bits `32 * k` to `32 * k + 31` of a stream gain when the code `v` is put at bit `b`.
pub gains_word :
    (s v b n w r k : ℕ)
    → s < 2 ^ b
    → v < 2 ^ n
    → n ≤ 9
    → b ≡ 32 * w + r
    → r < 32
    → (s + v * 2 ^ b) / 2 ^ (32 * k) % 2 ^ 32
      ≡ s / 2 ^ (32 * k) % 2 ^ 32
        + ((if w == k then v * 2 ^ r % 2 ^ 32 else 0)
            + (if w + 1 == k then v / 2 ^ (32 - r) else 0))
gains_word s v b n w r k ls lv ln at lr = elim (dec_lt k w) [
  | yes lower ↦
      let place : 2 ^ b ≡ 2 ^ (32 * k) * (2 ^ 32 * 2 ^ (b - 32 * k - 32)) =
        pow_split b (32 * k) (32 + (b - 32 * k - 32)) (omega arith)
        ∙ ap (λ (t : ℕ). 2 ^ (32 * k) * t) (pow-add 2 32 (b - 32 * k - 32)) in
      let word =
        lower_word s v (2 ^ (32 * k)) (2 ^ 32) (2 ^ (b - 32 * k - 32)) (pow_pos (32 * k)) in
      let here = ap (λ (t : ℕ). (s + v * t) / 2 ^ (32 * k) % 2 ^ 32) place ∙ word in
      ground (arith, here)
  | no ge ↦ elim (ℕ_discrete k w) [
    | yes here ↦
        let place : 2 ^ b ≡ 2 ^ (32 * k) * 2 ^ r = pow_split b (32 * k) r (omega arith) in
        let high : 2 ^ 32 ≡ 2 ^ r * 2 ^ (32 - r) = pow_split 32 r (32 - r) (omega arith) in
        let small : s < 2 ^ r * 2 ^ (32 * k) = omega (arith, mul_comm (2 ^ r) (2 ^ (32 * k))) in
        let word =
          same_word s v (2 ^ (32 * k)) (2 ^ r) (2 ^ (32 - r)) (pow_pos (32 * k)) (pow_pos (32 - r))
            small in
        let whole =
          subst
            (λ (x : ℕ).
              (s + v * (2 ^ (32 * k) * 2 ^ r)) / 2 ^ (32 * k) % x
              ≡ s / 2 ^ (32 * k) % x + v * 2 ^ r % x)
            (sym high) word in
        let total = ap (λ (t : ℕ). (s + v * t) / 2 ^ (32 * k) % 2 ^ 32) place ∙ whole in
        ground (arith, total)
    | no ne ↦ elim (ℕ_discrete k (w + 1)) [
      | yes next ↦
          let place : 2 ^ b ≡ 2 ^ (32 * w) * 2 ^ r = pow_split b (32 * w) r at in
          let high : 2 ^ (32 * k) ≡ 2 ^ (32 * w) * (2 ^ r * 2 ^ (32 - r)) =
            pow_split (32 * k) (32 * w) (r + (32 - r)) (omega arith)
            ∙ ap (λ (t : ℕ). 2 ^ (32 * w) * t) (pow-add 2 r (32 - r)) in
          let narrow : v < 2 ^ 32 = lt_of_lt_of_le lv (pow_mono n 32 (omega arith)) in
          let word =
            next_word s v (2 ^ (32 * w)) (2 ^ r) (2 ^ (32 - r)) (2 ^ 32) (omega arith) narrow in
          let whole =
            subst
              (λ (x : ℕ).
                (s + v * (2 ^ (32 * w) * 2 ^ r)) / x % 2 ^ 32 ≡ s / x % 2 ^ 32 + v / 2 ^ (32 - r))
              (sym high) word in
          let total = ap (λ (t : ℕ). (s + v * t) / 2 ^ (32 * k) % 2 ^ 32) place ∙ whole in
          ground (arith, total)
      | no beyond ↦
          let gone = beyond_word s v b n (32 * k) ls lv (omega arith) in
          let gone' : s / 2 ^ (32 * k) ≡ 0 =
            div-eq_of_lt (lt_of_lt_of_le ls (pow_mono b (32 * k) (omega arith))) in
          ground (arith, gone, gone')
    ]
  ]
]
