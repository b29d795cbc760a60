-- ===== src/Codec/Decode/Packed.antt =====
-- The 64-bit words that `_decode_group` stores, from their bytes.
use native.Mathlib.Nat.{mod-eq_of_lt, lt_of_lt_of_le, mul-suc}
use vllm_expert_pager.Base.{ℕ, zero, suc, ◌+◌, ◌*◌, ◌%◌, ◌^◌, ◌≤◌, ◌<◌, ◌≡◌, refl, ap, ◌∙◌, arith}
use Prim.Native.Nat.{bit_or}
use vllm_expert_pager.Codec.Bits.{bit_or-fields, pow-add}
use vllm_expert_pager.Codec.Words.{fields_lt, pow_mono}
use vllm_expert_pager.Codec.Encode.{byte_of}
use vllm_expert_pager.Codec.Decode.{value_out, word_out}

-- `k` bytes as a number, lowest first.
pub packed : (ℕ → ℕ) → ℕ → ℕ
packed f zero = 0
packed f (suc k) = packed f k + f k * 2 ^ (8 * k)

packed-lt : (f : ℕ → ℕ) (k : ℕ) → ((j : ℕ) → j < k → f j < 256) → packed f k < 2 ^ (8 * k)
unfolding packed
packed-lt f zero small = omega arith
packed-lt f (suc k) small =
    let rest = packed-lt f k (λ j lj. small j (omega arith)) in
    let one = fields_lt (packed f k) (f k) (2 ^ (8 * k)) (2 ^ 8) rest (small k (omega arith)) in
    let next : 2 ^ (8 * suc k) ≡ 2 ^ (8 * k) * 2 ^ 8 =
      ap (λ (t : ℕ). 2 ^ t) (mul-suc 8 k) ∙ pow-add 2 (8 * k) 8 in
    omega arith

all_eight :
    (f : ℕ → ℕ)
    → ((j : ℕ) → j < 8 → f j < 256)
    → (f 0 < 256)
      × (f 1 < 256)
      × (f 2 < 256)
      × (f 3 < 256)
      × (f 4 < 256)
      × (f 5 < 256)
      × (f 6 < 256)
      × (f 7 < 256)
all_eight f small = (
  small 0 (omega arith),
  small 1 (omega arith),
  small 2 (omega arith),
  small 3 (omega arith),
  small 4 (omega arith),
  small 5 (omega arith),
  small 6 (omega arith),
  small 7 (omega arith),
)

-- Each byte of the number is one of them.
pub packed-byte :
    (f : ℕ → ℕ) (k : ℕ) → ((j : ℕ) → j < 8 → f j < 256) → k < 8 → byte_of (packed f 8) k ≡ f k
unfolding packed
packed-byte f zero small lk = omega (arith, all_eight f small)
packed-byte f (suc zero) small lk = omega (arith, all_eight f small)
packed-byte f (suc (suc zero)) small lk = omega (arith, all_eight f small)
packed-byte f (suc (suc (suc zero))) small lk = omega (arith, all_eight f small)
packed-byte f (suc (suc (suc (suc zero)))) small lk = omega (arith, all_eight f small)
packed-byte f (suc (suc (suc (suc (suc zero))))) small lk = omega (arith, all_eight f small)
packed-byte f (suc (suc (suc (suc (suc (suc zero)))))) small lk = omega (arith, all_eight f small)
packed-byte f (suc (suc (suc (suc (suc (suc (suc zero))))))) small lk =
    omega (arith, all_eight f small)
packed-byte f (suc (suc (suc (suc (suc (suc (suc (suc k)))))))) small lk = absurd (omega arith)

-- The bytes of a word are joined by `|`.
pub word_out-packed :
    (lut8 src : ℕ → ℕ) (G chunk g rp m k lane : ℕ) (f : ℕ → ℕ)
    → k ≤ 8
    → ((j : ℕ) → j < k → value_out lut8 src G chunk g rp m j lane ≡ f j)
    → ((j : ℕ) → f j < 256)
    → word_out lut8 src G chunk g rp m k lane ≡ packed f k
unfolding word_out packed
word_out-packed lut8 src G chunk g rp m zero lane f lk same small = refl
word_out-packed lut8 src G chunk g rp m (suc k) lane f lk same small =
    let rest =
      word_out-packed lut8 src G chunk g rp m k lane f (omega arith) (λ j lj. same j (omega arith))
        small in
    let low : packed f k < 2 ^ (8 * k) = packed-lt f k (λ j lj. small j) in
    let room : packed f k + f k * 2 ^ (8 * k) < 2 ^ 64 =
      lt_of_lt_of_le (packed-lt f (suc k) (λ j lj. small j))
        (pow_mono (8 * suc k) 64 (omega arith)) in
    ap (λ (t : ℕ). bit_or t (value_out lut8 src G chunk g rp m k lane * 2 ^ (8 * k)) % 2 ^ 64) rest
    ∙ ap (λ (t : ℕ). bit_or (packed f k) (t * 2 ^ (8 * k)) % 2 ^ 64) (same k (omega arith))
    ∙ ap (λ (t : ℕ). t % 2 ^ 64) (bit_or-fields (8 * k) (packed f k) (f k) low)
    ∙ mod-eq_of_lt room
