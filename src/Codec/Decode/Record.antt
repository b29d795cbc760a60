-- ===== src/Codec/Decode/Record.antt =====
-- What `_decode_group` reads of a record: where a group's words begin, its fixed words and its codes.

use native.Mathlib.Nat.{div-add-mod', mul_assoc}
use vllm_expert_pager.Base.{
  ℕ, ◌+◌, ◌-◌, ◌*◌, ◌/◌, ◌%◌, ◌^◌, ◌≤◌, ◌<◌, ◌≡◌, refl, sym, ap, ◌∙◌, true, false, arith, ltb,
}
use vllm_expert_pager.Tensor.Argsort.{AnySort}
use vllm_expert_pager.Codec.{lanes}
use vllm_expert_pager.Codec.Bits.{bit_or-fields}
use vllm_expert_pager.Codec.Encode.{
  record_bytes, byte_of, gstart, fixed, nibbles, sign_mantissa, interleaved, total_words,
}
use vllm_expert_pager.Codec.Decode.{word32}
use vllm_expert_pager.Codec.Decode.Fields.{word32-bytes}
use vllm_expert_pager.Codec.Decode.Places.{
  sign_mantissa-lt, nibble_of, place_of, in_fixed, eighths, twice, offset, word32-four,
}

module _ (sort : AnySort) (lengths codes : ℕ → ℕ) (chunk N : ℕ) (raw : ℕ → ℕ)
    (some_chunk : 0 < chunk) (whole : N % (chunk * lanes) ≡ 0) (eights : chunk % 8 ≡ 0)
    (bytes : (x : ℕ) → raw x < 256) where
  abbrev record_ : ℕ → ℕ
  record_ = record_bytes sort lengths codes chunk N raw

  abbrev groups : ℕ
  groups = N / (chunk * lanes)

  abbrev starts : ℕ → ℕ
  starts = gstart sort lengths codes chunk N raw

  abbrev words : ℕ → ℕ
  words = interleaved sort lengths codes chunk N raw

  abbrev word_count : ℕ
  word_count = total_words sort lengths codes chunk N raw

  abbrev body : ℕ
  body = 4 * (groups + 1) + N / 2

  -- The three regions of a record.
  record_start : (x : ℕ) → x < 4 * (groups + 1) → record_ x ≡ byte_of (starts (x / 4)) (x % 4)
  unfolding record_bytes
  record_start x lx = let here : ltb x (4 * (groups + 1)) ≡ true = ground arith in rw here refl

  record_fixed :
      (x : ℕ)
      → 4 * (groups + 1) ≤ x
      → x < body
      → record_ x ≡ fixed sort lengths codes chunk N raw (x - 4 * (groups + 1))
  unfolding record_bytes
  record_fixed x le lx =
      let first : ltb x (4 * (groups + 1)) ≡ false = ground arith in
      let here : ltb x body ≡ true = ground arith in rw (first, here) refl

  record_words :
      (x : ℕ)
      → body ≤ x
      → x < body + 4 * word_count
      → record_ x ≡ byte_of (words ((x - body) / 4)) ((x - body) % 4)
  unfolding record_bytes
  record_words x le lx =
      let first : ltb x (4 * (groups + 1)) ≡ false = ground arith in
      let second : ltb x body ≡ false = ground arith in
      let here : ltb x (body + 4 * word_count) ≡ true = ground arith in
      rw (first, second, here) refl

  -- Byte `b` of number `i` of a list of numbers.
  byte_at :
      (f : ℕ → ℕ) (x i b : ℕ)
      → x ≡ 4 * i + b
      → b < 4
      → byte_of (f (x / 4)) (x % 4) ≡ byte_of (f i) b
  byte_at f x i b at lb =
      let row : x / 4 ≡ i = omega arith in
      let column : x % 4 ≡ b = omega arith in
      ap (λ (t : ℕ). byte_of (f t) (x % 4)) row ∙ ap (byte_of (f i)) column

  pub word32-gstart : (g : ℕ) → g ≤ groups → starts g < 2 ^ 32 → word32 record_ g ≡ starts g
  word32-gstart g lg small =
      word32-bytes record_ g (starts g) small
        (λ b lb. record_start (4 * g + b) (omega arith) ∙ byte_at starts (4 * g + b) g b refl lb)

  -- The size of the row, by its parts.
  size : N ≡ groups * chunk * lanes
  size = omega (arith, div-add-mod' N (chunk * lanes), mul_assoc groups chunk lanes)

  pub word32-interleaved :
      (j : ℕ)
      → j < word_count
      → words j < 2 ^ 32
      → word32 record_ (groups + 1 + groups * chunk * lanes / 8 + j) ≡ words j
  word32-interleaved j lj small =
      word32-bytes record_ (groups + 1 + groups * chunk * lanes / 8 + j) (words j) small (λ b lb.
        let at : 4 * (groups + 1 + groups * chunk * lanes / 8 + j) + b ≡ body + (4 * j + b) =
          omega (arith, size) in
        ap record_ at
        ∙ record_words (body + (4 * j + b)) (omega arith) (omega arith)
        ∙ byte_at words (body + (4 * j + b) - body) j b (omega arith) lb)

  abbrev value_of : ℕ → ℕ → ℕ → ℕ → ℕ
  value_of g lane m k = sign_mantissa (raw ((g * lanes + lane) * chunk + m * 8 + k))

  nibbles-values :
      (p : ℕ)
      → nibbles sort lengths codes chunk N raw p
        ≡ sign_mantissa (raw (2 * p)) + sign_mantissa (raw (2 * p + 1)) * 2 ^ 4
  unfolding nibbles
  nibbles-values p =
      bit_or-fields 4 (sign_mantissa (raw (2 * p))) (sign_mantissa (raw (2 * p + 1)))
        (sign_mantissa-lt (raw (2 * p)) (bytes (2 * p)))

  -- Where the word `w` of the fixed part comes from.
  abbrev fixed_source : ℕ → ℕ → ℕ → ℕ → ℕ
  fixed_source g lane m b = ((g * lanes + lane) * (chunk / 8) + m) * 4 + b

  fixed_word :
      (w b : ℕ)
      → b < 4
      → fixed sort lengths codes chunk N raw (4 * w + b)
        ≡ nibbles sort lengths codes chunk N raw
            (fixed_source (w / (chunk / 8 * lanes)) (w % lanes) (w / lanes % (chunk / 8)) b)
  unfolding fixed
  fixed_word w b lb =
      let row : (4 * w + b) / 4 ≡ w = omega arith in
      let column : (4 * w + b) % 4 ≡ b = omega arith in
      ap
        (λ (t : ℕ). nibbles sort lengths codes chunk N raw (
          fixed_source (t / (chunk / 8 * lanes)) (t % lanes) (t / lanes % (chunk / 8))
            ((4 * w + b) % 4)))
        row
      ∙ ap
          (λ (t : ℕ).
            nibbles sort lengths codes chunk N raw
              (fixed_source (w / (chunk / 8 * lanes)) (w % lanes) (w / lanes % (chunk / 8)) t))
          column

  fixed_byte :
      (g lane m b : ℕ)
      → g < groups
      → lane < lanes
      → m < chunk / 8
      → b < 4
      → record_ (4 * (groups + 1 + (g * (chunk / 8) * lanes + m * lanes + lane)) + b)
        ≡ value_of g lane m (2 * b) + value_of g lane m (2 * b + 1) * 2 ^ 4
  fixed_byte g lane m b lg ll lm lb =
      let w = g * (chunk / 8) * lanes + m * lanes + lane in
      let (group, row, column) = place_of g m lane (chunk / 8) lanes lm ll in
      let eighth : chunk ≡ chunk / 8 * 8 = omega arith in
      let inside : w < groups * (chunk / 8) * lanes =
        in_fixed g m lane groups (chunk / 8) lanes lg lm ll in
      let half : N ≡ groups * (chunk / 8) * lanes * 8 =
        size ∙ ap (λ (t : ℕ). groups * t * lanes) eighth ∙ eighths groups (chunk / 8) lanes in
      let even : 2 * fixed_source g lane m b ≡ (g * lanes + lane) * chunk + m * 8 + 2 * b =
        twice (g * lanes + lane) (chunk / 8) m b
        ∙ ap (λ (t : ℕ). (g * lanes + lane) * t + m * 8 + 2 * b) (sym eighth) in
      let odd : 2 * fixed_source g lane m b + 1 ≡ (g * lanes + lane) * chunk + m * 8 + (2 * b + 1) =
        omega (arith, even) in
      record_fixed (4 * (groups + 1 + w) + b) (omega arith) (omega arith)
      ∙ ap (fixed sort lengths codes chunk N raw) (offset (groups + 1) w b)
      ∙ fixed_word w b lb
      ∙ ap
          (λ (t : ℕ).
            nibbles sort lengths codes chunk N raw
              (fixed_source t (w % lanes) (w / lanes % (chunk / 8)) b))
          group
      ∙ ap
          (λ (t : ℕ).
            nibbles sort lengths codes chunk N raw (fixed_source g t (w / lanes % (chunk / 8)) b))
          column
      ∙ ap (λ (t : ℕ). nibbles sort lengths codes chunk N raw (fixed_source g lane t b)) row
      ∙ nibbles-values (fixed_source g lane m b)
      ∙ ap
          (λ (t : ℕ).
            sign_mantissa (raw t) + sign_mantissa (raw (2 * fixed_source g lane m b + 1)) * 2 ^ 4)
          even
      ∙ ap (λ (t : ℕ). value_of g lane m (2 * b) + sign_mantissa (raw t) * 2 ^ 4) odd

  -- The fixed word gives the sign and mantissa of each of its values.
  pub word32-fixed :
      (g lane m k : ℕ)
      → g < groups
      → lane < lanes
      → m < chunk / 8
      → k < 8
      → word32 record_ (groups + 1 + g * (chunk / 8) * lanes + m * lanes + lane) / 2 ^ (4 * k) % 16
        ≡ value_of g lane m k
  word32-fixed g lane m k lg ll lm lk =
      let w = groups + 1 + (g * (chunk / 8) * lanes + m * lanes + lane) in
      let at : groups + 1 + g * (chunk / 8) * lanes + m * lanes + lane ≡ w = omega arith in
      ap (λ (t : ℕ). word32 record_ t / 2 ^ (4 * k) % 16) at
      ∙ ap (λ (t : ℕ). t / 2 ^ (4 * k) % 16)
          (word32-four record_ w _ _ _ _ (fixed_byte g lane m 0 lg ll lm (omega arith))
            (fixed_byte g lane m 1 lg ll lm (omega arith))
            (fixed_byte g lane m 2 lg ll lm (omega arith))
            (fixed_byte g lane m 3 lg ll lm (omega arith)))
      ∙ nibble_of (value_of g lane m) k (λ j lj. sign_mantissa-lt _ (bytes _)) lk
