-- ===== src/Codec/Decode/Rows.antt =====
-- A row after the programs of its groups: the stores of `_decode_group`.
use native.Mathlib.Nat.{suc-mul, add-mul, mod-lt, div-add-mod'}
use vllm_expert_pager.Base.{
  ℕ, zero, suc, ◌+◌, ◌-◌, ◌*◌, ◌/◌, ◌%◌, ◌^◌, ◌≤◌, ◌<◌, ◌≡◌, ◌≢◌, ◌⊎◌, sym, ap, ◌∙◌, inl, inr,
  arith, ℕ_discrete, dec_lt,
}
use vllm_expert_pager.Tensor.Put.{index_put, update}
use vllm_expert_pager.Tensor.Argsort.{Argsort, AnySort}
use vllm_expert_pager.Codec.{limit, lanes}
use vllm_expert_pager.Codec.Code.{codes}
use vllm_expert_pager.Codec.Code.Lut.{IsFull, codes-lt}
use vllm_expert_pager.Codec.Encode.{
  record_bytes, gstart, exponent, sign_mantissa, byte_of, total_words,
}
use vllm_expert_pager.Codec.Encode.Positions.{gstart-le}
use vllm_expert_pager.Codec.Decode.{
  word32, out_byte, lanes_at, looked_up, value_out, decode_group, store_group, store_groups,
}
use vllm_expert_pager.Codec.Decode.Fields.{out_byte-sign_mantissa}
use vllm_expert_pager.Codec.Decode.Record.{word32-gstart, word32-fixed}
use vllm_expert_pager.Codec.Decode.Registers.{looked_up-at}
use vllm_expert_pager.Codec.Decode.Packed.{packed, packed-byte, word_out-packed}

earlier : (j n a : ℕ) (idx : ℕ → ℕ) → j < suc n → idx n ≢ a → idx j ≡ a → j < n
earlier j n a idx lj other q = elim (ℕ_discrete j n) [
  | yes last ↦ absurd (other (ap idx (sym last) ∙ q))
  | no ne ↦ omega arith
]

-- A store of the right words keeps those that were right.
index_put-right :
    (W : ℕ → ℕ) (n : ℕ) (idx val t : ℕ → ℕ) (a : ℕ)
    → ((j : ℕ) → j < n → val j ≡ W (idx j))
    → ((t a ≡ W a) ⊎ ((j : ℕ) × (j < n) × (idx j ≡ a)))
    → index_put n idx val t a ≡ W a
unfolding index_put update
index_put-right W zero idx val t a right (inl here) = here
index_put-right W zero idx val t a right (inr (j, lj, q)) = absurd (omega arith)
index_put-right W (suc n) idx val t a right written = elim (ℕ_discrete (idx n) a) [
  | yes same ↦ ground (arith, right n (omega arith), ap W same)
  | no other ↦
      let rest =
        index_put-right W n idx val t a (λ j lj. right j (omega arith))
          (elim written [
            | inl here ↦ inl here
            | inr (j, lj, q) ↦ inr (j, earlier j n a idx lj other q, q)
          ]) in
      ground arith
]

word_place :
    (c chunk m k : ℕ) → chunk % 8 ≡ 0 → c * chunk + m * 8 + k ≡ 8 * (c * (chunk / 8) + m) + k
word_place c chunk m k h =
    let eighth : chunk ≡ chunk / 8 * 8 = omega arith in
    ap (λ (t : ℕ). c * t + m * 8 + k) eighth ∙ regroup c (chunk / 8) m k
  where
    regroup : (c e m k : ℕ) → c * (e * 8) + m * 8 + k ≡ 8 * (c * e + m) + k
    regroup c e m k = grind arith

grid-row : (q m n : ℕ) → q < m * n → (q / n < m) × (0 < n)
grid-row q m n lt = grind arith

row_size :
    (n chunk l : ℕ)
    → chunk % 8 ≡ 0
    → n % (chunk * l) ≡ 0
    → n ≡ n / (chunk * l) * l * (chunk / 8) * 8
row_size n chunk l h whole =
    let eighth : chunk ≡ chunk / 8 * 8 = omega arith in
    omega (arith, div-add-mod' n (chunk * l))
    ∙ ap (λ (t : ℕ). n / (chunk * l) * (t * l)) eighth
    ∙ regroup (n / (chunk * l)) (chunk / 8) l
  where
    regroup : (g e l : ℕ) → g * (e * 8 * l) ≡ g * l * e * 8
    regroup g e l = grind arith

-- A word of a group is one of one of its lanes.
lane_of :
    (g a l e : ℕ)
    → g * l * e ≤ a
    → a < suc g * l * e
    → (lane : ℕ) × (lane < l) × (i : ℕ) × (i < e) × ((g * l + lane) * e + i ≡ a)
lane_of g a l e low high =
    let within : a - g * l * e < l * e =
      omega (arith, ap (λ (t : ℕ). t * e) (suc-mul g l), add-mul (g * l) l e) in
    let (row, some_e) = grid-row (a - g * l * e) l e within in
    let place : (g * l + (a - g * l * e) / e) * e + (a - g * l * e) % e
        ≡ g * l * e + ((a - g * l * e) / e * e + (a - g * l * e) % e) =
      omega (arith, add-mul (g * l) ((a - g * l * e) / e) e) in
    (
      (a - g * l * e) / e,
      row,
      (a - g * l * e) % e,
      mod-lt (a - g * l * e) some_e,
      omega (arith, place, div-add-mod' (a - g * l * e) e),
    )

module _ (sort : Argsort) (argsort : AnySort) (lengths : ℕ → ℕ) (good : IsFull lengths)
    (chunk N : ℕ) (raw : ℕ → ℕ) (some_chunk : 0 < chunk) (whole : N % (chunk * lanes) ≡ 0)
    (eights : chunk % 8 ≡ 0) (bytes : (x : ℕ) → raw x < 256) (lut8 : ℕ → ℕ)
    (decodes : (s hi : ℕ)
      → s < 16
      → hi < 2 ^ (limit - lengths s)
      → lut8 (codes sort lengths s + hi * 2 ^ lengths s) ≡ s * 2 ^ 4 + lengths s)
    (small : total_words argsort lengths (codes sort lengths) chunk N raw < 2 ^ 32) where
  open good use {short}

  abbrev groups : ℕ
  groups = N / (chunk * lanes)

  abbrev source : ℕ → ℕ
  source = record_bytes argsort lengths (codes sort lengths) chunk N raw

  abbrev first_word : ℕ → ℕ
  first_word = gstart argsort lengths (codes sort lengths) chunk N raw

  -- The words of the row.
  abbrev row_word : ℕ → ℕ
  row_word a = packed (λ k. raw (8 * a + k)) 8

  value-raw :
      (g m k lane : ℕ)
      → g < groups
      → m < chunk / 8
      → k < 8
      → lane < lanes
      → value_out lut8 source groups chunk g (first_word g) m k lane
        ≡ raw ((g * lanes + lane) * chunk + m * 8 + k)
  unfolding value_out
  value-raw g m k lane lg lm lk ll =
      let c = g * lanes + lane in
      let i = m * 8 + k in
      let width_ = lengths (exponent (raw (c * chunk + i))) in
      let at : c * chunk + i ≡ c * chunk + m * 8 + k = omega arith in
      let nibble =
        word32-fixed argsort lengths (codes sort lengths) chunk N raw some_chunk whole eights bytes
          g lane m k lg ll lm lk in
      let entry =
        looked_up-at argsort lengths (codes sort lengths) chunk N raw short
          (codes-lt sort lengths good) some_chunk whole eights bytes lut8 decodes g i lane lg
          (omega arith) ll in
      ap
        (λ (t : ℕ). out_byte t (
          looked_up lut8 source groups chunk g
            (lanes_at lut8 source groups chunk g (first_word g) i) lane))
        nibble
      ∙ ap (out_byte (sign_mantissa (raw (c * chunk + m * 8 + k)))) entry
      ∙ ap
          (λ (t : ℕ).
            out_byte (sign_mantissa (raw t)) (exponent (raw (c * chunk + i)) * 2 ^ 4 + width_))
          (sym at)
      ∙ out_byte-sign_mantissa (raw (c * chunk + i)) width_ (bytes (c * chunk + i))
          (omega (arith, short (exponent (raw (c * chunk + i))) (omega arith)))
      ∙ ap raw at

  -- A word that a program stores is that word of the row.
  decode_group-row :
      (g m lane : ℕ)
      → g < groups
      → m < chunk / 8
      → lane < lanes
      → decode_group lut8 source groups chunk g (first_word g) m lane
        ≡ row_word ((g * lanes + lane) * (chunk / 8) + m)
  unfolding decode_group
  decode_group-row g m lane lg lm ll =
      word_out-packed lut8 source groups chunk g (first_word g) m 8 lane
        (λ k. raw (8 * ((g * lanes + lane) * (chunk / 8) + m) + k)) (omega arith)
        (λ k lk.
          value-raw g m k lane lg lm lk ll
          ∙ ap raw (word_place (g * lanes + lane) chunk m k eights))
        (λ k. bytes _)

  first_word-read : (g : ℕ) → g ≤ groups → word32 source g ≡ first_word g
  first_word-read g lg =
      word32-gstart argsort lengths (codes sort lengths) chunk N raw some_chunk whole eights bytes g
        lg
        (omega (
          arith,
          gstart-le argsort lengths (codes sort lengths) chunk N raw short
              (codes-lt sort lengths good) some_chunk whole g lg,
        ))

  -- After the programs of the first `n` groups, every word of their chunks is right.
  store_group-right :
      (g m a : ℕ) (dst : ℕ → ℕ)
      → g < groups
      → m ≤ chunk / 8
      → ((dst a ≡ row_word a)
          ⊎ ((lane : ℕ) × (lane < lanes)
              × (i : ℕ) × (i < m)
              × ((g * lanes + lane) * (chunk / 8) + i ≡ a)))
      → store_group lut8 source groups chunk g (first_word g) m dst a ≡ row_word a
  unfolding store_group
  store_group-right g zero a dst lg lm (inl here) = here
  store_group-right g zero a dst lg lm (inr (lane, ll, i, li, q)) = absurd (omega arith)
  store_group-right g (suc m) a dst lg lm written =
      index_put-right row_word lanes (λ lane. (g * lanes + lane) * (chunk / 8) + m)
        (decode_group lut8 source groups chunk g (first_word g) m)
        (store_group lut8 source groups chunk g (first_word g) m dst) a
        (λ lane ll. decode_group-row g m lane lg lm ll)
        (elim written [
          | inl here ↦ inl (store_group-right g m a dst lg (omega arith) (inl here))
          | inr (lane, ll, i, li, q) ↦ elim (ℕ_discrete i m) [
            | yes now ↦
                inr (lane, ll, ap (λ (t : ℕ). (g * lanes + lane) * (chunk / 8) + t) (sym now) ∙ q)
            | no ne ↦
                inl
                  (store_group-right g m a dst lg (omega arith) (inr (lane, ll, i, omega arith, q)))
          ]
        ])

  store_groups-right :
      (n a : ℕ) (dst : ℕ → ℕ)
      → n ≤ groups
      → a < n * lanes * (chunk / 8)
      → store_groups lut8 source groups chunk n dst a ≡ row_word a
  unfolding store_groups
  store_groups-right zero a dst ln la = absurd (omega arith)
  store_groups-right (suc g) a dst ln la =
      ap
        (λ (t : ℕ).
          store_group lut8 source groups chunk g t (chunk / 8)
            (store_groups lut8 source groups chunk g dst) a)
        (first_word-read g (omega arith))
      ∙ store_group-right g (chunk / 8) a (store_groups lut8 source groups chunk g dst) ln
          (omega arith)
          (elim (dec_lt a (g * lanes * (chunk / 8))) [
            | yes low ↦ inl (store_groups-right g a dst (omega arith) low)
            | no high ↦ inr (lane_of g a lanes (chunk / 8) (omega arith) (omega arith))
          ])

  -- After all programs of the row, each of its bytes is right.
  pub store_groups-bytes :
      (dst : ℕ → ℕ) (x : ℕ)
      → x < N
      → byte_of (store_groups lut8 source groups chunk groups dst (x / 8)) (x % 8) ≡ raw x
  store_groups-bytes dst x lx =
      let size : N ≡ groups * lanes * (chunk / 8) * 8 = row_size N chunk lanes eights whole in
      ap (λ (t : ℕ). byte_of t (x % 8))
        (store_groups-right groups (x / 8) dst (omega arith) (omega arith))
      ∙ packed-byte (λ k. raw (8 * (x / 8) + k)) (x % 8) (λ j lj. bytes _) (omega arith)
      ∙ ap raw (omega arith)
