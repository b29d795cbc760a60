-- ===== src/Codec/Decode/Streams.antt =====
-- What the table says of the next bits of a lane.
use native.Mathlib.Nat.{add-zero, add-suc, mod-lt}
use vllm_expert_pager.Base.{
  ℕ, zero, suc, ◌+◌, ◌-◌, ◌*◌, ◌/◌, ◌%◌, ◌^◌, ◌≤◌, ◌<◌, ◌≡◌, sym, ap, ◌∙◌, Bool, arith,
}
use vllm_expert_pager.Tensor.Argsort.{AnySort}
use vllm_expert_pager.Codec.{limit, lanes, lut_bytes}
use vllm_expert_pager.Codec.Words.{pow_split, pow_pos}
use vllm_expert_pager.Codec.Encode.{record_bytes, symbol}
use vllm_expert_pager.Codec.Encode.Chunks.{
  bit, wide, code, stream, bit-suc, bit-le, wide-le, code-lt, stream-lt,
}
use vllm_expert_pager.Codec.Encode.Refills.{loaded}
use vllm_expert_pager.Codec.Encode.Keys.{loads, place}
use vllm_expert_pager.Codec.Decode.Fields.{next_code}

more_rest : (s r v p q : ℕ) → s + r * p + v * (p * q) ≡ s + (r + v * q) * p
more_rest s r v p q = grind arith

module _ (sort : AnySort) (lengths codes : ℕ → ℕ) (chunk N : ℕ) (raw : ℕ → ℕ)
    (short : (s : ℕ) → s < 16 → lengths s ≤ limit)
    (fits : (s : ℕ) → s < 16 → codes s < 2 ^ lengths s) (some_chunk : 0 < chunk)
    (whole : N % (chunk * lanes) ≡ 0) (eights : chunk % 8 ≡ 0) (bytes : (x : ℕ) → raw x < 256)
    (lut8 : ℕ → ℕ)
    (decodes : (s hi : ℕ)
      → s < 16
      → hi < 2 ^ (limit - lengths s)
      → lut8 (codes s + hi * 2 ^ lengths s) ≡ s * 2 ^ 4 + lengths s) where
  abbrev groups : ℕ
  groups = N / (chunk * lanes)

  abbrev taken : ℕ → ℕ → ℕ
  taken = loaded sort lengths codes chunk N raw short fits some_chunk

  abbrev at_bit : ℕ → ℕ → ℕ
  at_bit = bit sort lengths codes chunk N raw short fits some_chunk

  abbrev width_at : ℕ → ℕ → ℕ
  width_at = wide sort lengths codes chunk N raw short fits some_chunk

  abbrev code_at : ℕ → ℕ → ℕ
  code_at = code sort lengths codes chunk N raw short fits some_chunk

  abbrev symbol_at : ℕ → ℕ → ℕ
  symbol_at = symbol sort lengths codes chunk N raw

  abbrev bits : ℕ → ℕ → ℕ
  bits = stream sort lengths codes chunk N raw short fits some_chunk

  abbrev load : ℕ → Bool
  load = loads sort lengths codes chunk N raw short fits some_chunk whole

  abbrev key_at : ℕ → ℕ → ℕ
  key_at = place sort lengths codes chunk N raw short fits some_chunk whole

  abbrev source : ℕ → ℕ
  source = record_bytes sort lengths codes chunk N raw

  -- The stream of a chunk goes on after `n` symbols.
  stream-rest : (c n d : ℕ) → (rest : ℕ) × (bits c (n + d) ≡ bits c n + rest * 2 ^ at_bit c n)
  unfolding stream
  stream-rest c n zero = (0, rw add-zero (omega arith))
  stream-rest c n (suc d) =
      let (rest, q) = stream-rest c n d in
      let apart = at_bit c (n + d) - at_bit c n in
      let above : 2 ^ at_bit c (n + d) ≡ 2 ^ at_bit c n * 2 ^ apart =
        pow_split (at_bit c (n + d)) (at_bit c n) apart (
          omega (
            arith,
            bit-le sort lengths codes chunk N raw short fits some_chunk c n (n + d) (omega arith),
          )) in
      (
        rest + code_at c (n + d) * 2 ^ apart,
        ap (bits c) (add-suc n d)
            ∙ ap (λ (t : ℕ). t + code_at c (n + d) * 2 ^ at_bit c (n + d)) q
            ∙ ap (λ (t : ℕ). bits c n + rest * 2 ^ at_bit c n + code_at c (n + d) * t) above
            ∙ more_rest (bits c n) rest (code_at c (n + d)) (2 ^ at_bit c n) (2 ^ apart),
      )

  -- What the table says of the next bits of a lane.
  pub next_symbol :
      (c i : ℕ)
      → i < chunk
      → lut8 (bits c chunk / 2 ^ at_bit c i % lut_bytes) ≡ symbol_at c i * 2 ^ 4 + width_at c i
  unfolding stream
  next_symbol c i li =
      let (rest, q) = stream-rest c (suc i) (chunk - suc i) in
      let last : suc i + (chunk - suc i) ≡ chunk = omega arith in
      let parts : bits c chunk
          ≡ bits c i + code_at c i * 2 ^ at_bit c i + rest * 2 ^ (at_bit c i + width_at c i) =
        ap (bits c) (sym last)
        ∙ q
        ∙ ap (λ (t : ℕ). bits c (suc i) + rest * 2 ^ t)
            (bit-suc sort lengths codes chunk N raw short fits some_chunk c i) in
      let narrow = wide-le sort lengths codes chunk N raw short fits some_chunk c i in
      ap (λ (t : ℕ). lut8 (t / 2 ^ at_bit c i % lut_bytes)) parts
      ∙ ap lut8 (
          next_code (bits c i) (code_at c i) rest (at_bit c i) (width_at c i)
            (stream-lt sort lengths codes chunk N raw short fits some_chunk c i)
            (code-lt sort lengths codes chunk N raw short fits some_chunk c i) narrow)
      ∙ decodes (symbol_at c i) (rest % 2 ^ (9 - width_at c i)) (omega arith)
          (mod-lt rest (pow_pos (9 - width_at c i)))
