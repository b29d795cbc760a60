-- ===== src/Codec/Decode/Registers.antt =====
-- The registers of `_decode_group` on a record of `encode`, symbol by symbol.
use native.Mathlib.Nat.{add-suc, zero-div, div-div-eq-div-mul}
use vllm_expert_pager.Base.{
  ℕ, zero, suc, ◌+◌, ◌-◌, ◌*◌, ◌/◌, ◌%◌, ◌^◌, ◌≤◌, ◌<◌, ◌≡◌, sym, ap, ◌∙◌, inl, inr, Bool, true,
  false, arith, Bool-cases,
}
use Prim.Native.Nat.{bit_or}
use vllm_expert_pager.Tensor.Argsort.{AnySort}
use vllm_expert_pager.Tensor.Count.{count, count-ext, count-suc, count_mono}
use vllm_expert_pager.Codec.{limit, lanes, lut_bytes}
use vllm_expert_pager.Codec.Words.{pow_split}
use vllm_expert_pager.Codec.Encode.{record_bytes, gstart, interleaved, total_words, symbol}
use vllm_expert_pager.Codec.Encode.Chunks.{bit, wide, code, stream, bit-zero, bit-suc, wide-le}
use vllm_expert_pager.Codec.Encode.Refills.{loaded, loaded_steps}
use vllm_expert_pager.Codec.Encode.Keys.{
  loads, place, loads_place, rows-groups, place-parts, place-lt,
}
use vllm_expert_pager.Codec.Encode.Interleave.{interleaved-stream}
use vllm_expert_pager.Codec.Encode.Positions.{count_from, gstart-loads, loads-total}
use vllm_expert_pager.Codec.Decode.{
  word32, huff32, Lanes, refills, read_word, filled, level_filled, looked_up, advance, lanes_at,
}
use vllm_expert_pager.Codec.Decode.Fields.{refill_bits, low_bits}
use vllm_expert_pager.Codec.Decode.Record.{word32-interleaved}
use vllm_expert_pager.Codec.Decode.Streams.{next_symbol}

in_row :
    (g lane l i m : ℕ)
    → lane < l
    → ((g * l + lane) / l * m + i) * l + (g * l + lane) % l ≡ (g * m + i) * l + lane
in_row g lane l i m lt =
    let row : (g * l + lane) / l ≡ g = grind arith in
    let column : (g * l + lane) % l ≡ lane = grind arith in
    omega (arith, ap (λ (t : ℕ). (t * m + i) * l) row)

-- The registers of a lane that loads a word, and of one that does not.
joined_registers :
    (lut8 src : ℕ → ℕ) (G chunk g : ℕ) (s : Lanes) (lane : ℕ)
    → refills lut8 src G chunk g s lane ≡ true
    → (filled lut8 src G chunk g s lane
        ≡ bit_or (s.buf lane) (
            word32 src (
              huff32 lut8 src G chunk g
              + s.rp
              + count (refills lut8 src G chunk g s) (suc lane)
              - 1)
            % 2 ^ 32
            * 2 ^ s.level lane)
          % 2 ^ 64)
      × (level_filled lut8 src G chunk g s lane ≡ s.level lane + 32)
unfolding filled level_filled read_word
joined_registers lut8 src G chunk g s lane on = (ground arith, ground arith)

kept_registers :
    (lut8 src : ℕ → ℕ) (G chunk g : ℕ) (s : Lanes) (lane : ℕ)
    → refills lut8 src G chunk g s lane ≡ false
    → (filled lut8 src G chunk g s lane ≡ s.buf lane)
      × (level_filled lut8 src G chunk g s lane ≡ s.level lane)
unfolding filled level_filled
kept_registers lut8 src G chunk g s lane off = (ground arith, ground arith)

next_row : (g i m l : ℕ) → (g * m + i) * l + l ≡ (g * m + suc i) * l
next_row g i m l = grind arith

first_row : (g m l : ℕ) → g * (m * l) ≡ (g * m + 0) * l
first_row g m l = grind arith

nothing_left : (x p : ℕ) → x % 2 ^ (32 * 0) / p ≡ 0
nothing_left x p =
    let none_ : x % 2 ^ (32 * 0) ≡ 0 = omega arith in ap (λ (t : ℕ). t / p) none_ ∙ zero-div p

module _ (sort : AnySort) (lengths codes : ℕ → ℕ) (chunk N : ℕ) (raw : ℕ → ℕ)
    (short : (s : ℕ) → s < 16 → lengths s ≤ limit)
    (fits : (s : ℕ) → s < 16 → codes s < 2 ^ lengths s) (some_chunk : 0 < chunk)
    (whole : N % (chunk * lanes) ≡ 0) (eights : chunk % 8 ≡ 0) (bytes : (x : ℕ) → raw x < 256)
    (lut8 : ℕ → ℕ)
    (decodes : (s hi : ℕ)
      → s < 16
      → hi < 2 ^ (limit - lengths s)
      → lut8 (codes s + hi * 2 ^ lengths s) ≡ s * 2 ^ 4 + lengths s) where
  abbrev groups : ℕ
  groups = N / (chunk * lanes)

  abbrev taken : ℕ → ℕ → ℕ
  taken = loaded sort lengths codes chunk N raw short fits some_chunk

  abbrev at_bit : ℕ → ℕ → ℕ
  at_bit = bit sort lengths codes chunk N raw short fits some_chunk

  abbrev width_at : ℕ → ℕ → ℕ
  width_at = wide sort lengths codes chunk N raw short fits some_chunk

  abbrev code_at : ℕ → ℕ → ℕ
  code_at = code sort lengths codes chunk N raw short fits some_chunk

  abbrev symbol_at : ℕ → ℕ → ℕ
  symbol_at = symbol sort lengths codes chunk N raw

  abbrev bits : ℕ → ℕ → ℕ
  bits = stream sort lengths codes chunk N raw short fits some_chunk

  abbrev load : ℕ → Bool
  load = loads sort lengths codes chunk N raw short fits some_chunk whole

  abbrev key_at : ℕ → ℕ → ℕ
  key_at = place sort lengths codes chunk N raw short fits some_chunk whole

  abbrev source : ℕ → ℕ
  source = record_bytes sort lengths codes chunk N raw

  -- The registers of the lanes of group `g` before symbol `i`.
  pub record InStep (g i : ℕ) (s : Lanes) : Type 0 where
    position : s.rp ≡ count load ((g * chunk + i) * lanes)
    levels :
        (lane : ℕ)
        → lane < lanes
        → s.level lane + at_bit (g * lanes + lane) i ≡ 32 * taken (g * lanes + lane) i
    buffers :
        (lane : ℕ)
        → lane < lanes
        → s.buf lane
          ≡ bits (g * lanes + lane) chunk
            % 2 ^ (32 * taken (g * lanes + lane) i)
            / 2 ^ at_bit (g * lanes + lane) i

  module _ (g i : ℕ) (s : Lanes) (lg : g < groups) (li : i < chunk) (now : InStep g i s) where
    abbrev c_of : ℕ → ℕ
    c_of lane = g * lanes + lane

    abbrev first : ℕ
    first = (g * chunk + i) * lanes

    abbrev wants : ℕ → Bool
    wants = refills lut8 source groups chunk g s

    key_of-lane : (lane : ℕ) → lane < lanes → key_at (c_of lane) i ≡ first + lane
    key_of-lane lane ll = in_row g lane lanes i chunk ll

    wants-load : (lane : ℕ) → lane < lanes → wants lane ≡ load (first + lane)
    unfolding refills
    wants-load lane ll =
        let level = now.levels lane ll in
        let steps =
          loaded_steps sort lengths codes chunk N raw short fits some_chunk (c_of lane) i in
        ground arith
        ∙ sym (
            loads_place sort lengths codes chunk N raw short fits some_chunk whole (c_of lane) i li)
        ∙ ap load (key_of-lane lane ll)

    wants-count : (n : ℕ) → n ≤ lanes → s.rp + count wants n ≡ count load (first + n)
    wants-count n ln = omega (
      arith,
      now.position,
      count_from load first n,
      count-ext wants (λ j. load (first + j)) n (λ j lj. wants-load j (omega arith)),
    )

    word-read :
        (lane : ℕ)
        → lane < lanes
        → wants lane ≡ true
        → word32 source (huff32 lut8 source groups chunk g + s.rp + count wants (suc lane) - 1)
          ≡ bits (c_of lane) chunk / 2 ^ (32 * taken (c_of lane) i) % 2 ^ 32
    word-read lane ll on =
        let c = c_of lane in
        let key = key_at c i in
        let here = key_of-lane lane ll in
        let loading : load key ≡ true = ap load here ∙ sym (wants-load lane ll) ∙ on in
        let lc : c < N / chunk =
          omega (arith, rows-groups sort lengths codes chunk N raw short fits some_chunk whole) in
        let inside =
          place-lt sort lengths codes chunk N raw short fits some_chunk whole c i lc li in
        let (chunk_, symbol_) =
          place-parts sort lengths codes chunk N raw short fits some_chunk whole c i li in
        let word : interleaved sort lengths codes chunk N raw (count load key)
            ≡ bits c chunk / 2 ^ (32 * taken c i) % 2 ^ 32 =
          interleaved-stream sort lengths codes chunk N raw short fits some_chunk whole key inside
            loading
          ∙ ap (λ (t : ℕ). bits t chunk / 2 ^ (32 * taken t (key / lanes % chunk)) % 2 ^ 32) chunk_
          ∙ ap (λ (t : ℕ). bits c chunk / 2 ^ (32 * taken c t) % 2 ^ 32) symbol_ in
        let total : count load key < total_words sort lengths codes chunk N raw = omega (
          arith,
          count-suc load key loading,
          count_mono load (suc key) (groups * chunk * lanes) inside,
          loads-total sort lengths codes chunk N raw short fits some_chunk whole,
        ) in
        let position : huff32 lut8 source groups chunk g + s.rp + count wants (suc lane) - 1
            ≡ groups + 1 + groups * chunk * lanes / 8 + count load key =
          omega (
            arith,
            wants-count (suc lane) ll,
            count-suc load key loading,
            ap (count load) here,
            ap (λ (t : ℕ). count load (suc t)) here,
            ap (count load) (add-suc first lane),
          ) in
        ap (word32 source) position
        ∙ word32-interleaved sort lengths codes chunk N raw some_chunk whole eights bytes
            (count load key) total (omega (arith, word))
        ∙ word

    level-few : (lane : ℕ) → wants lane ≡ true → s.level lane < 9
    unfolding refills
    level-few lane on = ground arith

    taken-same :
        (lane : ℕ)
        → lane < lanes
        → wants lane ≡ false
        → taken (c_of lane) (suc i) ≡ taken (c_of lane) i
    unfolding refills
    taken-same lane ll off =
        let level = now.levels lane ll in
        let steps =
          loaded_steps sort lengths codes chunk N raw short fits some_chunk (c_of lane) i in
        ground arith

    taken-more :
        (lane : ℕ)
        → lane < lanes
        → wants lane ≡ true
        → taken (c_of lane) (suc i) ≡ taken (c_of lane) i + 1
    unfolding refills
    taken-more lane ll on =
        let level = now.levels lane ll in
        let steps =
          loaded_steps sort lengths codes chunk N raw short fits some_chunk (c_of lane) i in
        ground arith

    filled-bits :
        (lane : ℕ)
        → lane < lanes
        → (filled lut8 source groups chunk g s lane
            ≡ bits (c_of lane) chunk
              % 2 ^ (32 * taken (c_of lane) (suc i))
              / 2 ^ at_bit (c_of lane) i)
          × (level_filled lut8 source groups chunk g s lane + at_bit (c_of lane) i
              ≡ 32 * taken (c_of lane) (suc i))
    filled-bits lane ll =
        let c = c_of lane in
        let level = now.levels lane ll in
        let buffer = now.buffers lane ll in
        let steps = loaded_steps sort lengths codes chunk N raw short fits some_chunk c i in
        elim (Bool-cases (wants lane)) [
          | inr off ↦
              let same : taken c (suc i) ≡ taken c i = taken-same lane ll off in
              let (kept, kept_level) = kept_registers lut8 source groups chunk g s lane off in
              (
                kept
                    ∙ buffer
                    ∙ ap (λ (t : ℕ). bits c chunk % 2 ^ (32 * t) / 2 ^ at_bit c i) (sym same),
                omega (arith, kept_level, level, same),
              )
          | inl on ↦
              let more : taken c (suc i) ≡ taken c i + 1 = taken-more lane ll on in
              let word = word-read lane ll on in
              let (joined, joined_level) = joined_registers lut8 source groups chunk g s lane on in
              let few : s.level lane < 9 = level-few lane on in
              (
                joined
                    ∙ ap (λ (t : ℕ). bit_or (s.buf lane) (t % 2 ^ 32 * 2 ^ s.level lane) % 2 ^ 64)
                        word
                    ∙ ap
                        (λ (t : ℕ).
                          bit_or t (
                            bits c chunk
                            / 2 ^ (32 * taken c i)
                            % 2 ^ 32
                            % 2 ^ 32
                            * 2 ^ s.level lane)
                          % 2 ^ 64)
                        buffer
                    ∙ refill_bits (bits c chunk) (at_bit c i) (taken c i) (s.level lane) few
                        (omega (arith, level))
                    ∙ ap (λ (t : ℕ). bits c chunk % 2 ^ (32 * t) / 2 ^ at_bit c i) (sym more),
                omega (arith, joined_level, level, more),
              )
        ]

    pub looked_up-symbol :
        (lane : ℕ)
        → lane < lanes
        → looked_up lut8 source groups chunk g s lane
          ≡ symbol_at (c_of lane) i * 2 ^ 4 + width_at (c_of lane) i
    unfolding looked_up
    looked_up-symbol lane ll =
        let c = c_of lane in
        ap (λ (t : ℕ). lut8 (t % lut_bytes)) (filled-bits lane ll).0
        ∙ ap lut8 (low_bits (bits c chunk) (at_bit c i) (taken c (suc i)) (omega arith))
        ∙ next_symbol sort lengths codes chunk N raw short fits some_chunk whole eights bytes lut8
            decodes c i li

    length-read :
        (lane : ℕ)
        → lane < lanes
        → looked_up lut8 source groups chunk g s lane % 16 ≡ width_at (c_of lane) i
    length-read lane ll = omega (
      arith,
      looked_up-symbol lane ll,
      wide-le sort lengths codes chunk N raw short fits some_chunk (c_of lane) i,
    )

    pub advance-InStep : InStep g (suc i) (advance lut8 source groups chunk g s)
    unfolding advance
    advance-InStep = record {
      position =
          omega
            (arith, wants-count lanes (omega arith), ap (count load) (next_row g i chunk lanes));
      levels = λ lane ll. omega (
        arith,
        filled-bits lane ll,
        length-read lane ll,
        bit-suc sort lengths codes chunk N raw short fits some_chunk (c_of lane) i,
        wide-le sort lengths codes chunk N raw short fits some_chunk (c_of lane) i,
      );
      buffers = λ lane ll.
          let c = c_of lane in
          let shift : 2 ^ at_bit c (suc i) ≡ 2 ^ at_bit c i * 2 ^ width_at c i =
            pow_split (at_bit c (suc i)) (at_bit c i) (width_at c i)
              (bit-suc sort lengths codes chunk N raw short fits some_chunk c i) in
          ap (λ (t : ℕ). filled lut8 source groups chunk g s lane / 2 ^ t) (length-read lane ll)
          ∙ ap (λ (t : ℕ). t / 2 ^ width_at c i) (filled-bits lane ll).0
          ∙ div-div-eq-div-mul _ (2 ^ at_bit c i) (2 ^ width_at c i)
          ∙ ap (λ (t : ℕ). bits c chunk % 2 ^ (32 * taken c (suc i)) / t) (sym shift);
    }

  -- For code lengths of at most nine, codes that fit them, a table that decodes them and a row of whole
  -- groups of chunks of a multiple of eight: before every symbol of a group, its position and its lanes'
  -- bit counts and buffers are the number of words loaded so far, the bits that are left of those words,
  -- and these bits of the streams.
  pub lanes_at-InStep :
      (g i : ℕ)
      → g < groups
      → i ≤ chunk
      → InStep g i (lanes_at lut8 source groups chunk g (gstart sort lengths codes chunk N raw g) i)
  unfolding lanes_at
  lanes_at-InStep g zero lg le = record {
    position =
        gstart-loads sort lengths codes chunk N raw short fits some_chunk whole g (omega arith)
        ∙ ap (count load) (first_row g chunk lanes);
    levels = λ lane ll.
        omega
          (arith, bit-zero sort lengths codes chunk N raw short fits some_chunk (g * lanes + lane));
    buffers = λ lane ll.
        sym (nothing_left (bits (g * lanes + lane) chunk) (2 ^ at_bit (g * lanes + lane) 0));
  }
  lanes_at-InStep g (suc i) lg le =
      advance-InStep g i
        (lanes_at lut8 source groups chunk g (gstart sort lengths codes chunk N raw g) i) lg le
        (lanes_at-InStep g i lg (omega arith))

  -- What a lane looks up for symbol `i` of its chunk.
  pub looked_up-at :
      (g i lane : ℕ)
      → g < groups
      → i < chunk
      → lane < lanes
      → looked_up lut8 source groups chunk g
          (lanes_at lut8 source groups chunk g (gstart sort lengths codes chunk N raw g) i)
          lane
        ≡ symbol_at (g * lanes + lane) i * 2 ^ 4 + width_at (g * lanes + lane) i
  looked_up-at g i lane lg li ll =
      looked_up-symbol g i
        (lanes_at lut8 source groups chunk g (gstart sort lengths codes chunk N raw g) i) lg li
        (lanes_at-InStep g i lg (omega arith)) lane ll
