-- ===== src/Codec/Encode/Interleave.antt =====
-- The order of the words in the record: by the symbol before which a lane loads them, and then by lane.

use vllm_expert_pager.Base.{
  ℕ, suc, ◌+◌, ◌*◌, ◌/◌, ◌%◌, ◌^◌, ◌≤◌, ◌<◌, ◌≡◌, sym, ap, ◌∙◌, Bool, true, arith,
}
use vllm_expert_pager.Tensor.Argsort.{AnySort}
use vllm_expert_pager.Tensor.Count.{count, count-suc, count_mono}
use vllm_expert_pager.Tensor.Ranks.{ranked_key}
use vllm_expert_pager.Codec.{limit, lanes}
use vllm_expert_pager.Codec.Encode.{kmax, key, word_source, is_word, word_at, interleaved, words}
use vllm_expert_pager.Codec.Encode.Chunks.{base, stream, words-stream}
use vllm_expert_pager.Codec.Encode.Refills.{masked-rank, masked-set, loaded}
use vllm_expert_pager.Codec.Encode.Keys.{
  loads, keys, cell, chunk_of, symbol_of, key-loads, key-different, cell-parts, loads-cell,
}

module _ (sort : AnySort) (lengths codes : ℕ → ℕ) (chunk N : ℕ) (raw : ℕ → ℕ)
    (short : (s : ℕ) → s < 16 → lengths s ≤ limit)
    (fits : (s : ℕ) → s < 16 → codes s < 2 ^ lengths s) (some_chunk : 0 < chunk)
    (whole : N % (chunk * lanes) ≡ 0) where
  abbrev word_here : ℕ → Bool
  word_here = is_word sort lengths codes chunk N raw

  abbrev key_of : ℕ → ℕ
  key_of = key sort lengths codes chunk N raw

  abbrev cells : ℕ
  cells = N / chunk * kmax sort lengths codes chunk N raw

  abbrev k_of : ℕ → ℕ
  k_of q = q % kmax sort lengths codes chunk N raw

  abbrev taken : ℕ → ℕ → ℕ
  taken = loaded sort lengths codes chunk N raw short fits some_chunk

  abbrev load : ℕ → Bool
  load = loads sort lengths codes chunk N raw short fits some_chunk whole

  abbrev key_count : ℕ
  key_count = keys sort lengths codes chunk N raw short fits some_chunk whole

  abbrev load_cell : ℕ → ℕ
  load_cell = cell sort lengths codes chunk N raw short fits some_chunk whole

  abbrev row_of : ℕ → ℕ
  row_of = chunk_of sort lengths codes chunk N raw short fits some_chunk whole

  abbrev turn_of : ℕ → ℕ
  turn_of = symbol_of sort lengths codes chunk N raw short fits some_chunk whole

  -- The words that the record has, by their key_count.
  abbrev word_key : ℕ → ℕ
  word_key j = key_of (word_at sort lengths codes chunk N raw j)

  abbrev present : ℕ
  present = count word_here cells

  word_at-set :
      (j : ℕ)
      → j < present
      → (word_at sort lengths codes chunk N raw j < cells)
        × (word_here (word_at sort lengths codes chunk N raw j) ≡ true)
        × (count word_here (word_at sort lengths codes chunk N raw j) ≡ j)
  unfolding word_at kmax is_word
  word_at-set j lj = masked-set cells word_here j lj

  word_at-rank :
      (q : ℕ)
      → q < cells
      → word_here q ≡ true
      → word_at sort lengths codes chunk N raw (count word_here q) ≡ q
  unfolding word_at kmax is_word
  word_at-rank q lq h = masked-rank cells word_here q lq h

  word_source-cell :
      (x : ℕ)
      → x < key_count
      → load x ≡ true
      → word_source sort lengths codes chunk N raw (load_cell x)
        ≡ base sort lengths codes chunk N raw short fits some_chunk (row_of x)
          + taken (row_of x) (turn_of x)
  unfolding word_source
  word_source-cell x lx on =
      let (lc, lk, lq, word, back) =
        loads-cell sort lengths codes chunk N raw short fits some_chunk whole x lx on in
      let (row, column) =
        cell-parts sort lengths codes chunk N raw short fits some_chunk whole x lx on in
      ap
        (λ (t : ℕ).
          base sort lengths codes chunk N raw short fits some_chunk t + k_of (load_cell x))
        row
      ∙ ap (λ (t : ℕ). base sort lengths codes chunk N raw short fits some_chunk (row_of x) + t)
          column

  -- For code lengths of at most nine, codes that fit them and a row of whole groups: the word that a lane
  -- needs at a key stands in the record at the number of keys below it at which a lane loads a word, and
  -- has the next 32 bits of the stream of the lane's chunk.
  pub interleaved-stream :
      (x : ℕ)
      → x < key_count
      → load x ≡ true
      → interleaved sort lengths codes chunk N raw (count load x)
        ≡ stream sort lengths codes chunk N raw short fits some_chunk (row_of x) chunk
          / 2 ^ (32 * taken (row_of x) (turn_of x))
          % 2 ^ 32
  unfolding interleaved
  interleaved-stream x lx on =
      let (lc, lk, lq, word, back) =
        loads-cell sort lengths codes chunk N raw short fits some_chunk whole x lx on in
      let (rank, sorted) =
        ranked_key sort present key_count word_key load
          (λ j lj.
            let (at_, set, _) = word_at-set j lj in
            key-loads sort lengths codes chunk N raw short fits some_chunk whole
              (word_at sort lengths codes chunk N raw j) at_ set)
          (λ i j li lj same.
            let (at_i, set_i, rank_i) = word_at-set i li in
            let (at_j, set_j, rank_j) = word_at-set j lj in
            sym rank_i
            ∙ ap (count word_here) (
                key-different sort lengths codes chunk N raw short fits some_chunk whole _ _ set_i
                  set_j same)
            ∙ rank_j)
          (λ y ly my.
            let (_, _, lq', word', back') =
              loads-cell sort lengths codes chunk N raw short fits some_chunk whole y ly my in
            (
              count word_here (load_cell y),
              omega (
                arith,
                count-suc word_here (load_cell y) word',
                count_mono word_here (suc (load_cell y)) cells lq',
              ),
              ap key_of (word_at-rank (load_cell y) lq' word') ∙ back',
            ))
          x lx on in
      let j = sort.order present word_key (count load x) in
      let (at_j, set_j, _) = word_at-set j (sort.bounded present word_key (count load x) rank) in
      let here =
        key-different sort lengths codes chunk N raw short fits some_chunk whole
          (word_at sort lengths codes chunk N raw j) (load_cell x) set_j word (sorted ∙ sym back) in
      ap
        (λ (t : ℕ).
          words sort lengths codes chunk N raw (word_source sort lengths codes chunk N raw t))
        here
      ∙ ap (words sort lengths codes chunk N raw) (word_source-cell x lx on)
      ∙ words-stream sort lengths codes chunk N raw short fits some_chunk (row_of x)
          (taken (row_of x) (turn_of x)) lc lk
