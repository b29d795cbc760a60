-- ===== src/Codec/Encode/Keys.antt =====
-- The keys of the words: the symbol before which a lane loads one, and then the lane.
use native.Mathlib.Nat.{mod-lt, div-add-mod, mul-div_cancel}
use vllm_expert_pager.Base.{
  ℕ, zero, suc, ◌+◌, ◌*◌, ◌/◌, ◌%◌, ◌^◌, ◌≤◌, ◌<◌, ◌≡◌, refl, sym, ap, ◌∙◌, Bool, true, arith,
  ℕ_discrete, ltb, subst,
}
use vllm_expert_pager.Tensor.Argsort.{AnySort}
use vllm_expert_pager.Codec.{limit, lanes}
use vllm_expert_pager.Codec.Encode.{refill_at, valid, kmax, max_below, key, is_word}
use vllm_expert_pager.Codec.Encode.Chunks.{words_of}
use vllm_expert_pager.Codec.Encode.Refills.{
  loaded, loaded_steps, loaded-le, loaded-end, refill_at-loaded, loaded-refill_at,
}

max_below-le : (f : ℕ → ℕ) (n i : ℕ) → i < n → f i ≤ max_below f n
unfolding max_below
max_below-le f zero i lt = absurd (omega arith)
max_below-le f (suc n) i lt = elim (ℕ_discrete i n) [
  | yes q ↦ omega (arith, ap f q)
  | no ne ↦ omega (arith, max_below-le f n i (omega arith))
]

grid : (c k n : ℕ) → k < n → ((c * n + k) / n ≡ c) × ((c * n + k) % n ≡ k)
grid c k n lt = grind arith

grid-lt : (c k m n : ℕ) → c < m → k < n → c * n + k < m * n
grid-lt c k m n lc lk = grind arith

grid-row : (q m n : ℕ) → q < m * n → (q / n < m) × (0 < n)
grid-row q m n lt = grind arith

whole_grid : (q n : ℕ) → q / n * n + q % n ≡ q
whole_grid q n = grind arith

whole_rows : (n w l : ℕ) → 0 < w → 0 < l → n % (w * l) ≡ 0 → n / w ≡ n / (w * l) * l
whole_rows n w l pw pl h =
    let split : n ≡ n / (w * l) * (w * l) = omega (arith, div-add-mod n (w * l)) in
    let move : n / (w * l) * (w * l) ≡ n / (w * l) * l * w = grind arith in
    ap (λ (t : ℕ). t / w) (split ∙ move) ∙ mul-div_cancel (n / (w * l) * l) pw

module _ (sort : AnySort) (lengths codes : ℕ → ℕ) (chunk N : ℕ) (raw : ℕ → ℕ)
    (short : (s : ℕ) → s < 16 → lengths s ≤ limit)
    (fits : (s : ℕ) → s < 16 → codes s < 2 ^ lengths s) (some_chunk : 0 < chunk)
    (whole : N % (chunk * lanes) ≡ 0) where
  abbrev columns : ℕ
  columns = kmax sort lengths codes chunk N raw

  abbrev row_count : ℕ
  row_count = N / chunk

  abbrev group_count : ℕ
  group_count = N / (chunk * lanes)

  abbrev taken : ℕ → ℕ → ℕ
  taken = loaded sort lengths codes chunk N raw short fits some_chunk

  abbrev words_in : ℕ → ℕ
  words_in = words_of sort lengths codes chunk N raw short fits some_chunk

  abbrev at : ℕ → ℕ → ℕ
  at = refill_at sort lengths codes chunk N raw

  abbrev cells : ℕ
  cells = row_count * columns

  abbrev word_here : ℕ → Bool
  word_here = is_word sort lengths codes chunk N raw

  abbrev key_of : ℕ → ℕ
  key_of = key sort lengths codes chunk N raw

  pub rows-groups : row_count ≡ group_count * lanes
  rows-groups = whole_rows N chunk lanes some_chunk (omega arith) whole

  -- The place of a key: its chunk, and its symbol.
  abbrev pub chunk_of : ℕ → ℕ
  chunk_of x = x / lanes / chunk * lanes + x % lanes

  abbrev pub symbol_of : ℕ → ℕ
  symbol_of x = x / lanes % chunk

  -- Whether the lane of a key loads a word before its symbol.
  abbrev pub loads : ℕ → Bool
  loads x = ltb (taken (chunk_of x) (symbol_of x)) (taken (chunk_of x) (suc (symbol_of x)))

  abbrev pub keys : ℕ
  keys = group_count * chunk * lanes

  -- The key of lane `c % lanes` of group `c / lanes` at symbol `i`.
  abbrev pub place : ℕ → ℕ → ℕ
  place c i = (c / lanes * chunk + i) * lanes + c % lanes

  pub place-parts : (c i : ℕ) → i < chunk → (chunk_of (place c i) ≡ c) × (symbol_of (place c i) ≡ i)
  place-parts c i li =
      let (row, lane) = grid (c / lanes * chunk + i) (c % lanes) lanes (omega arith) in
      let (group, sym_) = grid (c / lanes) i chunk li in
      (omega (arith, ap (λ (t : ℕ). t / chunk) row, group), ap (λ (t : ℕ). t % chunk) row ∙ sym_)

  pub place-lt : (c i : ℕ) → c < row_count → i < chunk → place c i < keys
  place-lt c i lc li =
      grid-lt (c / lanes * chunk + i) (c % lanes) (group_count * chunk) lanes
        (grid-lt (c / lanes) i group_count chunk (omega (arith, rows-groups)) li) (omega arith)

  chunk_of-lt : (x : ℕ) → x < keys → chunk_of x < row_count
  chunk_of-lt x lx =
      let row = grid-row x (group_count * chunk) lanes lx in
      let group = grid-row (x / lanes) group_count chunk row.0 in omega (arith, rows-groups)

  symbol_of-lt : (x : ℕ) → symbol_of x < chunk
  symbol_of-lt x = mod-lt (x / lanes) some_chunk

  place-back : (x : ℕ) → place (chunk_of x) (symbol_of x) ≡ x
  place-back x =
      let wholes = whole_grid (x / lanes) chunk in
      let group : chunk_of x / lanes ≡ x / lanes / chunk = omega arith in
      omega (arith, ap (λ (t : ℕ). t * chunk) group)

  -- A word of the matrix, as a chunk and a number.
  abbrev c_of : ℕ → ℕ
  c_of q = q / columns

  abbrev k_of : ℕ → ℕ
  k_of q = q % columns

  word-at : (q : ℕ) → word_here q ≡ true → at (c_of q) (k_of q) < chunk
  unfolding is_word valid
  word-at q h = ground arith

  at-word : (q : ℕ) → at (c_of q) (k_of q) < chunk → word_here q ≡ true
  unfolding is_word valid
  at-word q lt = ground arith

  key-place : (q : ℕ) → key_of q ≡ place (c_of q) (at (c_of q) (k_of q))
  unfolding key
  key-place q = refl

  pub loads_place : (c i : ℕ) → i < chunk → loads (place c i) ≡ ltb (taken c i) (taken c (suc i))
  loads_place c i li =
      let (row, symbol_) = place-parts c i li in
      ap (λ (t : ℕ). ltb (taken t (symbol_of (place c i))) (taken t (suc (symbol_of (place c i)))))
        row
      ∙ ap (λ (t : ℕ). ltb (taken c t) (taken c (suc t))) symbol_

  pub key-loads :
      (q : ℕ) → q < cells → word_here q ≡ true → (loads (key_of q) ≡ true) × (key_of q < keys)
  key-loads q lq h =
      let lt = word-at q h in
      let row = grid-row q row_count columns lq in
      let (before_, after_) =
        loaded-refill_at sort lengths codes chunk N raw short fits some_chunk (c_of q) (k_of q)
          lt in
      (
        ap loads (key-place q) ∙ loads_place (c_of q) (at (c_of q) (k_of q)) lt ∙ ground arith,
        subst (λ (t : ℕ). t < keys) (sym (key-place q))
            (place-lt (c_of q) (at (c_of q) (k_of q)) row.0 lt),
      )

  pub key-different :
      (q r : ℕ) → word_here q ≡ true → word_here r ≡ true → key_of q ≡ key_of r → q ≡ r
  key-different q r hq hr same =
      let lq = word-at q hq in
      let lr = word-at r hr in
      let (row, at_q) = place-parts (c_of q) (at (c_of q) (k_of q)) lq in
      let (row', at_r) = place-parts (c_of r) (at (c_of r) (k_of r)) lr in
      let places = sym (key-place q) ∙ same ∙ key-place r in
      let chunks : c_of q ≡ c_of r = sym row ∙ ap chunk_of places ∙ row' in
      let symbols : at (c_of q) (k_of q) ≡ at (c_of r) (k_of r) =
        sym at_q ∙ ap symbol_of places ∙ at_r in
      let (before_, after_) =
        loaded-refill_at sort lengths codes chunk N raw short fits some_chunk (c_of q) (k_of q)
          lq in
      let (before', after') =
        loaded-refill_at sort lengths codes chunk N raw short fits some_chunk (c_of r) (k_of r)
          lr in
      let words_ : k_of q ≡ k_of r =
        sym before_
        ∙ ap (taken (c_of q)) symbols
        ∙ ap (λ (t : ℕ). taken t (at (c_of r) (k_of r))) chunks
        ∙ before' in
      sym (whole_grid q columns)
      ∙ ap (λ (t : ℕ). t * columns + k_of q) chunks
      ∙ ap (λ (t : ℕ). c_of r * columns + t) words_
      ∙ whole_grid r columns

  -- The word that is loaded at a key.
  abbrev pub cell : ℕ → ℕ
  cell x = chunk_of x * columns + taken (chunk_of x) (symbol_of x)

  pub taken-lt : (c i : ℕ) → i < chunk → taken c i < taken c (suc i) → taken c i < words_in c
  taken-lt c i li lt = omega (
    arith,
    loaded-le sort lengths codes chunk N raw short fits some_chunk c (suc i) chunk li,
    loaded-end sort lengths codes chunk N raw short fits some_chunk c,
  )

  pub cell-parts :
      (x : ℕ)
      → x < keys
      → loads x ≡ true
      → (c_of (cell x) ≡ chunk_of x) × (k_of (cell x) ≡ taken (chunk_of x) (symbol_of x))
  unfolding kmax
  cell-parts x lx on =
      let c = chunk_of x in
      let i = symbol_of x in
      let word = taken-lt c i (symbol_of-lt x) (ground arith) in
      grid c (taken c i) columns
        (omega (arith, max_below-le words_in row_count c (chunk_of-lt x lx)))

  pub loads-cell :
      (x : ℕ)
      → x < keys
      → loads x ≡ true
      → (chunk_of x < row_count)
        × (taken (chunk_of x) (symbol_of x) < words_in (chunk_of x))
        × (cell x < cells)
        × (word_here (cell x) ≡ true)
        × (key_of (cell x) ≡ x)
  unfolding kmax
  loads-cell x lx on =
      let c = chunk_of x in
      let i = symbol_of x in
      let lc = chunk_of-lt x lx in
      let li = symbol_of-lt x in
      let more : taken c i < taken c (suc i) = ground arith in
      let step = loaded_steps sort lengths codes chunk N raw short fits some_chunk c i in
      let next : taken c (suc i) ≡ taken c i + 1 = ground arith in
      let word = taken-lt c i li more in
      let column : taken c i < columns = omega (arith, max_below-le words_in row_count c lc) in
      let (at_c, at_k) = cell-parts x lx on in
      let here =
        refill_at-loaded sort lengths codes chunk N raw short fits some_chunk c (taken c i) i li
          refl next in
      let place_ : at (c_of (cell x)) (k_of (cell x)) ≡ i =
        ap (λ (t : ℕ). at t (k_of (cell x))) at_c ∙ ap (at c) at_k ∙ here in
      (
        lc,
        word,
        grid-lt c (taken c i) row_count columns lc column,
        at-word (cell x) (omega (arith, place_)),
        key-place (cell x)
            ∙ ap (λ (t : ℕ). place (c_of (cell x)) t) place_
            ∙ ap (λ (t : ℕ). place t i) at_c
            ∙ place-back x,
      )
