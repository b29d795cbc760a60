-- ===== src/Codec/Encode/Positions.antt =====
-- Where the words of a group stand in the record: `gstart` of `encode`.
use native.Mathlib.Nat.{suc-mul, zero-mul, mul_assoc, mul-le-mul_right}
use vllm_expert_pager.Base.{
  ℕ, zero, suc, ◌+◌, ◌*◌, ◌/◌, ◌%◌, ◌^◌, ◌≤◌, ◌<◌, ◌≡◌, refl, sym, ap, ◌∙◌, Bool, arith, ℕ_discrete,
  if◌then◌else◌,
}
use vllm_expert_pager.Tensor.Argsort.{AnySort}
use vllm_expert_pager.Tensor.Count.{count, count_mono}
use vllm_expert_pager.Tensor.Sum.{
  sum_below, sum_below-ext, sum_below-grid, sum_below-split, sum_below-swap,
}
use vllm_expert_pager.Codec.{limit, lanes}
use vllm_expert_pager.Codec.Encode.{per_group, gstart, total_words}
use vllm_expert_pager.Codec.Encode.Chunks.{words_of, cumsum_before-sum}
use vllm_expert_pager.Codec.Encode.Refills.{loaded, loaded_steps, loaded-end}
use vllm_expert_pager.Codec.Encode.Keys.{loads, keys, place, loads_place, rows-groups}

abbrev flag : Bool → ℕ
flag b = if b then 1 else 0

count-sum : (mask : ℕ → Bool) (n : ℕ) → count mask n ≡ sum_below (λ x. flag (mask x)) n
unfolding count sum_below
count-sum mask zero = refl
count-sum mask (suc n) = omega (arith, count-sum mask n)

pub count_from :
    (mask : ℕ → Bool) (a n : ℕ) → count mask (a + n) ≡ count mask a + count (λ j. mask (a + j)) n
count_from mask a n = omega (
  arith,
  count-sum mask (a + n),
  count-sum mask a,
  count-sum (λ j. mask (a + j)) n,
  sum_below-split (λ x. flag (mask x)) a n,
)

in_row :
    (g i lane m l : ℕ)
    → lane < l
    → g * (m * l) + (i * l + lane) ≡ ((g * l + lane) / l * m + i) * l + (g * l + lane) % l
in_row g i lane m l lt =
    let row : (g * l + lane) / l ≡ g = grind arith in
    let column : (g * l + lane) % l ≡ lane = grind arith in
    grind (arith, ap (λ (t : ℕ). (t * m + i) * l) row)

row_after : (g n : ℕ) → suc g * n ≡ g * n + n
row_after g n = suc-mul g n

module _ (sort : AnySort) (lengths codes : ℕ → ℕ) (chunk N : ℕ) (raw : ℕ → ℕ)
    (short : (s : ℕ) → s < 16 → lengths s ≤ limit)
    (fits : (s : ℕ) → s < 16 → codes s < 2 ^ lengths s) (some_chunk : 0 < chunk)
    (whole : N % (chunk * lanes) ≡ 0) where
  abbrev taken : ℕ → ℕ → ℕ
  taken = loaded sort lengths codes chunk N raw short fits some_chunk

  abbrev words_in : ℕ → ℕ
  words_in = words_of sort lengths codes chunk N raw short fits some_chunk

  abbrev load : ℕ → Bool
  load = loads sort lengths codes chunk N raw short fits some_chunk whole

  abbrev at : ℕ → ℕ → ℕ
  at = place sort lengths codes chunk N raw short fits some_chunk whole

  abbrev group_count : ℕ
  group_count = N / (chunk * lanes)

  -- A lane loads its words one by one.
  lane-loads : (c n : ℕ) → n ≤ chunk → sum_below (λ i. flag (load (at c i))) n ≡ taken c n
  unfolding sum_below
  lane-loads c zero le = refl
  lane-loads c (suc n) le = ground (
    arith,
    lane-loads c n (omega arith),
    loaded_steps sort lengths codes chunk N raw short fits some_chunk c n,
    loads_place sort lengths codes chunk N raw short fits some_chunk whole c n le,
  )

  group-loads :
      (g : ℕ)
      → sum_below (λ j. flag (load (g * (chunk * lanes) + j))) (chunk * lanes)
        ≡ per_group sort lengths codes chunk N raw g
  unfolding per_group
  group-loads g =
      sum_below-grid (λ j. flag (load (g * (chunk * lanes) + j))) chunk lanes
      ∙ sum_below-ext _ _ chunk (λ i li.
        sum_below-ext _ (λ lane. flag (load (at (g * lanes + lane) i))) lanes
          (λ lane ll. ap (λ (t : ℕ). flag (load t)) (in_row g i lane chunk lanes ll)))
      ∙ sum_below-swap (λ i lane. flag (load (at (g * lanes + lane) i))) chunk lanes
      ∙ sum_below-ext _ (λ lane. words_in (g * lanes + lane)) lanes
          (λ lane ll.
            lane-loads (g * lanes + lane) chunk (omega arith)
            ∙ loaded-end sort lengths codes chunk N raw short fits some_chunk (g * lanes + lane))

  loads-groups :
      (g : ℕ)
      → count load (g * (chunk * lanes)) ≡ sum_below (per_group sort lengths codes chunk N raw) g
  unfolding sum_below
  loads-groups zero = ap (count load) (zero-mul (chunk * lanes)) ∙ (unfold count in refl)
  loads-groups (suc g) =
      ap (count load) (row_after g (chunk * lanes))
      ∙ count_from load (g * (chunk * lanes)) (chunk * lanes)
      ∙ omega (
        arith,
        loads-groups g,
        count-sum (λ j. load (g * (chunk * lanes) + j)) (chunk * lanes),
        group-loads g,
      )

  -- The words of a group begin at the number of words that the groups before it load.
  pub gstart-loads :
      (g : ℕ)
      → g ≤ group_count
      → gstart sort lengths codes chunk N raw g ≡ count load (g * (chunk * lanes))
  unfolding gstart
  gstart-loads g le = elim (ℕ_discrete g group_count) [
    | yes last ↦
        ground
          (arith, loads-groups g, ap (sum_below (per_group sort lengths codes chunk N raw)) last)
    | no ne ↦
        ground
          (arith, loads-groups g, cumsum_before-sum (per_group sort lengths codes chunk N raw) g)
  ]

  -- All words are loaded.
  pub loads-total :
      count load (keys sort lengths codes chunk N raw short fits some_chunk whole)
      ≡ total_words sort lengths codes chunk N raw
  unfolding total_words per_group
  loads-total =
      ap (count load) (mul_assoc group_count chunk lanes)
      ∙ loads-groups group_count
      ∙ sym (sum_below-grid words_in group_count lanes)
      ∙ ap (sum_below words_in)
          (sym (rows-groups sort lengths codes chunk N raw short fits some_chunk whole))

  -- They begin within the words of the row.
  pub gstart-le :
      (g : ℕ)
      → g ≤ group_count
      → gstart sort lengths codes chunk N raw g ≤ total_words sort lengths codes chunk N raw
  gstart-le g le =
      let inside : g * (chunk * lanes) ≤ group_count * (chunk * lanes) =
        mul-le-mul_right (chunk * lanes) le in
      omega (
        arith,
        gstart-loads g le,
        loads-total,
        count_mono load (g * (chunk * lanes)) (group_count * (chunk * lanes)) inside,
        ap (count load) (mul_assoc group_count chunk lanes),
      )
