-- ===== src/Tensor/Sum.antt =====
-- `torch.cumsum` of numbers: sums of the first entries, in any order.
use native.Mathlib.Nat.{add-zero, add-suc, zero-mul, suc-mul}
use vllm_expert_pager.Base.{
  ℕ, zero, suc, ◌+◌, ◌*◌, ◌≤◌, ◌<◌, ◌≡◌, refl, sym, ap, ◌∙◌, ◌≢◌, arith, ℕ_discrete, dec_lt, ◌==◌,
  if◌then◌else◌,
}

-- The sum of `f` below `n`.
unfoldable pub sum_below : (ℕ → ℕ) → ℕ → ℕ
sum_below f zero = 0
sum_below f (suc n) = sum_below f n + f n

pub sum_below-le : (f : ℕ → ℕ) (i j : ℕ) → i ≤ j → sum_below f i ≤ sum_below f j
unfolding sum_below
sum_below-le f i zero le = let q : i ≡ 0 = omega arith in rw q (omega arith)
sum_below-le f i (suc j) le = elim (ℕ_discrete i (suc j)) [
  | yes q ↦ rw q (omega arith)
  | no ne ↦ omega (arith, sum_below-le f i j (omega arith))
]

-- Every number below a sum lies in the interval of one summand.
pub sum_below-find :
    (f : ℕ → ℕ) (n y : ℕ)
    → y < sum_below f n
    → (i : ℕ) × (i < n) × (sum_below f i ≤ y) × (y < sum_below f i + f i)
unfolding sum_below
sum_below-find f zero y lt = absurd (omega arith)
sum_below-find f (suc n) y lt = elim (dec_lt y (sum_below f n)) [
  | yes low ↦ let (i, li, le, lt') = sum_below-find f n y low in (i, omega arith, le, lt')
  | no high ↦ (n, omega arith, omega arith, omega arith)
]

pub sum_below-ext :
    (f g : ℕ → ℕ) (n : ℕ) → ((i : ℕ) → i < n → f i ≡ g i) → sum_below f n ≡ sum_below g n
unfolding sum_below
sum_below-ext f g zero h = refl
sum_below-ext f g (suc n) h =
    omega (arith, sum_below-ext f g n (λ i lt. h i (omega arith)), h n (omega arith))

pub sum_below-add :
    (f g : ℕ → ℕ) (n : ℕ) → sum_below (λ i. f i + g i) n ≡ sum_below f n + sum_below g n
unfolding sum_below
sum_below-add f g zero = omega arith
sum_below-add f g (suc n) = omega (arith, sum_below-add f g n)

pub sum_below-zero : (n : ℕ) → sum_below (λ _. 0) n ≡ 0
unfolding sum_below
sum_below-zero zero = refl
sum_below-zero (suc n) = omega (arith, sum_below-zero n)

-- One summand that is not zero.
pub sum_below-single :
    (f : ℕ → ℕ) (n i : ℕ) → i < n → ((j : ℕ) → j < n → j ≢ i → f j ≡ 0) → sum_below f n ≡ f i
unfolding sum_below
sum_below-single f zero i lt h = absurd (omega arith)
sum_below-single f (suc n) i lt h = elim (ℕ_discrete i n) [
  | yes q ↦
      let rest =
        sum_below-ext f (λ _. 0) n (λ j lj. h j (omega arith) (λ e. omega (arith, q, e))) in
      omega (arith, rest, sum_below-zero n, ap f q)
  | no ne ↦ omega (
    arith,
    sum_below-single f n i (omega arith) (λ j lj. h j (omega arith)),
    h n (omega arith) (λ e. ne (sym e)),
  )
]

pub sum_below-swap :
    (g : ℕ → ℕ → ℕ) (m n : ℕ)
    → sum_below (λ j. sum_below (g j) n) m ≡ sum_below (λ s. sum_below (λ j. g j s) m) n
unfolding sum_below
sum_below-swap g zero n = sym (sum_below-zero n)
sum_below-swap g (suc m) n =
    omega (arith, sum_below-swap g m n, sum_below-add (λ s. sum_below (λ j. g j s) m) (g m) n)

-- A sum over a permutation of the indices.
pub sum_below-order :
    (f o : ℕ → ℕ) (n : ℕ)
    → ((j : ℕ) → j < n → o j < n)
    → ((s : ℕ) → s < n → (j : ℕ) × (j < n) × (o j ≡ s))
    → ((i j : ℕ) → i < n → j < n → o i ≡ o j → i ≡ j)
    → sum_below (λ j. f (o j)) n ≡ sum_below f n
sum_below-order f o n bounded onto injective =
    sum_below-ext (λ j. f (o j)) (λ j. sum_below (cell j) n) n
      (λ j lj. sym (
        sum_below-single (cell j) n (o j) (bounded j lj) (λ s ls ne. off j s (λ e. ne (sym e)))
        ∙ on j (o j) refl))
    ∙ sum_below-swap cell n n
    ∙ sum_below-ext (λ s. sum_below (λ j. cell j s) n) f n
        (λ s ls.
          let (i, li, q) = onto s ls in
          sum_below-single (λ j. cell j s) n i li
            (λ j lj ne. off j s (λ e. ne (injective j i lj li (e ∙ sym q))))
          ∙ on i s q)
  where
    cell : ℕ → ℕ → ℕ
    cell j s = if o j == s then f s else 0

    on : (j s : ℕ) → o j ≡ s → cell j s ≡ f s
    on j s q = ground arith

    off : (j s : ℕ) → o j ≢ s → cell j s ≡ 0
    off j s ne = ground arith

-- A sum over the cells of a grid, row by row.
pub sum_below-split :
    (f : ℕ → ℕ) (m n : ℕ) → sum_below f (m + n) ≡ sum_below f m + sum_below (λ i. f (m + i)) n
unfolding sum_below
sum_below-split f m zero = rw add-zero (omega arith)
sum_below-split f m (suc n) = rw (add-suc, sum_below) (omega (arith, sum_below-split f m n))

pub sum_below-grid :
    (f : ℕ → ℕ) (m n : ℕ)
    → sum_below f (m * n) ≡ sum_below (λ c. sum_below (λ i. f (c * n + i)) n) m
unfolding sum_below
sum_below-grid f zero n = rw zero-mul refl
sum_below-grid f (suc m) n =
    rw suc-mul (sum_below-split f (m * n) n ∙ omega (arith, sum_below-grid f m n))
