-- ===== src/Tensor/Count.antt =====
-- `torch.cumsum` of a mask, its last entry, and counting by an injection.
use native.Mathlib.Nat.{zero-add, suc-add}
use vllm_expert_pager.Base.{
  ℕ, zero, suc, ◌+◌, ◌-◌, ◌≤◌, ◌<◌, ◌≡◌, refl, ◌≢◌, Bool, true, false, not, ◌&&◌, arith, ◌==◌,
  if◌then◌else◌, ℕ_discrete, ap, inl, inr, Bool-cases, dec_lt, ◌⊎◌, length, leb, List, [], ◌∷◌,
}
use vllm_expert_pager.Tensor.Put.{update, index_fill}

-- The number of entries below `n` that are set: `cumsum(mask)[n - 1]`, or `mask.sum()`.
unfoldable pub count : (ℕ → Bool) → ℕ → ℕ
count mask zero = 0
count mask (suc n) = count mask n + (if mask n then 1 else 0)

pub count_mono : (mask : ℕ → Bool) (m n : ℕ) → m ≤ n → count mask m ≤ count mask n
unfolding count
count_mono mask m zero h = let e : m ≡ 0 = omega arith in rw e (omega arith)
count_mono mask m (suc n) h = elim (ℕ_discrete m (suc n)) [
  | yes e ↦ rw e (omega arith)
  | no ne ↦ ground (arith, count_mono mask m n)
]

pub count-suc : (mask : ℕ → Bool) (i : ℕ) → mask i ≡ true → count mask (suc i) ≡ count mask i + 1
unfolding count
count-suc mask i h = rw h

pub count-lt :
    (mask : ℕ → Bool) (a b : ℕ) → mask b ≡ true → a < b → count mask (suc a) < count mask (suc b)
count-lt mask a b hb lt = omega (arith, count-suc mask b hb, count_mono mask (suc a) b lt)

-- Two set entries have different ranks.
pub count-injective :
    (mask : ℕ → Bool) (i j : ℕ)
    → mask i ≡ true
    → mask j ≡ true
    → count mask (suc i) ≡ count mask (suc j)
    → i ≡ j
count-injective mask i j hi hj e = ground (arith, count-lt mask i j hj, count-lt mask j i hi)

pub count-le : (mask : ℕ → Bool) (n : ℕ) → count mask n ≤ n
unfolding count
count-le mask zero = omega arith
count-le mask (suc n) = ground (arith, count-le mask n)

pub count-ext :
    (mask mask' : ℕ → Bool) (n : ℕ)
    → ((k : ℕ) → k < n → mask k ≡ mask' k)
    → count mask n ≡ count mask' n
unfolding count
count-ext mask mask' zero h = refl
count-ext mask mask' (suc n) h =
    rw (h n (omega arith), count-ext mask mask' n (λ k lt. h k (omega arith)))

abbrev without : (ℕ → Bool) → ℕ → ℕ → Bool
without mask j k = if k == j then false else mask k

lt_ne : {i n : ℕ} → i < n → i ≢ n
lt_ne lt e = omega arith

-- To clear one set entry lowers the count by one.
count-without :
    (mask : ℕ → Bool) (n j : ℕ)
    → j < n
    → mask j ≡ true
    → count mask n ≡ count (without mask j) n + 1
unfolding count
count-without mask zero j lt h = elim lt [ ]
count-without mask (suc n) j lt h = elim (ℕ_discrete n j) [
  | yes e ↦ ground (arith, ap mask e, count-ext mask (without mask j) n (λ k lk. ground arith))
  | no ne ↦ ground (arith, count-without mask n j)
]

-- An injection from the set entries of `p` into those of `q` bounds the one count by the other.
pub count-le_of_injection :
    (p : ℕ → Bool) (n : ℕ) (q : ℕ → Bool) (m : ℕ) (f : ℕ → ℕ)
    → ((i : ℕ) → i < n → p i ≡ true → (f i < m) × (q (f i) ≡ true))
    → ((i j : ℕ) → i < n → j < n → p i ≡ true → p j ≡ true → f i ≡ f j → i ≡ j)
    → count p n ≤ count q m
unfolding count
count-le_of_injection p zero q m f into inj = omega arith
count-le_of_injection p (suc n) q m f into inj = elim (Bool-cases (p n)) [
  | inl set ↦
      let here = into n (omega arith) set in
      let rest : count p n ≤ count (without q (f n)) m =
        count-le_of_injection p n (without q (f n)) m f
          (λ i lt hi. (
            (into i (omega arith) hi).0,
            let ne : f i ≢ f n = λ e. lt_ne lt (inj i n (omega arith) (omega arith) hi set e) in
                ground (arith, (into i (omega arith) hi).1),
          ))
          (λ i j li lj. inj i j (omega arith) (omega arith)) in
      rw set (omega (arith, count-without q m (f n) here.0 here.1))
  | inr clear ↦ rw clear (
      omega (
        arith,
        count-le_of_injection p n q m f (λ i lt. into i (omega arith))
            (λ i j li lj. inj i j (omega arith) (omega arith)),
      ))
]

-- Entries that imply others are no more than those.
pub count-le_of_implies :
    (p q : ℕ → Bool) (n : ℕ) → ((i : ℕ) → i < n → p i ≡ true → q i ≡ true) → count p n ≤ count q n
count-le_of_implies p q n h =
    count-le_of_injection p n q n (λ i. i) (λ i lt hi. (lt, h i lt hi)) (λ i j _ _ _ _ e. e)

pub count-split :
    (p q : ℕ → Bool) (n : ℕ)
    → count (λ e. p e && q e) n + count (λ e. p e && not (q e)) n ≡ count p n
unfolding count
count-split p q zero = refl
count-split p q (suc n) = ground (arith, count-split p q n)

-- One more index filled sets one more entry at most.
pub count-update-le : (mask : ℕ → Bool) (i n : ℕ) → count (update mask i true) n ≤ count mask n + 1
unfolding update
count-update-le mask i n = elim (dec_lt i n) [
  | yes lt ↦ omega (
    arith,
    count-without (update mask i true) n i lt (ground arith),
    count-le_of_implies (without (update mask i true) i) mask n (λ k lk hk. ground arith),
  )
  | no ge ↦ omega (arith, count-le_of_implies (update mask i true) mask n (λ k lk hk. ground arith))
]

count-false : (n : ℕ) → count (λ _. false) n ≡ 0
unfolding count
count-false zero = refl
count-false (suc n) = omega (arith, count-false n)

-- A mask filled at the indices of a list sets no more entries than the list is long.
pub count-index_fill-le :
    (is : List ℕ) (n : ℕ) → count (index_fill is true (λ _. false)) n ≤ length is
unfolding index_fill
count-index_fill-le [] n = omega (arith, count-false n)
count-index_fill-le (i ∷ is) n =
    omega (arith, count-update-le (index_fill is true (λ _. false)) i n, count-index_fill-le is n)

-- The indices from `r` on.
pub count-from : (r n : ℕ) → count (leb r) n ≡ n - r
unfolding count
count-from r zero = omega arith
count-from r (suc n) = ground (arith, count-from r n)

-- Every rank below the number of set entries is the rank of one.
pub count-onto :
    (mask : ℕ → Bool) (n r : ℕ)
    → r < count mask n
    → (e : ℕ) × (e < n) × (mask e ≡ true) × (count mask (suc e) ≡ suc r)
unfolding count
count-onto mask zero r lt = elim lt [ ]
count-onto mask (suc n) r lt = elim (dec_lt r (count mask n)) [
  | yes below ↦ let (e, le, he, q) = count-onto mask n r below in (e, omega arith, he, q)
  | no last ↦ (n, omega arith, ground arith, ground arith)
]

-- To look for a set entry.
pub find_set :
    (mask : ℕ → Bool) (n : ℕ)
    → ((i : ℕ) × (i < n) × (mask i ≡ true)) ⊎ ((i : ℕ) → i < n → mask i ≡ false)
find_set mask zero = inr (λ i lt. elim lt [ ])
find_set mask (suc n) = elim (find_set mask n) [
  | inl (i, lt, h) ↦ inl (i, omega arith, h)
  | inr none_below ↦ elim (Bool-cases (mask n)) [
    | inl h ↦ inl (n, omega arith, h)
    | inr h ↦
        inr (λ i lt. elim (ℕ_discrete i n) [ yes e ↦ rw e h | no ne ↦ none_below i (omega arith) ])
  ]
]

-- Entries that are clear from `m` on add nothing.
pub count-beyond :
    (mask : ℕ → Bool) (m d : ℕ)
    → ((i : ℕ) → m ≤ i → mask i ≡ false)
    → count mask (d + m) ≡ count mask m
unfolding count
count-beyond mask m zero off = rw zero-add
count-beyond mask m (suc d) off =
    rw (suc-add, count) (rw (off (d + m) (omega arith)) (omega (arith, count-beyond mask m d off)))

-- Two masks that are never both set have at most `n` entries together.
pub count-disjoint :
    (p q : ℕ → Bool) (n : ℕ) → ((i : ℕ) → p i ≡ true → q i ≡ false) → count p n + count q n ≤ n
unfolding count
count-disjoint p q zero apart = omega arith
count-disjoint p q (suc n) apart = ground (arith, apart n, count-disjoint p q n apart)
