-- ===== src/Tensor/InsertionSort.antt =====
-- A stable sort that meets the interface of Tensor/Argsort: insertion of the indices one by one.
use vllm_expert_pager.Base.{
  ℕ, zero, suc, ◌<◌, ◌≡◌, refl, inl, inr, List, [], ◌∷◌, arith, length, get_or, All, ltb,
  if◌then◌else◌, Bool-cases, ℕ_discrete,
}
use vllm_expert_pager.Tensor.Argsort.{Argsort, Before}

module _ (key : ℕ → ℕ) where
  unfoldable pub insert : ℕ → List ℕ → List ℕ
  insert s [] = s ∷ []
  insert s (x ∷ xs) = if ltb (key s) (key x) then s ∷ x ∷ xs else x ∷ insert s xs

  unfoldable pub sorted : ℕ → List ℕ
  unfolding insert
  sorted zero = []
  sorted (suc n) = insert n (sorted n)

  abbrev Ordered : List ℕ → Type 0
  Ordered [] = Unit {0}
  Ordered (x ∷ xs) = All (Before key x) xs × Ordered xs

  abbrev Has : List ℕ → ℕ → Type 0
  Has l s = (i : ℕ) × (i < length l) × (get_or l i 0 ≡ s)

  Before-trans : (a b d : ℕ) → Before key a b → Before key b d → Before key a d
  Before-trans a b d p q = ground arith

  All-Before : (a b : ℕ) (l : List ℕ) → Before key a b → All (Before key b) l → All (Before key a) l
  All-Before a b [] p h = tt
  All-Before a b (x ∷ xs) p h = (Before-trans a b x p h.0, All-Before a b xs p h.1)

  insert-All : (P : ℕ → Type 0) (s : ℕ) (l : List ℕ) → P s → All P l → All P (insert s l)
  unfolding insert
  insert-All P s [] p h = (p, tt)
  insert-All P s (x ∷ xs) p h = elim (Bool-cases (ltb (key s) (key x))) [
    | inl e ↦ rw e (p, h)
    | inr e ↦ rw e (h.0, insert-All P s xs p h.1)
  ]

  insert-Ordered : (s : ℕ) (l : List ℕ) → All (λ x. x < s) l → Ordered l → Ordered (insert s l)
  unfolding insert
  insert-Ordered s [] lt h = (tt, tt)
  insert-Ordered s (x ∷ xs) lt h = elim (Bool-cases (ltb (key s) (key x))) [
    | inl e ↦ let p : Before key s x = inl (ground arith) in rw e ((p, All-Before s x xs p h.0), h)
    | inr e ↦
        let p : Before key x s = ground (arith, lt.0) in
        rw e (insert-All (Before key x) s xs p h.0, insert-Ordered s xs lt.1 h.1)
  ]

  insert-length : (s : ℕ) (l : List ℕ) → length (insert s l) ≡ suc (length l)
  unfolding insert
  insert-length s [] = refl
  insert-length s (x ∷ xs) = ground (arith, insert-length s xs)

  insert-Has_self : (s : ℕ) (l : List ℕ) → Has (insert s l) s
  unfolding insert
  insert-Has_self s [] = (0, omega arith, refl)
  insert-Has_self s (x ∷ xs) = elim (Bool-cases (ltb (key s) (key x))) [
    | inl e ↦ rw e (0, omega arith, refl)
    | inr e ↦ let (i, li, q) = insert-Has_self s xs in rw e (suc i, omega arith, q)
  ]

  insert-Has : (s : ℕ) (l : List ℕ) (v : ℕ) → Has l v → Has (insert s l) v
  unfolding insert
  insert-Has s [] v (i, li, q) = absurd (omega arith)
  insert-Has s (x ∷ xs) v (zero, li, q) = elim (Bool-cases (ltb (key s) (key x))) [
    | inl e ↦ rw e (1, omega arith, q)
    | inr e ↦ rw e (0, omega arith, q)
  ]
  insert-Has s (x ∷ xs) v (suc i, li, q) = elim (Bool-cases (ltb (key s) (key x))) [
    | inl e ↦ rw e (suc (suc i), omega arith, q)
    | inr e ↦ let (j, lj, r) = insert-Has s xs v (i, omega arith, q) in rw e (suc j, omega arith, r)
  ]

  All-lt_mono : (n : ℕ) (l : List ℕ) → All (λ x. x < n) l → All (λ x. x < suc n) l
  All-lt_mono n [] h = tt
  All-lt_mono n (x ∷ xs) h = (omega arith, All-lt_mono n xs h.1)

  sorted-below : (n : ℕ) → All (λ x. x < n) (sorted n)
  unfolding sorted
  sorted-below zero = tt
  sorted-below (suc n) =
      insert-All (λ x. x < suc n) n (sorted n) (omega arith)
        (All-lt_mono n (sorted n) (sorted-below n))

  sorted-Ordered : (n : ℕ) → Ordered (sorted n)
  unfolding sorted
  sorted-Ordered zero = tt
  sorted-Ordered (suc n) = insert-Ordered n (sorted n) (sorted-below n) (sorted-Ordered n)

  sorted-length : (n : ℕ) → length (sorted n) ≡ n
  unfolding sorted
  sorted-length zero = refl
  sorted-length (suc n) = omega (arith, insert-length n (sorted n), sorted-length n)

  sorted-Has : (n s : ℕ) → s < n → Has (sorted n) s
  unfolding sorted
  sorted-Has zero s lt = elim lt [ ]
  sorted-Has (suc n) s lt = elim (ℕ_discrete s n) [
    | yes e ↦ rw e (insert-Has_self n (sorted n))
    | no ne ↦ insert-Has n (sorted n) s (sorted-Has n s (omega arith))
  ]

  get-All : (P : ℕ → Type 0) (l : List ℕ) (i : ℕ) → i < length l → All P l → P (get_or l i 0)
  get-All P [] i lt h = elim lt [ ]
  get-All P (x ∷ xs) zero lt h = h.0
  get-All P (x ∷ xs) (suc i) lt h = get-All P xs i (omega arith) h.1

  get-Before :
      (l : List ℕ) (i j : ℕ)
      → i < j
      → j < length l
      → Ordered l
      → Before key (get_or l i 0) (get_or l j 0)
  get-Before [] i j lt lj h = elim lj [ ]
  get-Before (x ∷ xs) zero zero lt lj h = absurd (omega arith)
  get-Before (x ∷ xs) zero (suc j) lt lj h = get-All (Before key x) xs j (omega arith) h.0
  get-Before (x ∷ xs) (suc i) zero lt lj h = absurd (omega arith)
  get-Before (x ∷ xs) (suc i) (suc j) lt lj h = get-Before xs i j (omega arith) (omega arith) h.1

unfoldable pub insertion_order : ℕ → (ℕ → ℕ) → ℕ → ℕ
unfolding sorted
insertion_order n key i = get_or (sorted key n) i 0

pub insertion_bounded : (n : ℕ) (key : ℕ → ℕ) (i : ℕ) → i < n → insertion_order n key i < n
unfolding insertion_order
insertion_bounded n key i lt =
    get-All key (λ x. x < n) (sorted key n) i (omega (arith, sorted-length key n))
      (sorted-below key n)

pub insertion_onto :
    (n : ℕ) (key : ℕ → ℕ) (s : ℕ) → s < n → (i : ℕ) × (i < n) × (insertion_order n key i ≡ s)
unfolding insertion_order
insertion_onto n key s lt =
    let (i, li, q) = sorted-Has key n s lt in (i, omega (arith, sorted-length key n), q)

pub insertion_ascending :
    (n : ℕ) (key : ℕ → ℕ) (i j : ℕ)
    → i < j
    → j < n
    → Before key (insertion_order n key i) (insertion_order n key j)
unfolding insertion_order
insertion_ascending n key i j lt lj =
    get-Before key (sorted key n) i j lt (omega (arith, sorted-length key n)) (sorted-Ordered key n)

abbrev pub insertion_sort : Argsort
insertion_sort = record {
  order = insertion_order;
  bounded = insertion_bounded;
  onto = insertion_onto;
  ascending = insertion_ascending;
}
