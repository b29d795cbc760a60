-- ===== src/Codec/Huffman/Weights.antt =====
-- Sums over the entries of a heap.
use mathlib.Core.List.{Perm, foldr}
use mathlib.Core.List.Perm
use native.Mathlib.Nat.{ℕ_set}
use vllm_expert_pager.Base.{
  ℕ, ◌+◌, ◌≡◌, refl, sym, ◌∙◌, List, [], ◌∷◌, ◌++◌, length, arith, ◌==◌, if◌then◌else◌,
}

-- The sum of `f` over a list.
abbrev pub total {ℓ} : {A : Type ℓ} → (A → ℕ) → List A → ℕ
total f [] = 0
total f (x ∷ xs) = f x + total f xs

-- How often a symbol stands in a list.
abbrev pub times : ℕ → List ℕ → ℕ
times s = total (λ t. if t == s then 1 else 0)

pub times-append : (s : ℕ) (xs ys : List ℕ) → times s (xs ++ ys) ≡ times s xs + times s ys
times-append s [] ys = omega arith
times-append s (x ∷ xs) ys = omega (arith, times-append s xs ys)

total-foldr {ℓ} : {A : Type ℓ} (f : A → ℕ) (xs : List A) → total f xs ≡ foldr (λ x t. f x + t) 0 xs
total-foldr f [] = refl
total-foldr f (x ∷ xs) = omega (arith, total-foldr f xs)

pub total-Perm {ℓ} :
    {A : Type ℓ} (f : A → ℕ) (xs ys : List A) → Perm xs ys → total f xs ≡ total f ys
total-Perm f xs ys p =
    total-foldr f xs
    ∙ Perm.foldr-eq ℕ_set (λ x t. f x + t) (λ a b t. omega arith) p 0
    ∙ sym (total-foldr f ys)

pub length-total {ℓ} : {A : Type ℓ} (xs : List A) → length xs ≡ total (λ _. 1) xs
length-total [] = refl
length-total (x ∷ xs) = omega (arith, length-total xs)
