-- ===== src/Seed/InsertionTopk.antt =====
-- A selection that meets the interface of Seed/Ranking: insertion sort by descending count.

use vllm_expert_pager.Base.{
  ℕ, zero, suc, ◌+◌, ◌-◌, ◌≤◌, ◌<◌, ◌≡◌, ap, ◌≢◌, inl, inr, arith, ℕ_discrete, dec_lt, sym,
}
use vllm_expert_pager.Tensor.Argsort.{Before}
use vllm_expert_pager.Tensor.InsertionSort.{
  insertion_order, insertion_bounded, insertion_onto, insertion_ascending,
}
use vllm_expert_pager.Seed.Ranking.{TopK}

unfoldable pub ceiling : ℕ → (ℕ → ℕ) → ℕ
ceiling zero counts = 0
ceiling (suc n) counts = ceiling n counts + counts n

ceiling-le : (n : ℕ) (counts : ℕ → ℕ) (s : ℕ) → s < n → counts s ≤ ceiling n counts
unfolding ceiling
ceiling-le zero counts s lt = elim lt [ ]
ceiling-le (suc n) counts s lt = elim (ℕ_discrete s n) [
  | yes e ↦ ground (arith, ap counts e)
  | no ne ↦ omega (arith, ceiling-le n counts s (omega arith))
]

unfoldable pub descending_key : ℕ → (ℕ → ℕ) → ℕ → ℕ
unfolding ceiling
descending_key n counts s = ceiling n counts - counts s

unfoldable pub insertion_largest : ℕ → (ℕ → ℕ) → ℕ → ℕ → ℕ
unfolding descending_key
insertion_largest n counts k j = insertion_order n (descending_key n counts) j

key-order :
    (n : ℕ) (counts : ℕ → ℕ) (a b : ℕ)
    → a < n
    → b < n
    → Before (descending_key n counts) a b
    → counts b ≤ counts a
unfolding descending_key
key-order n counts a b la lb h = ground (arith, ceiling-le n counts a la, ceiling-le n counts b lb)

Before-apart : (key : ℕ → ℕ) (a b : ℕ) → Before key a b → a ≢ b
Before-apart key a b (inl lt) q = omega (arith, ap key q)
Before-apart key a b (inr (_, lt)) q = omega arith

pub largest-bounded :
    (n : ℕ) (counts : ℕ → ℕ) (k j : ℕ) → k ≤ n → j < k → insertion_largest n counts k j < n
unfolding insertion_largest
largest-bounded n counts k j le lt = insertion_bounded n (descending_key n counts) j (omega arith)

pub largest-distinct :
    (n : ℕ) (counts : ℕ → ℕ) (k i j : ℕ)
    → k ≤ n
    → i < k
    → j < k
    → insertion_largest n counts k i ≡ insertion_largest n counts k j
    → i ≡ j
unfolding insertion_largest
largest-distinct n counts k i j le li lj q = elim (dec_lt i j) [
  | yes lt ↦ absurd (
      Before-apart (descending_key n counts) _ _
        (insertion_ascending n (descending_key n counts) i j lt (omega arith)) q)
  | no ge ↦ elim (dec_lt j i) [
    | yes gt ↦ absurd (
        Before-apart (descending_key n counts) _ _
          (insertion_ascending n (descending_key n counts) j i gt (omega arith)) (sym q))
    | no le' ↦ omega arith
  ]
]

pub largest-descending :
    (n : ℕ) (counts : ℕ → ℕ) (k i j : ℕ)
    → k ≤ n
    → i < j
    → j < k
    → counts (insertion_largest n counts k j) ≤ counts (insertion_largest n counts k i)
unfolding insertion_largest
largest-descending n counts k i j le lt lj =
    key-order n counts _ _ (insertion_bounded n (descending_key n counts) i (omega arith))
      (insertion_bounded n (descending_key n counts) j (omega arith))
      (insertion_ascending n (descending_key n counts) i j lt (omega arith))

pub largest-greatest :
    (n : ℕ) (counts : ℕ → ℕ) (k s j : ℕ)
    → k ≤ n
    → s < n
    → ((i : ℕ) → i < k → insertion_largest n counts k i ≢ s)
    → j < k
    → counts s ≤ counts (insertion_largest n counts k j)
unfolding insertion_largest
largest-greatest n counts k s j le ls out lj =
    let (i, li, q) = insertion_onto n (descending_key n counts) s ls in
    elim (dec_lt i k) [
      | yes lt ↦ absurd (out i lt q)
      | no ge ↦
          let order =
            key-order n counts _ _ (insertion_bounded n (descending_key n counts) j (omega arith))
              (insertion_bounded n (descending_key n counts) i li)
              (insertion_ascending n (descending_key n counts) j i (omega arith) li) in
          omega (arith, ap counts q)
    ]

abbrev pub insertion_topk : TopK
insertion_topk = record {
  largest = insertion_largest;
  bounded = largest-bounded;
  distinct = largest-distinct;
  descending = largest-descending;
  greatest = largest-greatest;
}
