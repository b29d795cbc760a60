-- ===== src/Kernel/Positions.antt =====
-- Two ascending enumerations compared position by position. The second may go on with padding lanes,
-- whose keys are larger than all others.
use vllm_expert_pager.Base.{
  ℕ, zero, suc, ◌≤◌, ◌<◌, ◌≡◌, sym, ap, ◌∙◌, arith, ℕ_discrete, dec_lt, subst,
}
use vllm_expert_pager.Tensor.Argsort.{Before}

-- `order` enumerates the indices below `n` by ascending key.
pub record Enumerates (n : ℕ) (key order : ℕ → ℕ) : Type 0 where
  pub bounded : (i : ℕ) → i < n → order i < n
  pub onto : (s : ℕ) → s < n → (i : ℕ) × (i < n) × (order i ≡ s)
  pub ascending : (i j : ℕ) → i < j → j < n → Before key (order i) (order j)

order-apart :
    {n : ℕ} (key order : ℕ → ℕ)
    → Enumerates n key order
    → (i j : ℕ) → i < j
    → j < n
    → order i ≡ order j
    → ⊥
order-apart key order e i j lt lj q =
    let before : Before key (order i) (order j) = e.ascending i j lt lj in
    let same : key (order i) ≡ key (order j) = ap key q in ground arith

module _ (m n : ℕ) (le : m ≤ n) (k l p q : ℕ → ℕ) (ep : Enumerates m k p) (eq : Enumerates n l q)
    (agree : (s : ℕ) → s < m → l s ≡ k s)
    (padding : (s x : ℕ) → m ≤ s → s < n → x < m → k x < l s) where
  asym : (a b : ℕ) → a < m → b < m → Before k a b → Before l b a → ⊥
  asym a b la lb x y = ground (arith, agree a la, agree b lb)

  next : (i : ℕ) → i < m → ((j : ℕ) → j < i → p j ≡ q j) → p i ≡ q i
  next i li before =
      let (a, la, at_a) = eq.onto (p i) (omega (arith, ep.bounded i li)) in
      elim (ℕ_discrete a i) [
        | yes e ↦ sym at_a ∙ ap q e
        | no ne ↦ elim (dec_lt a i) [
          | yes lt ↦ absurd (order-apart k p ep a i lt li (before a lt ∙ at_a))
          | no ge ↦
              let behind : Before l (q i) (p i) =
                subst (Before l (q i)) at_a (eq.ascending i a (omega arith) la) in
              elim (dec_lt (q i) m) [
                | no pad ↦ absurd (
                    ground (
                      arith,
                      agree (p i) (ep.bounded i li),
                      padding (q i) (p i) (omega arith) (eq.bounded i (omega arith))
                          (ep.bounded i li),
                      ep.bounded i li,
                    ))
                | yes inside ↦
                    let (b, lb, at_b) = ep.onto (q i) inside in
                    elim (ℕ_discrete b i) [
                      | yes e ↦ ap p (sym e) ∙ at_b
                      | no nb ↦ elim (dec_lt b i) [
                        | yes lt ↦
                            absurd
                              (order-apart l q eq b i lt (omega arith) (sym (before b lt) ∙ at_b))
                        | no gb ↦ absurd (
                            asym (p i) (q i) (ep.bounded i li) inside
                              (subst (Before k (p i)) at_b (ep.ascending i b (omega arith) lb))
                              behind)
                      ]
                    ]
              ]
        ]
      ]

  agree_below : (c i : ℕ) → i < c → i < m → p i ≡ q i
  agree_below zero i lt li = elim lt [ ]
  agree_below (suc c) i lt li = next i li (λ j lj. agree_below c j (omega arith) (omega arith))

  -- The first `m` positions hold the same indices.
  pub orders_agree : (i : ℕ) → i < m → p i ≡ q i
  orders_agree i li = agree_below m i li li
