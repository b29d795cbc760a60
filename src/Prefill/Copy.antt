-- ===== src/Prefill/Copy.antt =====
-- What `copy` leaves on the working slab, when each entry of its list goes to the row of its place.
use vllm_expert_pager.Base.{
  ℕ, zero, suc, ◌≤◌, ◌<◌, ◌≡◌, refl, ap, sym, ◌∙◌, ◌⊎◌, inl, inr, true, Option, none, some, arith,
  ℕ_discrete, same, same-some, same_self, Bool-cases, Option-cases,
}
use vllm_expert_pager.Tensor.Put.{update}
use vllm_expert_pager.Prefill.{Program, source, copy_entry, copy, mentions}

pub mentions-entry :
    (n : ℕ) (l : ℕ → Option ℕ) (e : ℕ) → mentions n l e ≡ true → (j : ℕ) × (j < n) × (l j ≡ some e)
unfolding mentions
mentions-entry zero l e h = absurd (ground arith)
mentions-entry (suc n) l e h = elim (Bool-cases (mentions n l e)) [
  | inl m ↦ let (j, lt, q) = mentions-entry n l e m in (j, omega arith, q)
  | inr m ↦ (n, omega arith, same-some (l n) e (ground arith))
]

pub entry-mentions :
    (n : ℕ) (l : ℕ → Option ℕ) (e j : ℕ) → j < n → l j ≡ some e → mentions n l e ≡ true
unfolding mentions
entry-mentions zero l e j lt q = elim lt [ ]
entry-mentions (suc n) l e j lt q = elim (ℕ_discrete j n) [
  | yes last ↦ ground (arith, ap (λ x. same x (some e)) (ap l (sym last) ∙ q), same_self (some e))
  | no ne ↦ ground (arith, entry-mentions n l e j (omega arith) q)
]

module _ (p : Program) (rows : ℕ → Option ℕ) (part : ℕ → Option ℕ) (size : ℕ)
    (placed : (j e : ℕ) → j < size → part j ≡ some e → p.plan.dst_row e ≡ j) where
  -- A row whose place in the list is empty, or lies beyond it, keeps its content.
  pub copy-left :
      (n : ℕ) (working : ℕ → Option ℕ) (j : ℕ)
      → n ≤ size
      → (part j ≡ none) ⊎ (n ≤ j)
      → copy p rows n part working j ≡ working j
  unfolding copy copy_entry update
  copy-left zero working j le h = refl
  copy-left (suc n) working j le h = elim (Option-cases (part n)) [
    | inl q ↦ ground (arith, copy-left n working j)
    | inr (e, q) ↦ ground (arith, copy-left n working j, placed n e (omega arith) q)
  ]

  -- A row whose place in the list names an expert holds what `copy` finds for it.
  pub copy-entry :
      (n : ℕ) (working : ℕ → Option ℕ) (j e : ℕ)
      → n ≤ size
      → j < n
      → part j ≡ some e
      → copy p rows n part working j ≡ source p rows e
  unfolding copy copy_entry update
  copy-entry zero working j e le lt h = elim lt [ ]
  copy-entry (suc n) working j e le lt h = elim (ℕ_discrete j n) [
    | yes last ↦
        let q : part n ≡ some e = ap part (sym last) ∙ h in
        ground (arith, placed n e (omega arith) q)
    | no ne ↦ elim (Option-cases (part n)) [
      | inl q ↦ ground (arith, copy-entry n working j e)
      | inr (f, q) ↦ ground (arith, copy-entry n working j e, placed n f (omega arith) q)
    ]
  ]
