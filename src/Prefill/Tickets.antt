-- ===== src/Prefill/Tickets.antt =====
-- The two tickets of a prefill, `tickets` of `_expert_pager_forward_working` in
-- src/vllm_expert_pager/experts.py: which publish the wait of a chunk is for.
use vllm_expert_pager.Base.{
  ℕ, zero, suc, ◌+◌, ◌%◌, ◌≤◌, ◌<◌, ◌≡◌, ◌≢◌, sym, ap, ◌∙◌, inl, inr, true, false, Option, some,
  arith, Bool-cases, ltb, subst, ℕ_discrete,
}
use vllm_expert_pager.Tensor.Put.{update}
use vllm_expert_pager.Fetch.{any_expert}
use vllm_expert_pager.Prefill.{
  Pc, waiting, State, Program, Step, land, publish_first, copy_todo, publish_next, wait, copy_late,
  run, slice, issue,
}
use vllm_expert_pager.Prefill.Invariant.{published, waited}

any_expert-some :
    (n : ℕ) (l : ℕ → Option ℕ) (j e : ℕ) → j < n → l j ≡ some e → any_expert n l ≡ true
unfolding any_expert
any_expert-some zero l j e lt h = absurd (omega arith)
any_expert-some (suc n) l j e lt h = elim (ℕ_discrete j n) [
  | yes q ↦ ground (arith, ap l q)
  | no ne ↦ ground (arith, any_expert-some n l j e (omega arith) h)
]

module _ (p : Program) where
  -- The cell of each chunk from `low` below `high` that has reads has the ticket of that chunk.
  abbrev Live : ℕ → ℕ → (ℕ → ℕ) → Type 0
  Live low high tickets =
      (j : ℕ)
      → low ≤ j
      → j < high
      → j < p.n
      → any_expert p.w (slice p.w p.plan.ssd j) ≡ true
      → tickets (j % 2) ≡ j

  abbrev LiveAt : (ℕ → ℕ) → Pc → Type 0
  LiveAt tickets pc = Live (waited p.n pc) (published p.n pc) tickets

  abbrev pub Ticketed : State → Type 0
  Ticketed s = LiveAt s.tickets s.pc

  issue-Live :
      (k low : ℕ) (tickets : ℕ → ℕ)
      → k ≤ low + 1
      → Live low k tickets
      → Live low (k + 1) (issue p k tickets)
  unfolding issue update
  issue-Live k low tickets near live j above below lj reads = elim (ℕ_discrete j k) [
    | yes q ↦
        let mine : any_expert p.w (slice p.w p.plan.ssd k) ≡ true =
          subst (λ i. any_expert p.w (slice p.w p.plan.ssd i) ≡ true) q reads in
        let cell : j % 2 ≡ k % 2 = ap (λ i. i % 2) q in rw (mine, cell) (ground arith)
    | no ne ↦
        let old = live j above (omega arith) lj reads in
        let apart : k % 2 ≢ j % 2 = λ h. omega (arith, h) in
        elim (Bool-cases (any_expert p.w (slice p.w p.plan.ssd k))) [
          | inl mine ↦ rw mine (ground arith)
          | inr empty ↦ rw empty old
        ]
  ]

  pub Step-Ticketed : (s u : State) → Ticketed s → Step p s u → Ticketed u
  Step-Ticketed s u live (land e under q) = subst Ticketed (sym q) live
  Step-Ticketed s u live (publish_first at q) =
      subst Ticketed (sym q)
        (issue-Live 0 0 s.tickets (omega arith) (λ j above below. absurd (omega arith)))
  Step-Ticketed s u live (copy_todo k at q) =
      subst Ticketed (sym q) (subst (LiveAt s.tickets) at live)
  Step-Ticketed s u live (publish_next k at q) =
      let now = subst (LiveAt s.tickets) at live in
      subst Ticketed (sym q) (elim (Bool-cases (ltb (k + 1) p.n)) [
        | inl more ↦ rw more (λ j above below.
            issue-Live (k + 1) k s.tickets (omega arith) now j above (omega arith))
        | inr last ↦ rw last (λ j above below lj. now j above (ground arith) lj)
      ])
  Step-Ticketed s u live (wait k at served q) =
      let now = subst (LiveAt s.tickets) at live in
      subst Ticketed (sym q) (λ j above. now j (omega arith))
  Step-Ticketed s u live (copy_late k at q) =
      subst Ticketed (sym q) (subst (LiveAt s.tickets) at live)
  Step-Ticketed s u live (run k at q) =
      let now = subst (LiveAt s.tickets) at live in
      subst Ticketed (sym q) (elim (Bool-cases (ltb (k + 1) p.n)) [
        | inl more ↦ rw more (λ j above below. now j (omega arith) (omega arith))
        | inr last ↦ rw last (λ j above below lj. absurd (omega arith))
      ])

  pub ticket-own :
      (s : State) (k : ℕ)
      → Ticketed s
      → s.pc ≡ waiting k
      → k < p.n
      → (j e : ℕ) → j < p.w
      → slice p.w p.plan.ssd k j ≡ some e
      → s.tickets (k % 2) ≡ k
  ticket-own s k live at lk j e lj here =
      subst (LiveAt s.tickets) at live k (omega arith) (omega arith) lk
        (any_expert-some p.w (slice p.w p.plan.ssd k) j e lj here)

  -- A wait is for the reads of its own chunk.
  pub wait-own :
      (s : State) (k : ℕ)
      → Ticketed s
      → s.pc ≡ waiting k
      → k < p.n
      → (any_expert p.w (slice p.w p.plan.ssd k) ≡ true
          → (j e : ℕ) → j < p.w
          → slice p.w p.plan.ssd (s.tickets (k % 2)) j ≡ some e
          → s.pending e ≡ false)
      → (j e : ℕ) → j < p.w
      → slice p.w p.plan.ssd k j ≡ some e
      → s.pending e ≡ false
  wait-own s k live at lk served j e lj here =
      let reads = any_expert-some p.w (slice p.w p.plan.ssd k) j e lj here in
      let mine = ticket-own s k live at lk j e lj here in
      served reads j e lj (ap (λ i. slice p.w p.plan.ssd i j) mine ∙ here)
