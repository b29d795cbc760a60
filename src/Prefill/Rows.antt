-- ===== src/Prefill/Rows.antt =====
-- The RAM-tier row of each planned expert (`src_row`).
use vllm_expert_pager.Base.{
  ℕ, ◌+◌, ◌*◌, ◌/◌, ◌%◌, ◌≤◌, ◌<◌, ◌≡◌, ap, ◌∙◌, ◌⊎◌, inl, inr, Bool, true, false, Option, none,
  some, arith, dec_lt, Option-cases,
}
use vllm_expert_pager.Table.{ExpertTable}
use vllm_expert_pager.Table.Invariant.{Consistent, slot_of_injective}
use vllm_expert_pager.Plan.{old_ok, ssd, first, pos, dst_row, shared, src_row}

-- A prefill step: the RAM tier's table after its update (`t`), its slots before, and the memory at the
-- start.
pub record Setting (t : ExpertTable) (before : ℕ → Option ℕ) (w ram_base working_base : ℕ)
    (cached_row slab rows : ℕ → Option ℕ) : Type 0 where
  pub valid : Consistent t
  pub some_rows : 0 < w
  -- the shared working rows lie behind the layer's RAM-tier rows
  pub above : ram_base + t.num_slots ≤ working_base
  -- the rows that the table named before the update hold their experts
  pub truthful : (e s : ℕ) → e < t.num_experts → before e ≡ some s → rows (s + ram_base) ≡ some e
  -- so do the rows that the VRAM tier's table names
  pub cached : (e c : ℕ) → e < t.num_experts → cached_row e ≡ some c → slab c ≡ some e

step_up : (a c w : ℕ) → a < c → a * w + w ≤ c * w
step_up a c w lt = grind arith

digits : (a b c d w : ℕ) → b < w → d < w → a * w + b ≡ c * w + d → (a ≡ c) × (b ≡ d)
digits a b c d w lb ld h =
    let high : a ≡ c = same_digit in (high, omega (arith, ap (λ (x : ℕ). x * w) high))
  where
    same_digit : a ≡ c
    same_digit = elim (dec_lt a c) [
      | yes lt ↦ absurd (omega (arith, step_up a c w lt))
      | no ge ↦ elim (dec_lt c a) [
        | yes gt ↦ absurd (omega (arith, step_up c a w gt))
        | no le ↦ omega arith
      ]
    ]

module _ (t : ExpertTable) (before : ℕ → Option ℕ) (need : ℕ → Bool)
    (w ram_base working_base : ℕ) where
  abbrev row_of : ℕ → ℕ
  row_of = src_row t before need w ram_base working_base

  ssd-not_old : (e : ℕ) → ssd t before need w e ≡ true → old_ok t before need w e ≡ false
  unfolding ssd
  ssd-not_old e s = ground arith

  -- A read lands in the expert's table slot, if it has one, and in a shared row otherwise.
  pub ssd-row_slot :
      (e s : ℕ) → ssd t before need w e ≡ true → t.slot_of e ≡ some s → row_of e ≡ s + ram_base
  unfolding src_row
  ssd-row_slot e s h q = rw (ssd-not_old e h, q)

  pub ssd-row_shared :
      (e p : ℕ)
      → ssd t before need w e ≡ true
      → t.slot_of e ≡ none
      → pos t before need w e ≡ some p
      → row_of e ≡ working_base + p / w % 2 * w + p % w
  unfolding src_row shared dst_row
  ssd-row_shared e p h q at_p = rw (ssd-not_old e h, q, at_p)

  -- An expert that needs no read is copied from its old slot.
  pub first-row :
      (e : ℕ)
      → first t before need w e ≡ true
      → (s : ℕ) × (before e ≡ some s)
        × (row_of e ≡ s + ram_base)
        × ((t.slot_of e ≡ none) ⊎ (t.slot_of e ≡ some s))
  unfolding src_row old_ok first ssd
  first-row e f = elim (Option-cases (before e)) [
    | inl q ↦ absurd (ground arith)
    | inr (s, q) ↦ elim (Option-cases (t.slot_of e)) [
      | inl out ↦ (s, q, ground arith, inl out)
      | inr (r, kept) ↦
          let stays : r ≡ s = ground arith in (s, q, ground arith, inr (kept ∙ ap some stays))
    ]
  ]

  module _ (valid : Consistent t) (some_rows : 0 < w)
      (above : ram_base + t.num_slots ≤ working_base) where
    -- Two reads have one row only if they are one, or lie a whole turn of the two faces apart.
    pub ssd-row_injective :
        (e f p q : ℕ)
        → e < t.num_experts
        → f < t.num_experts
        → ssd t before need w e ≡ true
        → ssd t before need w f ≡ true
        → pos t before need w e ≡ some p
        → pos t before need w f ≡ some q
        → row_of e ≡ row_of f
        → (e ≡ f)
          ⊎ ((t.slot_of e ≡ none)
              × (t.slot_of f ≡ none)
              × (p / w % 2 ≡ q / w % 2)
              × (p % w ≡ q % w))
    ssd-row_injective e f p q le lf he hf at_p at_q same_row = elim (Option-cases (t.slot_of e)) [
      | inr (s, qe) ↦ elim (Option-cases (t.slot_of f)) [
        | inr (r, qf) ↦
            let slots : r ≡ s = omega (arith, ssd-row_slot e s he qe, ssd-row_slot f r hf qf) in
            inl (slot_of_injective valid e f s le lf qe (qf ∙ ap some slots))
        | inl qf ↦ absurd (
            omega (
              arith,
              ssd-row_slot e s he qe,
              ssd-row_shared f q hf qf at_q,
              (valid.forward e s le qe).0,
            ))
      ]
      | inl qe ↦ elim (Option-cases (t.slot_of f)) [
        | inr (r, qf) ↦ absurd (
            omega (
              arith,
              ssd-row_slot f r hf qf,
              ssd-row_shared e p he qe at_p,
              (valid.forward f r lf qf).0,
            ))
        | inl qf ↦
            let parts =
              digits (p / w % 2) (p % w) (q / w % 2) (q % w) w (grind arith) (grind arith)
                (omega (arith, ssd-row_shared e p he qe at_p, ssd-row_shared f q hf qf at_q)) in
            inr (qe, qf, parts.0, parts.1)
      ]
    ]
