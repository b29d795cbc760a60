-- ===== src/Prefill/Copies.antt =====
-- The two copies of a chunk and the wait between them.
use vllm_expert_pager.Base.{
  ℕ, ◌+◌, ◌*◌, ◌/◌, ◌%◌, ◌<◌, ◌≡◌, refl, ap, sym, ◌∙◌, ◌⊎◌, inl, inr, Bool, true, false, Option,
  none, some, arith, ℕ_discrete, Bool-cases, Option-cases,
}
use vllm_expert_pager.Table.{ExpertTable}
use vllm_expert_pager.Plan.{
  ssd, first, pos, dst_row, src_row, listing, in_todo, in_late, plan_chunks,
}
use vllm_expert_pager.Plan.Layout.{needed_cases, first-lt, ssd-ge, boundary-aligned, pos-injective}
use vllm_expert_pager.Prefill.{
  copying, publishing, waiting, late, running, Program, source, copy, slice,
}
use vllm_expert_pager.Prefill.Copy.{copy-left, copy-entry}
use vllm_expert_pager.Prefill.Rows.{Setting, first-row}
use vllm_expert_pager.Prefill.Steps.{
  Run, Good, FilledAt, slice-entry, slice-place, entry-slice, move-Inv, slice_of,
}

module _ (t : ExpertTable) (before : ℕ → Option ℕ) (need : ℕ → Bool) (w ram_base working_base : ℕ)
    (cached_row slab rows : ℕ → Option ℕ)
    (st : Setting t before w ram_base working_base cached_row slab rows) where
  open st use {valid, some_rows, truthful, cached}

  abbrev R : Program
  R = Run t before need w ram_base working_base cached_row slab rows st

  abbrev todo_set : ℕ → Bool
  todo_set = in_todo t before need w ram_base working_base cached_row

  abbrev late_set : ℕ → Bool
  late_set = in_late t before need w ram_base working_base cached_row

  abbrev FirstOrSsd : ℕ → Type 0
  FirstOrSsd e = (first t before need w e ≡ true) ⊎ (ssd t before need w e ≡ true)

  todo-planned : (e : ℕ) → todo_set e ≡ true → FirstOrSsd e
  unfolding in_todo
  todo-planned e h = needed_cases t before need w some_rows e (ground arith)

  late-planned : (e : ℕ) → late_set e ≡ true → FirstOrSsd e
  unfolding in_late
  late-planned e h = needed_cases t before need w some_rows e (ground arith)

  late-parts :
      (e : ℕ)
      → late_set e ≡ true
      → (need e ≡ true)
        × (ssd t before need w e ≡ true)
        × (cached_row e ≡ none)
        × (todo_set e ≡ false)
  unfolding in_late in_todo
  late-parts e h = ground arith

  -- A needed expert is copied before the wait or after it.
  need_cases : (e : ℕ) → need e ≡ true → (todo_set e ≡ true) ⊎ (late_set e ≡ true)
  unfolding in_late in_todo
  need_cases e ne = ground arith

  -- An expert of `todo` that is not cached in VRAM needs no read.
  todo-first : (e : ℕ) → todo_set e ≡ true → cached_row e ≡ none → first t before need w e ≡ true
  unfolding in_todo first
  todo-first e h q = ground arith

  source-cached :
      (now : ℕ → Option ℕ) (e c : ℕ)
      → e < t.num_experts
      → cached_row e ≡ some c
      → source R now e ≡ some e
  unfolding source
  source-cached now e c le q = rw q (cached e c le q)

  source-row :
      (now : ℕ → Option ℕ) (e : ℕ)
      → cached_row e ≡ none
      → source R now e ≡ now (src_row t before need w ram_base working_base e)
  unfolding source plan_chunks
  source-row now e q = rw q

  dest-mod : (e q : ℕ) → pos t before need w e ≡ some q → dst_row t before need w e ≡ q % w
  unfolding dst_row
  dest-mod e q at_q = rw at_q

  module _ {now working : ℕ → Option ℕ} {pending : ℕ → Bool} (k : ℕ) where
    -- No read that could overwrite the old slots of chunk `k` is published before its copy.
    todo-untouched :
        (e q : ℕ)
        → e < t.num_experts
        → first t before need w e ≡ true
        → pos t before need w e ≡ some q
        → q / w ≡ k
        → Good t before need w ram_base working_base cached_row slab rows st now working pending
            (copying k)
        → now (src_row t before need w ram_base working_base e) ≡ some e
    todo-untouched e q le f at_q here inv =
        let (s, old, home_e, _) = first-row t before need w ram_base working_base e f in
        inv.untouched _ (λ x p (lx, sx, at_p) high clash. absurd (
          omega (
            arith,
            boundary-aligned t before need w some_rows q p
                (first-lt t before need w some_rows e q le f at_q)
                (ssd-ge t before need w some_rows x p sx at_p),
          )))
        ∙ ap rows home_e
        ∙ truthful e s le old

    pub copy_todo-Inv :
        Good t before need w ram_base working_base cached_row slab rows st now working pending
          (copying k)
        → Good t before need w ram_base working_base cached_row slab rows st now
            (copy R now w (slice w R.plan.todo k) working)
            pending
            (publishing k)
    unfolding plan_chunks
    copy_todo-Inv inv =
        move-Inv t before need w ram_base working_base cached_row slab rows st refl
          (λ e q _ _ low. low) inv.in_range fill inv
      where
        fill :
            FilledAt t before need w ram_base working_base cached_row slab rows st
              (copy R now w (slice w R.plan.todo k) working)
              (publishing k)
        fill e q le te at_q here = rw (dest-mod e q at_q) (
            copy-entry R now (slice w R.plan.todo k) w
              (λ j x lj h.
                slice-place t before need w ram_base working_base cached_row slab rows st todo_set
                  todo-planned k j x inv.in_range lj h)
              w working (q % w) e (omega arith) (grind arith)
              (entry-slice t before need w ram_base working_base cached_row slab rows st todo_set
                todo-planned k e q inv.in_range le te at_q here)
            ∙ elim (Option-cases (cached_row e)) [
              | inr (c, q') ↦ source-cached now e c le q'
              | inl q' ↦
                  source-row now e q' ∙ todo-untouched e q le (todo-first e te q') at_q here inv
            ])

    pub wait-Inv :
        ((j e : ℕ) → j < w → slice w R.plan.ssd k j ≡ some e → pending e ≡ false)
        → Good t before need w ram_base working_base cached_row slab rows st now working pending
            (waiting k)
        → Good t before need w ram_base working_base cached_row slab rows st now working pending
            (late k)
    unfolding plan_chunks
    wait-Inv served inv =
        move-Inv t before need w ram_base working_base cached_row slab rows st refl
          (λ e q under (le, se, at_q) low. elim (ℕ_discrete (q / w) k) [
            | no other ↦ omega arith
            | yes here ↦ absurd (
                ground (
                  arith,
                  served (q % w) e (grind arith) (
                      entry-slice t before need w ram_base working_base cached_row slab rows st
                        (ssd t before need w) (λ f s. inr s) k e q inv.in_range le se at_q here),
                ))
          ])
          inv.in_range inv.filled inv

    pub copy_late-Inv :
        Good t before need w ram_base working_base cached_row slab rows st now working pending
          (late k)
        → Good t before need w ram_base working_base cached_row slab rows st now
            (copy R now w (slice w R.plan.late k) working)
            pending
            (running k)
    unfolding plan_chunks
    copy_late-Inv inv =
        move-Inv t before need w ram_base working_base cached_row slab rows st refl
          (λ e q _ _ low. low) inv.in_range fill inv
      where
        part : ℕ → Option ℕ
        part = slice w (listing t before need w late_set) k

        placed : (j x : ℕ) → j < w → part j ≡ some x → dst_row t before need w x ≡ j
        placed j x lj h =
            slice-place t before need w ram_base working_base cached_row slab rows st late_set
              late-planned k j x inv.in_range lj h

        arrived :
            (e q : ℕ)
            → e < t.num_experts
            → ssd t before need w e ≡ true
            → pos t before need w e ≡ some q
            → q / w ≡ k
            → now (src_row t before need w ram_base working_base e) ≡ some e
        arrived e q le se at_q here = elim (Bool-cases (pending e)) [
          | inl under ↦
              let (q', (_, _, at_q'), low, _) = inv.under_way e under in absurd (ground arith)
          | inr done ↦ inv.landed e q (le, se, at_q) (omega arith) done (inr (omega arith))
        ]

        stays :
            (e q : ℕ)
            → e < t.num_experts
            → todo_set e ≡ true
            → pos t before need w e ≡ some q
            → q / w ≡ k
            → part (q % w) ≡ none
        stays e q le te at_q here = elim (Option-cases (part (q % w))) [
          | inl q' ↦ q'
          | inr (f, q') ↦
              let (lf, mf, at_f) =
                slice-entry t before need w ram_base working_base cached_row slab rows st late_set
                  late-planned k (q % w) f inv.in_range (grind arith) q' in
              let whole : k * w + q % w ≡ q =
                ap (λ (x : ℕ). x * w + q % w) (sym here) ∙ slice_of q w some_rows in
              let who : f ≡ e =
                pos-injective t before need w some_rows f e q lf le (late-planned f mf)
                  (todo-planned e te) (at_f ∙ ap some whole) at_q in
              absurd (ground (arith, late-parts f mf, ap todo_set who))
        ]

        fill :
            FilledAt t before need w ram_base working_base cached_row slab rows st
              (copy R now w part working)
              (running k)
        fill e q le ne at_q here = elim (need_cases e ne) [
          | inl te ↦ rw (dest-mod e q at_q) (
              copy-left R now part w placed w working (q % w) (omega arith)
                (inl (stays e q le te at_q here))
              ∙ ap working (sym (dest-mod e q at_q))
              ∙ inv.filled e q le te at_q here)
          | inr me ↦
              let (_, se, out, _) = late-parts e me in
              rw (dest-mod e q at_q) (
                copy-entry R now part w placed w working (q % w) e (omega arith) (grind arith) (
                  entry-slice t before need w ram_base working_base cached_row slab rows st late_set
                    late-planned k e q inv.in_range le me at_q here)
                ∙ source-row now e out
                ∙ arrived e q le se at_q here)
        ]
