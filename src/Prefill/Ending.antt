-- ===== src/Prefill/Ending.antt =====
-- The end of a prefill: which steps lead to it.
use vllm_expert_pager.Base.{
  ℕ, zero, suc, ◌+◌, ◌≤◌, ◌<◌, ◌≡◌, refl, ap, ◌∙◌, inl, inr, Bool, false, Option, arith, ℕ_discrete,
  Bool-cases, ltb, if◌then◌else◌,
}
use vllm_expert_pager.Tensor.Put.{update}
use vllm_expert_pager.Table.{ExpertTable}
use vllm_expert_pager.Plan.{chunks}
use vllm_expert_pager.Prefill.{
  Pc, start, copying, publishing, waiting, late, running, finished, State, Program, Step, land,
  publish_first, copy_todo, publish_next, wait, copy_late, run, Reach, here, next,
}
use vllm_expert_pager.Prefill.Rows.{Setting}
use vllm_expert_pager.Prefill.Invariant.{program}
use vllm_expert_pager.Prefill.Tickets.{Step-Ticketed}
use vllm_expert_pager.Prefill.Truth.{
  TicketState, reach-Ticketed, begin, Moves, Reaches, GoodState, Step-Good, reach-Good,
}

module _ {p : Program} where
  prepend : {s u v : State} → Step p s u → Reach p u v → Reach p s v
  prepend m here = next here m
  prepend m (next r n) = next (prepend m r) n

  join : {s u v : State} → Reach p s u → Reach p u v → Reach p s v
  join r here = r
  join r (next q m) = next (join r q) m

  -- The state in which some of the reads have landed.
  drain :
      (n : ℕ) (u : State)
      → (v : State) × Reach p u v × (v.pc ≡ u.pc) × ((e : ℕ) → e < n → v.pending e ≡ false)
  unfolding update
  drain zero u = (u, here, refl, λ e lt. absurd (omega arith))
  drain (suc n) u =
      let (v, r, at, quiet) = drain n u in
      elim (Bool-cases (v.pending n)) [
        | inr landed ↦ (
          v,
          r,
          at,
          λ e lt. elim (ℕ_discrete e n) [
            | yes q ↦ ap v.pending q ∙ landed
            | no other ↦ quiet e (omega arith)
          ],
        )
        | inl under ↦ (
          _,
          next r (land n under refl),
          at,
          λ e lt. elim (ℕ_discrete e n) [
            | yes q ↦ ground arith
            | no other ↦ ground (arith, quiet e (omega arith))
          ],
        )
      ]

module _ (t : ExpertTable) (before : ℕ → Option ℕ) (need : ℕ → Bool) (w ram_base working_base : ℕ)
    (cached_row slab rows : ℕ → Option ℕ)
    (st : Setting t before w ram_base working_base cached_row slab rows) where
  abbrev Sound : State → Type 0
  Sound u =
      GoodState t before need w ram_base working_base cached_row slab rows st u
      × TicketState t before need w ram_base working_base cached_row slab rows st u

  abbrev Move : State → State → Type 0
  Move = Moves t before need w ram_base working_base cached_row slab rows st

  abbrev PathTo : State → State → Type 0
  PathTo = Reaches t before need w ram_base working_base cached_row slab rows st

  abbrev Ends : State → Type 0
  Ends u = (v : State) × PathTo u v × (v.pc ≡ finished)

  Ends-step : {u v : State} → Move u v → Ends v → Ends u
  Ends-step m (x, r, at) = (x, prepend m r, at)

  keep : {u v : State} → Sound u → Move u v → Sound v
  keep {u} {v} good m = (
    Step-Good t before need w ram_base working_base cached_row slab rows st u v good.0 good.1 m,
    Step-Ticketed (program t before need w ram_base working_base cached_row slab rows) u v good.1 m,
  )

  keep_all : {u v : State} → Sound u → PathTo u v → Sound v
  keep_all good here = good
  keep_all good (next r m) = keep (keep_all good r) m

  module _ (k : ℕ)
      (rest : k + 1 < chunks t before need w
        → (u : State) → Sound u
        → u.pc ≡ copying (k + 1)
        → Ends u) where
    running-Ends : (u : State) → Sound u → u.pc ≡ running k → Ends u
    running-Ends u good at =
        let m : Move u (record u {
          pc = if ltb (k + 1) (chunks t before need w) then copying (k + 1) else finished;
        }) =
          run k at refl in
        elim (Bool-cases (ltb (k + 1) (chunks t before need w))) [
          | inl more ↦ Ends-step m (rest (ground arith) _ (keep good m) (rw more refl))
          | inr last ↦ (_, next here m, rw last refl)
        ]

    late-Ends : (u : State) → Sound u → u.pc ≡ late k → Ends u
    late-Ends u good at =
        let m : Move u _ = copy_late k at refl in Ends-step m (running-Ends _ (keep good m) refl)

    waiting-Ends : (u : State) → Sound u → u.pc ≡ waiting k → Ends u
    waiting-Ends u good at =
        let (v, r, same_pc, quiet) = drain t.num_experts u in
        let sound_v : Sound v = keep_all good r in
        let m : Move v _ =
          wait k (same_pc ∙ at)
            (λ _ j e _ _. elim (Bool-cases (v.pending e)) [
              | inr landed ↦ landed
              | inl under ↦
                  let (q, (le, _, _), _, _) = sound_v.0.under_way e under in
                  ground (arith, quiet e le)
            ])
            refl in
        let (x, path, end) = late-Ends _ (keep sound_v m) refl in (x, join (next r m) path, end)

    publishing-Ends : (u : State) → Sound u → u.pc ≡ publishing k → Ends u
    publishing-Ends u good at =
        let m : Move u _ = publish_next k at refl in Ends-step m (waiting-Ends _ (keep good m) refl)

    copying-Ends : (u : State) → Sound u → u.pc ≡ copying k → Ends u
    copying-Ends u good at =
        let m : Move u _ = copy_todo k at refl in Ends-step m (publishing-Ends _ (keep good m) refl)

  chunks_left :
      (d k : ℕ)
      → chunks t before need w ≤ k + d
      → k < chunks t before need w
      → (u : State) → Sound u
      → u.pc ≡ copying k
      → Ends u
  chunks_left zero k enough lk u good at = absurd (omega arith)
  chunks_left (suc d) k enough lk u good at =
      copying-Ends k (λ more. chunks_left d (k + 1) (omega arith) more) u good at

  rest_of :
      (k : ℕ)
      → k + 1 < chunks t before need w
      → (u : State) → Sound u
      → u.pc ≡ copying (k + 1)
      → Ends u
  rest_of k = chunks_left (chunks t before need w) (k + 1) (omega arith)

  finishing : (pc : Pc) (u : State) → Sound u → u.pc ≡ pc → Ends u
  unfolding chunks
  finishing start u good at =
      let m : Move u _ = publish_first at refl in
      Ends-step m
        (chunks_left (chunks t before need w) 0 (omega arith) (omega arith) _ (keep good m) refl)
  finishing (copying k) u good at = copying-Ends k (rest_of k) u good at
  finishing (publishing k) u good at = publishing-Ends k (rest_of k) u good at
  finishing (waiting k) u good at = waiting-Ends k (rest_of k) u good at
  finishing (late k) u good at = late-Ends k (rest_of k) u good at
  finishing (running k) u good at = running-Ends k (rest_of k) u good at
  finishing finished u good at = (u, here, at)

  -- A finished state that a reached state leads to.
  pub finished_from :
      (working : ℕ → Option ℕ) (u : State)
      → PathTo (begin t before need w ram_base working_base cached_row slab rows st working) u
      → (v : State) × PathTo u v × (v.pc ≡ finished)
  finished_from working u reached =
      finishing u.pc u
        (
          reach-Good t before need w ram_base working_base cached_row slab rows st working u
              reached,
          reach-Ticketed t before need w ram_base working_base cached_row slab rows st working u
              reached,
        )
        refl
