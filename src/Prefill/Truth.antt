-- ===== src/Prefill/Truth.antt =====
-- The working slab at each run of the MoE, and the RAM tier at the end of a prefill.
use vllm_expert_pager.Base.{
  ℕ, ◌+◌, ◌<◌, ◌≡◌, refl, ap, sym, ◌∙◌, ◌≢◌, inl, inr, Bool, true, false, Option, none, some, arith,
  Bool-cases, Option-cases, is_some, ltb, if◌then◌else◌, subst,
}
use vllm_expert_pager.Table.{ExpertTable}
use vllm_expert_pager.Table.Invariant.{slot_of_injective}
use vllm_expert_pager.Plan.{chunks, ssd, dst_row, maps, plan_chunks, old_ok}
use vllm_expert_pager.Plan.Layout.{pos-some, pos-lt, place-lt, maps-position}
use vllm_expert_pager.Prefill.{
  Pc, start, copying, publishing, waiting, running, finished, State, publish, Step, land,
  publish_first, copy_todo, publish_next, wait, copy_late, run, Reach, here, next,
}
use vllm_expert_pager.Prefill.Invariant.{program}
use vllm_expert_pager.Prefill.Tickets.{Ticketed, Step-Ticketed, wait-own}
use vllm_expert_pager.Prefill.Rows.{Setting, ssd-row_slot, ssd-row_shared}
use vllm_expert_pager.Prefill.Steps.{Good, move-Inv, publish-Inv, skip-Inv, land-Inv}
use vllm_expert_pager.Prefill.Copies.{copy_todo-Inv, wait-Inv, copy_late-Inv}

module _ (t : ExpertTable) (before : ℕ → Option ℕ) (need : ℕ → Bool) (w ram_base working_base : ℕ)
    (cached_row slab rows : ℕ → Option ℕ)
    (st : Setting t before w ram_base working_base cached_row slab rows) where
  open st use {valid, some_rows, above, truthful}

  -- The state at the start: no read is under way, nothing is known of the working slab, and no ticket
  -- is that of a publish of this prefill: the cells are written before a wait reads them.
  abbrev pub begin : (ℕ → Option ℕ) → State
  begin working = record {
    rows = rows;
    working = working;
    pending = λ _. false;
    tickets = λ _. 0;
    pc = start;
  }

  abbrev pub Moves : State → State → Type 0
  Moves = Step (program t before need w ram_base working_base cached_row slab rows)

  abbrev pub Reaches : State → State → Type 0
  Reaches = Reach (program t before need w ram_base working_base cached_row slab rows)

  abbrev GoodAt : (now working : ℕ → Option ℕ) (pending : ℕ → Bool) (pc : Pc) → Type 0
  GoodAt = Good t before need w ram_base working_base cached_row slab rows st

  abbrev pub GoodState : State → Type 0
  GoodState s = GoodAt s.rows s.working s.pending s.pc

  some_chunks : 0 < chunks t before need w
  unfolding chunks
  some_chunks = omega arith

  begin-Good : (working : ℕ → Option ℕ) → GoodState (begin working)
  begin-Good working = record {
    in_range = tt;
    under_way = λ e h. absurd (ground arith);
    landed = λ e q reads high. absurd (omega arith);
    untouched = λ r out. refl;
    filled = tt;
  }

  first_publish :
      {now working : ℕ → Option ℕ} {pending : ℕ → Bool}
      → GoodAt now working pending start
      → GoodAt now working
          (publish (program t before need w ram_base working_base cached_row slab rows) 0 pending)
          (copying 0)
  first_publish inv =
      publish-Inv t before need w ram_base working_base cached_row slab rows st 0 some_chunks refl
        refl refl (omega arith) some_chunks tt inv

  next_publish :
      {now working : ℕ → Option ℕ} {pending : ℕ → Bool} (k : ℕ)
      → GoodAt now working pending (publishing k)
      → GoodAt now working
          (if ltb (k + 1) (chunks t before need w)
            then publish
                (program t before need w ram_base working_base cached_row slab rows)
                (k + 1)
                pending
            else pending)
          (waiting k)
  next_publish {pending} k inv = elim (Bool-cases (ltb (k + 1) (chunks t before need w))) [
    | inl more ↦ rw more (
        publish-Inv t before need w ram_base working_base cached_row slab rows st (k + 1)
          (ground arith) refl (omega arith) refl (omega arith) inv.in_range inv.filled inv)
    | inr last ↦ rw last (
        skip-Inv t before need w ram_base working_base cached_row slab rows st (k + 1)
          (ground arith) refl (omega arith) refl inv.in_range inv.filled inv)
  ]

  run_chunk :
      {now working : ℕ → Option ℕ} {pending : ℕ → Bool} (k : ℕ)
      → GoodAt now working pending (running k)
      → GoodAt now working pending
          (if ltb (k + 1) (chunks t before need w) then copying (k + 1) else finished)
  run_chunk k inv = elim (Bool-cases (ltb (k + 1) (chunks t before need w))) [
    | inl more ↦ rw more (
        move-Inv t before need w ram_base working_base cached_row slab rows st (omega arith)
          (λ e q _ _ low. low) (ground arith) tt inv)
    | inr last ↦
        let whole : k + 1 ≡ chunks t before need w = ground (arith, inv.in_range) in
        rw last (
          move-Inv t before need w ram_base working_base cached_row slab rows st (omega arith)
            (λ e q _ _ low. omega arith) tt tt inv)
  ]

  abbrev pub TicketState : State → Type 0
  TicketState = Ticketed (program t before need w ram_base working_base cached_row slab rows)

  pub Step-Good : (s u : State) → GoodState s → TicketState s → Moves s u → GoodState u
  unfolding plan_chunks
  Step-Good s u inv live (land e under q) =
      subst GoodState (sym q)
        (land-Inv t before need w ram_base working_base cached_row slab rows st e under inv)
  Step-Good s u inv live (publish_first at q) =
      subst GoodState (sym q) (first_publish (subst (GoodAt s.rows s.working s.pending) at inv))
  Step-Good s u inv live (copy_todo k at q) = subst GoodState (sym q) (
      copy_todo-Inv t before need w ram_base working_base cached_row slab rows st k
        (subst (GoodAt s.rows s.working s.pending) at inv))
  Step-Good s u inv live (publish_next k at q) =
      subst GoodState (sym q) (next_publish k (subst (GoodAt s.rows s.working s.pending) at inv))
  Step-Good s u inv live (wait k at served q) = subst GoodState (sym q) (
      wait-Inv t before need w ram_base working_base cached_row slab rows st k
        (wait-own (program t before need w ram_base working_base cached_row slab rows) s k live at
          (subst (GoodAt s.rows s.working s.pending) at inv).in_range served)
        (subst (GoodAt s.rows s.working s.pending) at inv))
  Step-Good s u inv live (copy_late k at q) = subst GoodState (sym q) (
      copy_late-Inv t before need w ram_base working_base cached_row slab rows st k
        (subst (GoodAt s.rows s.working s.pending) at inv))
  Step-Good s u inv live (run k at q) =
      subst GoodState (sym q) (run_chunk k (subst (GoodAt s.rows s.working s.pending) at inv))

  pub reach-Ticketed :
      (working : ℕ → Option ℕ) (u : State) → Reaches (begin working) u → TicketState u
  reach-Ticketed working _ here = λ j above below. absurd (omega arith)
  reach-Ticketed working v (next {u} r m) =
      Step-Ticketed (program t before need w ram_base working_base cached_row slab rows) u v
        (reach-Ticketed working u r) m

  pub reach-Good : (working : ℕ → Option ℕ) (u : State) → Reaches (begin working) u → GoodState u
  reach-Good working _ here = begin-Good working
  reach-Good working v (next {u} r m) =
      Step-Good u v (reach-Good working u r) (reach-Ticketed working u r) m

  -- Whenever the MoE of a chunk runs, each expert that the chunk's map sends to a row of the working
  -- slab has its weights in that row, whenever the reads have landed. This needs a consistent table,
  -- shared rows behind the layer's rows, and tables that were true of the slabs before the step.
  pub run-sees_weights :
      (working : ℕ → Option ℕ) (u : State)
      → Reaches (begin working) u
      → (k e r : ℕ) → u.pc ≡ running k
      → e < t.num_experts
      → maps t before need w k e ≡ some r
      → u.working r ≡ some e
  unfolding dst_row
  run-sees_weights working u reached k e r at le mapped =
      let inv = subst (GoodAt u.rows u.working u.pending) at (reach-Good working u reached) in
      let (ne, (q, at_q, chunk_q, row_q)) = maps-position t before need w some_rows e k r mapped in
      let stands = inv.filled e q le ne at_q chunk_q in ground (arith, stands)

  old-not_ssd : (e : ℕ) → old_ok t before need w e ≡ true → ssd t before need w e ≢ true
  unfolding ssd
  old-not_ssd e ok h = ground arith

  -- A resident expert that has moved or come in is read, given that each one that came in is needed.
  resident-ssd :
      ((e : ℕ) → e < t.num_experts → is_some (t.slot_of e) ≡ true → before e ≡ none → need e ≡ true)
      → (e : ℕ) → e < t.num_experts
      → is_some (t.slot_of e) ≡ true
      → old_ok t before need w e ≡ false
      → ssd t before need w e ≡ true
  unfolding ssd
  resident-ssd came_in e le held moved = elim (Option-cases (before e)) [
    | inl q ↦ ground (arith, came_in e le held q)
    | inr (s, q) ↦ ground arith
  ]

  old_row :
      (u : State)
      → GoodState u
      → (e s : ℕ) → e < t.num_experts
      → t.slot_of e ≡ some s
      → old_ok t before need w e ≡ true
      → u.rows (s + ram_base) ≡ some e
  unfolding old_ok
  old_row u inv e s le held ok = elim (Option-cases (before e)) [
    | inl q ↦ absurd (ground arith)
    | inr (r, q) ↦
        let kept : s ≡ r = ground arith in
        inv.untouched (s + ram_base) (λ f p (lf, sf, at_p) _ clash.
          elim (Option-cases (t.slot_of f)) [
            | inl out ↦ omega (
              arith,
              (valid.forward e s le held).0,
              ssd-row_shared t before need w ram_base working_base f p sf out at_p,
            )
            | inr (x, qf) ↦
                let slots : x ≡ s =
                  omega (arith, ssd-row_slot t before need w ram_base working_base f x sf qf) in
                let who : f ≡ e = slot_of_injective valid f e s lf le (qf ∙ ap some slots) held in
                old-not_ssd e ok (subst (λ x. ssd t before need w x ≡ true) who sf)
          ])
        ∙ truthful e s le (q ∙ ap some (sym kept))
  ]

  -- When the prefill ends, every row that the RAM tier's table names holds the expert that the table
  -- says, whenever the reads have landed: the next step finds a truthful table. This needs a
  -- consistent table, shared rows behind the layer's rows, tables that were true before the step, and
  -- that each expert the step brought into the table is needed in it.
  pub finished-truthful :
      ((e : ℕ) → e < t.num_experts → is_some (t.slot_of e) ≡ true → before e ≡ none → need e ≡ true)
      → (working : ℕ → Option ℕ) (u : State) → Reaches (begin working) u
      → u.pc ≡ finished
      → (e s : ℕ) → e < t.num_experts
      → t.slot_of e ≡ some s
      → u.rows (s + ram_base) ≡ some e
  finished-truthful came_in working u reached at e s le held =
      elim (Bool-cases (old_ok t before need w e)) [
        | inl ok ↦ old_row u (reach-Good working u reached) e s le held ok
        | inr moved ↦
            let inv = subst (GoodAt u.rows u.working u.pending) at (reach-Good working u reached) in
            let se = resident-ssd came_in e le (ap is_some held) moved in
            let (q, at_q) = pos-some t before need w some_rows e (inr se) in
            let within =
              place-lt t before need w some_rows q
                (pos-lt t before need w some_rows e q le (inr se) at_q) in
            let landed_row =
              inv.landed e q (le, se, at_q) (omega arith) (quiet inv e) (inl (ap is_some held)) in
            ap u.rows (sym (ssd-row_slot t before need w ram_base working_base e s se held))
            ∙ landed_row
      ]
    where
      quiet : GoodAt u.rows u.working u.pending finished → (e : ℕ) → u.pending e ≡ false
      quiet inv e = elim (Bool-cases (u.pending e)) [
        | inr none_left ↦ none_left
        | inl under ↦
            let (q, (le, se, at_q), low, _) = inv.under_way e under in
            let within =
              place-lt t before need w some_rows q
                (pos-lt t before need w some_rows e q le (inr se) at_q) in
            absurd (omega arith)
      ]
