-- ===== src/Prefill/Steps.antt =====
-- The invariant of the prefill across publishes, landings and moves.
use vllm_expert_pager.Base.{
  ℕ, ◌+◌, ◌*◌, ◌/◌, ◌%◌, ◌≤◌, ◌<◌, ◌≡◌, ap, sym, ◌∙◌, ◌≢◌, ◌⊎◌, inl, inr, Bool, true, false, Option,
  some, arith, ℕ_discrete, Bool-cases,
}
use vllm_expert_pager.Tensor.Put.{update}
use vllm_expert_pager.Table.{ExpertTable}
use vllm_expert_pager.Plan.{chunks, ssd, first, pos, dst_row, listing, plan_chunks}
use vllm_expert_pager.Plan.Layout.{pos-lt, listing_iff, place-lt}
use vllm_expert_pager.Prefill.{Pc, Program, publish, slice}
use vllm_expert_pager.Prefill.Copy.{mentions-entry, entry-mentions}
use vllm_expert_pager.Prefill.Invariant.{
  published, waited, InRange, program, Reads, home, Filled, Inv, no_clash,
}
use vllm_expert_pager.Prefill.Rows.{Setting}

pub slice_lt : (k j n w : ℕ) → k < n → j < w → k * w + j < n * w
slice_lt k j n w lk lj = grind arith

pub slice_parts : (k j w : ℕ) → j < w → ((k * w + j) / w ≡ k) × ((k * w + j) % w ≡ j)
slice_parts k j w lj = grind arith

pub slice_of : (q w : ℕ) → 0 < w → q / w * w + q % w ≡ q
slice_of q w pos = grind arith

module _ (t : ExpertTable) (before : ℕ → Option ℕ) (need : ℕ → Bool) (w ram_base working_base : ℕ)
    (cached_row slab rows : ℕ → Option ℕ)
    (st : Setting t before w ram_base working_base cached_row slab rows) where
  open st use {valid, some_rows, above}

  abbrev pub Run : Program
  Run = program t before need w ram_base working_base cached_row slab rows

  abbrev pub Read : ℕ → ℕ → Type 0
  Read = Reads t before need w ram_base working_base cached_row slab rows

  abbrev pub row : ℕ → ℕ
  row = home t before need w ram_base working_base cached_row slab rows

  abbrev pub Good : (now working : ℕ → Option ℕ) (pending : ℕ → Bool) (pc : Pc) → Type 0
  Good = Inv t before need w ram_base working_base cached_row slab rows

  abbrev pub chunk_count : ℕ
  chunk_count = chunks t before need w

  abbrev pub FilledAt : (ℕ → Option ℕ) → Pc → Type 0
  FilledAt = Filled t before need w ram_base working_base cached_row slab rows

  -- An entry of chunk `k` of a listing is an expert of the mask, at that place.
  module _ (mask : ℕ → Bool)
      (planned : (e : ℕ)
        → mask e ≡ true
        → (first t before need w e ≡ true) ⊎ (ssd t before need w e ≡ true)) where
    pub slice-entry :
        (k j e : ℕ)
        → k < chunk_count
        → j < w
        → slice w (listing t before need w mask) k j ≡ some e
        → (e < t.num_experts) × (mask e ≡ true) × (pos t before need w e ≡ some (k * w + j))
    slice-entry k j e lk lj h =
        (listing_iff t before need w some_rows mask planned (k * w + j) e
            (slice_lt k j chunk_count w lk lj)).0
          h

    pub slice-place :
        (k j e : ℕ)
        → k < chunk_count
        → j < w
        → slice w (listing t before need w mask) k j ≡ some e
        → dst_row t before need w e ≡ j
    unfolding dst_row
    slice-place k j e lk lj h = rw (slice-entry k j e lk lj h).2 ((slice_parts k j w lj).1)

    pub entry-slice :
        (k e q : ℕ)
        → k < chunk_count
        → e < t.num_experts
        → mask e ≡ true
        → pos t before need w e ≡ some q
        → q / w ≡ k
        → slice w (listing t before need w mask) k (q % w) ≡ some e
    entry-slice k e q lk le me at_q here =
        let whole : k * w + q % w ≡ q =
          ap (λ (x : ℕ). x * w + q % w) (sym here) ∙ slice_of q w some_rows in
        (listing_iff t before need w some_rows mask planned (k * w + q % w) e
            (slice_lt k (q % w) chunk_count w lk (grind arith))).1
          (le, me, at_q ∙ ap some (sym whole))

  publish-cases :
      (k e : ℕ) (pending : ℕ → Bool)
      → k < chunk_count
      → publish Run k pending e ≡ true
      → (pending e ≡ true) ⊎ ((q : ℕ) × Read e q × (q / w ≡ k))
  unfolding publish plan_chunks
  publish-cases k e pending lk h = elim (Bool-cases (pending e)) [
    | inl old ↦ inl old
    | inr new ↦
        let (j, lj, q) =
          mentions-entry w (slice w (listing t before need w (ssd t before need w)) k) e
            (ground arith) in
        let (le, me, at_q) = slice-entry (ssd t before need w) (λ f s. inr s) k j e lk lj q in
        inr (k * w + j, (le, me, at_q), (slice_parts k j w lj).0)
  ]

  publish-old : (k e : ℕ) (pending : ℕ → Bool) → publish Run k pending e ≡ false → pending e ≡ false
  unfolding publish
  publish-old k e pending h = ground arith

  publish-new :
      (k e q : ℕ) (pending : ℕ → Bool)
      → k < chunk_count
      → Read e q
      → q / w ≡ k
      → publish Run k pending e ≡ true
  unfolding publish plan_chunks
  publish-new k e q pending lk (le, me, at_q) here = ground (
    arith,
    entry-mentions w (slice w (listing t before need w (ssd t before need w)) k) e (q % w)
        (grind arith) (entry-slice (ssd t before need w) (λ f s. inr s) k e q lk le me at_q here),
  )

  -- A step that publishes nothing.
  pub move-Inv :
      {now working working' : ℕ → Option ℕ} {pending : ℕ → Bool} {pc pc' : Pc}
      → published chunk_count pc' ≡ published chunk_count pc
      → ((e q : ℕ)
          → pending e ≡ true
          → Read e q
          → waited chunk_count pc ≤ q / w
          → waited chunk_count pc' ≤ q / w)
      → InRange chunk_count pc'
      → FilledAt working' pc'
      → Good now working pending pc
      → Good now working' pending pc'
  move-Inv {pc} {pc'} same_p later range fill inv = record {
    in_range = range;
    under_way = λ e h.
        let (q, reads, low, high) = inv.under_way e h in
        (q, reads, later e q h reads low, omega arith);
    landed = λ e q reads high done kept. inv.landed e q reads (omega arith) done (ground arith);
    untouched = λ r out. inv.untouched r (λ e q reads high. out e q reads (omega arith));
    filled = fill;
  }

  -- A step that publishes chunk `k`.
  pub publish-Inv :
      {now working : ℕ → Option ℕ} {pending : ℕ → Bool} {pc pc' : Pc} (k : ℕ)
      → k < chunk_count
      → published chunk_count pc ≡ k
      → published chunk_count pc' ≡ k + 1
      → waited chunk_count pc' ≡ waited chunk_count pc
      → waited chunk_count pc ≤ k
      → InRange chunk_count pc'
      → FilledAt working pc'
      → Good now working pending pc
      → Good now working (publish Run k pending) pc'
  publish-Inv {pending} {pc} {pc'} k lk p p' same_w low_k range fill inv = record {
    in_range = range;
    under_way = λ e h. elim (publish-cases k e pending lk h) [
      | inl old ↦
          let (q, reads, low, high) = inv.under_way e old in (q, reads, omega arith, omega arith)
      | inr (q, reads, here) ↦ (q, reads, omega arith, omega arith)
    ];
    landed = λ e q reads high done kept. elim (ℕ_discrete (q / w) k) [
      | yes here ↦ absurd (ground (arith, publish-new k e q pending lk reads here))
      | no other ↦ inv.landed e q reads (omega arith) (publish-old k e pending done) (ground arith)
    ];
    untouched = λ r out. inv.untouched r (λ e q reads high. out e q reads (omega arith));
    filled = fill;
  }

  -- No chunk is left to publish.
  pub skip-Inv :
      {now working : ℕ → Option ℕ} {pending : ℕ → Bool} {pc pc' : Pc} (k : ℕ)
      → chunk_count ≤ k
      → published chunk_count pc ≡ k
      → published chunk_count pc' ≡ k + 1
      → waited chunk_count pc' ≡ waited chunk_count pc
      → InRange chunk_count pc'
      → FilledAt working pc'
      → Good now working pending pc
      → Good now working pending pc'
  skip-Inv {pc} {pc'} k none_left p p' same_w range fill inv = record {
    in_range = range;
    under_way = λ e h.
        let (q, reads, low, high) = inv.under_way e h in (q, reads, omega arith, omega arith);
    landed =
        λ e q reads high done kept. inv.landed e q reads (inside e q reads) done (ground arith);
    untouched = λ r out. inv.untouched r (λ e q reads high. out e q reads (omega arith));
    filled = fill;
  }
    where
      inside : (e q : ℕ) → Read e q → q / w < published chunk_count pc
      inside e q (le, se, at_q) =
          let within =
            place-lt t before need w some_rows q
              (pos-lt t before need w some_rows e q le (inr se) at_q) in
          omega arith

  -- A read lands.
  pub land-Inv :
      {now working : ℕ → Option ℕ} {pending : ℕ → Bool} {pc : Pc} (e : ℕ)
      → pending e ≡ true
      → Good now working pending pc
      → Good (update now (row e) (some e)) working (update pending e false) pc
  unfolding update
  land-Inv {pc} e under inv =
      let (p, reads, low, high) = inv.under_way e under in
      record {
        in_range = inv.in_range;
        under_way = λ f h. inv.under_way f (ground arith);
        landed = λ f q rf high_f done kept. elim (ℕ_discrete e f) [
          | yes same_expert ↦ ground (arith, ap row same_expert)
          | no other ↦
              let apart : row e ≢ row f = λ clash. other (
                no_clash t before need w ram_base working_base cached_row slab rows st pc e f p q
                  reads rf low high high_f kept clash) in
              let before_it = inv.landed f q rf high_f (ground arith) kept in
              ground (arith, before_it)
        ];
        untouched = λ r out.
            let apart : row e ≢ r = out e p reads high in
            let before_it = inv.untouched r out in ground (arith, before_it);
        filled = inv.filled;
      }
