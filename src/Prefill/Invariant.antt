-- ===== src/Prefill/Invariant.antt =====
-- The invariant of the prefill: what is read, landed and copied at each point.
use vllm_expert_pager.Base.{
  ℕ, ◌+◌, ◌/◌, ◌%◌, ◌≤◌, ◌<◌, ◌≡◌, ap, sym, ◌∙◌, ◌≢◌, ◌⊎◌, inl, inr, Bool, true, false, Option,
  some, arith, is_some,
}
use vllm_expert_pager.Table.{ExpertTable}
use vllm_expert_pager.Plan.{chunks, ssd, pos, dst_row, src_row, in_todo, plan_chunks}
use vllm_expert_pager.Plan.Layout.{pos-injective, same_quotient}
use vllm_expert_pager.Prefill.{
  Pc, start, copying, publishing, waiting, late, running, finished, Program,
}
use vllm_expert_pager.Prefill.Rows.{Setting, ssd-row_injective}

-- The chunks whose reads are published: those below this number.
abbrev pub published : ℕ → Pc → ℕ
published n start = 0
published n (copying k) = k + 1
published n (publishing k) = k + 1
published n (waiting k) = k + 2
published n (late k) = k + 2
published n (running k) = k + 2
published n finished = n + 1

-- The chunks whose reads have been waited for.
abbrev pub waited : ℕ → Pc → ℕ
waited n start = 0
waited n (copying k) = k
waited n (publishing k) = k
waited n (waiting k) = k
waited n (late k) = k + 1
waited n (running k) = k + 1
waited n finished = n

abbrev pub InRange : ℕ → Pc → Type 0
InRange n start = Unit {0}
InRange n finished = Unit {0}
InRange n (copying k) = k < n
InRange n (publishing k) = k < n
InRange n (waiting k) = k < n
InRange n (late k) = k < n
InRange n (running k) = k < n

module _ (t : ExpertTable) (before : ℕ → Option ℕ) (need : ℕ → Bool) (w ram_base working_base : ℕ)
    (cached_row slab rows : ℕ → Option ℕ) where
  abbrev pub program : Program
  program = record {
    plan = plan_chunks t before need w ram_base working_base cached_row;
    w = w;
    n = chunks t before need w;
    cached_row = cached_row;
    slab = slab;
  }

  -- Expert `e` is read from SSD, at position `q`.
  abbrev pub Reads : ℕ → ℕ → Type 0
  Reads e q =
      (e < t.num_experts) × (ssd t before need w e ≡ true) × (pos t before need w e ≡ some q)

  abbrev pub home : ℕ → ℕ
  home = src_row t before need w ram_base working_base

  abbrev pub dest : ℕ → ℕ
  dest = dst_row t before need w

  -- The needed experts of chunk `k`, those of the mask, stand on the working slab.
  abbrev pub Placed : (ℕ → Bool) → (ℕ → Option ℕ) → ℕ → Type 0
  Placed mask working k =
      (e q : ℕ)
      → e < t.num_experts
      → mask e ≡ true
      → pos t before need w e ≡ some q
      → q / w ≡ k
      → working (dest e) ≡ some e

  abbrev pub todo_mask : ℕ → Bool
  todo_mask = in_todo t before need w ram_base working_base cached_row

  -- The working slab at each point of chunk `k`.
  abbrev pub Filled : (ℕ → Option ℕ) → Pc → Type 0
  Filled working (publishing k) = Placed todo_mask working k
  Filled working (waiting k) = Placed todo_mask working k
  Filled working (late k) = Placed todo_mask working k
  Filled working (running k) = Placed need working k
  Filled working _ = Unit {0}

  abbrev pub N : ℕ
  N = chunks t before need w

  pub record Inv (now working : ℕ → Option ℕ) (pending : ℕ → Bool) (pc : Pc) : Type 0 where
    pub in_range : InRange N pc
    -- a read that is under way is published and not yet waited for
    pub under_way :
        (e : ℕ)
        → pending e ≡ true
        → (q : ℕ) × Reads e q × (waited N pc ≤ q / w) × (q / w < published N pc)
    -- a read that has landed stays, in a shared row until the chunk after the next is published
    pub landed :
        (e q : ℕ)
        → Reads e q
        → q / w < published N pc
        → pending e ≡ false
        → (is_some (t.slot_of e) ≡ true) ⊎ (published N pc ≤ q / w + 2)
        → now (home e) ≡ some e
    -- a row that no published read names has its first content
    pub untouched :
        (r : ℕ) → ((e q : ℕ) → Reads e q → q / w < published N pc → home e ≢ r) → now r ≡ rows r
    pub filled : Filled working pc

  module _ (st : Setting t before w ram_base working_base cached_row slab rows) where
    open st use {valid, some_rows, above}

    pub window : (pc : Pc) → published N pc ≤ waited N pc + 2
    window start = omega arith
    window (copying k) = omega arith
    window (publishing k) = omega arith
    window (waiting k) = omega arith
    window (late k) = omega arith
    window (running k) = omega arith
    window finished = omega arith

    half_apart : (a b : ℕ) → a % 2 ≡ b % 2 → a < b + 2 → b < a + 2 → a ≡ b
    half_apart a b h la lb = omega arith

    -- A read does not overwrite a row that another read has filled and that is still to be copied.
    pub no_clash :
        (pc : Pc) (e f p q : ℕ)
        → Reads e p
        → Reads f q
        → waited N pc ≤ p / w
        → p / w < published N pc
        → q / w < published N pc
        → (is_some (t.slot_of f) ≡ true) ⊎ (published N pc ≤ q / w + 2)
        → home e ≡ home f
        → e ≡ f
    no_clash pc e f p q (le, he, at_p) (lf, hf, at_q) low high_p high_q kept clash =
        elim (ssd-row_injective t before need w ram_base working_base valid some_rows above e f p q
          le lf he hf at_p at_q clash) [
            | inl same_expert ↦ same_expert
            | inr (free_e, free_f, faces, dsts) ↦
                let turn : published N pc ≤ q / w + 2 = ground arith in
                let same_chunk : p / w ≡ q / w =
                  half_apart (p / w) (q / w) faces (omega arith) (omega (arith, window pc)) in
                pos-injective t before need w some_rows e f p le lf (inr he) (inr hf) at_p
                  (at_q ∙ ap some (sym (same_quotient p q w same_chunk dsts)))
          ]
