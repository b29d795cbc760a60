-- ===== src/Fetch/Reads.antt =====
-- One read of the server, `read_one` of src/vllm_expert_pager/store.py, whether it succeeds or fails.
use vllm_expert_pager.Base.{
  ℕ, ◌<◌, ◌≡◌, refl, sym, ap, ◌∙◌, ◌≢◌, ◌⊎◌, inl, inr, true, Option, none, some, arith, ltb,
  if◌then◌else◌, Option-cases, Bool-cases, subst,
}
use vllm_expert_pager.Tensor.Put.{update}
use vllm_expert_pager.Fetch.{Request, State, Sizes, read_one}

module _ (z : Sizes) where
  -- The server asks the file for expert `e`, for row `x` of its tier.
  pub record Asked (r : Request) (e : ℕ) (row : Option ℕ) (x : ℕ) : Type 0 where
    pub layer_lt : r.layer < z.layers
    pub expert_lt : e < z.experts
    pub row_is : row ≡ some x
    pub row_lt : x < z.rows

  -- What a row holds after a read: a record that is not whole is not taken for an expert.
  abbrev pub content : ℕ → ℕ → Option (ℕ × ℕ)
  content layer e = if z.preadv layer e then some (layer, e) else none

  module _ (r : Request) where
    -- The state after a read into row `x`.
    abbrev after : ℕ → ℕ → State → State
    after e x s = record s {
      failed = if z.preadv r.layer e then s.failed else true;
      pinned = update s.pinned x (content r.layer e);
    }

    pub read_one-Asked :
        (e x : ℕ) (row : Option ℕ) (s : State)
        → Asked r e row x
        → read_one z r.layer (e, row) s ≡ after e x s
    unfolding read_one
    read_one-Asked e x row s a =
        let known : ltb r.layer z.layers ≡ true = ground (arith, a.layer_lt) in
        let known' : ltb e z.experts ≡ true = ground (arith, a.expert_lt) in
        let known'' : ltb x z.rows ≡ true = ground (arith, a.row_lt) in
        rw (a.row_is, known, known', known'')
          (elim (Bool-cases (z.preadv r.layer e)) [
            | inl whole ↦ rw whole refl
            | inr short ↦ rw short refl
          ])

    -- A job is asked for, or it is out of range and sets the flag only.
    pub read_one-cases :
        (e : ℕ) (row : Option ℕ) (s : State)
        → ((x : ℕ) × Asked r e row x)
          ⊎ (((x : ℕ) → ¬ Asked r e row x)
              × (read_one z r.layer (e, row) s ≡ (record s { failed = true })))
    unfolding read_one
    read_one-cases e row s = elim (Bool-cases (ltb r.layer z.layers)) [
      | inr wide ↦ inr (λ x a. absurd (ground (arith, a.layer_lt)), rw wide refl)
      | inl lt ↦ elim (Bool-cases (ltb e z.experts)) [
        | inr wide ↦ inr (λ x a. absurd (ground (arith, a.expert_lt)), rw (lt, wide) refl)
        | inl lt' ↦ elim (Option-cases row) [
          | inl q ↦ inr (λ x a. absurd (ground (arith, a.row_is)), rw (lt, lt', q) refl)
          | inr (y, q) ↦ elim (Bool-cases (ltb y z.rows)) [
            | inr wide ↦
                inr (λ x a. absurd (ground (arith, a.row_is, a.row_lt)), rw (lt, lt', q, wide) refl)
            | inl lt'' ↦ inl (
              y,
              record {
                layer_lt = ground arith;
                expert_lt = ground arith;
                row_is = q;
                row_lt = ground arith;
              },
            )
          ]
        ]
      ]
    ]

    pub read_one-stays_failed :
        (e : ℕ) (row : Option ℕ) (s : State)
        → s.failed ≡ true
        → (read_one z r.layer (e, row) s).failed ≡ true
    read_one-stays_failed e row s f = elim (read_one-cases e row s) [
      | inr (_, q) ↦ ap (λ (u : State). u.failed) q
      | inl (x, a) ↦
          ap (λ (u : State). u.failed) (read_one-Asked e x row s a)
          ∙ elim (Bool-cases (z.preadv r.layer e)) [
            | inl whole ↦ rw whole f
            | inr short ↦ rw short refl
          ]
    ]

    -- The entry gives a whole record for a row of the tier.
    abbrev pub Whole : ℕ → ℕ → Type 0
    Whole j e = ((x : ℕ) × Asked r e (r.row j) x) × (z.preadv r.layer e ≡ true)

    pub read_one-fails :
        (j e : ℕ) (s : State) → ¬ Whole j e → (read_one z r.layer (e, r.row j) s).failed ≡ true
    read_one-fails j e s bad = elim (read_one-cases e (r.row j) s) [
      | inr (_, q) ↦ ap (λ (u : State). u.failed) q
      | inl (x, a) ↦
          ap (λ (u : State). u.failed) (read_one-Asked e x (r.row j) s a)
          ∙ elim (Bool-cases (z.preadv r.layer e)) [
            | inl whole ↦ absurd (bad ((x, a), whole))
            | inr short ↦ rw short refl
          ]
    ]

    pub read_one-keeps :
        (e y : ℕ) (row : Option ℕ) (s : State)
        → ¬ Asked r e row y
        → (read_one z r.layer (e, row) s).pinned y ≡ s.pinned y
    unfolding update
    read_one-keeps e y row s out = elim (read_one-cases e row s) [
      | inr (_, q) ↦ ap (λ (u : State). u.pinned y) q
      | inl (x, a) ↦
          let apart : y ≢ x = λ here. out (subst (Asked r e row) (sym here) a) in
          ap (λ (u : State). u.pinned y) (read_one-Asked e x row s a) ∙ ground arith
    ]
