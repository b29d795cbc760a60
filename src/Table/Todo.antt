-- ===== src/Table/Todo.antt =====
-- The list of experts to load, `pack`, and the counters.
use vllm_expert_pager.Base.{
  ℕ, suc, ◌+◌, ◌≤◌, ◌<◌, ◌≡◌, ap, sym, ◌∙◌, ◌⊎◌, inl, inr, Bool, true, List, Option, none, some,
  arith, length, is_some, ltb, if◌then◌else◌, zero, Bool-cases, dec_lt,
}
use vllm_expert_pager.Tensor.Put.{index_put_hit, index_put_miss}
use vllm_expert_pager.Tensor.Count.{
  count, count-ext, count-onto, count-suc, count_mono, count-injective, count-le,
}
use vllm_expert_pager.Tensor.Argsort.{Argsort}
use vllm_expert_pager.Table.Victim.{hit-miss-count, need_count-le}
use vllm_expert_pager.Table.{ExpertTable, need_mask, miss, rank_in, packed, pack, acquire}

-- The list `l` of length `n` holds exactly the entries of `mask` below `num_experts`, in ascending
-- order from the front, and -1 behind them.
pub record Lists (num_experts : ℕ) (mask : ℕ → Bool) (n : ℕ) (l : ℕ → Option ℕ) : Type 0 where
  pub complete :
      (e : ℕ)
      → e < num_experts
      → mask e ≡ true
      → (i : ℕ) × (i < count mask num_experts) × (l i ≡ some e)
  pub sound :
      (i e : ℕ)
      → i < n
      → l i ≡ some e
      → (i < count mask num_experts) × (e < num_experts) × (mask e ≡ true)
  pub padded : (i : ℕ) → count mask num_experts ≤ i → i < n → l i ≡ none
  pub ascending : (i j e f : ℕ) → i < j → j < n → l i ≡ some e → l j ≡ some f → e < f

module _ (E : ℕ) (mask : ℕ → Bool) (n : ℕ) (room : count mask E ≤ n) where
  rank_in-lt : (e : ℕ) → e < E → mask e ≡ true → rank_in mask e < count mask E
  rank_in-lt e le me = omega (arith, count-suc mask e me, count_mono mask (suc e) E le)

  packed-set : (e : ℕ) → e < E → mask e ≡ true → packed E mask n (rank_in mask e) ≡ some e
  unfolding packed
  packed-set e le me = index_put_hit E _ _ _ e (rank_in mask e) le (rw me) (λ k lk q.
      elim (Bool-cases (mask k)) [
        | inl mk ↦
            let ranks : rank_in mask k ≡ rank_in mask e = ground arith in
            count-injective mask k e mk me
              (omega (arith, ranks, count-suc mask k mk, count-suc mask e me))
        | inr nk ↦ absurd (ground (arith, rank_in-lt e le me))
      ])

  packed-cases :
      (i : ℕ)
      → i < n
      → ((e : ℕ) × (e < E) × (mask e ≡ true) × (rank_in mask e ≡ i) × (packed E mask n i ≡ some e))
        ⊎ ((count mask E ≤ i) × (packed E mask n i ≡ none))
  unfolding packed
  packed-cases i li = elim (dec_lt i (count mask E)) [
    | yes lt ↦
        let (e, le, me, q) = count-onto mask E i lt in
        let rank : rank_in mask e ≡ i = omega (arith, q) in
        inl (e, le, me, rank, ap (packed E mask n) (sym rank) ∙ packed-set e le me)
    | no ge ↦ inr (
      omega arith,
      index_put_miss E _ _ _ i (λ k lk. elim (Bool-cases (mask k)) [
        | inl mk ↦ λ q. absurd (ground (arith, rank_in-lt k lk mk))
        | inr nk ↦ λ q. absurd (ground arith)
      ]),
    )
  ]

  pub packed-Lists : Lists E mask n (packed E mask n)
  packed-Lists = record {
    complete = λ e le me. (rank_in mask e, rank_in-lt e le me, packed-set e le me);
    sound = λ i e li h. elim (packed-cases i li) [
      | inl (f, lf, mf, rank, q) ↦ ground (arith, rank_in-lt f lf mf)
      | inr (_, q) ↦ absurd (ground arith)
    ];
    padded = λ i ge li. elim (packed-cases i li) [
      | inl (f, lf, mf, rank, q) ↦ absurd (omega (arith, rank_in-lt f lf mf))
      | inr (_, q) ↦ q
    ];
    ascending = λ i j e f lt lj hi hj.
        later i j e f lt (packed-cases i (omega arith)) (packed-cases j lj) hi hj;
  }
    where
      Case : ℕ → Type 0
      Case i =
          ((e : ℕ) × (e < E)
            × (mask e ≡ true)
            × (rank_in mask e ≡ i)
            × (packed E mask n i ≡ some e))
          ⊎ ((count mask E ≤ i) × (packed E mask n i ≡ none))

      later :
          (i j e f : ℕ)
          → i < j
          → Case i
          → Case j
          → packed E mask n i ≡ some e
          → packed E mask n j ≡ some f
          → e < f
      later i j e f lt (inl (x, _, _, rx, hx)) (inl (y, _, _, ry, hy)) hi hj =
          ground (arith, count_mono mask (suc f) (suc e))
      later i j e f lt (inr (_, hx)) _ hi hj = absurd (ground arith)
      later i j e f lt _ (inr (_, hy)) hi hj = absurd (ground arith)

count-below : (r n : ℕ) → count (λ j. ltb j r) n ≡ (if ltb n r then n else r)
unfolding count
count-below r zero = ground arith
count-below r (suc n) = ground (arith, count-below r n)

-- The list has as many entries as the mask.
packed-count :
    (E : ℕ) (mask : ℕ → Bool) (n : ℕ)
    → count mask E ≤ n
    → count (λ j. is_some (packed E mask n j)) n ≡ count mask E
packed-count E mask n room =
    count-ext (λ j. is_some (packed E mask n j)) (λ j. ltb j (count mask E)) n
      (λ i li. elim (packed-cases E mask n room i li) [
        | inl (e, le, me, rank, q) ↦ ap is_some q ∙ ground (arith, rank_in-lt E mask n room e le me)
        | inr (ge, q) ↦ ap is_some q ∙ ground arith
      ])
    ∙ count-below (count mask E) n
    ∙ ground arith

-- `pack` lists the set entries of a mask, ascending from the front, with -1 behind.
pub pack-Lists :
    (t : ExpertTable) (mask : ℕ → Bool) → Lists t.num_experts mask t.num_experts (pack t mask)
unfolding pack
pack-Lists t mask = packed-Lists t.num_experts mask t.num_experts (count-le mask t.num_experts)

module _ (sort : Argsort) (t : ExpertTable) (topk_ids : List (Option ℕ)) where
  -- `todo` lists the experts that are needed and not cached, ascending from the front, with -1
  -- behind; its `numel()` entries are always enough.
  pub acquire-todo :
      Lists t.num_experts (miss t topk_ids) (length topk_ids) (acquire sort t topk_ids).todo
  unfolding acquire
  acquire-todo =
      packed-Lists t.num_experts (miss t topk_ids) (length topk_ids)
        (omega (arith, hit-miss-count t topk_ids, need_count-le t topk_ids))

  -- `misses` grows by the number of experts in `todo`, and `hits` by the number of the other experts that
  -- the step needs: each counts once however often it is referenced, and they are at most `numel()`.
  pub acquire-counts :
      ((acquire sort t topk_ids).table.misses
        ≡ t.misses + count (λ j. is_some ((acquire sort t topk_ids).todo j)) (length topk_ids))
      × ((acquire sort t topk_ids).table.hits
            + count (λ j. is_some ((acquire sort t topk_ids).todo j)) (length topk_ids)
          ≡ t.hits + count (need_mask t topk_ids) t.num_experts)
      × (count (need_mask t topk_ids) t.num_experts ≤ length topk_ids)
  unfolding acquire
  acquire-counts =
      let split = hit-miss-count t topk_ids in
      let fits = need_count-le t topk_ids in
      let listed = packed-count t.num_experts (miss t topk_ids) (length topk_ids) (omega arith) in
      (omega arith, omega arith, fits)
