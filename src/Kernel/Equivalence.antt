-- ===== src/Kernel/Equivalence.antt =====
-- The kernel `_acquire` against `ExpertTable.acquire`, the reference.
use Prim.Native.Nat.{min}
use mathlib.Core.Path.{ap₂}
use vllm_expert_pager.Base.{
  ℕ, suc, ◌+◌, ◌-◌, ◌*◌, ◌%◌, ◌^◌, ◌≤◌, ◌<◌, ◌≡◌, refl, ap, sym, ◌∙◌, ◌≢◌, Bool, true, false, ◌&&◌,
  List, Option, none, some, arith, length, ltb, Bool-cases, inl, inr, if◌then◌else◌,
}
use vllm_expert_pager.Tensor.Put.{store, lanes-index_put, index_put_hit, index_put_same, store-off}
use vllm_expert_pager.Tensor.Count.{count, count-ext, count-beyond}
use vllm_expert_pager.Tensor.Argsort.{Argsort, Before}
use vllm_expert_pager.Table
use vllm_expert_pager.Table.{ExpertTable, Acquired, at, clamp, protect, rank_in, need_mask, packed}
use vllm_expert_pager.Table.Invariant.{Consistent}
use vllm_expert_pager.Table.Update.{cached_of_not-miss}
use vllm_expert_pager.Kernel.Sort.{TlSort}
use vllm_expert_pager.Kernel.Positions.{Enumerates, orders_agree}
use vllm_expert_pager.Kernel.Masks.{
  need-need_mask, need-outside, hit-hit, miss-miss, hit-outside, miss-outside, key-key, key-padding,
}
use vllm_expert_pager.Kernel.{
  Outputs, need, hit, miss, key, packed_key, order, victim, evicted, slot_after, slot_of_cleared,
  slot_of_after, expert_in_after, last_used_after, acquire, slot_bits,
}

-- The same table, below the sinks, and the same results.
pub record Matches (num_experts num_slots ids : ℕ) (write_map : Bool) (map : ℕ → Option ℕ)
    (o : Outputs) (r : Acquired) : Type 0 where
  pub slot_of : (e : ℕ) → e < num_experts → o.table.slot_of e ≡ r.table.slot_of e
  pub expert_in : (s : ℕ) → s < num_slots → o.table.expert_in s ≡ r.table.expert_in s
  pub last_used : (s : ℕ) → s < num_slots → o.table.last_used s ≡ r.table.last_used s
  pub step : o.table.step ≡ r.table.step
  pub hits : o.table.hits ≡ r.table.hits
  pub misses : o.table.misses ≡ r.table.misses
  pub map_after :
      (e : ℕ) → e < num_experts → o.map e ≡ (if write_map then r.expert_map e else map e)
  pub slot : (e : ℕ) → e < num_experts → o.slot e ≡ r.slot e
  pub todo : (i : ℕ) → i < ids → o.todo i ≡ r.todo i

-- Packed keys that ascend are keys that ascend, ties by slot.
unpack_Before :
    (key : ℕ → ℕ) (a b : ℕ)
    → a < 2 ^ slot_bits
    → b < 2 ^ slot_bits
    → a ≢ b
    → key a * 2 ^ slot_bits + a ≤ key b * 2 ^ slot_bits + b
    → Before key a b
unpack_Before key a b la lb ne h = ground arith

module _ (sort : TlSort) (reference : Argsort) (block_e block_s : ℕ) (t : ExpertTable)
    (topk : List (Option ℕ)) (c : Consistent t) (young : t.step ≤ protect)
    (wide_e : t.num_experts ≤ block_e) (wide_s : t.num_slots ≤ block_s)
    (narrow_s : block_s ≤ 2 ^ slot_bits) where
  lanes-Enumerates : Enumerates block_s (key t topk) (sort.source block_s (packed_key t topk))
  unfolding packed_key
  lanes-Enumerates = record {
    bounded = sort.bounded block_s (packed_key t topk);
    onto = sort.onto block_s (packed_key t topk);
    ascending = λ i j lt lj.
        unpack_Before (key t topk) _ _
          (omega (arith, sort.bounded block_s (packed_key t topk) i (omega arith)))
          (omega (arith, sort.bounded block_s (packed_key t topk) j lj))
          (λ e.
            absurd
              (omega (arith, sort.injective block_s (packed_key t topk) i j (omega arith) lj e)))
          (sort.ascending block_s (packed_key t topk) i j lt lj);
  }

  reference-Enumerates :
      Enumerates t.num_slots (Table.key t topk) (reference.order t.num_slots (Table.key t topk))
  reference-Enumerates = record {
    bounded = reference.bounded t.num_slots (Table.key t topk);
    onto = reference.onto t.num_slots (Table.key t topk);
    ascending = reference.ascending t.num_slots (Table.key t topk);
  }

  order-order :
      (i : ℕ)
      → i < t.num_slots
      → order sort block_e block_s t topk i ≡ reference.order t.num_slots (Table.key t topk) i
  unfolding order packed_key
  order-order i li =
      let lane = sort.source block_s (packed_key t topk) i in
      let low : lane < 2 ^ slot_bits =
        omega (arith, sort.bounded block_s (packed_key t topk) i (omega arith)) in
      let low_bits : (key t topk lane * 2 ^ slot_bits + lane) % 2 ^ slot_bits ≡ lane =
        omega arith in
      low_bits
      ∙ sym (
          orders_agree t.num_slots block_s wide_s (Table.key t topk) (key t topk) _ _
            reference-Enumerates lanes-Enumerates (key-key t topk c)
            (λ s x ge lt lx. key-padding t topk c young s x ge lx) i li)

  rank-rank : (e : ℕ) → e < t.num_experts → rank_in (miss t topk) e ≡ rank_in (Table.miss t topk) e
  rank-rank e le =
      ap (λ n. n - 1)
        (count-ext (miss t topk) (Table.miss t topk) (suc e)
          (λ k lk. miss-miss t topk k (omega arith)))

  victim-victim :
      (e : ℕ)
      → e < t.num_experts
      → victim sort block_e block_s t topk e ≡ Table.victim reference t topk e
  unfolding victim Table.victim
  victim-victim e le =
      order-order (min (rank_in (miss t topk) e) (t.num_slots - 1)) (omega (arith, c.positive))
      ∙ ap (λ r. reference.order t.num_slots (Table.key t topk) (min r (t.num_slots - 1)))
          (rank-rank e le)

  slot_after-slot_after :
      (e : ℕ)
      → e < t.num_experts
      → slot_after sort block_e block_s t topk e ≡ Table.slot_after reference t topk e
  unfolding slot_after Table.slot_after
  slot_after-slot_after e le = rw (miss-miss t topk e le, victim-victim e le)

  cleared-cleared :
      (e : ℕ)
      → e < t.num_experts
      → slot_of_cleared sort block_e block_s t topk e ≡ Table.slot_of_cleared reference t topk e
  unfolding slot_of_cleared Table.slot_of_cleared evicted
  cleared-cleared e le =
      lanes-index_put t.num_experts block_e _ _ _ _ _ _ _ t.num_experts e wide_e
        (λ q. absurd (omega arith)) refl (λ i ge. rw (miss-outside t topk i ge))
        (λ i lt m. ground (arith, miss-miss t topk i lt, victim-victim i lt))
        (λ i lt m. ground (arith, miss-miss t topk i lt, victim-victim i lt))

  slot_of-slot_of :
      (e : ℕ)
      → e < t.num_experts
      → slot_of_after sort block_e block_s t topk e ≡ Table.slot_of_after reference t topk e
  unfolding slot_of_after Table.slot_of_after
  slot_of-slot_of e le =
      lanes-index_put t.num_experts block_e _ _ _ _ _ _ _ t.num_experts e wide_e
        (λ q. absurd (omega arith)) (cleared-cleared e le) (miss-outside t topk)
        (λ i lt m. ground (arith, miss-miss t topk i lt, victim-victim i lt))
        (λ i lt m. ground (arith, miss-miss t topk i lt))

  expert_in-expert_in :
      (s : ℕ)
      → s < t.num_slots
      → expert_in_after sort block_e block_s t topk s ≡ Table.expert_in_after reference t topk s
  unfolding expert_in_after Table.expert_in_after
  expert_in-expert_in s ls =
      lanes-index_put t.num_experts block_e _ _ _ _ _ _ _ t.num_slots s wide_e
        (λ q. absurd (omega arith)) refl (miss-outside t topk)
        (λ i lt m. ground (arith, miss-miss t topk i lt, victim-victim i lt))
        (λ i lt m. ground (arith, miss-miss t topk i lt))

  -- Where the kernel stores a stamp the slot is no -1, so the reference writes there too.
  slot_after-at :
      (e : ℕ)
      → e < t.num_experts
      → need_mask t topk e ≡ true
      → at t.num_slots (Table.slot_after reference t topk e)
        ≡ clamp (Table.slot_after reference t topk e)
  unfolding Table.slot_after
  slot_after-at e le ne = elim (Bool-cases (Table.miss t topk e)) [
    | inl me ↦ rw me
    | inr he ↦ let (s, q) = cached_of_not-miss t topk e ne he in rw (he, q)
  ]

  last_used-last_used :
      (s : ℕ)
      → s < t.num_slots
      → last_used_after sort block_e block_s t topk s ≡ Table.last_used_after reference t topk s
  unfolding last_used_after Table.last_used_after
  last_used-last_used s ls =
      lanes-index_put t.num_experts block_e _ _ _ _ _ _ _ t.num_slots s wide_e
        (λ q. absurd (omega arith)) refl (need-outside t topk)
        (λ i lt m.
          let ne = sym (need-need_mask t topk i lt) ∙ m in
          (rw ne (slot_after-at i lt ne ∙ ap clamp (sym (slot_after-slot_after i lt))), refl))
        (λ i lt m. ground (arith, need-need_mask t topk i lt))

  count-count :
      (mask mask' : ℕ → Bool)
      → ((i : ℕ) → t.num_experts ≤ i → mask i ≡ false)
      → ((i : ℕ) → i < t.num_experts → mask i ≡ mask' i)
      → count mask block_e ≡ count mask' t.num_experts
  count-count mask mask' beyond agree =
      let split : block_e - t.num_experts + t.num_experts ≡ block_e = omega arith in
      ap (count mask) (sym split)
      ∙ count-beyond mask t.num_experts (block_e - t.num_experts) beyond
      ∙ count-ext mask mask' t.num_experts agree

  -- A store by the lanes of the experts writes each expert's value.
  lanes-value :
      {A : Type 0} (val : ℕ → A) (mask : ℕ → Bool) (old : ℕ → A) (e : ℕ)
      → e < t.num_experts
      → ((i : ℕ) → mask i ≡ ltb i t.num_experts)
      → store block_e (λ i. i) val mask old e ≡ val e
  lanes-value val mask old e le lanes =
      lanes-index_put t.num_experts block_e _ (λ i. i) _ val _ _ old t.num_experts e wide_e
        (λ q. absurd (omega arith)) refl (λ i ge. ground (arith, lanes i)) (λ i lt m. (refl, refl))
        (λ i lt m. absurd (ground (arith, lanes i)))
      ∙ index_put_hit t.num_experts (λ i. i) val old e e le refl (λ k lk q. q)

  todo-todo :
      (todo : ℕ → Option ℕ) (i : ℕ)
      → length topk ≤ t.num_experts
      → i < length topk
      → store block_e
          (rank_in (miss t topk))
          (λ e. some e)
          (miss t topk)
          (store block_e (λ e. e) (λ _. none) (λ e. ltb e (length topk)) todo)
          i
        ≡ packed t.num_experts (Table.miss t topk) (length topk) i
  unfolding packed
  todo-todo todo i short li =
      lanes-index_put t.num_experts block_e _ _ _ _ _ _ _ (length topk) i wide_e
        (λ q. absurd (omega arith)) cleared (miss-outside t topk)
        (λ k lt m. ground (arith, miss-miss t topk k lt, rank-rank k lt))
        (λ k lt m. ground (arith, miss-miss t topk k lt))
    where
      cleared : store block_e (λ e. e) (λ _. none) (λ e. ltb e (length topk)) todo i ≡ none
      cleared =
          lanes-index_put (length topk) block_e _ (λ e. e) _ (λ _. none) _ _ todo (length topk) i
            (omega arith) (λ q. absurd (omega arith)) refl (λ k ge. ground arith)
            (λ k lt m. (refl, refl)) (λ k lt m. absurd (ground arith))
          ∙ index_put_same (length topk) (λ e. e) none todo i i li refl

  map-map :
      (write_map : Bool) (map : ℕ → Option ℕ) (e : ℕ)
      → e < t.num_experts
      → store block_e
          (λ i. i)
          (λ i. if need t topk i then slot_after sort block_e block_s t topk i else none)
          (λ i. write_map && ltb i t.num_experts)
          map
          e
        ≡ (if write_map
            then (if need_mask t topk e then Table.slot_after reference t topk e else none)
            else map e)
  map-map true map e le =
      lanes-value _ _ map e le (λ i. refl)
      ∙ ap₂ (λ (b : Bool) (s : Option ℕ). if b then s else none) (need-need_mask t topk e le)
          (slot_after-slot_after e le)
  map-map false map e le = store-off block_e _ _ _ map e (λ i. refl)

  -- One program of the kernel leaves what the reference returns and writes: the table at every index
  -- in range, the counters, the slots and the list of experts to load; and the map, which the program
  -- without `WRITE_MAP` leaves as it was.
  pub acquire-Matches :
      (write_map : Bool) (map slot todo : ℕ → Option ℕ)
      → length topk ≤ t.num_experts
      → Matches t.num_experts t.num_slots
          (length topk)
          write_map
          map
          (acquire sort block_e block_s t topk write_map map slot todo)
          (Table.acquire reference t topk)
  unfolding acquire Table.acquire
  acquire-Matches write_map map slot todo short = record {
    slot_of = slot_of-slot_of;
    expert_in = expert_in-expert_in;
    last_used = last_used-last_used;
    step = refl;
    hits =
        ap (λ n. t.hits + n)
          (count-count (hit t topk) (Table.hit t topk) (hit-outside t topk) (hit-hit t topk));
    misses =
        ap (λ n. t.misses + n)
          (count-count (miss t topk) (Table.miss t topk) (miss-outside t topk) (miss-miss t topk));
    map_after = map-map write_map map;
    slot = λ e le. lanes-value _ _ slot e le (λ i. refl) ∙ slot_after-slot_after e le;
    todo = λ i li. todo-todo todo i short li;
  }
