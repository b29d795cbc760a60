-- ===== src/Tensor/Put.antt =====
-- `index_put_` and `index_fill_`: writes at given indices, in order, the last one staying.
use native.Mathlib.Nat.{zero-add, suc-add}
use vllm_expert_pager.Base.{
  ℕ, zero, suc, ◌+◌, ◌≤◌, ◌+◌, ◌-◌, ◌<◌, ◌≡◌, refl, sym, ◌∙◌, ◌-◌, ◌≢◌, inl, inr, Bool, true, false,
  List, [], ◌∷◌, arith, ◌==◌, if◌then◌else◌, Bool-cases, ℕ_discrete, ap,
}

module _ {ℓ} {A : Type ℓ} where
  -- `t[i] = v`
  unfoldable pub update : (ℕ → A) → ℕ → A → ℕ → A
  update t i v j = if i == j then v else t j

  -- `t.index_put_((idx,), val)` for index tensors of length `n`.
  unfoldable pub index_put : ℕ → (ℕ → ℕ) → (ℕ → A) → (ℕ → A) → ℕ → A
  unfolding update
  index_put zero idx val t = t
  index_put (suc n) idx val t = update (index_put n idx val t) (idx n) (val n)

  -- `t.index_fill_(0, idx, v)` for a list of indices.
  unfoldable pub index_fill : List ℕ → A → (ℕ → A) → ℕ → A
  unfolding update
  index_fill [] v t = t
  index_fill (i ∷ is) v t = update (index_fill is v t) i v

  -- A cell that no index names keeps its value.
  pub index_put_miss :
      (n : ℕ) (idx : ℕ → ℕ) (val : ℕ → A) (t : ℕ → A) (j : ℕ)
      → ((i : ℕ) → i < n → idx i ≢ j)
      → index_put n idx val t j ≡ t j
  unfolding index_put
  index_put_miss zero idx val t j h = refl
  index_put_miss (suc n) idx val t j h =
      let apart : idx n ≢ j = h n (omega arith) in
      let rest = index_put_miss n idx val t j (λ i lt. h i (omega arith)) in
      ground (arith, apart, rest)

  -- A cell that only write `i` names holds its value.
  pub index_put_hit :
      (n : ℕ) (idx : ℕ → ℕ) (val : ℕ → A) (t : ℕ → A) (i : ℕ) (j : ℕ)
      → i < n
      → idx i ≡ j
      → ((k : ℕ) → k < n → idx k ≡ j → k ≡ i)
      → index_put n idx val t j ≡ val i
  unfolding index_put
  index_put_hit zero idx val t i j lt e h = elim lt [ ]
  index_put_hit (suc n) idx val t i j lt e h = elim (ℕ_discrete n i) [
    | yes p ↦ ground arith
    | no p ↦
        let apart : idx n ≢ j = λ q. p (h n (omega arith) q) in
        let rest = index_put_hit n idx val t i j (omega arith) e (λ k lk. h k (omega arith)) in
        ground (arith, apart, rest)
  ]

  -- A cell that some index names holds the value, when all writes have the same.
  pub index_put_same :
      (n : ℕ) (idx : ℕ → ℕ) (v : A) (t : ℕ → A) (i j : ℕ)
      → i < n
      → idx i ≡ j
      → index_put n idx (λ _. v) t j ≡ v
  unfolding index_put
  index_put_same zero idx v t i j lt e = elim lt [ ]
  index_put_same (suc n) idx v t i j lt e = elim (ℕ_discrete i n) [
    | yes p ↦ ground (arith, ap idx p)
    | no p ↦ let rest = index_put_same n idx v t i j (omega arith) e in ground (arith, rest)
  ]

  -- `tl.store(t + idx, val, mask=mask)` by `n` lanes: a lane that is masked off writes nothing.
  unfoldable pub store : ℕ → (ℕ → ℕ) → (ℕ → A) → (ℕ → Bool) → (ℕ → A) → ℕ → A
  unfolding update
  store zero idx val mask t = t
  store (suc n) idx val mask t =
      let rest = store n idx val mask t in if mask n then update rest (idx n) (val n) else rest

  -- Away from the sink a masked store is an `index_put_` that sends the other lanes to the sink.
  pub store-index_put :
      (n : ℕ) (idx idx' : ℕ → ℕ) (val val' : ℕ → A) (mask : ℕ → Bool) (t : ℕ → A) (sink j : ℕ)
      → j ≢ sink
      → ((i : ℕ) → i < n → mask i ≡ true → (idx' i ≡ idx i) × (val' i ≡ val i))
      → ((i : ℕ) → i < n → mask i ≡ false → idx' i ≡ sink)
      → store n idx val mask t j ≡ index_put n idx' val' t j
  unfolding store index_put
  store-index_put zero idx idx' val val' mask t sink j ne on off = refl
  store-index_put (suc n) idx idx' val val' mask t sink j ne on off =
      let rest =
        store-index_put n idx idx' val val' mask t sink j ne (λ i lt. on i (omega arith))
          (λ i lt. off i (omega arith)) in
      elim (Bool-cases (mask n)) [
        | inl m ↦ let (same_idx, same_val) = on n (omega arith) m in ground (arith, rest)
        | inr m ↦
            let out = off n (omega arith) m in
            let apart : n ≢ suc n = λ e. absurd (omega arith) in ground (arith, rest)
      ]

  -- Lanes that are masked off from `m` on change nothing.
  pub store-beyond :
      (m d : ℕ) (idx : ℕ → ℕ) (val : ℕ → A) (mask : ℕ → Bool) (t : ℕ → A) (j : ℕ)
      → ((i : ℕ) → m ≤ i → mask i ≡ false)
      → store (d + m) idx val mask t j ≡ store m idx val mask t j
  unfolding store
  store-beyond m zero idx val mask t j off = rw zero-add
  store-beyond m (suc d) idx val mask t j off =
      rw (suc-add, store) (rw (off (d + m) (omega arith)) (store-beyond m d idx val mask t j off))

  -- A cell depends on the tensor that is written to only at its own index.
  pub index_put-base :
      (n : ℕ) (idx : ℕ → ℕ) (val : ℕ → A) (t u : ℕ → A) (j : ℕ)
      → t j ≡ u j
      → index_put n idx val t j ≡ index_put n idx val u j
  unfolding index_put
  index_put-base zero idx val t u j e = e
  index_put-base (suc n) idx val t u j e = ground (arith, index_put-base n idx val t u j e)

  -- A masked store by at least `m` lanes, of which none from `m` on is active, as an `index_put_`.
  pub lanes-index_put :
      (m n : ℕ) (idx idx' : ℕ → ℕ) (val val' : ℕ → A) (mask : ℕ → Bool) (t u : ℕ → A) (sink j : ℕ)
      → m ≤ n
      → j ≢ sink
      → t j ≡ u j
      → ((i : ℕ) → m ≤ i → mask i ≡ false)
      → ((i : ℕ) → i < m → mask i ≡ true → (idx' i ≡ idx i) × (val' i ≡ val i))
      → ((i : ℕ) → i < m → mask i ≡ false → idx' i ≡ sink)
      → store n idx val mask t j ≡ index_put m idx' val' u j
  lanes-index_put m n idx idx' val val' mask t u sink j le ne e beyond on off =
      let split : n - m + m ≡ n = omega arith in
      ap (λ k. store k idx val mask t j) (sym split)
      ∙ store-beyond m (n - m) idx val mask t j beyond
      ∙ store-index_put m idx idx' val val' mask t sink j ne on off
      ∙ index_put-base m idx' val' t u j e

  pub store-off :
      (n : ℕ) (idx : ℕ → ℕ) (val : ℕ → A) (mask : ℕ → Bool) (t : ℕ → A) (j : ℕ)
      → ((i : ℕ) → mask i ≡ false)
      → store n idx val mask t j ≡ t j
  unfolding store
  store-off zero idx val mask t j off = refl
  store-off (suc n) idx val mask t j off = rw (off n) (store-off n idx val mask t j off)
