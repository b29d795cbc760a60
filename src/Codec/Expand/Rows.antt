-- ===== src/Codec/Expand/Rows.antt =====
-- The slabs after `decode_rows`.
use native.Mathlib.Nat.{suc-add, add_comm}
use vllm_expert_pager.Base.{
  ℕ, zero, suc, ◌+◌, ◌-◌, ◌/◌, ◌≤◌, ◌<◌, ◌≡◌, ◌≢◌, ◌⊎◌, refl, ap, ◌∙◌, inl, inr, true, false,
  Bool-cases, arith, Option, none, some, ltb, ◌==◌, ℕ_discrete,
}
use vllm_expert_pager.Tensor.Put.{update}
use vllm_expert_pager.Codec.Decode.{word32, store_group, store_groups}
use vllm_expert_pager.Codec.Expand.{
  groups, Slabs, target, expand, expand_target, program, entry, entries, decode_rows,
}

update-here : {A : Type 0} (t : ℕ → A) (i : ℕ) (v : A) → update t i v i ≡ v
unfolding update
update-here t i v = let same : (i == i) ≡ true = ground arith in rw same refl

update-other : {A : Type 0} (t : ℕ → A) (i j : ℕ) (v : A) → i ≢ j → update t i v j ≡ t j
unfolding update
update-other t i j v ne = let apart : (i == j) ≡ false = ground arith in rw apart refl

target-cases : (o : Option (ℕ × ℕ)) → (o ≡ none) ⊎ ((e : ℕ) × (r : ℕ) × (o ≡ some (e, r)))
target-cases none = inl refl
target-cases (some (e, r)) = inr (e, r, refl)

module _ (K : ℕ) (todo dst_row cache_row : ℕ → Option ℕ) (stg0 stg1 : ℕ → ℕ → ℕ)
    (lut : ℕ → ℕ → ℕ → ℕ) (skip : Option (ℕ → Option ℕ)) (chunk N0 N1 : ℕ) where
  abbrev target_of : ℕ → Option (ℕ × ℕ)
  target_of = target K todo dst_row cache_row stg0 stg1 lut skip chunk N0 N1

  abbrev run : ℕ → ℕ → Slabs → Slabs
  run = program K todo dst_row cache_row stg0 stg1 lut skip chunk N0 N1

  abbrev run_entry : ℕ → ℕ → Slabs → Slabs
  run_entry = entry K todo dst_row cache_row stg0 stg1 lut skip chunk N0 N1

  abbrev G0 : ℕ
  G0 = groups N0 chunk

  abbrev G1 : ℕ
  G1 = groups N1 chunk

  -- The rows of a slab that an entry does not write.
  unfoldable pub Apart : ℕ → ℕ → Type 0
  Apart i row = (e r : ℕ) → target_of i ≡ some (e, r) → r ≢ row

  abbrev one : ℕ → ℕ → ℕ → ℕ → Slabs → Slabs
  one = expand K todo dst_row cache_row stg0 stg1 lut skip chunk N0 N1

  abbrev chosen : Option (ℕ × ℕ) → ℕ → ℕ → Slabs → Slabs
  chosen = expand_target K todo dst_row cache_row stg0 stg1 lut skip chunk N0 N1

  program-none : (i g : ℕ) (s : Slabs) → target_of i ≡ none → run i g s ≡ s
  unfolding program
  program-none i g s q = ap (λ (o : Option (ℕ × ℕ)). chosen o i g s) q

  program-some :
      (i g e row : ℕ) (s : Slabs) → target_of i ≡ some (e, row) → run i g s ≡ one i g e row s
  unfolding program
  program-some i g e row s q = ap (λ (o : Option (ℕ × ℕ)). chosen o i g s) q

  expand-other :
      (i g e r row : ℕ) (s : Slabs)
      → r ≢ row
      → ((one i g e r s).rows0 row ≡ s.rows0 row) × ((one i g e r s).rows1 row ≡ s.rows1 row)
  unfolding expand
  expand-other i g e r row s ne = elim (Bool-cases (ltb g G0)) [
    | inl first ↦ rw first (update-other s.rows0 r row _ ne, refl)
    | inr second ↦ rw second (refl, update-other s.rows1 r row _ ne)
  ]

  abbrev pub Same : ℕ → Slabs → Slabs → Type 0
  Same row s t = (s.rows0 row ≡ t.rows0 row) × (s.rows1 row ≡ t.rows1 row)

  program-other : (i g row : ℕ) (s : Slabs) → Apart i row → Same row (run i g s) s
  unfolding Apart
  program-other i g row s apart = elim (target-cases (target_of i)) [
    | inl none_ ↦ (
      ap (λ (t : Slabs). t.rows0 row) (program-none i g s none_),
      ap (λ (t : Slabs). t.rows1 row) (program-none i g s none_),
    )
    | inr (e, r, q) ↦
        let (first, second) = expand-other i g e r row s (apart e r q) in
        (
          ap (λ (t : Slabs). t.rows0 row) (program-some i g e r s q) ∙ first,
          ap (λ (t : Slabs). t.rows1 row) (program-some i g e r s q) ∙ second,
        )
  ]

  entry-other : (i n row : ℕ) (s : Slabs) → Apart i row → Same row (run_entry i n s) s
  unfolding entry
  entry-other i zero row s apart = (refl, refl)
  entry-other i (suc g) row s apart =
      let (first, second) = program-other i g row (run_entry i g s) apart in
      let (before0, before1) = entry-other i g row s apart in (first ∙ before0, second ∙ before1)

  module _ (j e row : ℕ) (here : target_of j ≡ some (e, row)) where
    first-groups :
        (n : ℕ) (s : Slabs)
        → n ≤ G0
        → ((run_entry j n s).rows0 row ≡ store_groups (lut e 0) (stg0 j) G0 chunk n (s.rows0 row))
          × ((run_entry j n s).rows1 row ≡ s.rows1 row)
    unfolding entry store_groups expand
    first-groups zero s le = (refl, refl)
    first-groups (suc g) s le =
        let (row0, row1) = first-groups g s (omega arith) in
        let now = program-some j g e row (run_entry j g s) here in
        let low : ltb g G0 ≡ true = ground arith in
        (
          ap (λ (t : Slabs). t.rows0 row) now
              ∙ rw low (
                  update-here (run_entry j g s).rows0 row _
                  ∙ ap (store_group (lut e 0) (stg0 j) G0 chunk g (word32 (stg0 j) g) (chunk / 8))
                      row0),
          ap (λ (t : Slabs). t.rows1 row) now ∙ rw low row1,
        )

    second-groups :
        (n : ℕ) (s : Slabs)
        → ((run_entry j (n + G0) s).rows0 row
            ≡ store_groups (lut e 0) (stg0 j) G0 chunk G0 (s.rows0 row))
          × ((run_entry j (n + G0) s).rows1 row
              ≡ store_groups (lut e 1) (stg1 j) G1 chunk n (s.rows1 row))
    unfolding entry store_groups expand
    second-groups zero s =
        let (row0, row1) = first-groups G0 s (omega arith) in
        let start : 0 + G0 ≡ G0 = omega arith in
        (
          ap (λ (n : ℕ). (run_entry j n s).rows0 row) start ∙ row0,
          ap (λ (n : ℕ). (run_entry j n s).rows1 row) start ∙ row1,
        )
    second-groups (suc n) s =
        let (row0, row1) = second-groups n s in
        let t = run_entry j (n + G0) s in
        let next : run_entry j (suc n + G0) s ≡ run j (n + G0) t =
          ap (λ (k : ℕ). run_entry j k s) (suc-add n G0) in
        let now = next ∙ program-some j (n + G0) e row t here in
        let high : ltb (n + G0) G0 ≡ false = ground arith in
        let group : n + G0 - G0 ≡ n = omega arith in
        (
          ap (λ (t : Slabs). t.rows0 row) now ∙ rw high row0,
          ap (λ (t : Slabs). t.rows1 row) now
              ∙ rw high (
                  update-here t.rows1 row _
                  ∙ ap
                      (λ (k : ℕ).
                        store_group (lut e 1) (stg1 j) G1 chunk k (word32 (stg1 j) k) (chunk / 8)
                          (t.rows1 row))
                      group
                  ∙ ap (store_group (lut e 1) (stg1 j) G1 chunk n (word32 (stg1 j) n) (chunk / 8))
                      row1),
        )

  abbrev run_entries : ℕ → Slabs → Slabs
  run_entries = entries K todo dst_row cache_row stg0 stg1 lut skip chunk N0 N1

  entries-other :
      (n row : ℕ) (s : Slabs) → ((i : ℕ) → i < n → Apart i row) → Same row (run_entries n s) s
  unfolding entries
  entries-other zero row s apart = (refl, refl)
  entries-other (suc i) row s apart =
      let (now0, now1) = entry-other i (G0 + G1) row (run_entries i s) (apart i (omega arith)) in
      let (before0, before1) = entries-other i row s (λ k lk. apart k (omega arith)) in
      (now0 ∙ before0, now1 ∙ before1)

  -- A row that one entry writes is expanded from that entry's record, whatever the other rows are.
  entries-target :
      (n j e row : ℕ) (s : Slabs)
      → j < n
      → target_of j ≡ some (e, row)
      → ((i : ℕ) → i < n → i ≢ j → Apart i row)
      → ((run_entries n s).rows0 row ≡ store_groups (lut e 0) (stg0 j) G0 chunk G0 (s.rows0 row))
        × ((run_entries n s).rows1 row ≡ store_groups (lut e 1) (stg1 j) G1 chunk G1 (s.rows1 row))
  unfolding entries
  entries-target zero j e row s lj here apart = absurd (omega arith)
  entries-target (suc i) j e row s lj here apart = elim (ℕ_discrete i j) [
    | yes q ↦
        let (before0, before1) =
          entries-other i row s (λ k lk. apart k (omega arith) (λ r. omega (arith, q, r))) in
        let (now0, now1) = second-groups i e row (ap target_of q ∙ here) G1 (run_entries i s) in
        let order : G0 + G1 ≡ G1 + G0 = add_comm G0 G1 in
        (
          ap (λ (k : ℕ). (run_entry i k (run_entries i s)).rows0 row) order
              ∙ now0
              ∙ ap (store_groups (lut e 0) (stg0 i) G0 chunk G0) before0
              ∙ ap (λ (k : ℕ). store_groups (lut e 0) (stg0 k) G0 chunk G0 (s.rows0 row)) q,
          ap (λ (k : ℕ). (run_entry i k (run_entries i s)).rows1 row) order
              ∙ now1
              ∙ ap (store_groups (lut e 1) (stg1 i) G1 chunk G1) before1
              ∙ ap (λ (k : ℕ). store_groups (lut e 1) (stg1 k) G1 chunk G1 (s.rows1 row)) q,
        )
    | no ne ↦
        let (now0, now1) =
          entry-other i (G0 + G1) row (run_entries i s) (apart i (omega arith) ne) in
        let (row0, row1) =
          entries-target i j e row s (omega arith) here (λ k lk. apart k (omega arith)) in
        (now0 ∙ row0, now1 ∙ row1)
  ]

  pub decode_rows-target :
      (j e row : ℕ) (s : Slabs)
      → j < K
      → target_of j ≡ some (e, row)
      → ((i : ℕ) → i < K → i ≢ j → Apart i row)
      → ((decode_rows K todo dst_row cache_row stg0 stg1 lut skip chunk N0 N1 s).rows0 row
          ≡ store_groups (lut e 0) (stg0 j) G0 chunk G0 (s.rows0 row))
        × ((decode_rows K todo dst_row cache_row stg0 stg1 lut skip chunk N0 N1 s).rows1 row
            ≡ store_groups (lut e 1) (stg1 j) G1 chunk G1 (s.rows1 row))
  unfolding decode_rows
  decode_rows-target j e row s = entries-target K j e row s

  -- A row that no entry writes stays.
  pub decode_rows-other :
      (row : ℕ) (s : Slabs)
      → ((i : ℕ) → i < K → Apart i row)
      → Same row (decode_rows K todo dst_row cache_row stg0 stg1 lut skip chunk N0 N1 s) s
  unfolding decode_rows
  decode_rows-other row s = entries-other K row s
