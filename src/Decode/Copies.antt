-- ===== src/Decode/Copies.antt =====
-- The reads and the two gathers of a decode step, row by row.
use vllm_expert_pager.Base.{
  ℕ, zero, suc, ◌+◌, ◌<◌, ◌≡◌, ◌⊎◌, inl, inr, refl, sym, ap, ◌∙◌, Bool, true, false, Option, none,
  some, arith, Bool-cases, Option-cases, ℕ_discrete, if◌then◌else◌, same, same-some, same_self,
}
use vllm_expert_pager.Tensor.Put.{update}
use vllm_expert_pager.Table.{clamp}
use vllm_expert_pager.Decode.{
  Slabs, put_entry, put_list, listed, skipping, read_rows, first_gather, second_gather,
}
use vllm_expert_pager.Decode.Tiers.{Tier}

-- A row holds `v` after a list of writes, if every write to it is of `v`, and one of them is in the
-- list or the row held `v` before.
put_list-value :
    (n : ℕ) (l : ℕ → Option ℕ) (dst : ℕ → ℕ) (value : ℕ → ℕ → Option ℕ) (m : ℕ → Option ℕ) (r : ℕ)
    (v : Option ℕ)
    → ((j e : ℕ) → j < n → l j ≡ some e → dst e ≡ r → value j e ≡ v)
    → ((j : ℕ) × (e : ℕ) × (j < n) × (l j ≡ some e) × (dst e ≡ r)) ⊎ (m r ≡ v)
    → put_list n l dst value m r ≡ v
unfolding put_list put_entry update
put_list-value zero l dst value m r v agree (inl (j, e, lj, _, _)) = absurd (omega arith)
put_list-value zero l dst value m r v agree (inr h) = h
put_list-value (suc n) l dst value m r v agree found = elim (Option-cases (l n)) [
  | inl q ↦ rw q (
      put_list-value n l dst value m r v (λ j e lj. agree j e (omega arith))
        (elim found [
          | inr h ↦ inr h
          | inl (j, e, lj, at_j, at_r) ↦ elim (ℕ_discrete j n) [
            | yes here ↦ absurd (ground (arith, ap l here))
            | no other ↦ inl (j, e, omega arith, at_j, at_r)
          ]
        ]))
  | inr (f, q) ↦ elim (ℕ_discrete (dst f) r) [
    | yes hits ↦ rw q (ground (arith, agree n f (omega arith) q hits))
    | no misses ↦
        let rest : put_list n l dst value m r ≡ v =
          put_list-value n l dst value m r v (λ j e lj. agree j e (omega arith))
            (elim found [
              | inr h ↦ inr h
              | inl (j, e, lj, at_j, at_r) ↦ elim (ℕ_discrete j n) [
                | yes here ↦
                    let who : e ≡ f = ground (arith, ap l here) in
                    absurd (misses (ap dst (sym who) ∙ at_r))
                | no other ↦ inl (j, e, omega arith, at_j, at_r)
              ]
            ]) in
        rw q (ground (arith, rest))
  ]
]

listed_cases :
    (n : ℕ) (l : ℕ → Option ℕ) (e : ℕ)
    → ((i : ℕ) × (i < n) × (l i ≡ some e)) ⊎ (listed n l (some e) ≡ false)
unfolding listed
listed_cases zero l e = inr refl
listed_cases (suc n) l e = elim (listed_cases n l e) [
  | inl (i, li, q) ↦ inl (i, omega arith, q)
  | inr out ↦ elim (Bool-cases (same (l n) (some e))) [
    | inl q ↦ inl (n, omega arith, same-some (l n) e q)
    | inr no_ ↦ inr (rw (out, no_) refl)
  ]
]

listed-some :
    (n : ℕ) (l : ℕ → Option ℕ) (i e : ℕ) → i < n → l i ≡ some e → listed n l (some e) ≡ true
unfolding listed
listed-some zero l i e li q = absurd (omega arith)
listed-some (suc n) l i e li q = elim (ℕ_discrete i n) [
  | yes here ↦ ground (arith, ap l here, q, same_self (some e))
  | no other ↦ ground (arith, listed-some n l i e (omega arith) q)
]

module _ (E K base : ℕ) (need : ℕ → Bool)
    (vram_before vram_after vram_slot todo ram_before ram_after ram_slot ssd : ℕ → Option ℕ)
    (vram : Tier E K need vram_before vram_after vram_slot todo)
    (ram : Tier E K need ram_before ram_after ram_slot ssd) (rows cache : ℕ → Option ℕ)
    (rows_true : (e s : ℕ) → e < E → ram_before e ≡ some s → rows (s + base) ≡ some e)
    (cache_true : (e s : ℕ) → e < E → vram_before e ≡ some s → cache s ≡ some e) where
  abbrev dst : ℕ → ℕ
  dst e = clamp (vram_slot e)

  abbrev src : ℕ → ℕ
  src e = clamp (ram_slot e) + base

  -- A needed expert is read to its row of the RAM tier, and copied to its row of the cache slab.
  src-row : (e s : ℕ) → e < E → need e ≡ true → ram_after e ≡ some s → src e ≡ s + base
  src-row e s le ne at = let (r, at', named) = ram.named e le ne in ground arith

  dst-row : (e s : ℕ) → e < E → need e ≡ true → vram_after e ≡ some s → dst e ≡ s
  dst-row e s le ne at = let (r, at', named) = vram.named e le ne in ground arith

  src-alone :
      (e f s : ℕ) → e < E → ram_after e ≡ some s → f < E → need f ≡ true → src f ≡ s + base → f ≡ e
  src-alone e f s le at lf nf here =
      let (r, at', named) = ram.named f lf nf in
      let slots : r ≡ s = ground arith in ram.alone f e s lf le (at' ∙ ap some slots) at

  dst-alone :
      (e f s : ℕ) → e < E → vram_after e ≡ some s → f < E → need f ≡ true → dst f ≡ s → f ≡ e
  dst-alone e f s le at lf nf here =
      let (r, at', named) = vram.named f lf nf in
      let slots : r ≡ s = ground arith in vram.alone f e s lf le (at' ∙ ap some slots) at

  agree-rows :
      (landed : ℕ → Bool) (e s : ℕ)
      → e < E
      → ram_after e ≡ some s
      → (j f : ℕ) → j < K
      → (if landed j then ssd j else none) ≡ some f
      → src f ≡ s + base
      → ◌≡◌ {A = Option ℕ} (some f) (some e)
  agree-rows landed e s le at j f lj entry here =
      let in_list : ssd j ≡ some f = ground arith in
      let (lf, nf, _) = ram.missed j f lj in_list in ap some (src-alone e f s le at lf nf here)

  -- When all reads have landed, the RAM tier is true of its new table.
  pub rows-after :
      (e s : ℕ)
      → e < E
      → ram_after e ≡ some s
      → read_rows K todo ssd dst src (λ _. true) rows (s + base) ≡ some e
  unfolding read_rows
  rows-after e s le at =
      put_list-value K ssd src (λ _ f. some f) rows (s + base) (some e)
        (agree-rows (λ _. true) e s le at)
        (elim (ram.loaded e s le at) [
          | inl (i, li, q) ↦
              let (_, ne, _) = ram.missed i e li q in inl (i, e, li, q, src-row e s le ne at)
          | inr held ↦ inr (rows_true e s le held)
        ])

  -- The row of a needed expert that is not read is right, whatever has landed.
  rows-meanwhile :
      (landed : ℕ → Bool) (e s : ℕ)
      → e < E
      → ram_after e ≡ some s
      → listed K ssd (some e) ≡ false
      → read_rows K todo ssd dst src landed rows (s + base) ≡ some e
  unfolding read_rows
  rows-meanwhile landed e s le at out =
      put_list-value K (λ i. if landed i then ssd i else none) src (λ _ f. some f) rows (s + base)
        (some e) (agree-rows landed e s le at)
        (elim (ram.loaded e s le at) [
          | inl (i, li, q) ↦ absurd (ground (arith, listed-some K ssd i e li q))
          | inr held ↦ inr (rows_true e s le held)
        ])

  module _ (landed : ℕ → ℕ → Bool) where
    abbrev middle : Slabs
    middle = first_gather K todo ssd dst src landed (record { rows = rows; cache = cache })

    -- After the first launch the experts that were not read stand in their rows.
    cache-middle :
        (e s : ℕ)
        → e < E
        → vram_after e ≡ some s
        → listed K ssd (some e) ≡ false
        → middle.cache s ≡ some e
    unfolding first_gather
    cache-middle e s le at out =
        put_list-value K (skipping K ssd todo) dst
          (λ j f. read_rows K todo ssd dst src (landed j) rows (src f)) cache s (some e) agree found
      where
        agree :
            (j f : ℕ)
            → j < K
            → skipping K ssd todo j ≡ some f
            → dst f ≡ s
            → read_rows K todo ssd dst src (landed j) rows (src f) ≡ some e
        agree j f lj entry here =
            let in_list : todo j ≡ some f = ground arith in
            let (lf, nf, _) = vram.missed j f lj in_list in
            let who : f ≡ e = dst-alone e f s le at lf nf here in
            let ne : need e ≡ true = ap need (sym who) ∙ nf in
            let (r, at_r, _) = ram.named e le ne in
            ap (read_rows K todo ssd dst src (landed j) rows) (ap src who ∙ src-row e r le ne at_r)
            ∙ rows-meanwhile (landed j) e r le at_r out

        found :
            ((j : ℕ) × (f : ℕ) × (j < K) × (skipping K ssd todo j ≡ some f) × (dst f ≡ s))
            ⊎ (cache s ≡ some e)
        found = elim (vram.loaded e s le at) [
          | inr held ↦ inr (cache_true e s le held)
          | inl (j, lj, q) ↦
              let (_, ne, _) = vram.missed j e lj q in
              let kept : listed K ssd (todo j) ≡ false = ap (listed K ssd) q ∙ out in
              inl (j, e, lj, ground arith, dst-row e s le ne at)
        ]

    -- After both launches every expert of the VRAM table stands in its row.
    pub cache-after :
        (e s : ℕ)
        → e < E
        → vram_after e ≡ some s
        → (second_gather K todo ssd dst src middle).cache s ≡ some e
    unfolding second_gather first_gather
    cache-after e s le at =
        put_list-value K ssd dst (λ j f. middle.rows (src f)) middle.cache s (some e) agree
          (elim (listed_cases K ssd e) [
            | inl (i, li, q) ↦
                let (_, ne, _) = ram.missed i e li q in inl (i, e, li, q, dst-row e s le ne at)
            | inr out ↦ inr (cache-middle e s le at out)
          ])
      where
        agree : (j f : ℕ) → j < K → ssd j ≡ some f → dst f ≡ s → middle.rows (src f) ≡ some e
        agree j f lj entry here =
            let (lf, nf, _) = ram.missed j f lj entry in
            let who : f ≡ e = dst-alone e f s le at lf nf here in
            let ne : need e ≡ true = ap need (sym who) ∙ nf in
            let (r, at_r, _) = ram.named e le ne in
            ap middle.rows (ap src who ∙ src-row e r le ne at_r) ∙ rows-after e r le at_r

    pub rows-end :
        (e s : ℕ)
        → e < E
        → ram_after e ≡ some s
        → (second_gather K todo ssd dst src middle).rows (s + base) ≡ some e
    unfolding second_gather first_gather
    rows-end e s le at = rows-after e s le at
