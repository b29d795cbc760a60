-- ===== src/Tensor/Ranks.antt =====
-- The position of a key in a sorted list of different keys: the number of keys below it.
use vllm_expert_pager.Base.{
  ℕ, zero, suc, ◌≤◌, ◌<◌, ◌≡◌, sym, ap, ◌∙◌, inl, inr, Bool, true, false, arith, ℕ_discrete, dec_lt,
  Bool-cases,
}
use vllm_expert_pager.Tensor.Count.{count, count-suc}
use vllm_expert_pager.Tensor.Argsort.{AnySort}

-- Between two numbers without a set entry the count stands still.
pub count_still :
    (mask : ℕ → Bool) (a b : ℕ)
    → a ≤ b
    → ((x : ℕ) → a ≤ x → x < b → mask x ≡ false)
    → count mask b ≡ count mask a
unfolding count
count_still mask a zero le off = let q : a ≡ 0 = omega arith in ap (count mask) (sym q)
count_still mask a (suc b) le off = elim (ℕ_discrete a (suc b)) [
  | yes q ↦ ap (count mask) (sym q)
  | no ne ↦
      let rest = count_still mask a b (omega arith) (λ x lo hi. off x lo (omega arith)) in
      ground (arith, rest, off b (omega arith) (omega arith))
]

module _ (sort : AnySort) (n bound : ℕ) (key : ℕ → ℕ) (mask : ℕ → Bool)
    (set : (j : ℕ) → j < n → (mask (key j) ≡ true) × (key j < bound))
    (different : (i j : ℕ) → i < n → j < n → key i ≡ key j → i ≡ j)
    (all : (x : ℕ) → x < bound → mask x ≡ true → (j : ℕ) × (j < n) × (key j ≡ x)) where
  sorted_key : ℕ → ℕ
  sorted_key p = key (sort.order n key p)

  sorted_key-ascending : (i j : ℕ) → i < j → j < n → sorted_key i < sorted_key j
  unfolding sorted_key
  sorted_key-ascending i j lt lj = elim (ℕ_discrete (sorted_key i) (sorted_key j)) [
    | no apart ↦ omega (arith, sort.ascending n key i j lt lj, apart)
    | yes same ↦
        let who =
          different (sort.order n key i) (sort.order n key j) (sort.bounded n key i (omega arith))
            (sort.bounded n key j lj) same in
        absurd (omega (arith, sort.injective n key i j (omega arith) lj who))
  ]

  sorted_key-place : (x : ℕ) → x < bound → mask x ≡ true → (p : ℕ) × (p < n) × (sorted_key p ≡ x)
  unfolding sorted_key
  sorted_key-place x lx mx =
      let (j, lj, q) = all x lx mx in
      let (p, lp, at_p) = sort.onto n key j lj in (p, lp, ap key at_p ∙ q)

  sorted_key-lt : (p : ℕ) → p < n → (mask (sorted_key p) ≡ true) × (sorted_key p < bound)
  unfolding sorted_key
  sorted_key-lt p lp = set (sort.order n key p) (sort.bounded n key p lp)

  rank-of : (p : ℕ) → p < n → count mask (sorted_key p) ≡ p
  unfolding count
  rank-of zero lp = count_still mask 0 (sorted_key 0) (omega arith) (λ x lo hi.
      elim (Bool-cases (mask x)) [
        | inr off ↦ off
        | inl on ↦
            let (j, lj, q) = sorted_key-place x (omega (arith, (sorted_key-lt 0 lp).1)) on in
            elim (ℕ_discrete j 0) [
              | yes here ↦ absurd (omega (arith, ap sorted_key here))
              | no later ↦ absurd (omega (arith, sorted_key-ascending 0 j (omega arith) lj))
            ]
      ])
  rank-of (suc p) lp =
      count_still mask (suc (sorted_key p)) (sorted_key (suc p))
        (sorted_key-ascending p (suc p) (omega arith) lp)
        (λ x lo hi. elim (Bool-cases (mask x)) [
          | inr off ↦ off
          | inl on ↦
              let (j, lj, q) =
                sorted_key-place x (omega (arith, (sorted_key-lt (suc p) lp).1)) on in
              elim (dec_lt j (suc p)) [
                | yes low ↦ elim (ℕ_discrete j p) [
                  | yes here ↦ absurd (omega (arith, ap sorted_key here))
                  | no before ↦
                      absurd (omega (arith, sorted_key-ascending j p (omega arith) (omega arith)))
                ]
                | no high ↦ elim (ℕ_discrete j (suc p)) [
                  | yes here ↦ absurd (omega (arith, ap sorted_key here))
                  | no later ↦
                      absurd (omega (arith, sorted_key-ascending (suc p) j (omega arith) lj))
                ]
              ]
        ])
      ∙ count-suc mask (sorted_key p) (sorted_key-lt p (omega arith)).0
      ∙ omega (arith, rank-of p (omega arith))

  -- The entry whose key is `x` stands at the position of its rank.
  pub ranked_key :
      (x : ℕ)
      → x < bound
      → mask x ≡ true
      → (count mask x < n) × (key (sort.order n key (count mask x)) ≡ x)
  unfolding sorted_key
  ranked_key x lx mx =
      let (p, lp, q) = sorted_key-place x lx mx in
      let rank : count mask x ≡ p = ap (count mask) (sym q) ∙ rank-of p lp in
      (omega arith, ap sorted_key rank ∙ q)
