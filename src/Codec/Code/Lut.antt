-- ===== src/Codec/Code/Lut.antt =====
-- The decoding table of a code whose lengths fill it.
use native.Mathlib.Nat.{one-le-pow, lt_of_mul-lt-mul_right, eq_of_mul-eq-mul_right}
use vllm_expert_pager.Base.{
  ℕ, zero, suc, ◌+◌, ◌-◌, ◌*◌, ◌^◌, ◌≤◌, ◌<◌, ◌≡◌, refl, sym, ap, ◌∙◌, ◌⊎◌, inl, inr, true, arith,
  ℕ_discrete, dec_lt, ltb, Option, none, some, is_some, ok, Bool-cases, subst,
}
use Prim.Native.Nat.{bit_or}
use vllm_expert_pager.Tensor.Put.{update}
use vllm_expert_pager.Tensor.Argsort.{Argsort}
use vllm_expert_pager.Tensor.Sum.{sum_below, sum_below-le, sum_below-find, sum_below-order}
use vllm_expert_pager.Codec.{limit, lut_bytes}
use vllm_expert_pager.Codec.Bits.{
  mirror, mirror-lt, mirror-fields, mirror-mirror, bit_or-fields, bit_or-high_fields, pow-add,
}
use vllm_expert_pager.Codec.Code.{
  order, canon, codes, fill_symbol, fill, full, check_full, make_lut,
}
use vllm_expert_pager.Codec.Code.Canonical.{
  reversed-mirror, width, left, order-injective, code_at-left, canon-turn,
}

-- Lengths that a table of `limit` bits has room for, and that fill it.
pub record IsFull (lengths : ℕ → ℕ) : Type 0 where
  pub short : (s : ℕ) → s < 16 → lengths s ≤ limit
  pub kraft : sum_below (λ s. 2 ^ (limit - lengths s)) 16 ≡ lut_bytes

fields_lt : (c h p w : ℕ) → c < p → h < w → c + h * p < p * w
fields_lt c h p w lc lh = grind arith

module _ (sort : Argsort) (lengths : ℕ → ℕ) (good : IsFull lengths) where
  open good use {short, kraft}

  abbrev spare : ℕ → ℕ
  spare s = 2 ^ (limit - lengths s)

  abbrev used : ℕ → ℕ
  used = left sort lengths short

  left-end : used 16 ≡ lut_bytes
  unfolding order
  left-end =
      sum_below-order spare (order sort lengths) 16 (λ j lj. sort.bounded 16 lengths j lj)
        (λ s ls. sort.onto 16 lengths s ls) (order-injective sort lengths short)
      ∙ kraft

  turn-of : (s : ℕ) → s < 16 → (i : ℕ) × (i < 16) × (order sort lengths i ≡ s)
  unfolding order
  turn-of s ls = sort.onto 16 lengths s ls

  canon-left :
      (i : ℕ)
      → i < 16
      → canon sort lengths 16 (order sort lengths i) * spare (order sort lengths i) ≡ used i
  canon-left i li =
      ap (λ (t : ℕ). t * spare (order sort lengths i)) (canon-turn sort lengths short i li)
      ∙ code_at-left sort lengths short i li

  two_fields : (s : ℕ) → s < 16 → 2 ^ lengths s * spare s ≡ lut_bytes
  two_fields s ls =
      let whole : lengths s + (limit - lengths s) ≡ limit = omega (arith, short s ls) in
      sym (pow-add 2 (lengths s) (limit - lengths s)) ∙ ap (λ (e : ℕ). 2 ^ e) whole

  canon-lt : (s : ℕ) → s < 16 → canon sort lengths 16 s < 2 ^ lengths s
  unfolding sum_below
  canon-lt s ls =
      let (i, li, q) = turn-of s ls in
      let start : canon sort lengths 16 s * spare s ≡ used i =
        subst (λ x. canon sort lengths 16 x * spare x ≡ used i) q (canon-left i li) in
      let wide : used i + spare s ≤ used 16 =
        omega (arith, sum_below-le (width sort lengths short) (suc i) 16 li, ap spare q) in
      let some_spare : 1 ≤ spare s = one-le-pow (limit - lengths s) 2 (omega arith) in
      lt_of_mul-lt-mul_right (spare s) (omega (arith, left-end, two_fields s ls))

  codes-mirror :
      (s : ℕ) → s < 16 → codes sort lengths s ≡ mirror (lengths s) (canon sort lengths 16 s)
  unfolding codes
  codes-mirror s ls = reversed-mirror (lengths s) (canon sort lengths 16 s) (canon-lt s ls)

  pub codes-lt : (s : ℕ) → s < 16 → codes sort lengths s < 2 ^ lengths s
  codes-lt s ls = omega (arith, codes-mirror s ls, mirror-lt (lengths s) (canon sort lengths 16 s))

  -- The numbers that begin with the code of `s`.
  abbrev pub entry : ℕ → ℕ → ℕ
  entry s hi = codes sort lengths s + hi * 2 ^ lengths s

  -- Reversed, they are the interval of the code.
  entry-mirror :
      (s hi : ℕ)
      → s < 16
      → mirror limit (entry s hi)
        ≡ canon sort lengths 16 s * spare s + mirror (limit - lengths s) hi
  entry-mirror s hi ls =
      let whole : lengths s + (limit - lengths s) ≡ limit = omega (arith, short s ls) in
      let back : mirror (lengths s) (codes sort lengths s) ≡ canon sort lengths 16 s =
        ap (mirror (lengths s)) (codes-mirror s ls)
        ∙ mirror-mirror (lengths s) (canon sort lengths 16 s) (canon-lt s ls) in
      ap (λ (k : ℕ). mirror k (entry s hi)) (sym whole)
      ∙ mirror-fields (lengths s) (limit - lengths s) (codes sort lengths s) hi (codes-lt s ls)
      ∙ ap (λ (t : ℕ). t * spare s + mirror (limit - lengths s) hi) back

  entry-lt : (s hi : ℕ) → s < 16 → hi < spare s → entry s hi < lut_bytes
  entry-lt s hi ls lh = omega (
    arith,
    fields_lt (codes sort lengths s) hi (2 ^ lengths s) (spare s) (codes-lt s ls) lh,
    two_fields s ls,
  )

  -- The interval that a number of `s` lies in, reversed.
  in_turn :
      (s hi i : ℕ)
      → s < 16
      → i < 16
      → order sort lengths i ≡ s
      → (used i ≤ mirror limit (entry s hi)) × (mirror limit (entry s hi) < used (suc i))
  unfolding sum_below
  in_turn s hi i ls li q =
      let start : canon sort lengths 16 s * spare s ≡ used i =
        subst (λ x. canon sort lengths 16 x * spare x ≡ used i) q (canon-left i li) in
      let place = entry-mirror s hi ls in
      let rest = mirror-lt (limit - lengths s) hi in (omega arith, omega (arith, ap spare q))

  -- No number begins with two codes.
  entry-injective :
      (s hi s' hi' : ℕ) → s < 16 → s' < 16 → entry s hi ≡ entry s' hi' → (s ≡ s') × (hi ≡ hi')
  entry-injective s hi s' hi' ls ls' q =
      let (i, li, at_i) = turn-of s ls in
      let (j, lj, at_j) = turn-of s' ls' in
      let (low, high) = in_turn s hi i ls li at_i in
      let (low', high') = in_turn s' hi' j ls' lj at_j in
      let here = ap (mirror limit) q in
      let turns : i ≡ j = elim (dec_lt i j) [
        | yes lt ↦ absurd (omega (arith, sum_below-le (width sort lengths short) (suc i) j lt))
        | no ge ↦ elim (dec_lt j i) [
          | yes gt ↦ absurd (omega (arith, sum_below-le (width sort lengths short) (suc j) i gt))
          | no le ↦ omega arith
        ]
      ] in
      let who : s ≡ s' = sym at_i ∙ ap (order sort lengths) turns ∙ at_j in
      let some_width = one-le-pow (lengths s) 2 (omega arith) in
      (
        who,
        eq_of_mul-eq-mul_right (2 ^ lengths s) some_width hi hi'
            (omega (arith, ap (codes sort lengths) who, ap (λ (x : ℕ). hi' * 2 ^ lengths x) who)),
      )

  -- Every number of `limit` bits begins with a code.
  covered :
      (x : ℕ) → x < lut_bytes → (s : ℕ) × (hi : ℕ) × (s < 16) × (hi < spare s) × (x ≡ entry s hi)
  unfolding order
  covered x lx =
      let y_lt : mirror limit x < used 16 = omega (arith, mirror-lt limit x, left-end) in
      let (i, li, low, high) = sum_below-find (width sort lengths short) 16 (mirror limit x) y_lt in
      let s = order sort lengths i in
      let ls : s < 16 = sort.bounded 16 lengths i li in
      let start = canon-left i li in
      let whole : limit - lengths s + lengths s ≡ limit = omega (arith, short s ls) in
      let r = mirror limit x - used i in
      let lr : r < 2 ^ (limit - lengths s) = omega arith in
      let split : mirror limit x ≡ r + canon sort lengths 16 s * 2 ^ (limit - lengths s) =
        omega arith in
      (
        s,
        mirror (limit - lengths s) r,
        ls,
        mirror-lt (limit - lengths s) r,
        sym (mirror-mirror limit x lx)
            ∙ ap (mirror limit) split
            ∙ ap (λ (k : ℕ). mirror k (r + canon sort lengths 16 s * 2 ^ (limit - lengths s)))
                (sym whole)
            ∙ mirror-fields (limit - lengths s) (lengths s) r (canon sort lengths 16 s) lr
            ∙ omega (arith, codes-mirror s ls),
      )

  -- The table after `h` entries of symbol `s`.
  record Filled (s h : ℕ) (l : ℕ → Option ℕ) : Type 0 where
    holds :
        (s' hi : ℕ)
        → s' < 16
        → hi < spare s'
        → (s' < s) ⊎ ((s' ≡ s) × (hi < h))
        → l (entry s' hi) ≡ some (s' * 2 ^ 4 + lengths s')
    only :
        (x : ℕ)
        → is_some (l x) ≡ true
        → (s' : ℕ) × (hi : ℕ) × (s' < 16) × ((s' < s) ⊎ ((s' ≡ s) × (hi < h))) × (x ≡ entry s' hi)

  abbrev value : ℕ → ℕ
  value s = s * 2 ^ 4 + lengths s

  Filled-step :
      (s h : ℕ) (m : ℕ → Option ℕ)
      → s < 16
      → Filled s h m
      → Filled s (suc h) (update m (entry s h) (some (value s)))
  unfolding update
  Filled-step s h m ls f = record {
    holds = λ s' hi ls' lh place. elim (ℕ_discrete (entry s h) (entry s' hi)) [
      | yes q ↦ let (who, _) = entry-injective s h s' hi ls ls' q in ground (arith, ap lengths who)
      | no ne ↦
          let older : (s' < s) ⊎ ((s' ≡ s) × (hi < h)) = elim place [
            | inl lt ↦ inl lt
            | inr (who, lt) ↦ elim (ℕ_discrete hi h) [
              | yes here ↦ absurd (ne (sym (ap (λ x. entry x hi) who ∙ ap (entry s) here)))
              | no other ↦ inr (who, omega arith)
            ]
          ] in
          ground (arith, f.holds s' hi ls' lh older)
    ];
    only = λ x set. elim (ℕ_discrete (entry s h) x) [
      | yes q ↦ (s, h, ls, inr (refl, omega arith), sym q)
      | no ne ↦
          let (s', hi, ls', place, q) = f.only x (ground arith) in
          (s', hi, ls', elim place [ inl lt ↦ inl lt | inr (who, lt) ↦ inr (who, omega arith) ], q)
    ];
  }

  symbol-ok :
      (s h : ℕ) (l : ℕ → Option ℕ)
      → s < 16
      → h ≤ spare s
      → Filled s 0 l
      → (l' : ℕ → Option ℕ) × (fill_symbol sort lengths s h l ≡ ok l') × Filled s h l'
  unfolding fill_symbol
  symbol-ok s zero l ls le start = (l, refl, start)
  symbol-ok s (suc h) l ls le start =
      let (m, done, f) = symbol-ok s h l ls (omega arith) start in
      let joined : bit_or (codes sort lengths s) (h * 2 ^ lengths s) ≡ entry s h =
        bit_or-fields (lengths s) (codes sort lengths s) h (codes-lt s ls) in
      let byte : bit_or (s * 2 ^ 4) (lengths s) ≡ value s =
        bit_or-high_fields 4 s (lengths s) (omega (arith, short s ls)) in
      let in_table : ltb (entry s h) lut_bytes ≡ true =
        ground (arith, entry-lt s h ls (omega arith)) in
      elim (Bool-cases (is_some (m (entry s h)))) [
        | inl taken ↦
            let (s', hi, ls', place, q) = f.only (entry s h) taken in
            let (who, there) = entry-injective s h s' hi ls ls' q in absurd (ground arith)
        | inr free ↦ (
          update m (entry s h) (some (value s)),
          rw (done, joined, byte, in_table, free) refl,
          Filled-step s h m ls f,
        )
      ]

  Filled-next : (s : ℕ) (l : ℕ → Option ℕ) → Filled s (spare s) l → Filled (suc s) 0 l
  Filled-next s l f = record {
    holds = λ s' hi ls' lh place. f.holds s' hi ls' lh (elim place [
      | inr (who, lt) ↦ absurd (omega arith)
      | inl lt ↦ elim (ℕ_discrete s' s) [
        | yes q ↦ inr (q, omega (arith, ap spare q))
        | no ne ↦ inl (omega arith)
      ]
    ]);
    only = λ x set.
        let (s', hi, ls', place, q) = f.only x set in
        (
          s',
          hi,
          ls',
          elim place [ inl lt ↦ inl (omega arith) | inr (who, lt) ↦ inl (omega arith) ],
          q,
        );
  }

  fill-ok : (n : ℕ) → n ≤ 16 → (l : ℕ → Option ℕ) × (fill sort lengths n ≡ ok l) × Filled n 0 l
  unfolding fill
  fill-ok zero le = (
    (λ _. none),
    refl,
    record {
      holds = λ s' hi ls' lh place. absurd (ground arith);
      only = λ x set. absurd (ground arith);
    },
  )
  fill-ok (suc n) le =
      let (l, done, f) = fill-ok n (omega arith) in
      let (m, done', f') = symbol-ok n (spare n) l le (omega arith) f in
      (m, rw done done', Filled-next n m f')

  full-ok : (n : ℕ) (l : ℕ → Option ℕ) → n ≤ lut_bytes → Filled 16 0 l → full n l ≡ true
  unfolding full
  full-ok zero l le f = refl
  full-ok (suc n) l le f =
      let (s, hi, ls, lh, q) = covered n le in
      let set : l n ≡ some (value s) = ap l q ∙ f.holds s hi ls lh (inl ls) in
      rw (full-ok n l (omega arith) f, set) refl

  checked : (l : ℕ → Option ℕ) → Filled 16 0 l → check_full (ok l) ≡ ok l
  checked l f = rw (full-ok lut_bytes l (omega arith) f) refl

  pub make_lut-table :
      (l : ℕ → Option ℕ) × (make_lut sort lengths ≡ ok l)
      × ((s hi : ℕ)
          → s < 16
          → hi < 2 ^ (limit - lengths s)
          → l (codes sort lengths s + hi * 2 ^ lengths s) ≡ some (s * 2 ^ 4 + lengths s))
  unfolding make_lut
  make_lut-table =
      let (l, done, f) = fill-ok 16 (omega arith) in
      (l, ap check_full done ∙ checked l f, λ s hi ls lh. f.holds s hi ls lh (inl ls))

  -- When the lengths are at most nine and fill the table (the Kraft sum is one), no assertion of the
  -- constructor fails, and the table decodes every code: a number of nine bits that begins, from its
  -- lowest bit, with the code of a symbol is sent to that symbol and the length of its code.
  pub make_lut-decodes :
      (s hi : ℕ)
      → s < 16
      → hi < 2 ^ (limit - lengths s)
      → (l : ℕ → Option ℕ) × (make_lut sort lengths ≡ ok l)
        × (l (codes sort lengths s + hi * 2 ^ lengths s) ≡ some (s * 2 ^ 4 + lengths s))
  make_lut-decodes s hi ls lh = let (l, made, table) = make_lut-table in (l, made, table s hi ls lh)
