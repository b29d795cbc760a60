-- ===== src/Plan/Layout.antt =====
-- Where `plan_chunks` puts each expert.
use native.Mathlib.Nat.{add_assoc}
use native.Mathlib.Numerals.{add-one}
use vllm_expert_pager.Base.{
  ℕ, suc, ◌+◌, ◌-◌, ◌*◌, ◌/◌, ◌%◌, ◌≤◌, ◌<◌, ◌≡◌, sym, ap, ◌∙◌, ◌≢◌, ◌⊎◌, ◌↔◌, inl, inr, Bool, true,
  false, ◌&&◌, Option, none, some, arith, if◌then◌else◌, same, same-some, subst, Bool-cases,
}
use vllm_expert_pager.Tensor.Put.{index_put_hit, index_put_miss}
use vllm_expert_pager.Tensor.Count.{
  count, count_mono, count-suc, count-injective, count-disjoint, find_set,
}
use vllm_expert_pager.Table.{ExpertTable, at}
use vllm_expert_pager.Plan.{chunks, ssd, first, boundary, pos, dst_row, chunk, maps, listing}

-- Rounding up to a multiple of `w`.
round_up : (n w : ℕ) → 0 < w → (n ≤ (n + w - 1) / w * w) × ((n + w - 1) / w * w < n + w)
round_up n w pos = grind arith

pub same_quotient : (q p w : ℕ) → q / w ≡ p / w → q % w ≡ p % w → q ≡ p
same_quotient q p w d m = grind arith

quotient-lt : (c w p : ℕ) → 0 < w → p < c * w → p / w < c
quotient-lt c w p pos lt = grind arith

quotient-ge : (c w q : ℕ) → 0 < w → c * w ≤ q → c ≤ q / w
quotient-ge c w q pos ge = grind arith

aligned : (c w p q : ℕ) → 0 < w → p < c * w → c * w ≤ q → p / w < q / w
aligned c w p q pos lt ge = omega (arith, quotient-lt c w p pos lt, quotient-ge c w q pos ge)

module _ (t : ExpertTable) (before : ℕ → Option ℕ) (need : ℕ → Bool) (rows : ℕ)
    (some_rows : 0 < rows) where
  abbrev E : ℕ
  E = t.num_experts

  abbrev N : ℕ
  N = chunks t before need rows

  abbrev IsFirst : ℕ → Type 0
  IsFirst e = first t before need rows e ≡ true

  abbrev IsSsd : ℕ → Type 0
  IsSsd e = ssd t before need rows e ≡ true

  abbrev place : ℕ → Option ℕ
  place = pos t before need rows

  -- A needed expert is copied from its old slot, or read from SSD.
  pub needed_cases : (e : ℕ) → need e ≡ true → IsFirst e ⊎ IsSsd e
  unfolding first
  needed_cases e ne = elim (Bool-cases (ssd t before need rows e)) [
    | inl s ↦ inr s
    | inr f ↦ inl (ground arith)
  ]

  pub first-parts : (e : ℕ) → IsFirst e → (need e ≡ true) × (ssd t before need rows e ≡ false)
  unfolding first
  first-parts e f = ground arith

  not-first_of_ssd : (e : ℕ) → IsSsd e → first t before need rows e ≡ false
  unfolding first
  not-first_of_ssd e s = ground arith

  pub first-pos : (e : ℕ) → IsFirst e → place e ≡ some (count (first t before need rows) e)
  unfolding pos
  first-pos e f = rw (f, count-suc (first t before need rows) e f, add-one)

  pub ssd-pos :
      (e : ℕ)
      → IsSsd e
      → place e ≡ some (boundary t before need rows + count (ssd t before need rows) e)
  unfolding pos
  ssd-pos e s =
      rw (not-first_of_ssd e s, count-suc (ssd t before need rows) e s, ← add_assoc, add-one)

  boundary-bounds :
      (count (first t before need rows) E ≤ boundary t before need rows)
      × (boundary t before need rows < count (first t before need rows) E + rows)
  unfolding boundary
  boundary-bounds = round_up (count (first t before need rows) E) rows some_rows

  -- The experts that need no read stand before the boundary, which starts a chunk; the others from
  -- there on.
  pub first-lt : (e p : ℕ) → e < E → IsFirst e → place e ≡ some p → p < boundary t before need rows
  first-lt e p le f q = ground (
    arith,
    first-pos e f,
    count-suc (first t before need rows) e f,
    count_mono (first t before need rows) (suc e) E le,
    boundary-bounds,
  )

  pub ssd-ge : (e p : ℕ) → IsSsd e → place e ≡ some p → boundary t before need rows ≤ p
  ssd-ge e p s q = ground (arith, ssd-pos e s)

  pub boundary-aligned :
      (p q : ℕ)
      → p < boundary t before need rows
      → boundary t before need rows ≤ q
      → p / rows < q / rows
  unfolding boundary
  boundary-aligned p q lt ge = aligned _ rows p q some_rows lt ge

  room : boundary t before need rows + count (ssd t before need rows) E ≤ N * rows
  unfolding chunks
  room =
      let up = round_up E rows some_rows in
      let apart =
        count-disjoint (first t before need rows) (ssd t before need rows) E
          (λ i f. (first-parts i f).1) in
      omega (arith, boundary-bounds)

  pub pos-lt : (e p : ℕ) → e < E → IsFirst e ⊎ IsSsd e → place e ≡ some p → p < N * rows
  pos-lt e p le (inl f) q = omega (arith, first-lt e p le f q, room)
  pos-lt e p le (inr s) q = ground (
    arith,
    ssd-pos e s,
    count-suc (ssd t before need rows) e s,
    count_mono (ssd t before need rows) (suc e) E le,
    room,
  )

  -- No two experts have one position.
  pub pos-injective :
      (e f p : ℕ)
      → e < E
      → f < E
      → IsFirst e ⊎ IsSsd e
      → IsFirst f ⊎ IsSsd f
      → place e ≡ some p
      → place f ≡ some p
      → e ≡ f
  pos-injective e f p le lf (inl x) (inl y) qe qf =
      count-injective (first t before need rows) e f x y (
        ground (
          arith,
          first-pos e x,
          first-pos f y,
          count-suc (first t before need rows) e x,
          count-suc (first t before need rows) f y,
        ))
  pos-injective e f p le lf (inl x) (inr y) qe qf =
      absurd (omega (arith, first-lt e p le x qe, ssd-ge f p y qf))
  pos-injective e f p le lf (inr x) (inl y) qe qf =
      absurd (omega (arith, first-lt f p lf y qf, ssd-ge e p x qe))
  pos-injective e f p le lf (inr x) (inr y) qe qf =
      count-injective (ssd t before need rows) e f x y (
        ground (
          arith,
          ssd-pos e x,
          ssd-pos f y,
          count-suc (ssd t before need rows) e x,
          count-suc (ssd t before need rows) f y,
        ))

  -- Every planned expert has a position.
  pub pos-some : (e : ℕ) → IsFirst e ⊎ IsSsd e → (p : ℕ) × (place e ≡ some p)
  pos-some e (inl f) = (_, first-pos e f)
  pos-some e (inr s) = (_, ssd-pos e s)

  pub place-lt : (p : ℕ) → p < N * rows → p / rows < N
  place-lt p lt = quotient-lt N rows p some_rows lt

  -- Each needed expert is mapped in exactly one chunk, to its row of the working slab; an expert that
  -- is not needed in none.
  pub maps_once :
      (e : ℕ)
      → e < E
      → need e ≡ true
      → (k : ℕ) × (k < N)
        × (maps t before need rows k e ≡ some (dst_row t before need rows e))
        × (dst_row t before need rows e < rows)
        × ((j r : ℕ) → maps t before need rows j e ≡ some r → j ≡ k)
  unfolding maps chunk dst_row
  maps_once e le ne =
      let (p, q) = pos-some e (needed_cases e ne) in
      (
        p / rows,
        place-lt p (pos-lt e p le (needed_cases e ne) q),
        rw (ne, q) (ground arith),
        rw q (grind arith),
        λ j r h. ground arith,
      )

  pub maps_unneeded : (e k : ℕ) → need e ≡ false → maps t before need rows k e ≡ none
  unfolding maps chunk
  maps_unneeded e k ne = rw ne

  -- A mapped expert has a position in its chunk, at its row.
  pub maps-position :
      (e k r : ℕ)
      → maps t before need rows k e ≡ some r
      → (need e ≡ true) × ((p : ℕ) × (place e ≡ some p) × (p / rows ≡ k) × (p % rows ≡ r))
  unfolding maps chunk dst_row
  maps-position e k r h = elim (Bool-cases (need e)) [
    | inr out ↦ absurd (ground arith)
    | inl ne ↦
        let (p, q) = pos-some e (needed_cases e ne) in (ne, (p, q, ground arith, ground arith))
  ]

  -- No chunk maps two experts to one row.
  pub maps_injective :
      (e f k r : ℕ)
      → e < E
      → f < E
      → maps t before need rows k e ≡ some r
      → maps t before need rows k f ≡ some r
      → e ≡ f
  maps_injective e f k r le lf he hf =
      let (ne, (p, qe, pk, pr)) = maps-position e k r he in
      let (nf, (q, qf, qk, qr)) = maps-position f k r hf in
      let same_place : q ≡ p = same_quotient q p rows (qk ∙ sym pk) (qr ∙ sym pr) in
      pos-injective e f p le lf (needed_cases e ne) (needed_cases f nf) qe (qf ∙ ap some same_place)

  -- A listing holds exactly the experts of its mask, each at its position.
  pub listing_iff :
      (mask : ℕ → Bool)
      → ((e : ℕ) → mask e ≡ true → IsFirst e ⊎ IsSsd e)
      → (i e : ℕ) → i < N * rows
      → (listing t before need rows mask i ≡ some e)
        ↔ ((e < E) × (mask e ≡ true) × (place e ≡ some i))
  unfolding listing
  listing_iff mask planned i e li = (there, back)
    where
      slot : ℕ → ℕ
      slot f = if mask f then at (N * rows) (place f) else N * rows

      Holder : Type 0
      Holder = (f : ℕ) × (f < E) × (mask f ≡ true) × (place f ≡ some i)

      holds :
          (f : ℕ)
          → f < E
          → mask f ≡ true
          → place f ≡ some i
          → listing t before need rows mask i ≡ some f
      holds f lf mf qf = index_put_hit E slot _ _ f i lf (rw (mf, qf)) (λ k lk q.
          elim (Bool-cases (mask k)) [
            | inr out ↦ absurd (ground arith)
            | inl mk ↦
                let (p, qk) = pos-some k (planned k mk) in
                pos-injective k f i lk lf (planned k mk) (planned f mf) (ground arith) qf
          ])

      apart :
          ((k : ℕ) → k < E → (mask k && same (place k) (some i)) ≡ false)
          → (k : ℕ) → k < E
          → slot k ≢ i
      apart clear k lk q = elim (Bool-cases (mask k)) [
        | inr out ↦ absurd (ground arith)
        | inl mk ↦
            let (p, qk) = pos-some k (planned k mk) in
            let here : p ≡ i = ground arith in
            absurd (ground (arith, clear k lk, ap (λ x. same x (some i)) (qk ∙ ap some here)))
      ]

      back :
          (e < E) × (mask e ≡ true) × (place e ≡ some i)
          → listing t before need rows mask i ≡ some e
      back (le, me, qe) = holds e le me qe

      there :
          listing t before need rows mask i ≡ some e
          → (e < E) × (mask e ≡ true) × (place e ≡ some i)
      there h = elim (find_set (λ f. mask f && same (place f) (some i)) E) [
        | inl (f, lf, hit) ↦
            let mf : mask f ≡ true = ground arith in
            let qf : place f ≡ some i = same-some (place f) i (ground arith) in
            let who : f ≡ e = ground (arith, holds f lf mf qf) in
            subst (λ x. (x < E) × (mask x ≡ true) × (place x ≡ some i)) who (lf, mf, qf)
        | inr clear ↦
            absurd (ground (arith, index_put_miss E slot (λ e. some e) (λ _. none) i (apart clear)))
      ]
