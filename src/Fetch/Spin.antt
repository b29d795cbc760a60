-- ===== src/Fetch/Spin.antt =====
-- The loop of `_fetch_wait`: its end and its report.
use vllm_expert_pager.Base.{
  ℕ, zero, suc, ◌+◌, ◌*◌, ◌≤◌, ◌<◌, ◌≡◌, refl, ap, inl, inr, true, false, ◌&&◌, Option, some, arith,
  ltb, leb, Bool-cases, ℕ_discrete,
}
use vllm_expert_pager.Fetch.{Wait, spin, fetch_wait, any_expert, load_todo}

turns_left :
    (retry giveup tries n : ℕ) → n < retry → tries < giveup → tries * retry + n < giveup * retry
turns_left retry giveup tries n ln lt = grind arith

loads-le :
    (retry giveup tries n i : ℕ)
    → n < retry
    → tries ≤ giveup
    → i ≡ tries * retry + n
    → (tries ≡ giveup → n ≡ 0)
    → i ≤ giveup * retry
loads-le retry giveup tries n i ln lt at whole = elim (ℕ_discrete tries giveup) [
  | yes q ↦ omega (arith, whole q, ap (λ (x : ℕ). x * retry) q)
  | no ne ↦ omega (arith, turns_left retry giveup tries n ln (omega arith))
]

next_try : (retry tries n : ℕ) → n + 1 ≡ retry → tries * retry + n + 1 ≡ (tries + 1) * retry + 0
next_try retry tries n q = grind arith

module _ (retry giveup k : ℕ) (seen : ℕ → ℕ) (some_retry : 0 < retry) where
  -- What a wait may report.
  pub record Faithful (w : Wait) : Type 0 where
    pub few_tries : w.tries ≤ giveup
    pub few_loads : w.loads ≤ giveup * retry
    pub arrived : w.gave_up ≡ false → k ≤ seen w.loads
    pub lost :
        w.gave_up ≡ true
        → (w.tries ≡ giveup) × (w.loads ≡ giveup * retry) × ((j : ℕ) → j ≤ w.loads → seen j < k)

  before_next :
      (i tries : ℕ)
      → ((j : ℕ) → j < i → seen j < k)
      → (ltb (seen i) k && ltb tries giveup) ≡ true
      → (j : ℕ) → j < i + 1
      → seen j < k
  before_next i tries before more j lj = elim (ℕ_discrete j i) [
    | yes q ↦ ground (arith, ap seen q)
    | no ne ↦ before j (omega arith)
  ]

  stopped :
      (i n tries : ℕ)
      → n < retry
      → tries ≤ giveup
      → i ≡ tries * retry + n
      → (tries ≡ giveup → n ≡ 0)
      → ((j : ℕ) → j < i → seen j < k)
      → (ltb (seen i) k && ltb tries giveup) ≡ false
      → Faithful (record { gave_up = ltb (seen i) k; tries = tries; loads = i })
  stopped i n tries ln lt at whole before stop = record {
    few_tries = lt;
    few_loads = loads-le retry giveup tries n i ln lt at whole;
    arrived = λ h. ground arith;
    lost = λ h.
        let last : tries ≡ giveup = ground arith in
        (
          last,
          omega (arith, whole last, ap (λ (x : ℕ). x * retry) last),
          λ j lj. elim (ℕ_discrete j i) [
            | yes q ↦ ground (arith, ap seen q)
            | no ne ↦ before j (omega arith)
          ],
        );
  }

  spin_from :
      (fuel i n tries : ℕ)
      → n < retry
      → tries ≤ giveup
      → i ≡ tries * retry + n
      → giveup * retry < fuel + i
      → (tries ≡ giveup → n ≡ 0)
      → ((j : ℕ) → j < i → seen j < k)
      → (w : Wait) × (spin fuel retry giveup k seen i n tries ≡ some w) × Faithful w
  unfolding spin
  spin_from zero i n tries ln lt at enough whole before =
      absurd (omega (arith, loads-le retry giveup tries n i ln lt at whole))
  spin_from (suc fuel) i n tries ln lt at enough whole before =
      elim (Bool-cases (ltb (seen i) k && ltb tries giveup)) [
        | inr stop ↦ (
          record { gave_up = ltb (seen i) k; tries = tries; loads = i },
          rw stop refl,
          stopped i n tries ln lt at whole before stop,
        )
        | inl more ↦ elim (Bool-cases (leb retry (n + 1))) [
          | inl full ↦
              rw (more, full)
                (spin_from fuel (i + 1) 0 (tries + 1) some_retry (ground arith)
                  (omega (arith, next_try retry tries n (ground arith))) (omega arith) (λ _. refl)
                  (before_next i tries before more))
          | inr room ↦
              rw (more, room)
                (spin_from fuel (i + 1) (n + 1) tries (ground arith) lt (omega arith) (omega arith)
                  (λ q. absurd (ground arith)) (before_next i tries before more))
        ]
      ]

  -- A wait ends after at most `giveup * retry` further loads of `done`, whatever they give. If it does
  -- not give up, the last load was at least the number it waited for; if it does, it has published its
  -- request again `giveup` times, and every load was less. For an empty list it ends at once.
  pub fetch_wait-ends :
      (fuel block K : ℕ) (todo : ℕ → Option ℕ)
      → giveup * retry < fuel
      → (w : Wait) × (fetch_wait fuel retry giveup block K todo k seen ≡ some w)
        × ((any_expert block (load_todo K todo) ≡ true → Faithful w)
            × (any_expert block (load_todo K todo) ≡ false → w.gave_up ≡ false))
  unfolding fetch_wait
  fetch_wait-ends fuel block K todo enough =
      elim (Bool-cases (any_expert block (load_todo K todo))) [
        | inl some_todo ↦
            let (w, ends, faithful) =
              spin_from fuel 0 0 0 some_retry (omega arith) (omega arith) (omega arith) (λ _. refl)
                (λ j lj. absurd (omega arith)) in
            (w, rw some_todo ends, (λ _. faithful, λ h. absurd (ground arith)))
        | inr empty ↦ (
          record { gave_up = false; tries = 0; loads = 0 },
          rw empty refl,
          (λ h. absurd (ground arith), λ _. refl),
        )
      ]
