-- ===== src/Fetch/Order.antt =====
-- The order in which `server_main` serves the requests of `_fetch_publish`.
use vllm_expert_pager.Base.{
  ℕ, ◌+◌, ◌%◌, ◌/◌, ◌≤◌, ◌<◌, ◌≡◌, refl, sym, ap, ◌∙◌, ◌≢◌, inl, inr, Bool, false, not, ◌&&◌, ◌||◌,
  List, [], ◌∷◌, Option, arith, ltb, leb, ◌==◌, is_some, Bool-cases, ℕ_discrete, subst,
}
use vllm_expert_pager.Tensor.Put.{update}
use vllm_expert_pager.Table.{clamp}
use vllm_expert_pager.Fetch.{
  Request, Slot, State, Sizes, any_expert, load_todo, fetch_publish, republish, read_one, run_jobs,
  jobs_from, current, rewrite_done, answer, serve, Step, publish, again, give_up, turn, Reach, here,
  next,
}

-- Two of `ring` successive numbers have different slots.
slot_apart : (a b n : ℕ) → 0 < n → a % n ≡ b % n → a ≤ b → b < a + n → a ≡ b
slot_apart a b n some_n h le lt = elim (ℕ_discrete (a / n) (b / n)) [
  | yes q ↦ grind arith
  | no ne ↦ grind arith
]

-- The state of a store that has served nothing.
abbrev pub Fresh : State → Type 0
Fresh s =
    (s.seq ≡ 0)
    × (s.last ≡ 0)
    × (s.done ≡ 0)
    × (s.fetches ≡ 0)
    × (s.missed ≡ 0)
    × ((i : ℕ) → (s.slots i).seq ≡ 0)

module _ (z : Sizes) where
  pub record Inv (s : State) : Type 0 where
    pub few : s.seq ≤ s.last + z.ring
    pub behind : s.last ≤ s.seq
    pub announced : s.done ≡ s.last
    pub counted : s.fetches ≡ s.last
    pub none_missed : s.missed ≡ 0
    -- the ring holds the last `ring` requests
    pub held :
        (k : ℕ)
        → 0 < k
        → k ≤ s.seq
        → s.seq < k + z.ring
        → s.slots (k % z.ring) ≡ (record { seq = k; request = s.sent k })
    pub old : (i : ℕ) → (s.slots i).seq ≤ s.seq
    pub answered : (k : ℕ) → 0 < k → k ≤ s.last → s.served k ≡ s.sent k

  pub run_jobs-keeps :
      (layer : ℕ) (js : List (ℕ × Option ℕ)) (s : State)
      → ((run_jobs z layer js s).seq ≡ s.seq)
        × ((run_jobs z layer js s).slots ≡ s.slots)
        × ((run_jobs z layer js s).sent ≡ s.sent)
        × ((run_jobs z layer js s).last ≡ s.last)
  unfolding run_jobs read_one
  run_jobs-keeps layer [] s = (refl, refl, refl, refl)
  run_jobs-keeps layer ((e, row) ∷ js) s =
      let (a, b, c, d) = run_jobs-keeps layer js (read_one z layer (e, row) s) in
      let (a', b', c', d') = one e row in (a ∙ a', b ∙ b', c ∙ c', d ∙ d')
    where
      one :
          (e : ℕ) (row : Option ℕ)
          → ((read_one z layer (e, row) s).seq ≡ s.seq)
            × ((read_one z layer (e, row) s).slots ≡ s.slots)
            × ((read_one z layer (e, row) s).sent ≡ s.sent)
            × ((read_one z layer (e, row) s).last ≡ s.last)
      one e row = elim (Bool-cases (not (ltb layer z.layers && ltb e z.experts))) [
        | inl out ↦ rw out (refl, refl, refl, refl)
        | inr inside ↦ elim (Bool-cases (not (is_some row && ltb (clamp row) z.rows))) [
          | inl out ↦ rw (inside, out) (refl, refl, refl, refl)
          | inr inside' ↦ elim (Bool-cases (z.preadv layer e)) [
            | inl whole ↦ rw (inside, inside', whole) (refl, refl, refl, refl)
            | inr short ↦ rw (inside, inside', short) (refl, refl, refl, refl)
          ]
        ]
      ]

  Fresh-Inv : (s : State) → Fresh s → Inv s
  Fresh-Inv s (a, b, c, d, e, f) = record {
    few = omega arith;
    behind = omega arith;
    announced = omega arith;
    counted = omega arith;
    none_missed = e;
    held = λ k pos le lt. absurd (omega arith);
    old = λ i. omega (arith, f i);
    answered = λ k pos le. absurd (omega arith);
  }

  module _ (some_slots : 0 < z.ring) where
    publish-Inv :
        (K : ℕ) (todo : ℕ → Option ℕ) (row : ℕ → ℕ) (base layer : ℕ) (s : State)
        → s.seq < s.last + z.ring
        → Inv s
        → Inv (fetch_publish z K todo row base layer s)
    unfolding fetch_publish update
    publish-Inv K todo row base layer s room inv =
        elim (Bool-cases (any_expert z.block (load_todo K todo))) [
          | inr empty ↦ rw empty inv
          | inl some_todo ↦ rw some_todo (record {
            few = omega arith;
            behind = omega (arith, inv.behind);
            announced = inv.announced;
            counted = inv.counted;
            none_missed = inv.none_missed;
            held = λ k pos le lt. elim (ℕ_discrete (s.seq + 1) k) [
              | yes q ↦ ground (arith, ap (λ x. x % z.ring) q)
              | no ne ↦
                  let apart : (s.seq + 1) % z.ring ≢ k % z.ring = λ h. ne (
                    sym (
                      slot_apart k (s.seq + 1) z.ring some_slots (sym h) (omega arith)
                        (omega arith))) in
                  ground (arith, inv.held k pos (omega arith) (omega arith))
            ];
            old = λ i. ground (arith, inv.old i);
            answered = λ k pos le. ground (arith, inv.answered k pos le, inv.behind);
          })
        ]

    -- Publishing one of the last `ring` requests again does not change the ring.
    again_slots :
        (k : ℕ) (s : State)
        → k ≤ s.seq
        → s.seq < k + z.ring
        → 0 < k
        → Inv s
        → (i : ℕ) → (republish z k s).slots i ≡ s.slots i
    unfolding republish update
    again_slots k s le lt pos inv i =
        let mine = inv.held k pos le lt in
        elim (ℕ_discrete (k % z.ring) i) [
          | yes q ↦ ground (arith, ap s.slots q, mine, ap (λ (c : Slot). record c { seq = k }) mine)
          | no ne ↦ ground arith
        ]

    again-Inv :
        (k : ℕ) (s : State) → k ≤ s.seq → s.seq < k + z.ring → 0 < k → Inv s → Inv (republish z k s)
    unfolding republish
    again-Inv k s le lt pos inv = record {
      few = inv.few;
      behind = inv.behind;
      announced = inv.announced;
      counted = inv.counted;
      none_missed = inv.none_missed;
      held = λ j pos_j le_j lt_j.
          again_slots k s le lt pos inv (j % z.ring) ∙ inv.held j pos_j le_j lt_j;
      old =
          λ i. omega (arith, inv.old i, ap (λ (c : Slot). c.seq) (again_slots k s le lt pos inv i));
      answered = inv.answered;
    }

    -- The slot that the server looks at holds the next request, if one is outstanding.
    next_here :
        (s : State)
        → Inv s
        → s.last < s.seq
        → current z s ≡ (record { seq = s.last + 1; request = s.sent (s.last + 1) })
    next_here s inv more =
        inv.held (s.last + 1) (omega arith) (omega arith) (omega (arith, inv.few))

    serve-Inv : (idle : Bool) (s : State) → Inv s → Inv (serve z idle s)
    unfolding serve answer rewrite_done update
    serve-Inv idle s inv = elim (Bool-cases (leb (current z s).seq s.last)) [
      | inl waiting ↦ rw waiting (elim (Bool-cases (not (s.republished == s.retries) || idle)) [
        | inr quiet ↦ rw quiet inv
        | inl moved ↦ rw moved (record {
          few = inv.few;
          behind = inv.behind;
          announced = refl;
          counted = inv.counted;
          none_missed = inv.none_missed;
          held = inv.held;
          old = inv.old;
          answered = inv.answered;
        })
      ])
      | inr present ↦
          let more : s.last < s.seq = ground (arith, inv.old ((s.last + 1) % z.ring)) in
          let number : (current z s).seq ≡ s.last + 1 = ap (λ c. c.seq) (next_here s inv more) in
          let payload : (current z s).request ≡ s.sent (s.last + 1) =
            ap (λ c. c.request) (next_here s inv more) in
          let (same_seq, same_slots, same_sent, _) =
            run_jobs-keeps (current z s).request.layer (jobs_from z.block 0 (current z s).request)
              s in
          rw present (record {
            few = omega (arith, inv.few);
            behind = omega arith;
            announced = refl;
            counted = omega (arith, inv.counted);
            none_missed = omega (arith, inv.none_missed);
            held = λ k pos le lt.
                ap (λ (f : ℕ → Slot). f (k % z.ring)) same_slots
                ∙ inv.held k pos (omega arith) (omega arith)
                ∙ ap (λ (f : ℕ → Request). record { seq = k; request = f k }) (sym same_sent);
            old = λ i. omega (arith, inv.old i, ap (λ (f : ℕ → Slot). (f i).seq) same_slots);
            answered = λ k pos le. elim (ℕ_discrete (current z s).seq k) [
              | yes q ↦ ground (
                arith,
                payload,
                ap s.sent (sym number ∙ q),
                ap (λ (f : ℕ → Request). f k) same_sent,
              )
              | no ne ↦
                  ground (
                    arith,
                    inv.answered k pos (omega arith),
                    ap (λ (f : ℕ → Request). f k) same_sent,
                  )
            ];
          })
    ]

    Step-Inv : (s u : State) → Inv s → Step z s u → Inv u
    Step-Inv s u inv (publish K todo row base layer room q) =
        subst Inv (sym q) (publish-Inv K todo row base layer s room inv)
    Step-Inv s u inv (again k le lt pos q) = subst Inv (sym q) (again-Inv k s le lt pos inv)
    Step-Inv s u inv (give_up q) = subst Inv (sym q) (record {
      few = inv.few;
      behind = inv.behind;
      announced = inv.announced;
      counted = inv.counted;
      none_missed = inv.none_missed;
      held = inv.held;
      old = inv.old;
      answered = inv.answered;
    })
    Step-Inv s u inv (turn idle q) = subst Inv (sym q) (serve-Inv idle s inv)

    pub Reach-Inv : (s u : State) → Fresh s → Reach z s u → Inv u
    Reach-Inv s _ fresh here = Fresh-Inv s fresh
    Reach-Inv s v fresh (next {u} r m) = Step-Inv u v (Reach-Inv s u fresh r) m

    -- However publishes, re-publishes, waits that give up and turns of the server interleave, the
    -- server has served exactly the requests up to `done`, each once and with the payload that was
    -- published under its number, and has missed none; if the callers keep at most `ring` requests
    -- outstanding and publish again only one of the last `ring`.
    pub serves-in_order :
        (s u : State)
        → Fresh s
        → Reach z s u
        → (u.done ≤ u.seq)
          × (u.fetches ≡ u.done)
          × (u.missed ≡ 0)
          × ((k : ℕ) → 0 < k → k ≤ u.done → u.served k ≡ u.sent k)
    serves-in_order s u fresh reached =
        let inv = Reach-Inv s u fresh reached in
        (
          omega (arith, inv.announced, inv.behind),
          inv.counted ∙ sym inv.announced,
          inv.none_missed,
          λ k pos le. inv.answered k pos (omega (arith, inv.announced)),
        )

    -- A turn of the server answers the next request while one is outstanding, whatever has been
    -- published again or given up.
    pub serve-advances :
        (s u : State)
        → Fresh s
        → Reach z s u
        → (idle : Bool) → u.done < u.seq
        → ((serve z idle u).done ≡ u.done + 1) × ((serve z idle u).seq ≡ u.seq)
    unfolding serve answer
    serve-advances s u fresh reached idle more =
        let inv = Reach-Inv s u fresh reached in
        let ahead : u.last < u.seq = omega (arith, inv.announced) in
        let number : (current z u).seq ≡ u.last + 1 = ap (λ c. c.seq) (next_here u inv ahead) in
        let waits : leb (current z u).seq u.last ≡ false = ground arith in
        rw waits (
          omega (arith, inv.announced),
          (run_jobs-keeps (current z u).request.layer (jobs_from z.block 0 (current z u).request)
              u).0,
        )
