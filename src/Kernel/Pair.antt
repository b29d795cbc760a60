-- ===== src/Kernel/Pair.antt =====
-- `AcquirePair`: its construction and one launch for both tiers.
use Prim.Native.Nat.{max}
use vllm_expert_pager.Base.{
  ℕ, ◌^◌, ◌≤◌, ◌<◌, ◌≡◌, refl, sym, ◌∙◌, arith, ◌==◌, Bool-cases, inl, inr, Bool, true, false, List,
  Option, some, length, ok, ltb, subst, raise, value_error, ◌⊎◌, ◌≢◌, ℕ_discrete, dec_lt,
}
use vllm_expert_pager.Tensor.Argsort.{Argsort}
use vllm_expert_pager.Table
use vllm_expert_pager.Table.{ExpertTable, Acquired, protect, need_mask}
use vllm_expert_pager.Table.Invariant.{Consistent}
use vllm_expert_pager.Table.Acquire.{acquire-Consistent, acquire-serves}
use vllm_expert_pager.Kernel.Sort.{TlSort}
use vllm_expert_pager.Kernel.Widths.{block_of_bounds, block_of-covers, block_of-fits}
use vllm_expert_pager.Kernel.Equivalence.{Matches, acquire-Matches}
use vllm_expert_pager.Kernel.{
  Outputs, AcquirePair, init, call, acquire, fresh_pair, block_of, slot_bits,
}

-- The pair that `experts.py` builds and calls: R ≥ S slots in the RAM tier, lanes for all.
pub record IsPair (p : AcquirePair) : Type 0 where
  pub experts : p.vram.num_experts ≡ p.ram.num_experts
  pub tiers : p.vram.num_slots ≤ p.ram.num_slots
  pub slots : p.ram.num_slots ≤ p.ram.num_experts
  pub wide_e : p.vram.num_experts ≤ p.block_e
  pub wide_s : p.ram.num_slots ≤ p.block_s
  pub narrow_s : p.block_s ≤ 2 ^ slot_bits
  pub vram_valid : Consistent p.vram
  pub ram_valid : Consistent p.ram

init-ok :
    (vram ram : ExpertTable) {p : AcquirePair}
    → init vram ram ≡ ok p
    → (vram.num_experts ≡ ram.num_experts)
      × (block_of (max vram.num_slots ram.num_slots) ≤ 2 ^ slot_bits)
      × (fresh_pair vram ram ≡ p)
unfolding init
init-ok vram ram {p} h = elim (Bool-cases (vram.num_experts == ram.num_experts)) [
  | inr differ ↦ absurd (ground arith)
  | inl same ↦
      elim (Bool-cases (ltb (2 ^ slot_bits) (block_of (max vram.num_slots ram.num_slots)))) [
        | inl wide ↦ absurd (ground arith)
        | inr narrow ↦ (ground arith, ground arith, ground arith)
      ]
]

-- The lanes that `AcquirePair` chooses are enough for both tables.
fresh_pair-IsPair :
    (vram ram : ExpertTable)
    → Consistent vram
    → Consistent ram
    → vram.num_slots ≤ ram.num_slots
    → ram.num_slots ≤ ram.num_experts
    → vram.num_experts ≡ ram.num_experts
    → block_of (max vram.num_slots ram.num_slots) ≤ 2 ^ slot_bits
    → IsPair (fresh_pair vram ram)
unfolding fresh_pair
fresh_pair-IsPair vram ram cv cr tiers slots same narrow = record {
  experts = same;
  tiers = tiers;
  slots = slots;
  wide_e = (block_of_bounds vram.num_experts (omega (arith, cr.positive))).0;
  wide_s =
      omega (
        arith,
        (block_of_bounds (max vram.num_slots ram.num_slots) (omega (arith, cr.positive))).0,
      );
  narrow_s = narrow;
  vram_valid = cv;
  ram_valid = cr;
}

-- An `AcquirePair` that is built from well-formed tables, with no more VRAM slots than RAM slots and
-- no more of these than experts, has lanes for all experts and slots, and packed keys for the slots.
pub init-IsPair :
    (vram ram : ExpertTable) {p : AcquirePair}
    → Consistent vram
    → Consistent ram
    → vram.num_slots ≤ ram.num_slots
    → ram.num_slots ≤ ram.num_experts
    → init vram ram ≡ ok p
    → IsPair p
init-IsPair vram ram cv cr tiers slots h =
    let (same, narrow, e) = init-ok vram ram h in
    subst IsPair e (fresh_pair-IsPair vram ram cv cr tiers slots same narrow)

-- `AcquirePair` of two tables, the one in VRAM with a slot or more: if they have equally many experts
-- and each at most 512 slots, it is made, of these tables, with lanes for all experts and for the slots
-- of both and with slots that fit in a packed key; if they have not, it raises ValueError.
pub init-accepts :
    (vram ram : ExpertTable)
    → 0 < vram.num_slots
    → ((vram.num_experts ≡ ram.num_experts)
        × (max vram.num_slots ram.num_slots ≤ 512)
        × (p : AcquirePair) × (init vram ram ≡ ok p)
        × (p.vram ≡ vram)
        × (p.ram ≡ ram)
        × (vram.num_experts ≤ p.block_e)
        × (vram.num_slots ≤ p.block_s)
        × (ram.num_slots ≤ p.block_s)
        × (p.block_s ≤ 2 ^ slot_bits))
      ⊎ (((vram.num_experts ≢ ram.num_experts) ⊎ (512 < max vram.num_slots ram.num_slots))
          × (init vram ram ≡ raise value_error))
unfolding init fresh_pair
init-accepts vram ram pos =
    let M = max vram.num_slots ram.num_slots in
    let (low, high) = block_of_bounds M (omega arith) in
    elim (ℕ_discrete vram.num_experts ram.num_experts) [
      | no differ ↦
          let other : (vram.num_experts == ram.num_experts) ≡ false = ground arith in
          inr (inl differ, rw other refl)
      | yes same ↦
          let equal : (vram.num_experts == ram.num_experts) ≡ true = ground arith in
          elim (dec_lt 512 M) [
            | yes many ↦
                let wide : ltb (2 ^ slot_bits) (block_of M) ≡ true = ground arith in
                inr (inr many, rw (equal, wide) refl)
            | no few ↦
                let fits : block_of M ≤ 2 ^ slot_bits =
                  block_of-fits M slot_bits (omega arith) (omega arith) in
                let narrow : ltb (2 ^ slot_bits) (block_of M) ≡ false = ground arith in
                inl (
                  same,
                  omega arith,
                  fresh_pair vram ram,
                  rw (equal, narrow) refl,
                  refl,
                  refl,
                  block_of-covers vram.num_experts,
                  omega arith,
                  omega arith,
                  fits,
                )
          ]
    ]

-- What `Consistent` says concerns the cells in range, where the kernel's table is the reference's.
Matches-Consistent :
    (t : ExpertTable) (ids : ℕ) (b : Bool) (map : ℕ → Option ℕ) (o : Outputs) (r : Acquired)
    → o.table.num_experts ≡ t.num_experts
    → r.table.num_experts ≡ t.num_experts
    → o.table.num_slots ≡ t.num_slots
    → r.table.num_slots ≡ t.num_slots
    → Matches t.num_experts t.num_slots ids b map o r
    → Consistent r.table
    → Consistent o.table
Matches-Consistent t ids b map o r oe re os rs m c = record {
  positive = omega (arith, c.positive);
  forward = λ e s le h.
      let le' : e < t.num_experts = omega arith in
      let back = c.forward e s (omega arith) (sym (m.slot_of e le') ∙ h) in
      let ls : s < t.num_slots = omega (arith, back.0) in (omega arith, m.expert_in s ls ∙ back.1);
  backward = λ s e ls h.
      let ls' : s < t.num_slots = omega arith in
      let back = c.backward s e (omega arith) (sym (m.expert_in s ls') ∙ h) in
      let le : e < t.num_experts = omega (arith, back.0) in (omega arith, m.slot_of e le ∙ back.1);
  clock = λ s ls.
      let ls' : s < t.num_slots = omega arith in
      omega (arith, c.clock s (omega arith), m.last_used s ls', m.step);
}

module _ (sort : TlSort) (reference : Argsort) (p : AcquirePair) (topk : List (Option ℕ))
    (v : IsPair p) (fits : length topk ≤ p.vram.num_slots) (young_v : p.vram.step ≤ protect)
    (young_r : p.ram.step ≤ protect) where
  abbrev pub vram_out : Outputs
  vram_out = acquire sort p.block_e p.block_s p.vram topk true p.expert_map p.vram_slot p.vram_todo

  abbrev pub ram_out : Outputs
  ram_out = acquire sort p.block_e p.block_s p.ram topk false vram_out.map p.ram_slot p.ram_todo

  pub vram-Matches :
      Matches p.vram.num_experts p.vram.num_slots
        (length topk)
        true
        p.expert_map
        vram_out
        (Table.acquire reference p.vram topk)
  vram-Matches =
      acquire-Matches sort reference p.block_e p.block_s p.vram topk v.vram_valid young_v v.wide_e
        (omega (arith, v.tiers, v.wide_s)) v.narrow_s true p.expert_map p.vram_slot p.vram_todo
        (omega (arith, v.tiers, v.slots, v.experts))

  pub ram-Matches :
      Matches p.ram.num_experts p.ram.num_slots
        (length topk)
        false
        vram_out.map
        ram_out
        (Table.acquire reference p.ram topk)
  ram-Matches =
      acquire-Matches sort reference p.block_e p.block_s p.ram topk v.ram_valid young_r
        (omega (arith, v.experts, v.wide_e)) v.wide_s v.narrow_s false vram_out.map p.ram_slot
        p.ram_todo (omega (arith, v.tiers, v.slots))

  vram_out-Consistent : Consistent vram_out.table
  unfolding acquire Table.acquire
  vram_out-Consistent =
      Matches-Consistent p.vram (length topk) true p.expert_map vram_out
        (Table.acquire reference p.vram topk) refl refl refl refl vram-Matches
        (acquire-Consistent reference p.vram topk v.vram_valid fits young_v)

  ram_out-Consistent : Consistent ram_out.table
  unfolding acquire Table.acquire
  ram_out-Consistent =
      Matches-Consistent p.ram (length topk) false vram_out.map ram_out
        (Table.acquire reference p.ram topk) refl refl refl refl ram-Matches
        (acquire-Consistent reference p.ram topk v.ram_valid (omega (arith, v.tiers)) young_r)

  -- A decode step keeps the pair well formed.
  pub call-IsPair : IsPair (call sort p topk)
  unfolding call acquire
  call-IsPair = record {
    experts = v.experts;
    tiers = v.tiers;
    slots = v.slots;
    wide_e = v.wide_e;
    wide_s = v.wide_s;
    narrow_s = v.narrow_s;
    vram_valid = vram_out-Consistent;
    ram_valid = ram_out-Consistent;
  }

  pub need_mask-tiers : (e : ℕ) → need_mask p.vram topk e ≡ need_mask p.ram topk e
  unfolding need_mask
  need_mask-tiers e = rw v.experts

  -- After a decode step every needed expert has a slot in both tiers, the ones that the kernel's
  -- outputs name: the map and the destination row in VRAM, the source row in RAM.
  pub call-serves :
      (e : ℕ)
      → e < p.vram.num_experts
      → need_mask p.vram topk e ≡ true
      → let q = call sort p topk in
        (s : ℕ) × (r : ℕ) × (s < p.vram.num_slots)
        × (q.expert_map e ≡ some s)
        × (q.vram_slot e ≡ some s)
        × (q.vram.expert_in s ≡ some e)
        × (r < p.ram.num_slots)
        × (q.ram_slot e ≡ some r)
        × (q.ram.expert_in r ≡ some e)
  unfolding call
  call-serves e le ne =
      let le_r : e < p.ram.num_experts = omega (arith, v.experts) in
      let mv = vram-Matches in
      let mr = ram-Matches in
      let (s, ls, hm, hs, _, hv, _) =
        acquire-serves reference p.vram topk v.vram_valid fits young_v e le ne in
      let (r, lr, _, hr, _, hw, _) =
        acquire-serves reference p.ram topk v.ram_valid (omega (arith, v.tiers)) young_r e le_r
          (sym (need_mask-tiers e) ∙ ne) in
      (
        s,
        r,
        ls,
        mr.map_after e le_r ∙ mv.map_after e le ∙ hm,
        mv.slot e le ∙ hs,
        mv.expert_in s ls ∙ hv,
        lr,
        mr.slot e le_r ∙ hr,
        mr.expert_in r lr ∙ hw,
      )
