-- ===== src/Tensor/Argsort.antt =====
-- `torch.argsort`, stable and not: torch is not part of the repository, so what uses it takes it as a
-- parameter with what its documentation promises.
use vllm_expert_pager.Base.{ℕ, ◌≤◌, ◌<◌, ◌≡◌, ◌⊎◌, ap, arith, dec_lt}

-- Ascending keys, equal keys in the order of their indices.
abbrev pub Before : (ℕ → ℕ) → ℕ → ℕ → Type 0
Before key a b = (key a < key b) ⊎ ((key a ≡ key b) × (a < b))

pub record Argsort : Type 0 where
  -- the index that stands at a position of the sorted order of `key[:n]`
  pub order : ℕ → (ℕ → ℕ) → ℕ → ℕ
  pub bounded : (n : ℕ) (key : ℕ → ℕ) (i : ℕ) → i < n → order n key i < n
  pub onto : (n : ℕ) (key : ℕ → ℕ) (s : ℕ) → s < n → (i : ℕ) × (i < n) × (order n key i ≡ s)
  pub ascending :
      (n : ℕ) (key : ℕ → ℕ) (i j : ℕ) → i < j → j < n → Before key (order n key i) (order n key j)

-- `torch.argsort(key)`, which may leave equal keys in any order.
pub record AnySort : Type 0 where
  pub order : ℕ → (ℕ → ℕ) → ℕ → ℕ
  pub bounded : (n : ℕ) (key : ℕ → ℕ) (i : ℕ) → i < n → order n key i < n
  pub onto : (n : ℕ) (key : ℕ → ℕ) (s : ℕ) → s < n → (i : ℕ) × (i < n) × (order n key i ≡ s)
  pub injective :
      (n : ℕ) (key : ℕ → ℕ) (i j : ℕ) → i < n → j < n → order n key i ≡ order n key j → i ≡ j
  pub ascending :
      (n : ℕ) (key : ℕ → ℕ) (i j : ℕ) → i < j → j < n → key (order n key i) ≤ key (order n key j)

module _ (sort : Argsort) (n : ℕ) (key : ℕ → ℕ) where
  pub order-injective : (i j : ℕ) → i < n → j < n → sort.order n key i ≡ sort.order n key j → i ≡ j
  order-injective i j li lj q = elim (dec_lt i j) [
    | yes lt ↦ absurd (ground (arith, sort.ascending n key i j lt lj, ap key q))
    | no ge ↦ elim (dec_lt j i) [
      | yes lt ↦ absurd (ground (arith, sort.ascending n key j i lt li, ap key q))
      | no le ↦ omega arith
    ]
  ]

  pub order_mono : (i j : ℕ) → i < j → j < n → key (sort.order n key i) ≤ key (sort.order n key j)
  order_mono i j lt lj = ground (arith, sort.ascending n key i j lt lj)

-- A stable sort is one.
abbrev pub any_order : Argsort → AnySort
any_order sort = record {
  order = sort.order;
  bounded = sort.bounded;
  onto = sort.onto;
  injective = order-injective sort;
  ascending = order_mono sort;
}
