-- ===== src/Kernel/Sort.antt =====
-- `tl.sort`: Triton is not part of the repository, so the kernel takes the sort as a parameter.
use vllm_expert_pager.Base.{ℕ, ◌≤◌, ◌<◌, ◌≡◌}

pub record TlSort : Type 0 where
  -- the lane whose value stands at a lane of the sorted vector
  pub source : ℕ → (ℕ → ℕ) → ℕ → ℕ
  pub bounded : (n : ℕ) (x : ℕ → ℕ) (i : ℕ) → i < n → source n x i < n
  pub onto : (n : ℕ) (x : ℕ → ℕ) (s : ℕ) → s < n → (i : ℕ) × (i < n) × (source n x i ≡ s)
  pub injective :
      (n : ℕ) (x : ℕ → ℕ) (i j : ℕ) → i < n → j < n → source n x i ≡ source n x j → i ≡ j
  pub ascending :
      (n : ℕ) (x : ℕ → ℕ) (i j : ℕ) → i < j → j < n → x (source n x i) ≤ x (source n x j)
