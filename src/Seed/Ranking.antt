-- ===== src/Seed/Ranking.antt =====
-- `torch.topk(counts, k).indices`: torch is not part of the repository, so `seed` takes it as a
-- parameter with what its documentation promises. Which of several equal counts come first is open.
use vllm_expert_pager.Base.{ℕ, ◌≤◌, ◌<◌, ◌≡◌, ◌≢◌}

pub record TopK : Type 0 where
  -- the index at a position of the result for `counts[:n]`
  pub largest : ℕ → (ℕ → ℕ) → ℕ → ℕ → ℕ
  pub bounded : (n : ℕ) (counts : ℕ → ℕ) (k j : ℕ) → k ≤ n → j < k → largest n counts k j < n
  pub distinct :
      (n : ℕ) (counts : ℕ → ℕ) (k i j : ℕ)
      → k ≤ n
      → i < k
      → j < k
      → largest n counts k i ≡ largest n counts k j
      → i ≡ j
  pub descending :
      (n : ℕ) (counts : ℕ → ℕ) (k i j : ℕ)
      → k ≤ n
      → i < j
      → j < k
      → counts (largest n counts k j) ≤ counts (largest n counts k i)
  pub greatest :
      (n : ℕ) (counts : ℕ → ℕ) (k s j : ℕ)
      → k ≤ n
      → s < n
      → ((i : ℕ) → i < k → largest n counts k i ≢ s)
      → j < k
      → counts s ≤ counts (largest n counts k j)
