-- ===== src/Codec/Huffman/Lengths.antt =====
-- `_huffman_lengths` from the counts to the lengths, and what the class `Code` needs of them.

use vllm_expert_pager.Base.{
  ℕ, zero, suc, ◌+◌, ◌-◌, ◌*◌, ◌^◌, ◌≤◌, ◌<◌, ◌≡◌, ◌≢◌, refl, sym, ap, ◌∙◌, List, [], ◌∷◌, length,
  arith, tabulate, ok,
}
use vllm_expert_pager.Tensor.Sum.{sum_below, sum_below-ext, sum_below-zero, sum_below-single}
use vllm_expert_pager.Codec.{limit}
use vllm_expert_pager.Codec.Words.{pow_split}
use vllm_expert_pager.Codec.Code.Lut.{IsFull}
use vllm_expert_pager.Codec.Huffman.{
  HeapQueue, Tree, Forest, merges, leaves, lengths_of, huffman_lengths,
}
use vllm_expert_pager.Codec.Huffman.Weights.{total, times, total-Perm, length-total}
use vllm_expert_pager.Codec.Huffman.Kraft.{
  kraft, wrong, wrong-zero, right-zero, InForest, merges-InForest,
}

sum_below-first : (f : ℕ → ℕ) (n : ℕ) → sum_below f (suc n) ≡ f 0 + sum_below (λ i. f (suc i)) n
unfolding sum_below
sum_below-first f zero = omega arith
sum_below-first f (suc n) = omega (arith, sum_below-first f n)

total-tabulate {ℓ} :
    {A : Type ℓ} (f : A → ℕ) (n : ℕ) (g : ℕ → A)
    → total f (tabulate n g) ≡ sum_below (λ i. f (g i)) n
unfolding tabulate sum_below
total-tabulate f zero g = refl
total-tabulate f (suc n) g =
    omega (arith, total-tabulate f n (λ i. g (suc i)), sum_below-first (λ i. f (g i)) n)

ones : (n : ℕ) → sum_below (λ _. 1) n ≡ n
unfolding sum_below
ones zero = refl
ones (suc n) = omega (arith, ones n)

times-one : (s i : ℕ) → i ≡ s → times s (i ∷ []) ≡ 1
times-one s i q = ground arith

times-other : (s i : ℕ) → i ≢ s → times s (i ∷ []) ≡ 0
times-other s i ne = ground arith

whole : (m : ℕ) → m - 0 ≡ m
whole m = omega arith

last_tree {ℓ} : {A : Type ℓ} (h : List A) → length h ≡ 1 → (t : A) × (h ≡ t ∷ [])
last_tree [] one = absurd (omega arith)
last_tree (t ∷ []) one = (t, refl)
last_tree (t ∷ u ∷ h) one = absurd (omega arith)

sixty_four : (f : ℕ → ℕ) (n : ℕ) → sum_below (λ s. 64 * f s) n ≡ 64 * sum_below f n
unfolding sum_below
sixty_four f zero = omega arith
sixty_four f (suc n) = omega (arith, sixty_four f n)

module _ (W : Type 0) (plus : W → W → W) (queue : HeapQueue (Tree W)) (m : ℕ) (counts : ℕ → W) where
  abbrev leaf : ℕ → Tree W
  leaf i = record { weight = counts i; id = i; symbols = i ∷ [] }

  start-total :
      (f : Tree W → ℕ)
      → total f (leaves W plus queue (suc m) counts).heap ≡ sum_below (λ i. f (leaf i)) (suc m)
  unfolding leaves
  start-total f =
      total-Perm f (queue.heapify (tabulate (suc m) leaf)) (tabulate (suc m) leaf)
        (queue.heapify-Perm (tabulate (suc m) leaf))
      ∙ total-tabulate f (suc m) leaf

  start-length : length (leaves W plus queue (suc m) counts).heap ≡ suc m
  start-length =
      length-total (leaves W plus queue (suc m) counts).heap ∙ start-total (λ _. 1) ∙ ones (suc m)

  leaf-even : (i : ℕ) → i < suc m → wrong W m (suc m) (λ _. 0) (leaf i) ≡ 0
  unfolding kraft
  leaf-even i li =
      right-zero W m (suc m) (λ _. 0) (leaf i)
        (sum_below-single (λ s. times s (i ∷ []) * 2 ^ (m - 0)) (suc m) i li
            (λ s ls ne.
              ap (λ (t : ℕ). t * 2 ^ (m - 0)) (times-other s i (λ q. ne (sym q))) ∙ omega arith)
          ∙ ap (λ (t : ℕ). t * 2 ^ (m - 0)) (times-one i i refl)
          ∙ omega (arith, ap (λ (e : ℕ). 2 ^ e) (whole m)))

  leaves-InForest : InForest W m (suc m) (leaves W plus queue (suc m) counts)
  unfolding leaves
  leaves-InForest = record {
    once = λ s ls.
        start-total (λ t. times s t.symbols)
        ∙ sum_below-single (λ i. times s (i ∷ [])) (suc m) s ls (λ i li ne. times-other s i ne)
        ∙ times-one s s refl;
    shallow = λ s ls. omega (arith, start-length);
    some_tree = omega (arith, start-length);
    even =
        start-total (wrong W m (suc m) (λ _. 0))
        ∙ sum_below-ext (λ i. wrong W m (suc m) (λ _. 0) (leaf i)) (λ _. 0) (suc m) leaf-even
        ∙ sum_below-zero (suc m);
  }

  last-Kraft :
      (f : Forest W)
      → InForest W m (suc m) f
      → length f.heap ≡ 1
      → sum_below (λ s. 2 ^ (m - f.lengths s)) (suc m) ≡ 2 ^ m
  last-Kraft f good one =
      let (t, only) = last_tree f.heap one in
      sum_below-ext (λ s. 2 ^ (m - f.lengths s)) (λ s. times s t.symbols * 2 ^ (m - f.lengths s))
        (suc m)
        (λ s ls.
          let here : times s t.symbols ≡ 1 =
            omega (arith, ap (total (λ t. times s t.symbols)) only, good.once s ls) in
          omega (arith, ap (λ (k : ℕ). k * 2 ^ (m - f.lengths s)) here))
      ∙ (unfold kraft in
          wrong-zero W m (suc m) f.lengths t
            (omega (arith, ap (total (wrong W m (suc m) f.lengths)) only, good.even)))

  returned :
      (n : ℕ) (g : Forest W)
      → merges W plus queue n (leaves W plus queue n counts) ≡ ok g
      → huffman_lengths W plus queue n counts ≡ ok g.lengths
  unfolding huffman_lengths
  returned n g q = ap lengths_of q

  -- For every count of `m + 1` symbols and every heap that keeps its entries, `_huffman_lengths` returns
  -- lengths of at most `m` whose Kraft sum is one.
  pub huffman_lengths-returns :
      (s : ℕ)
      → s < suc m
      → (lengths : ℕ → ℕ) × (huffman_lengths W plus queue (suc m) counts ≡ ok lengths)
        × (lengths s ≤ m)
        × (sum_below (λ s. 2 ^ (m - lengths s)) (suc m) ≡ 2 ^ m)
  huffman_lengths-returns s ls =
      let (g, done, good, one) =
        merges-InForest W m (suc m) plus queue (suc m) (leaves W plus queue (suc m) counts)
          leaves-InForest (omega (arith, start-length)) in
      (g.lengths, returned (suc m) g done, omega (arith, good.shallow s ls), last-Kraft g good one)

-- Lengths of at most nine with that sum fill the table of `Code`.
pub Kraft-IsFull :
    (lengths : ℕ → ℕ)
    → ((s : ℕ) → s < 16 → lengths s ≤ limit)
    → sum_below (λ s. 2 ^ (15 - lengths s)) 16 ≡ 2 ^ 15
    → IsFull lengths
Kraft-IsFull lengths short sum = record {
  short = short;
  kraft = omega (
    arith,
    sum,
    sixty_four (λ s. 2 ^ (9 - lengths s)) 16,
    sum_below-ext (λ s. 2 ^ (15 - lengths s)) (λ s. 64 * 2 ^ (9 - lengths s)) 16
        (λ s ls. let le = short s ls in pow_split (15 - lengths s) 6 (9 - lengths s) (omega arith)),
  );
}
