-- ===== src/Codec/Huffman/Kraft.antt =====
-- The lengths that `_huffman_lengths` returns, as the depths of the leaves of one binary tree.
use native.Mathlib.Nat.{pow-suc, add-mul, add-zero}
use vllm_expert_pager.Base.{
  ℕ, zero, suc, ◌+◌, ◌-◌, ◌*◌, ◌^◌, ◌≤◌, ◌<◌, ◌≡◌, refl, sym, ap, ◌∙◌, inl, inr, List, [], ◌∷◌,
  ◌++◌, length, arith, ◌==◌, if◌then◌else◌, true, Bool-cases, ltb, ok, some, ℕ_discrete,
}
use vllm_expert_pager.Tensor.Put.{update}
use vllm_expert_pager.Tensor.Sum.{sum_below, sum_below-ext, sum_below-add}
use vllm_expert_pager.Codec.Huffman.{HeapQueue, Tree, Forest, deepen, joined, merge, merges}
use vllm_expert_pager.Codec.Huffman.Weights.{total, times, times-append, total-Perm, length-total}

deepen-times :
    (symbols : List ℕ) (lengths : ℕ → ℕ) (s : ℕ)
    → deepen symbols lengths s ≡ lengths s + times s symbols
unfolding deepen update
deepen-times [] lengths s = omega arith
deepen-times (t ∷ symbols) lengths s =
    ground (arith, deepen-times symbols (update lengths t (lengths t + 1)) s)

pops :
    {A : Type 0} (queue : HeapQueue A) (h : List A)
    → 0 < length h
    → (x : A) × (rest : List A) × (queue.heappop h ≡ some (x, rest))
pops queue [] some_ = absurd (omega arith)
pops queue (y ∷ h) some_ = queue.heappop-some y h

popped :
    {A : Type 0} (queue : HeapQueue A) (h rest : List A) (x : A)
    → queue.heappop h ≡ some (x, rest)
    → length h ≡ length rest + 1
popped queue h rest x q = omega (
  arith,
  length-total h,
  length-total rest,
  total-Perm (λ _. 1) h (x ∷ rest) (queue.heappop-Perm h rest x q),
)

module _ (W : Type 0) (m : ℕ) where
  -- The Kraft sum of a tree's symbols, in units of 2 ^ -m.
  unfoldable pub kraft : ℕ → (ℕ → ℕ) → List ℕ → ℕ
  kraft n lengths symbols = sum_below (λ s. times s symbols * 2 ^ (m - lengths s)) n

  -- Whether it is one.
  unfoldable pub wrong : ℕ → (ℕ → ℕ) → Tree W → ℕ
  unfolding kraft
  wrong n lengths t = if kraft n lengths t.symbols == 2 ^ m then 0 else 1

  -- Every symbol is in one tree, no deeper than the merges so far, and the Kraft sum of each tree is one.
  pub record InForest (n : ℕ) (f : Forest W) : Type 0 where
    pub once : (s : ℕ) → s < n → total (λ t. times s t.symbols) f.heap ≡ 1
    pub shallow : (s : ℕ) → s < n → f.lengths s + length f.heap ≤ m + 1
    pub some_tree : 0 < length f.heap
    pub even : total (wrong n f.lengths) f.heap ≡ 0

  -- A symbol one level deeper.
  halved : (o l : ℕ) → o ≤ 1 → (o ≡ 1 → l < m) → 2 * (o * 2 ^ (m - (l + o))) ≡ o * 2 ^ (m - l)
  halved o l lo deep = elim (ℕ_discrete o 0) [
    | yes none_ ↦ rw none_ (omega arith)
    | no some_ ↦
        let one : o ≡ 1 = omega arith in
        rw one (omega (arith, pow-suc 2 (m - (l + 1)), ap (λ (e : ℕ). 2 ^ e) (below l (deep one))))
  ]
    where
      below : (l : ℕ) → l < m → m - l ≡ suc (m - (l + 1))
      below l lt = omega arith

  -- The tree of two trees.
  kraft-joined :
      (n : ℕ) (lengths : ℕ → ℕ) (xs ys : List ℕ)
      → ((s : ℕ) → s < n → times s xs + times s ys ≤ 1)
      → ((s : ℕ) → s < n → lengths s < m)
      → 2 * kraft n (deepen (xs ++ ys) lengths) (xs ++ ys) ≡ kraft n lengths xs + kraft n lengths ys
  unfolding kraft
  kraft-joined n lengths xs ys apart deep =
      omega (arith, sum_below-add deeper deeper n)
      ∙ sum_below-ext (λ s. deeper s + deeper s) (λ s. part xs s + part ys s) n
          (λ s ls. omega (
            arith,
            ap (λ (t : ℕ). t * 2 ^ (m - deepen (xs ++ ys) lengths s)) (times-append s xs ys),
            ap (λ (e : ℕ). (times s xs + times s ys) * 2 ^ (m - e))
                (deepen-times (xs ++ ys) lengths s),
            ap (λ (e : ℕ). (times s xs + times s ys) * 2 ^ (m - (lengths s + e)))
                (times-append s xs ys),
            halved (times s xs + times s ys) (lengths s) (apart s ls) (λ _. deep s ls),
            add-mul (times s xs) (times s ys) (2 ^ (m - lengths s)),
          ))
      ∙ sum_below-add (part xs) (part ys) n
    where
      deeper : ℕ → ℕ
      deeper s = times s (xs ++ ys) * 2 ^ (m - deepen (xs ++ ys) lengths s)

      part : List ℕ → ℕ → ℕ
      part zs s = times s zs * 2 ^ (m - lengths s)

  -- A symbol of another tree keeps its depth.
  kept : (o z l : ℕ) → z + o ≤ 1 → o * 2 ^ (m - (l + z)) ≡ o * 2 ^ (m - l)
  kept o z l apart = elim (ℕ_discrete o 0) [
    | yes none_ ↦ rw none_ (omega arith)
    | no some_ ↦
        let z_none : z ≡ 0 = omega arith in rw z_none (ap (λ (e : ℕ). o * 2 ^ (m - e)) (add-zero l))
  ]

  -- The trees that keep their depth.
  wrong-kept :
      (n : ℕ) (lengths : ℕ → ℕ) (zs : List ℕ) (rest : List (Tree W))
      → ((s : ℕ) → s < n → times s zs + total (λ t. times s t.symbols) rest ≤ 1)
      → total (wrong n (deepen zs lengths)) rest ≡ total (wrong n lengths) rest
  unfolding wrong kraft
  wrong-kept n lengths zs [] apart = refl
  wrong-kept n lengths zs (t ∷ rest) apart =
      let same : kraft n (deepen zs lengths) t.symbols ≡ kraft n lengths t.symbols =
        sum_below-ext _ _ n (λ s ls.
          ap (λ (e : ℕ). times s t.symbols * 2 ^ (m - e)) (deepen-times zs lengths s)
          ∙ kept (times s t.symbols) (times s zs) (lengths s) (omega (arith, apart s ls))) in
      omega (
        arith,
        ap {B = ℕ} (λ (k : ℕ). if k == 2 ^ m then 0 else 1) same,
        wrong-kept n lengths zs rest (λ s ls. omega (arith, apart s ls)),
      )

  pub wrong-zero :
      (n : ℕ) (lengths : ℕ → ℕ) (t : Tree W)
      → wrong n lengths t ≡ 0
      → kraft n lengths t.symbols ≡ 2 ^ m
  unfolding wrong
  wrong-zero n lengths t none_ = ground arith

  pub right-zero :
      (n : ℕ) (lengths : ℕ → ℕ) (t : Tree W)
      → kraft n lengths t.symbols ≡ 2 ^ m
      → wrong n lengths t ≡ 0
  unfolding wrong
  right-zero n lengths t one = ground arith

  module _ (n : ℕ) (plus : W → W → W) (queue : HeapQueue (Tree W)) (f : Forest W) (a b : Tree W)
      (heap rest : List (Tree W)) (good : InForest n f)
      (pop_a : queue.heappop f.heap ≡ some (a, heap))
      (pop_b : queue.heappop heap ≡ some (b, rest)) where
    abbrev symbols : List ℕ
    symbols = a.symbols ++ b.symbols

    abbrev tree : Tree W
    tree = record { weight = plus a.weight b.weight; id = f.n; symbols = symbols }

    abbrev pushed : List (Tree W)
    pushed = queue.heappush rest tree

    took : (g : Tree W → ℕ) → total g f.heap ≡ g a + (g b + total g rest)
    took g =
        total-Perm g f.heap (a ∷ heap) (queue.heappop-Perm f.heap heap a pop_a)
        ∙ ap (λ (t : ℕ). g a + t)
            (total-Perm g heap (b ∷ rest) (queue.heappop-Perm heap rest b pop_b))

    put : (g : Tree W → ℕ) → total g pushed ≡ g tree + total g rest
    put g = total-Perm g pushed (tree ∷ rest) (queue.heappush-Perm rest tree)

    sizes : (length pushed + 1 ≡ length f.heap) × (0 < length pushed)
    sizes =
        let before_ = took (λ _. 1) in
        let after_ = put (λ _. 1) in
        let old = length-total f.heap in let new = length-total pushed in (omega arith, omega arith)

    apart :
        (s : ℕ)
        → s < n
        → times s a.symbols + (times s b.symbols + total (λ t. times s t.symbols) rest) ≡ 1
    apart s ls = sym (took (λ t. times s t.symbols)) ∙ good.once s ls

    deep : (s : ℕ) → s < n → f.lengths s < m
    deep s ls = omega (arith, good.shallow s ls, sizes)

    tree-even : kraft n (deepen symbols f.lengths) symbols ≡ 2 ^ m
    tree-even =
        let none_ = took (wrong n f.lengths) in
        let start = good.even in
        let left = wrong-zero n f.lengths a (omega arith) in
        let right = wrong-zero n f.lengths b (omega arith) in
        omega (
          arith,
          kraft-joined n f.lengths a.symbols b.symbols (λ s ls. omega (arith, apart s ls)) deep,
          left,
          right,
        )

    pushed-even : total (wrong n (deepen symbols f.lengths)) pushed ≡ 0
    pushed-even = omega (
      arith,
      put (wrong n (deepen symbols f.lengths)),
      right-zero n (deepen symbols f.lengths) tree tree-even,
      wrong-kept n f.lengths symbols rest
          (λ s ls. omega (arith, apart s ls, times-append s a.symbols b.symbols)),
      took (wrong n f.lengths),
      good.even,
    )

    -- A turn of the loop keeps the forest and takes one tree away.
    joined-InForest : InForest n (joined W plus queue f a b rest)
    unfolding joined
    joined-InForest = record {
      once = λ s ls.
          put (λ t. times s t.symbols)
          ∙ omega (arith, times-append s a.symbols b.symbols, apart s ls);
      shallow = λ s ls. omega (
        arith,
        deepen-times symbols f.lengths s,
        times-append s a.symbols b.symbols,
        apart s ls,
        good.shallow s ls,
        sizes,
      );
      some_tree = sizes.1;
      even = pushed-even;
    }

  turn :
      (plus : W → W → W) (queue : HeapQueue (Tree W)) (fuel : ℕ) (f : Forest W) (a b : Tree W)
      (heap rest : List (Tree W))
      → ltb 1 (length f.heap) ≡ true
      → queue.heappop f.heap ≡ some (a, heap)
      → queue.heappop heap ≡ some (b, rest)
      → merges W plus queue (suc fuel) f ≡ merges W plus queue fuel (joined W plus queue f a b rest)
  unfolding merges merge
  turn plus queue fuel f a b heap rest more pop_a pop_b = rw (more, pop_a, pop_b) refl

  -- The loop ends with one tree.
  pub merges-InForest :
      (n : ℕ) (plus : W → W → W) (queue : HeapQueue (Tree W)) (fuel : ℕ) (f : Forest W)
      → InForest n f
      → length f.heap ≤ fuel + 1
      → (g : Forest W) × (merges W plus queue fuel f ≡ ok g) × InForest n g × (length g.heap ≡ 1)
  unfolding merges
  merges-InForest n plus queue zero f good few = (f, refl, good, omega (arith, good.some_tree))
  merges-InForest n plus queue (suc fuel) f good few = elim (Bool-cases (ltb 1 (length f.heap))) [
    | inr one ↦ (f, rw one refl, good, ground (arith, good.some_tree))
    | inl more ↦
        let (a, heap, pop_a) = pops queue f.heap (omega (arith, good.some_tree)) in
        let length_a = popped queue f.heap heap a pop_a in
        let (b, rest, pop_b) = pops queue heap (ground arith) in
        let size = sizes n plus queue f a b heap rest good pop_a pop_b in
        let (g, done, good_g, one) =
          merges-InForest n plus queue fuel (joined W plus queue f a b rest)
            (joined-InForest n plus queue f a b heap rest good pop_a pop_b) (omega (arith, size)) in
        (g, turn plus queue fuel f a b heap rest more pop_a pop_b ∙ done, good_g, one)
  ]
