-- ===== src/Codec/Huffman.antt =====
-- src/vllm_expert_pager/codec.py: `_huffman_lengths`. A count is a float of the program, a type with an
-- addition; `heapq` is Python's, and a parameter.
pub mod Weights
pub mod Kraft
pub mod Lengths
pub mod MinimumQueue
use vllm_expert_pager.Base.{
  ℕ, zero, suc, ◌+◌, Bool, true, false, Option, none, some, List, [], ◌∷◌, ◌++◌, length, tabulate,
  ltb, if◌then◌else◌, Result, ok, raise, index_error, ◌≡◌,
}
use mathlib.Core.List.{Perm}
use vllm_expert_pager.Tensor.Put.{update}

-- `heapq` for entries of a type: what its functions leave in the heap.
pub record HeapQueue (A : Type 0) : Type 0 where
  pub heapify : List A → List A
  pub heappush : List A → A → List A
  pub heappop : List A → Option (A × List A)
  pub heapify-Perm : (h : List A) → Perm (heapify h) h
  pub heappush-Perm : (h : List A) (x : A) → Perm (heappush h x) (x ∷ h)
  pub heappop-Perm : (h rest : List A) (x : A) → heappop h ≡ some (x, rest) → Perm h (x ∷ rest)
  pub heappop-some :
      (y : A) (h : List A) → (x : A) × (rest : List A) × (heappop (y ∷ h) ≡ some (x, rest))

-- An entry `(c, n, symbols)` of the heap.
pub record Tree (W : Type 0) : Type 0 where
  pub weight : W
  pub id : ℕ
  pub symbols : List ℕ

pub record Forest (W : Type 0) : Type 0 where
  pub heap : List (Tree W)
  pub lengths : ℕ → ℕ
  pub n : ℕ

-- `return lengths`
abbrev pub lengths_of : {W : Type 0} → Result (Forest W) → Result (ℕ → ℕ)
lengths_of (raise e) = raise e
lengths_of (ok f) = ok f.lengths

-- `for s in symbols: lengths[s] += 1`
unfoldable pub deepen : List ℕ → (ℕ → ℕ) → ℕ → ℕ
unfolding update
deepen [] lengths = lengths
deepen (s ∷ symbols) lengths = deepen symbols (update lengths s (lengths s + 1))

module _ (W : Type 0) (plus : W → W → W) (queue : HeapQueue (Tree W)) where
  -- The body of the loop after both pops.
  unfoldable pub joined : Forest W → Tree W → Tree W → List (Tree W) → Forest W
  unfolding deepen
  joined f a b rest = record {
    heap =
        queue.heappush rest
          (record { weight = plus a.weight b.weight; id = f.n; symbols = a.symbols ++ b.symbols });
    lengths = deepen (a.symbols ++ b.symbols) f.lengths;
    n = f.n + 1;
  }

  -- One turn of the loop.
  unfoldable pub merge : Forest W → Result (Forest W)
  unfolding joined
  merge f = elim (queue.heappop f.heap) [
    | none ↦ raise index_error
    | some (a, heap) ↦ elim (queue.heappop heap) [
      | none ↦ raise index_error
      | some (b, rest) ↦ ok (joined f a b rest)
    ]
  ]

  -- `while len(heap) > 1`, on fuel.
  unfoldable pub merges : ℕ → Forest W → Result (Forest W)
  unfolding merge
  merges zero f = ok f
  merges (suc fuel) f =
      let rest : Result (Forest W) = elim (merge f) [ raise e ↦ raise e | ok g ↦ merges fuel g ] in
      if ltb 1 (length f.heap) then rest else ok f

  -- The forest of `n` symbols.
  unfoldable pub leaves : ℕ → (ℕ → W) → Forest W
  leaves n counts = record {
    heap = queue.heapify (tabulate n (λ i. record { weight = counts i; id = i; symbols = i ∷ [] }));
    lengths = λ _. 0;
    n = n;
  }

  unfoldable pub huffman_lengths : ℕ → (ℕ → W) → Result (ℕ → ℕ)
  unfolding merges leaves
  huffman_lengths n counts = lengths_of (merges n (leaves n counts))
