-- ===== src/Codec/Huffman/MinimumQueue.antt =====
-- A queue that meets the interface of `heapq`: a list from which the least entry is taken, the one with
-- the lower count and then the lower number.
use mathlib.Core.List.{Perm}
use mathlib.Core.List.Perm
use vllm_expert_pager.Base.{
  ℕ, ◌≡◌, refl, subst, inl, inr, List, [], ◌∷◌, Option, none, some, Bool, ◌&&◌, ◌||◌, ltb, ◌==◌,
  if◌then◌else◌, Bool-cases,
}
use mathlib.Core.Option.{none-ne-some, some-injective}
use vllm_expert_pager.Codec.Huffman.{HeapQueue, Tree}

unfoldable pub before : Tree ℕ → Tree ℕ → Bool
before a b = ltb a.weight b.weight || a.weight == b.weight && ltb a.id b.id

-- The least entry of `y ∷ h`, and the others.
unfoldable pub least : Tree ℕ → List (Tree ℕ) → Tree ℕ × List (Tree ℕ)
unfolding before
least y [] = (y, [])
least y (z ∷ h) =
    let rest = least z h in if before y rest.0 then (y, z ∷ h) else (rest.0, y ∷ rest.1)

abbrev pub pop : List (Tree ℕ) → Option (Tree ℕ × List (Tree ℕ))
pop [] = none
pop (y ∷ h) = some (least y h)

least-Perm : (y : Tree ℕ) (h : List (Tree ℕ)) → Perm (y ∷ h) ((least y h).0 ∷ (least y h).1)
unfolding least
least-Perm y [] = Perm.refl _
least-Perm y (z ∷ h) = elim (Bool-cases (before y (least z h).0)) [
  | inl first ↦ rw first (Perm.refl _)
  | inr later ↦ rw later (Perm.trans (Perm.cons y (least-Perm z h)) (Perm.swap _ _ _))
]

pub pop-Perm : (h rest : List (Tree ℕ)) (x : Tree ℕ) → pop h ≡ some (x, rest) → Perm h (x ∷ rest)
pop-Perm [] rest x q = absurd (none-ne-some (x, rest) q)
pop-Perm (y ∷ h) rest x q =
    subst (λ (p : Tree ℕ × List (Tree ℕ)). Perm (y ∷ h) (p.0 ∷ p.1))
      (some-injective (least y h) (x, rest) q) (least-Perm y h)

abbrev pub minimum_queue : HeapQueue (Tree ℕ)
minimum_queue = record {
  heapify = λ h. h;
  heappush = λ h x. x ∷ h;
  heappop = pop;
  heapify-Perm = λ h. Perm.refl h;
  heappush-Perm = λ h x. Perm.refl (x ∷ h);
  heappop-Perm = pop-Perm;
  heappop-some = λ y h. ((least y h).0, (least y h).1, refl);
}
