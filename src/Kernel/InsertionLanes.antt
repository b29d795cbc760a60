-- ===== src/Kernel/InsertionLanes.antt =====
-- A sort of lanes that meets the interface of Kernel/Sort: the insertion sort of Tensor/InsertionSort.
use vllm_expert_pager.Base.{ℕ, ◌<◌, ◌≤◌, arith}
use vllm_expert_pager.Tensor.InsertionSort.{
  insertion_sort, insertion_order, insertion_bounded, insertion_onto, insertion_ascending,
}
use vllm_expert_pager.Table.Victim.{order-injective}
use vllm_expert_pager.Kernel.Sort.{TlSort}

pub lane_ascending :
    (n : ℕ) (x : ℕ → ℕ) (i j : ℕ)
    → i < j
    → j < n
    → x (insertion_order n x i) ≤ x (insertion_order n x j)
lane_ascending n x i j lt lj = ground (arith, insertion_ascending n x i j lt lj)

abbrev pub lane_sort : TlSort
lane_sort = record {
  source = insertion_order;
  bounded = insertion_bounded;
  onto = insertion_onto;
  injective = order-injective insertion_sort;
  ascending = lane_ascending;
}
