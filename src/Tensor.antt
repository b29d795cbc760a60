-- ===== src/Tensor.antt =====
-- One-dimensional torch tensors as functions of an index, and the torch operations that the tables
-- are written with. A tensor's length stands in the record that holds it. Elementwise operations
-- are written out (`torch.where` is `if`); an entry that the code keeps at -1 or an index is an
-- `Option ℕ`, with `none` for -1. The children have the writes, the running sums and the sort.
pub mod Put
pub mod Count
pub mod Sum
pub mod Argsort
pub mod InsertionSort
pub mod Ranks
