-- ===== src/Base/Results.antt =====
-- Python's exceptions as values.
pub data Error : Type 0 where
  value_error runtime_error file_exists_error assertion_error index_error : Error

pub data Result {ℓ} (A : Type ℓ) : Type ℓ where
  ok : A → Result A
  raise : Error → Result A
