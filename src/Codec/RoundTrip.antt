-- ===== src/Codec/RoundTrip.antt =====
-- From a row to its record and back: `encode` and then every program of the row's groups.

use vllm_expert_pager.Base.{
  ℕ, ◌+◌, ◌*◌, ◌/◌, ◌%◌, ◌^◌, ◌≤◌, ◌<◌, ◌≡◌, ◌≢◌, ◌⊎◌, refl, inl, inr, true, false, arith, ltb,
  ◌==◌, Bool-cases, ok, raise, value_error, Option, some,
}
use vllm_expert_pager.Tensor.Argsort.{Argsort, AnySort}
use vllm_expert_pager.Codec.{lanes}
use vllm_expert_pager.Codec.Code.{codes}
use vllm_expert_pager.Codec.Code.Lut.{IsFull, make_lut-table}
use vllm_expert_pager.Codec.Encode.{record_bytes, byte_of, fit_record, lut_tensor, encode, nbytes}
use vllm_expert_pager.Codec.Decode.{store_groups}
use vllm_expert_pager.Codec.Decode.Rows.{store_groups-bytes}

pub lut_tensor-some : (l : ℕ → Option ℕ) (x v : ℕ) → l x ≡ some v → lut_tensor l x ≡ v
unfolding lut_tensor
lut_tensor-some l x v q = rw (lut_tensor, q) refl

module _ (sort : Argsort) (argsort : AnySort) (lengths : ℕ → ℕ) (good : IsFull lengths)
    (chunk N : ℕ) (raw : ℕ → ℕ) (pitch : ℕ) where
  abbrev size : ℕ
  size = nbytes argsort lengths (codes sort lengths) chunk N raw

  -- A row of whole groups whose record fits in the pitch is encoded; and from any contents of the
  -- destination, the programs of the row's groups, run on that record and table, leave in each byte of
  -- the row the byte that was encoded. The lengths are at most nine and fill the table, a chunk has a
  -- positive multiple of eight values, and the pitch is below 2 ^ 31.
  pub encode-store_groups :
      0 < chunk
      → chunk % 8 ≡ 0
      → ((x : ℕ) → raw x < 256)
      → N % (chunk * lanes) ≡ 0
      → size ≤ pitch
      → pitch < 2 ^ 31
      → (dst : ℕ → ℕ) (x : ℕ) → x < N
      → (record_ : ℕ → ℕ) × (lut : ℕ → ℕ) × (encode sort argsort lengths chunk N raw pitch
          ≡ ok (record_, lut))
        × (byte_of
              (store_groups lut record_
                (N / (chunk * lanes))
                chunk
                (N / (chunk * lanes))
                dst
                (x / 8))
              (x % 8)
            ≡ raw x)
  unfolding encode fit_record nbytes
  encode-store_groups some_chunk eights bytes whole room narrow dst x lx =
      let (l, made, table) = make_lut-table sort lengths good in
      let divides : (N % (chunk * lanes) == 0) ≡ true = ground arith in
      let fits : ltb pitch size ≡ false = ground arith in
      (
        record_bytes argsort lengths (codes sort lengths) chunk N raw,
        lut_tensor l,
        rw (divides, made, fits) refl,
        store_groups-bytes sort argsort lengths good chunk N raw some_chunk whole eights bytes
            (lut_tensor l)
            (λ s hi ls lh.
              lut_tensor-some l (codes sort lengths s + hi * 2 ^ lengths s) _ (table s hi ls lh))
            (omega arith) dst x lx,
      )

  -- The two errors of `encode`, for code lengths whose table can be made.
  pub encode-raises :
      (N % (chunk * lanes) ≢ 0) ⊎ (pitch < size)
      → encode sort argsort lengths chunk N raw pitch ≡ raise value_error
  unfolding encode fit_record
  encode-raises (inl uneven) =
      let divides : (N % (chunk * lanes) == 0) ≡ false = ground arith in rw divides refl
  encode-raises (inr large) =
      let (l, made, table) = make_lut-table sort lengths good in
      let fits : ltb pitch size ≡ true = ground arith in
      elim (Bool-cases (N % (chunk * lanes) == 0)) [
        | inl even ↦ rw (even, made, fits) refl
        | inr odd ↦ rw odd refl
      ]
