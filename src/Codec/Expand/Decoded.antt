-- ===== src/Codec/Expand/Decoded.antt =====
-- `decode_rows` on staging rows that `encode` made.
use vllm_expert_pager.Base.{
  ℕ, ◌*◌, ◌/◌, ◌%◌, ◌^◌, ◌≤◌, ◌<◌, ◌≡◌, ◌≢◌, ◌⊎◌, sym, ap, ◌∙◌, inl, inr, Bool, true, false, arith,
  Option, some, ℕ_discrete, dec_lt, Result, ok, raise,
}
use vllm_expert_pager.Tensor.Argsort.{Argsort, AnySort}
use vllm_expert_pager.Codec.{lanes}
use vllm_expert_pager.Codec.Code.{codes}
use vllm_expert_pager.Codec.Code.Lut.{IsFull}
use vllm_expert_pager.Codec.Encode.{encode, byte_of, nbytes}
use vllm_expert_pager.Codec.Decode.{store_groups}
use vllm_expert_pager.Codec.Expand.{groups, Slabs, target, decode_rows}
use vllm_expert_pager.Codec.Expand.Rows.{Apart, decode_rows-target}
use vllm_expert_pager.Codec.RoundTrip.{encode-store_groups, encode-raises}

-- A record and a table that `encode` made of a row of bytes.
pub record Compressed (sort : Argsort) (argsort : AnySort) (chunk N : ℕ) (raw record_ lut : ℕ → ℕ)
    : Type 0 where
  pub lengths : ℕ → ℕ
  pub pitch : ℕ
  pub full : IsFull lengths
  pub bytes : (x : ℕ) → raw x < 256
  pub narrow : pitch < 2 ^ 31
  pub encoded : encode sort argsort lengths chunk N raw pitch ≡ ok (record_, lut)

is_ok : {A : Type 0} → Result A → Bool
is_ok (ok a) = true
is_ok (raise e) = false

from_ok : {A : Type 0} → A → Result A → A
from_ok d (ok a) = a
from_ok d (raise e) = d

-- A row that was encoded is of whole groups and fits in its pitch.
whole_and_fits :
    (sort : Argsort) (argsort : AnySort) (chunk N : ℕ) (raw record_ lut : ℕ → ℕ)
    (c : Compressed sort argsort chunk N raw record_ lut)
    → (N % (chunk * lanes) ≡ 0)
      × (nbytes argsort c.lengths (codes sort c.lengths) chunk N raw ≤ c.pitch)
unfolding is_ok
whole_and_fits sort argsort chunk N raw record_ lut c = (
  elim (ℕ_discrete (N % (chunk * lanes)) 0) [
    | yes q ↦ q
    | no ne ↦ absurd (ground (arith, refused (inl ne)))
  ],
  elim (dec_lt c.pitch (nbytes argsort c.lengths (codes sort c.lengths) chunk N raw)) [
    | yes lt ↦ absurd (ground (arith, refused (inr lt)))
    | no ge ↦ omega arith
  ],
)
  where
    refused :
        (N % (chunk * lanes) ≢ 0)
          ⊎ (c.pitch < nbytes argsort c.lengths (codes sort c.lengths) chunk N raw)
        → false ≡ true
    refused bad =
        ap is_ok
          (sym (encode-raises sort argsort c.lengths c.full chunk N raw c.pitch bad) ∙ c.encoded)

Compressed-bytes :
    (sort : Argsort) (argsort : AnySort) (chunk N : ℕ) (raw record_ lut dst : ℕ → ℕ) (x : ℕ)
    → Compressed sort argsort chunk N raw record_ lut
    → 0 < chunk
    → chunk % 8 ≡ 0
    → x < N
    → byte_of (store_groups lut record_ (groups N chunk) chunk (groups N chunk) dst (x / 8)) (x % 8)
      ≡ raw x
unfolding from_ok
Compressed-bytes sort argsort chunk N raw record_ lut dst x c some_chunk eights lx =
    let (whole, fits) = whole_and_fits sort argsort chunk N raw record_ lut c in
    let (r, l, made, right) =
      encode-store_groups sort argsort c.lengths c.full chunk N raw c.pitch some_chunk eights
        c.bytes whole fits c.narrow dst x lx in
    let same : (record_, lut) ≡ (r, l) = ap (from_ok (r, l)) (sym c.encoded ∙ made) in
    ap
      (λ (p : (ℕ → ℕ) × (ℕ → ℕ)).
        byte_of (store_groups p.1 p.0 (groups N chunk) chunk (groups N chunk) dst (x / 8)) (x % 8))
      same
    ∙ right

module _ (K : ℕ) (todo dst_row cache_row : ℕ → Option ℕ) (stg0 stg1 : ℕ → ℕ → ℕ)
    (lut : ℕ → ℕ → ℕ → ℕ) (skip : Option (ℕ → Option ℕ)) (chunk N0 N1 : ℕ) where
  -- When an entry of the list is active, no other active entry has its destination row, and its staging
  -- rows and tables are what `encode` made of a row of each name, then `decode_rows` leaves those two rows
  -- in its destination row of the two slabs.
  pub decode_rows-expands :
      (sort : Argsort) (argsort : AnySort) (raw0 raw1 : ℕ → ℕ) (j e row : ℕ) (s : Slabs) (x y : ℕ)
      → 0 < chunk
      → chunk % 8 ≡ 0
      → j < K
      → target K todo dst_row cache_row stg0 stg1 lut skip chunk N0 N1 j ≡ some (e, row)
      → ((i : ℕ)
          → i < K
          → i ≢ j
          → Apart K todo dst_row cache_row stg0 stg1 lut skip chunk N0 N1 i row)
      → Compressed sort argsort chunk N0 raw0 (stg0 j) (lut e 0)
      → Compressed sort argsort chunk N1 raw1 (stg1 j) (lut e 1)
      → x < N0
      → y < N1
      → (byte_of
            ((decode_rows K todo dst_row cache_row stg0 stg1 lut skip chunk N0 N1 s).rows0 row
              (x / 8))
            (x % 8)
          ≡ raw0 x)
        × (byte_of
              ((decode_rows K todo dst_row cache_row stg0 stg1 lut skip chunk N0 N1 s).rows1 row
                (y / 8))
              (y % 8)
            ≡ raw1 y)
  decode_rows-expands sort argsort raw0 raw1 j e row s x y some_chunk eights lj here apart c0 c1 lx
        ly =
      let (row0, row1) =
        decode_rows-target K todo dst_row cache_row stg0 stg1 lut skip chunk N0 N1 j e row s lj here
          apart in
      (
        ap (λ (t : ℕ → ℕ). byte_of (t (x / 8)) (x % 8)) row0
            ∙ Compressed-bytes sort argsort chunk N0 raw0 (stg0 j) (lut e 0) (s.rows0 row) x c0
                some_chunk eights lx,
        ap (λ (t : ℕ → ℕ). byte_of (t (y / 8)) (y % 8)) row1
            ∙ Compressed-bytes sort argsort chunk N1 raw1 (stg1 j) (lut e 1) (s.rows1 row) y c1
                some_chunk eights ly,
      )
