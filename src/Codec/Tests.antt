-- ===== src/Codec/Tests.antt =====
-- Runs of the codec on small inputs, and the theorems at a row whose codes have one to nine bits.
use vllm_expert_pager.Base.{
  ℕ, ◌+◌, ◌-◌, ◌*◌, ◌/◌, ◌%◌, ◌^◌, ◌<◌, ◌≤◌, ◌≡◌, ◌==◌, List, Result, tabulate, refl, inl, arith,
  Option, some, none, ◌≢◌, ltb, true, if◌then◌else◌, [], ◌∷◌, map, ok, raise, value_error,
}
use vllm_expert_pager.Tensor.Sum.{sum_below}
use vllm_expert_pager.Tensor.Count.{count}
use vllm_expert_pager.Tensor.Argsort.{any_order}
use vllm_expert_pager.Tensor.Put.{update}
use vllm_expert_pager.Tensor.InsertionSort.{insertion_sort, insertion_order, sorted, insert}
use vllm_expert_pager.Codec.Huffman.{huffman_lengths, merges, merge, joined, deepen, leaves}
use vllm_expert_pager.Codec.Huffman.MinimumQueue.{minimum_queue, least}
use vllm_expert_pager.Codec.Huffman.MinimumQueue
use vllm_expert_pager.Codec.Huffman.Lengths.{huffman_lengths-returns}
use vllm_expert_pager.Codec.{limit}
use vllm_expert_pager.Codec.Code.{reversed, read_reversed, order, code_at, canon, codes, make_lut}
use vllm_expert_pager.Codec.Code.Lut.{IsFull, make_lut-decodes, make_lut-table, codes-lt}
use vllm_expert_pager.Codec.Encode.{
  before, cumsum_before, nw, total_words, interleaved, encode, nbytes, lut_tensor, record_bytes,
  gstart, byte_of,
}
use vllm_expert_pager.Codec.Encode.Chunks.{stream}
use vllm_expert_pager.Codec.Encode.Keys.{loads}
use vllm_expert_pager.Codec.Encode.Interleave.{interleaved-stream}
use vllm_expert_pager.Codec.Decode.{lanes_at, store_groups}
use vllm_expert_pager.Codec.Decode.Registers.{InStep, lanes_at-InStep}
use vllm_expert_pager.Codec.Expand.{target, active, decode_rows}
use vllm_expert_pager.Codec.Expand.Rows.{Apart}
use vllm_expert_pager.Codec.Expand.Decoded.{Compressed, decode_rows-expands}
use vllm_expert_pager.Codec.RoundTrip.{encode-store_groups, encode-raises, lut_tensor-some}

abbrev mixed : ℕ → ℕ
mixed s = if ltb s 3 then s + 1 else if ltb s 6 then 5 else if ltb s 12 then 8 else 9

mixed-IsFull : IsFull mixed
unfolding sum_below
mixed-IsFull = record { short = λ s ls. ground arith; kraft = refl }

abbrev row : ℕ → ℕ
row x = x * 37 % 256

row-byte : (x : ℕ) → row x < 256
row-byte x = omega arith

abbrev mixed_codes : ℕ → ℕ
mixed_codes = codes insertion_sort mixed

mixed_codes-lt : (s : ℕ) → s < 16 → mixed_codes s < 2 ^ mixed s
mixed_codes-lt = codes-lt insertion_sort mixed mixed-IsFull

codes_run : map mixed_codes (0 ∷ 1 ∷ 2 ∷ 3 ∷ 6 ∷ 15 ∷ []) ≡ 0 ∷ 1 ∷ 3 ∷ 7 ∷ 31 ∷ 511 ∷ []
unfolding codes canon code_at order reversed read_reversed update insertion_order sorted insert
codes_run = refl

words_run : nw (any_order insertion_sort) mixed mixed_codes 8 256 row 1 ≡ 2
unfolding nw before cumsum_before sum_below
words_run = refl

size_run : nbytes (any_order insertion_sort) mixed mixed_codes 8 256 row ≤ 600
unfolding nbytes total_words nw before cumsum_before sum_below
size_run = omega arith

abbrev table : ℕ → ℕ
table = lut_tensor (make_lut-table insertion_sort mixed mixed-IsFull).0

table-decodes :
    (s hi : ℕ)
    → s < 16
    → hi < 2 ^ (limit - mixed s)
    → table (mixed_codes s + hi * 2 ^ mixed s) ≡ s * 2 ^ 4 + mixed s
table-decodes s hi ls lh =
    lut_tensor-some (make_lut-table insertion_sort mixed mixed-IsFull).0
      (mixed_codes s + hi * 2 ^ mixed s) (s * 2 ^ 4 + mixed s)
      ((make_lut-table insertion_sort mixed mixed-IsFull).2 s hi ls lh)

make_lut-decodes_example :
    (l : ℕ → Option ℕ) × (make_lut insertion_sort mixed ≡ ok l)
    × (l (mixed_codes 6 + 1 * 2 ^ 8) ≡ some (6 * 2 ^ 4 + 8))
make_lut-decodes_example =
    make_lut-decodes insertion_sort mixed mixed-IsFull 6 1 (omega arith) (omega arith)

loads_first :
    loads
      (any_order insertion_sort)
      mixed
      mixed_codes
      8
      256
      row
      mixed-IsFull.short
      mixed_codes-lt
      (omega arith)
      refl
      5
    ≡ true
unfolding before cumsum_before sum_below
loads_first = ground arith

interleaved-stream_example :
    interleaved (any_order insertion_sort) mixed mixed_codes 8 256 row (
      count
        (loads
          (any_order insertion_sort)
          mixed
          mixed_codes
          8
          256
          row
          mixed-IsFull.short
          mixed_codes-lt
          (omega arith)
          refl)
        5)
    ≡ stream
        (any_order insertion_sort)
        mixed
        mixed_codes
        8
        256
        row
        mixed-IsFull.short
        mixed_codes-lt
        (omega arith)
        5
        8
      / 2 ^ (32 * 0)
      % 2 ^ 32
interleaved-stream_example =
    interleaved-stream (any_order insertion_sort) mixed mixed_codes 8 256 row mixed-IsFull.short
      mixed_codes-lt (omega arith) refl 5 (omega arith) loads_first

lanes_at-InStep_example :
    InStep
      (any_order insertion_sort)
      mixed
      mixed_codes
      8
      256
      row
      mixed-IsFull.short
      mixed_codes-lt
      (omega arith)
      refl
      refl
      row-byte
      table
      table-decodes
      0
      3
      (lanes_at table
        (record_bytes (any_order insertion_sort) mixed mixed_codes 8 256 row)
        1
        8
        0
        (gstart (any_order insertion_sort) mixed mixed_codes 8 256 row 0)
        3)
lanes_at-InStep_example =
    lanes_at-InStep (any_order insertion_sort) mixed mixed_codes 8 256 row mixed-IsFull.short
      mixed_codes-lt (omega arith) refl refl row-byte table table-decodes 0 3 (omega arith)
      (omega arith)

encode-store_groups_example :
    (record_ : ℕ → ℕ) × (lut : ℕ → ℕ) × (encode insertion_sort
        (any_order insertion_sort)
        mixed
        8
        256
        row
        600
      ≡ ok (record_, lut))
    × (byte_of (store_groups lut record_ 1 8 1 (λ _. 0) (100 / 8)) (100 % 8) ≡ row 100)
encode-store_groups_example =
    encode-store_groups insertion_sort (any_order insertion_sort) mixed mixed-IsFull 8 256 row 600
      (omega arith) refl row-byte refl size_run (omega arith) (λ _. 0) 100 (omega arith)

uneven_raises :
    encode insertion_sort (any_order insertion_sort) mixed 8 250 row 600 ≡ raise value_error
uneven_raises =
    encode-raises insertion_sort (any_order insertion_sort) mixed mixed-IsFull 8 250 row 600
      (inl (omega arith))

abbrev few_counts : ℕ → ℕ
few_counts i = if i == 0 then 5 else if i == 3 then 2 else 1

abbrev first_four : Result (ℕ → ℕ) → List ℕ
first_four (raise e) = []
first_four (ok l) = map l (0 ∷ 1 ∷ 2 ∷ 3 ∷ [])

lengths_run :
    first_four (huffman_lengths ℕ (λ a b. a + b) minimum_queue 4 few_counts) ≡ 1 ∷ 3 ∷ 3 ∷ 2 ∷ []
unfolding huffman_lengths merges merge joined deepen leaves tabulate least MinimumQueue.before
    update
lengths_run = refl

huffman_lengths-returns_example :
    (lengths : ℕ → ℕ) × (huffman_lengths ℕ (λ a b. a + b) minimum_queue 16 few_counts ≡ ok lengths)
    × (lengths 3 ≤ 15)
    × (sum_below (λ s. 2 ^ (15 - lengths s)) 16 ≡ 2 ^ 15)
huffman_lengths-returns_example =
    huffman_lengths-returns ℕ (λ a b. a + b) minimum_queue 15 few_counts 3 (omega arith)

some_values : 0 < 8
some_values = omega arith

small_pitch : 600 < 2 ^ 31
small_pitch = omega arith

in_row : 100 < 256
in_row = omega arith

-- An expert whose row is encoded, in a list of one entry.
abbrev record_and_table :
    (record_ : ℕ → ℕ) × (lut : ℕ → ℕ) × (encode insertion_sort
        (any_order insertion_sort)
        mixed
        8
        256
        row
        600
      ≡ ok (record_, lut))
    × (byte_of (store_groups lut record_ 1 8 1 (λ _. 0) (100 / 8)) (100 % 8) ≡ row 100)
record_and_table =
    encode-store_groups insertion_sort (any_order insertion_sort) mixed mixed-IsFull 8 256 row 600
      some_values refl row-byte refl size_run small_pitch (λ _. 0) 100 in_row

row-Compressed :
    Compressed insertion_sort
      (any_order insertion_sort)
      8
      256
      row
      record_and_table.0
      record_and_table.1
row-Compressed = record {
  lengths = mixed;
  pitch = 600;
  full = mixed-IsFull;
  bytes = row-byte;
  narrow = small_pitch;
  encoded = record_and_table.2;
}

abbrev one_entry : ℕ → Option ℕ
one_entry j = some 4

abbrev row_two : ℕ → Option ℕ
row_two e = some 2

abbrev not_cached : ℕ → Option ℕ
not_cached e = none

target_run :
    target 1 one_entry row_two not_cached
      (λ _. record_and_table.0)
      (λ _. record_and_table.0)
      (λ _ _. record_and_table.1)
      none
      8
      256
      256
      0
    ≡ some (4, 2)
unfolding target active
target_run = refl

decode_rows-expands_example :
    (byte_of
        ((decode_rows 1 one_entry row_two not_cached
            (λ _. record_and_table.0)
            (λ _. record_and_table.0)
            (λ _ _. record_and_table.1)
            none
            8
            256
            256
            (record { rows0 = λ _ _. 0; rows1 = λ _ _. 0 })).rows0
          2
          (100 / 8))
        (100 % 8)
      ≡ row 100)
    × (byte_of
          ((decode_rows 1 one_entry row_two not_cached
              (λ _. record_and_table.0)
              (λ _. record_and_table.0)
              (λ _ _. record_and_table.1)
              none
              8
              256
              256
              (record { rows0 = λ _ _. 0; rows1 = λ _ _. 0 })).rows1
            2
            (255 / 8))
          (255 % 8)
        ≡ row 255)
decode_rows-expands_example =
    decode_rows-expands 1 one_entry row_two not_cached (λ _. record_and_table.0)
      (λ _. record_and_table.0) (λ _ _. record_and_table.1) none 8 256 256 insertion_sort
      (any_order insertion_sort) row row 0 4 2 (record { rows0 = λ _ _. 0; rows1 = λ _ _. 0 }) 100
      255 some_values refl (omega arith) target_run alone row-Compressed row-Compressed
      (omega arith) (omega arith)
  where
    alone :
        (i : ℕ)
        → i < 1
        → i ≢ 0
        → Apart 1 one_entry row_two not_cached
            (λ _. record_and_table.0)
            (λ _. record_and_table.0)
            (λ _ _. record_and_table.1)
            none
            8
            256
            256
            i
            2
    alone i li ne = absurd (ne (omega arith))
