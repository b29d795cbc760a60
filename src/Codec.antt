-- ===== src/Codec.antt =====
-- src/vllm_expert_pager/codec.py: the compression of expert rows, a byte at a time as its exponent, which
-- is Huffman coded, and its sign and mantissa, which are not.
pub mod Bits
pub mod Words
pub mod Code
pub mod Huffman
pub mod Encode
pub mod Decode
pub mod Expand
pub mod RoundTrip
mod Tests
use vllm_expert_pager.Base.{ℕ, ◌*◌, ◌^◌}

-- `LIMIT`
abbrev pub limit : ℕ
limit = 9

-- `LUT_BYTES`
abbrev pub lut_bytes : ℕ
lut_bytes = 512

-- `LANES`
abbrev pub lanes : ℕ
lanes = 32
