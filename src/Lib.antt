-- ===== src/Lib.antt =====
-- vllm-expert-pager keeps the experts of a mixture-of-experts layer in three tiers: a slab in VRAM, a
-- slab of pinned RAM and a file on SSD. Each layer has a table from experts to slots for the VRAM tier
-- and one for the RAM tier, with LRU replacement. A decode step (K ids, at most S slots in VRAM)
-- updates both tables in one Triton kernel; a prefill step updates the RAM table only, and runs the
-- experts through a working slab of W rows, chunk by chunk, while the host reads experts from SSD.
--
-- The parts, by file:
-- - Base, Tensor: helpers. A tensor is a function of the index, and Tensor/Put has torch's scatters
--   and Triton's masked stores, Tensor/Count its cumulative sums, Tensor/Argsort the interface of
--   `torch.argsort(stable=True)`, which Tensor/InsertionSort implements.
-- - Table: `ExpertTable` of src/vllm_expert_pager/table.py with `__init__`, `need_mask`, `acquire` and
--   `pack`. -1 is `none`; the last element of each tensor is the sink of the source.
-- - Seed: `ExpertTable.seed`, over the interface of `torch.topk` in Seed/Ranking.
-- - Plan: `ExpertTable.plan_chunks`.
-- - Kernel: src/vllm_expert_pager/acquire.py, the kernel `_acquire` lane by lane, `_acquire_pair_kernel`
--   and the class `AcquirePair`, over the interface of `tl.sort` in Kernel/Sort.
-- - Fetch: the requests of SSD reads, `_fetch_publish` and `_fetch_wait` of src/vllm_expert_pager/gather.py
--   and the server of src/vllm_expert_pager/store.py, as a step relation over the shared ring. To publish
--   a request, from its payload to the release of `seq`, is one step, and to answer one, from the load
--   of `seq` to the store of `done`, is one step: the order of the stores within them, which the barriers
--   and the release and acquire accesses of the source keep, is not a subject of the model.
-- - Decode: the decode branch of `forward_modular` of src/vllm_expert_pager/experts.py, with the loops
--   of `_gather_rows_kernel` in src/vllm_expert_pager/gather.py over the rows.
-- - Prefill: `_expert_pager_forward_working` of src/vllm_expert_pager/experts.py, as a step relation in
--   which a published read lands at any time before the wait for it returns. The copies of one list are
--   one step. A ticket is the number of the chunk whose publish wrote it, in one of two cells.
-- - Codec: src/vllm_expert_pager/codec.py, `_huffman_lengths` in Codec/Huffman, the class
--   `Code` in Codec/Code, `encode` in Codec/Encode, `_decode_group` in Codec/Decode and `decode_rows`
--   in Codec/Expand. A tensor of bytes is a function of the index; `heapq`, `torch.argsort` and Python's
--   `sorted` are parameters. Codec/RoundTrip joins the two sides.
--
-- Numbers are natural numbers without a bound: the source's are int64, and a step counter stays
-- below 2 ^ 40 in the theorems that pack it into a sort key. The decoder's offset into a record is
-- an int32 in the source, which a row of fewer than 2 ^ 31 values does not overflow. Its shifts to
-- the right are divisions and its bit counts do not go below 0, which is what the source's signed
-- numbers do in the states where a lane's buffer is below 2 ^ 63 and has the bits that it takes.
-- Fuel is used in four places: `bit_length` runs on its own argument, which it halves each time, and
-- the loop of `_fetch_wait` on any number above the retry limit times the give-up limit, which its
-- theorem shows to be enough; the reversal of a code's digits runs on the sum of its length and its
-- value, and the merges of `_huffman_lengths` on the number of symbols, each of which its theorem
-- shows to be enough.
--
-- Not modelled: the loop of `code_lengths` in src/vllm_expert_pager/codec.py, which limits the lengths in
-- floats (the code lengths of a row are an argument of `Code` and `encode`), `pitch_of`, the copying of a
-- row in chunks of words (a row is copied whole), the layout of the file, the loading of weights
-- and the setup of a layer, which call vLLM and torch, and the build of the C code. The worker threads
-- of the server are left out. In the prefill and in a decode step a wait that gives up after its retries
-- is left out, and so are the expansion of compressed rows, which Codec has on its own, and what the MoE
-- computes.
mod Base
pub mod Tensor
pub mod Table
pub mod Seed
pub mod Kernel
pub mod Plan
pub mod Prefill
pub mod Fetch
pub mod Decode
pub mod Codec
