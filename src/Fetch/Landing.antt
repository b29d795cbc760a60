-- ===== src/Fetch/Landing.antt =====
-- What an answered request leaves in the RAM tier and in the failure flag, for reads that succeed and
-- for reads that fail: `run_jobs` and `read_one` of src/vllm_expert_pager/store.py.
use vllm_expert_pager.Base.{ℕ}
use vllm_expert_pager.Fetch.{Request, State, Sizes, run_jobs, jobs_from}

module _ (z : Sizes) where
  module _ (r : Request) where
    -- The jobs of the entries from `j` on.
    abbrev run_from : ℕ → ℕ → State → State
    run_from n j s = run_jobs z r.layer (jobs_from n j r) s
