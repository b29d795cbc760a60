-- ===== src/Fetch.antt =====
-- The requests of SSD reads: src/vllm_expert_pager/gather.py (`_fetch_publish`, `_fetch_wait`), which
-- the device runs, and the C server of src/vllm_expert_pager/store.py, which answers them. They share
-- pinned memory: a ring of request slots, two counts, and the number of the last request that is done.
-- The sizes of the store and whether a read from the file is whole are parameters. The workers that
-- share the reads of one request are left out, and so are times, the delay that tests set and the stop
-- of the server. `fetch_publish` is one step of the device, from its payload to the release of `seq`, and
-- `answer` one step of the server, from the load of `seq` to the store of `done`: the order of the stores
-- within them is not a subject of the model.
pub mod Spin
pub mod Order
pub mod Reads
pub mod Landing
mod Tests
use vllm_expert_pager.Base.{
  ℕ, zero, suc, ◌+◌, ◌-◌, ◌%◌, ◌≤◌, ◌<◌, ◌≡◌, ◌≢◌, Bool, true, false, not, ◌&&◌, ◌||◌, List, [],
  ◌∷◌, Option, none, some, length, ltb, leb, ◌==◌, if◌then◌else◌, is_some,
}
use vllm_expert_pager.Tensor.Put.{update}
use vllm_expert_pager.Table.{clamp}

-- The payload of a request slot, `[layer, expert[B], row[B]]`.
pub record Request : Type 0 where
  pub layer : ℕ
  pub expert : ℕ → Option ℕ
  pub row : ℕ → Option ℕ

pub record Slot : Type 0 where
  pub seq : ℕ
  pub request : Request

pub record State : Type 0 where
  -- on the device: the last request that was published, and the number that the wait for it takes
  pub seq : ℕ
  pub ticket : ℕ
  pub republished : ℕ  -- req[0]
  pub given_up : ℕ  -- req[1]
  pub slots : ℕ → Slot
  pub done : ℕ
  -- the server
  pub last : ℕ
  pub retries : ℕ
  pub fetches : ℕ
  pub reads : ℕ
  pub missed : ℕ
  pub failed : Bool
  pub pinned : ℕ → Option (ℕ × ℕ)  -- the layer and expert in each row of the RAM tier
  -- what was published and what was served under each number; the code does not read these
  pub sent : ℕ → Request
  pub served : ℕ → Request

-- How a wait ends: how often it published its request again, how often it loaded `done` before that,
-- and whether it gave up.
pub record Wait : Type 0 where
  pub gave_up : Bool
  pub tries : ℕ
  pub loads : ℕ

-- The loop of `_fetch_wait`, for request `k`: `seen i` is what load `i` of `done` gives.
unfoldable pub spin : ℕ → ℕ → ℕ → ℕ → (ℕ → ℕ) → ℕ → ℕ → ℕ → Option Wait
spin zero spin_retry spin_giveup k seen i n tries = none
spin (suc fuel) spin_retry spin_giveup k seen i n tries =
    let full = leb spin_retry (n + 1) in
    let rest =
      spin fuel spin_retry spin_giveup k seen (i + 1) (if full then 0 else n + 1)
        (if full then tries + 1 else tries) in
    if ltb (seen i) k && ltb tries spin_giveup
    then rest
    else some (record { gave_up = ltb (seen i) k; tries = tries; loads = i })

-- The store: `ring`, `block` (B), `L`, `E` and the rows, and whether `preadv` reads a whole record.
pub record Sizes : Type 0 where
  pub ring : ℕ
  pub block : ℕ
  pub layers : ℕ
  pub experts : ℕ
  pub rows : ℕ
  pub preadv : ℕ → ℕ → Bool

-- `tl.load(todo_ptr + offs, mask=offs < K, other=-1)`
abbrev pub load_todo : ℕ → (ℕ → Option ℕ) → ℕ → Option ℕ
load_todo K todo i = if ltb i K then todo i else none

-- `tl.sum((e >= 0), axis=0) > 0`
unfoldable pub any_expert : ℕ → (ℕ → Option ℕ) → Bool
any_expert zero e = false
any_expert (suc n) e = any_expert n e || is_some (e n)

-- The jobs of a request: the entries that name an expert, in order.
unfoldable pub jobs_from : ℕ → ℕ → Request → List (ℕ × Option ℕ)
jobs_from zero j r = []
jobs_from (suc n) j r =
    let rest = jobs_from n (j + 1) r in
    if is_some (r.expert j) then (clamp (r.expert j), r.row j) ∷ rest else rest

-- `_fetch_wait`; the retry and give-up limits are parameters.
unfoldable pub fetch_wait : ℕ → ℕ → ℕ → ℕ → ℕ → (ℕ → Option ℕ) → ℕ → (ℕ → ℕ) → Option Wait
unfolding any_expert spin
fetch_wait fuel spin_retry spin_giveup block K todo ticket seen =
    if any_expert block (load_todo K todo)
    then spin fuel spin_retry spin_giveup ticket seen 0 0 0
    else some (record { gave_up = false; tries = 0; loads = 0 })

module _ (z : Sizes) where
  -- What `_fetch_publish` writes.
  unfoldable pub request_of : ℕ → (ℕ → Option ℕ) → (ℕ → ℕ) → ℕ → ℕ → Request
  request_of K todo row base layer = record {
    layer = layer;
    expert = load_todo K todo;
    row = λ i.
        if is_some (load_todo K todo i)
        then some (row (clamp (load_todo K todo i)) + base)
        else none;
  }

  -- `_fetch_publish`
  unfoldable pub fetch_publish : ℕ → (ℕ → Option ℕ) → (ℕ → ℕ) → ℕ → ℕ → State → State
  unfolding request_of any_expert update
  fetch_publish K todo row base layer s =
      if any_expert z.block (load_todo K todo)
      then record s {
        seq = s.seq + 1;
        ticket = s.seq + 1;
        slots =
            update s.slots ((s.seq + 1) % z.ring)
              (record { seq = s.seq + 1; request = request_of K todo row base layer });
        sent = update s.sent (s.seq + 1) (request_of K todo row base layer);
      }
      else s

  -- `_fetch_wait` publishes request `k` again.
  unfoldable pub republish : ℕ → State → State
  unfolding update
  republish k s = record s {
    slots = update s.slots (k % z.ring) (record (s.slots (k % z.ring)) { seq = k });
    republished = s.republished + 1;
  }

  -- `read_one`
  unfoldable pub read_one : ℕ → ℕ × Option ℕ → State → State
  unfolding update
  read_one layer (e, row) s =
      if not (ltb layer z.layers && ltb e z.experts)
      then record s { failed = true }
      else if not (is_some row && ltb (clamp row) z.rows)
      then record s { failed = true }
      else if z.preadv layer e
      then record s { pinned = update s.pinned (clamp row) (some (layer, e)) }
      else record s { failed = true; pinned = update s.pinned (clamp row) none }

  -- `run_jobs`
  unfoldable pub run_jobs : ℕ → List (ℕ × Option ℕ) → State → State
  unfolding read_one
  run_jobs layer [] s = s
  run_jobs layer (j ∷ js) s = run_jobs layer js (read_one layer j s)

  -- The slot that the server looks at.
  abbrev pub current : State → Slot
  current s = s.slots ((s.last + 1) % z.ring)

  -- `server_main` while no request is there: the done is written again when the count of re-publishes
  -- moves, or after a long time (`idle`).
  unfoldable pub rewrite_done : Bool → State → State
  rewrite_done idle s =
      if not (s.republished == s.retries) || idle
      then record s { retries = s.republished; done = s.last }
      else s

  -- `server_main` for a request that is there.
  unfoldable pub answer : State → State
  unfolding run_jobs jobs_from update
  answer s =
      let r = (current s).request in
      let js = jobs_from z.block 0 r in
      let u = run_jobs r.layer js s in
      record u {
        missed = s.missed + ((current s).seq - s.last - 1);
        fetches = s.fetches + 1;
        reads = s.reads + length js;
        retries = s.republished;
        done = (current s).seq;
        last = (current s).seq;
        served = update s.served (current s).seq r;
      }

  -- One turn of the server's loop.
  unfoldable pub serve : Bool → State → State
  unfolding answer rewrite_done
  serve idle s = if leb (current s).seq s.last then rewrite_done idle s else answer s

  pub data Step (s u : State) : Type 0 where
    -- the caller has at most `ring` requests outstanding
    publish :
        (K : ℕ) (todo : ℕ → Option ℕ) (row : ℕ → ℕ) (base layer : ℕ)
        → s.seq < s.last + z.ring
        → u ≡ fetch_publish K todo row base layer s
        → Step s u
    -- the caller waits for one of the last `ring` requests
    again : (k : ℕ) → k ≤ s.seq → s.seq < k + z.ring → 0 < k → u ≡ republish k s → Step s u
    -- the wait for a request gives up
    give_up : u ≡ record s { given_up = s.given_up + 1 } → Step s u
    turn : (idle : Bool) → u ≡ serve idle s → Step s u

  pub data Reach (s : State) : State → Type 0 where
    here : Reach s s
    next : {u v : State} → Reach s u → Step u v → Reach s v
