-- ===== src/Prefill.antt =====
-- src/vllm_expert_pager/experts.py: `_expert_pager_forward_working`, the prefill of one layer, from
-- the plan to the runs of the MoE, with the reads of the host landing at any time between publish
-- and wait. A row's content is the number of the expert whose weights it holds, `none` if it holds
-- no expert of this layer. The copies of one list are one step. A ticket is the number of the
-- chunk whose publish wrote it, and the wait for it returns when the reads of that chunk have landed. What the MoE computes from the slab, the compression (a copy from the
-- RAM tier is expanded in place) and the shared experts are left out.
pub mod Copy
pub mod Rows
pub mod Invariant
pub mod Tickets
pub mod Steps
pub mod Copies
pub mod Truth
pub mod Ending
pub mod Acquiring
pub mod Seeding
mod Tests
use vllm_expert_pager.Base.{
  ℕ, zero, suc, ◌+◌, ◌*◌, ◌%◌, ◌<◌, ◌≡◌, Bool, true, false, ◌||◌, Option, none, some, ltb,
  if◌then◌else◌, is_some, same,
}
use vllm_expert_pager.Tensor.Put.{update}
use vllm_expert_pager.Table.{clamp}
use vllm_expert_pager.Plan.{Plan}
use vllm_expert_pager.Fetch.{any_expert}

-- Where the host program stands; `k` is the chunk.
pub data Pc : Type 0 where
  start : Pc
  copying : (k : ℕ) → Pc  -- before `copy(chunk(todo, k))`
  publishing : (k : ℕ) → Pc  -- before the publish of chunk k + 1
  waiting : (k : ℕ) → Pc  -- before `fetch_wait_rows`
  late : (k : ℕ) → Pc  -- before `copy(chunk(late, k))`
  running : (k : ℕ) → Pc  -- at the MoE, with `maps[k]` in place
  finished : Pc

pub record State : Type 0 where
  pub rows : ℕ → Option ℕ  -- the RAM tier's rows and the shared working rows
  pub working : ℕ → Option ℕ  -- the working slab
  pub pending : ℕ → Bool  -- the reads that are published and have not landed
  pub tickets : ℕ → ℕ  -- `ticket_chunk`: the chunk whose publish wrote each cell
  pub pc : Pc

-- `t[k * W : (k + 1) * W]`
abbrev pub slice : ℕ → (ℕ → Option ℕ) → ℕ → ℕ → Option ℕ
slice w l k j = l (k * w + j)

-- Whether a list of length `n` holds `e`.
unfoldable pub mentions : ℕ → (ℕ → Option ℕ) → ℕ → Bool
mentions zero l e = false
mentions (suc n) l e = mentions n l e || same (l n) (some e)

-- The program: a plan, the rows of the working slab, the number of chunks, the rows of the VRAM tier
-- and what they hold.
pub record Program : Type 0 where
  pub plan : Plan
  pub w : ℕ
  pub n : ℕ
  pub cached_row : ℕ → Option ℕ
  pub slab : ℕ → Option ℕ

module _ (p : Program) where
  -- What `copy` finds for an expert: a VRAM hit comes from the cache slab.
  unfoldable pub source : (ℕ → Option ℕ) → ℕ → Option ℕ
  source rows e =
      if is_some (p.cached_row e) then p.slab (clamp (p.cached_row e)) else rows (p.plan.src_row e)

  -- One entry of the list that `copy` walks.
  unfoldable pub copy_entry : (ℕ → Option ℕ) → Option ℕ → (ℕ → Option ℕ) → ℕ → Option ℕ
  copy_entry rows none working = working
  copy_entry rows (some e) working = update working (p.plan.dst_row e) (source rows e)

  -- `copy(part)` for a list of length `n`.
  unfoldable pub copy : (ℕ → Option ℕ) → ℕ → (ℕ → Option ℕ) → (ℕ → Option ℕ) → ℕ → Option ℕ
  unfolding copy_entry
  copy rows zero part working = working
  copy rows (suc n) part working = copy_entry rows (part n) (copy rows n part working)

  -- `fetch_publish_rows(chunk(ssd, k), ...)`
  unfoldable pub publish : ℕ → (ℕ → Bool) → ℕ → Bool
  unfolding mentions
  publish k pending e = pending e || mentions p.w (slice p.w p.plan.ssd k) e

  -- The ticket that this publish writes, into the cell `ticket(k)`, if its list is not empty.
  unfoldable pub issue : ℕ → (ℕ → ℕ) → ℕ → ℕ
  unfolding any_expert update
  issue k tickets =
      if any_expert p.w (slice p.w p.plan.ssd k) then update tickets (k % 2) k else tickets

  pub data Step (s u : State) : Type 0 where
    -- a read lands in its row
    land :
        (e : ℕ)
        → s.pending e ≡ true
        → u ≡ record s {
          rows = update s.rows (p.plan.src_row e) (some e);
          pending = update s.pending e false;
        }
        → Step s u
    publish_first :
        s.pc ≡ start
        → u
          ≡ record s { pending = publish 0 s.pending; tickets = issue 0 s.tickets; pc = copying 0 }
        → Step s u
    copy_todo :
        (k : ℕ)
        → s.pc ≡ copying k
        → u ≡ record s {
          working = copy s.rows p.w (slice p.w p.plan.todo k) s.working;
          pc = publishing k;
        }
        → Step s u
    publish_next :
        (k : ℕ)
        → s.pc ≡ publishing k
        → u ≡ record s {
          pending = if ltb (k + 1) p.n then publish (k + 1) s.pending else s.pending;
          tickets = if ltb (k + 1) p.n then issue (k + 1) s.tickets else s.tickets;
          pc = waiting k;
        }
        → Step s u
    wait :
        (k : ℕ)
        → s.pc ≡ waiting k
        → (any_expert p.w (slice p.w p.plan.ssd k) ≡ true
            → (j e : ℕ) → j < p.w
            → slice p.w p.plan.ssd (s.tickets (k % 2)) j ≡ some e
            → s.pending e ≡ false)
        → u ≡ record s { pc = late k }
        → Step s u
    copy_late :
        (k : ℕ)
        → s.pc ≡ late k
        → u ≡ record s {
          working = copy s.rows p.w (slice p.w p.plan.late k) s.working;
          pc = running k;
        }
        → Step s u
    run :
        (k : ℕ)
        → s.pc ≡ running k
        → u ≡ record s { pc = if ltb (k + 1) p.n then copying (k + 1) else finished }
        → Step s u

  pub data Reach (s : State) : State → Type 0 where
    here : Reach s s
    next : {u v : State} → Reach s u → Step u v → Reach s v
