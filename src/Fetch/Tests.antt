-- ===== src/Fetch/Tests.antt =====
-- Two requests on a ring of two slots: published, the first published again, and served.
use vllm_expert_pager.Base.{
  ℕ, ◌+◌, ◌≤◌, ◌<◌, ◌≡◌, refl, true, false, [], ◌∷◌, Option, none, some, arith, ltb, ◌==◌,
  if◌then◌else◌, map, not,
}
use vllm_expert_pager.Tensor.Put.{update}
use vllm_expert_pager.Fetch.{
  Request, State, Sizes, Wait, any_expert, load_todo, request_of, fetch_publish, republish,
  read_one, run_jobs, jobs_from, current, rewrite_done, answer, serve, spin, fetch_wait, publish,
  again, turn, Reach, here, next,
}
use vllm_expert_pager.Fetch.Order.{Fresh, serves-in_order, serve-advances}
use vllm_expert_pager.Fetch.Spin.{Faithful, fetch_wait-ends}

fetching : Unit {0}
unfolding any_expert jobs_from request_of fetch_publish republish read_one run_jobs rewrite_done
    answer serve spin fetch_wait update
fetching = tt

abbrev sizes : Sizes
sizes = record { ring = 2; block = 3; layers = 2; experts = 5; rows = 8; preadv = λ layer e. true }

abbrev nothing : Request
nothing = record { layer = 0; expert = λ _. none; row = λ _. none }

abbrev fresh : State
fresh = record {
  seq = 0;
  ticket = 0;
  republished = 0;
  given_up = 0;
  slots = λ _. record { seq = 0; request = nothing };
  done = 0;
  last = 0;
  retries = 0;
  fetches = 0;
  reads = 0;
  missed = 0;
  failed = false;
  pinned = λ _. none;
  sent = λ _. nothing;
  served = λ _. nothing;
}

abbrev todo : ℕ → Option ℕ
todo i = if i == 0 then some 4 else (if i == 1 then some 2 else none)

abbrev row_of : ℕ → ℕ
row_of e = e

abbrev two_published : State
two_published = fetch_publish sizes 3 todo row_of 3 1 (fetch_publish sizes 2 todo row_of 1 0 fresh)

abbrev one_served : State
one_served = serve sizes false (republish sizes 1 two_published)

to_one_served : Reach sizes fresh one_served
unfolding fetch_publish republish any_expert
to_one_served =
    next
      (next
        (next (next here (publish 2 todo row_of 1 0 (omega arith) refl))
          (publish 3 todo row_of 3 1 (omega arith) refl))
        (again 1 (omega arith) (omega arith) (omega arith) refl))
      (turn false refl)

runs :
    (one_served.done ≡ 1)
    × (map one_served.pinned (3 ∷ 4 ∷ 5 ∷ []) ≡ some (0, 2) ∷ none ∷ some (0, 4) ∷ [])
    × ((serve sizes false one_served).pinned 7 ≡ some (1, 4))
unfolding fetching
runs = (refl, refl, refl)

fresh-Fresh : Fresh fresh
fresh-Fresh = (refl, refl, refl, refl, refl, λ i. refl)

serves-in_order_example :
    (one_served.done ≤ one_served.seq)
    × (one_served.fetches ≡ one_served.done)
    × (one_served.missed ≡ 0)
    × ((k : ℕ) → 0 < k → k ≤ one_served.done → one_served.served k ≡ one_served.sent k)
serves-in_order_example =
    serves-in_order sizes (omega arith) fresh one_served fresh-Fresh to_one_served

serve-advances_example :
    ((serve sizes false one_served).done ≡ one_served.done + 1)
    × ((serve sizes false one_served).seq ≡ one_served.seq)
unfolding fetching
serve-advances_example =
    serve-advances sizes (omega arith) fresh one_served fresh-Fresh to_one_served false
      (omega arith)

-- `done` is late by three loads.
fetch_wait-ends_example :
    (w : Wait) × (fetch_wait 100 2 8 3 2 todo 1 (λ i. if ltb i 3 then 0 else 1) ≡ some w)
    × ((any_expert 3 (load_todo 2 todo) ≡ true
          → Faithful 2 8 1 (λ i. if ltb i 3 then 0 else 1) (omega arith) w)
        × (any_expert 3 (load_todo 2 todo) ≡ false → w.gave_up ≡ false))
fetch_wait-ends_example =
    fetch_wait-ends 2 8 1 (λ i. if ltb i 3 then 0 else 1) (omega arith) 100 3 2 todo (omega arith)

abbrev first : Request
first = (current sizes two_published).request

-- A file whose record of expert 4 is not whole: the first entry of the request fails, the second does
-- not.
abbrev torn : Sizes
torn = record sizes { preadv = λ layer e. not (e == 4) }

torn_read :
    ((answer torn two_published).failed ≡ true)
    × (map (answer torn two_published).pinned (3 ∷ 4 ∷ 5 ∷ []) ≡ some (0, 2) ∷ none ∷ none ∷ [])
unfolding fetching
torn_read = (refl, refl)
