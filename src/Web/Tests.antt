-- ===== src/Web/Tests.antt =====
-- The theorems on the web server of p2 at concrete runs.
use csci4730_operating_syste.Web.Queue.Control.{alive, has_ended, join_pool, join_pool-reversed}
use csci4730_operating_syste.Base.{
  length, zero, suc, if◌then◌else◌, ℕ, ◌<◌, ◌≡◌, ◌≢◌, refl, arith, true, List, [], ◌∷◌,
}
use csci4730_operating_syste.Web.Queue.{
  max_request, accepting, counted, idle, looked, serving, stopped, Produce, System, Step, listen,
  started, Reach, here, next, Consumer,
}
use csci4730_operating_syste.Web.Queue.Invariant.{writing, reading}
use csci4730_operating_syste.Web.Queue.Safety.{buffer_bounds, mutual_exclusion}
use csci4730_operating_syste.Web.Queue.Progress.{producer_progress}
use csci4730_operating_syste.Web.Queue.History.{accepted, served}
use csci4730_operating_syste.Web.Queue.Races.{request_lost, pool_exhausted}
use csci4730_operating_syste.Web.Queue.Stack.{
  Op, arrive, fetch, run_buffer, run_stack, run_buffer-run_stack,
}

-- All slots are 0, two threads wait, and socket 7 has been counted in.
abbrev counting : System
counting = record {
  shared = record { request = λ i. 0; full = 0; empty = 99; locked = true };
  listener = counted 7 0;
  pool = λ i. idle;
}

counting-Reach : Reach 2 (started (λ i. 0)) counting
unfolding started
counting-Reach =
    next
      (next
        (next (next here (listen (Produce.accept 7))) (listen (Produce.wait_empty (omega arith))))
        (listen (Produce.lock refl)))
      (listen Produce.get_value)

buffer_bounds_example :
    ((req k : ℕ) → counting.listener ≡ counted req k → k < max_request)
    × ((i k : ℕ) → counting.pool i ≡ looked k → k < max_request)
buffer_bounds_example = buffer_bounds (λ i. 0) counting-Reach

mutual_exclusion_example :
    (writing counting.listener ≡ 1 → (i : ℕ) → i < 2 → reading (counting.pool i) ≡ 0)
    × ((i j : ℕ)
        → i < 2
        → j < 2
        → reading (counting.pool i) ≡ 1
        → reading (counting.pool j) ≡ 1
        → i ≡ j)
mutual_exclusion_example = mutual_exclusion (λ i. 0) counting-Reach

producer_progress_example : (t : System) × Step 2 counting t
producer_progress_example =
    producer_progress (λ i. 0) counting-Reach (λ e. ground (arith, e)) 0 (omega arith)
      (λ e. ground (arith, e))

request_lost_example :
    (s : System) × (r : Reach 3 (started (λ i. 0)) s) × (accepted r ≡ 9 ∷ 8 ∷ [])
    × (served r ≡ 0 ∷ [])
    × (s.pool 0 ≡ serving 0)
    × ((i : ℕ) → i ≢ 0 → s.pool i ≡ idle)
    × (s.listener ≡ accepting)
    × (s.shared.full ≡ 1)
    × (s.shared.request 0 ≡ 9)
    × ((k : ℕ) → k ≢ 0 → s.shared.request k ≡ 0)
request_lost_example = request_lost 3 (λ i. 0) 8 9 (omega arith)

pool_exhausted_example :
    (s : System) × Reach 2 (started (λ i. 0)) s
    × (s.shared.full ≡ 1)
    × (s.shared.request 0 ≡ 8)
    × ((t : System) → Reach 2 s t → (i : ℕ) → i < 2 → t.pool i ≡ stopped)
pool_exhausted_example = pool_exhausted 2 (λ i. 0) 8

abbrev calls : List Op
calls = arrive 5 ∷ arrive 6 ∷ fetch ∷ arrive 7 ∷ fetch ∷ fetch ∷ fetch ∷ []

run_buffer-run_stack_example : run_buffer calls (started (λ i. 0)).shared ≡ 6 ∷ 7 ∷ 5 ∷ []
unfolding started run_stack
run_buffer-run_stack_example =
    run_buffer-run_stack calls (started (λ i. 0)).shared []
      (record { full = refl; empty = refl; free = refl; slots = tt })

-- The first thread has crashed, and the other two run.
abbrev three_threads : ℕ → Consumer
three_threads zero = stopped
three_threads (suc zero) = idle
three_threads (suc (suc n)) = serving 7

join_pool-reversed_example :
    ((j : ℕ)
      → j < 3
      → (join_pool 3 0 three_threads).0 j
        ≡ (if has_ended (three_threads j) then three_threads j else idle))
    × (length (alive 3 0 (join_pool 3 0 three_threads).0) ≡ 2)
    × ((join_pool 3 0 three_threads).1 ≡ idle ∷ serving 7 ∷ [])
join_pool-reversed_example = join_pool-reversed 3 three_threads
