-- ===== src/Vm/Tests.antt =====
-- Runs of the simulator of p3, and the theorems at inputs that meet their hypotheses.
use csci4730_operating_syste.Base.{
  ◌⊎◌, ℕ, ◌≤◌, ◌<◌, ◌≡◌, refl, true, false, none, some, List, [], ◌∷◌, arith, All, inl,
}
use csci4730_operating_syste.Vm.Replacement.{
  Policy, fifo_policy, lru_policy, clock_policy, ClockNode, clock_node, Queues, find_replacement,
  drop_victim, enqueue, note_hit, clock,
}
use csci4730_operating_syste.Vm.Replacement.Clock.{clock-second_chance, clock-full_circle, cleared}
use csci4730_operating_syste.Vm.Replacement.Lru.{age, empty, hit, load, lru-least_recent}
use csci4730_operating_syste.Vm.Replacement.Bounds.{Below, find_replacement-lt}
use csci4730_operating_syste.Vm.Tables.{
  Pte, Ipte, Vm, init, read_pte, write_pte, read_ipte, write_ipte, get_freeframe, swap_in, swap_out,
  blank_swap,
}
use csci4730_operating_syste.Vm.Mmu.{
  pick_victim, evict, claim_frame, join_queue, mark, fill, pagefault_handler, mark_dirty,
  note_queue, take_hit, is_page_hit, count_hit, count_miss, answer, mmu,
}
use csci4730_operating_syste.Vm.Mmu.Served.{Served}
use csci4730_operating_syste.Vm.Requests.{
  Report, invalid_vpn, serve, locate, translate, finish, stored, reported, read_physical_mem,
  write_physical_mem, run,
}
use csci4730_operating_syste.Vm.Requests.Faults.{run-init_fault}
use csci4730_operating_syste.Vm.Requests.Spec.{
  Access, inputs, Seen, refused, value, observe_all, ideal_run,
}
use csci4730_operating_syste.Vm.Requests.Start.{start, start-ideal_run, init-Inv, view-init, IsSize}
use csci4730_operating_syste.Vm.Requests.Transparency.{run-ideal_run}

-- All that a run of the simulator computes with.
program : Unit {0}
unfolding find_replacement drop_victim enqueue note_hit read_pte write_pte read_ipte write_ipte
    get_freeframe swap_in swap_out pick_victim evict claim_frame join_queue mark fill
    pagefault_handler mark_dirty note_queue take_hit is_page_hit count_hit count_miss answer mmu
    serve locate translate finish stored reported read_physical_mem write_physical_mem run init
    observe_all ideal_run start blank_swap
program = tt

abbrev queues : List ℕ → List ClockNode → Queues
queues xs ns = record { turns = 0; head = xs; clock_head = ns }

clock-second_chance_example :
    clock (queues [] (clock_node 0 1 ∷ clock_node 1 0 ∷ clock_node 2 1 ∷ []))
    ≡ some (1, queues [] (clock_node 1 0 ∷ clock_node 2 1 ∷ clock_node 0 0 ∷ []))
unfolding cleared
clock-second_chance_example =
    clock-second_chance (queues [] []) (clock_node 0 1 ∷ []) (clock_node 1 0) (clock_node 2 1 ∷ [])
      (refl, tt) (omega arith)

clock-full_circle_example :
    clock (queues [] (clock_node 3 1 ∷ clock_node 1 1 ∷ []))
    ≡ some (3, queues [] (clock_node 3 0 ∷ clock_node 1 0 ∷ []))
unfolding cleared
clock-full_circle_example =
    clock-full_circle (queues [] []) (clock_node 3 1) (clock_node 1 1 ∷ []) (refl, (refl, tt))

-- Frames 0 and 1 are loaded, and 0 is hit: frame 1 is the victim.
lru-least_recent_example : All (λ y. age (0 ∷ 1 ∷ 0 ∷ []) y ≤ age (0 ∷ 1 ∷ 0 ∷ []) 1) (1 ∷ 0 ∷ [])
unfolding find_replacement note_hit enqueue
lru-least_recent_example =
    lru-least_recent {n = 2} 1 (queues (1 ∷ 0 ∷ []) [])
      (hit 0 (load 1 (load 0 (empty (queues [] []) refl) tt) (omega arith, tt))) refl

find_replacement-lt_example :
    (f : ℕ) × (q' : Queues) × (find_replacement lru_policy 3 (queues (2 ∷ 0 ∷ []) [])
      ≡ some (f, q'))
    × (f < 3)
    × Below lru_policy 3 (drop_victim lru_policy q')
find_replacement-lt_example =
    find_replacement-lt lru_policy 3 (queues (2 ∷ 0 ∷ []) []) (omega arith) (omega arith)
      (omega arith)

abbrev junk_pte : ℕ → ℕ → Pte
junk_pte pid vpn = record { pfn = 9; valid = true; dirty = true }

abbrev junk_ipte : ℕ → Ipte
junk_ipte f = record { pid = 0; vpn = 0 }

abbrev machine : Policy → Vm
machine policy = init 2 4 1 policy junk_pte junk_ipte (λ f. 0)

abbrev write_at : ℕ → ℕ → Access
write_at addr byte = record { ret = 4; pid = 0; addr = addr; write = true; byte = byte }

abbrev read_at : ℕ → Access
read_at addr = record { ret = 3; pid = 0; addr = addr; write = false; byte = 0 }

abbrev trace : List Access
trace =
    write_at 0x100 b'a'
    ∷ write_at 0x200 b'b'
    ∷ read_at 0x100
    ∷ write_at 0x300 b'c'
    ∷ read_at 0x205
    ∷ read_at 0x500
    ∷ []

-- The bytes that the trace reads and writes, with two frames.
abbrev expected : List Seen
expected =
    value b'W' 0 0x100 b'a'
    ∷ value b'W' 0 0x200 b'b'
    ∷ value b'R' 0 0x100 b'a'
    ∷ value b'W' 0 0x300 b'c'
    ∷ value b'R' 0 0x205 b'b'
    ∷ refused invalid_vpn
    ∷ []

abbrev Prints : Policy → Type 0
Prints policy =
    (reports : List Report) × (s' : Vm) × (run (inputs trace) (machine policy) ≡ some (reports, s'))
    × (observe_all reports ≡ expected)

lru-Prints : Prints lru_policy
unfolding program
lru-Prints = (_, _, refl, refl)

clock-Prints : Prints clock_policy
unfolding program
clock-Prints = (_, _, refl, refl)

machine-known : (f : ℕ) → f < 2 → (0 < 1) × (0 < 4)
machine-known f h = (omega arith, omega arith)

run-ideal_run_example : Prints fifo_policy
unfolding program
run-ideal_run_example =
    run-ideal_run trace (machine fifo_policy) (λ p v. b'A')
      (init-Inv 2 4 1 fifo_policy junk_pte junk_ipte (λ f. 0) (omega arith) machine-known)
      (view-init 2 4 1 fifo_policy junk_pte junk_ipte (λ f. 0) (omega arith) machine-known)

start-ideal_run_example :
    (((3 ≤ 3) × IsSize 2 × IsSize 4 × IsSize 1)
      × ((s : Vm) × (start 2 4 1 3 junk_pte junk_ipte (λ f. 0) ≡ some s)
          × ((reports : List Report) × (s' : Vm) × (run (inputs trace) s ≡ some (reports, s'))
              × (observe_all reports ≡ expected))))
    ⊎ (¬ ((3 ≤ 3) × IsSize 2 × IsSize 4 × IsSize 1)
        × (start 2 4 1 3 junk_pte junk_ipte (λ f. 0) ≡ none))
unfolding program
start-ideal_run_example = start-ideal_run 2 4 1 3 junk_pte junk_ipte (λ f. 0) trace machine-known

-- Frame 0 is left with process 7; the second access passes the tests.
run-init_fault_example :
    ((true ≡ true)
      × (run
            (inputs (read_at 0x500 ∷ read_at 0x100 ∷ []))
            (init 2 4 1 lru_policy junk_pte (λ f. record { pid = 7; vpn = 0 }) (λ f. 0))
          ≡ none))
    ⊎ ((true ≡ false)
        × (run
              (inputs (read_at 0x500 ∷ read_at 0x100 ∷ []))
              (init 2 4 1 lru_policy junk_pte (λ f. record { pid = 7; vpn = 0 }) (λ f. 0))
            ≡ some (
              invalid_vpn ∷ invalid_vpn ∷ [],
              init 2 4 1 lru_policy junk_pte (λ f. record { pid = 7; vpn = 0 }) (λ f. 0),
            )))
run-init_fault_example =
    run-init_fault 2 4 1 lru_policy junk_pte (λ f. record { pid = 7; vpn = 0 }) (λ f. 0)
      (read_at 0x500 ∷ read_at 0x100 ∷ []) (omega arith) (inl (omega arith))
