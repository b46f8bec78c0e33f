-- ===== src/Vm/Requests/Start.antt =====
-- The start of p3/vm.c: the arguments that `main` accepts, and the state that it begins with.
use native.Mathlib.Decide.{dec_lt}
use csci4730_operating_syste.Base.{
  ◌⊎◌, ℕ, zero, suc, ◌≤◌, ◌<◌, ◌≡◌, refl, Bool, true, ◌||◌, not, Option, none, some, List, [],
  arith, inl, inr, ltb, if◌then◌else◌, false, Bool-cases,
}
use csci4730_operating_syste.Vm.Replacement.{
  Policy, zero_policy, fifo_policy, lru_policy, clock_policy,
}
use csci4730_operating_syste.Vm.Replacement.Bounds.{Below}
use csci4730_operating_syste.Vm.Tables.{Pte, Ipte, Vm, init, blank_swap}
use csci4730_operating_syste.Vm.Mmu.Invariant.{InRange, view}
use csci4730_operating_syste.Vm.Mmu.Served.{Inv}
use csci4730_operating_syste.Vm.Requests.{Report, run}
use csci4730_operating_syste.Vm.Requests.Spec.{Access, inputs, observe_all, ideal_run}
use csci4730_operating_syste.Vm.Requests.Transparency.{run-ideal_run}

unfoldable pub policy_of : ℕ → Option Policy
policy_of zero = some zero_policy
policy_of (suc zero) = some fifo_policy
policy_of (suc (suc zero)) = some lru_policy
policy_of (suc (suc (suc zero))) = some clock_policy
policy_of _ = none

unfoldable pub sizes_ok : (max_pfn max_vpn max_pid : ℕ) → Bool
sizes_ok max_pfn max_vpn max_pid = not (
    ltb max_vpn 1
    || (ltb 256 max_vpn
        || (ltb max_pfn 1 || (ltb 256 max_pfn || (ltb max_pid 1 || ltb 256 max_pid)))))

-- The tests of `main` on its numbers, and the set-up; `none` is the return with -1.
unfoldable pub start :
    (max_pfn max_vpn max_pid number : ℕ) → (ℕ → ℕ → Pte) → (ℕ → Ipte) → (ℕ → ℕ) → Option Vm
unfolding policy_of sizes_ok
start max_pfn max_vpn max_pid number junk_pte junk_ipte junk_byte = elim (policy_of number) [
  | none ↦ none
  | some policy ↦
      if sizes_ok max_pfn max_vpn max_pid
      then some (init max_pfn max_vpn max_pid policy junk_pte junk_ipte junk_byte)
      else none
]

module _ (max_pfn max_vpn max_pid : ℕ) (policy : Policy) (junk_pte : ℕ → ℕ → Pte)
    (junk_ipte : ℕ → Ipte) (junk_byte : ℕ → ℕ) (positive : 0 < max_pfn)
    (known : (f : ℕ)
      → f < max_pfn
      → ((junk_ipte f).pid < max_pid) × ((junk_ipte f).vpn < max_vpn)) where
  empty-Below : (p : Policy) → Below p 0 (record { turns = 0; head = []; clock_head = [] })
  empty-Below zero_policy = tt
  empty-Below fifo_policy = tt
  empty-Below lru_policy = tt
  empty-Below clock_policy = tt

  abbrev pub first : Vm
  first = init max_pfn max_vpn max_pid policy junk_pte junk_ipte junk_byte

  pub init-Inv : Inv first
  unfolding init
  init-Inv = record {
    positive = positive;
    few = omega arith;
    agree = record {
      known = known;
      mapped = λ p v r h. ground arith;
      owned = λ f lt ne. absurd (omega arith);
    };
    below = empty-Below policy;
    ready = λ h. absurd (omega arith);
    reads = refl;
    writes = refl;
  }

  pub view-init : (p v : ℕ) → InRange first p v → view first p v ≡ b'A'
  unfolding init blank_swap view
  view-init p v r = ground arith

  init-ideal_run :
      (accesses : List Access)
      → (reports : List Report) × (s' : Vm) × (run (inputs accesses) first ≡ some (reports, s'))
        × (observe_all reports ≡ ideal_run max_pid max_vpn accesses (λ p v. b'A'))
  unfolding init
  init-ideal_run accesses = run-ideal_run accesses first (λ p v. b'A') init-Inv view-init

-- The numbers of the policies that there are.
policy_of-known : (n : ℕ) → n ≤ 3 → (p : Policy) × (policy_of n ≡ some p)
unfolding policy_of
policy_of-known zero le = (zero_policy, refl)
policy_of-known (suc zero) le = (fifo_policy, refl)
policy_of-known (suc (suc zero)) le = (lru_policy, refl)
policy_of-known (suc (suc (suc zero))) le = (clock_policy, refl)
policy_of-known (suc (suc (suc (suc n)))) le = absurd (omega (arith, le))

policy_of-none : (n : ℕ) → 3 < n → policy_of n ≡ none
unfolding policy_of
policy_of-none zero lt = elim lt [ ]
policy_of-none (suc zero) lt = absurd (omega (arith, lt))
policy_of-none (suc (suc zero)) lt = absurd (omega (arith, lt))
policy_of-none (suc (suc (suc zero))) lt = absurd (omega (arith, lt))
policy_of-none (suc (suc (suc (suc n)))) lt = refl

-- A number that a size of the memory, of a table or of the processes may be.
abbrev pub IsSize : ℕ → Type 0
IsSize n = (1 ≤ n) × (n ≤ 256)

-- What `main` should accept.
abbrev pub Accepts : (max_pfn max_vpn max_pid number : ℕ) → Type 0
Accepts max_pfn max_vpn max_pid number =
    (number ≤ 3) × IsSize max_pfn × IsSize max_vpn × IsSize max_pid

sizes_ok-IsSize : (f v p : ℕ) → sizes_ok f v p ≡ true → IsSize f × IsSize v × IsSize p
unfolding sizes_ok
sizes_ok-IsSize f v p e =
    ((ground arith, ground arith), (ground arith, ground arith), (ground arith, ground arith))

sizes_ok-not : (f v p : ℕ) → sizes_ok f v p ≡ false → ¬ (IsSize f × IsSize v × IsSize p)
unfolding sizes_ok
sizes_ok-not f v p e ((f₁, f₂), (v₁, v₂), (p₁, p₂)) = ground arith

module _ (max_pfn max_vpn max_pid number : ℕ) (junk_pte : ℕ → ℕ → Pte) (junk_ipte : ℕ → Ipte)
    (junk_byte : ℕ → ℕ) where
  abbrev begin : Option Vm
  begin = start max_pfn max_vpn max_pid number junk_pte junk_ipte junk_byte

  -- A start is accepted, for a policy of the list, exactly within the bounds.
  Started : Type 0
  Started =
      (Accepts max_pfn max_vpn max_pid number
        × ((policy : Policy) × (begin
              ≡ some (init max_pfn max_vpn max_pid policy junk_pte junk_ipte junk_byte))))
      ⊎ (¬ Accepts max_pfn max_vpn max_pid number × (begin ≡ none))

  start-Started : Started
  unfolding Started start
  start-Started = elim (dec_lt 3 number) [
    | yes unknown ↦
        inr (λ ok. omega (arith, unknown, ok.0), rw (policy_of-none number unknown, start) refl)
    | no few ↦
        let le : number ≤ 3 = omega (arith, few) in
        let (policy, known) = policy_of-known number le in
        elim (Bool-cases (sizes_ok max_pfn max_vpn max_pid)) [
          | inl ok ↦
              let (f, v, p) = sizes_ok-IsSize max_pfn max_vpn max_pid ok in
              inl ((le, f, v, p), (policy, rw (known, ok, start) refl))
          | inr bad ↦ inr (
            λ accepted.
                sizes_ok-not max_pfn max_vpn max_pid bad (accepted.1, accepted.2, accepted.3),
            rw (known, bad, start) refl,
          )
        ]
  ]

  -- What the requests show, behind a start that is accepted.
  abbrev pub Serves : List Access → Vm → Type 0
  Serves accesses s =
      (reports : List Report) × (s' : Vm) × (run (inputs accesses) s ≡ some (reports, s'))
      × (observe_all reports ≡ ideal_run max_pid max_vpn accesses (λ p v. b'A'))

  -- `main` accepts exactly a policy that is one of the four and between 1 and 256 frames, pages
  -- and processes, and returns -1 otherwise. If it accepts them and the inverted table comes from
  -- `malloc` with entries within the tables (zeros, for example), then every list of reads and
  -- writes at numbers that are not negative is served to the end with no fault, and what is read is
  -- what was written last to the page, or 'A', whichever the policy.
  pub start-ideal_run :
      (accesses : List Access)
      → ((f : ℕ) → f < max_pfn → ((junk_ipte f).pid < max_pid) × ((junk_ipte f).vpn < max_vpn))
      → (Accepts max_pfn max_vpn max_pid number
          × ((s : Vm) × (start max_pfn max_vpn max_pid number junk_pte junk_ipte junk_byte ≡ some s)
              × Serves accesses s))
        ⊎ (¬ Accepts max_pfn max_vpn max_pid number
            × (start max_pfn max_vpn max_pid number junk_pte junk_ipte junk_byte ≡ none))
  unfolding Started
  start-ideal_run accesses known = elim start-Started [
    | inl (ok, (policy, e)) ↦ inl (
      ok,
      (
        init max_pfn max_vpn max_pid policy junk_pte junk_ipte junk_byte,
        e,
        init-ideal_run max_pfn max_vpn max_pid policy junk_pte junk_ipte junk_byte ok.1.0 known
            accesses,
      ),
    )
    | inr refused ↦ inr refused
  ]
