-- ===== src/Vm/Requests/Faults.antt =====
-- Where the simulator of p3 reads memory that it has not set.
use csci4730_operating_syste.Base.{
  ℕ, ◌/◌, ◌≤◌, ◌<◌, ◌≡◌, refl, Bool, true, false, ◌&&◌, ◌||◌, none, some, List, [], ◌∷◌, arith, ltb,
  leb, lt→ltb, if◌then◌else◌, ◌⊎◌, inl, inr, Bool-cases, ◌∙◌,
}
use csci4730_operating_syste.Vm.Replacement.{Policy}
use csci4730_operating_syste.Vm.Tables.{Pte, Ipte, Vm, init, read_pte, read_ipte, get_freeframe}
use csci4730_operating_syste.Vm.Mmu.{
  mmu, is_page_hit, answer, count_miss, pagefault_handler, claim_frame, fill, join_queue,
}
use csci4730_operating_syste.Vm.Requests.{
  Report, invalid_input, invalid_pid, invalid_vpn, serve, locate, translate, run,
}
use csci4730_operating_syste.Vm.Requests.Spec.{Access, to_request, inputs}

-- The access passes the tests of `main` and goes to `MMU`.
abbrev pub reaches : (max_pid max_vpn : ℕ) → Access → Bool
reaches max_pid max_vpn a =
    if ltb a.ret (if a.write then 4 else 3)
    then false
    else if leb max_pid a.pid
    then false
    else if leb max_vpn (a.addr / 256)
    then false
    else true

-- One of the accesses does.
abbrev pub any_reaches : (max_pid max_vpn : ℕ) → List Access → Bool
any_reaches max_pid max_vpn [] = false
any_reaches max_pid max_vpn (a ∷ rest) =
    reaches max_pid max_vpn a || any_reaches max_pid max_vpn rest

-- What is printed for an access that does not.
abbrev pub refusal : (max_pid : ℕ) → Access → Report
refusal max_pid a =
    if ltb a.ret (if a.write then 4 else 3)
    then invalid_input
    else if leb max_pid a.pid
    then invalid_pid
    else invalid_vpn

abbrev pub refusals : (max_pid : ℕ) → List Access → List Report
refusals max_pid [] = []
refusals max_pid (a ∷ rest) = refusal max_pid a ∷ refusals max_pid rest

mmu-init_fault :
    (max_pfn max_vpn max_pid : ℕ) (policy : Policy) (junk_pte : ℕ → ℕ → Pte) (junk_ipte : ℕ → Ipte)
    (junk_byte : ℕ → ℕ) (pid vpn type : ℕ)
    → 0 < max_pfn
    → pid < max_pid
    → vpn < max_vpn
    → (max_pid ≤ (junk_ipte 0).pid) ⊎ (max_vpn ≤ (junk_ipte 0).vpn)
    → mmu pid vpn type (init max_pfn max_vpn max_pid policy junk_pte junk_ipte junk_byte) ≡ none
unfolding mmu is_page_hit answer count_miss pagefault_handler claim_frame fill join_queue init
    read_pte read_ipte get_freeframe
mmu-init_fault max_pfn max_vpn max_pid policy junk_pte junk_ipte junk_byte pid vpn type pos p v
      out =
    let p' = lt→ltb _ _ p in
    let v' = lt→ltb _ _ v in
    let pos' = lt→ltb _ _ pos in
    let free : leb max_pfn 0 ≡ false = ground arith in
    let out' : (ltb (junk_ipte 0).pid max_pid && ltb (junk_ipte 0).vpn max_vpn) ≡ false =
      ground (arith, out) in
    rw (p', v', free, pos', out')

module _ (s : Vm)
    (fault : (pid vpn type : ℕ) → pid < s.max_pid → vpn < s.max_vpn → mmu pid vpn type s ≡ none)
    (ret pid addr byte : ℕ) where
  abbrev access : Bool → Access
  access write = record { ret = ret; pid = pid; addr = addr; write = write; byte = byte }

  serve_short :
      (write : Bool)
      → ltb ret (if write then 4 else 3) ≡ true
      → serve (to_request (access write)) s ≡ some ((invalid_input, true), s)
  unfolding serve
  serve_short true h = rw h refl
  serve_short false h = rw h refl

  serve_pid :
      (write : Bool)
      → ltb ret (if write then 4 else 3) ≡ false
      → leb s.max_pid pid ≡ true
      → serve (to_request (access write)) s ≡ some ((invalid_pid, true), s)
  unfolding serve locate
  serve_pid true h p = rw (h, p) refl
  serve_pid false h p = rw (h, p) refl

  serve_vpn :
      (write : Bool)
      → ltb ret (if write then 4 else 3) ≡ false
      → leb s.max_pid pid ≡ false
      → leb s.max_vpn (addr / 256) ≡ true
      → serve (to_request (access write)) s ≡ some ((invalid_vpn, true), s)
  unfolding serve locate translate
  serve_vpn true h p v = rw (h, p, v) refl
  serve_vpn false h p v = rw (h, p, v) refl

  serve_fault :
      (write : Bool)
      → ltb ret (if write then 4 else 3) ≡ false
      → leb s.max_pid pid ≡ false
      → leb s.max_vpn (addr / 256) ≡ false
      → serve (to_request (access write)) s ≡ none
  unfolding serve locate translate
  serve_fault true h p v =
      let e = fault pid (addr / 256) b'W' (ground arith) (ground arith) in rw (h, p, v, e) refl
  serve_fault false h p v =
      let e = fault pid (addr / 256) b'R' (ground arith) (ground arith) in rw (h, p, v, e) refl

  -- What comes of one access.
  Settles : Access → Type 0
  Settles a =
      ((reaches s.max_pid s.max_vpn a ≡ true) × (serve (to_request a) s ≡ none))
      ⊎ ((reaches s.max_pid s.max_vpn a ≡ false)
          × (serve (to_request a) s ≡ some ((refusal s.max_pid a, true), s)))

  settles : (write : Bool) → Settles (access write)
  unfolding Settles
  settles write = elim (Bool-cases (ltb ret (if write then 4 else 3))) [
    | inl h ↦ inr (rw h refl, serve_short write h ∙ rw h refl)
    | inr h ↦ elim (Bool-cases (leb s.max_pid pid)) [
      | inl p ↦ inr (rw (h, p) refl, serve_pid write h p ∙ rw (h, p) refl)
      | inr p ↦ elim (Bool-cases (leb s.max_vpn (addr / 256))) [
        | inl v ↦ inr (rw (h, p, v) refl, serve_vpn write h p v ∙ rw (h, p) refl)
        | inr v ↦ inl (rw (h, p, v) refl, serve_fault write h p v)
      ]
    ]
  ]

-- What comes of all accesses.
RunSettles : Vm → List Access → Type 0
RunSettles s accesses =
    ((any_reaches s.max_pid s.max_vpn accesses ≡ true) × (run (inputs accesses) s ≡ none))
    ⊎ ((any_reaches s.max_pid s.max_vpn accesses ≡ false)
        × (run (inputs accesses) s ≡ some (refusals s.max_pid accesses, s)))

run-Settles :
    (s : Vm)
    → ((pid vpn type : ℕ) → pid < s.max_pid → vpn < s.max_vpn → mmu pid vpn type s ≡ none)
    → (accesses : List Access) → RunSettles s accesses
unfolding RunSettles run Settles
run-Settles s fault [] = inr (refl, refl)
run-Settles s fault (a ∷ rest) = elim (settles s fault a.ret a.pid a.addr a.byte a.write) [
  | inl (r, e) ↦ inl (rw r refl, rw e refl)
  | inr (r, e) ↦ elim (run-Settles s fault rest) [
    | inl (r', e') ↦ inl (rw (r, r') refl, rw (e, e') refl)
    | inr (r', e') ↦ inr (rw (r, r') refl, rw (e, e') refl)
  ]
]

module _ (max_pfn max_vpn max_pid : ℕ) (policy : Policy) (junk_pte : ℕ → ℕ → Pte)
    (junk_ipte : ℕ → Ipte) (junk_byte : ℕ → ℕ) where
  -- The first page fault reads the entry of frame 0 in the inverted table, which `init_pagetable`
  -- leaves as `malloc` returned it. If that names a process or a page outside the tables, and
  -- there is a frame, then a list of reads and writes at numbers that are not negative leads to an
  -- access outside an array exactly if one of them passes the tests of `main`, whatever the policy
  -- and what comes in front of it. Otherwise each of them is refused, and the state stays as it was.
  pub run-init_fault :
      (accesses : List Access)
      → 0 < max_pfn
      → (max_pid ≤ (junk_ipte 0).pid) ⊎ (max_vpn ≤ (junk_ipte 0).vpn)
      → ((any_reaches max_pid max_vpn accesses ≡ true)
          × (run
                (inputs accesses)
                (init max_pfn max_vpn max_pid policy junk_pte junk_ipte junk_byte)
              ≡ none))
        ⊎ ((any_reaches max_pid max_vpn accesses ≡ false)
            × (run
                  (inputs accesses)
                  (init max_pfn max_vpn max_pid policy junk_pte junk_ipte junk_byte)
                ≡ some (
                  refusals max_pid accesses,
                  init max_pfn max_vpn max_pid policy junk_pte junk_ipte junk_byte,
                )))
  unfolding RunSettles init
  run-init_fault accesses pos out =
      run-Settles (init max_pfn max_vpn max_pid policy junk_pte junk_ipte junk_byte)
        (λ pid vpn type p v.
          mmu-init_fault max_pfn max_vpn max_pid policy junk_pte junk_ipte junk_byte pid vpn type
            pos p v out)
        accesses
