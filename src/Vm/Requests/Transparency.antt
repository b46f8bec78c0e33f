-- ===== src/Vm/Requests/Transparency.antt =====
-- The request loop of p3/vm.c behaves as the flat memory, whichever policy pages it.
use csci4730_operating_syste.Base.{
  ℕ, ◌+◌, ◌*◌, ◌/◌, ◌%◌, ◌<◌, ◌≡◌, refl, Bool, true, false, some, List, [], ◌∷◌, arith, ltb, leb,
  if◌then◌else◌, Bool-cases, inl, inr, sym, ◌∙◌,
}
use csci4730_operating_syste.Vm.Tables.{Vm, update, update_page}
use csci4730_operating_syste.Vm.Mmu.Invariant.{InRange, view}
use csci4730_operating_syste.Vm.Mmu.Served.{Inv, SameSizes, Served, InRange-SameSizes}
use csci4730_operating_syste.Vm.Mmu.Serve.{mmu-Served}
use csci4730_operating_syste.Vm.Requests.{
  Report, invalid_input, invalid_pid, invalid_vpn, accessed, serve, locate, translate, finish,
  stored, reported, read_physical_mem, write_physical_mem, run,
}
use csci4730_operating_syste.Vm.Requests.Spec.{
  Access, to_request, inputs, observe, observe_all, Memory, ideal, ideal_run,
}

-- The pages of `s` hold what `m` says.
abbrev pub Holds : Vm → Memory → Type 0
Holds s m = (p v : ℕ) → InRange s p v → view s p v ≡ m p v

-- One request is answered as by the flat memory, and leaves a state that holds its pages.
record Answered (s : Vm) (a : Access) (m : Memory) (report : Report) (s' : Vm) : Type 0 where
  inv : Inv s'
  sizes : SameSizes s s'
  seen : observe report ≡ (ideal s.max_pid s.max_vpn a m).0
  holds : Holds s' (ideal s.max_pid s.max_vpn a m).1

poke : Vm → (f byte : ℕ) → Vm
poke s f byte = record s { memory = update s.memory f byte }

module _ (s : Vm) (inv : Inv s) (f byte : ℕ) where
  poke-Inv : Inv (poke s f byte)
  unfolding poke
  poke-Inv = record {
    positive = inv.positive;
    few = inv.few;
    agree = record { known = inv.agree.known; mapped = inv.agree.mapped; owned = inv.agree.owned };
    below = inv.below;
    ready = inv.ready;
    reads = inv.reads;
    writes = inv.writes;
  }

  view-poke :
      (p v : ℕ)
      → InRange s p v
      → (s.page_table p v).valid ≡ true
      → (s.page_table p v).pfn ≡ f
      → (p' v' : ℕ) → InRange s p' v'
      → view (poke s f byte) p' v' ≡ update_page (view s) p v byte p' v'
  unfolding poke view
  view-poke p v r valid same p' v' r' =
      ground (arith, inv.agree.mapped p v r, inv.agree.mapped p' v' r')

poke-sizes : {s s' : Vm} → SameSizes s s' → (f byte : ℕ) → SameSizes s (poke s' f byte)
unfolding poke
poke-sizes z f byte = record { pfns = z.pfns; vpns = z.vpns; pids = z.pids; policies = z.policies }

frame_of : (f offset : ℕ) → offset < 256 → (f * 256 + offset) / 256 ≡ f
frame_of f offset h = omega arith

module _ (s : Vm) (f offset : ℕ) (small : offset < 256) (lt : f < s.max_pfn) where
  abbrev physical : ℕ
  physical = f * 256 + offset

  finish_read :
      (pid addr byte : ℕ) (hit : Bool)
      → finish b'R' pid addr byte offset (f, hit) s
        ≡ some ((accessed b'R' pid addr physical (s.memory f) hit, true), s)
  unfolding finish read_physical_mem reported
  finish_read pid addr byte hit =
      let inside : leb s.max_pfn f ≡ false = ground arith in
      rw (inside, frame_of f offset small, inside)

  finish_write :
      (pid addr byte : ℕ) (hit : Bool)
      → finish b'W' pid addr byte offset (f, hit) s
        ≡ some ((accessed b'W' pid addr physical byte hit, true), poke s f byte)
  unfolding finish write_physical_mem stored poke
  finish_write pid addr byte hit =
      let inside : leb s.max_pfn f ≡ false = ground arith in
      rw (inside, frame_of f offset small, inside)

view-loaded :
    (s : Vm) (p v f : ℕ)
    → (s.page_table p v).valid ≡ true
    → (s.page_table p v).pfn ≡ f
    → view s p v ≡ s.memory f
unfolding view
view-loaded s p v f valid same = rw (valid, same)

InRange-back : {s s' : Vm} (p v : ℕ) → SameSizes s s' → InRange s' p v → InRange s p v
InRange-back p v z r = (omega (arith, z.pids), omega (arith, z.vpns))

-- What is left to show of a request when its answer is known.
abbrev Outcome : Vm → Access → Memory → Type 0
Outcome s a m =
    (report : Report) × (s' : Vm) × (serve (to_request a) s ≡ some ((report, true), s'))
    × Answered s a m report s'

abbrev same_sizes : (s : Vm) → SameSizes s s
same_sizes s = record { pfns = refl; vpns = refl; pids = refl; policies = refl }

poke-Holds :
    (s s' : Vm) (m : Memory) (pid vpn f byte : ℕ) {hit : Bool}
    → Holds s m
    → InRange s pid vpn
    → Served s pid vpn f hit s'
    → Holds (poke s' f byte) (update_page m pid vpn byte)
unfolding poke
poke-Holds s s' m pid vpn f byte holds r done p v r' =
    let r'' = InRange-back p v done.sizes r' in
    view-poke s' done.inv f byte pid vpn (InRange-SameSizes pid vpn done.sizes r) done.loaded.0
      done.loaded.1 p v r'
    ∙ ground (arith, done.kept p v r'', holds p v r'')

module _ (s : Vm) (m : Memory) (inv : Inv s) (holds : Holds s m) (ret pid addr byte : ℕ) where
  abbrev access : Bool → Access
  access write = record { ret = ret; pid = pid; addr = addr; write = write; byte = byte }

  short_input :
      (write : Bool) → ltb ret (if write then 4 else 3) ≡ true → Outcome s (access write) m
  unfolding serve ideal observe
  short_input true h = (
    invalid_input,
    s,
    rw h,
    record { inv = inv; sizes = same_sizes s; seen = rw h; holds = rw h holds },
  )
  short_input false h = (
    invalid_input,
    s,
    rw h,
    record { inv = inv; sizes = same_sizes s; seen = rw h; holds = rw h holds },
  )

  bad_pid :
      (write : Bool)
      → ltb ret (if write then 4 else 3) ≡ false
      → leb s.max_pid pid ≡ true
      → Outcome s (access write) m
  unfolding serve locate ideal observe
  bad_pid true h p = (
    invalid_pid,
    s,
    rw (h, p),
    record { inv = inv; sizes = same_sizes s; seen = rw (h, p); holds = rw (h, p) holds },
  )
  bad_pid false h p = (
    invalid_pid,
    s,
    rw (h, p),
    record { inv = inv; sizes = same_sizes s; seen = rw (h, p); holds = rw (h, p) holds },
  )

  bad_vpn :
      (write : Bool)
      → ltb ret (if write then 4 else 3) ≡ false
      → leb s.max_pid pid ≡ false
      → leb s.max_vpn (addr / 256) ≡ true
      → Outcome s (access write) m
  unfolding serve locate translate ideal observe
  bad_vpn true h p v = (
    invalid_vpn,
    s,
    rw (h, p, v),
    record { inv = inv; sizes = same_sizes s; seen = rw (h, p, v); holds = rw (h, p, v) holds },
  )
  bad_vpn false h p v = (
    invalid_vpn,
    s,
    rw (h, p, v),
    record { inv = inv; sizes = same_sizes s; seen = rw (h, p, v); holds = rw (h, p, v) holds },
  )

  module _ (p : leb s.max_pid pid ≡ false) (v : leb s.max_vpn (addr / 256) ≡ false) where
    within : InRange s pid (addr / 256)
    within = ground arith

    good_read : ltb ret 3 ≡ false → Outcome s (access false) m
    unfolding serve locate translate ideal observe
    good_read h =
        let (f, hit, s', e, done) = mmu-Served s pid (addr / 256) b'R' inv within in
        let lt : f < s'.max_pfn = omega (arith, done.in_memory, done.sizes.pfns) in
        let got : s'.memory f ≡ m pid (addr / 256) =
          sym (view-loaded s' pid (addr / 256) f done.loaded.0 done.loaded.1)
          ∙ done.kept pid (addr / 256) within
          ∙ holds pid (addr / 256) within in
        (
          accessed b'R' pid addr (f * 256 + addr % 256) (s'.memory f) hit,
          s',
          rw (h, p, v, e, finish_read s' f (addr % 256) (omega arith) lt pid addr byte hit),
          record {
            inv = done.inv;
            sizes = done.sizes;
            seen = rw (h, p, v, got);
            holds =
                rw (h, p, v)
                  (λ p' v' r'.
                    let r = InRange-back p' v' done.sizes r' in done.kept p' v' r ∙ holds p' v' r);
          },
        )

    good_write : ltb ret 4 ≡ false → Outcome s (access true) m
    unfolding serve locate translate ideal observe
    good_write h =
        let (f, hit, s', e, done) = mmu-Served s pid (addr / 256) b'W' inv within in
        let lt : f < s'.max_pfn = omega (arith, done.in_memory, done.sizes.pfns) in
        (
          accessed b'W' pid addr (f * 256 + addr % 256) byte hit,
          poke s' f byte,
          rw (h, p, v, e, finish_write s' f (addr % 256) (omega arith) lt pid addr byte hit),
          record {
            inv = poke-Inv s' done.inv f byte;
            sizes = poke-sizes done.sizes f byte;
            seen = rw (h, p, v);
            holds = rw (h, p, v) (poke-Holds s s' m pid (addr / 256) f byte holds within done);
          },
        )

    answer_good :
        (write : Bool) → ltb ret (if write then 4 else 3) ≡ false → Outcome s (access write) m
    answer_good true h = good_write h
    answer_good false h = good_read h

  answer : (write : Bool) → Outcome s (access write) m
  answer write = elim (Bool-cases (ltb ret (if write then 4 else 3))) [
    | inl h ↦ short_input write h
    | inr h ↦ elim (Bool-cases (leb s.max_pid pid)) [
      | inl p ↦ bad_pid write h p
      | inr p ↦ elim (Bool-cases (leb s.max_vpn (addr / 256))) [
        | inl v ↦ bad_vpn write h p v
        | inr v ↦ answer_good p v write h
      ]
    ]
  ]

-- Under every replacement policy the simulator prints what a flat memory for each process would:
-- from a state that satisfies the invariant and whose pages hold `m`, every list of reads and
-- writes at numbers that are not negative is served to the end with no fault, and the reports,
-- less the physical addresses and the hits, are those of the flat memory that starts at `m`.
pub run-ideal_run :
    (accesses : List Access) (s : Vm) (m : Memory)
    → Inv s
    → Holds s m
    → (reports : List Report) × (s' : Vm) × (run (inputs accesses) s ≡ some (reports, s'))
      × (observe_all reports ≡ ideal_run s.max_pid s.max_vpn accesses m)
unfolding run observe_all ideal_run
run-ideal_run [] s m inv holds = ([], s, refl, refl)
run-ideal_run (a ∷ rest) s m inv holds =
    let (report, s₁, e, done) = answer s m inv holds a.ret a.pid a.addr a.byte a.write in
    let (reports, s₂, e', seen) = run-ideal_run rest s₁ _ done.inv done.holds in
    (report ∷ reports, s₂, rw (e, e'), rw (done.seen, seen, done.sizes.pids, done.sizes.vpns))
