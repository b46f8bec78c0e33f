-- ===== src/Vm/Mmu/Steps.antt =====
-- What eviction and filling do to the state, when the tables of p3 agree.
use csci4730_operating_syste.Base.{ℕ, ◌+◌, ◌≤◌, ◌<◌, ◌≡◌, some, arith, lt→ltb}
use csci4730_operating_syste.Vm.Replacement.{Queues, enqueue, find_replacement, drop_victim}
use csci4730_operating_syste.Vm.Tables.{
  Pte, Ipte, Vm, update, update_page, read_pte, write_pte, read_ipte, write_ipte, swap_in, swap_out,
}
use csci4730_operating_syste.Vm.Mmu.{evict, pick_victim, fill, join_queue}
use csci4730_operating_syste.Vm.Mmu.Invariant.{InRange, Agree, evicted, filled}

module _ (s : Vm) (p v : ℕ) (r : InRange s p v) where
  pub read_pte_ok : read_pte p v s ≡ some (s.page_table p v, s)
  unfolding read_pte
  read_pte_ok = rw (lt→ltb _ _ r.0, lt→ltb _ _ r.1)

  pub write_pte_ok :
      (e : Pte)
      → write_pte p v e s ≡ some (tt, record s { page_table = update_page s.page_table p v e })
  unfolding write_pte
  write_pte_ok e = rw (lt→ltb _ _ r.0, lt→ltb _ _ r.1)

  swap_in_ok :
      (f : ℕ)
      → f < s.max_pfn
      → swap_in p v f s
        ≡ some (
          tt,
          record s {
            stats = record s.stats { swap_read = s.stats.swap_read + 1 };
            memory = update s.memory f (s.swap_disk p v);
          },
        )
  unfolding swap_in
  swap_in_ok f lt = rw (lt→ltb _ _ r.0, lt→ltb _ _ r.1, lt→ltb _ _ lt)

  swap_out_ok :
      (f : ℕ)
      → f < s.max_pfn
      → swap_out p v f s
        ≡ some (
          tt,
          record s {
            stats = record s.stats { swap_write = s.stats.swap_write + 1 };
            swap_disk = update_page s.swap_disk p v (s.memory f);
          },
        )
  unfolding swap_out
  swap_out_ok f lt = rw (lt→ltb _ _ r.0, lt→ltb _ _ r.1, lt→ltb _ _ lt)

module _ (s : Vm) (f : ℕ) (lt : f < s.max_pfn) where
  read_ipte_ok : read_ipte f s ≡ some (s.inverted f, s)
  unfolding read_ipte
  read_ipte_ok = rw (lt→ltb _ _ lt)

  write_ipte_ok :
      (e : Ipte) → write_ipte f e s ≡ some (tt, record s { inverted = update s.inverted f e })
  unfolding write_ipte
  write_ipte_ok e = rw (lt→ltb _ _ lt)

pick_victim_ok :
    (s : Vm) (f : ℕ) (q : Queues)
    → find_replacement s.policy s.max_pfn s.queues ≡ some (f, q)
    → pick_victim s ≡ some (f, record s { queues = drop_victim s.policy q })
unfolding pick_victim
pick_victim_ok s f q found = rw (found, pick_victim)

pub evict_lem :
    (s : Vm) (n f : ℕ) (q : Queues)
    → find_replacement s.policy s.max_pfn s.queues ≡ some (f, q)
    → Agree s n s.max_pfn
    → n ≤ s.max_pfn
    → f < n
    → evict s ≡ some (f, evicted s f (drop_victim s.policy q))
unfolding evict evicted
evict_lem s n f q found a le lt =
    let lt' : f < s.max_pfn = omega arith in
    let r = a.known f lt' in
    let (valid, same) = a.owned f lt (omega arith) in
    let s' : Vm = record s { queues = drop_victim s.policy q } in
    let s'' : Vm = record s' {
      stats = record s.stats { swap_write = s.stats.swap_write + 1 };
      swap_disk = update_page s.swap_disk (s.inverted f).pid (s.inverted f).vpn (s.memory f);
    } in
    rw (
      pick_victim_ok s f q found,
      read_ipte_ok s' f lt',
      read_pte_ok s' (s.inverted f).pid (s.inverted f).vpn r,
      same,
      swap_out_ok s' (s.inverted f).pid (s.inverted f).vpn r f lt',
      write_pte_ok s'' (s.inverted f).pid (s.inverted f).vpn r,
    )

pub fill_lem :
    (s : Vm) (pid vpn type f : ℕ)
    → InRange s pid vpn
    → f < s.max_pfn
    → InRange s (s.inverted f).pid (s.inverted f).vpn
    → fill pid vpn type f s ≡ some (f, filled s pid vpn type f)
unfolding fill filled join_queue
fill_lem s pid vpn type f r lt known =
    let s' : Vm = record s { queues = enqueue s.policy f s.queues } in
    let s'' : Vm = record s' {
      stats = record s.stats { swap_read = s.stats.swap_read + 1 };
      memory = update s.memory f (s.swap_disk pid vpn);
    } in
    let owner : Ipte = record { pid = pid; vpn = vpn } in
    rw (
      read_ipte_ok s' f lt,
      read_pte_ok s' (s.inverted f).pid (s.inverted f).vpn known,
      swap_in_ok s' pid vpn r f lt,
      write_ipte_ok s'' f lt,
      write_pte_ok (record s'' { inverted = update s.inverted f owner }) pid vpn r,
    )
