-- ===== src/Vm/Mmu/Invariant.antt =====
-- The page tables and the inverted page table of p3 agree; the contents of a page.
use csci4730_operating_syste.Base.{ℕ, ◌+◌, ◌≤◌, ◌<◌, ◌≡◌, ◌≢◌, true, false, arith, if◌then◌else◌}
use csci4730_operating_syste.Vm.Replacement.{Queues, enqueue}
use csci4730_operating_syste.Vm.Tables.{Vm, update, update_page}
use csci4730_operating_syste.Vm.Mmu.{mark}

-- The page `(p, v)` is within the tables.
abbrev pub InRange : Vm → ℕ → ℕ → Type 0
InRange s p v = (p < s.max_pid) × (v < s.max_vpn)

-- The entry of each valid page names a frame in use, whose inverted entry names the page, and each
-- frame in use belongs to a valid page. The frames in use are those below `n` but `hole`.
pub record Agree (s : Vm) (n hole : ℕ) : Type 0 where
  pub known : (f : ℕ) → f < s.max_pfn → InRange s (s.inverted f).pid (s.inverted f).vpn
  pub mapped :
      (p v : ℕ)
      → InRange s p v
      → (s.page_table p v).valid ≡ true
      → ((s.page_table p v).pfn < n)
        × ((s.page_table p v).pfn ≢ hole)
        × ((s.inverted (s.page_table p v).pfn).pid ≡ p)
        × ((s.inverted (s.page_table p v).pfn).vpn ≡ v)
  pub owned :
      (f : ℕ)
      → f < n
      → f ≢ hole
      → ((s.page_table (s.inverted f).pid (s.inverted f).vpn).valid ≡ true)
        × ((s.page_table (s.inverted f).pid (s.inverted f).vpn).pfn ≡ f)

-- The byte of a page: in its frame, if it has one, and on the swap disk otherwise.
unfoldable pub view : Vm → ℕ → ℕ → ℕ
view s p v = if (s.page_table p v).valid then s.memory (s.page_table p v).pfn else s.swap_disk p v

-- The state when frame `f` has been vacated, with `q` for the queues.
unfoldable pub evicted : Vm → ℕ → Queues → Vm
evicted s f q =
    let e = s.inverted f in
    record s {
      queues = q;
      stats = record s.stats { swap_write = s.stats.swap_write + 1 };
      swap_disk = update_page s.swap_disk e.pid e.vpn (s.memory f);
      page_table =
          update_page s.page_table e.pid e.vpn
            (record (s.page_table e.pid e.vpn) { valid = false });
    }

-- The state when `(pid, vpn)` has been loaded into frame `f`.
unfoldable pub filled : Vm → (pid vpn type f : ℕ) → Vm
filled s pid vpn type f =
    let old = s.page_table (s.inverted f).pid (s.inverted f).vpn in
    record s {
      queues = enqueue s.policy f s.queues;
      stats = record s.stats { swap_read = s.stats.swap_read + 1 };
      memory = update s.memory f (s.swap_disk pid vpn);
      inverted = update s.inverted f (record { pid = pid; vpn = vpn });
      page_table =
          update_page s.page_table pid vpn
            (record { pfn = f; valid = true; dirty = mark type old.dirty });
    }

module _ {s : Vm} {n : ℕ} (a : Agree s n s.max_pfn) (le : n ≤ s.max_pfn) (f : ℕ) (lt : f < n)
    (q : Queues) where
  pub evicted-Agree : Agree (evicted s f q) n f
  unfolding evicted
  evicted-Agree = record {
    known = a.known;
    mapped = λ p v r h. ground (arith, a.mapped p v r, a.owned f lt);
    owned = λ g lt' ne. ground (arith, a.owned f lt, a.owned g lt');
  }

  pub view-evicted : (p v : ℕ) → InRange s p v → view (evicted s f q) p v ≡ view s p v
  unfolding evicted view
  view-evicted p v r = ground (arith, a.owned f lt, a.mapped p v r)

module _ {s : Vm} {n f : ℕ} (a : Agree s n f) (le : n ≤ s.max_pfn) (lt : f < n) (pid vpn type : ℕ)
    (r : InRange s pid vpn) (out : (s.page_table pid vpn).valid ≡ false) where
  pub filled-Agree : Agree (filled s pid vpn type f) n s.max_pfn
  unfolding filled
  filled-Agree = record {
    known = λ g lt'. ground (arith, a.known g lt');
    mapped = λ p v r' h. ground (arith, a.mapped p v r');
    owned = λ g lt' ne. ground (arith, a.owned g lt');
  }

  pub view-filled : (p v : ℕ) → InRange s p v → view (filled s pid vpn type f) p v ≡ view s p v
  unfolding filled view
  view-filled p v r' = ground (arith, a.mapped p v r')

-- Taking the first frame that was never used leaves it vacant.
pub Agree-claim :
    {s : Vm}
    → Agree s s.next_free s.max_pfn
    → s.next_free < s.max_pfn
    → Agree (record s { next_free = s.next_free + 1 }) (s.next_free + 1) s.next_free
Agree-claim {s} a lt = record {
  known = a.known;
  mapped = λ p v r h. ground (arith, a.mapped p v r);
  owned = λ f lt' ne. ground (arith, a.owned f);
}
