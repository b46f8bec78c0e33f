-- ===== src/Vm/Mmu/Served.antt =====
-- What `MMU` of p3/pagetable.c has to keep, and what it has done when it has served a request.
use csci4730_operating_syste.Base.{ℕ, ◌+◌, ◌≤◌, ◌<◌, ◌≡◌, Bool, true, arith, ◌==◌, if◌then◌else◌}
use csci4730_operating_syste.Vm.Replacement.Bounds.{Below, IsFilled}
use csci4730_operating_syste.Vm.Tables.{Vm, update_page}
use csci4730_operating_syste.Vm.Mmu.Invariant.{InRange, Agree, view}

-- What holds between two requests: the tables agree, the queue of the policy is filled with frames
-- in use, each miss has read the disk once, and each miss that found no free frame has written it.
pub record Inv (s : Vm) : Type 0 where
  pub positive : 0 < s.max_pfn
  pub few : s.next_free ≤ s.max_pfn
  pub agree : Agree s s.next_free s.max_pfn
  pub below : Below s.policy s.next_free s.queues
  pub ready : 0 < s.next_free → IsFilled s.policy s.queues
  pub reads : s.stats.swap_read ≡ s.stats.miss_count
  pub writes : s.stats.swap_write + s.next_free ≡ s.stats.miss_count

-- The sizes and the policy are fixed.
pub record SameSizes (s s' : Vm) : Type 0 where
  pub pfns : s'.max_pfn ≡ s.max_pfn
  pub vpns : s'.max_vpn ≡ s.max_vpn
  pub pids : s'.max_pid ≡ s.max_pid
  pub policies : s'.policy ≡ s.policy

-- The outcome of a request for page `(pid, vpn)`: frame `f`, in state `s'`.
pub record Served (s : Vm) (pid vpn f : ℕ) (hit : Bool) (s' : Vm) : Type 0 where
  pub inv : Inv s'
  pub sizes : SameSizes s s'
  pub in_memory : f < s.max_pfn
  pub loaded : ((s'.page_table pid vpn).valid ≡ true) × ((s'.page_table pid vpn).pfn ≡ f)
  pub was_hit : hit ≡ (s.page_table pid vpn).valid
  pub kept : (p v : ℕ) → InRange s p v → view s' p v ≡ view s p v
  pub hits : s'.stats.hit_count ≡ s.stats.hit_count + (if hit then 1 else 0)
  pub misses : s'.stats.miss_count ≡ s.stats.miss_count + (if hit then 0 else 1)

-- The state after `mark_dirty`.
marked : Vm → (pid vpn type : ℕ) → Vm
marked s pid vpn type =
    let e = s.page_table pid vpn in
    if type == b'W'
    then record s { page_table = update_page s.page_table pid vpn (record e { dirty = true }) }
    else s

pub InRange-SameSizes : {s s' : Vm} (p v : ℕ) → SameSizes s s' → InRange s p v → InRange s' p v
InRange-SameSizes p v z r = (omega (arith, z.pids), omega (arith, z.vpns))
