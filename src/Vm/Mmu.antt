-- ===== src/Vm/Mmu.antt =====
-- p3/pagetable.c: the page fault handler, the test for a hit, and the MMU.
pub mod Invariant
pub mod Steps
pub mod Served
pub mod Hit
pub mod Miss
pub mod Serve
use csci4730_operating_syste.Base.{
  ℕ, ◌+◌, Bool, true, false, Option, none, some, ◌==◌, if◌then◌else◌,
}
use csci4730_operating_syste.Vm.Replacement.{find_replacement, drop_victim, enqueue, note_hit}
use csci4730_operating_syste.Vm.Tables.{
  Pte, M, pure, ◌>>=◌, ◌>>◌, read_pte, write_pte, read_ipte, write_ipte, get_freeframe, swap_in,
  swap_out,
}

-- The victim of the policy, taken out of the queue.
unfoldable pub pick_victim : M ℕ
pick_victim s = elim (find_replacement s.policy s.max_pfn s.queues) [
  | none ↦ none
  | some (f, q) ↦ some (f, record s { queues = drop_victim s.policy q })
]

-- The page of the victim's frame goes to the swap disk, whether it is dirty or not.
unfoldable pub evict : M ℕ
evict = do
  pfn ← pick_victim
  ipte ← read_ipte pfn
  pte ← read_pte ipte.pid ipte.vpn
  swap_out ipte.pid ipte.vpn pte.pfn
  write_pte ipte.pid ipte.vpn (record pte { valid = false })
  pure pfn

unfoldable pub claim_frame : Option ℕ → M ℕ
claim_frame (some pfn) = pure pfn
claim_frame none = evict

unfoldable pub join_queue : ℕ → M (Unit {0})
join_queue pfn s = some (tt, record s { queues = enqueue s.policy pfn s.queues })

-- The new dirty bit: set by 'W', cleared by 'R', and kept for another request.
unfoldable pub mark : ℕ → Bool → Bool
mark type old = if type == b'W' then true else if type == b'R' then false else old

-- The entry that is overwritten is read through the inverted table, which for a frame that was
-- never used still holds what `malloc` left there.
unfoldable pub fill : ℕ → ℕ → ℕ → ℕ → M ℕ
fill pid vpn type pfn = do
  join_queue pfn
  ipte ← read_ipte pfn
  pte ← read_pte ipte.pid ipte.vpn
  swap_in pid vpn pfn
  write_ipte pfn (record { pid = pid; vpn = vpn })
  write_pte pid vpn (record { pfn = pfn; valid = true; dirty = mark type pte.dirty })
  pure pfn

unfoldable pub pagefault_handler : ℕ → ℕ → ℕ → M ℕ
pagefault_handler pid vpn type = do
  free ← get_freeframe
  pfn ← claim_frame free
  fill pid vpn type pfn

unfoldable pub mark_dirty : ℕ → ℕ → ℕ → Pte → M (Unit {0})
mark_dirty pid vpn type pte =
    if type == b'W' then write_pte pid vpn (record pte { dirty = true }) else pure tt

unfoldable pub note_queue : ℕ → M (Unit {0})
note_queue pfn s = some (tt, record s { queues = note_hit s.policy pfn s.queues })

-- `is_page_hit` for a valid entry.
unfoldable pub take_hit : ℕ → ℕ → ℕ → Pte → M (Option ℕ)
take_hit pid vpn type pte = do mark_dirty pid vpn type pte; note_queue pte.pfn; pure (some pte.pfn)

-- The frame of a page that is in memory; -1 is `none`.
unfoldable pub is_page_hit : ℕ → ℕ → ℕ → M (Option ℕ)
is_page_hit pid vpn type = do
  pte ← read_pte pid vpn
  if pte.valid then take_hit pid vpn type pte else pure none

unfoldable pub count_hit : M (Unit {0})
count_hit s = some (tt, record s { stats = record s.stats { hit_count = s.stats.hit_count + 1 } })

unfoldable pub count_miss : M (Unit {0})
count_miss s =
    some (tt, record s { stats = record s.stats { miss_count = s.stats.miss_count + 1 } })

unfoldable pub answer : ℕ → ℕ → ℕ → Option ℕ → M (ℕ × Bool)
answer pid vpn type (some pfn) = do count_hit; pure (pfn, true)
answer pid vpn type none = do count_miss; pfn ← pagefault_handler pid vpn type; pure (pfn, false)

-- `MMU`: the frame, and `*hit`.
unfoldable pub mmu : ℕ → ℕ → ℕ → M (ℕ × Bool)
mmu pid vpn type = do frame ← is_page_hit pid vpn type; answer pid vpn type frame
