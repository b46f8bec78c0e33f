-- ===== src/Vm/Mmu/Hit.antt =====
-- `MMU` of p3/pagetable.c on a page that is in memory.
use csci4730_operating_syste.Base.{
  ℕ, ◌+◌, ◌≡◌, refl, true, some, arith, ◌==◌, if◌then◌else◌, Bool-cases, inl, inr, sym,
}
use csci4730_operating_syste.Vm.Replacement.{note_hit}
use csci4730_operating_syste.Vm.Replacement.Bounds.{note_hit-Below}
use csci4730_operating_syste.Vm.Tables.{Pte, Vm, update_page}
use csci4730_operating_syste.Vm.Mmu.Served.{Inv, Served}
use csci4730_operating_syste.Vm.Mmu.{
  mark_dirty, note_queue, take_hit, is_page_hit, count_hit, answer, mmu,
}
use csci4730_operating_syste.Vm.Mmu.Invariant.{InRange, view}
use csci4730_operating_syste.Vm.Mmu.Steps.{read_pte_ok, write_pte_ok}

-- The state after `mark_dirty`.
pub marked : Vm → (pid vpn type : ℕ) → Vm
marked s pid vpn type =
    let e = s.page_table pid vpn in
    if type == b'W'
    then record s { page_table = update_page s.page_table pid vpn (record e { dirty = true }) }
    else s

module _ (s : Vm) (inv : Inv s) (pid vpn type : ℕ) (r : InRange s pid vpn) where
  abbrev pub pte : Pte
  pte = s.page_table pid vpn

  -- The state after a hit.
  abbrev pub hit_state : Vm
  hit_state =
      let m = marked s pid vpn type in
      record m {
        queues = note_hit s.policy pte.pfn s.queues;
        stats = record s.stats { hit_count = s.stats.hit_count + 1 };
      }

  module _ (valid : pte.valid ≡ true) where
    pub mmu_hit : mmu pid vpn type s ≡ some ((pte.pfn, true), hit_state)
    unfolding mmu is_page_hit take_hit mark_dirty note_queue answer count_hit marked
    mmu_hit =
        rw (read_pte_ok s pid vpn r, valid)
          (elim (Bool-cases (type == b'W')) [
            | inl w ↦ rw (w, write_pte_ok s pid vpn r)
            | inr o ↦ rw o
          ])

    hit_Inv : Inv hit_state
    unfolding marked
    hit_Inv =
        let (lt, _, _, _) = inv.agree.mapped pid vpn r valid in
        let q =
          note_hit-Below s.policy s.next_free pte.pfn s.queues inv.below (inv.ready (omega arith))
            lt in
        record {
          positive = ground (arith, inv.positive);
          few = ground (arith, inv.few);
          agree = record {
            known = λ f l. ground (arith, inv.agree.known f);
            mapped = λ p v r' h. ground (arith, inv.agree.mapped p v);
            owned = λ f l ne. ground (arith, inv.agree.owned f);
          };
          below = elim (Bool-cases (type == b'W')) [ inl w ↦ rw w q.0 | inr o ↦ rw o q.0 ];
          ready = λ l. elim (Bool-cases (type == b'W')) [ inl w ↦ rw w q.1 | inr o ↦ rw o q.1 ];
          reads = inv.reads;
          writes = ground (arith, inv.writes);
        }

    pub hit_Served : Served s pid vpn pte.pfn true hit_state
    unfolding marked view
    hit_Served = record {
      inv = hit_Inv;
      sizes = record {
        pfns = ground arith;
        vpns = ground arith;
        pids = ground arith;
        policies = ground arith;
      };
      in_memory = ground (arith, inv.agree.mapped pid vpn r valid, inv.few);
      loaded = ground (arith, valid);
      was_hit = sym valid;
      kept = λ p v r'. ground arith;
      hits = refl;
      misses = omega arith;
    }
