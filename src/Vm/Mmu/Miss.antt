-- ===== src/Vm/Mmu/Miss.antt =====
-- `MMU` of p3/pagetable.c on a page that is not in memory: the fault handler on both its ways.
use csci4730_operating_syste.Base.{
  ℕ, ◌+◌, ◌≤◌, ◌<◌, ◌≡◌, refl, true, false, some, arith, leb, Bool-cases, inl, inr, sym, ◌∙◌,
}
use csci4730_operating_syste.Vm.Replacement.{Queues, drop_victim}
use csci4730_operating_syste.Vm.Replacement.Bounds.{
  Below, find_replacement-lt, enqueue-Below, Below-mono,
}
use csci4730_operating_syste.Vm.Tables.{Pte, Vm, pure, and_then, get_freeframe}
use csci4730_operating_syste.Vm.Mmu.Served.{Inv, SameSizes, Served, InRange-SameSizes}
use mathlib.Core.Path.{subst}
use csci4730_operating_syste.Vm.Mmu.{
  fill, claim_frame, pagefault_handler, is_page_hit, count_miss, answer, mmu,
}
use csci4730_operating_syste.Vm.Mmu.Invariant.{
  InRange, Agree, evicted, filled, view, evicted-Agree, view-evicted, filled-Agree, view-filled,
  Agree-claim,
}
use csci4730_operating_syste.Vm.Mmu.Steps.{evict_lem, fill_lem, read_pte_ok}

-- The state between the choice of a frame and the load: `f` is vacant, and nothing else is lost.
record Vacant (s : Vm) (f : ℕ) (s' : Vm) : Type 0 where
  sizes : SameSizes s s'
  positive : 0 < s'.max_pfn
  few : s'.next_free ≤ s'.max_pfn
  vacant : f < s'.next_free
  agree : Agree s' s'.next_free f
  below : Below s'.policy s'.next_free s'.queues
  kept : (p v : ℕ) → InRange s p v → view s' p v ≡ view s p v
  gone : (p v : ℕ) → (s.page_table p v).valid ≡ false → (s'.page_table p v).valid ≡ false
  hits : s'.stats.hit_count ≡ s.stats.hit_count
  misses : s'.stats.miss_count ≡ s.stats.miss_count + 1
  reads : s'.stats.swap_read + 1 ≡ s'.stats.miss_count
  writes : s'.stats.swap_write + s'.next_free ≡ s'.stats.miss_count

module _ {s s' : Vm} {f : ℕ} (h : Vacant s f s') (pid vpn type : ℕ) (r : InRange s pid vpn)
    (out : (s.page_table pid vpn).valid ≡ false) where
  within : InRange s' pid vpn
  within = InRange-SameSizes pid vpn h.sizes r

  empty : (s'.page_table pid vpn).valid ≡ false
  empty = h.gone pid vpn out

  filled-Inv : Inv (filled s' pid vpn type f)
  unfolding filled
  filled-Inv =
      let q = enqueue-Below s'.policy s'.next_free f s'.queues h.below h.vacant in
      record {
        positive = h.positive;
        few = h.few;
        agree = filled-Agree h.agree h.few h.vacant pid vpn type within empty;
        below = q.0;
        ready = λ _. q.1;
        reads = h.reads;
        writes = h.writes;
      }

  filled-Served : Served s pid vpn f false (filled s' pid vpn type f)
  unfolding filled
  filled-Served = record {
    inv = filled-Inv;
    sizes = record {
      pfns = h.sizes.pfns;
      vpns = h.sizes.vpns;
      pids = h.sizes.pids;
      policies = h.sizes.policies;
    };
    in_memory = omega (arith, h.vacant, h.few, h.sizes.pfns);
    loaded = ground arith;
    was_hit = sym out;
    kept = λ p v r'.
        view-filled h.agree h.few h.vacant pid vpn type within empty p v
          (InRange-SameSizes p v h.sizes r')
        ∙ h.kept p v r';
    hits = omega (arith, h.hits);
    misses = h.misses;
  }

module _ (s : Vm) (inv : Inv s) (pid vpn type : ℕ) (r : InRange s pid vpn) where
  abbrev pte : Pte
  pte = s.page_table pid vpn

  module _ (missing : pte.valid ≡ false) where
    abbrev counted : Vm
    counted = record s { stats = record s.stats { miss_count = s.stats.miss_count + 1 } }

    counted-Agree : Agree counted s.next_free s.max_pfn
    counted-Agree = record {
      known = inv.agree.known;
      mapped = inv.agree.mapped;
      owned = inv.agree.owned;
    }

    mmu_miss :
        mmu pid vpn type s
        ≡ and_then (pagefault_handler pid vpn type counted) (λ f. pure (f, false))
    unfolding mmu is_page_hit answer count_miss
    mmu_miss = rw (read_pte_ok s pid vpn r, missing)

    free-Vacant :
        s.next_free < s.max_pfn
        → Vacant s s.next_free (record counted { next_free = s.next_free + 1 })
    unfolding view
    free-Vacant lt = record {
      sizes = record { pfns = refl; vpns = refl; pids = refl; policies = refl };
      positive = inv.positive;
      few = omega arith;
      vacant = omega arith;
      agree = Agree-claim counted-Agree lt;
      below = Below-mono s.policy s.next_free (s.next_free + 1) s.queues (omega arith) inv.below;
      kept = λ p v r'. refl;
      gone = λ p v e. e;
      hits = refl;
      misses = refl;
      reads = omega (arith, inv.reads);
      writes = omega (arith, inv.writes);
    }

    evict-Vacant :
        (f : ℕ) (q : Queues)
        → s.next_free ≡ s.max_pfn
        → f < s.next_free
        → Below s.policy s.next_free q
        → Vacant s f (evicted counted f q)
    unfolding evicted
    evict-Vacant f q full lt below = record {
      sizes = record { pfns = refl; vpns = refl; pids = refl; policies = refl };
      positive = inv.positive;
      few = inv.few;
      vacant = lt;
      agree = evicted-Agree counted-Agree inv.few f lt q;
      below = below;
      kept = λ p v r'. view-evicted counted-Agree inv.few f lt q p v r' ∙ unfold view in refl;
      gone = λ p v e. ground arith;
      hits = refl;
      misses = refl;
      reads = omega (arith, inv.reads);
      writes = omega (arith, inv.writes);
    }

    -- The outcome from the frame that is claimed.
    abbrev Miss : Type 0
    Miss =
        (f : ℕ) × (s' : Vm) × Vacant s f s'
        × (pagefault_handler pid vpn type counted ≡ fill pid vpn type f s')

    miss_free : leb s.max_pfn s.next_free ≡ false → Miss
    unfolding pagefault_handler get_freeframe claim_frame
    miss_free h = (s.next_free, _, free-Vacant (ground arith), rw h)

    miss_full : leb s.max_pfn s.next_free ≡ true → Miss
    unfolding pagefault_handler get_freeframe claim_frame
    miss_full h =
        let full : s.next_free ≡ s.max_pfn = ground (arith, inv.few) in
        let below : Below s.policy s.max_pfn s.queues =
          subst (λ n. Below s.policy n s.queues) full inv.below in
        let ready = inv.ready (omega (arith, full, inv.positive)) in
        let (f, q, found, lt, left) =
          find_replacement-lt s.policy s.max_pfn s.queues inv.positive below ready in
        let lt' : f < s.next_free = omega arith in
        let left' : Below s.policy s.next_free (drop_victim s.policy q) =
          subst (λ n. Below s.policy n (drop_victim s.policy q)) (sym full) left in
        (
          f,
          evicted counted f (drop_victim s.policy q),
          evict-Vacant f (drop_victim s.policy q) full lt' left',
          rw (h, evict_lem counted s.next_free f q found counted-Agree inv.few lt'),
        )

    miss : Miss
    miss = elim (Bool-cases (leb s.max_pfn s.next_free)) [
      | inl full ↦ miss_full full
      | inr free ↦ miss_free free
    ]

    pub miss-Served :
        (f : ℕ) × (s' : Vm) × (mmu pid vpn type s ≡ some ((f, false), s'))
        × Served s pid vpn f false s'
    miss-Served =
        let (f, s', v, e) = miss in
        (
          f,
          filled s' pid vpn type f,
          rw (
            mmu_miss,
            e,
            fill_lem s' pid vpn type f (InRange-SameSizes pid vpn v.sizes r)
                (omega (arith, v.vacant, v.few)) (v.agree.known f (omega (arith, v.vacant, v.few))),
          ),
          filled-Served v pid vpn type r missing,
        )
