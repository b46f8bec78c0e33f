-- ===== src/Vm/Mmu/Serve.antt =====
-- `MMU` of p3 serves every page within the tables, under each of the four policies.
use csci4730_operating_syste.Base.{ℕ, ◌≡◌, Bool, true, false, some, Bool-cases, inl, inr}
use csci4730_operating_syste.Vm.Tables.{Vm}
use csci4730_operating_syste.Vm.Mmu.Served.{Inv, Served}
use csci4730_operating_syste.Vm.Mmu.Hit.{mmu_hit, hit_Served}
use csci4730_operating_syste.Vm.Mmu.Miss.{miss-Served}
use csci4730_operating_syste.Vm.Mmu.{mmu}
use csci4730_operating_syste.Vm.Mmu.Invariant.{InRange}

pub mmu-Served :
    (s : Vm) (pid vpn type : ℕ)
    → Inv s
    → InRange s pid vpn
    → (f : ℕ) × (hit : Bool) × (s' : Vm) × (mmu pid vpn type s ≡ some ((f, hit), s'))
      × Served s pid vpn f hit s'
mmu-Served s pid vpn type inv r = elim (Bool-cases (s.page_table pid vpn).valid) [
  | inl valid ↦
      (_, true, _, mmu_hit s inv pid vpn type r valid, hit_Served s inv pid vpn type r valid)
  | inr missing ↦
      let (f, s', e, done) = miss-Served s inv pid vpn type r missing in (f, false, s', e, done)
]
