-- ===== src/Vm/Requests/Spec.antt =====
-- What a user of the simulator of p3 sees: one flat memory for each process, with no frames.
use csci4730_operating_syste.Base.{
  ℕ, pos, ◌/◌, Bool, true, false, List, [], ◌∷◌, ltb, leb, if◌then◌else◌,
}
use csci4730_operating_syste.Vm.Tables.{update_page}
use csci4730_operating_syste.Vm.Requests.{
  Request, Report, invalid_input, invalid_pid, invalid_vpn, accessed, Input, request,
}

-- A read or a write at a process number and an address that are not negative.
pub record Access : Type 0 where
  pub ret : ℕ
  pub pid : ℕ
  pub addr : ℕ
  pub write : Bool
  pub byte : ℕ

abbrev pub type_of : Bool → ℕ
type_of true = b'W'
type_of false = b'R'

abbrev pub to_request : Access → Request
to_request a = record {
  ret = a.ret;
  pid = pos a.pid;
  type = type_of a.write;
  addr = pos a.addr;
  byte = a.byte;
}

abbrev pub inputs : List Access → List Input
inputs [] = []
inputs (a ∷ rest) = request (to_request a) ∷ inputs rest

-- A report without the physical address and the hit.
pub data Seen : Type 0 where
  refused : Report → Seen
  value : (type pid addr byte : ℕ) → Seen

unfoldable pub observe : Report → Seen
observe (accessed type pid addr physical byte hit) = value type pid addr byte
observe other = refused other

unfoldable pub observe_all : List Report → List Seen
unfolding observe
observe_all [] = []
observe_all (r ∷ rs) = observe r ∷ observe_all rs

-- The byte of each page of each process.
abbrev pub Memory : Type 0
Memory = ℕ → ℕ → ℕ

module _ (max_pid max_vpn : ℕ) where
  unfoldable pub ideal : Access → Memory → Seen × Memory
  ideal a m =
      if ltb a.ret (if a.write then 4 else 3)
      then (refused invalid_input, m)
      else if leb max_pid a.pid
      then (refused invalid_pid, m)
      else if leb max_vpn (a.addr / 256)
      then (refused invalid_vpn, m)
      else if a.write
      then (value b'W' a.pid a.addr a.byte, update_page m a.pid (a.addr / 256) a.byte)
      else (value b'R' a.pid a.addr (m a.pid (a.addr / 256)), m)

  unfoldable pub ideal_run : List Access → Memory → List Seen
  unfolding ideal
  ideal_run [] m = []
  ideal_run (a ∷ rest) m = (ideal a m).0 ∷ ideal_run rest (ideal a m).1
