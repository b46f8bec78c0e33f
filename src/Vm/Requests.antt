-- ===== src/Vm/Requests.antt =====
-- p3/vm.c: the physical memory and the request loop of `main`. What `fgets` and `sscanf` make of a
-- line of the input enters as an `Input`; what is printed for it is a `Report`.
pub mod Faults
pub mod Spec
pub mod Reading
pub mod Start
pub mod Transparency
use csci4730_operating_syste.Base.{
  ℕ, ℤ, pos, negsuc, ◌+◌, ◌*◌, ◌/◌, ◌%◌, Bool, true, false, ◌&&◌, ◌||◌, Option, none, some, List,
  [], ◌∷◌, ltb, leb, ◌==◌, if◌then◌else◌,
}
use csci4730_operating_syste.Vm.Tables.{Vm, M, pure, and_then, ◌>>=◌, ◌>>◌, update}
use csci4730_operating_syste.Vm.Mmu.{mmu}

-- The variables that `sscanf` fills, with the number `ret` of those that it has filled.
pub record Request : Type 0 where
  pub ret : ℕ
  pub pid : ℤ
  pub type : ℕ
  pub addr : ℤ
  pub byte : ℕ

pub data Input : Type 0 where
  comment : Input
  request : Request → Input

pub data Report : Type 0 where
  invalid_input : Report
  invalid_pid : Report
  invalid_vpn : Report
  invalid_physical_address : Report
  memory_failed : Report
  invalid_type : Report
  accessed : (type pid addr physical byte : ℕ) → (hit : Bool) → Report

-- `READ_PHYSICAL_MEM`; -1 is `none`.
unfoldable pub read_physical_mem : ℕ → Vm → Option ℕ
read_physical_mem addr s =
    let frame_no = addr / 256 in if leb s.max_pfn frame_no then none else some (s.memory frame_no)

-- `WRITE_PHYSICAL_MEM`; -1 is `none`.
unfoldable pub write_physical_mem : ℕ → ℕ → Vm → Option Vm
write_physical_mem addr byte s =
    let frame_no = addr / 256 in
    if leb s.max_pfn frame_no
    then none
    else some (record s { memory = update s.memory frame_no byte })

unfoldable pub reported : (type pid addr physical : ℕ) → Bool → Vm → Option ℕ → Report × Bool
reported type pid addr physical hit s none = (memory_failed, true)
reported type pid addr physical hit s (some byte) = (accessed type pid addr physical byte hit, true)

unfoldable pub stored :
    (type pid addr physical byte : ℕ) → Bool → Vm → Option Vm → (Report × Bool) × Vm
stored type pid addr physical byte hit s none = ((memory_failed, true), s)
stored type pid addr physical byte hit s (some s') =
    ((accessed type pid addr physical byte hit, true), s')

-- The part of the loop behind `MMU`. The flag says that the loop goes on.
unfoldable pub finish : (type pid addr byte offset : ℕ) → ℕ × Bool → M (Report × Bool)
finish type pid addr byte offset (pfn, hit) s =
    let physical = pfn * 256 + offset in
    if leb s.max_pfn pfn
    then some ((invalid_physical_address, false), s)
    else if type == b'R'
    then some (reported type pid addr physical hit s (read_physical_mem physical s), s)
    else if type == b'W'
    then some (stored type pid addr physical byte hit s (write_physical_mem physical byte s))
    else some ((invalid_type, false), s)

-- A process number and an address that are not negative: `addr >> 8` and the offset in the page.
unfoldable pub translate : (type pid addr byte : ℕ) → M (Report × Bool)
translate type pid addr byte s =
    let vpn = addr / 256 in
    let offset = addr % 256 in
    if (type == b'R' || type == b'W') && leb s.max_vpn vpn
    then some ((invalid_vpn, true), s)
    else and_then (mmu pid vpn type s) (finish type pid addr byte offset)

-- A negative number is below every bound, passes the tests, and is an index outside the tables.
unfoldable pub locate : (type : ℕ) → (pid addr : ℤ) → (byte : ℕ) → M (Report × Bool)
locate type (pos pid) (pos addr) byte s =
    if leb s.max_pid pid then some ((invalid_pid, true), s) else translate type pid addr byte s
locate type (pos pid) (negsuc addr) byte s =
    if leb s.max_pid pid then some ((invalid_pid, true), s) else none
locate type (negsuc pid) (pos addr) byte s =
    if (type == b'R' || type == b'W') && leb s.max_vpn (addr / 256)
    then some ((invalid_vpn, true), s)
    else none
locate type (negsuc pid) (negsuc addr) byte s = none

unfoldable pub serve : Request → M (Report × Bool)
serve r =
    if (r.type == b'R' && ltb r.ret 3) || (r.type == b'W' && ltb r.ret 4)
    then pure (invalid_input, true)
    else locate r.type r.pid r.addr r.byte

-- The loop of `main`, and the reports that it prints.
unfoldable pub run : List Input → M (List Report)
run [] = pure []
run (comment ∷ rest) = run rest
run (request r ∷ rest) = do
  (report, more) ← serve r
  reports ← (if more then run rest else pure [])
  pure (report ∷ reports)
