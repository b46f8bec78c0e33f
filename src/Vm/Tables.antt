-- ===== src/Vm/Tables.antt =====
-- p3/pt_core.c and p3/disk.c: the page tables, the inverted page table, the free frames, the
-- physical memory and the swap disk. A page and a frame hold one byte each, as in the source.
use csci4730_operating_syste.Base.{
  ℕ, ◌+◌, Bool, false, ◌&&◌, Option, none, some, [], ltb, leb, ◌==◌, if◌then◌else◌,
}
use csci4730_operating_syste.Vm.Replacement.{Policy, Queues}

pub record Pte : Type 0 where
  pub pfn : ℕ
  pub valid : Bool
  pub dirty : Bool

pub record Ipte : Type 0 where
  pub pid : ℕ
  pub vpn : ℕ

pub record Stats : Type 0 where
  pub hit_count : ℕ
  pub miss_count : ℕ
  pub swap_read : ℕ
  pub swap_write : ℕ

-- The globals of the simulator. The arrays are functions, and the operations check the bounds.
pub record Vm : Type 0 where
  pub max_pfn : ℕ
  pub max_vpn : ℕ
  pub max_pid : ℕ
  pub policy : Policy
  pub page_table : ℕ → ℕ → Pte
  pub inverted : ℕ → Ipte
  pub next_free : ℕ
  pub memory : ℕ → ℕ
  pub swap_disk : ℕ → ℕ → ℕ
  pub queues : Queues
  pub stats : Stats

-- A step on the state; `none` is a fault, such as an access outside an array.
abbrev pub M : Type 0 → Type 0
M A = Vm → Option (A × Vm)

abbrev pub pure : {A : Type 0} → A → M A
pure a s = some (a, s)

abbrev pub and_then : {A B : Type 0} → Option (A × Vm) → (A → M B) → Option (B × Vm)
and_then none k = none
and_then (some (a, s)) k = k a s

infixl 5 ◌>>=◌ ◌>>◌
abbrev pub ◌>>=◌ : {A B : Type 0} → M A → (A → M B) → M B
m >>= k = λ s. and_then (m s) k

abbrev pub ◌>>◌ : {A B : Type 0} → M A → M B → M B
m >> k = m >>= λ _. k

abbrev pub is_page : Vm → ℕ → ℕ → Bool
is_page s pid vpn = ltb pid s.max_pid && ltb vpn s.max_vpn

abbrev pub update {ℓ} : {A : Type ℓ} → (ℕ → A) → ℕ → A → ℕ → A
update f i a j = if j == i then a else f j

abbrev pub update_page {ℓ} : {A : Type ℓ} → (ℕ → ℕ → A) → ℕ → ℕ → A → ℕ → ℕ → A
update_page f p v a p' v' = if p' == p && v' == v then a else f p' v'

unfoldable pub read_pte : ℕ → ℕ → M Pte
read_pte pid vpn s = if is_page s pid vpn then some (s.page_table pid vpn, s) else none

unfoldable pub write_pte : ℕ → ℕ → Pte → M (Unit {0})
write_pte pid vpn e s =
    if is_page s pid vpn
    then some (tt, record s { page_table = update_page s.page_table pid vpn e })
    else none

unfoldable pub read_ipte : ℕ → M Ipte
read_ipte pfn s = if ltb pfn s.max_pfn then some (s.inverted pfn, s) else none

unfoldable pub write_ipte : ℕ → Ipte → M (Unit {0})
write_ipte pfn e s =
    if ltb pfn s.max_pfn then some (tt, record s { inverted = update s.inverted pfn e }) else none

-- The first frame that was never used; -1 is `none`.
unfoldable pub get_freeframe : M (Option ℕ)
get_freeframe s =
    if leb s.max_pfn s.next_free
    then some (none, s)
    else some (some s.next_free, record s { next_free = s.next_free + 1 })

unfoldable pub swap_in : ℕ → ℕ → ℕ → M (Unit {0})
swap_in pid vpn pfn s =
    if is_page s pid vpn && ltb pfn s.max_pfn
    then some (
      tt,
      record s {
        stats = record s.stats { swap_read = s.stats.swap_read + 1 };
        memory = update s.memory pfn (s.swap_disk pid vpn);
      },
    )
    else none

unfoldable pub swap_out : ℕ → ℕ → ℕ → M (Unit {0})
swap_out pid vpn pfn s =
    if is_page s pid vpn && ltb pfn s.max_pfn
    then some (
      tt,
      record s {
        stats = record s.stats { swap_write = s.stats.swap_write + 1 };
        swap_disk = update_page s.swap_disk pid vpn (s.memory pfn);
      },
    )
    else none

-- `init_swap_disk`: every page of the disk holds 'A'.
unfoldable pub blank_swap : ℕ → ℕ → ℕ
blank_swap pid vpn = b'A'

-- What `malloc` leaves in the two tables and in the physical memory is `junk_pte`, `junk_ipte` and
-- `junk_byte`. `init_pagetable` clears the valid bits.
unfoldable pub init :
    (max_pfn max_vpn max_pid : ℕ) → Policy → (ℕ → ℕ → Pte) → (ℕ → Ipte) → (ℕ → ℕ) → Vm
init max_pfn max_vpn max_pid policy junk_pte junk_ipte junk_byte = record {
  max_pfn = max_pfn;
  max_vpn = max_vpn;
  max_pid = max_pid;
  policy = policy;
  page_table = λ pid vpn.
      if ltb pid max_pid && ltb vpn max_vpn
      then record (junk_pte pid vpn) { valid = false }
      else junk_pte pid vpn;
  inverted = junk_ipte;
  next_free = 0;
  memory = junk_byte;
  swap_disk = blank_swap;
  queues = record { turns = 0; head = []; clock_head = [] };
  stats = record { hit_count = 0; miss_count = 0; swap_read = 0; swap_write = 0 };
}
