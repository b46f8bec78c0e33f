-- ===== src/Vm/Requests/Reading.antt =====
-- p3/vm.c: what `main` makes of the text of its input, by `fgets` and `sscanf`.
use csci4730_operating_syste.Base.{
  ◌%◌, ◌^◌, ◌-◌, ◌<◌, ◌≡◌, refl, true, arith, ltb, if◌then◌else◌, pos, negsuc, ℕ, ℤ, Bool, false,
  ◌||◌, Option, none, some, List, [], ◌∷◌, ◌==◌, codes, length, drop,
}
use csci4730_operating_syste.Stdio.{
  Text, ten, sixteen, fgets, read_lines, skip_space, scan_int, scan_bytes,
}
use csci4730_operating_syste.Vm.Tables.{Pte, Ipte, Vm}
use csci4730_operating_syste.Vm.Requests.{Request, Input, comment, request, Report, run}
use csci4730_operating_syste.Vm.Requests.Start.{start}

-- What the variables of `main` hold in front of a call of `sscanf`, which sets some of them. `byte`
-- of a read is not used again before it is set.
pub record Variables : Type 0 where
  pub pid : ℤ
  pub type : ℕ
  pub addr : ℤ
  pub byte : ℕ

-- The format "%d %c 0x%x %c" from its end: each part goes on if it has found what it asks for. A
-- result of -1 is counted as 0, since both are below 3.
abbrev pub with_byte : Variables → ℤ → ℕ → ℤ → Text → Request
with_byte v pid type addr [] = record {
  ret = 3;
  pid = pid;
  type = type;
  addr = addr;
  byte = v.byte;
}
with_byte v pid type addr (c ∷ s) = record {
  ret = 4;
  pid = pid;
  type = type;
  addr = addr;
  byte = c;
}

-- The `int` that `%x` stores: the number by its 32-bit pattern.
unfoldable pub as_int : ℤ → ℤ
as_int (pos n) = let m = n % 2 ^ 32 in if ltb m (2 ^ 31) then pos m else negsuc (2 ^ 32 - 1 - m)
as_int (negsuc n) = let m = n % 2 ^ 32 in if ltb m (2 ^ 31) then negsuc m else pos (2 ^ 32 - 1 - m)

pub as_int-small : (n : ℕ) → n < 2 ^ 31 → as_int (pos n) ≡ pos n
unfolding as_int
as_int-small n small =
    let same : n % 2 ^ 32 ≡ n = omega (arith, small) in
    let inside : ltb n (2 ^ 31) ≡ true = ground (arith, small) in rw (same, inside) refl

abbrev pub with_addr : Variables → ℤ → ℕ → Option (ℤ × Text) → Request
with_addr v pid type none = record { ret = 2; pid = pid; type = type; addr = v.addr; byte = v.byte }
with_addr v pid type (some (addr, s)) = with_byte v pid type (as_int addr) (skip_space s)

abbrev pub with_prefix : Variables → ℤ → ℕ → Option Text → Request
with_prefix v pid type none = record {
  ret = 2;
  pid = pid;
  type = type;
  addr = v.addr;
  byte = v.byte;
}
with_prefix v pid type (some s) = with_addr v pid type (scan_int sixteen s)

abbrev pub with_type : Variables → ℤ → Text → Request
with_type v pid [] = record { ret = 1; pid = pid; type = v.type; addr = v.addr; byte = v.byte }
with_type v pid (c ∷ s) = with_prefix v pid c (scan_bytes (codes "0x") (skip_space s))

abbrev pub with_pid : Variables → Option (ℤ × Text) → Request
with_pid v none = record { ret = 0; pid = v.pid; type = v.type; addr = v.addr; byte = v.byte }
with_pid v (some (pid, s)) = with_type v pid (skip_space s)

unfoldable pub scan_request : Variables → Text → Request
scan_request v s = with_pid v (scan_int ten s)

abbrev pub variables_of : Request → Variables
variables_of r = record { pid = r.pid; type = r.type; addr = r.addr; byte = r.byte }

abbrev pub is_comment : Text → Bool
is_comment [] = false
is_comment (c ∷ s) = c == b'#' || c == b'%'

unfoldable pub read_inputs : Variables → List Text → List Input
unfolding scan_request
read_inputs v [] = []
read_inputs v (line ∷ rest) =
    let r = scan_request v line in
    let others = read_inputs v rest in
    let later = read_inputs (variables_of r) rest in
    if is_comment line then comment ∷ others else request r ∷ later

-- A value is put behind the next, unless the scan has failed.
abbrev pub then_scan : {A B : Type 0} → Option A → (A → Option B) → Option B
then_scan none k = none
then_scan (some a) k = k a

-- "# PAGES: %d, # PROCS: %d"; where it fails, one of the two numbers is still 0.
unfoldable pub scan_header : Text → Option (ℤ × ℤ)
scan_header s = then_scan (scan_bytes (codes "#") s) λ s₁.
    then_scan (scan_bytes (codes "PAGES:") (skip_space s₁)) λ s₂. then_scan (scan_int ten s₂) λ r.
      then_scan (scan_bytes (codes ",") r.1) λ s₃.
        then_scan (scan_bytes (codes "#") (skip_space s₃)) λ s₄.
          then_scan (scan_bytes (codes "PROCS:") (skip_space s₄))
            λ s₅. then_scan (scan_int ten s₅) λ q. some (r.0, q.0)

-- How `main` ends: before the first request, in an access outside an array, or with reports.
pub data Ending : Type 0 where
  returned : Ending
  crashed : Ending
  served : List Report → Vm → Ending

abbrev pub ending : Option (List Report × Vm) → Ending
ending none = crashed
ending (some (reports, s)) = served reports s

module _ (max_pfn number : ℕ) (junk_pte : ℕ → ℕ → Pte) (junk_ipte : ℕ → Ipte) (junk_byte : ℕ → ℕ)
    (v : Variables) where
  abbrev pub serve_from : Text → Option Vm → Ending
  serve_from text none = returned
  serve_from text (some s) = ending (run (read_inputs v (read_lines (length text) 255 text)) s)

  -- A number that is negative or 0 is refused.
  abbrev pub with_sizes : Text → Option (ℤ × ℤ) → Ending
  with_sizes text (some (pos max_vpn, pos max_pid)) =
      serve_from text (start max_pfn max_vpn max_pid number junk_pte junk_ipte junk_byte)
  with_sizes text (some (pos max_vpn, negsuc n)) = returned
  with_sizes text (some (negsuc n, max_pid)) = returned
  with_sizes text none = returned

  -- `main` of p3/vm.c, from the text of a file that can be opened.
  unfoldable pub simulate : Text → Ending
  simulate [] = returned
  simulate (c ∷ text) =
      let header = fgets 255 (c ∷ text) in
      with_sizes (drop (length header) (c ∷ text)) (scan_header header)
