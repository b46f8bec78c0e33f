-- ===== src/Vm/Generator.antt =====
-- p3/input_gen.c: the requests that it makes up, and the text that it prints.
pub mod Header
pub mod Lines
pub mod Served
pub mod Split
pub mod Valid
mod Tests
use csci4730_operating_syste.Base.{
  ℕ, zero, suc, ◌+◌, ◌*◌, ◌%◌, Bool, true, false, Option, none, some, List, [], ◌∷◌, ◌++◌, ltb,
  ◌==◌, if◌then◌else◌, codes,
}
use csci4730_operating_syste.Stdio.{Text, decimal, hex_4}

-- The results of the calls of `rand`, in order.
abbrev pub Rand : Type 0
Rand = ℕ → ℕ

-- One round of the loop; `byte` is printed for a write only.
pub record Line : Type 0 where
  pub pid : ℕ
  pub write : Bool
  pub addr : ℕ
  pub byte : ℕ

-- A letter; two calls of `rand`, from call `k` on.
unfoldable pub letter : Rand → ℕ → ℕ
letter rand k = if rand k % 2 == 0 then rand (k + 1) % 26 + 65 else rand (k + 1) % 26 + 97

-- A round from call `k` of `rand` on, and the next call. The operands of `%` are positive.
unfoldable pub make_line : (max_vpn num_proc : ℕ) → Rand → ℕ → Line × ℕ
unfolding letter
make_line max_vpn num_proc rand k =
    let addr = rand (k + 1) % max_vpn * 256 + rand (k + 2) % 0xff in
    if ltb (rand (k + 3) % 10) 5
    then (record { pid = rand k % num_proc; write = false; addr = addr; byte = 0 }, k + 4)
    else (
      record { pid = rand k % num_proc; write = true; addr = addr; byte = letter rand (k + 4) },
      k + 6,
    )

-- The loop, with `n` rounds left.
unfoldable pub make_lines : (max_vpn num_proc : ℕ) → Rand → (n k : ℕ) → List Line
unfolding make_line
make_lines max_vpn num_proc rand zero k = []
make_lines max_vpn num_proc rand (suc n) k =
    let (line, k') = make_line max_vpn num_proc rand k in
    line ∷ make_lines max_vpn num_proc rand n k'

-- "%d %c 0x%04x" and, for a write, " %c", in front of the end of the line.
unfoldable pub print_line : Line → Text
print_line line =
    decimal line.pid
    ++ b' '
      ∷ (if line.write then b'W' else b'R')
      ∷ b' '
      ∷ b'0'
      ∷ b'x'
      ∷ (hex_4 line.addr ++ (if line.write then b' ' ∷ line.byte ∷ [] else []) ++ b'\n' ∷ [])

unfoldable pub print_lines : List Line → Text
unfolding print_line
print_lines [] = []
print_lines (line ∷ rest) = print_line line ++ print_lines rest

-- "# PAGES: %d, # PROCS: %d\n"
unfoldable pub print_header : (max_vpn num_proc : ℕ) → Text
print_header max_vpn num_proc =
    codes "# PAGES: "
    ++ (decimal max_vpn ++ (codes ", # PROCS: " ++ (decimal num_proc ++ b'\n' ∷ [])))

-- `main` with its three numbers; `none` is a division by 0.
unfoldable pub generate : (max_vpn num_proc req_num : ℕ) → Rand → Option Text
unfolding make_lines print_lines print_header
generate max_vpn num_proc req_num rand =
    let text =
      print_header max_vpn num_proc ++ print_lines (make_lines max_vpn num_proc rand req_num 0) in
    if req_num == 0
    then some text
    else if max_vpn == 0
    then none
    else if num_proc == 0
    then none
    else some text
