-- ===== src/Vm/Generator/Valid.antt =====
-- The requests of p3/input_gen.c lie within the bounds of p3/vm.c, and are read as they were meant.
use csci4730_operating_syste.Base.{
  ℕ, zero, suc, ◌+◌, ◌*◌, ◌/◌, ◌%◌, ◌<◌, ◌≤◌, ◌≡◌, refl, false, List, [], ◌∷◌, ◌++◌, arith, ltb,
  leb, ◌==◌, if◌then◌else◌, ◌∙◌, ap, map, All, Bool-cases, inl, inr,
}
use native.Mathlib.Nat.{mod-lt}
use csci4730_operating_syste.Stdio.{Text, ten, decimal, is_space}
use csci4730_operating_syste.Stdio.Numbers.{fits_enough, digits_head}
use csci4730_operating_syste.Vm.Tables.{update_page}
use csci4730_operating_syste.Vm.Generator.{Rand, Line, letter, make_line, make_lines, print_line}
use csci4730_operating_syste.Vm.Generator.Lines.{access_of, scan_request-print_line}
use csci4730_operating_syste.Vm.Generator.Split.{IsValid}
use csci4730_operating_syste.Vm.Requests.{request}
use csci4730_operating_syste.Vm.Requests.Reading.{
  Variables, variables_of, is_comment, scan_request, read_inputs,
}
use csci4730_operating_syste.Vm.Requests.Spec.{
  Access, to_request, inputs, Seen, value, Memory, ideal, ideal_run,
}

letter_visible : (rand : Rand) (k : ℕ) → is_space (letter rand k) ≡ false
unfolding letter
letter_visible rand k = elim (Bool-cases (rand k % 2 == 0)) [
  | inl e ↦ rw e (ground arith)
  | inr e ↦ rw e (ground arith)
]

in_page : (p q r : ℕ) → q < p → r < 255 → (q * 256 + r) / 256 < p
in_page p q r lt lt' = omega arith

make_line-IsValid :
    (max_vpn num_proc : ℕ) (rand : Rand) (k : ℕ)
    → 0 < max_vpn
    → 0 < num_proc
    → IsValid max_vpn num_proc (make_line max_vpn num_proc rand k).0
unfolding make_line
make_line-IsValid max_vpn num_proc rand k pages processes =
    let process = mod-lt (rand k) processes in
    let page =
      in_page max_vpn (rand (k + 1) % max_vpn) (rand (k + 2) % 0xff) (mod-lt (rand (k + 1)) pages)
        (omega arith) in
    elim (Bool-cases (ltb (rand (k + 3) % 10) 5)) [
      | inl e ↦ rw e (record { in_process = process; page = page; visible = refl })
      | inr e ↦
          rw e (record { in_process = process; page = page; visible = letter_visible rand (k + 4) })
    ]

pub make_lines-IsValid :
    (max_vpn num_proc : ℕ) (rand : Rand) (n k : ℕ)
    → 0 < max_vpn
    → 0 < num_proc
    → All (IsValid max_vpn num_proc) (make_lines max_vpn num_proc rand n k)
unfolding make_lines
make_lines-IsValid max_vpn num_proc rand zero k pages processes = tt
make_lines-IsValid max_vpn num_proc rand (suc n) k pages processes = (
  make_line-IsValid max_vpn num_proc rand k pages processes,
  make_lines-IsValid max_vpn num_proc rand n (make_line max_vpn num_proc rand k).1 pages processes,
)

decimal-no_comment : (n : ℕ) (s : Text) → is_comment (decimal n ++ s) ≡ false
unfolding decimal
decimal-no_comment n s =
    let e = fits_enough ten (n + 1) n (omega arith) in
    let (v, lt, t, e') = digits_head ten (n + 1) n s e in rw e' (ground (arith, lt))

-- A line starts with a digit.
print_line-no_comment : (line : Line) → is_comment (print_line line) ≡ false
unfolding print_line
print_line-no_comment line = decimal-no_comment line.pid _

abbrev pub accesses : ℕ → List Line → List Access
accesses byte [] = []
accesses byte (line ∷ rest) = access_of byte line ∷ accesses (access_of byte line).byte rest

-- What a line shows, and the memory behind it.
abbrev pub seen_of : Line → Memory → Seen
seen_of line m =
    if line.write
    then value b'W' line.pid line.addr line.byte
    else value b'R' line.pid line.addr (m line.pid (line.addr / 256))

abbrev pub memory_of : Line → Memory → Memory
memory_of line m = if line.write then update_page m line.pid (line.addr / 256) line.byte else m

-- The accesses one after the other, from a memory on: a write stores its byte, and a read returns
-- what was written last.
unfoldable pub replay : List Line → Memory → List Seen
replay [] m = []
replay (line ∷ rest) m = seen_of line m ∷ replay rest (memory_of line m)

module _ (max_vpn num_proc : ℕ) (pages : max_vpn ≤ 256) where
  pub read_inputs-print_line :
      (v : Variables) (lines : List Line)
      → All (IsValid max_vpn num_proc) lines
      → read_inputs v (map print_line lines) ≡ inputs (accesses v.byte lines)
  unfolding read_inputs
  read_inputs-print_line v [] valid = refl
  read_inputs-print_line v (line ∷ rest) valid =
      let a = to_request (access_of v.byte line) in
      let scanned : scan_request v (print_line line) ≡ a =
        scan_request-print_line v line.pid line.addr line.byte (omega (arith, valid.0.page))
          valid.0.visible line.write in
      rw (print_line-no_comment line, scanned)
        (ap (λ xs. request a ∷ xs) (read_inputs-print_line (variables_of a) rest valid.1))

  ideal-valid :
      (byte : ℕ) (line : Line) (m : Memory)
      → IsValid max_vpn num_proc line
      → ideal num_proc max_vpn (access_of byte line) m ≡ (seen_of line m, memory_of line m)
  unfolding ideal
  ideal-valid byte line m valid =
      let process : leb num_proc line.pid ≡ false = ground (arith, valid.in_process) in
      let page : leb max_vpn (line.addr / 256) ≡ false = ground (arith, valid.page) in
      elim (Bool-cases line.write) [
        | inl w ↦ rw (w, process, page) refl
        | inr w ↦ rw (w, process, page) refl
      ]

  pub ideal_run-replay :
      (lines : List Line) (byte : ℕ) (m : Memory)
      → All (IsValid max_vpn num_proc) lines
      → ideal_run num_proc max_vpn (accesses byte lines) m ≡ replay lines m
  unfolding ideal_run replay
  ideal_run-replay [] byte m valid = refl
  ideal_run-replay (line ∷ rest) byte m valid =
      let next = accesses (access_of byte line).byte rest in
      ap (λ (r : Seen × Memory). r.0 ∷ ideal_run num_proc max_vpn next r.1)
        (ideal-valid byte line m valid.0)
      ∙ ap (λ xs. seen_of line m ∷ xs)
          (ideal_run-replay rest (access_of byte line).byte (memory_of line m) valid.1)
