-- ===== src/Vm/Generator/Lines.antt =====
-- p3/vm.c reads each line that p3/input_gen.c prints as the request that was meant.
use csci4730_operating_syste.Base.{
  ℕ, ◌<◌, ◌≡◌, refl, Bool, true, false, some, [], ◌∷◌, ◌++◌, if◌then◌else◌, ◌∙◌, ap, pos, arith,
}
use mathlib.Core.List.{append_assoc}
use csci4730_operating_syste.Stdio.{
  Text, ten, sixteen, decimal, hex_4, digit_value, skip_space, scan_int, scan_bytes, is_space,
}
use csci4730_operating_syste.Stdio.Numbers.{scan_int-decimal}
use csci4730_operating_syste.Stdio.Hex.{scan_int-hex_4}
use csci4730_operating_syste.Vm.Generator.{Line, print_line}
use csci4730_operating_syste.Vm.Requests.Reading.{
  as_int-small, Variables, with_addr, with_pid, scan_request,
}
use csci4730_operating_syste.Vm.Requests.Spec.{Access, to_request}

-- The access that a line stands for, when `byte` has held `byte` before.
abbrev pub access_of : ℕ → Line → Access
access_of byte line = record {
  ret = if line.write then 4 else 3;
  pid = line.pid;
  addr = line.addr;
  write = line.write;
  byte = if line.write then line.byte else byte;
}

-- The part of a line behind the address.
abbrev tail : Bool → ℕ → Text
tail true byte = b' ' ∷ byte ∷ b'\n' ∷ []
tail false byte = b'\n' ∷ []

module _ (v : Variables) (pid addr byte : ℕ) (small : addr < 0x10000)
    (visible : is_space byte ≡ false) where
  scan_addr :
      (write : Bool)
      → scan_int sixteen (hex_4 addr ++ tail write byte) ≡ some (pos addr, tail write byte)
  unfolding digit_value
  scan_addr true = scan_int-hex_4 addr (tail true byte) small refl
  scan_addr false = scan_int-hex_4 addr (tail false byte) small refl

  scan_rest :
      (write : Bool)
      → with_addr v (pos pid) (if write then b'W' else b'R') (some (pos addr, tail write byte))
        ≡ to_request
            (access_of v.byte (record { pid = pid; write = write; addr = addr; byte = byte }))
  unfolding skip_space
  scan_rest true = rw (as_int-small addr (omega (arith, small)), visible) refl
  scan_rest false = rw (as_int-small addr (omega (arith, small))) refl

  -- The text behind the process number.
  abbrev behind : Bool → Text
  behind write =
      b' ' ∷ (if write then b'W' else b'R') ∷ b' ' ∷ b'0' ∷ b'x' ∷ (hex_4 addr ++ tail write byte)

  scan_behind :
      (write : Bool)
      → with_pid v (some (pos pid, behind write))
        ≡ with_addr v
            (pos pid)
            (if write then b'W' else b'R')
            (scan_int sixteen (hex_4 addr ++ tail write byte))
  unfolding skip_space scan_bytes
  scan_behind true = refl
  scan_behind false = refl

  scan_pid :
      (write : Bool) → scan_int ten (decimal pid ++ behind write) ≡ some (pos pid, behind write)
  unfolding digit_value
  scan_pid write = scan_int-decimal pid (behind write) refl

  print_line-behind :
      (write : Bool)
      → print_line (record { pid = pid; write = write; addr = addr; byte = byte })
        ≡ decimal pid ++ behind write
  unfolding print_line
  print_line-behind true =
      ap (λ t. decimal pid ++ b' ' ∷ b'W' ∷ b' ' ∷ b'0' ∷ b'x' ∷ t)
        (append_assoc (hex_4 addr) (b' ' ∷ byte ∷ []) (b'\n' ∷ []))
  print_line-behind false =
      ap (λ t. decimal pid ++ b' ' ∷ b'R' ∷ b' ' ∷ b'0' ∷ b'x' ∷ t)
        (append_assoc (hex_4 addr) [] (b'\n' ∷ []))

  pub scan_request-print_line :
      (write : Bool)
      → scan_request v (print_line (record { pid = pid; write = write; addr = addr; byte = byte }))
        ≡ to_request
            (access_of v.byte (record { pid = pid; write = write; addr = addr; byte = byte }))
  unfolding scan_request
  scan_request-print_line write =
      ap (λ s. with_pid v (scan_int ten s)) (print_line-behind write)
      ∙ ap (with_pid v) (scan_pid write)
      ∙ scan_behind write
      ∙ ap (with_addr v (pos pid) (if write then b'W' else b'R')) (scan_addr write)
      ∙ scan_rest write
