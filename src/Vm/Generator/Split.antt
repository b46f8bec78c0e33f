-- ===== src/Vm/Generator/Split.antt =====
-- `fgets` gives the lines of p3/input_gen.c one by one.
use csci4730_operating_syste.Base.{
  ℕ, zero, suc, ◌+◌, ◌/◌, ◌%◌, ◌<◌, ◌≤◌, ◌≡◌, refl, Bool, true, false, List, [], ◌∷◌, ◌++◌, arith,
  ◌==◌, if◌then◌else◌, ◌∙◌, ap, sym, length, drop, map, All, All-append, length-append, Bool-cases,
  inl, inr,
}
use mathlib.Core.List.{append_assoc}
use csci4730_operating_syste.Stdio.{Text, ten, digit_char, decimal, fgets, read_lines, is_space}
use csci4730_operating_syste.Stdio.Hex.{four, hex_4-four}
use csci4730_operating_syste.Vm.Generator.{Line, print_line, print_lines}
use csci4730_operating_syste.Stdio.Lines.{
  NoEnd, OneLine, fgets-line, drop-length, digits-OneLine, decimal_short,
}

read_lines_step :
    (f : ℕ) (s : Text)
    → 0 < length s
    → read_lines (suc f) 255 s ≡ fgets 255 s ∷ read_lines f 255 (drop (length (fgets 255 s)) s)
unfolding read_lines
read_lines_step f [] lt = elim lt [ ]
read_lines_step f (c ∷ s) lt = refl

-- One line and what follows it.
first_line :
    (f : ℕ) (body line rest : Text) (others : List Text)
    → line ≡ body ++ b'\n' ∷ []
    → OneLine body
    → length body < 255
    → ((g : ℕ) → length rest ≤ g → read_lines g 255 rest ≡ others)
    → length (line ++ rest) ≤ f
    → read_lines f 255 (line ++ rest) ≡ line ∷ others
first_line zero body line rest others e one short later le =
    absurd
      (omega (arith, le, ap length e, length-append line rest, length-append body (b'\n' ∷ [])))
first_line (suc f) body line rest others e one short later le =
    let long : length line ≡ length body + 1 = ap length e ∙ length-append body (b'\n' ∷ []) in
    let whole : line ++ rest ≡ body ++ b'\n' ∷ rest =
      ap (λ l. l ++ rest) e ∙ append_assoc body (b'\n' ∷ []) rest in
    let got : fgets 255 (line ++ rest) ≡ line =
      ap (fgets 255) whole ∙ fgets-line 255 body rest one short ∙ sym e in
    let left : drop (length (fgets 255 (line ++ rest))) (line ++ rest) ≡ rest =
      ap (λ l. drop (length l) (line ++ rest)) got ∙ drop-length line rest in
    read_lines_step f (line ++ rest) (omega (arith, long, length-append line rest))
    ∙ ap (λ l. l ∷ read_lines f 255 (drop (length (fgets 255 (line ++ rest))) (line ++ rest))) got
    ∙ ap (λ t. line ∷ read_lines f 255 t) left
    ∙ ap (λ ls. line ∷ ls) (later f (omega (arith, le, long, length-append line rest)))

-- A line of the generator, without its end.
abbrev pub line_body : Line → Text
line_body line =
    decimal line.pid
    ++ b' '
      ∷ (if line.write then b'W' else b'R')
      ∷ b' '
      ∷ b'0'
      ∷ b'x'
      ∷ (four line.addr ++ (if line.write then b' ' ∷ line.byte ∷ [] else []))

-- What the simulator can read and serve.
pub record IsValid (max_vpn num_proc : ℕ) (line : Line) : Type 0 where
  pub in_process : line.pid < num_proc
  pub page : line.addr / 256 < max_vpn
  pub visible : is_space line.byte ≡ false

module _ (max_vpn num_proc : ℕ) (pages : max_vpn ≤ 256) (processes : num_proc ≤ 256) where
  pub print_line-line_body :
      (line : Line) → IsValid max_vpn num_proc line → print_line line ≡ line_body line ++ b'\n' ∷ []
  unfolding print_line
  print_line-line_body line valid =
      let rest = if line.write then b' ' ∷ line.byte ∷ [] else [] in
      let t = if line.write then b'W' else b'R' in
      ap (λ h. decimal line.pid ++ b' ' ∷ t ∷ b' ' ∷ b'0' ∷ b'x' ∷ (h ++ rest ++ b'\n' ∷ []))
        (hex_4-four line.addr (omega (arith, valid.page)))
      ∙ sym (
          append_assoc (decimal line.pid) (b' ' ∷ t ∷ b' ' ∷ b'0' ∷ b'x' ∷ (four line.addr ++ rest))
            (b'\n' ∷ []))

  digit_char-NoEnd : (v : ℕ) → NoEnd (digit_char v)
  digit_char-NoEnd v = ground arith

  type_char : (write : Bool) → NoEnd (if write then b'W' else b'R')
  type_char true = refl
  type_char false = refl

  behind_address :
      (write : Bool) (byte : ℕ)
      → (byte == b'\n') ≡ false
      → OneLine (if write then b' ' ∷ byte ∷ [] else [])
  behind_address true byte e = (refl, (e, tt))
  behind_address false byte e = tt

  behind-OneLine :
      (line : Line)
      → IsValid max_vpn num_proc line
      → OneLine (
          b' '
          ∷ (if line.write then b'W' else b'R')
          ∷ b' '
          ∷ b'0'
          ∷ b'x'
          ∷ (four line.addr ++ (if line.write then b' ' ∷ line.byte ∷ [] else [])))
  behind-OneLine line valid =
      let d = digit_char-NoEnd in
      let a = line.addr in
      let byte : (line.byte == b'\n') ≡ false = ground (arith, valid.visible) in
      let end : OneLine (if line.write then b' ' ∷ line.byte ∷ [] else []) =
        behind_address line.write line.byte byte in
      let digits_end : OneLine (four a ++ (if line.write then b' ' ∷ line.byte ∷ [] else [])) =
        (d (a / 4096), (d (a / 256 % 16), (d (a / 16 % 16), (d (a % 16), end)))) in
      (refl, (type_char line.write, (refl, (refl, (refl, digits_end)))))

  line_body-OneLine : (line : Line) → IsValid max_vpn num_proc line → OneLine (line_body line)
  unfolding decimal
  line_body-OneLine line valid =
      All-append NoEnd (decimal line.pid) _ (digits-OneLine ten (line.pid + 1) line.pid)
        (behind-OneLine line valid)

  line_body_short : (line : Line) → IsValid max_vpn num_proc line → length (line_body line) < 255
  line_body_short line valid =
      let short = decimal_short line.pid (omega (arith, valid.in_process)) in
      elim (Bool-cases line.write) [
        | inl w ↦ rw w (omega (arith, short, length-append (decimal line.pid) _))
        | inr w ↦ rw w (omega (arith, short, length-append (decimal line.pid) _))
      ]

  -- Behind the end of each line the next one begins.
  pub read_lines-print_lines :
      (f : ℕ) (lines : List Line)
      → All (IsValid max_vpn num_proc) lines
      → length (print_lines lines) ≤ f
      → read_lines f 255 (print_lines lines) ≡ map print_line lines
  unfolding read_lines print_lines
  read_lines-print_lines zero [] valid le = refl
  read_lines-print_lines (suc f) [] valid le = refl
  read_lines-print_lines f (line ∷ rest) valid le =
      let e = print_line-line_body line valid.0 in
      first_line f (line_body line) (print_line line) (print_lines rest) (map print_line rest) e
        (line_body-OneLine line valid.0) (line_body_short line valid.0)
        (λ g le'. read_lines-print_lines g rest valid.1 le') le
