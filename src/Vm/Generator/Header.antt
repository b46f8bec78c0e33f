-- ===== src/Vm/Generator/Header.antt =====
-- The first line of an input of p3: p3/vm.c reads what p3/input_gen.c prints.
use csci4730_operating_syste.Base.{
  ℕ, ◌+◌, ◌<◌, ◌≤◌, ◌≡◌, refl, none, some, [], ◌∷◌, ◌++◌, arith, ◌∙◌, sym, ap, All-append, length,
  pos, codes, length-append,
}
use mathlib.Core.List.{append_assoc}
use csci4730_operating_syste.Stdio.{
  Text, ten, digit_value, decimal, skip_space, scan_int, scan_bytes,
}
use csci4730_operating_syste.Stdio.Numbers.{scan_int-decimal}
use csci4730_operating_syste.Vm.Generator.{print_header}
use csci4730_operating_syste.Stdio.Lines.{OneLine, NoEnd, digits-OneLine, decimal_short}
use csci4730_operating_syste.Vm.Requests.Reading.{scan_header}

-- The first line, without its end.
abbrev pub header_body : ℕ → ℕ → Text
header_body v p = codes "# PAGES: " ++ (decimal v ++ (codes ", # PROCS: " ++ decimal p))

decimal-OneLine : (n : ℕ) → OneLine (decimal n)
unfolding decimal
decimal-OneLine n = digits-OneLine ten (n + 1) n

pub header-OneLine : (v p : ℕ) → OneLine (header_body v p)
header-OneLine v p =
    All-append NoEnd (codes "# PAGES: ") _
      (refl, (refl, (refl, (refl, (refl, (refl, (refl, (refl, (refl, tt)))))))))
      (All-append NoEnd (decimal v) _ (decimal-OneLine v) (
        All-append NoEnd (codes ", # PROCS: ") _
          (refl, (refl, (refl, (refl, (refl, (refl, (refl, (refl, (refl, (refl, (refl, tt)))))))))))
          (decimal-OneLine p)))

pub header_short : (v p : ℕ) → v ≤ 256 → p ≤ 256 → length (header_body v p) < 255
header_short v p le le' =
    let a = decimal_short v (omega arith) in
    let b = decimal_short p (omega arith) in
    omega (arith, a, b, length-append (decimal v) (codes ", # PROCS: " ++ decimal p))

pub print_header-header_body : (v p : ℕ) → print_header v p ≡ header_body v p ++ b'\n' ∷ []
unfolding print_header
print_header-header_body v p =
    let end = b'\n' ∷ [] in
    ap (λ t. codes "# PAGES: " ++ t)
      (sym (append_assoc (decimal v) (codes ", # PROCS: " ++ decimal p) end))

scan_space : (s : Text) → scan_int ten (b' ' ∷ s) ≡ scan_int ten s
unfolding scan_int skip_space
scan_space s = refl

scan_number :
    (n c : ℕ) (s : Text)
    → digit_value ten c ≡ none
    → scan_int ten (b' ' ∷ (decimal n ++ c ∷ s)) ≡ some (pos n, c ∷ s)
scan_number n c s e = scan_space (decimal n ++ c ∷ s) ∙ scan_int-decimal n (c ∷ s) e

no_digits : (digit_value ten b',' ≡ none) × (digit_value ten b'\n' ≡ none)
unfolding digit_value
no_digits = (refl, refl)

pub scan_header-print_header : (v p : ℕ) → scan_header (print_header v p) ≡ some (pos v, pos p)
unfolding scan_header print_header skip_space scan_bytes
scan_header-print_header v p =
    let rest = codes " # PROCS: " ++ (decimal p ++ b'\n' ∷ []) in
    rw (scan_number v b',' rest no_digits.0, scan_number p b'\n' [] no_digits.1) refl
