-- ===== src/Stdio.antt =====
-- What the programs use of <stdio.h>: lines by `fgets`, and numbers by `printf` and `sscanf`.
pub mod Hex
pub mod Lines
pub mod Numbers
use csci4730_operating_syste.Base.{
  ℕ, zero, suc, ◌+◌, ◌-◌, ◌*◌, ◌/◌, ◌%◌, Bool, true, false, ◌&&◌, ◌||◌, Option, none, some, List,
  [], ◌∷◌, ◌++◌, ltb, leb, ◌==◌, if◌then◌else◌, length, replicate, drop, ℤ, pos, negsuc, codes,
}

abbrev pub Text : Type 0
Text = List ℕ

-- What `fgets` reads into a buffer that has room for `k` bytes and the zero.
unfoldable pub fgets : ℕ → Text → Text
fgets zero s = []
fgets (suc k) [] = []
fgets (suc k) (c ∷ s) = let rest = fgets k s in if c == b'\n' then c ∷ [] else c ∷ rest

-- What calls of `fgets` read until the end of the file, `f` of them at most.
unfoldable pub read_lines : ℕ → ℕ → Text → List Text
unfolding fgets
read_lines zero k s = []
read_lines (suc f) k [] = []
read_lines (suc f) k (c ∷ s) =
    let line = fgets k (c ∷ s) in line ∷ read_lines f k (drop (length line) (c ∷ s))

pub data Radix : Type 0 where
  ten sixteen : Radix

abbrev pub base : Radix → ℕ
base ten = 10
base sixteen = 16

abbrev pub digit_char : ℕ → ℕ
digit_char v = if ltb v 10 then b'0' + v else b'a' + (v - 10)

-- The digits of a number, `k` of them at most.
unfoldable pub digits : Radix → ℕ → ℕ → Text
digits r zero n = []
digits r (suc k) n =
    let rest = digits r k (n / base r) in
    (if ltb n (base r) then [] else rest) ++ digit_char (n % base r) ∷ []

-- `%d` and `%x` of a number that is not negative; it has no more digits than `n + 1`.
unfoldable pub decimal : ℕ → Text
unfolding digits
decimal n = digits ten (n + 1) n

-- `%04x`
unfoldable pub hex_4 : ℕ → Text
unfolding digits
hex_4 n = let s = digits sixteen (n + 1) n in replicate (4 - length s) b'0' ++ s

abbrev pub is_space : ℕ → Bool
is_space c = c == b' ' || (leb 9 c && leb c 13)

-- White space in a format.
unfoldable pub skip_space : Text → Text
skip_space [] = []
skip_space (c ∷ s) = let rest = skip_space s in if is_space c then rest else c ∷ s

abbrev pub below : ℕ → ℕ → Option ℕ
below r v = if ltb v r then some v else none

unfoldable pub digit_value : Radix → ℕ → Option ℕ
digit_value r c =
    if leb b'0' c && leb c b'9'
    then below (base r) (c - b'0')
    else if leb b'a' c && leb c b'z'
    then below (base r) (c - b'a' + 10)
    else if leb b'A' c && leb c b'Z'
    then below (base r) (c - b'A' + 10)
    else none

-- The number that the digits at the head of a text give behind `n`, and what follows.
unfoldable pub read_digits : Radix → ℕ → Text → ℕ × Text
unfolding digit_value
read_digits r n [] = (n, [])
read_digits r n (c ∷ s) = elim (digit_value r c) [
  | none ↦ (n, c ∷ s)
  | some v ↦ read_digits r (n * base r + v) s
]

-- A number starts with a digit.
unfoldable pub read_number : Radix → Text → Option (ℕ × Text)
unfolding read_digits
read_number r [] = none
read_number r (c ∷ s) = elim (digit_value r c) [ none ↦ none | some v ↦ some (read_digits r v s) ]

-- The bytes of a format.
unfoldable pub scan_bytes : Text → Text → Option Text
scan_bytes [] s = some s
scan_bytes (c ∷ format) [] = none
scan_bytes (c ∷ format) (d ∷ s) = let rest = scan_bytes format s in if c == d then rest else none

abbrev pub or_whole : Option Text → Text → Text
or_whole none s = s
or_whole (some s') s = s'

-- `%x` takes a prefix "0x" or "0X" of its own.
abbrev pub after_prefix : Radix → Text → Text
after_prefix ten s = s
after_prefix sixteen s =
    or_whole (scan_bytes (codes "0X") s) (or_whole (scan_bytes (codes "0x") s) s)

abbrev pub signed : Bool → Option (ℕ × Text) → Option (ℤ × Text)
signed minus none = none
signed false (some (n, s)) = some (pos n, s)
signed true (some (zero, s)) = some (pos 0, s)
signed true (some (suc n, s)) = some (negsuc n, s)

abbrev pub scan_sign : Radix → Text → Option (ℤ × Text)
scan_sign r [] = none
scan_sign r (c ∷ s) =
    if c == b'-'
    then signed true (read_number r (after_prefix r s))
    else if c == b'+'
    then signed false (read_number r (after_prefix r s))
    else signed false (read_number r (after_prefix r (c ∷ s)))

-- `%d` and `%x` of `sscanf`: the number, and what follows it. A number that an `int` cannot hold is
-- undefined there.
unfoldable pub scan_int : Radix → Text → Option (ℤ × Text)
unfolding read_number skip_space scan_bytes
scan_int r s = scan_sign r (skip_space s)
