-- ===== src/Stdio/Lines.antt =====
-- A line that `fgets` reads whole, and numbers as parts of a line.
use csci4730_operating_syste.Base.{
  ℕ, zero, suc, ◌+◌, ◌/◌, ◌%◌, ◌<◌, ◌≤◌, ◌≡◌, refl, true, false, [], ◌∷◌, ◌++◌, arith, ltb, ◌==◌,
  ap, length, drop, All, All-append, Bool-cases, inl, inr,
}
use csci4730_operating_syste.Stdio.{Text, Radix, ten, base, digit_char, digits, decimal, fgets}
use csci4730_operating_syste.Stdio.Numbers.{fits, fits_enough, digits-fits, digits_most}

abbrev pub NoEnd : ℕ → Type 0
NoEnd c = (c == b'\n') ≡ false

-- No byte ends the line.
abbrev pub OneLine : Text → Type 0
OneLine s = All NoEnd s

pub fgets-line :
    (k : ℕ) (s rest : Text)
    → OneLine s
    → length s < k
    → fgets k (s ++ b'\n' ∷ rest) ≡ s ++ b'\n' ∷ []
unfolding fgets
fgets-line zero s rest one lt = elim lt [ ]
fgets-line (suc k) [] rest one lt = refl
fgets-line (suc k) (c ∷ s) rest one lt =
    rw one.0 (ap (λ t. c ∷ t) (fgets-line k s rest one.1 (omega arith)))

pub drop-length : (s rest : Text) → drop (length s) (s ++ rest) ≡ rest
drop-length [] rest = refl
drop-length (c ∷ s) rest = drop-length s rest

pub digits-OneLine : (r : Radix) (k n : ℕ) → OneLine (digits r k n)
unfolding digits
digits-OneLine r zero n = tt
digits-OneLine r (suc k) n =
    let last : (digit_char (n % base r) == b'\n') ≡ false = ground arith in
    elim (Bool-cases (ltb n (base r))) [
      | inl small ↦ rw small (last, tt)
      | inr large ↦ rw large (
          All-append NoEnd (digits r k (n / base r)) (digit_char (n % base r) ∷ [])
            (digits-OneLine r k (n / base r)) (last, tt))
    ]

-- A number below 1000 has three digits at most.
pub decimal_short : (n : ℕ) → n < 1000 → length (decimal n) ≤ 3
unfolding decimal
decimal_short n lt =
    let three : fits ten 3 n ≡ true = ground arith in
    rw (digits-fits ten (n + 1) 3 n (fits_enough ten (n + 1) n (omega arith)) three)
      (digits_most ten 3 n)
