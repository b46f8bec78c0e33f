-- ===== src/Stdio/Numbers.antt =====
-- Numbers that `printf` prints are read back by `sscanf`.
use csci4730_operating_syste.Base.{
  ℕ, zero, suc, ◌+◌, ◌*◌, ◌/◌, ◌%◌, ◌≤◌, ◌<◌, ◌≡◌, refl, Bool, true, false, ◌||◌, Option, none,
  some, [], ◌∷◌, ◌++◌, arith, ltb, ◌==◌, if◌then◌else◌, Bool-cases, inl, inr, ◌∙◌, sym, ap, length,
  pos, length-append,
}
use mathlib.Core.List.{append_assoc}
use csci4730_operating_syste.Stdio.{
  Text, Radix, ten, sixteen, base, digit_char, digits, decimal, digit_value, read_digits,
  read_number, scan_int, skip_space, is_space,
}

-- The value of the digit at the head of a text.
abbrev pub head_value : Radix → Text → Option ℕ
head_value r [] = none
head_value r (c ∷ s) = digit_value r c

pub digit_value-digit_char :
    (r : Radix) (v : ℕ) → v < base r → digit_value r (digit_char v) ≡ some v
unfolding digit_value
digit_value-digit_char ten v lt = ground arith
digit_value-digit_char sixteen v lt = ground arith

pub divided : (r : Radix) (n : ℕ) → (n / base r * base r + n % base r ≡ n) × (n % base r < base r)
divided ten n = (omega arith, omega arith)
divided sixteen n = (omega arith, omega arith)

-- `k` digits are enough.
abbrev pub fits : Radix → ℕ → ℕ → Bool
fits r zero n = false
fits r (suc k) n = ltb n (base r) || fits r k (n / base r)

pub fits_enough : (r : Radix) (k n : ℕ) → n < k → fits r k n ≡ true
fits_enough r zero n lt = elim lt [ ]
fits_enough ten (suc k) n lt = ground (arith, fits_enough ten k (n / 10))
fits_enough sixteen (suc k) n lt = ground (arith, fits_enough sixteen k (n / 16))

pub digits-fits :
    (r : Radix) (k m n : ℕ) → fits r k n ≡ true → fits r m n ≡ true → digits r k n ≡ digits r m n
unfolding digits
digits-fits r zero m n e e' = absurd (ground (arith, e))
digits-fits r (suc k) zero n e e' = absurd (ground (arith, e'))
digits-fits r (suc k) (suc m) n e e' = elim (Bool-cases (ltb n (base r))) [
  | inl small ↦ rw small refl
  | inr large ↦ rw (large, digits-fits r k m (n / base r) (rw large at e) (rw large at e')) refl
]

pub digits_most : (r : Radix) (k n : ℕ) → length (digits r k n) ≤ k
unfolding digits
digits_most r zero n = omega arith
digits_most r (suc k) n = elim (Bool-cases (ltb n (base r))) [
  | inl small ↦ rw small (omega arith)
  | inr large ↦ rw large (
      omega (
        arith,
        digits_most r k (n / base r),
        length-append (digits r k (n / base r)) (digit_char (n % base r) ∷ []),
      ))
]

-- The number behind the digits of `n`, when the number in front of them is `acc`.
abbrev shift : Radix → ℕ → ℕ → ℕ → ℕ
shift r zero acc n = acc
shift r (suc k) acc n =
    let rest = shift r k acc (n / base r) in
    (if ltb n (base r) then acc else rest) * base r + n % base r

pub read_digit :
    (r : Radix) (acc v : ℕ) (s : Text)
    → v < base r
    → read_digits r acc (digit_char v ∷ s) ≡ read_digits r (acc * base r + v) s
unfolding read_digits
read_digit r acc v s lt = rw (digit_value-digit_char r v lt, read_digits) refl

read_digits-shift :
    (r : Radix) (k acc n : ℕ) (s : Text)
    → read_digits r acc (digits r k n ++ s) ≡ read_digits r (shift r k acc n) s
unfolding digits
read_digits-shift r zero acc n s = refl
read_digits-shift r (suc k) acc n s =
    let d = digit_char (n % base r) in
    elim (Bool-cases (ltb n (base r))) [
      | inl small ↦ rw small (read_digit r acc (n % base r) s (divided r n).1)
      | inr large ↦
          rw (large, append_assoc (digits r k (n / base r)) (d ∷ []) s)
            (read_digits-shift r k acc (n / base r) (d ∷ s)
              ∙ read_digit r (shift r k acc (n / base r)) (n % base r) s (divided r n).1)
    ]

shift_zero : (r : Radix) (k n : ℕ) → fits r k n ≡ true → shift r k 0 n ≡ n
shift_zero r zero n e = absurd (ground (arith, e))
shift_zero ten (suc k) n e = ground (arith, shift_zero ten k (n / 10))
shift_zero sixteen (suc k) n e = ground (arith, shift_zero sixteen k (n / 16))

-- The digits of a number start with a digit.
pub digits_head :
    (r : Radix) (k n : ℕ) (s : Text)
    → fits r k n ≡ true
    → (v : ℕ) × (v < base r) × (t : Text) × (digits r k n ++ s ≡ digit_char v ∷ t)
unfolding digits
digits_head r zero n s e = absurd (ground (arith, e))
digits_head r (suc k) n s e =
    let d = digit_char (n % base r) in
    elim (Bool-cases (ltb n (base r))) [
      | inl small ↦ (n % base r, (divided r n).1, s, rw small refl)
      | inr large ↦
          let (v, lt, t, e') = digits_head r k (n / base r) (d ∷ s) (rw large at e) in
          (v, lt, t, rw large (append_assoc (digits r k (n / base r)) (d ∷ []) s ∙ e'))
    ]

pub read_digits_stop :
    (r : Radix) (n : ℕ) (s : Text) → head_value r s ≡ none → read_digits r n s ≡ (n, s)
unfolding read_digits
read_digits_stop r n [] e = refl
read_digits_stop r n (c ∷ s) e = rw (e, read_digits) refl

read_number-digits :
    (r : Radix) (k n : ℕ) (s : Text)
    → fits r k n ≡ true
    → head_value r s ≡ none
    → read_number r (digits r k n ++ s) ≡ some (n, s)
unfolding read_number
read_number-digits r k n s e stop =
    let (v, lt, t, e') = digits_head r k n s e in
    let all : read_digits r 0 (digit_char v ∷ t) ≡ (n, s) =
      ap (read_digits r 0) (sym e')
      ∙ read_digits-shift r k 0 n s
      ∙ ap (λ m. read_digits r m s) (shift_zero r k n e)
      ∙ read_digits_stop r n s stop in
    let first : 0 * base r + v ≡ v = omega arith in
    let rest : read_digits r v t ≡ (n, s) =
      ap (λ m. read_digits r m t) (sym first) ∙ sym (read_digit r 0 v t lt) ∙ all in
    rw (e', digit_value-digit_char r v lt, read_number) (ap some rest)

-- A digit is neither white space nor a sign.
scan_first :
    (v : ℕ) (t : Text) (r : ℕ × Text)
    → v < 10
    → read_number ten (digit_char v ∷ t) ≡ some r
    → scan_int ten (digit_char v ∷ t) ≡ some (pos r.0, r.1)
unfolding scan_int skip_space
scan_first v t (n, s) lt e =
    let no_space : is_space (digit_char v) ≡ false = ground arith in
    let no_minus : (digit_char v == b'-') ≡ false = ground arith in
    let no_plus : (digit_char v == b'+') ≡ false = ground arith in
    rw (no_space, no_minus, no_plus, e) refl

-- `%d` reads back what `%d` has printed, in front of what is no digit.
pub scan_int-decimal :
    (n : ℕ) (s : Text) → head_value ten s ≡ none → scan_int ten (decimal n ++ s) ≡ some (pos n, s)
unfolding scan_int decimal
scan_int-decimal n s stop =
    let e = fits_enough ten (n + 1) n (omega arith) in
    let (v, lt, t, e') = digits_head ten (n + 1) n s e in
    let number = ap (read_number ten) (sym e') ∙ read_number-digits ten (n + 1) n s e stop in
    ap (scan_int ten) e' ∙ scan_first v t (n, s) lt number
