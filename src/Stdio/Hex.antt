-- ===== src/Stdio/Hex.antt =====
-- `%04x` of a number below 2^16, and how `%x` reads it.
use csci4730_operating_syste.Base.{
  ℕ, ◌+◌, ◌-◌, ◌*◌, ◌/◌, ◌%◌, ◌<◌, ◌≡◌, refl, true, false, none, some, [], ◌∷◌, ◌++◌, arith, ltb,
  ◌==◌, Bool-cases, inl, inr, ◌∙◌, ap, length, replicate, pos,
}
use csci4730_operating_syste.Stdio.{
  Text, sixteen, digit_char, digits, hex_4, read_digits, read_number, scan_int, skip_space,
  scan_bytes, is_space, after_prefix,
}
use csci4730_operating_syste.Stdio.Numbers.{
  head_value, fits, fits_enough, digits-fits, digit_value-digit_char, read_digit, read_digits_stop,
}

-- The four digits of a number.
abbrev pub four : ℕ → Text
four n =
    digit_char (n / 4096)
    ∷ digit_char (n / 256 % 16)
    ∷ digit_char (n / 16 % 16)
    ∷ digit_char (n % 16)
    ∷ []

fits_four : (n : ℕ) → n < 0x10000 → fits sixteen 4 n ≡ true
fits_four n lt = ground arith

four_digits : (n : ℕ) → n < 0x10000 → digits sixteen (n + 1) n ≡ digits sixteen 4 n
four_digits n lt =
    digits-fits sixteen (n + 1) 4 n (fits_enough sixteen (n + 1) n (omega arith)) (fits_four n lt)

hex_padded : Text → Text
hex_padded s = replicate (4 - length s) b'0' ++ s

padded-four : (n : ℕ) → n < 0x10000 → hex_padded (digits sixteen 4 n) ≡ four n
unfolding digits hex_padded
padded-four n lt = elim (Bool-cases (ltb n 16)) [
  | inl a ↦ rw a (ground arith)
  | inr a ↦ elim (Bool-cases (ltb (n / 16) 16)) [
    | inl b ↦ rw (a, b) (ground arith)
    | inr b ↦ elim (Bool-cases (ltb (n / 16 / 16) 16)) [
      | inl c ↦ rw (a, b, c) (ground arith)
      | inr c ↦ rw (a, b, c) (ground arith)
    ]
  ]
]

pub hex_4-four : (n : ℕ) → n < 0x10000 → hex_4 n ≡ four n
unfolding hex_4 hex_padded
hex_4-four n lt = ap hex_padded (four_digits n lt) ∙ padded-four n lt

no_prefix :
    (v w : ℕ) (t : Text)
    → v < 16
    → w < 16
    → after_prefix sixteen (digit_char v ∷ digit_char w ∷ t) ≡ digit_char v ∷ digit_char w ∷ t
unfolding scan_bytes
no_prefix v w t lt lt' =
    let upper : (b'X' == digit_char w) ≡ false = ground arith in
    let lower : (b'x' == digit_char w) ≡ false = ground arith in
    elim (Bool-cases (b'0' == digit_char v)) [
      | inl zero_first ↦ rw (zero_first, upper, lower) refl
      | inr other ↦ rw other refl
    ]

value_of_four : (n : ℕ) → ((n / 4096 * 16 + n / 256 % 16) * 16 + n / 16 % 16) * 16 + n % 16 ≡ n
value_of_four n = omega arith

read_number-four :
    (n : ℕ) (s : Text)
    → n < 0x10000
    → head_value sixteen s ≡ none
    → read_number sixteen (four n ++ s) ≡ some (n, s)
unfolding read_number
read_number-four n s lt stop =
    let a = n / 4096 in
    let b = n / 256 % 16 in
    let c = n / 16 % 16 in
    let d = n % 16 in
    let rest =
      read_digit sixteen a b (digit_char c ∷ digit_char d ∷ s) (omega arith)
      ∙ read_digit sixteen (a * 16 + b) c (digit_char d ∷ s) (omega arith)
      ∙ read_digit sixteen ((a * 16 + b) * 16 + c) d s (omega arith)
      ∙ ap (λ m. read_digits sixteen m s) (value_of_four n)
      ∙ read_digits_stop sixteen n s stop in
    rw (digit_value-digit_char sixteen a (omega arith), read_number) (ap some rest)

scan_int-hex_digits :
    (v w n : ℕ) (t s : Text)
    → v < 16
    → w < 16
    → read_number sixteen (digit_char v ∷ digit_char w ∷ t) ≡ some (n, s)
    → scan_int sixteen (digit_char v ∷ digit_char w ∷ t) ≡ some (pos n, s)
unfolding scan_int skip_space
scan_int-hex_digits v w n t s lt lt' e =
    let no_space : is_space (digit_char v) ≡ false = ground arith in
    let no_minus : (digit_char v == b'-') ≡ false = ground arith in
    let no_plus : (digit_char v == b'+') ≡ false = ground arith in
    rw (no_space, no_minus, no_plus, no_prefix v w t lt lt', e) refl

-- `%x` reads back what `%04x` has printed of a number below 2^16, in front of what is no digit.
pub scan_int-hex_4 :
    (n : ℕ) (s : Text)
    → n < 0x10000
    → head_value sixteen s ≡ none
    → scan_int sixteen (hex_4 n ++ s) ≡ some (pos n, s)
scan_int-hex_4 n s lt stop =
    ap (λ t. scan_int sixteen (t ++ s)) (hex_4-four n lt)
    ∙ scan_int-hex_digits (n / 4096) (n / 256 % 16) n _ s (omega arith) (omega arith)
        (read_number-four n s lt stop)
