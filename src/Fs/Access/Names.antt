-- ===== src/Fs/Access/Names.antt =====
-- The comparisons of names in p4 decide equality.
use csci4730_operating_syste.Base.{ℕ, ◌≡◌, refl, ◌↔◌, true, List, [], ◌∷◌, arith}
use csci4730_operating_syste.Fs.Access.{same_string, same_prefix, command}

pub same_string-eq : (xs ys : List ℕ) → same_string xs ys ≡ true → xs ≡ ys
unfolding same_string
same_string-eq [] [] h = refl
same_string-eq [] (y ∷ ys) h = cc
same_string-eq (x ∷ xs) [] h = cc
same_string-eq (x ∷ xs) (y ∷ ys) h = ground (arith, same_string-eq xs ys)

pub same_string_refl : (xs : List ℕ) → same_string xs xs ≡ true
unfolding same_string
same_string_refl [] = refl
same_string_refl (x ∷ xs) = ground (arith, same_string_refl xs)

command-same_string : (xs ys : List ℕ) → command xs ys ≡ same_string xs ys
unfolding command same_prefix same_string
command-same_string [] [] = refl
command-same_string [] (y ∷ ys) = ground arith
command-same_string (x ∷ xs) [] = ground arith
command-same_string (x ∷ xs) (y ∷ ys) = ground (arith, command-same_string xs ys)

-- `command` holds of two strings exactly if they are equal.
pub command_iff : (xs ys : List ℕ) → (command xs ys ≡ true) ↔ (xs ≡ ys)
command_iff xs ys = (
  λ h. same_string-eq xs ys (rw (command-same_string xs ys) at h),
  λ e. rw (command-same_string xs ys, e) (same_string_refl ys),
)
