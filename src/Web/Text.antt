-- ===== src/Web/Text.antt =====
-- The functions of the C library on strings and numbers that p2/net.c and p2/client.c use. A string is
-- the list of its bytes, without the zero at its end.
unfoldable pub use csci4730_operating_syste.Stdio.{Text, decimal, fgets}
use csci4730_operating_syste.Base.{
  ℕ, ◌+◌, ◌-◌, Bool, true, false, ◌&&◌, Option, none, some, List, [], ◌∷◌, ◌++◌, map, leb, ◌==◌,
  if◌then◌else◌, length, replicate,
}

abbrev pub crlf : Text
crlf = b'\r' ∷ b'\n' ∷ []

-- `strcmp(s, t) == 0`
unfoldable pub same_text : Text → Text → Bool
same_text [] [] = true
same_text [] (y ∷ ys) = false
same_text (x ∷ xs) [] = false
same_text (x ∷ xs) (y ∷ ys) = (x == y) && same_text xs ys

abbrev pub tolower : ℕ → ℕ
tolower c = if leb b'A' c && leb c b'Z' then c + 32 else c

-- `strcasecmp(s, t) == 0`
unfoldable pub same_ignoring_case : Text → Text → Bool
unfolding same_text
same_ignoring_case xs ys = same_text (map tolower xs) (map tolower ys)

abbrev pub or_else : {A : Type 0} → Option A → Option A → Option A
or_else none default = default
or_else (some a) default = some a

-- `strrchr`: from the last byte `c` on, NULL if there is none.
unfoldable pub strrchr : Text → ℕ → Option Text
strrchr [] c = none
strrchr (x ∷ xs) c = or_else (strrchr xs c) (if x == c then some (x ∷ xs) else none)

-- The bytes before the first `delimiter`, and what follows it.
unfoldable pub token : ℕ → Text → Text × Text
token delimiter [] = ([], [])
token delimiter (x ∷ xs) =
    let rest = token delimiter xs in if x == delimiter then ([], xs) else (x ∷ rest.0, rest.1)

unfoldable pub skip : ℕ → Text → Text
skip delimiter [] = []
skip delimiter (x ∷ xs) = let rest = skip delimiter xs in if x == delimiter then rest else x ∷ xs

abbrev pub found_token : ℕ → Text → Option (Text × Text)
found_token delimiter [] = none
found_token delimiter (x ∷ xs) = some (token delimiter (x ∷ xs))

-- `strtok` with one delimiter: the token and the text that the next call goes on with.
unfoldable pub strtok : ℕ → Text → Option (Text × Text)
unfolding skip token
strtok delimiter s = found_token delimiter (skip delimiter s)

-- `%*s` and `%10d`: blanks up to a width, in front.
abbrev pub padded : ℕ → Text → Text
padded width s = replicate (width - length s) b' ' ++ s

infixl 5 ◌>>=◌
abbrev pub ◌>>=◌ : {A B : Type 0} → Option A → (A → Option B) → Option B
none >>= k = none
some a >>= k = k a

-- What a sequence of calls of `fprintf` has written.
abbrev pub written : List Text → Text
written [] = []
written (s ∷ parts) = s ++ written parts
