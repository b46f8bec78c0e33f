-- ===== src/Web/Http/Parse.antt =====
-- The words of a request line of p2/net.c.
use csci4730_operating_syste.Base.{ℕ, ◌≡◌, refl, ap, false, some, [], ◌∷◌, ◌++◌, arith, ◌==◌, All}
use csci4730_operating_syste.Web.Text.{Text, token, skip, strtok}
use csci4730_operating_syste.Web.Http.Process.{parse_request}

-- A word that is not empty and has no byte `c`.
abbrev pub IsWord : ℕ → Text → Type 0
IsWord c [] = ⊥
IsWord c (x ∷ xs) = All (λ (y : ℕ). (y == c) ≡ false) (x ∷ xs)

token-word :
    (c : ℕ) (w s : Text) → All (λ (y : ℕ). (y == c) ≡ false) w → token c (w ++ c ∷ s) ≡ (w, s)
unfolding token
token-word c [] s out = ground arith
token-word c (x ∷ w) s out = rw (out.0, token-word c w s out.1) refl

pub strtok-word : (c : ℕ) (w s : Text) → IsWord c w → strtok c (w ++ c ∷ s) ≡ some (w, s)
unfolding strtok skip
strtok-word c [] s out = absurd out
strtok-word c (x ∷ w) s out = rw out.0 (ap some (token-word c (x ∷ w) s out))

-- A request line of a method and a path without blanks, and a protocol that ends in a carriage return, is
-- read back into these words.
pub parse_request-words :
    (method path protocol rest : Text)
    → IsWord b' ' method
    → IsWord b' ' path
    → IsWord b'\r' protocol
    → parse_request (method ++ b' ' ∷ (path ++ b' ' ∷ (protocol ++ b'\r' ∷ rest)))
      ≡ some (method, path, protocol)
unfolding parse_request
parse_request-words method path protocol rest m p q =
    rw (strtok-word b' ' method (path ++ b' ' ∷ (protocol ++ b'\r' ∷ rest)) m) (
      rw (strtok-word b' ' path (protocol ++ b'\r' ∷ rest) p)
        (rw (strtok-word b'\r' protocol rest q) refl))
