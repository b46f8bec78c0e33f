-- ===== src/Web/Http/Mime.antt =====
-- `get_mime_type` of p2/net.c depends on what stands behind the last dot.
use csci4730_operating_syste.Base.{
  ℕ, ◌≡◌, refl, ap, false, none, some, [], ◌∷◌, ◌++◌, arith, ◌==◌, All,
}
use csci4730_operating_syste.Web.Text.{Text, strrchr}
use csci4730_operating_syste.Web.Http.{mime_of, get_mime_type}

abbrev pub Lacks : ℕ → Text → Type 0
Lacks c s = All (λ (y : ℕ). (y == c) ≡ false) s

strrchr-none : (c : ℕ) (s : Text) → Lacks c s → strrchr s c ≡ none
unfolding strrchr
strrchr-none c [] out = refl
strrchr-none c (x ∷ s) out = rw (strrchr-none c s out.1, out.0) refl

strrchr-last :
    (c : ℕ) (base ext : Text) → Lacks c ext → strrchr (base ++ c ∷ ext) c ≡ some (c ∷ ext)
unfolding strrchr
strrchr-last c [] ext out = rw (strrchr-none c ext out) (ground arith)
strrchr-last c (x ∷ base) ext out = rw (strrchr-last c base ext out) refl

-- The type depends on what stands behind the last dot, and a name without a dot has none.
pub get_mime_type-extension :
    (base ext : Text)
    → Lacks b'.' ext
    → (get_mime_type (base ++ b'.' ∷ ext) ≡ mime_of (some (b'.' ∷ ext)))
      × (get_mime_type ext ≡ none)
unfolding get_mime_type mime_of
get_mime_type-extension base ext out =
    (ap mime_of (strrchr-last b'.' base ext out), rw (strrchr-none b'.' ext out) refl)
