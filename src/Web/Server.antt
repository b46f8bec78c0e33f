-- ===== src/Web/Server.antt =====
-- p2/webserver.c and p2/webserver_multi.c: what `main` takes from the command line, and the loop of
-- `req_handler`, which answers one connection after the other. The set-up of the socket is left out.
use csci4730_operating_syste.Base.{
  ℕ, ◌≡◌, refl, ◌||◌, Bool, true, false, Option, none, some, List, [], ◌∷◌, arith, ltb,
  if◌then◌else◌, ℤ, pos, negsuc, Bool-cases, inl, inr,
}
use mathlib.Core.Option.{some-injective}
use mathlib.Core.Path.{subst}
use csci4730_operating_syste.Web.Text.{Text}
use csci4730_operating_syste.Web.Http.{Host}
use csci4730_operating_syste.Web.Http.Process.{
  Processed, thread_exit, failed, fault, replied, process,
}

-- The number of words on the command line, and what `atoi` makes of the first three arguments.
pub record Options : Type 0 where
  pub argc : ℕ
  pub port_arg : ℤ
  pub thread_arg : ℤ
  pub crash_arg : ℤ

-- The globals `port`, `numThread` and `CRASH`.
pub record Settings : Type 0 where
  pub port : ℤ
  pub num_thread : ℤ
  pub crash : ℤ

-- `a > n` and `a < n`, for a number `n` that is not negative.
abbrev pub above : ℤ → ℕ → Bool
above (pos a) n = ltb n a
above (negsuc a) n = false

abbrev pub below : ℤ → ℕ → Bool
below (pos a) n = ltb a n
below (negsuc a) n = true

-- The settings, or `none` where the usage is printed.
unfoldable pub settings : Options → Option Settings
settings o =
    let asked = if ltb 3 o.argc then o.crash_arg else pos 0 in
    if ltb o.argc 2 || (below o.port_arg 2000 || above o.port_arg 50000)
    then none
    else some (record {
      port = o.port_arg;
      num_thread = if ltb 2 o.argc then o.thread_arg else pos 1;
      crash = if above asked 50 then pos 50 else asked;
    })

-- A connection that `accept` returns: what `process` finds of it.
pub record Connection : Type 0 where
  pub crashes : Bool
  pub opened : Bool
  pub line : Option Text

-- Whether the loop goes on: not behind a thread that has ended, or a fault.
abbrev pub goes_on : Processed → Bool
goes_on thread_exit = false
goes_on fault = false
goes_on failed = true
goes_on (replied text) = true

-- The loop of `req_handler`, and what becomes of each connection; the list ends where `accept` fails.
unfoldable pub req_handler : Host → List Connection → List Processed
req_handler host [] = []
req_handler host (c ∷ connections) =
    let result = process host c.crashes c.opened c.line in
    let rest = req_handler host connections in if goes_on result then result ∷ rest else result ∷ []

held : (a : ℤ) → above (if above a 50 then pos 50 else a) 50 ≡ false
held a = elim (Bool-cases (above a 50)) [ inl high ↦ rw high refl | inr low ↦ rw (low, low) refl ]

or_false : (a b c : Bool) → (a || (b || c)) ≡ false → (b ≡ false) × (c ≡ false)
or_false a b c e = ground (arith, e)

-- Settings that are accepted have a port from 2000 to 50000, and a crash rate of at most 50.
pub settings_bounds :
    (o : Options) (s : Settings)
    → settings o ≡ some s
    → (below s.port 2000 ≡ false) × (above s.port 50000 ≡ false) × (above s.crash 50 ≡ false)
unfolding settings
settings_bounds o s e =
    let low = below o.port_arg 2000 in
    let high = above o.port_arg 50000 in
    elim (Bool-cases (ltb o.argc 2 || (low || high))) [
      | inl refused ↦ let impossible = rw refused at e in cc
      | inr accepted ↦
          let same = some-injective _ _ (rw accepted at e) in
          let (no_low, no_high) = or_false (ltb o.argc 2) low high accepted in
          subst
            (λ (t : Settings).
              (below t.port 2000 ≡ false)
              × (above t.port 50000 ≡ false)
              × (above t.crash 50 ≡ false))
            same (no_low, no_high, held (if ltb 3 o.argc then o.crash_arg else pos 0))
    ]
