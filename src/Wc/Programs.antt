-- ===== src/Wc/Programs.antt =====
-- The programs of p1: `main` of p1/wc.c, which counts in one process, and `main` of p1/wc_multi.c. What they
-- print besides the totals is left out.
use csci4730_operating_syste.Base.{
  ℕ, ◌%◌, ◌<◌, ◌≤◌, ◌≡◌, ◌&&◌, Bool, false, Option, none, some, List, arith, ltb, ap, sym, ◌∙◌,
  if◌then◌else◌, length, ℤ, pos, negsuc,
}
use csci4730_operating_syste.Wc.{Count, word_count, wc_multi}
use csci4730_operating_syste.Wc.Split.{NoEof, Succeeds, tally, wc_multi-tally}

-- The number of words on the command line, what `atoi` makes of the second and third argument, and the file,
-- if it can be opened.
pub record Arguments : Type 0 where
  pub argc : ℕ
  pub processes : ℤ
  pub rate : ℤ
  pub opened : Option (List ℕ)

pub data Ended : Type 0 where
  usage : Ended
  open_error : Ended
  crashed : Ended
  waiting : Ended
  counted : Count → Ended

-- A C integer, held between two bounds.
unfoldable pub clamp : (low high : ℕ) → ℤ → ℕ
clamp low high (negsuc n) = low
clamp low high (pos n) = if ltb n low then low else if ltb high n then high else n

-- `crashRate`
abbrev pub crash_rate : Arguments → ℕ
crash_rate args = if ltb 3 args.argc then clamp 0 50 args.rate else 0

-- `nChildProc` of p1/wc_multi.c
abbrev pub child_count : Arguments → ℕ
child_count args = if ltb 2 args.argc then clamp 1 10 args.processes else 1

-- The end of `word_count`: `drawn` is what `rand` returns.
abbrev pub crashes_at : ℕ → ℕ → Bool
crashes_at rate drawn = ltb 0 rate && ltb (drawn % 100) rate

abbrev pub count_opened : ℕ → ℕ → Option (List ℕ) → Ended
count_opened rate drawn none = open_error
count_opened rate drawn (some fp) =
    if crashes_at rate drawn then crashed else counted (word_count fp 0 (length fp))

unfoldable pub main_single : Arguments → (drawn : ℕ) → Ended
main_single args drawn =
    if ltb args.argc 2 then usage else count_opened (crash_rate args) drawn args.opened

abbrev pub totals_of : Option Count → Ended
totals_of none = waiting
totals_of (some c) = counted c

abbrev pub split_opened : ℕ → (ℕ → List Bool) → Option (List ℕ) → Ended
split_opened n crashes none = open_error
split_opened n crashes (some fp) = totals_of (wc_multi fp n crashes)

-- `crashes` says of each attempt of each child if it crashes.
unfoldable pub main_multi : Arguments → (ℕ → List Bool) → Ended
main_multi args crashes =
    if ltb args.argc 2 then usage else split_opened (child_count args) crashes args.opened

clamp_bounds : (z : ℤ) → (0 < clamp 1 10 z) × (clamp 1 10 z ≤ 10)
unfolding clamp
clamp_bounds (negsuc n) = (omega arith, omega arith)
clamp_bounds (pos n) = ground arith

child_count_bounds : (args : Arguments) → (0 < child_count args) × (child_count args ≤ 10)
child_count_bounds args = ground (arith, clamp_bounds args.processes)

-- With a file name on the command line, a file that can be opened and has no byte 0xff, whatever number of
-- children and rate are asked for: if the one process does not draw a crash, and each of the at most ten
-- children has an attempt that does not crash, then both programs end with the same totals, the numbers of
-- newlines, of newlines and spaces, and of other bytes.
pub main_multi-main_single :
    (args : Arguments) (fp : List ℕ) (drawn : ℕ) (crashes : ℕ → List Bool)
    → 2 ≤ args.argc
    → args.opened ≡ some fp
    → NoEof fp
    → crashes_at (crash_rate args) drawn ≡ false
    → ((i : ℕ) → i < 10 → Succeeds (crashes i))
    → (main_multi args crashes ≡ counted (tally fp))
      × (main_single args drawn ≡ main_multi args crashes)
unfolding main_multi main_single
main_multi-main_single args fp drawn crashes named opened no_eof calm ok =
    let n = child_count args in
    let (some_child, few) = child_count_bounds args in
    let (split, whole) = wc_multi-tally fp n crashes no_eof some_child λ i lt. ok i (omega arith) in
    let named' : ltb args.argc 2 ≡ false = ground (arith, named) in
    let multi : split_opened n crashes args.opened ≡ counted (tally fp) =
      ap (split_opened n crashes) opened ∙ ap totals_of split in
    let single : count_opened (crash_rate args) drawn args.opened ≡ counted (tally fp) =
      ap (count_opened (crash_rate args) drawn) opened ∙ rw calm (ap counted whole) in
    (rw named' multi, rw named' (single ∙ sym multi))
