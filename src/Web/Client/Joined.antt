-- ===== src/Web/Client/Joined.antt =====
-- How often `main` of p2/client.c starts its threads.
use csci4730_operating_syste.Base.{
  ℕ, zero, suc, ◌+◌, ◌<◌, ◌≤◌, ◌≡◌, refl, Bool, true, false, List, [], ◌∷◌, ◌++◌, arith, ltb,
  if◌then◌else◌, ℤ, pos, negsuc, length, map, ◌⊎◌, inl, inr, ap, ◌∙◌, Bool-cases,
}
use native.Mathlib.Decide.{dec_lt}
use csci4730_operating_syste.Web.Client.Threads.{
  max_thread, Invocation, at_least_0, at_most, client_settings, positive, Join, tret, exit_1,
  JoinEnd, joined, exited_1, waits, join_all, unfinished, failure_exit, handled, finished_with,
  client_main,
}

-- The reads that a thread is not started again for, in front of an exit.
abbrev pub positives : List Join → ℕ
positives [] = 0
positives (exit_1 ∷ joins) = 0
positives (tret r ∷ joins) = let rest = positives joins in if positive r then rest + 1 else rest

abbrev pub exits : List Join → Bool
exits [] = false
exits (exit_1 ∷ joins) = true
exits (tret r ∷ joins) = exits joins

-- The number of positive ones.
abbrev pub count_positive : List ℤ → ℕ
count_positive [] = 0
count_positive (r ∷ reads) =
    let rest = count_positive reads in if positive r then rest + 1 else rest

-- The loop ends behind the reads `used`, the shortest beginning with `n` positive ones, and has
-- counted the others.
pub record Ends (n : ℕ) (joins : List Join) (failed f : ℕ) : Type 0 where
  pub used : List ℤ
  pub left : List Join
  pub split : joins ≡ map tret used ++ left
  pub threads : count_positive used ≡ n
  pub shortest :
      ((n ≡ 0) × (used ≡ []))
      ⊎ ((front : List ℤ) × (r : ℤ) × (used ≡ front ++ r ∷ []) × (positive r ≡ true))
  pub failures : f + n ≡ failed + length used

Ends-none : (joins : List Join) (failed : ℕ) → Ends 0 joins failed failed
Ends-none joins failed = record {
  used = [];
  left = joins;
  split = refl;
  threads = refl;
  shortest = inl (refl, refl);
  failures = omega arith;
}

module _ (r : ℤ) (joins : List Join) where
  join_all_ok :
      (n failed : ℕ)
      → positive r ≡ true
      → join_all (suc n) (tret r ∷ joins) failed ≡ join_all n joins failed
  unfolding join_all
  join_all_ok n failed ok = rw (ok, join_all) refl

  join_all_retry :
      (n failed : ℕ)
      → positive r ≡ false
      → join_all (suc n) (tret r ∷ joins) failed ≡ join_all (suc n) joins (failed + 1)
  unfolding join_all
  join_all_retry n failed bad = rw (bad, join_all) refl

  positives_ok : positive r ≡ true → positives (tret r ∷ joins) ≡ positives joins + 1
  positives_ok ok = rw ok refl

  positives_retry : positive r ≡ false → positives (tret r ∷ joins) ≡ positives joins
  positives_retry bad = rw bad refl

  Ends-ok :
      (n failed f : ℕ)
      → positive r ≡ true
      → Ends n joins failed f
      → Ends (suc n) (tret r ∷ joins) failed f
  Ends-ok n failed f ok ends = record {
    used = r ∷ ends.used;
    left = ends.left;
    split = ap (λ xs. tret r ∷ xs) ends.split;
    threads = rw ok (omega (arith, ends.threads));
    shortest = elim ends.shortest [
      | inl (_, none_used) ↦ inr ([], r, ap (λ xs. r ∷ xs) none_used, ok)
      | inr (front, last, e, is_positive) ↦ inr (r ∷ front, last, ap (λ xs. r ∷ xs) e, is_positive)
    ];
    failures = omega (arith, ends.failures);
  }

  Ends-retry :
      (n failed f : ℕ)
      → positive r ≡ false
      → Ends (suc n) joins (failed + 1) f
      → Ends (suc n) (tret r ∷ joins) failed f
  Ends-retry n failed f bad ends = record {
    used = r ∷ ends.used;
    left = ends.left;
    split = ap (λ xs. tret r ∷ xs) ends.split;
    threads = rw bad ends.threads;
    shortest = elim ends.shortest [
      | inl (no_thread, _) ↦ absurd (omega (arith, no_thread))
      | inr (front, last, e, is_positive) ↦ inr (r ∷ front, last, ap (λ xs. r ∷ xs) e, is_positive)
    ];
    failures = omega (arith, ends.failures);
  }

pub join_all-Ends :
    (joins : List Join) (n failed : ℕ)
    → n ≤ positives joins
    → (f : ℕ) × (join_all n joins failed ≡ joined f) × Ends n joins failed f
unfolding join_all
join_all-Ends [] zero failed le = (failed, refl, Ends-none [] failed)
join_all-Ends [] (suc n) failed le = absurd (omega arith)
join_all-Ends (exit_1 ∷ joins) zero failed le = (failed, refl, Ends-none (exit_1 ∷ joins) failed)
join_all-Ends (exit_1 ∷ joins) (suc n) failed le = absurd (omega arith)
join_all-Ends (tret r ∷ joins) zero failed le = (failed, refl, Ends-none (tret r ∷ joins) failed)
join_all-Ends (tret r ∷ joins) (suc n) failed le = elim (Bool-cases (positive r)) [
  | inl ok ↦
      let (f, e, ends) =
        join_all-Ends joins n failed (omega (arith, le, positives_ok r joins ok)) in
      (f, join_all_ok r joins n failed ok ∙ e, Ends-ok r joins n failed f ok ends)
  | inr bad ↦
      let (f, e, ends) =
        join_all-Ends joins (suc n) (failed + 1) (omega (arith, le, positives_retry r joins bad)) in
      (f, join_all_retry r joins n failed bad ∙ e, Ends-retry r joins n failed f bad ends)
]

-- How the loop ends when there are too few positive ones.
abbrev pub cut_short : Bool → JoinEnd
cut_short true = exited_1
cut_short false = waits

pub join_all-cut_short :
    (joins : List Join) (n failed : ℕ)
    → positives joins < n
    → join_all n joins failed ≡ cut_short (exits joins)
unfolding join_all
join_all-cut_short [] zero failed lt = elim lt [ ]
join_all-cut_short [] (suc n) failed lt = refl
join_all-cut_short (exit_1 ∷ joins) zero failed lt = elim lt [ ]
join_all-cut_short (exit_1 ∷ joins) (suc n) failed lt = refl
join_all-cut_short (tret r ∷ joins) zero failed lt = elim lt [ ]
join_all-cut_short (tret r ∷ joins) (suc n) failed lt = elim (Bool-cases (positive r)) [
  | inl ok ↦
      join_all_ok r joins n failed ok
      ∙ join_all-cut_short joins n failed (omega (arith, lt, positives_ok r joins ok))
  | inr bad ↦
      join_all_retry r joins n failed bad
      ∙ join_all-cut_short joins (suc n) (failed + 1)
          (omega (arith, lt, positives_retry r joins bad))
]

-- The number of threads that the arguments ask for.
abbrev pub asked : Invocation → ℤ
asked a = at_most max_thread (if ltb a.argc 4 then pos 10 else a.number)

abbrev pub wanted : Invocation → ℕ
wanted a = at_least_0 (asked a)

at_most-max : (n : ℤ) → at_least_0 (at_most max_thread n) ≤ max_thread
at_most-max (pos n) = elim (Bool-cases (ltb max_thread n)) [
  | inl many ↦ rw many (omega arith)
  | inr few ↦ rw few (ground (arith, few))
]
at_most-max (negsuc n) = omega arith

client_main-wanted :
    (a : Invocation) (joins : List Join)
    → 3 ≤ a.argc
    → client_main a joins ≡ finished_with (asked a) (join_all (wanted a) joins 0)
unfolding client_main client_settings
client_main-wanted a joins le = let enough : ltb a.argc 3 ≡ false = ground arith in rw enough refl

cut_short_end :
    (n : ℤ) (b : Bool) → finished_with n (cut_short b) ≡ (if b then failure_exit else unfinished)
cut_short_end n true = refl
cut_short_end n false = refl

-- With two arguments or more, `main` starts as many threads as it is asked for, 10 by default and
-- 100 at most, which is the length of `p`, and none for a number below 0. If the numbers that it
-- reads behind the calls of `pthread_join`, up to an exit, have that many positive ones among them,
-- it ends: it has joined a thread for each of the numbers up to the last of these positive ones and
-- no more, and prints the number it was asked for and, as failures, how many of them are not
-- positive. Otherwise it ends in `exit(1)` with the first thread that calls it, and without
-- such a thread it goes on starting threads.
pub client_main-Ends :
    (a : Invocation) (joins : List Join)
    → 3 ≤ a.argc
    → (wanted a ≤ max_thread)
      × (((f : ℕ) × (client_main a joins ≡ handled (asked a) f) × Ends (wanted a) joins 0 f)
          ⊎ ((positives joins < wanted a)
              × (client_main a joins ≡ (if exits joins then failure_exit else unfinished))))
client_main-Ends a joins le = (
  at_most-max (if ltb a.argc 4 then pos 10 else a.number),
  elim (dec_lt (positives joins) (wanted a)) [
    | yes few ↦ inr (
      few,
      client_main-wanted a joins le
          ∙ ap (finished_with (asked a)) (join_all-cut_short joins (wanted a) 0 few)
          ∙ cut_short_end (asked a) (exits joins),
    )
    | no enough ↦
        let (f, e, ends) = join_all-Ends joins (wanted a) 0 (omega arith) in
        inl (f, client_main-wanted a joins le ∙ ap (finished_with (asked a)) e, ends)
  ],
)
