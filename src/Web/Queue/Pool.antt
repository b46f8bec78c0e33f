-- ===== src/Web/Queue/Pool.antt =====
-- Sums over the threads of the pool.
use csci4730_operating_syste.Base.{ℕ, zero, suc, ◌+◌, ◌<◌, ◌≤◌, ◌≡◌, refl, arith}
use native.Mathlib.Decide.{dec_lt}
use csci4730_operating_syste.Web.Queue.{update, Consumer}

module _ (f : Consumer → ℕ) where
  unfoldable pub sum_of : ℕ → (ℕ → Consumer) → ℕ
  sum_of zero pool = 0
  sum_of (suc n) pool = sum_of n pool + f (pool n)

  sum_of_above :
      (n i : ℕ) (pool : ℕ → Consumer) (c : Consumer)
      → n ≤ i
      → sum_of n (update pool i c) ≡ sum_of n pool
  unfolding sum_of
  sum_of_above zero i pool c le = refl
  sum_of_above (suc n) i pool c le = ground (arith, sum_of_above n i pool c)

  -- One thread moves.
  pub sum_of-update :
      (n i : ℕ) (pool : ℕ → Consumer) (c : Consumer)
      → i < n
      → sum_of n (update pool i c) + f (pool i) ≡ sum_of n pool + f c
  unfolding sum_of
  sum_of-update zero i pool c lt = absurd (omega arith)
  sum_of-update (suc n) i pool c lt =
      ground (arith, sum_of-update n i pool c, sum_of_above n i pool c)

  pub sum_of_pos :
      (n : ℕ) (pool : ℕ → Consumer) → 0 < sum_of n pool → (i : ℕ) × (i < n) × (0 < f (pool i))
  unfolding sum_of
  sum_of_pos zero pool pos = absurd (omega arith)
  sum_of_pos (suc n) pool pos = elim (dec_lt 0 (f (pool n))) [
    | yes here ↦ (n, omega arith, here)
    | no none_here ↦ let (i, lt, p) = sum_of_pos n pool (omega arith) in (i, omega arith, p)
  ]

  pub sum_of-le : (n i : ℕ) (pool : ℕ → Consumer) → i < n → f (pool i) ≤ sum_of n pool
  unfolding sum_of
  sum_of-le zero i pool lt = absurd (omega arith)
  sum_of-le (suc n) i pool lt = ground (arith, sum_of-le n i pool)

  pub sum_of_zero : (n : ℕ) (pool : ℕ → Consumer) → ((i : ℕ) → f (pool i) ≡ 0) → sum_of n pool ≡ 0
  unfolding sum_of
  sum_of_zero zero pool h = refl
  sum_of_zero (suc n) pool h = omega (arith, sum_of_zero n pool h, h n)

  -- Two threads.
  pub sum_of-le_two :
      (n i j : ℕ) (pool : ℕ → Consumer) → i < j → j < n → f (pool i) + f (pool j) ≤ sum_of n pool
  unfolding sum_of
  sum_of-le_two zero i j pool lt lt' = absurd (omega arith)
  sum_of-le_two (suc n) i j pool lt lt' = elim (dec_lt j n) [
    | yes below ↦ omega (arith, sum_of-le_two n i j pool lt below)
    | no last ↦
        let e : j ≡ n = omega arith in rw e (omega (arith, sum_of-le n i pool (omega arith)))
  ]
