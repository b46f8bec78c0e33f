-- ===== src/Fs/Bitmap/Count.antt =====
-- Counting the clear bits of a map of p4/fs_util.c.
use csci4730_operating_syste.Base.{
  ℕ, zero, suc, ◌+◌, ◌≤◌, ◌<◌, ◌≡◌, refl, arith, ◌==◌, if◌then◌else◌,
}
use csci4730_operating_syste.Fs.Bitmap.{Bits, AreBytes, get_bit, set_bit}
use csci4730_operating_syste.Fs.Bitmap.Laws.{get_bit-set_bit}

-- The clear bits among the first `n`.
unfoldable pub clear_count : ℕ → Bits → ℕ
clear_count zero a = 0
clear_count (suc n) a = clear_count n a + (if get_bit a n == 0 then 1 else 0)

pub clear_count-le : (n : ℕ) (a : Bits) → clear_count n a ≤ n
unfolding clear_count
clear_count-le zero a = omega arith
clear_count-le (suc n) a = ground (arith, clear_count-le n a)

module _ (a : Bits) (i : ℕ) (h : AreBytes a) where
  clear_count-above :
      (n value : ℕ) → value < 2 → n ≤ i → clear_count n (set_bit a i value) ≡ clear_count n a
  unfolding clear_count
  clear_count-above zero value small le = refl
  clear_count-above (suc n) value small le =
      ground (arith, clear_count-above n value small, get_bit-set_bit a i n value h small)

  pub clear_count-set :
      (n : ℕ) → i < n → get_bit a i ≡ 0 → clear_count n (set_bit a i 1) + 1 ≡ clear_count n a
  unfolding clear_count
  clear_count-set zero lt clear = absurd (omega arith)
  clear_count-set (suc n) lt clear = ground (
    arith,
    clear_count-set n,
    clear_count-above n 1 (omega arith),
    get_bit-set_bit a i n 1 h (omega arith),
  )

  pub clear_count-clear :
      (n : ℕ) → i < n → get_bit a i ≡ 1 → clear_count n (set_bit a i 0) ≡ clear_count n a + 1
  unfolding clear_count
  clear_count-clear zero lt set = absurd (omega arith)
  clear_count-clear (suc n) lt set = ground (
    arith,
    clear_count-clear n,
    clear_count-above n 0 (omega arith),
    get_bit-set_bit a i n 0 h (omega arith),
  )

  pub clear_count-pos : (n : ℕ) → i < n → get_bit a i ≡ 0 → 0 < clear_count n a
  unfolding clear_count
  clear_count-pos zero lt clear = absurd (omega arith)
  clear_count-pos (suc n) lt clear = ground (arith, clear_count-pos n)
