-- ===== src/Fs/Bitmap/Laws.antt =====
-- Setting one bit of a map of p4/fs_util.c leaves the other bits alone.
use Prim.Native.Nat.{bit_xor}
use csci4730_operating_syste.Base.{
  ℕ, zero, suc, ◌-◌, ◌/◌, ◌%◌, ◌^◌, ◌<◌, ◌≡◌, refl, Bool, true, ◌&&◌, arith, ltb, ◌==◌,
  if◌then◌else◌, ltb→lt, ==_iff, Bool-cases, inl, inr,
}
use csci4730_operating_syste.Fs.Bitmap.{Bits, AreBytes, toggle_bit, get_bit, set_bit}

every : ℕ → (ℕ → Bool) → Bool
every zero p = true
every (suc n) p = p n && every n p

every_sound : (n : ℕ) (p : ℕ → Bool) (x : ℕ) → every n p ≡ true → x < n → p x ≡ true
unfolding every
every_sound zero p x h lt = absurd (omega arith)
every_sound (suc n) p x h lt = ground (arith, every_sound n p x)

abbrev bit : ℕ → ℕ → ℕ
bit b j = b / 2 ^ j % 2

abbrev flip_ok : ℕ → ℕ → ℕ → Bool
flip_ok b k j = bit (bit_xor b (2 ^ k)) j == (if j == k then 1 - bit b j else bit b j)

-- Every byte, every bit that is flipped, every bit that is read.
flip_table :
    every 256 (λ b. every 8 (λ k. ltb (bit_xor b (2 ^ k)) 256 && every 8 (flip_ok b k))) ≡ true
unfolding every
flip_table = refl

flip_row :
    (b k : ℕ) → b < 256 → k < 8 → (ltb (bit_xor b (2 ^ k)) 256 && every 8 (flip_ok b k)) ≡ true
flip_row b k hb hk =
    every_sound 8 (λ k. ltb (bit_xor b (2 ^ k)) 256 && every 8 (flip_ok b k)) k
      (every_sound 256 (λ b. every 8 (λ k. ltb (bit_xor b (2 ^ k)) 256 && every 8 (flip_ok b k))) b
        flip_table hb)
      hk

flip_lt : (b k : ℕ) → b < 256 → k < 8 → bit_xor b (2 ^ k) < 256
flip_lt b k hb hk = ltb→lt _ _ (ground (arith, flip_row b k hb hk))

flip_bit :
    (b k j : ℕ)
    → b < 256
    → k < 8
    → j < 8
    → bit (bit_xor b (2 ^ k)) j ≡ (if j == k then 1 - bit b j else bit b j)
flip_bit b k j hb hk hj =
    (==_iff _ _).0 (every_sound 8 (flip_ok b k) j (ground (arith, flip_row b k hb hk)) hj)

pub get_bit-lt : (a : Bits) (i : ℕ) → get_bit a i < 2
unfolding get_bit
get_bit-lt a i = omega arith

pub toggle_bit-AreBytes : (a : Bits) (i : ℕ) → AreBytes a → AreBytes (toggle_bit a i)
unfolding toggle_bit
toggle_bit-AreBytes a i h j =
    ground (arith, h j, flip_lt (a (i / 8)) (i % 8) (h (i / 8)) (omega arith))

same_bit : (i j : ℕ) → j / 8 ≡ i / 8 → (j % 8 == i % 8) ≡ (j == i)
same_bit i j e = ground arith

get_bit-toggle_bit :
    (a : Bits) (i j : ℕ)
    → AreBytes a
    → get_bit (toggle_bit a i) j ≡ (if j == i then 1 - get_bit a j else get_bit a j)
unfolding get_bit toggle_bit
get_bit-toggle_bit a i j h = elim (Bool-cases (j / 8 == i / 8)) [
  | inr other ↦ rw other (ground arith)
  | inl same ↦
      let e : j / 8 ≡ i / 8 = ground arith in
      rw (
        same,
        flip_bit (a (i / 8)) (i % 8) (j % 8) (h (i / 8)) (omega arith) (omega arith),
        e,
        same_bit i j e,
      )
]

-- Writing 0 or 1 at one index: that index reads it, and every other index reads as before.
pub get_bit-set_bit :
    (a : Bits) (i j value : ℕ)
    → AreBytes a
    → value < 2
    → get_bit (set_bit a i value) j ≡ (if j == i then value else get_bit a j)
unfolding set_bit
get_bit-set_bit a i j value h small =
    let h' = toggle_bit-AreBytes a i h in
    ground (
      arith,
      get_bit-toggle_bit a i j h,
      get_bit-toggle_bit a i i h,
      get_bit-toggle_bit (toggle_bit a i) i j h',
      get_bit-lt a i,
      get_bit-lt a j,
    )

pub set_bit-AreBytes : (a : Bits) (i value : ℕ) → AreBytes a → AreBytes (set_bit a i value)
unfolding set_bit
set_bit-AreBytes a i value h j =
    let h' = toggle_bit-AreBytes a i h in
    ground (arith, h j, h' j, toggle_bit-AreBytes (toggle_bit a i) i h' j)
