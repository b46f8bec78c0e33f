-- ===== src/Fs/Bitmap.antt =====
-- p4/fs_util.c: the bits of `inodeMap` and `blockMap`. A map is a function from the index of a byte.
pub mod Laws
pub mod Count
use Prim.Native.Nat.{bit_xor}
use csci4730_operating_syste.Base.{
  ℕ, ◌+◌, ◌*◌, ◌/◌, ◌%◌, ◌^◌, ◌<◌, Bool, not, ◌&&◌, ◌==◌, if◌then◌else◌,
}

abbrev pub Bits : Type 0
Bits = ℕ → ℕ

abbrev pub update {ℓ} : {A : Type ℓ} → (ℕ → A) → ℕ → A → ℕ → A
update f i a j = if j == i then a else f j

-- A `char` of the array, as its bit pattern.
abbrev pub AreBytes : Bits → Type 0
AreBytes a = (i : ℕ) → a i < 256

unfoldable pub toggle_bit : Bits → ℕ → Bits
toggle_bit a index = update a (index / 8) (bit_xor (a (index / 8)) (2 ^ (index % 8)))

unfoldable pub get_bit : Bits → ℕ → ℕ
get_bit a index = a (index / 8) / 2 ^ (index % 8) % 2

unfoldable pub set_bit : Bits → ℕ → ℕ → Bits
set_bit a index value =
    if not (value == 0) && not (value == 1)
    then a
    else let a' = toggle_bit a index in
      if get_bit a' index == value then a' else toggle_bit a' index
