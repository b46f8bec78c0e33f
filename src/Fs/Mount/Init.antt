-- ===== src/Fs/Mount/Init.antt =====
-- The maps of p4/fs.c behind the loops of `fs_mount`, and the first inode and block that it takes.
use csci4730_operating_syste.Base.{
  ℕ, zero, suc, ◌+◌, ◌-◌, ◌/◌, ◌<◌, ◌≡◌, some, arith, ltb, if◌then◌else◌, inl, inr, ◌∙◌, ap,
}
use csci4730_operating_syste.Fs.Bitmap.{Bits, AreBytes, get_bit, set_bit}
use csci4730_operating_syste.Fs.Bitmap.Laws.{get_bit-set_bit, set_bit-AreBytes}
use csci4730_operating_syste.Fs.Bitmap.Count.{clear_count}
use csci4730_operating_syste.Fs.State.{FileSystem, max_inode}
use csci4730_operating_syste.Fs.Alloc.{get_inode, get_block}
use csci4730_operating_syste.Fs.Alloc.Laws.{AreCounted, get_inode_lem, get_block_lem}
use csci4730_operating_syste.Fs.Mount.{meta_blocks, init_map}

pub init_map-bits :
    (k i : ℕ) (value : ℕ → ℕ) (a : Bits) (j : ℕ)
    → AreBytes a
    → ((m : ℕ) → value m < 2)
    → get_bit (init_map k i value a) j
      ≡ (if ltb j i then get_bit a j else if ltb j (i + k) then value j else get_bit a j)
unfolding init_map
init_map-bits zero i value a j h small = ground arith
init_map-bits (suc k) i value a j h small = ground (
  arith,
  init_map-bits k (i + 1) value (set_bit a i (value i)) j (set_bit-AreBytes a i (value i) h) small,
  get_bit-set_bit a i j (value i) h (small i),
)

pub init_map-AreBytes :
    (k i : ℕ) (value : ℕ → ℕ) (a : Bits) → AreBytes a → AreBytes (init_map k i value a)
unfolding init_map
init_map-AreBytes zero i value a h = h
init_map-AreBytes (suc k) i value a h =
    init_map-AreBytes k (i + 1) value (set_bit a i (value i)) (set_bit-AreBytes a i (value i) h)

-- A map whose first `u` bits are set, and no others.
abbrev pub Used : ℕ → Bits → Type 0
Used u a = (j : ℕ) → get_bit a j ≡ (if ltb j u then 1 else 0)

pub clear_count-Used : (n u : ℕ) (a : Bits) → Used u a → clear_count n a ≡ n - u
unfolding clear_count
clear_count-Used zero u a h = omega arith
clear_count-Used (suc n) u a h = ground (arith, clear_count-Used n u a h, h n)

-- The globals as the program starts: all bits are 0.
pub record IsZero (s : FileSystem) : Type 0 where
  pub inode_map : (i : ℕ) → s.inode_map i ≡ 0
  pub block_map : (i : ℕ) → s.block_map i ≡ 0

pub get_bit-zero : (a : Bits) (j : ℕ) → ((i : ℕ) → a i ≡ 0) → get_bit a j ≡ 0
unfolding get_bit
get_bit-zero a j h = rw (h (j / 8)) (ground arith)

abbrev pub used_bit : ℕ → ℕ
used_bit i = if ltb i meta_blocks then 1 else 0

pub used_bit_small : (i : ℕ) → used_bit i < 2
used_bit_small i = ground arith

pub zero-AreBytes : (a : Bits) → ((i : ℕ) → a i ≡ 0) → AreBytes a
zero-AreBytes a h i = omega (arith, h i)

-- The first inode is taken.
pub root_inode :
    (t : FileSystem)
    → AreCounted t
    → Used 0 t.inode_map
    → t.free_inode_count ≡ max_inode
    → (s₁ : FileSystem) × (get_inode t ≡ (some 0, s₁))
      × AreCounted s₁
      × (s₁.free_inode_count ≡ 511)
      × Used 1 s₁.inode_map
      × (s₁ ≡ record t { inode_map = s₁.inode_map; free_inode_count = s₁.free_inode_count })
root_inode t c used count = elim (get_inode_lem t c) [
  | inl (_, none_free, _) ↦ absurd (omega arith)
  | inr (i, s₁, e, taken, same, c₁) ↦
      let (_, _, clear, before) = taken.first in
      let i_is : i ≡ 0 = ground (arith, before 0, used 0) in
      (
        s₁,
        e ∙ ap (λ k. (some k, s₁)) i_is,
        c₁,
        omega (arith, taken.fewer),
        λ j. ground (arith, taken.marked j, used j, i_is),
        same,
      )
]

-- The first block behind the meta data is taken.
pub root_block :
    (t : FileSystem)
    → AreCounted t
    → Used meta_blocks t.block_map
    → t.free_block_count ≡ 3965
    → (s₂ : FileSystem) × (get_block t ≡ (some meta_blocks, s₂))
      × AreCounted s₂
      × (s₂.free_block_count ≡ 3964)
      × Used (meta_blocks + 1) s₂.block_map
      × (s₂ ≡ record t { block_map = s₂.block_map; free_block_count = s₂.free_block_count })
root_block t c used count = elim (get_block_lem t c) [
  | inl (_, none_free, _) ↦ absurd (omega arith)
  | inr (b, s₂, e, taken, same, c₂) ↦
      let (_, _, clear, before) = taken.first in
      let b_is : b ≡ meta_blocks =
        ground (arith, before meta_blocks, used meta_blocks, used b, clear) in
      (
        s₂,
        e ∙ ap (λ k. (some k, s₂)) b_is,
        c₂,
        omega (arith, taken.fewer),
        λ j. ground (arith, taken.marked j, used j, b_is),
        same,
      )
]
