-- ===== src/Fs/File/Read.antt =====
-- The loop of `file_cat` in p4/file.c puts the blocks of a file together.
use csci4730_operating_syste.Base.{
  ℕ, zero, suc, ◌+◌, ◌-◌, ◌*◌, ◌≤◌, ◌<◌, ◌≡◌, refl, ◌&&◌, arith, ltb, leb, if◌then◌else◌,
  Bool-cases, ◌⊎◌, inl, inr, ◌∙◌, ap,
}
use csci4730_operating_syste.Fs.State.{bytes, FileSystem}
use csci4730_operating_syste.Fs.Access.{Junk, as_bytes, read_disk_block}
use csci4730_operating_syste.Fs.File.{block_size, memcpy, read_blocks}

-- Byte `x` when the blocks from `i` to `end` of a file `tmp` of `size` bytes have been copied.
abbrev pub copied : (str tmp : ℕ → ℕ) → (i end size x : ℕ) → ℕ
copied str tmp i end size x =
    if leb (i * block_size) x && (ltb x (end * block_size) && ltb x size) then tmp x else str x

module _ (junk : Junk) (s : FileSystem) (tmp : ℕ → ℕ) (size base : ℕ) (blocks : ℕ → ℕ) where
  -- The blocks from `i` to `end` hold the file.
  abbrev pub Hold : (i end : ℕ) → Type 0
  Hold i end =
      (m : ℕ)
      → i ≤ m
      → m < end
      → as_bytes junk (read_disk_block (blocks (m - base)) (bytes junk.bytes) s)
        ≡ (λ k. tmp (m * block_size + k))

  abbrev read_block : ℕ → ℕ → ℕ
  read_block i = as_bytes junk (read_disk_block (blocks (i - base)) (bytes junk.bytes) s)

  copied_none : (str : ℕ → ℕ) (i end x : ℕ) → end ≤ i → str x ≡ copied str tmp i end size x
  copied_none str i end x le = ground arith

  copied_round :
      (str : ℕ → ℕ) (i end n x : ℕ)
      → read_block i ≡ (λ k. tmp (i * block_size + k))
      → i < end
      → ((n ≡ block_size) × (i * block_size + n ≤ size))
        ⊎ ((i + 1 ≡ end) × (i * block_size + n ≡ size) × (n ≤ block_size))
      → copied (memcpy junk str (i * block_size) (read_block i) n) tmp (i + 1) end size x
        ≡ copied str tmp i end size x
  unfolding memcpy
  copied_round str i end n x hold lt cases =
      let here : i * block_size ≤ x → read_block i (x - i * block_size) ≡ tmp x =
        λ le. ap (λ (f : ℕ → ℕ). f (x - i * block_size)) hold ∙ ap tmp (omega (arith, le)) in
      ground (arith, here, cases)

  pub read_blocks-copied :
      (k i end : ℕ) (str : ℕ → ℕ) (left : ℕ)
      → i + k ≡ end
      → Hold i end
      → end * block_size < size + block_size
      → left + i * block_size ≡ size
      → ((x : ℕ)
          → (read_blocks junk k i base blocks s (str, left)).0 x ≡ copied str tmp i end size x)
        × (end * block_size ≤ size
            → (read_blocks junk k i base blocks s (str, left)).1 + end * block_size ≡ size)
  unfolding read_blocks
  read_blocks-copied zero i end str left e hold room done = (λ x. ground arith, λ le. omega arith)
  read_blocks-copied (suc k) i end str left e hold room done =
      let here : read_block i ≡ (λ k. tmp (i * block_size + k)) =
        hold i (omega arith) (omega arith) in
      elim (Bool-cases (leb block_size left)) [
        | inl full ↦
            let le : block_size ≤ left = ground arith in
            let (bytes_of, left_of) =
              read_blocks-copied k (i + 1) end
                (memcpy junk str (i * block_size) (read_block i) block_size) (left - block_size)
                (omega arith) (λ m low high. hold m (omega arith) high) room (omega arith) in
            rw (read_blocks, full)
              (
                λ x.
                    bytes_of x
                    ∙ copied_round str i end block_size x here (omega arith)
                        (inl (refl, omega arith)),
                left_of,
              )
        | inr partial ↦
            let lt : left < block_size = ground arith in
            let last : k ≡ 0 = omega arith in
            rw (last, read_blocks, partial)
              (
                λ x.
                    copied_none (memcpy junk str (i * block_size) (read_block i) left) (i + 1) end x
                      (omega arith)
                    ∙ copied_round str i end left x here (omega arith)
                        (inr (omega arith, omega arith, omega arith)),
                λ le. absurd (omega arith),
              )
      ]
