-- ===== src/Fs/File/Content.antt =====
-- `file_cat` of p4/file.c prints what the blocks of a file hold.
use csci4730_operating_syste.Base.{
  ℕ, ◌+◌, ◌-◌, ◌*◌, ◌≤◌, ◌<◌, ◌≡◌, true, false, arith, lt→ltb, less, Bool-cases, inl, inr, ◌∙◌, ap,
}
use csci4730_operating_syste.Fs.Bitmap.{update}
use csci4730_operating_syste.Fs.State.{Inode, Block, bytes, FileSystem}
use csci4730_operating_syste.Fs.State
use csci4730_operating_syste.Fs.Access.{Junk, as_bytes, as_map, read_disk_block}
use csci4730_operating_syste.Fs.File.{
  block_size, direct_size, num_block, part, direct_rounds, indirect_rounds, read_blocks, content,
}
use csci4730_operating_syste.Fs.File.Store.{Holds}
use csci4730_operating_syste.Fs.File.Data.{Refers}
use csci4730_operating_syste.Fs.File.Read.{copied, read_blocks-copied}

pub num_block-bounds :
    (size : ℕ)
    → (size ≤ num_block size * block_size) × (num_block size * block_size < size + block_size)
unfolding num_block
num_block-bounds size = (ground arith, ground arith)

pub small_size : (size : ℕ) → size ≤ 73216 → less direct_size size ≡ false → size ≤ direct_size
small_size size le h = ground arith

pub large_size : (size : ℕ) → size ≤ 73216 → less direct_size size ≡ true → direct_size < size
large_size size le h = ground arith

pub read_disk_block-Holds :
    (s : FileSystem) (b : ℕ) (buf junk : Block) → Holds s b buf → read_disk_block b junk s ≡ buf
unfolding read_disk_block
read_disk_block-Holds s b buf junk h = rw (lt→ltb _ _ h.inside) h.holds

module _ (junk : Junk) (tmp : ℕ → ℕ) (inode : Inode) (s : FileSystem) where
  abbrev size : ℕ
  size = inode.size

  read_part :
      (b i : ℕ)
      → Holds s b (part tmp i)
      → as_bytes junk (read_disk_block b (bytes junk.bytes) s) ≡ (λ k. tmp (i * block_size + k))
  read_part b i h = ap (as_bytes junk) (read_disk_block-Holds s b (part tmp i) (bytes junk.bytes) h)

  abbrev start : ℕ → ℕ
  start = update junk.bytes size 0

  -- All bytes of the file, and the final 0.
  abbrev pub Printed : (ℕ → ℕ) → Type 0
  Printed str = ((x : ℕ) → x < size → str x ≡ tmp x) × (str size ≡ 0)

  Printed-copied :
      (str : ℕ → ℕ) (end : ℕ)
      → size ≤ end * block_size
      → ((x : ℕ) → str x ≡ copied start tmp 0 end size x)
      → Printed str
  Printed-copied str end le h = (λ x lt. ground (arith, h x), ground (arith, h size))

  copied_twice :
      (str : ℕ → ℕ) (half end x : ℕ)
      → half ≡ 15
      → 15 ≤ end
      → str x ≡ copied start tmp 0 half size x
      → copied str tmp 15 end size x ≡ copied start tmp 0 end size x
  copied_twice str half end x e le h = ground (arith, h)

  abbrev first : (ℕ → ℕ) × ℕ
  first = read_blocks junk (direct_rounds (num_block size)) 0 0 inode.direct_block s (start, size)

  module _ (r : Refers tmp (num_block size) inode s) where
    first-copied :
        ((x : ℕ) → first.0 x ≡ copied start tmp 0 (direct_rounds (num_block size)) size x)
        × (direct_rounds (num_block size) * block_size ≤ size
            → first.1 + direct_rounds (num_block size) * block_size ≡ size)
    first-copied =
        let (low, high) = num_block-bounds size in
        read_blocks-copied junk s tmp size 0 inode.direct_block (direct_rounds (num_block size)) 0
          (direct_rounds (num_block size)) start size (omega arith)
          (λ m low' lt.
            read_part (inode.direct_block (m - 0)) m (r.direct m (omega arith) (omega arith)))
          (omega arith) (omega arith)

    pub content-Printed : size ≤ 73216 → Printed (content junk inode s)
    unfolding content
    content-Printed le =
        let (low, high) = num_block-bounds size in
        let (bytes_of, left_of) = first-copied in
        elim (Bool-cases (less direct_size size)) [
          | inr small ↦
              let few : size ≤ direct_size = small_size size le small in
              rw small
                (Printed-copied first.0 (direct_rounds (num_block size)) (omega arith) bytes_of)
          | inl large ↦
              let more : direct_size < size = large_size size le large in
              let (m, map_block, stored) = r.indirect (omega arith) in
              let read_map = ap (as_map junk) (
                read_disk_block-Holds s inode.indirect_block (State.Block.map m)
                  (State.Block.map junk.map) map_block) in
              let rest =
                read_blocks-copied junk s tmp size 15 m (indirect_rounds (num_block size)) 15
                  (num_block size) first.0 first.1 (omega arith)
                  (λ k low' lt. read_part (m (k - 15)) k (stored k low' lt)) high
                  (omega (arith, left_of (omega arith))) in
              rw (large, read_map)
                (Printed-copied
                  (read_blocks junk (indirect_rounds (num_block size)) 15 15 m s first).0
                  (num_block size) low
                  λ x.
                    rest.0 x
                    ∙ copied_twice first.0 (direct_rounds (num_block size)) (num_block size) x
                        (omega arith) (omega arith) (bytes_of x))
        ]
