-- ===== src/Fs/File/Create.antt =====
-- p4/file.c: the tests of `file_create` on the superblock, and what it stores.
use csci4730_operating_syste.Base.{
  ℕ, ◌+◌, ◌≤◌, ◌≡◌, refl, false, some, List, arith, ltb, if◌then◌else◌, less, Bool-cases, inl, inr,
}
use csci4730_operating_syste.Fs.Bitmap.Count.{clear_count-le}
use csci4730_operating_syste.Fs.State.{Inode, Block, FileSystem, max_block}
use csci4730_operating_syste.Fs.Alloc.Laws.{AreCounted}
use csci4730_operating_syste.Fs.Access.{Junk, printed, search_cur_dir, read_inode, write_inode}
use csci4730_operating_syste.Fs.Directory.{is_directory}
use csci4730_operating_syste.Fs.File.{
  direct_size, num_block, lacks_blocks, new_file, content, cat_found, file_cat,
}
use csci4730_operating_syste.Fs.File.Store.{Holds}
use csci4730_operating_syste.Fs.File.Data.{Refers, Stores, store_small, store_large}
use csci4730_operating_syste.Fs.File.Content.{num_block-bounds, small_size, large_size}

-- The blocks that a file takes, with the indirect block.
abbrev pub needed : ℕ → ℕ
needed size = num_block size + (if ltb 15 (num_block size) then 1 else 0)

pub enough_blocks :
    (junk : Junk) (size : ℕ) (s : FileSystem)
    → AreCounted s
    → size ≤ 73216
    → needed size ≤ s.free_block_count
    → lacks_blocks junk size s ≡ false
unfolding lacks_blocks
enough_blocks junk size s c le enough =
    let most : s.free_block_count ≤ max_block =
      omega (arith, c.blocks.counted, clear_count-le max_block s.block_map) in
    let (low, high) = num_block-bounds size in
    elim (Bool-cases (less direct_size size)) [
      | inr small ↦ let few = small_size size le small in rw small (ground arith)
      | inl large ↦ let more = large_size size le large in rw large (ground arith)
    ]

Holds-write :
    {s : FileSystem} (i : ℕ) (new : Inode) {b : ℕ} {buf : Block}
    → Holds s b buf
    → Holds (write_inode i new s) b buf
unfolding write_inode
Holds-write i new h = record { inside = h.inside; in_use = h.in_use; holds = h.holds }

pub Refers-write :
    (tmp : ℕ → ℕ) (n i : ℕ) (inode new : Inode) (s : FileSystem)
    → Refers tmp n inode s
    → Refers tmp n inode (write_inode i new s)
Refers-write tmp n i inode new s r = record {
  direct = λ k lt low. Holds-write i new (r.direct k lt low);
  indirect = λ more.
      let (m, h, hs) = r.indirect more in
      (m, Holds-write i new h, λ k low lt. Holds-write i new (hs k low lt));
}

module _ (junk : Junk) where
  pub file_cat_lem :
      (name : List ℕ) (i : ℕ) (inode : Inode) (t : FileSystem)
      → search_cur_dir name t ≡ some i
      → t.inodes i ≡ inode
      → is_directory junk inode ≡ false
      → file_cat junk name t ≡ (printed (content junk inode t) inode.size, t)
  unfolding file_cat cat_found read_inode
  file_cat_lem name i inode t found e is_file = rw (found, e, is_file) refl

  pub stored :
      (size : ℕ) (tmp : ℕ → ℕ) (s : FileSystem)
      → AreCounted s
      → size ≤ 73216
      → needed size ≤ s.free_block_count
      → Stores junk tmp (num_block size) (new_file junk size) s
  unfolding new_file
  stored size tmp s c le enough =
      let (low, high) = num_block-bounds size in
      elim (Bool-cases (less direct_size size)) [
        | inr small ↦
            let few = small_size size le small in
            store_small junk tmp (num_block size) (new_file junk size) s c small (omega arith)
              (ground arith)
        | inl large ↦
            let more = large_size size le large in
            store_large junk tmp (num_block size) (new_file junk size) s c large (omega arith)
              (ground arith)
      ]
