-- ===== src/Fs/Directory/Make.antt =====
-- `dir_make` and `dir_change` of p4/directory.c where they do not do what they mean to.
use csci4730_operating_syste.Base.{ℕ, ◌+◌, ◌<◌, ◌≡◌, refl, false, some, List, arith, inl, inr}
use csci4730_operating_syste.Fs.Bitmap.{get_bit}
use csci4730_operating_syste.Fs.State.{folder, FileSystem}
use csci4730_operating_syste.Fs.Alloc.Laws.{AreCounted, get_block_lem}
use csci4730_operating_syste.Fs.Access.{
  Junk, done, failed, already_exists, same_string, search_cur_dir, write_disk_block,
}
use csci4730_operating_syste.Fs.Directory.{
  change_found, dot, dot_dot, make_checked, dir_make, enter, change_found, dir_change,
}

module _ (junk : Junk) where
  -- `mkdir` with a name that exists fails and loses a block: if the counts are right and a block is
  -- free, a free block is marked as used, the count of free blocks is one less, and nothing else
  -- changes, so that no inode has been given the block.
  pub dir_make-already_exists :
      (name : List ℕ) (s : FileSystem) {i : ℕ}
      → AreCounted s
      → search_cur_dir name s ≡ some i
      → 0 < s.free_block_count
      → (b : ℕ) × (s' : FileSystem) × (dir_make junk name s ≡ (failed already_exists, s'))
        × (get_bit s.block_map b ≡ 0)
        × (get_bit s'.block_map b ≡ 1)
        × (s'.free_block_count + 1 ≡ s.free_block_count)
        × (s' ≡ record s { block_map = s'.block_map; free_block_count = s'.free_block_count })
  unfolding dir_make make_checked
  dir_make-already_exists name s c found free = elim (get_block_lem s c) [
    | inl (_, none_free, _) ↦ absurd (omega arith)
    | inr (b, s', e, taken, same, _) ↦
        let (_, _, clear, _) = taken.first in
        (b, s', rw (found, e), clear, ground (arith, taken.marked b), taken.fewer, same)
  ]

  -- If `curDirInode` is 131 and the first block of inode 131 is 0, `cd` to a name of the current
  -- directory other than "." and ".." overwrites block 0, the superblock of the disk, with the
  -- current directory, leaves block 131 as it was, enters the inode of the name, and succeeds.
  pub dir_change-superblock :
      (name : List ℕ) (s : FileSystem) {i : ℕ}
      → same_string name dot ≡ false
      → same_string name dot_dot ≡ false
      → search_cur_dir name s ≡ some i
      → s.cur_dir_inode ≡ 131
      → (s.inodes 131).direct_block 0 ≡ 0
      → ((dir_change junk name s).1.disk 0 ≡ folder s.cur_dir)
        × ((dir_change junk name s).1.disk 131 ≡ s.disk 131)
        × ((dir_change junk name s).1.cur_dir_inode ≡ i)
        × ((dir_change junk name s).0 ≡ done)
  unfolding dir_change change_found enter write_disk_block
  dir_change-superblock name s not_dot not_dot_dot found root unused =
      rw (not_dot, not_dot_dot, found, root, unused) (refl, refl, refl, refl)
