-- ===== src/Fs/Links/Copy.antt =====
-- p4/file.c: the copy of a file holds what the file holds.
use csci4730_operating_syste.Base.{
  ℕ, ◌+◌, ◌-◌, ◌≤◌, ◌<◌, ◌≡◌, refl, false, ◌&&◌, ◌||◌, arith, less, Bool-cases, inl, inr, ap, List,
  some, none, ltb,
}
use mathlib.Core.Path.{subst}
use csci4730_operating_syste.Fs.Bitmap.Count.{clear_count-le}
use csci4730_operating_syste.Fs.State.{Inode, Block, bytes, FileSystem, max_dir_entry, max_block}
use csci4730_operating_syste.Fs.State
use csci4730_operating_syste.Fs.Alloc.Laws.{AreCounted}
use csci4730_operating_syste.Fs.Access.{Junk, as_map, search_cur_dir, done, write_inode, add_entry}
use csci4730_operating_syste.Fs.File.{direct_size, num_block, part, direct_rounds, store_data}
use csci4730_operating_syste.Fs.File.Store.{Holds, Holds-KeepsUsed, KeepsUsed}
use csci4730_operating_syste.Fs.File.Data.{Refers, Stores, store_small, store_large}
use csci4730_operating_syste.Fs.File.Content.{
  num_block-bounds, small_size, large_size, read_disk_block-Holds,
}
use csci4730_operating_syste.Fs.File.Create.{needed}
use csci4730_operating_syste.Fs.File.Same.{Gives, GivesRest, store_data-same}
use csci4730_operating_syste.Fs.Links.{
  source_block, source_indirect, copy_inode, file_copy, copy_found, copy_entry, write_copied,
  get_inode,
}

-- The tests of `file_copy` on the superblock pass.
pub enough_for_copy :
    (size : ℕ) (s : FileSystem)
    → AreCounted s
    → size ≤ 73216
    → needed size ≤ s.free_block_count
    → ((less direct_size size && less s.free_block_count (num_block size + 1))
        || less s.free_block_count (num_block size))
      ≡ false
enough_for_copy size s c le enough =
    let most : s.free_block_count ≤ max_block =
      omega (arith, c.blocks.counted, clear_count-le max_block s.block_map) in
    let (low, high) = num_block-bounds size in
    elim (Bool-cases (less direct_size size)) [
      | inl large ↦ let more = large_size size le large in rw large (ground arith)
      | inr small ↦ let few = small_size size le small in rw small (ground arith)
    ]

module _ (junk : Junk) (tmp : ℕ → ℕ) (n : ℕ) (src : Inode) (s : FileSystem)
    (r : Refers tmp n src s) where
  -- The blocks of the source, as long as they keep what they hold.
  source-Gives : Gives tmp (source_block junk src) 0 (direct_rounds n) s
  unfolding source_block
  source-Gives t keeps m low high =
      read_disk_block-Holds t (src.direct_block m) (part tmp m) (bytes junk.bytes) (
        subst (λ b. Holds t (src.direct_block b) (part tmp m)) (omega arith)
          (Holds-KeepsUsed keeps (r.direct m (omega arith) (omega arith))))

  source-GivesRest :
      15 < n → GivesRest junk tmp n (source_block junk src) (source_indirect junk src) s
  unfolding source_indirect
  source-GivesRest more t₀ keeps₀ t keeps m low high =
      let (map, in_map, stored) = r.indirect more in
      let read_map = ap (as_map junk) (
        read_disk_block-Holds t₀ src.indirect_block (State.Block.map map) (State.Block.map junk.map)
          (Holds-KeepsUsed keeps₀ in_map)) in
      rw read_map (
        read_disk_block-Holds t (map (m - 15)) (part tmp m) (bytes junk.bytes)
          (Holds-KeepsUsed keeps (Holds-KeepsUsed keeps₀ (stored m low high))))

module _ (junk : Junk) (tmp : ℕ → ℕ) (src : Inode) (s : FileSystem) where
  -- The copy is stored as if it were made from `tmp`.
  pub copy-Stores :
      AreCounted s
      → src.size ≤ 73216
      → needed src.size ≤ s.free_block_count
      → Stores junk tmp (num_block src.size) (copy_inode junk src) s
  unfolding copy_inode
  copy-Stores c le enough =
      let (low, high) = num_block-bounds src.size in
      elim (Bool-cases (less direct_size src.size)) [
        | inr small ↦
            let few = small_size src.size le small in
            store_small junk tmp (num_block src.size) (copy_inode junk src) s c small (omega arith)
              (ground arith)
        | inl large ↦
            let more = large_size src.size le large in
            store_large junk tmp (num_block src.size) (copy_inode junk src) s c large (omega arith)
              (ground arith)
      ]

  pub copy_data :
      AreCounted s
      → src.size ≤ 73216
      → needed src.size ≤ s.free_block_count
      → Refers tmp (num_block src.size) src s
      → store_data junk
          (num_block src.size)
          (source_block junk src)
          (source_indirect junk src)
          (copy_inode junk src)
          s
        ≡ store_data junk
            (num_block src.size)
            (λ k _. part tmp k)
            (λ _ k _. part tmp k)
            (copy_inode junk src)
            s
  unfolding copy_inode
  copy_data c le enough r =
      let n = num_block src.size in
      let (low, high) = num_block-bounds src.size in
      store_data-same junk tmp n (source_block junk src) (source_indirect junk src)
        (copy_inode junk src) s c (λ large. let more = large_size src.size le large in omega arith)
        enough (source-Gives junk tmp n src s r) (source-GivesRest junk tmp n src s r)

pub Refers-same :
    (tmp : ℕ → ℕ) (n : ℕ) (inode : Inode) (s t : FileSystem)
    → KeepsUsed s t
    → Refers tmp n inode s
    → Refers tmp n inode t
Refers-same tmp n inode s t keeps r = record {
  direct = λ k lt low. Holds-KeepsUsed keeps (r.direct k lt low);
  indirect = λ more.
      let (m, h, hs) = r.indirect more in
      (m, Holds-KeepsUsed keeps h, λ k low lt. Holds-KeepsUsed keeps (hs k low lt));
}

pub file_copy-stored :
    (junk : Junk) (src dest : List ℕ) (s : FileSystem) {j i : ℕ} {s₀ s₂ : FileSystem}
    {inode : Inode}
    → search_cur_dir src s ≡ some j
    → search_cur_dir dest s ≡ none
    → s.cur_dir.num_entry < max_dir_entry
    → less s.free_inode_count 1 ≡ false
    → ((less direct_size (s.inodes j).size
          && less s.free_block_count (num_block (s.inodes j).size + 1))
        || less s.free_block_count (num_block (s.inodes j).size))
      ≡ false
    → get_inode s ≡ (some i, s₀)
    → store_data junk
        (num_block (s.inodes j).size)
        (source_block junk (s.inodes j))
        (source_indirect junk (s.inodes j))
        (copy_inode junk (s.inodes j))
        s₀
      ≡ (some inode, s₂)
    → file_copy junk src dest s ≡ (done, write_inode i inode (add_entry dest i s₂))
unfolding file_copy copy_found copy_entry write_copied
file_copy-stored junk src dest s found absent room free enough got stored =
    let entry : ltb max_dir_entry (s.cur_dir.num_entry + 1) ≡ false = ground arith in
    rw (found, absent, entry, free, enough, got, stored) refl
