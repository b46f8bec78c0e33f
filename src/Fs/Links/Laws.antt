-- ===== src/Fs/Links/Laws.antt =====
-- p4/file.c: removing a hard link that was just made.
use csci4730_operating_syste.Base.{
  ℕ, ◌+◌, ◌<◌, ◌≡◌, refl, ◌≢◌, false, none, some, List, arith, ◌==◌, less, increment, decrement, ap,
  ◌∙◌,
}
use csci4730_operating_syste.Fs.Bitmap.{update}
use csci4730_operating_syste.Fs.State.{Inode, FileSystem, max_dir_entry}
use csci4730_operating_syste.Fs.Access.{
  Junk, done, search_cur_dir, write_inode, add_entry, remove_entry,
}
use csci4730_operating_syste.Fs.Access.Search.{remove_entry_lem}
use csci4730_operating_syste.Fs.Access.Added.{added-IsEntry, search_added}
use csci4730_operating_syste.Fs.Directory.{is_directory}
use csci4730_operating_syste.Fs.Links.{
  link_source, link_found, hard_link, remove_found, file_remove,
}

-- `file_remove` of a file that has another link.
file_remove-link :
    (junk : Junk) (name : List ℕ) (t : FileSystem) (i : ℕ)
    → search_cur_dir name t ≡ some i
    → is_directory junk (t.inodes i) ≡ false
    → t.cur_dir.num_entry ≢ 0
    → (t.inodes i).link_count ≢ 1
    → file_remove junk name t
      ≡ some (
        done,
        write_inode i
            (record (t.inodes i) { link_count = decrement (t.inodes i).link_count })
            (remove_entry name t),
      )
unfolding file_remove remove_found
file_remove-link junk name t i found is_file entries more =
    let no_entry : (t.cur_dir.num_entry == 0) ≡ false = ground arith in
    let last_link : ((t.inodes i).link_count == 1) ≡ false = ground arith in
    rw (found, is_file, no_entry, last_link) refl

overwritten : (f : ℕ → Inode) (i k : ℕ) (x y : Inode) → y ≡ f i → update (update f i x) i y k ≡ f k
overwritten f i k x y e = ground (arith, e)

module _ (junk : Junk) (src dest : List ℕ) (s : FileSystem) (i : ℕ) where
  abbrev links : ℕ
  links = (s.inodes i).link_count

  abbrev linked : FileSystem
  linked = write_inode i (record (s.inodes i) { link_count = increment links }) s

  abbrev after : FileSystem
  after = add_entry dest i linked

  -- The state when the link has been removed again.
  abbrev restored : FileSystem
  restored =
      write_inode i (record (after.inodes i) { link_count = decrement (increment links) })
        (remove_entry dest after)

  link_source_lem :
      is_directory junk (s.inodes i) ≡ false
      → s.cur_dir.num_entry < max_dir_entry
      → less s.free_block_count (s.inodes i).block_count ≡ false
      → less s.free_inode_count 1 ≡ false
      → link_source junk i dest s ≡ (done, add_entry dest i linked)
  unfolding link_source
  link_source_lem is_file room blocks inodes = rw (is_file, blocks, inodes) (ground arith)

  linked_inode : after.inodes i ≡ record (s.inodes i) { link_count = increment links }
  unfolding add_entry write_inode
  linked_inode = ground arith

  file_type :
      is_directory junk (s.inodes i) ≡ false
      → is_directory junk (record (s.inodes i) { link_count = increment links }) ≡ false
  unfolding is_directory
  file_type h = h

  file_remove-linked :
      search_cur_dir dest s ≡ none
      → is_directory junk (s.inodes i) ≡ false
      → 0 < links
      → links < 0xffff_ffff
      → file_remove junk dest after ≡ some (done, restored)
  unfolding add_entry write_inode
  file_remove-linked absent is_file some_link few =
      let found = search_added dest i s linked absent refl in
      let e = linked_inode in
      let still_file : is_directory junk (after.inodes i) ≡ false = rw e (file_type is_file) in
      let count : (after.inodes i).link_count ≡ increment links =
        ap (λ (n : Inode). n.link_count) e in
      file_remove-link junk dest after i found still_file (omega arith) (omega (arith, count))
      ∙ rw count refl

  unchanged_inode :
      links < 0xffff_ffff
      → record (after.inodes i) { link_count = decrement (increment links) } ≡ s.inodes i
  unchanged_inode few =
      let e : decrement (increment links) ≡ links = omega arith in
      ap (λ (n : Inode). record n { link_count = decrement (increment links) }) linked_inode
      ∙ ap (λ c. record (s.inodes i) { link_count = c }) e

  restored_inodes : links < 0xffff_ffff → (k : ℕ) → restored.inodes k ≡ s.inodes k
  unfolding write_inode remove_entry add_entry
  restored_inodes few k = overwritten s.inodes i k _ _ (unchanged_inode few)

  restored_rest : restored ≡ record s { cur_dir = restored.cur_dir; inodes = restored.inodes }
  unfolding write_inode remove_entry add_entry
  restored_rest = refl

  -- If the source is a file, the other name is new, the tests on the superblock pass and the link
  -- count is neither 0 nor at its limit, `ln` succeeds, raises the link count by one, and the new
  -- name finds the inode of the source. If `rm` then removes the new name, it succeeds, the
  -- inodes and the entries are as they were before, and nothing else has changed: no block of the
  -- file has been given back.
  pub file_remove-hard_link :
      search_cur_dir src s ≡ some i
      → search_cur_dir dest s ≡ none
      → is_directory junk (s.inodes i) ≡ false
      → s.cur_dir.num_entry < max_dir_entry
      → less s.free_block_count (s.inodes i).block_count ≡ false
      → less s.free_inode_count 1 ≡ false
      → 0 < links
      → links < 0xffff_ffff
      → (s₁ : FileSystem) × (s₂ : FileSystem) × (hard_link junk src dest s ≡ (done, s₁))
        × (search_cur_dir dest s₁ ≡ some i)
        × ((s₁.inodes i).link_count ≡ links + 1)
        × (file_remove junk dest s₁ ≡ some (done, s₂))
        × (s₂.cur_dir.num_entry ≡ s.cur_dir.num_entry)
        × ((m : ℕ) → m < s.cur_dir.num_entry → s₂.cur_dir.dentry m ≡ s.cur_dir.dentry m)
        × ((k : ℕ) → s₂.inodes k ≡ s.inodes k)
        × (s₂ ≡ record s { cur_dir = s₂.cur_dir; inodes = s₂.inodes })
  unfolding hard_link link_found write_inode add_entry
  file_remove-hard_link found absent is_file room blocks inodes some_link few =
      let is = added-IsEntry dest i s linked absent refl in
      let (count, front, _, _) = remove_entry_lem dest after s.cur_dir.num_entry is in
      (
        after,
        restored,
        rw (found, absent) (link_source_lem is_file room blocks inodes),
        search_added dest i s linked absent refl,
        ap (λ (n : Inode). n.link_count) linked_inode ∙ omega arith,
        file_remove-linked absent is_file some_link few,
        omega (arith, count),
        λ m lt. ground (arith, front m lt),
        restored_inodes few,
        restored_rest,
      )
