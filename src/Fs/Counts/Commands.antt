-- ===== src/Fs/Counts/Commands.antt =====
-- The commands of p4 keep the counts of free inodes and blocks right, on every branch.
use csci4730_operating_syste.Fs.Counts.{
  Keeps, Keeps-if, get_inode-Keeps, get_block-Keeps, add_entry-Keeps, write_inode-Keeps,
  write_disk_block-Keeps, store_data-Keeps, create_entry-Keeps,
}
use csci4730_operating_syste.Base.{
  ℕ, ◌+◌, Option, none, some, List, ltb, if◌then◌else◌, less, increment, ◌||◌, ◌&&◌,
}
use csci4730_operating_syste.Fs.State.{Inode, folder, FileSystem, max_dir_entry}
use csci4730_operating_syste.Fs.Alloc.{get_inode, get_block}
use csci4730_operating_syste.Fs.Alloc.Laws.{AreCounted}
use csci4730_operating_syste.Fs.Access.{
  Junk, Outcome, same_string, done, failed, bad_size, directory_full, inodes_full, blocks_full,
  is_a_directory, search_cur_dir, write_inode, add_entry,
}
use csci4730_operating_syste.Fs.Directory.{
  is_directory, change_found, int_of, new_directory, dot, dot_dot, make_entry, make_checked,
  dir_make, enter, dir_change,
}
use csci4730_operating_syste.Fs.File.{
  direct_size, num_block, lacks_blocks, store_data, create_entry, create_checked, file_create,
}
use csci4730_operating_syste.Fs.Links.{
  source_block, source_indirect, copy_inode, link_source, link_found, hard_link, write_copied,
  copy_entry, copy_found, file_copy,
}

module _ (junk : Junk) where
  create_checked-Keeps :
      (name : List ℕ) (size : ℕ) (tmp : ℕ → ℕ) (found : Option ℕ) (s : FileSystem)
      → AreCounted s
      → Keeps (create_checked junk name size tmp found s)
  unfolding create_checked
  create_checked-Keeps name size tmp (some i) s c = c
  create_checked-Keeps name size tmp none s c =
      let go = create_entry junk name size tmp (get_inode s) in
      let third = if lacks_blocks junk size s then (failed blocks_full, s) else go in
      let second = if less s.free_inode_count 1 then (failed inodes_full, s) else third in
      Keeps-if (ltb max_dir_entry (s.cur_dir.num_entry + 1)) (failed directory_full, s) second c
        (Keeps-if (less s.free_inode_count 1) (failed inodes_full, s) third c
          (Keeps-if (lacks_blocks junk size s) (failed blocks_full, s) go c
            (create_entry-Keeps junk name size tmp (get_inode s) (get_inode-Keeps s c))))

  file_create-Keeps :
      (name : List ℕ) (size : ℕ) (tmp : ℕ → ℕ) (s : FileSystem)
      → AreCounted s
      → Keeps (file_create junk name size tmp s)
  unfolding file_create
  file_create-Keeps name size tmp s c =
      Keeps-if (less size 1 || less 73216 size) (failed bad_size, s)
        (create_checked junk name size tmp (search_cur_dir name s) s) c
        (create_checked-Keeps name size tmp (search_cur_dir name s) s c)

  write_copied-Keeps :
      (dest : List ℕ) (i : ℕ) (r : Option Inode × FileSystem)
      → Keeps r
      → Keeps (write_copied junk dest i r)
  unfolding write_copied
  write_copied-Keeps dest i (none, s) c = c
  write_copied-Keeps dest i (some inode, s) c =
      write_inode-Keeps i inode (add_entry dest i s) (add_entry-Keeps dest i s c)

  copy_entry-Keeps :
      (src : Inode) (dest : List ℕ) (r : Option ℕ × FileSystem)
      → Keeps r
      → Keeps (copy_entry junk src dest r)
  unfolding copy_entry
  copy_entry-Keeps src dest (none, s) c = c
  copy_entry-Keeps src dest (some i, s) c =
      let n = num_block src.size in
      write_copied-Keeps dest i
        (store_data junk n (source_block junk src) (source_indirect junk src) (copy_inode junk src)
          s)
        (store_data-Keeps junk n (source_block junk src) (source_indirect junk src)
          (copy_inode junk src) s c)

  copy_found-Keeps :
      (found found' : Option ℕ) (dest : List ℕ) (s : FileSystem)
      → AreCounted s
      → Keeps (copy_found junk found found' dest s)
  unfolding copy_found
  copy_found-Keeps none found' dest s c = c
  copy_found-Keeps (some i) (some j) dest s c = c
  copy_found-Keeps (some i) none dest s c =
      let inode = s.inodes i in
      let n = num_block inode.size in
      let lacks =
        (less direct_size inode.size && less s.free_block_count (n + 1))
        || less s.free_block_count n in
      let go = copy_entry junk inode dest (get_inode s) in
      let third = if lacks then (failed blocks_full, s) else go in
      let second = if less s.free_inode_count 1 then (failed inodes_full, s) else third in
      Keeps-if (ltb max_dir_entry (s.cur_dir.num_entry + 1)) (failed directory_full, s) second c
        (Keeps-if (less s.free_inode_count 1) (failed inodes_full, s) third c
          (Keeps-if lacks (failed blocks_full, s) go c
            (copy_entry-Keeps inode dest (get_inode s) (get_inode-Keeps s c))))

  link_source-Keeps :
      (i : ℕ) (dest : List ℕ) (s : FileSystem) → AreCounted s → Keeps (link_source junk i dest s)
  unfolding link_source
  link_source-Keeps i dest s c =
      let inode = s.inodes i in
      let s' = write_inode i (record inode { link_count = increment inode.link_count }) s in
      let go : Outcome × FileSystem = (done, add_entry dest i s') in
      let fourth = if less s.free_inode_count 1 then (failed inodes_full, s) else go in
      let third =
        if less s.free_block_count inode.block_count then (failed blocks_full, s) else fourth in
      let second =
        if ltb max_dir_entry (s.cur_dir.num_entry + 1) then (failed directory_full, s) else third in
      Keeps-if (is_directory junk inode) (failed is_a_directory, s) second c
        (Keeps-if (ltb max_dir_entry (s.cur_dir.num_entry + 1)) (failed directory_full, s) third c
          (Keeps-if (less s.free_block_count inode.block_count) (failed blocks_full, s) fourth c
            (Keeps-if (less s.free_inode_count 1) (failed inodes_full, s) go c
              (add_entry-Keeps dest i s' (write_inode-Keeps i _ s c)))))

  link_found-Keeps :
      (found found' : Option ℕ) (dest : List ℕ) (s : FileSystem)
      → AreCounted s
      → Keeps (link_found junk found found' dest s)
  unfolding link_found
  link_found-Keeps none found' dest s c = c
  link_found-Keeps (some i) (some j) dest s c = c
  link_found-Keeps (some i) none dest s c = link_source-Keeps i dest s c

  make_entry-Keeps :
      (name : List ℕ) (block : ℕ) (r : Option ℕ × FileSystem)
      → Keeps r
      → Keeps (make_entry junk name block r)
  unfolding make_entry
  make_entry-Keeps name block (none, s) c = c
  make_entry-Keeps name block (some i, s) c = write_disk_block-Keeps _ _ _ (
      write_disk_block-Keeps block _ _
        (add_entry-Keeps name i _ (write_inode-Keeps i (new_directory junk block) s c)))

  make_checked-Keeps :
      (name : List ℕ) (found : Option ℕ) (r : Option ℕ × FileSystem)
      → Keeps r
      → Keeps (make_checked junk name found r)
  unfolding make_checked
  make_checked-Keeps name (some i) (block, s) c = c
  make_checked-Keeps name none (block, s) c =
      let go = make_entry junk name (int_of block) (get_inode s) in
      let second = if less s.free_inode_count 1 then (failed inodes_full, s) else go in
      Keeps-if (ltb max_dir_entry (s.cur_dir.num_entry + 1)) (failed directory_full, s) second c
        (Keeps-if (less s.free_inode_count 1) (failed inodes_full, s) go c
          (make_entry-Keeps name (int_of block) (get_inode s) (get_inode-Keeps s c)))

  enter-Keeps : (i : ℕ) (s : FileSystem) → AreCounted s → Keeps (enter junk i s)
  unfolding enter
  enter-Keeps i s c =
      let c' =
        write_disk_block-Keeps ((s.inodes s.cur_dir_inode).direct_block 0) (folder s.cur_dir) s c in
      record { inodes = c'.inodes; blocks = c'.blocks }

  change_found-Keeps :
      (found : Option ℕ) (s : FileSystem) → AreCounted s → Keeps (change_found junk found s)
  unfolding change_found
  change_found-Keeps none s c = c
  change_found-Keeps (some i) s c = enter-Keeps i s c

  dir_change-Keeps :
      (name : List ℕ) (s : FileSystem) → AreCounted s → Keeps (dir_change junk name s)
  unfolding dir_change
  dir_change-Keeps name s c =
      let up = enter junk (s.cur_dir.dentry 1).inode s in
      let down = change_found junk (search_cur_dir name s) s in
      let second = if same_string name dot_dot then up else down in
      Keeps-if (same_string name dot) (done, s) second c
        (Keeps-if (same_string name dot_dot) up down (enter-Keeps (s.cur_dir.dentry 1).inode s c)
          (change_found-Keeps (search_cur_dir name s) s c))

  -- Whatever the names and the sizes, and whether they succeed or fail: if the counts of free inodes
  -- and blocks are right, they are right again behind `create`, `cp`, `ln`, `mkdir` and `cd`.
  pub commands-AreCounted :
      (name dest : List ℕ) (size : ℕ) (tmp : ℕ → ℕ) (s : FileSystem)
      → AreCounted s
      → AreCounted (file_create junk name size tmp s).1
        × AreCounted (file_copy junk name dest s).1
        × AreCounted (hard_link junk name dest s).1
        × AreCounted (dir_make junk name s).1
        × AreCounted (dir_change junk name s).1
  unfolding file_copy hard_link dir_make
  commands-AreCounted name dest size tmp s c = (
    file_create-Keeps name size tmp s c,
    copy_found-Keeps (search_cur_dir name s) (search_cur_dir dest s) dest s c,
    link_found-Keeps (search_cur_dir name s) (search_cur_dir dest s) dest s c,
    make_checked-Keeps name (search_cur_dir name s) (get_block s) (get_block-Keeps s c),
    dir_change-Keeps name s c,
  )
