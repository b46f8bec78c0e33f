-- ===== src/Fs/Links.antt =====
-- p4/file.c: removing, linking and copying files.
pub mod Copied
pub mod Copy
pub mod Freed
pub mod Laws
use csci4730_operating_syste.Base.{
  ℕ, ◌+◌, ◌-◌, ◌&&◌, ◌||◌, Option, none, some, List, ltb, ◌==◌, if◌then◌else◌, less, increment,
  decrement,
}
use csci4730_operating_syste.Fs.State.{Inode, Block, bytes, FileSystem, max_dir_entry}
use csci4730_operating_syste.Fs.State
use csci4730_operating_syste.Fs.Alloc.{get_inode, free_inode, free_block}
use csci4730_operating_syste.Fs.Access.{
  Junk, Outcome, done, failed, already_exists, does_not_exist, directory_full, inodes_full,
  blocks_full, no_inode, no_block, is_a_directory, directory_empty, search_cur_dir, write_inode,
  read_disk_block, as_map, add_entry, remove_entry,
}
use csci4730_operating_syste.Fs.Directory.{is_directory, then_do, finished, free_blocks}
use csci4730_operating_syste.Fs.File.{
  direct_size, num_block, direct_rounds, indirect_rounds, store_data,
}

module _ (junk : Junk) where
  -- The blocks behind the indirect block, and the indirect block.
  unfoldable pub free_indirect : Inode → FileSystem → Option FileSystem
  free_indirect inode s =
      let blocks =
        as_map junk (read_disk_block inode.indirect_block (State.Block.map junk.map) s) in
      if less direct_size inode.size
      then then_do junk (free_blocks junk (indirect_rounds (num_block inode.size)) 0 blocks s)
          (free_block inode.indirect_block)
      else some s

  -- The last link goes: the blocks and the inode are given back.
  unfoldable pub free_file : ℕ → Inode → FileSystem → Option FileSystem
  unfolding free_indirect
  free_file i inode s =
      then_do junk
        (then_do junk
          (free_blocks junk (direct_rounds (num_block inode.size)) 0 inode.direct_block s)
          (free_indirect inode))
        (free_inode i)

  -- `file_remove`, when the name has been looked up. `none` is a fault: a block number outside the
  -- map.
  unfoldable pub remove_found : List ℕ → Option ℕ → FileSystem → Option (Outcome × FileSystem)
  unfolding free_file
  remove_found name none s = some (failed does_not_exist, s)
  remove_found name (some i) s =
      let inode = s.inodes i in
      let s' = remove_entry name s in
      if is_directory junk inode
      then some (failed is_a_directory, s)
      else if s.cur_dir.num_entry == 0
      then some (failed directory_empty, s)
      else if inode.link_count == 1
      then finished junk (free_file i inode s')
      else some (done, write_inode i (record inode { link_count = decrement inode.link_count }) s')

  unfoldable pub file_remove : List ℕ → FileSystem → Option (Outcome × FileSystem)
  unfolding remove_found
  file_remove name s = remove_found name (search_cur_dir name s) s

  -- `hard_link`, for a source that is there.
  unfoldable pub link_source : ℕ → List ℕ → FileSystem → Outcome × FileSystem
  link_source i dest s =
      let inode = s.inodes i in
      if is_directory junk inode
      then (failed is_a_directory, s)
      else if ltb max_dir_entry (s.cur_dir.num_entry + 1)
      then (failed directory_full, s)
      else if less s.free_block_count inode.block_count
      then (failed blocks_full, s)
      else if less s.free_inode_count 1
      then (failed inodes_full, s)
      else (
        done,
        add_entry dest i
            (write_inode i (record inode { link_count = increment inode.link_count }) s),
      )

  -- `hard_link`, when both names have been looked up.
  unfoldable pub link_found : Option ℕ → Option ℕ → List ℕ → FileSystem → Outcome × FileSystem
  unfolding link_source
  link_found none found dest s = (failed does_not_exist, s)
  link_found (some i) (some j) dest s = (failed already_exists, s)
  link_found (some i) none dest s = link_source i dest s

  unfoldable pub hard_link : (src dest : List ℕ) → FileSystem → Outcome × FileSystem
  unfolding link_found
  hard_link src dest s = link_found (search_cur_dir src s) (search_cur_dir dest s) dest s

  -- What `file_copy` copies into the block of index `k`: the block of the source, read before the
  -- write. The map of the source is read when the new indirect block has been taken.
  unfoldable pub source_block : Inode → ℕ → FileSystem → Block
  source_block inode k s = read_disk_block (inode.direct_block k) (bytes junk.bytes) s

  unfoldable pub source_indirect : Inode → FileSystem → ℕ → FileSystem → Block
  source_indirect inode s₀ k s =
      let blocks =
        as_map junk (read_disk_block inode.indirect_block (State.Block.map junk.map) s₀) in
      read_disk_block (blocks (k - 15)) (bytes junk.bytes) s

  unfoldable pub copy_inode : Inode → Inode
  copy_inode src = record (junk.inode) {
    type = src.type;
    size = src.size;
    block_count = src.block_count;
    link_count = 1;
  }

  unfoldable pub write_copied : List ℕ → ℕ → Option Inode × FileSystem → Outcome × FileSystem
  write_copied dest i (none, s) = (failed no_block, s)
  write_copied dest i (some inode, s) = (done, write_inode i inode (add_entry dest i s))

  -- `file_copy`, from the inode on: the entry is made behind the blocks.
  unfoldable pub copy_entry : Inode → List ℕ → Option ℕ × FileSystem → Outcome × FileSystem
  unfolding source_block source_indirect copy_inode write_copied
  copy_entry src dest (none, s) = (failed no_inode, s)
  copy_entry src dest (some i, s) = write_copied dest i (
      store_data junk (num_block src.size) (source_block src) (source_indirect src) (copy_inode src)
        s)

  -- `file_copy`, when both names have been looked up.
  unfoldable pub copy_found : Option ℕ → Option ℕ → List ℕ → FileSystem → Outcome × FileSystem
  unfolding copy_entry
  copy_found none found dest s = (failed does_not_exist, s)
  copy_found (some i) (some j) dest s = (failed already_exists, s)
  copy_found (some i) none dest s =
      let inode = s.inodes i in
      let n = num_block inode.size in
      if ltb max_dir_entry (s.cur_dir.num_entry + 1)
      then (failed directory_full, s)
      else if less s.free_inode_count 1
      then (failed inodes_full, s)
      else if (less direct_size inode.size && less s.free_block_count (n + 1))
          || less s.free_block_count n
      then (failed blocks_full, s)
      else copy_entry inode dest (get_inode s)

  unfoldable pub file_copy : (src dest : List ℕ) → FileSystem → Outcome × FileSystem
  unfolding copy_found
  file_copy src dest s = copy_found (search_cur_dir src s) (search_cur_dir dest s) dest s
