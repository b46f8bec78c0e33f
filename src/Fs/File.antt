-- ===== src/Fs/File.antt =====
-- p4/file.c: creating and printing files.
pub mod Content
pub mod Create
pub mod Data
pub mod Named
pub mod Random
pub mod Read
pub mod RoundTrip
pub mod Same
pub mod Store
use csci4730_operating_syste.Base.{
  ℕ, zero, suc, ◌+◌, ◌-◌, ◌*◌, ◌/◌, ◌%◌, Bool, true, false, not, ◌&&◌, ◌||◌, Option, none, some,
  List, ltb, leb, min, if◌then◌else◌, less, increment, decrement,
}
use csci4730_operating_syste.Fs.Bitmap.{update}
use csci4730_operating_syste.Fs.State.{
  Kind, file, Inode, Block, bytes, other, FileSystem, max_dir_entry,
}
use csci4730_operating_syste.Fs.State
use csci4730_operating_syste.Fs.Alloc.{get_inode, get_block, free_inode, free_block}
use csci4730_operating_syste.Fs.Access.{
  Junk, Outcome, done, printed, failed, already_exists, does_not_exist, directory_full, inodes_full,
  blocks_full, no_inode, no_block, is_a_directory, directory_empty, bad_size, search_cur_dir,
  read_inode, write_inode, read_disk_block, write_disk_block, as_bytes, as_map, add_entry,
  remove_entry,
}
use csci4730_operating_syste.Fs.Directory.{is_directory, then_do, finished}

abbrev pub block_size : ℕ
block_size = 512

-- The greatest size without an indirect block.
abbrev pub direct_size : ℕ
direct_size = 7680

-- `size / BLOCK_SIZE`, and one more for a rest.
unfoldable pub num_block : ℕ → ℕ
num_block size = if ltb 0 (size % block_size) then size / block_size + 1 else size / block_size

-- `tmp + (i * BLOCK_SIZE)`
abbrev pub part : (ℕ → ℕ) → ℕ → Block
part tmp i = bytes (λ k. tmp (i * block_size + k))

-- What a loop over the blocks gives: the block numbers by index, or -1 from `get_block`.
abbrev pub Stored : Type 0
Stored = Option (ℕ → ℕ) × FileSystem

-- What follows, unless -1 has been returned.
abbrev pub continue {ℓ} :
    {A : Type ℓ}
    → Option (ℕ → ℕ) × FileSystem
    → ((ℕ → ℕ) → FileSystem → Option A × FileSystem)
    → Option A × FileSystem
continue (none, s) f = (none, s)
continue (some blocks, s) f = f blocks s

-- One round of such a loop: a block is taken, noted at index `j`, and written.
unfoldable pub store_block : Block → ℕ → (ℕ → ℕ) → Option ℕ × FileSystem → Stored
store_block buf j blocks (none, s) = (none, s)
store_block buf j blocks (some b, s) = (some (update blocks j b), write_disk_block b buf s)

-- The loops of `file_create` and `file_copy`, with `k` rounds left: `contents i` is what goes into
-- the block of index `i`, and the number of that block is noted at `i - base`.
unfoldable pub store_blocks :
    ℕ → (i base : ℕ) → (ℕ → FileSystem → Block) → (ℕ → ℕ) → FileSystem → Stored
unfolding store_block
store_blocks zero i base contents blocks s = (some blocks, s)
store_blocks (suc k) i base contents blocks s =
    let (b, s₁) = get_block s in
    continue (store_block (contents i s₁) (i - base) blocks (b, s₁))
      λ blocks' s₂. store_blocks k (i + 1) base contents blocks' s₂

-- The first loop stops at index 15, and the second runs from there.
abbrev pub direct_rounds : ℕ → ℕ
direct_rounds n = min n 15

abbrev pub indirect_rounds : ℕ → ℕ
indirect_rounds n = n - 15

module _ (junk : Junk) where
  -- The second half: an indirect block is taken, filled, and written behind the data blocks.
  unfoldable pub store_indirect :
      ℕ
      → (FileSystem → ℕ → FileSystem → Block)
      → Inode
      → Option ℕ × FileSystem
      → Option Inode × FileSystem
  unfolding store_blocks
  store_indirect n contents inode (none, s) = (none, s)
  store_indirect n contents inode (some b, s) =
      continue (store_blocks (indirect_rounds n) 15 15 (contents s) junk.map s) λ blocks s'.
        (some (record inode { indirect_block = b }), write_disk_block b (State.Block.map blocks) s')

  -- The data of a file of `n` blocks, and the block numbers in its inode; `none` is a return of -1.
  -- What goes into the blocks behind the indirect block may depend on the state when the indirect
  -- block has been taken.
  unfoldable pub store_data :
      ℕ
      → (direct : ℕ → FileSystem → Block) → (indirect : FileSystem → ℕ → FileSystem → Block) → Inode
      → FileSystem
      → Option Inode × FileSystem
  unfolding store_blocks store_indirect
  store_data n direct indirect inode s =
      continue (store_blocks (direct_rounds n) 0 0 direct inode.direct_block s) λ blocks s'.
        let inode' : Inode = record inode { direct_block = blocks } in
        if less direct_size inode.size
        then store_indirect n indirect inode' (get_block s')
        else (some inode', s')

  -- The tests that `file_create` and `file_copy` make on the superblock.
  unfoldable pub lacks_blocks : (size : ℕ) → FileSystem → Bool
  unfolding num_block
  lacks_blocks size s =
      if less direct_size size
      then less s.free_block_count (num_block size + 1)
      else less s.free_block_count (num_block size)

  unfoldable pub new_file : ℕ → Inode
  unfolding num_block
  new_file size = record (junk.inode) {
    type = file;
    size = size;
    block_count = num_block size;
    link_count = 1;
  }

  unfoldable pub write_created : ℕ → Option Inode × FileSystem → Outcome × FileSystem
  write_created i (none, s) = (failed no_block, s)
  write_created i (some inode, s) = (done, write_inode i inode s)

  -- `file_create`, from the inode on: the entry is made before the blocks are taken.
  unfoldable pub create_entry :
      List ℕ → (size : ℕ) → (ℕ → ℕ) → Option ℕ × FileSystem → Outcome × FileSystem
  unfolding store_data new_file write_created num_block
  create_entry name size tmp (none, s) = (failed no_inode, s)
  create_entry name size tmp (some i, s) = write_created i (
      store_data (num_block size) (λ k _. part tmp k) (λ _ k _. part tmp k) (new_file size)
        (add_entry name i s))

  -- `file_create`, when the name has been looked up.
  unfoldable pub create_checked :
      List ℕ → (size : ℕ) → (ℕ → ℕ) → Option ℕ → FileSystem → Outcome × FileSystem
  unfolding create_entry lacks_blocks
  create_checked name size tmp (some i) s = (failed already_exists, s)
  create_checked name size tmp none s =
      if ltb max_dir_entry (s.cur_dir.num_entry + 1)
      then (failed directory_full, s)
      else if less s.free_inode_count 1
      then (failed inodes_full, s)
      else if lacks_blocks size s
      then (failed blocks_full, s)
      else create_entry name size tmp (get_inode s)

  -- `file_create`; `tmp` is the buffer that `rand_string` has filled, with what lies behind it.
  unfoldable pub file_create : List ℕ → (size : ℕ) → (ℕ → ℕ) → FileSystem → Outcome × FileSystem
  unfolding create_checked
  file_create name size tmp s =
      if less size 1 || less 73216 size
      then (failed bad_size, s)
      else create_checked name size tmp (search_cur_dir name s) s

  -- `memcpy(dst + off, src, n)`
  unfoldable pub memcpy : (dst : ℕ → ℕ) → (off : ℕ) → (src : ℕ → ℕ) → (n : ℕ) → ℕ → ℕ
  memcpy dst off src n k = if leb off k && ltb k (off + n) then src (k - off) else dst k

  -- The loops of `file_cat`, with `k` rounds left: the buffer, and the size that is left.
  unfoldable pub read_blocks :
      ℕ → (i base : ℕ) → (blocks : ℕ → ℕ) → FileSystem → (ℕ → ℕ) × ℕ → (ℕ → ℕ) × ℕ
  unfolding memcpy
  read_blocks zero i base blocks s acc = acc
  read_blocks (suc k) i base blocks s (str, size) =
      let buffer = as_bytes junk (read_disk_block (blocks (i - base)) (bytes junk.bytes) s) in
      read_blocks k (i + 1) base blocks s (
        if leb block_size size
        then (memcpy str (i * block_size) buffer block_size, size - block_size)
        else (memcpy str (i * block_size) buffer size, size))

  -- What `file_cat` prints of a file that is there.
  unfoldable pub content : Inode → FileSystem → ℕ → ℕ
  unfolding read_blocks num_block
  content inode s =
      let n = num_block inode.size in
      let str = update junk.bytes inode.size 0 in
      let first = read_blocks (direct_rounds n) 0 0 inode.direct_block s (str, inode.size) in
      let blocks =
        as_map junk (read_disk_block inode.indirect_block (State.Block.map junk.map) s) in
      if less direct_size inode.size
      then (read_blocks (indirect_rounds n) 15 15 blocks s first).0
      else first.0

  -- `file_cat`, when the name has been looked up.
  unfoldable pub cat_found : Option ℕ → FileSystem → Outcome × FileSystem
  unfolding content is_directory
  cat_found none s = (failed does_not_exist, s)
  cat_found (some i) s =
      let inode = read_inode (some i) s in
      if is_directory junk inode
      then (failed is_a_directory, s)
      else (printed (content inode s) inode.size, s)

  unfoldable pub file_cat : List ℕ → FileSystem → Outcome × FileSystem
  unfolding cat_found
  file_cat name s = cat_found (search_cur_dir name s) s
