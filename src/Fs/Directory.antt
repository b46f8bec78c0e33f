-- ===== src/Fs/Directory.antt =====
-- p4/directory.c: making, removing and changing directories.
pub mod Make
use csci4730_operating_syste.Base.{
  ℕ, zero, suc, ◌+◌, Bool, true, false, not, Option, none, some, List, [], ◌∷◌, ltb, ◌==◌,
  if◌then◌else◌, less,
}
use csci4730_operating_syste.Fs.Bitmap.{update}
use csci4730_operating_syste.Fs.State.{
  Kind, file, directory, Inode, DirectoryEntry, Dentry, Block, folder, other, FileSystem,
  max_dir_entry,
}
use csci4730_operating_syste.Fs.Alloc.{get_inode, get_block, free_inode, free_block}
use csci4730_operating_syste.Fs.Access.{
  Junk, Outcome, done, failed, already_exists, does_not_exist, directory_full, inodes_full,
  no_inode, not_a_directory, is_current, is_parent, not_empty, same_string, search_cur_dir,
  read_inode, write_inode, read_disk_block, write_disk_block, as_folder, add_entry, remove_entry,
}

-- -1 as a C integer.
abbrev pub minus_one : ℕ
minus_one = 0xffff_ffff

abbrev pub int_of : Option ℕ → ℕ
int_of none = minus_one
int_of (some i) = i

abbrev pub dot : List ℕ
dot = b'.' ∷ []

abbrev pub dot_dot : List ℕ
dot_dot = b'.' ∷ b'.' ∷ []

module _ (junk : Junk) where
  -- The first two entries of a new directory.
  unfoldable pub new_folder : (self parent : ℕ) → Dentry
  new_folder self parent = record {
    num_entry = 2;
    dentry =
        update (update junk.folder.dentry 0 (record { name = dot; inode = self })) 1
          (record { name = dot_dot; inode = parent });
  }

  unfoldable pub new_directory : ℕ → Inode
  new_directory block = record (junk.inode) {
    type = directory;
    size = 1;
    block_count = 1;
    direct_block = update junk.inode.direct_block 0 block;
  }

  -- `dir_make`, from the inode on. A block of -1 has only been reported.
  unfoldable pub make_entry : List ℕ → (block : ℕ) → Option ℕ × FileSystem → Outcome × FileSystem
  unfolding new_folder new_directory
  make_entry name block (none, s) = (failed no_inode, s)
  make_entry name block (some i, s) =
      let s₁ = add_entry name i (write_inode i (new_directory block) s) in
      let s₂ = write_disk_block block (folder (new_folder i (s₁.cur_dir.dentry 0).inode)) s₁ in
      (done, write_disk_block s₂.cur_dir_inode (folder s₂.cur_dir) s₂)

  -- `dir_make`, when the name has been looked up and a block has been taken.
  unfoldable pub make_checked : List ℕ → Option ℕ → Option ℕ × FileSystem → Outcome × FileSystem
  unfolding make_entry
  make_checked name (some i) (block, s) = (failed already_exists, s)
  make_checked name none (block, s) =
      if ltb max_dir_entry (s.cur_dir.num_entry + 1)
      then (failed directory_full, s)
      else if less s.free_inode_count 1
      then (failed inodes_full, s)
      else make_entry name (int_of block) (get_inode s)

  unfoldable pub dir_make : List ℕ → FileSystem → Outcome × FileSystem
  unfolding make_checked
  dir_make name s = make_checked name (search_cur_dir name s) (get_block s)

  abbrev pub then_do : Option FileSystem → (FileSystem → Option FileSystem) → Option FileSystem
  then_do none f = none
  then_do (some s) f = f s

  -- The blocks of an inode that is removed, from the index `i` on; `none` is a fault.
  unfoldable pub free_blocks : ℕ → ℕ → (ℕ → ℕ) → FileSystem → Option FileSystem
  free_blocks zero i blocks s = some s
  free_blocks (suc k) i blocks s =
      then_do (free_block (blocks i) s) λ s'. free_blocks k (i + 1) blocks s'

  -- The rounds of a loop up to a C integer, which may be negative.
  abbrev pub rounds : ℕ → ℕ
  rounds n = if less n 0 then 0 else n

  abbrev pub finished : Option FileSystem → Option (Outcome × FileSystem)
  finished none = none
  finished (some s) = some (done, s)

  -- `dir_remove`, when nothing stands in its way.
  unfoldable pub remove_directory : List ℕ → ℕ → Inode → FileSystem → Option (Outcome × FileSystem)
  unfolding free_blocks
  remove_directory name i inode s = finished (
      then_do
        (then_do (free_blocks (rounds inode.block_count) 0 inode.direct_block (remove_entry name s))
          λ s'. if less 7680 inode.size then free_block inode.indirect_block s' else some s')
        (free_inode i))

  unfoldable pub is_directory : Inode → Bool
  is_directory inode = elim inode.type [ file ↦ false | directory ↦ true ]

  -- `dir_remove`, when the name has been looked up and the inode's first block has been read.
  unfoldable pub remove_checked :
      List ℕ → Option ℕ → Inode → Dentry → FileSystem → Option (Outcome × FileSystem)
  unfolding remove_directory is_directory
  remove_checked name none inode content s = some (failed does_not_exist, s)
  remove_checked name (some i) inode content s =
      if not (is_directory inode)
      then some (failed not_a_directory, s)
      else if same_string dot name
      then some (failed is_current, s)
      else if same_string dot_dot name
      then some (failed is_parent, s)
      else if less 2 content.num_entry
      then some (failed not_empty, s)
      else remove_directory name i inode s

  unfoldable pub dir_remove : List ℕ → FileSystem → Option (Outcome × FileSystem)
  unfolding remove_checked
  dir_remove name s =
      let found = search_cur_dir name s in
      let inode = read_inode found s in
      let content =
        as_folder junk (read_disk_block (inode.direct_block 0) (folder junk.folder) s) in
      remove_checked name found inode content s

  -- `dir_change` to the directory of inode `i`: the current one is written to the block that the
  -- inode of number `curDirInode` names, and the other is read.
  unfoldable pub enter : ℕ → FileSystem → Outcome × FileSystem
  enter i s =
      let block = (s.inodes i).direct_block 0 in
      let current = s.inodes s.cur_dir_inode in
      let s' = write_disk_block (current.direct_block 0) (folder s.cur_dir) s in
      (
        done,
        record s' {
          cur_dir = as_folder junk (read_disk_block block (folder s'.cur_dir) s');
          cur_dir_inode = i;
        },
      )

  -- `dir_change`, when the name has been looked up.
  unfoldable pub change_found : Option ℕ → FileSystem → Outcome × FileSystem
  unfolding enter
  change_found none s = (failed does_not_exist, s)
  change_found (some i) s = enter i s

  unfoldable pub dir_change : List ℕ → FileSystem → Outcome × FileSystem
  unfolding change_found
  dir_change name s =
      if same_string name dot
      then (done, s)
      else if same_string name dot_dot
      then enter (s.cur_dir.dentry 1).inode s
      else change_found (search_cur_dir name s) s
