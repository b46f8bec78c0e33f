-- ===== src/Fs/Access.antt =====
-- p4/disk.c, the table of inodes in fs.c, and the look-up of a name in the current directory.
pub mod Added
pub mod Names
pub mod Search
use csci4730_operating_syste.Base.{
  ℕ, zero, suc, ◌+◌, ◌-◌, Bool, true, false, ◌&&◌, Option, none, some, List, [], ◌∷◌, ltb, ◌==◌,
  if◌then◌else◌, length,
}
use csci4730_operating_syste.Fs.Bitmap.{update}
use csci4730_operating_syste.Fs.State.{
  Inode, DirectoryEntry, Dentry, Block, bytes, folder, FileSystem, max_block,
}
use csci4730_operating_syste.Fs.State

-- What the program reads where it has written nothing of the kind: a local variable that is not
-- set, or a disk block that is read as something else than was written to it.
pub record Junk : Type 0 where
  pub inode : Inode
  pub folder : Dentry
  pub map : ℕ → ℕ
  pub bytes : ℕ → ℕ

-- The outcome of a command: 0, or -1 behind a message.
pub data Error : Type 0 where
  already_exists : Error
  does_not_exist : Error
  directory_full : Error
  inodes_full : Error
  blocks_full : Error
  no_inode : Error
  no_block : Error
  not_a_directory : Error
  is_a_directory : Error
  is_current : Error
  is_parent : Error
  not_empty : Error
  directory_empty : Error
  bad_size : Error

pub data Outcome : Type 0 where
  done : Outcome
  printed : (str : ℕ → ℕ) → (size : ℕ) → Outcome
  failed : Error → Outcome

-- `strcmp` and `strncmp` of two strings give 0.
unfoldable pub same_string : List ℕ → List ℕ → Bool
same_string [] [] = true
same_string [] (y ∷ ys) = false
same_string (x ∷ xs) [] = false
same_string (x ∷ xs) (y ∷ ys) = x == y && same_string xs ys

unfoldable pub same_prefix : ℕ → List ℕ → List ℕ → Bool
same_prefix zero xs ys = true
same_prefix (suc n) [] [] = true
same_prefix (suc n) [] (y ∷ ys) = false
same_prefix (suc n) (x ∷ xs) [] = false
same_prefix (suc n) (x ∷ xs) (y ∷ ys) = x == y && same_prefix n xs ys

unfoldable pub command : List ℕ → List ℕ → Bool
unfolding same_prefix
command comm comm2 = length comm == length comm2 && same_prefix (length comm) comm comm2

-- The loop of `search_cur_dir`, with the rounds that are left.
unfoldable pub search_from : ℕ → ℕ → List ℕ → (ℕ → DirectoryEntry) → Option ℕ
search_from zero i name dentry = none
search_from (suc k) i name dentry =
    let rest = search_from k (i + 1) name dentry in
    if command name (dentry i).name then some (dentry i).inode else rest

-- -1 is `none`.
unfoldable pub search_cur_dir : List ℕ → FileSystem → Option ℕ
unfolding search_from
search_cur_dir name s = search_from s.cur_dir.num_entry 0 name s.cur_dir.dentry

-- The index -1 reads what lies in front of the array.
unfoldable pub read_inode : Option ℕ → FileSystem → Inode
read_inode none s = s.stray
read_inode (some i) s = s.inodes i

unfoldable pub write_inode : ℕ → Inode → FileSystem → FileSystem
write_inode i inode s = record s { inodes = update s.inodes i inode }

-- A read outside the disk leaves the buffer as it was, and a write outside does nothing.
unfoldable pub read_disk_block : ℕ → Block → FileSystem → Block
read_disk_block block buf s = if ltb block max_block then s.disk block else buf

unfoldable pub write_disk_block : ℕ → Block → FileSystem → FileSystem
write_disk_block block buf s =
    if ltb block max_block then record s { disk = update s.disk block buf } else s

module _ (junk : Junk) where
  abbrev pub as_folder : Block → Dentry
  as_folder (folder d) = d
  as_folder _ = junk.folder

  abbrev pub as_bytes : Block → ℕ → ℕ
  as_bytes (bytes b) = b
  as_bytes _ = junk.bytes

  abbrev pub as_map : Block → ℕ → ℕ
  as_map (State.Block.map m) = m
  as_map _ = junk.map

-- `curDir.dentry[curDir.numEntry]` is set and the count is raised.
unfoldable pub add_entry : List ℕ → ℕ → FileSystem → FileSystem
add_entry name i s = record s {
  cur_dir = record {
    num_entry = s.cur_dir.num_entry + 1;
    dentry = update s.cur_dir.dentry s.cur_dir.num_entry (record { name = name; inode = i });
  };
}

-- The inner loop of the removal: the entries behind `i` move down, `k` of them.
unfoldable pub shift_down : ℕ → ℕ → (ℕ → DirectoryEntry) → ℕ → DirectoryEntry
shift_down zero i dentry = dentry
shift_down (suc k) i dentry = shift_down k (i + 1) (update dentry i (dentry (i + 1)))

-- The removal of the first entry of the name, with the rounds that are left.
unfoldable pub remove_from : ℕ → ℕ → List ℕ → Dentry → Dentry
unfolding shift_down
remove_from zero i name d = d
remove_from (suc k) i name d =
    let rest = remove_from k (i + 1) name d in
    if same_string name (d.dentry i).name
    then record { num_entry = d.num_entry - 1; dentry = shift_down (suc k) i d.dentry }
    else rest

unfoldable pub remove_entry : List ℕ → FileSystem → FileSystem
unfolding remove_from
remove_entry name s = record s { cur_dir = remove_from s.cur_dir.num_entry 0 name s.cur_dir }
