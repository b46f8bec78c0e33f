-- ===== src/Fs/State.antt =====
-- The globals of p4: fs.h, fs.c and disk.c.
use csci4730_operating_syste.Base.{ℕ, List}
use csci4730_operating_syste.Fs.Bitmap.{Bits}

-- `TYPE`
pub data Kind : Type 0 where
  file directory : Kind

pub record Inode : Type 0 where
  pub type : Kind
  pub size : ℕ
  pub block_count : ℕ
  pub direct_block : ℕ → ℕ
  pub indirect_block : ℕ
  pub link_count : ℕ

pub record DirectoryEntry : Type 0 where
  pub name : List ℕ
  pub inode : ℕ

pub record Dentry : Type 0 where
  pub num_entry : ℕ
  pub dentry : ℕ → DirectoryEntry

-- A disk block of 512 bytes, by what was written to it. `bytes` is file data, `map` an indirect
-- block, `super_block` the
-- magic number and the counts, `bit_map` a map, with what lies behind it, `inode_block` four
-- inodes, and `other` a block that was never written.
pub data Block : Type 0 where
  bytes : (ℕ → ℕ) → Block
  map : (ℕ → ℕ) → Block
  folder : Dentry → Block
  super_block : (magic_number free_blocks free_inodes : ℕ) → Block
  bit_map : Bits → Block
  inode_block : (ℕ → Inode) → Block
  other : Block

-- The counters are C integers, as bit patterns. `stray` is what lies in front of the array of
-- inodes, at the index -1.
pub record FileSystem : Type 0 where
  pub magic_number : ℕ
  pub inode_map : Bits
  pub block_map : Bits
  pub free_inode_count : ℕ
  pub free_block_count : ℕ
  pub inodes : ℕ → Inode
  pub stray : Inode
  pub cur_dir : Dentry
  pub cur_dir_inode : ℕ
  pub disk : ℕ → Block

abbrev pub max_inode : ℕ
max_inode = 512

abbrev pub max_block : ℕ
max_block = 4096

abbrev pub max_dir_entry : ℕ
max_dir_entry = 21
