-- ===== src/Fs/Mount/Load.antt =====
-- `disk_mount` and `disk_umount` of p4/disk.c, and `fs_mount` of p4/fs.c when there is a file to read
-- the disk from.
use csci4730_operating_syste.Base.{
  ℕ, zero, suc, ◌+◌, ◌-◌, ◌*◌, Bool, true, false, ◌&&◌, Option, none, some, ltb, leb, ◌==◌,
  if◌then◌else◌, min,
}
use csci4730_operating_syste.Fs.Bitmap.{Bits}
use csci4730_operating_syste.Fs.State.{
  Inode, Block, super_block, bit_map, inode_block, other, FileSystem, max_block,
}
use csci4730_operating_syste.Fs.Access.{Junk, read_disk_block, as_folder}
use csci4730_operating_syste.Fs.Mount.{magic, mount_new, fs_umount}

-- A file of the host, by the number of its blocks and what they hold.
pub record Image : Type 0 where
  pub blocks : ℕ
  pub block_at : ℕ → Block

-- `disk_mount`, and what it returns; `none` is a file that `fopen` does not open. `fread` leaves the
-- blocks behind the end of the file as they were.
unfoldable pub disk_mount : Option Image → FileSystem → Bool × FileSystem
disk_mount none s = (false, s)
disk_mount (some image) s = (
  true,
  record s {
    disk = λ b. if ltb b (min image.blocks max_block) then image.block_at b else s.disk b;
  },
)

-- `disk_umount`: what it returns, where `false` is -1, and the file behind it. `opens` says if the
-- host opens the file for writing.
unfoldable pub disk_umount : (opens : Bool) → Option Image → FileSystem → Bool × Option Image
disk_umount false file s = (false, file)
disk_umount true file s = (true, some (record { blocks = max_block; block_at = s.disk }))

-- All of `fs_umount`: the file, and the state.
unfoldable pub unmount : (opens : Bool) → Option Image → FileSystem → Option Image × FileSystem
unfolding disk_umount
unmount opens file s = let s' = fs_umount s in ((disk_umount opens file s').1, s')

-- What the program reads where a block was written as something else than it is read as, and what
-- happens behind `inodeMap`, which has 64 bytes and takes a block of 512.
pub record Layout : Type 0 where
  pub junk : Junk
  pub super : Block → ℕ × ℕ × ℕ
  pub bits : Block → Bits
  pub four : Block → ℕ → Inode
  pub overrun : Block → FileSystem → FileSystem

pub data MountResult : Type 0 where
  ready : FileSystem → MountResult
  invalid_disk : MountResult
  faulted : MountResult

module _ (layout : Layout) where
  abbrev pub as_super : Block → ℕ × ℕ × ℕ
  as_super (super_block number blocks inodes) = (number, blocks, inodes)
  as_super b = layout.super b

  abbrev pub as_bits : Block → Bits
  as_bits (bit_map bits) = bits
  as_bits b = layout.bits b

  abbrev pub as_inodes : Block → ℕ → Inode
  as_inodes (inode_block four) = four
  as_inodes b = layout.four b

  unfoldable pub load_super : FileSystem → FileSystem
  load_super s =
      let (number, blocks, inodes) = as_super (read_disk_block 0 other s) in
      record s { magic_number = number; free_block_count = blocks; free_inode_count = inodes }

  unfoldable pub load_maps : FileSystem → FileSystem
  load_maps s =
      let map = read_disk_block 1 other s in
      let s₁ : FileSystem = layout.overrun map (record s { inode_map = as_bits map }) in
      record s₁ { block_map = as_bits (read_disk_block 2 other s₁) }

  -- The loop over the blocks of inodes, from block `i + 3` on, with `k` rounds left.
  unfoldable pub load_inodes : ℕ → ℕ → FileSystem → FileSystem
  load_inodes zero i s = s
  load_inodes (suc k) i s =
      let four = as_inodes (read_disk_block (i + 3) other s) in
      load_inodes k (i + 1) (record s {
        inodes = λ j. if leb (4 * i) j && ltb j (4 * i + 4) then four (j - 4 * i) else s.inodes j;
      })

  -- A block outside the disk is not read.
  unfoldable pub load_root : FileSystem → FileSystem
  load_root s =
      let block = (s.inodes 0).direct_block 0 in
      record s {
        cur_dir_inode = block;
        cur_dir =
            if ltb block max_block
            then as_folder layout.junk (read_disk_block block other s)
            else s.cur_dir;
      }

  -- `fs_mount`, when the disk has been read from the file.
  unfoldable pub mount_saved : FileSystem → MountResult
  mount_saved s =
      let s₁ = load_super s in
      if s₁.magic_number == magic
      then ready (load_root (load_inodes 128 0 (load_maps s₁)))
      else invalid_disk

  abbrev pub fresh_result : Option FileSystem → MountResult
  fresh_result none = faulted
  fresh_result (some s) = ready s

  abbrev pub mount_as : Bool × FileSystem → MountResult
  mount_as (true, s) = mount_saved s
  mount_as (false, s) = fresh_result (mount_new s)

  unfoldable pub fs_mount : Option Image → FileSystem → MountResult
  unfolding disk_mount mount_saved
  fs_mount file s = mount_as (disk_mount file s)
