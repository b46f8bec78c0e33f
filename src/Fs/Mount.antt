-- ===== src/Fs/Mount.antt =====
-- `fs_mount` of p4/fs.c, when there is no file to read the disk from, and `fs_umount`.
pub mod Again
pub mod FirstChange
pub mod Fresh
pub mod Init
pub mod Live
pub mod Persist
pub mod Load
pub mod Reboot
pub mod Saved
use csci4730_operating_syste.Base.{
  ℕ, zero, suc, ◌+◌, ◌-◌, ◌*◌, Option, none, some, ltb, if◌then◌else◌,
}
use csci4730_operating_syste.Fs.Bitmap.{Bits, update, set_bit}
use csci4730_operating_syste.Fs.State.{
  directory, folder, super_block, bit_map, inode_block, FileSystem, max_inode, max_block,
}
use csci4730_operating_syste.Fs.Alloc.{get_inode, get_block}
use csci4730_operating_syste.Fs.Access.{write_disk_block}
use csci4730_operating_syste.Fs.Directory.{int_of, dot}

-- `MAGIC_NUMBER`
abbrev pub magic : ℕ
magic = 0x1234_ffff

-- `1+1+1+numInodeBlock`, where an inode has 128 bytes and a block 512.
abbrev pub meta_blocks : ℕ
meta_blocks = 131

-- A loop that writes the bits of a map, from index `i` on, with `k` rounds left.
unfoldable pub init_map : ℕ → ℕ → (ℕ → ℕ) → Bits → Bits
init_map zero i value a = a
init_map (suc k) i value a = init_map k (i + 1) value (set_bit a i (value i))

-- The super block and the maps.
unfoldable pub init_super : FileSystem → FileSystem
unfolding init_map
init_super s = record s {
  magic_number = magic;
  free_block_count = max_block - meta_blocks;
  free_inode_count = max_inode;
  inode_map = init_map 64 0 (λ i. 0) s.inode_map;
  block_map = init_map 512 0 (λ i. if ltb i meta_blocks then 1 else 0) s.block_map;
}

-- The root directory, in the inode `root` and in a block.
unfoldable pub write_root : (root block : ℕ) → FileSystem → FileSystem
write_root root block s =
    let s' : FileSystem = record s {
      cur_dir_inode = block;
      inodes = update s.inodes root (record (s.inodes root) {
        type = directory;
        size = 1;
        block_count = 1;
        direct_block = update (s.inodes root).direct_block 0 block;
      });
      cur_dir = record {
        num_entry = 1;
        dentry = update s.cur_dir.dentry 0 (record { name = dot; inode = root });
      };
    } in
    write_disk_block s'.cur_dir_inode (folder s'.cur_dir) s'

-- Without an inode, the index -1 is a fault.
unfoldable pub init_root : Option ℕ → Option ℕ × FileSystem → Option FileSystem
unfolding write_root
init_root none (block, s) = none
init_root (some root) (block, s) = some (write_root root (int_of block) s)

unfoldable pub mount_new : FileSystem → Option FileSystem
unfolding init_super init_root
mount_new s = let (root, s') = get_inode (init_super s) in init_root root (get_block s')

-- The loop of `fs_umount`, with `k` rounds left: block `i + 3` takes four inodes.
unfoldable pub save_inodes : ℕ → ℕ → FileSystem → FileSystem
save_inodes zero i s = s
save_inodes (suc k) i s =
    save_inodes k (i + 1) (write_disk_block (i + 3) (inode_block (λ j. s.inodes (4 * i + j))) s)

-- `fs_umount`, up to the file that the disk is written to.
unfoldable pub fs_umount : FileSystem → FileSystem
fs_umount s =
    let s₁ =
      write_disk_block 0 (super_block s.magic_number s.free_block_count s.free_inode_count) s in
    let s₂ = write_disk_block 1 (bit_map s₁.inode_map) s₁ in
    let s₃ = write_disk_block 2 (bit_map s₂.block_map) s₂ in
    let s₄ = save_inodes 128 0 s₃ in write_disk_block s₄.cur_dir_inode (folder s₄.cur_dir) s₄
