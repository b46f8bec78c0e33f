-- ===== src/Fs/Mount/Fresh.antt =====
-- The state behind `fs_mount` of p4/fs.c on a disk that is new.
use csci4730_operating_syste.Base.{ℕ, ◌+◌, ◌≡◌, refl, ◌≢◌, some, arith, ◌∙◌, ap, sym}
use csci4730_operating_syste.Fs.Bitmap.{get_bit}
use csci4730_operating_syste.Fs.State.{Inode, Block, folder, FileSystem, max_inode, max_block}
use csci4730_operating_syste.Fs.Alloc.{get_inode, get_block}
use csci4730_operating_syste.Fs.Alloc.Laws.{AreCounted}
use csci4730_operating_syste.Fs.Access.{
  search_from, search_cur_dir, write_disk_block, command, same_prefix,
}
use csci4730_operating_syste.Fs.Directory.{dot}
use csci4730_operating_syste.Fs.Mount.{
  magic, meta_blocks, init_super, write_root, init_root, mount_new,
}
use csci4730_operating_syste.Fs.Mount.Init.{
  init_map-bits, init_map-AreBytes, Used, clear_count-Used, IsZero, get_bit-zero, used_bit,
  used_bit_small, zero-AreBytes, root_inode, root_block,
}

-- A new disk has been mounted.
pub record Mounted (s s' : FileSystem) : Type 0 where
  pub mounted : mount_new s ≡ some s'
  pub counted : AreCounted s'
  pub free_inodes : s'.free_inode_count ≡ 511
  pub free_blocks : s'.free_block_count ≡ 3964
  pub used : Used (meta_blocks + 1) s'.block_map
  pub root_block : (s'.inodes 0).direct_block 0 ≡ meta_blocks
  pub current : s'.cur_dir_inode ≡ meta_blocks
  pub dot_entry : search_cur_dir dot s' ≡ some 0
  pub one_entry : s'.cur_dir.num_entry ≡ 1
  pub first_entry : (s'.cur_dir.dentry 0).name ≡ dot
  pub on_disk : s'.disk meta_blocks ≡ folder s'.cur_dir
  pub number : s'.magic_number ≡ magic
  pub root_used : get_bit s'.inode_map 0 ≡ 1
  pub used_inodes : Used 1 s'.inode_map
  pub disk : (b : ℕ) → b ≢ meta_blocks → s'.disk b ≡ s.disk b
  pub others : (j : ℕ) → j ≢ 0 → s'.inodes j ≡ s.inodes j

-- `init_root` with the inode and the block that it gets.
init_root-Mounted :
    (s s₁ s₂ : FileSystem)
    → get_inode (init_super s) ≡ (some 0, s₁)
    → get_block s₁ ≡ (some meta_blocks, s₂)
    → AreCounted s₂
    → s₂.free_inode_count ≡ 511
    → s₂.free_block_count ≡ 3964
    → Used (meta_blocks + 1) s₂.block_map
    → s₂.inodes ≡ s.inodes
    → s₂.magic_number ≡ magic
    → Used 1 s₂.inode_map
    → s₂.disk ≡ s.disk
    → (s' : FileSystem) × Mounted s s'
unfolding mount_new init_root write_root write_disk_block search_cur_dir search_from command
    same_prefix
init_root-Mounted s s₁ s₂ e e' c ni nb used same number root disk = (
  write_root 0 meta_blocks s₂,
  record {
    mounted = rw (e, e') refl;
    counted = record { inodes = c.inodes; blocks = c.blocks };
    free_inodes = ni;
    free_blocks = nb;
    used = used;
    root_block = refl;
    current = refl;
    dot_entry = refl;
    one_entry = refl;
    first_entry = refl;
    on_disk = refl;
    number = number;
    root_used = root 0;
    used_inodes = root;
    disk = λ b ne. ground (arith, ap (λ (f : ℕ → Block). f b) disk);
    others = λ j ne. ground (arith, ap (λ (f : ℕ → Inode). f j) same);
  },
)

module _ (s : FileSystem) (z : IsZero s) where
  blocks-Used : Used meta_blocks (init_super s).block_map
  unfolding init_super
  blocks-Used j =
      let zeros = zero-AreBytes s.block_map z.block_map in
      ground (
        arith,
        init_map-bits 512 0 used_bit s.block_map j zeros used_bit_small,
        get_bit-zero s.block_map j z.block_map,
      )

  inodes-Used : Used 0 (init_super s).inode_map
  unfolding init_super
  inodes-Used j =
      let zeros = zero-AreBytes s.inode_map z.inode_map in
      ground (
        arith,
        init_map-bits 64 0 (λ i. 0) s.inode_map j zeros (λ m. omega arith),
        get_bit-zero s.inode_map j z.inode_map,
      )

  init_super-AreCounted : AreCounted (init_super s)
  unfolding init_super
  init_super-AreCounted = record {
    inodes = record {
      bytes = init_map-AreBytes 64 0 (λ i. 0) s.inode_map (zero-AreBytes s.inode_map z.inode_map);
      counted = sym (clear_count-Used max_inode 0 _ inodes-Used);
    };
    blocks = record {
      bytes = init_map-AreBytes 512 0 used_bit s.block_map (zero-AreBytes s.block_map z.block_map);
      counted = sym (clear_count-Used max_block meta_blocks _ blocks-Used);
    };
  }

  same_globals : (init_super s).inodes ≡ s.inodes
  unfolding init_super
  same_globals = refl

  super_rest : ((init_super s).magic_number ≡ magic) × ((init_super s).disk ≡ s.disk)
  unfolding init_super
  super_rest = (refl, refl)

  counts : ((init_super s).free_inode_count ≡ max_inode) × ((init_super s).free_block_count ≡ 3965)
  unfolding init_super
  counts = (refl, refl)

  -- If the maps are zero, as they are when the program starts, `fs_mount` of a new disk succeeds.
  -- The counts are right: 511 inodes and 3964 blocks are free. Block 131 and the blocks in
  -- front of it are in use and no others. Block 131 is that of the root directory, which has the
  -- inode 0, the only one in use, finds itself under ".", and is on the disk. No other inode and no
  -- other block changes, and `curDirInode` is 131, the number of the block.
  pub mount_new-Mounted : (s' : FileSystem) × Mounted s s'
  mount_new-Mounted =
      let (ni, nb) = counts in
      let (s₁, e, c₁, ni₁, root, same) =
        root_inode (init_super s) init_super-AreCounted inodes-Used ni in
      let maps : s₁.block_map ≡ (init_super s).block_map =
        ap (λ (t : FileSystem). t.block_map) same in
      let used : Used meta_blocks s₁.block_map = λ j. rw maps (blocks-Used j) in
      let free = ap (λ (t : FileSystem). t.free_block_count) same ∙ nb in
      let (s₂, e', c₂, nb₂, used₂, same') = root_block s₁ c₁ used free in
      init_root-Mounted s s₁ s₂ e e' c₂ (ap (λ (t : FileSystem). t.free_inode_count) same' ∙ ni₁)
        nb₂ used₂
        (ap (λ (t : FileSystem). t.inodes) same'
          ∙ ap (λ (t : FileSystem). t.inodes) same
          ∙ same_globals)
        (ap (λ (t : FileSystem). t.magic_number) same'
          ∙ ap (λ (t : FileSystem). t.magic_number) same
          ∙ super_rest.0)
        (λ j. ap (λ (t : FileSystem). get_bit t.inode_map j) same' ∙ root j)
        (ap (λ (t : FileSystem). t.disk) same'
          ∙ ap (λ (t : FileSystem). t.disk) same
          ∙ super_rest.1)
