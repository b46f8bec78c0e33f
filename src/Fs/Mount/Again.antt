-- ===== src/Fs/Mount/Again.antt =====
-- `fs_mount` of p4/fs.c reads back what `fs_umount` has written.
use csci4730_operating_syste.Base.{
  ℕ, zero, suc, ◌+◌, ◌-◌, ◌*◌, ◌≤◌, ◌<◌, ◌≡◌, refl, true, ◌&&◌, Option, arith, ltb, leb, lt→ltb,
  ◌==◌, if◌then◌else◌, ◌∙◌, ap,
}
use csci4730_operating_syste.Fs.State.{
  Inode, Block, folder, super_block, bit_map, inode_block, other, FileSystem, max_inode, max_block,
}
use csci4730_operating_syste.Fs.Access.{read_disk_block}
use csci4730_operating_syste.Fs.Mount.{magic, fs_umount}
use csci4730_operating_syste.Fs.Mount.Saved.{Saved, fs_umount-Saved}
use csci4730_operating_syste.Fs.Mount.Load.{
  Image, Layout, ready, disk_mount, disk_umount, unmount, as_inodes, load_super, load_maps,
  load_inodes, load_root, mount_saved, fs_mount,
}

-- The state has the magic number, and its current directory is the root directory, whose block lies
-- behind the meta data.
pub record AtRoot (s : FileSystem) : Type 0 where
  pub number : s.magic_number ≡ magic
  pub root : (s.inodes 0).direct_block 0 ≡ s.cur_dir_inode
  pub behind : 131 ≤ s.cur_dir_inode
  pub inside : s.cur_dir_inode < max_block

-- What is written over the end of `inodeMap` lands in `blockMap`.
abbrev pub OnlyBlockMap : Layout → Type 0
OnlyBlockMap layout =
    (b : Block) (s : FileSystem)
    → layout.overrun b s ≡ record s { block_map = (layout.overrun b s).block_map }

-- The state `t` has all that counts in the state `s`, and the disk that was saved.
pub record Remounted (s t : FileSystem) : Type 0 where
  pub magic_number : t.magic_number ≡ s.magic_number
  pub free_block_count : t.free_block_count ≡ s.free_block_count
  pub free_inode_count : t.free_inode_count ≡ s.free_inode_count
  pub inode_map : t.inode_map ≡ s.inode_map
  pub block_map : t.block_map ≡ s.block_map
  pub inodes : (j : ℕ) → j < max_inode → t.inodes j ≡ s.inodes j
  pub cur_dir_inode : t.cur_dir_inode ≡ s.cur_dir_inode
  pub cur_dir : t.cur_dir ≡ s.cur_dir
  pub disk : (b : ℕ) → b < max_block → t.disk b ≡ (fs_umount s).disk b

read_inside : (b : ℕ) (u : FileSystem) → b < max_block → read_disk_block b other u ≡ u.disk b
unfolding read_disk_block
read_inside b u lt = rw (lt→ltb _ _ lt) refl

module _ (layout : Layout) where
  -- The inodes behind the loop, when the blocks from `i + 3` on hold `inodes`.
  load_inodes-inodes :
      (k i : ℕ) (u : FileSystem) (inodes : ℕ → Inode)
      → i + k + 3 ≤ max_block
      → ((m : ℕ) → i ≤ m → m < i + k → u.disk (m + 3) ≡ inode_block (λ j. inodes (4 * m + j)))
      → (j : ℕ)
      → (load_inodes layout k i u).inodes j
        ≡ (if leb (4 * i) j && ltb j (4 * (i + k)) then inodes j else u.inodes j)
  unfolding load_inodes
  load_inodes-inodes zero i u inodes fits holds j = ground arith
  load_inodes-inodes (suc k) i u inodes fits holds j =
      let four = as_inodes layout (read_disk_block (i + 3) other u) in
      let read : four ≡ (λ m. inodes (4 * i + m)) =
        ap (as_inodes layout)
          (read_inside (i + 3) u (omega arith) ∙ holds i (omega arith) (omega arith)) in
      let here : 4 * i ≤ j → four (j - 4 * i) ≡ inodes j =
        λ le. ap (λ (f : ℕ → Inode). f (j - 4 * i)) read ∙ ap inodes (omega (arith, le)) in
      let rest =
        load_inodes-inodes k (i + 1)
          (record u {
            inodes =
                λ j. if leb (4 * i) j && ltb j (4 * i + 4) then four (j - 4 * i) else u.inodes j;
          })
          inodes (omega (arith, fits)) (λ m low high. holds m (omega arith) (omega arith)) j in
      ground (arith, rest, here)

  load_inodes-rest :
      (k i : ℕ) (u : FileSystem)
      → load_inodes layout k i u ≡ record u { inodes = (load_inodes layout k i u).inodes }
  unfolding load_inodes
  load_inodes-rest zero i u = refl
  load_inodes-rest (suc k) i u = load_inodes-rest k (i + 1) _

  load_super_lem :
      (u s : FileSystem)
      → u.disk 0 ≡ super_block s.magic_number s.free_block_count s.free_inode_count
      → load_super layout u ≡ record u {
        magic_number = s.magic_number;
        free_block_count = s.free_block_count;
        free_inode_count = s.free_inode_count;
      }
  unfolding load_super
  load_super_lem u s holds = rw (read_inside 0 u (omega arith) ∙ holds) refl

  load_maps_lem :
      (u s : FileSystem)
      → OnlyBlockMap layout
      → u.disk 1 ≡ bit_map s.inode_map
      → u.disk 2 ≡ bit_map s.block_map
      → load_maps layout u ≡ record u { inode_map = s.inode_map; block_map = s.block_map }
  unfolding load_maps
  load_maps_lem u s only first second =
      let u₁ : FileSystem = record u { inode_map = s.inode_map } in
      let u₂ : FileSystem = record u₁ {
        block_map = (layout.overrun (bit_map s.inode_map) u₁).block_map;
      } in
      rw
        (
          read_inside 1 u (omega arith) ∙ first,
          only (bit_map s.inode_map) u₁,
          read_inside 2 u₂ (omega arith) ∙ second,
        )
        refl

  load_root_lem :
      (u s : FileSystem)
      → AtRoot s
      → u.inodes 0 ≡ s.inodes 0
      → u.disk s.cur_dir_inode ≡ folder s.cur_dir
      → load_root layout u ≡ record u { cur_dir_inode = s.cur_dir_inode; cur_dir = s.cur_dir }
  unfolding load_root
  load_root_lem u s at first current =
      let block : (u.inodes 0).direct_block 0 ≡ s.cur_dir_inode =
        ap (λ (n : Inode). n.direct_block 0) first ∙ at.root in
      rw (block, lt→ltb _ _ at.inside, read_inside s.cur_dir_inode u at.inside ∙ current) refl

  mount_saved_from :
      (u v w x : FileSystem)
      → load_super layout u ≡ v
      → v.magic_number ≡ magic
      → load_maps layout v ≡ w
      → load_root layout (load_inodes layout 128 0 w) ≡ x
      → mount_saved layout u ≡ ready x
  unfolding mount_saved
  mount_saved_from u v w x e number e' e₂ =
      let same : (v.magic_number == magic) ≡ true = rw number refl in rw (e, same, e', e₂) refl

  module _ (s u : FileSystem) (at : AtRoot s) (only : OnlyBlockMap layout)
      (disk : (b : ℕ) → b < max_block → u.disk b ≡ (fs_umount s).disk b) where
    abbrev with_super : FileSystem
    with_super = record u {
      magic_number = s.magic_number;
      free_block_count = s.free_block_count;
      free_inode_count = s.free_inode_count;
    }

    abbrev with_maps : FileSystem
    with_maps = record with_super { inode_map = s.inode_map; block_map = s.block_map }

    abbrev with_inodes : FileSystem
    with_inodes = load_inodes layout 128 0 with_maps

    saved : Saved s (fs_umount s)
    saved = fs_umount-Saved s at.behind at.inside

    inodes_back : (j : ℕ) → j < max_inode → with_inodes.inodes j ≡ s.inodes j
    inodes_back j lt =
        load_inodes-inodes 128 0 with_maps s.inodes (omega arith)
          (λ m low high. disk (m + 3) (omega (arith, high)) ∙ saved.inodes m high) j
        ∙ ground (arith, lt)

    abbrev with_root : FileSystem
    with_root = record with_inodes { cur_dir_inode = s.cur_dir_inode; cur_dir = s.cur_dir }

    mount_saved_lem : mount_saved layout u ≡ ready with_root
    mount_saved_lem =
        let on_disk =
          ap (λ (t : FileSystem). t.disk s.cur_dir_inode) (load_inodes-rest 128 0 with_maps) in
        mount_saved_from u with_super with_maps with_root
          (load_super_lem u s (disk 0 (omega arith) ∙ saved.super)) at.number
          (load_maps_lem with_super s only (disk 1 (omega arith) ∙ saved.inode_map)
            (disk 2 (omega arith) ∙ saved.block_map))
          (load_root_lem with_inodes s at (inodes_back 0 (omega arith))
            (on_disk ∙ disk s.cur_dir_inode at.inside ∙ saved.current))

    with_root-Remounted : Remounted s with_root
    with_root-Remounted =
        let rest = load_inodes-rest 128 0 with_maps in
        record {
          magic_number = ap (λ (t : FileSystem). t.magic_number) rest;
          free_block_count = ap (λ (t : FileSystem). t.free_block_count) rest;
          free_inode_count = ap (λ (t : FileSystem). t.free_inode_count) rest;
          inode_map = ap (λ (t : FileSystem). t.inode_map) rest;
          block_map = ap (λ (t : FileSystem). t.block_map) rest;
          inodes = inodes_back;
          cur_dir_inode = refl;
          cur_dir = refl;
          disk = λ b lt. ap (λ (t : FileSystem). t.disk b) rest ∙ disk b lt;
        }

  -- If the current directory is the root directory, the host opens the file, and what is written
  -- over the end of `inodeMap` lands in `blockMap`, then from any state of the globals `fs_mount` of
  -- the file that `fs_umount` has written succeeds and reads back the counts, both maps, all
  -- inodes, the current directory and its block, and every block of the disk.
  pub fs_mount-unmount :
      (file : Option Image) (s t : FileSystem)
      → AtRoot s
      → OnlyBlockMap layout
      → (t' : FileSystem) × (fs_mount layout (unmount true file s).0 t ≡ ready t') × Remounted s t'
  unfolding fs_mount unmount disk_mount disk_umount
  fs_mount-unmount file s t at only =
      let u : FileSystem = record t {
        disk = λ b. if ltb b max_block then (fs_umount s).disk b else t.disk b;
      } in
      let disk : (b : ℕ) → b < max_block → u.disk b ≡ (fs_umount s).disk b =
        λ b lt. ground (arith, lt) in
      (
        with_root s u at only disk,
        mount_saved_lem s u at only disk,
        with_root-Remounted s u at only disk,
      )
