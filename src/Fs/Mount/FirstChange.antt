-- ===== src/Fs/Mount/FirstChange.antt =====
-- The first `cd` of p4 on a new disk: `fs_mount`, `dir_make` and `dir_change` together.
use csci4730_operating_syste.Base.{
  ℕ, ◌+◌, ◌<◌, ◌≡◌, refl, ◌≢◌, false, none, some, List, arith, ltb, ap, ◌∙◌, Bool-cases, inl, inr,
  lt→ltb, less,
}
use csci4730_operating_syste.Fs.Bitmap.{update, get_bit}
use csci4730_operating_syste.Fs.State.{folder, FileSystem, max_block, max_dir_entry, Inode}
use csci4730_operating_syste.Fs.Alloc.{get_inode, get_block}
use csci4730_operating_syste.Fs.Alloc.Laws.{AreCounted, get_inode_lem, get_block_lem}
use csci4730_operating_syste.Fs.Access.{
  Junk, done, same_string, command, search_from, search_cur_dir, write_inode, write_disk_block,
  add_entry,
}
use csci4730_operating_syste.Fs.Access.Names.{command_iff, same_string-eq}
use csci4730_operating_syste.Fs.Access.Added.{search_added, search_same}
use csci4730_operating_syste.Fs.Directory.{
  dot, dot_dot, new_folder, new_directory, make_entry, make_checked, dir_make, dir_change,
}
use csci4730_operating_syste.Fs.Directory.Make.{dir_change-superblock}
use csci4730_operating_syste.Fs.Mount.{meta_blocks, mount_new}
use csci4730_operating_syste.Fs.Mount.Init.{IsZero, Used}
use csci4730_operating_syste.Fs.Mount.Fresh.{Mounted, mount_new-Mounted}

not_same : (a b : List ℕ) → a ≢ b → same_string a b ≡ false
not_same a b ne = elim (Bool-cases (same_string a b)) [
  | inl same ↦ absurd (ne (same_string-eq a b same))
  | inr other ↦ other
]

not_command : (a b : List ℕ) → a ≢ b → command a b ≡ false
not_command a b ne = elim (Bool-cases (command a b)) [
  | inl same ↦ absurd (ne ((command_iff a b).0 same))
  | inr other ↦ other
]

-- In a new root directory there is no name but ".".
only_dot :
    (name : List ℕ) (s : FileSystem)
    → s.cur_dir.num_entry ≡ 1
    → (s.cur_dir.dentry 0).name ≡ dot
    → name ≢ dot
    → search_cur_dir name s ≡ none
unfolding search_cur_dir search_from
only_dot name s one first ne = let other = not_command name dot ne in rw (one, first, other) refl

module _ (junk : Junk) (name : List ℕ) (b : ℕ) (s : FileSystem) where
  abbrev entered : FileSystem
  entered = add_entry name 1 (write_inode 1 (new_directory junk b) s)

  -- The state when `dir_make` has got inode 1 and block `b`.
  abbrev made : FileSystem
  made = record entered {
    disk =
        update (update s.disk b (folder (new_folder junk 1 (entered.cur_dir.dentry 0).inode)))
          meta_blocks (folder entered.cur_dir);
  }

  make_entry-made :
      b < max_block
      → s.cur_dir_inode ≡ meta_blocks
      → make_entry junk name b (some 1, s) ≡ (done, made)
  unfolding make_entry write_disk_block add_entry write_inode
  make_entry-made inside root = let on_disk = lt→ltb b max_block inside in rw (on_disk, root) refl

  made_search : search_cur_dir name s ≡ none → search_cur_dir name made ≡ some 1
  unfolding write_inode
  made_search absent =
      search_same name entered made refl
      ∙ search_added name 1 s (write_inode 1 (new_directory junk b) s) absent refl

  made_rest :
      b ≢ 0
      → s.cur_dir_inode ≡ meta_blocks
      → (made.cur_dir_inode ≡ meta_blocks)
        × (made.disk 0 ≡ s.disk 0)
        × (made.disk meta_blocks ≡ folder made.cur_dir)
        × (made.block_map ≡ s.block_map)
        × (made.inodes meta_blocks ≡ s.inodes meta_blocks)
  unfolding add_entry write_inode
  made_rest ne root = (root, ground (arith, ne), refl, refl, refl)

-- `dir_make` in a new root directory takes inode 1 and a block behind that of the root.
record FirstMade (junk : Junk) (name : List ℕ) (s : FileSystem) (b : ℕ) (t : FileSystem)
    : Type 0 where
  outcome : dir_make junk name s ≡ (done, made junk name b t)
  not_super : b ≢ 0
  super_used : get_bit t.block_map 0 ≡ 1
  same_dir : t.cur_dir ≡ s.cur_dir
  same_root : t.cur_dir_inode ≡ s.cur_dir_inode
  same_disk : t.disk ≡ s.disk
  same_inodes : t.inodes ≡ s.inodes

first_inode :
    (t : FileSystem)
    → AreCounted t
    → Used 1 t.inode_map
    → t.free_inode_count ≡ 511
    → (u : FileSystem) × (get_inode t ≡ (some 1, u))
      × (u ≡ record t { inode_map = u.inode_map; free_inode_count = u.free_inode_count })
first_inode t c used count = elim (get_inode_lem t c) [
  | inl (_, none_free, _) ↦ absurd (omega (arith, none_free, count))
  | inr (i, u, e, taken, same, _) ↦
      let (_, _, clear, before) = taken.first in
      let second : i ≡ 1 = ground (arith, before 1, used 0, used 1, used i, clear) in
      (u, e ∙ ap (λ k. (some k, u)) second, same)
]

module _ (junk : Junk) (name : List ℕ) where
  dir_make_checked :
      (b : ℕ) (s t u : FileSystem)
      → search_cur_dir name s ≡ none
      → get_block s ≡ (some b, t)
      → t.cur_dir.num_entry ≡ 1
      → t.free_inode_count ≡ 511
      → get_inode t ≡ (some 1, u)
      → dir_make junk name s ≡ make_entry junk name b (some 1, u)
  unfolding dir_make make_checked
  dir_make_checked b s t u absent block one free inode =
      let room : ltb max_dir_entry (t.cur_dir.num_entry + 1) ≡ false = ground (arith, one) in
      let some_free : less t.free_inode_count 1 ≡ false = ground (arith, free) in
      rw (absent, block, room, some_free, inode) refl

  dir_make-FirstMade :
      (s₀ s : FileSystem)
      → Mounted s₀ s
      → name ≢ dot
      → (b : ℕ) × (t : FileSystem) × FirstMade junk name s b t
  dir_make-FirstMade s₀ s m ne = elim (get_block_lem s m.counted) [
    | inl (_, none_free, _) ↦ absurd (omega (arith, none_free, m.free_blocks))
    | inr (b, t, e, taken, same, c) ↦
        let (_, lt, clear, _) = taken.first in
        let inodes = ap (λ (x : FileSystem). x.inode_map) same in
        let count = ap (λ (x : FileSystem). x.free_inode_count) same ∙ m.free_inodes in
        let one = ap (λ (x : FileSystem). x.cur_dir.num_entry) same ∙ m.one_entry in
        let used : Used 1 t.inode_map = λ j. ap (λ a. get_bit a j) inodes ∙ m.used_inodes j in
        let (u, e₂, same₂) = first_inode t c used count in
        let absent = only_dot name s m.one_entry m.first_entry ne in
        let root =
          ap (λ (x : FileSystem). x.cur_dir_inode) same₂
          ∙ ap (λ (x : FileSystem). x.cur_dir_inode) same
          ∙ m.current in
        (
          b,
          u,
          record {
            outcome =
                dir_make_checked b s t u absent e one count e₂
                ∙ make_entry-made junk name b u lt root;
            not_super = ground (arith, m.used 0, clear);
            super_used =
                ap (λ (x : FileSystem). get_bit x.block_map 0) same₂
                ∙ ground (arith, taken.marked 0, m.used 0);
            same_dir =
                ap (λ (x : FileSystem). x.cur_dir) same₂ ∙ ap (λ (x : FileSystem). x.cur_dir) same;
            same_root =
                ap (λ (x : FileSystem). x.cur_dir_inode) same₂
                ∙ ap (λ (x : FileSystem). x.cur_dir_inode) same;
            same_disk =
                ap (λ (x : FileSystem). x.disk) same₂ ∙ ap (λ (x : FileSystem). x.disk) same;
            same_inodes =
                ap (λ (x : FileSystem). x.inodes) same₂ ∙ ap (λ (x : FileSystem). x.inodes) same;
          },
        )
  ]

  -- If the program starts with its globals 0, then after `fs_mount` of a new disk and `mkdir` of
  -- a name other than "." and "..", both of which succeed, the current directory is on the disk in
  -- block 131, and block 0, which is in use as that of the superblock, is as it was. The `cd` to
  -- the new directory, which is the first one, succeeds, sets `curDirInode` to 1 and overwrites block
  -- 0 with the root directory.
  pub dir_change-mount_new :
      (s : FileSystem)
      → IsZero s
      → (s.inodes meta_blocks).direct_block 0 ≡ 0
      → name ≢ dot
      → name ≢ dot_dot
      → (s₁ : FileSystem) × (s₂ : FileSystem) × (s₃ : FileSystem) × (mount_new s ≡ some s₁)
        × (dir_make junk name s₁ ≡ (done, s₂))
        × (get_bit s₂.block_map 0 ≡ 1)
        × (s₂.disk 0 ≡ s.disk 0)
        × (s₂.disk meta_blocks ≡ folder s₂.cur_dir)
        × (dir_change junk name s₂ ≡ (done, s₃))
        × (s₃.cur_dir_inode ≡ 1)
        × (s₃.disk 0 ≡ folder s₂.cur_dir)
  dir_change-mount_new s z unused not_dot not_dot_dot =
      let (s₁, m) = mount_new-Mounted s z in
      let (b, t, f) = dir_make-FirstMade s s₁ m not_dot in
      let s₂ = made junk name b t in
      let root = f.same_root ∙ m.current in
      let (stays, kept, on_disk, maps, inode) = made_rest junk name b t f.not_super root in
      let absent =
        search_same name s₁ t f.same_dir ∙ only_dot name s₁ m.one_entry m.first_entry not_dot in
      let found = made_search junk name b t absent in
      let first_block : (s₂.inodes meta_blocks).direct_block 0 ≡ 0 =
        ap (λ (n : Inode). n.direct_block 0)
          (inode ∙ ap (λ g. g meta_blocks) f.same_inodes ∙ m.others meta_blocks (omega arith))
        ∙ unused in
      let (over, _, at, succeeds) =
        dir_change-superblock junk name s₂ (not_same name dot not_dot)
          (not_same name dot_dot not_dot_dot) found stays first_block in
      (
        s₁,
        s₂,
        (dir_change junk name s₂).1,
        m.mounted,
        f.outcome,
        ap (λ a. get_bit a 0) maps ∙ f.super_used,
        kept ∙ ap (λ g. g 0) f.same_disk ∙ m.disk 0 (omega arith),
        on_disk,
        ap (λ o. (o, (dir_change junk name s₂).1)) succeeds,
        at,
        over,
      )
