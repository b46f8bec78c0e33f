-- ===== src/Fs/Mount/Saved.antt =====
-- What `fs_umount` of p4/fs.c leaves on the disk.
use csci4730_operating_syste.Base.{
  ℕ, zero, suc, ◌+◌, ◌*◌, ◌<◌, ◌≤◌, ◌≡◌, refl, ◌≢◌, ◌∙◌, ap, arith, ltb, ◌==◌, true, false,
}
use mathlib.Core.Path.{subst}
use csci4730_operating_syste.Fs.Bitmap.{update}
use csci4730_operating_syste.Fs.State.{
  Inode, Block, folder, super_block, bit_map, inode_block, FileSystem, max_block,
}
use csci4730_operating_syste.Fs.Access.{write_disk_block}
use csci4730_operating_syste.Fs.Mount.{save_inodes, fs_umount}

write_inside :
    (b : ℕ) (buf : Block) (s : FileSystem)
    → b < max_block
    → write_disk_block b buf s ≡ record s { disk = update s.disk b buf }
unfolding write_disk_block
write_inside b buf s lt = let inside : ltb b max_block ≡ true = ground (arith, lt) in rw inside refl

-- The blocks behind the loop over the inodes.
abbrev inodes_saved : ℕ → ℕ → (ℕ → Inode) → (ℕ → Block) → ℕ → Block
inodes_saved zero i inodes disk = disk
inodes_saved (suc k) i inodes disk =
    inodes_saved k (i + 1) inodes (update disk (i + 3) (inode_block (λ j. inodes (4 * i + j))))

save_inodes-disk :
    (k i : ℕ) (s : FileSystem)
    → i + k + 3 ≤ max_block
    → save_inodes k i s ≡ record s { disk = inodes_saved k i s.inodes s.disk }
unfolding save_inodes
save_inodes-disk zero i s fits = refl
save_inodes-disk (suc k) i s fits =
    let buf = inode_block (λ j. s.inodes (4 * i + j)) in
    ap (save_inodes k (i + 1)) (write_inside (i + 3) buf s (omega (arith, fits)))
    ∙ save_inodes-disk k (i + 1) (record s { disk = update s.disk (i + 3) buf })
        (omega (arith, fits))

inodes_saved_before :
    (k i j : ℕ) (inodes : ℕ → Inode) (disk : ℕ → Block)
    → j < i + 3
    → inodes_saved k i inodes disk j ≡ disk j
inodes_saved_before zero i j inodes disk lt = refl
inodes_saved_before (suc k) i j inodes disk lt =
    let here : (j == i + 3) ≡ false = ground (arith, lt) in
    inodes_saved_before k (i + 1) j inodes _ (omega (arith, lt)) ∙ rw here refl

inodes_saved_behind :
    (k i j : ℕ) (inodes : ℕ → Inode) (disk : ℕ → Block)
    → i + k + 3 ≤ j
    → inodes_saved k i inodes disk j ≡ disk j
inodes_saved_behind zero i j inodes disk le = refl
inodes_saved_behind (suc k) i j inodes disk le =
    let here : (j == i + 3) ≡ false = ground (arith, le) in
    inodes_saved_behind k (i + 1) j inodes _ (omega (arith, le)) ∙ rw here refl

inodes_saved_at :
    (k i m : ℕ) (inodes : ℕ → Inode) (disk : ℕ → Block)
    → m < k
    → inodes_saved k i inodes disk (i + m + 3) ≡ inode_block (λ j. inodes (4 * (i + m) + j))
inodes_saved_at zero i m inodes disk lt = absurd (omega (arith, lt))
inodes_saved_at (suc k) i zero inodes disk lt =
    let here : (i + 0 + 3 == i + 3) ≡ true = ground arith in
    let same : i ≡ i + 0 = omega arith in
    inodes_saved_before k (i + 1) (i + 0 + 3) inodes _ (omega arith)
    ∙ rw here (ap (λ n. inode_block (λ j. inodes (4 * n + j))) same)
inodes_saved_at (suc k) i (suc m) inodes disk lt =
    let disk' = update disk (i + 3) (inode_block (λ j. inodes (4 * i + j))) in
    let same : i + 1 + m ≡ i + suc m = omega arith in
    subst (λ n. inodes_saved k (i + 1) inodes disk' (n + 3) ≡ inode_block (λ j. inodes (4 * n + j)))
      same (inodes_saved_at k (i + 1) m inodes disk' (omega (arith, lt)))

inodes_saved_of :
    (m : ℕ) (inodes : ℕ → Inode) (disk : ℕ → Block)
    → m < 128
    → inodes_saved 128 0 inodes disk (m + 3) ≡ inode_block (λ j. inodes (4 * m + j))
inodes_saved_of m inodes disk lt =
    let same : 0 + m ≡ m = omega arith in
    subst (λ n. inodes_saved 128 0 inodes disk (n + 3) ≡ inode_block (λ j. inodes (4 * n + j))) same
      (inodes_saved_at 128 0 m inodes disk lt)

-- The disk behind `fs_umount`.
abbrev disk_saved : FileSystem → ℕ → Block
disk_saved s =
    let d₁ = update s.disk 0 (super_block s.magic_number s.free_block_count s.free_inode_count) in
    let d₃ = update (update d₁ 1 (bit_map s.inode_map)) 2 (bit_map s.block_map) in
    update (inodes_saved 128 0 s.inodes d₃) s.cur_dir_inode (folder s.cur_dir)

fs_umount-disk :
    (s : FileSystem) → s.cur_dir_inode < max_block → fs_umount s ≡ record s { disk = disk_saved s }
unfolding fs_umount
fs_umount-disk s inside =
    let b₀ = super_block s.magic_number s.free_block_count s.free_inode_count in
    let s₁ : FileSystem = record s { disk = update s.disk 0 b₀ } in
    let s₂ : FileSystem = record s { disk = update s₁.disk 1 (bit_map s.inode_map) } in
    let s₃ : FileSystem = record s { disk = update s₂.disk 2 (bit_map s.block_map) } in
    let s₄ : FileSystem = record s { disk = inodes_saved 128 0 s.inodes s₃.disk } in
    let e₁ = write_inside 0 b₀ s (omega arith) in
    let e₂ = write_inside 1 (bit_map s.inode_map) s₁ (omega arith) in
    let e₃ = write_inside 2 (bit_map s.block_map) s₂ (omega arith) in
    let e₄ = save_inodes-disk 128 0 s₃ (omega arith) in
    let e₅ = write_inside s.cur_dir_inode (folder s.cur_dir) s₄ inside in rw (e₁, e₂, e₃, e₄) e₅

-- What is saved of a state: the counts, the maps, the inodes, the current directory, and the other blocks.
pub record Saved (s t : FileSystem) : Type 0 where
  pub super : t.disk 0 ≡ super_block s.magic_number s.free_block_count s.free_inode_count
  pub inode_map : t.disk 1 ≡ bit_map s.inode_map
  pub block_map : t.disk 2 ≡ bit_map s.block_map
  pub inodes : (m : ℕ) → m < 128 → t.disk (m + 3) ≡ inode_block (λ j. s.inodes (4 * m + j))
  pub current : t.disk s.cur_dir_inode ≡ folder s.cur_dir
  pub others : (j : ℕ) → 131 ≤ j → j ≢ s.cur_dir_inode → t.disk j ≡ s.disk j
  pub rest : t ≡ record s { disk = t.disk }

update_ne : (f : ℕ → Block) (i j : ℕ) (b : Block) → j ≢ i → update f i b j ≡ f j
update_ne f i j b ne = ground (arith, ne)

update_self : (f : ℕ → Block) (i : ℕ) (b : Block) → update f i b i ≡ b
update_self f i b = ground arith

-- Where `curDirInode` is the number of a block behind the meta data, as before the first `cd`, `fs_umount`
-- writes the counts, both maps, all inodes and the current directory to their blocks, each where `fs_mount`
-- reads it, leaves the blocks of all files and other directories as they were, and changes only the disk.
pub fs_umount-Saved :
    (s : FileSystem) → 131 ≤ s.cur_dir_inode → s.cur_dir_inode < max_block → Saved s (fs_umount s)
fs_umount-Saved s behind inside =
    let b₀ = super_block s.magic_number s.free_block_count s.free_inode_count in
    let d₁ = update s.disk 0 b₀ in
    let d₂ = update d₁ 1 (bit_map s.inode_map) in
    let d₃ = update d₂ 2 (bit_map s.block_map) in
    let d₄ = inodes_saved 128 0 s.inodes d₃ in
    let last = update_ne d₄ s.cur_dir_inode in
    rw (fs_umount-disk s inside) (record {
      super =
          last 0 _ (omega (arith, behind)) ∙ inodes_saved_before 128 0 0 s.inodes d₃ (omega arith);
      inode_map =
          last 1 _ (omega (arith, behind)) ∙ inodes_saved_before 128 0 1 s.inodes d₃ (omega arith);
      block_map =
          last 2 _ (omega (arith, behind)) ∙ inodes_saved_before 128 0 2 s.inodes d₃ (omega arith);
      inodes =
          λ m lt. last (m + 3) _ (omega (arith, behind, lt)) ∙ inodes_saved_of m s.inodes d₃ lt;
      current = update_self d₄ s.cur_dir_inode (folder s.cur_dir);
      others = λ j le ne.
          last j _ ne ∙ (inodes_saved_behind 128 0 j s.inodes d₃ le ∙ ground (arith, le));
      rest = refl;
    })
