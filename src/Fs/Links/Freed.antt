-- ===== src/Fs/Links/Freed.antt =====
-- p4/file.c: what `file_remove` gives back with the last link of a file.
use csci4730_operating_syste.Base.{
  ℕ, ◌+◌, ◌-◌, ◌≤◌, ◌<◌, ◌≡◌, refl, ◌≢◌, true, false, some, List, arith, ltb, ◌==◌, less,
  if◌then◌else◌, ap, sym, ◌∙◌, Bool-cases, inl, inr,
}
use mathlib.Core.Path.{subst}
use csci4730_operating_syste.Fs.Bitmap.{get_bit}
use csci4730_operating_syste.Fs.Bitmap.Count.{clear_count}
use csci4730_operating_syste.Fs.State.{Inode, FileSystem, max_inode}
use csci4730_operating_syste.Fs.State
use csci4730_operating_syste.Fs.Alloc.{free_block}
use csci4730_operating_syste.Fs.Alloc.Laws.{AreCounted, free_inode_lem}
use csci4730_operating_syste.Fs.Access.{
  Junk, done, search_cur_dir, read_disk_block, as_map, remove_entry,
}
use csci4730_operating_syste.Fs.Directory.{is_directory, free_blocks, then_do, finished}
use csci4730_operating_syste.Fs.File.{direct_size, num_block, direct_rounds, indirect_rounds}
use csci4730_operating_syste.Fs.File.Content.{num_block-bounds, small_size, large_size}
use csci4730_operating_syste.Fs.File.Create.{needed}
use csci4730_operating_syste.Fs.Counts.Freed.{
  Owned, Freed, free_block-Freed, Owned-first, Owned-rest, Freed-both, free_blocks-same,
  free_blocks-Freed,
}
use csci4730_operating_syste.Fs.Links.{free_indirect, free_file, remove_found, file_remove}

-- The numbers in the indirect block.
abbrev mapped : Junk → Inode → FileSystem → ℕ → ℕ
mapped junk inode s =
    as_map junk (read_disk_block inode.indirect_block (State.Block.map junk.map) s)

-- The blocks of a file in the order in which they are freed: the direct ones, those in the indirect
-- block, and the indirect block.
abbrev pub held_block : Junk → Inode → FileSystem → ℕ → ℕ
held_block junk inode s k =
    if ltb k 15
    then inode.direct_block k
    else if k == num_block inode.size
    then inode.indirect_block
    else mapped junk inode s (k - 15)

mapped-disk :
    (junk : Junk) (inode : Inode) (s s' : FileSystem)
    → s'.disk ≡ s.disk
    → mapped junk inode s' ≡ mapped junk inode s
unfolding read_disk_block
mapped-disk junk inode s s' e = rw e refl

module _ (junk : Junk) (inode : Inode) (s : FileSystem) (c : AreCounted s) where
  abbrev held : ℕ → ℕ
  held = held_block junk inode s

  abbrev total : ℕ
  total = num_block inode.size

  -- The loops over the blocks, and the indirect block.
  abbrev GivesBack : ℕ → Type 0
  GivesBack n =
      (s' : FileSystem) × (then_do junk
          (free_blocks junk (direct_rounds total) 0 inode.direct_block s) (free_indirect junk inode)
        ≡ some s')
      × Freed n 0 held s s'

  given_small :
      total ≤ 15 → less direct_size inode.size ≡ false → Owned total 0 held s → GivesBack total
  unfolding free_indirect
  given_small few small o =
      let (s', e, f) = free_blocks-Freed junk total 0 held s c o in
      let rounds : direct_rounds total ≡ total = ground (arith, few) in
      let same =
        free_blocks-same junk total 0 0 inode.direct_block held s
          (λ j lt. ground (arith, few, lt)) in
      (s', rw (rounds, same ∙ e, small) refl, f)

  held_through : (j : ℕ) → j < indirect_rounds total → mapped junk inode s (0 + j) ≡ held (15 + j)
  held_through j lt =
      let mapped_one : ltb (15 + j) 15 ≡ false = ground arith in
      let not_last : (15 + j == total) ≡ false = ground (arith, lt) in
      let at : 15 + j - 15 ≡ 0 + j = omega arith in rw (mapped_one, not_last, at) refl

  held_last : 15 < total → held (15 + indirect_rounds total) ≡ inode.indirect_block
  held_last more =
      let mapped_one : ltb (15 + indirect_rounds total) 15 ≡ false = ground arith in
      let at_end : (15 + indirect_rounds total == total) ≡ true = ground (arith, more) in
      rw (mapped_one, at_end) refl

  given_large :
      15 < total
      → less direct_size inode.size ≡ true
      → Owned (15 + (indirect_rounds total + 1)) 0 held s
      → GivesBack (15 + (indirect_rounds total + 1))
  unfolding free_indirect
  given_large more large o =
      let n = indirect_rounds total in
      let (s₁, e₁, f₁) =
        free_blocks-Freed junk 15 0 held s c (Owned-first 15 (n + 1) 0 held s s o) in
      let o₁ = Owned-rest 15 (n + 1) 0 held s s₁ o f₁ in
      let (s₂, e₂, f₂) =
        free_blocks-Freed junk n 15 held s₁ f₁.again (Owned-first n 1 15 held s₁ s₁ o₁) in
      let o₂ = Owned-rest n 1 15 held s₁ s₂ o₁ f₂ in
      let (s₃, e₃, f₃) =
        free_block-Freed (15 + n) held s₂ f₂.again (o₂.inside (15 + n) (omega arith) (omega arith))
          (o₂.in_use (15 + n) (omega arith) (omega arith)) in
      let rounds : direct_rounds total ≡ 15 = ground (arith, more) in
      let direct =
        free_blocks-same junk 15 0 0 inode.direct_block held s (λ j lt. ground (arith, lt)) in
      let disk = mapped-disk junk inode s s₁ (ap (λ (t : FileSystem). t.disk) f₁.rest) in
      let through =
        free_blocks-same junk n 0 15 (mapped junk inode s) held s₁ (λ j lt. held_through j lt) in
      let last : held (15 + n) ≡ inode.indirect_block = held_last more in
      (
        s₃,
        rw (rounds, direct ∙ e₁, large, disk, through ∙ e₂)
            (ap (λ b. free_block b s₂) (sym last) ∙ e₃),
        Freed-both 15 (n + 1) 0 held s s₁ s₃ o f₁ (Freed-both n 1 15 held s₁ s₂ s₃ o₁ f₂ f₃),
      )

  given : inode.size ≤ 73216 → Owned (needed inode.size) 0 held s → GivesBack (needed inode.size)
  given le o =
      let (low, high) = num_block-bounds inode.size in
      elim (Bool-cases (less direct_size inode.size)) [
        | inr small ↦
            let few = small_size inode.size le small in
            let n : needed inode.size ≡ total = ground arith in
            subst GivesBack (sym n)
              (given_small (omega arith) small (subst (λ k. Owned k 0 held s) n o))
        | inl large ↦
            let more = large_size inode.size le large in
            let n : needed inode.size ≡ 15 + (indirect_rounds total + 1) = ground arith in
            subst GivesBack (sym n)
              (given_large (omega arith) large (subst (λ k. Owned k 0 held s) n o))
      ]

-- What `rm` leaves of the file of inode `i` and of the blocks `blocks`, `k` in number.
pub record Removed (k i : ℕ) (blocks : ℕ → ℕ) (s s' : FileSystem) : Type 0 where
  pub again : AreCounted s'
  pub inode_count : s'.free_inode_count ≡ s.free_inode_count + 1
  pub block_count : s'.free_block_count ≡ s.free_block_count + k
  pub inode_clear : get_bit s'.inode_map i ≡ 0
  pub block_clear : (j : ℕ) → j < k → get_bit s'.block_map (blocks j) ≡ 0
  pub other_inodes : (j : ℕ) → j ≢ i → get_bit s'.inode_map j ≡ get_bit s.inode_map j
  pub other_blocks :
      (x : ℕ) → ((j : ℕ) → j < k → x ≢ blocks j) → get_bit s'.block_map x ≡ get_bit s.block_map x

module _ (junk : Junk) where
  free_file-Removed :
      (i : ℕ) (inode : Inode) (s : FileSystem)
      → AreCounted s
      → inode.size ≤ 73216
      → i < max_inode
      → get_bit s.inode_map i ≡ 1
      → Owned (needed inode.size) 0 (held_block junk inode s) s
      → (s' : FileSystem) × (free_file junk i inode s ≡ some s')
        × Removed (needed inode.size) i (held_block junk inode s) s s'
  unfolding free_file
  free_file-Removed i inode s c le lt used o =
      let (s₁, e, f) = given junk inode s c le o in
      let same_inodes : s₁.inode_map ≡ s.inode_map = ap (λ (t : FileSystem). t.inode_map) f.rest in
      let same_count : s₁.free_inode_count ≡ s.free_inode_count =
        ap (λ (t : FileSystem). t.free_inode_count) f.rest in
      let (s₂, e', c', clear, count, others, same) = free_inode_lem s₁ f.again i lt in
      let bit = λ (j : ℕ). ap (λ a. get_bit a j) same_inodes in
      let block = λ (x : ℕ). ap (λ a. get_bit a x) same in
      (
        s₂,
        rw e e',
        record {
          again = c';
          inode_count = omega (arith, count, bit i, used, same_count);
          block_count =
              c'.blocks.counted
              ∙ ap (clear_count State.max_block) same
              ∙ sym f.again.blocks.counted
              ∙ f.count;
          inode_clear = clear;
          block_clear = λ j high. block _ ∙ f.clear j (omega arith) (omega (arith, high));
          other_inodes = λ j ne. others j ne ∙ bit j;
          other_blocks = λ x ne. block x ∙ f.others x λ j low high. ne j (omega (arith, high));
        },
      )

  remove_found_last :
      (name : List ℕ) (s : FileSystem) (i : ℕ)
      → is_directory junk (s.inodes i) ≡ false
      → s.cur_dir.num_entry ≢ 0
      → (s.inodes i).link_count ≡ 1
      → remove_found junk name (some i) s
        ≡ finished junk (free_file junk i (s.inodes i) (remove_entry name s))
  unfolding remove_found
  remove_found_last name s i is_file entries last =
      let no_entry : (s.cur_dir.num_entry == 0) ≡ false = ground arith in
      rw (is_file, no_entry, last) refl

  -- If the name is a file's only one, its inode and its blocks are in use, no two of the blocks
  -- are the same, and the counts are right, `rm` succeeds and gives back all of it: the inode, each
  -- data block and the indirect block are free afterwards, the counts have grown by 1 and by the
  -- number of these blocks and are right again, and no other inode or block is freed or taken.
  pub file_remove-Removed :
      (name : List ℕ) (s : FileSystem) (i : ℕ)
      → AreCounted s
      → search_cur_dir name s ≡ some i
      → is_directory junk (s.inodes i) ≡ false
      → s.cur_dir.num_entry ≢ 0
      → (s.inodes i).link_count ≡ 1
      → (s.inodes i).size ≤ 73216
      → i < max_inode
      → get_bit s.inode_map i ≡ 1
      → Owned (needed (s.inodes i).size) 0 (held_block junk (s.inodes i) s) s
      → (s' : FileSystem) × (file_remove junk name s ≡ some (done, s'))
        × Removed (needed (s.inodes i).size) i (held_block junk (s.inodes i) s) s s'
  unfolding file_remove remove_entry read_disk_block
  file_remove-Removed name s i c found is_file entries last le lt used o =
      let (s', e, r) =
        free_file-Removed i (s.inodes i) (remove_entry name s)
          (record { inodes = c.inodes; blocks = c.blocks }) le lt used
          (record { inside = o.inside; in_use = o.in_use; distinct = o.distinct }) in
      (
        s',
        rw found (remove_found_last name s i is_file entries last ∙ ap (finished junk) e),
        record {
          again = r.again;
          inode_count = r.inode_count;
          block_count = r.block_count;
          inode_clear = r.inode_clear;
          block_clear = r.block_clear;
          other_inodes = r.other_inodes;
          other_blocks = r.other_blocks;
        },
      )
