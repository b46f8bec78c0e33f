-- ===== src/Fs/Counts.antt =====
-- What the commands of p4 are made of keeps the counts of free inodes and blocks right.
pub mod Commands
pub mod Freed
pub mod Removed
use csci4730_operating_syste.Base.{
  ℕ, zero, suc, ◌+◌, ◌-◌, ◌≡◌, Bool, true, false, Option, none, some, List, arith, ltb,
  if◌then◌else◌, less, increment, Bool-cases, Option-cases, ◌⊎◌, inl, inr, ◌||◌, ◌&&◌,
}
use csci4730_operating_syste.Fs.State.{Inode, Block, FileSystem, max_block, max_dir_entry}
use csci4730_operating_syste.Fs.Alloc.{get_inode, get_block}
use csci4730_operating_syste.Fs.Alloc.Laws.{AreCounted, get_inode_lem, get_block_lem}
use csci4730_operating_syste.Fs.Access.{
  Junk, Outcome, done, failed, bad_size, directory_full, inodes_full, blocks_full, is_a_directory,
  search_cur_dir, write_inode, write_disk_block, add_entry,
}
use csci4730_operating_syste.Fs.Directory.{
  is_directory, make_entry, make_checked, dir_make, enter, dir_change,
}
use csci4730_operating_syste.Fs.File.{
  direct_size, direct_rounds, indirect_rounds, part, num_block, new_file, lacks_blocks, continue,
  store_block, store_blocks, store_indirect, store_data, write_created, create_entry,
  create_checked, file_create,
}
use csci4730_operating_syste.Fs.Links.{
  source_block, source_indirect, copy_inode, link_source, link_found, hard_link, write_copied,
  copy_entry, copy_found, file_copy,
}

-- The state that an operation returns has the right counts.
abbrev pub Keeps {ℓ} : {A : Type ℓ} → A × FileSystem → Type 0
Keeps r = AreCounted r.1

-- One of two outcomes.
pub Keeps-if :
    {A : Type 0} (b : Bool) (r r' : A × FileSystem)
    → Keeps r
    → Keeps r'
    → Keeps (if b then r else r')
Keeps-if true r r' h h' = h
Keeps-if false r r' h h' = h'

get_inode-Keeps : (s : FileSystem) → AreCounted s → Keeps (get_inode s)
get_inode-Keeps s c = elim (get_inode_lem s c) [
  | inl (e, _, _) ↦ rw e c
  | inr (i, s', e, _, _, c') ↦ rw e c'
]

get_block-Keeps : (s : FileSystem) → AreCounted s → Keeps (get_block s)
get_block-Keeps s c = elim (get_block_lem s c) [
  | inl (e, _, _) ↦ rw e c
  | inr (b, s', e, _, _, c') ↦ rw e c'
]

add_entry-Keeps :
    (name : List ℕ) (i : ℕ) (s : FileSystem) → AreCounted s → AreCounted (add_entry name i s)
unfolding add_entry
add_entry-Keeps name i s c = record { inodes = c.inodes; blocks = c.blocks }

write_inode-Keeps :
    (i : ℕ) (n : Inode) (s : FileSystem) → AreCounted s → AreCounted (write_inode i n s)
unfolding write_inode
write_inode-Keeps i n s c = record { inodes = c.inodes; blocks = c.blocks }

write_disk_block-Keeps :
    (b : ℕ) (buf : Block) (s : FileSystem) → AreCounted s → AreCounted (write_disk_block b buf s)
unfolding write_disk_block
write_disk_block-Keeps b buf s c = elim (Bool-cases (ltb b max_block)) [
  | inl inside ↦ rw inside (record { inodes = c.inodes; blocks = c.blocks })
  | inr outside ↦ rw outside c
]

store_block-Keeps :
    (buf : Block) (j : ℕ) (blocks : ℕ → ℕ) (r : Option ℕ × FileSystem)
    → Keeps r
    → Keeps (store_block buf j blocks r)
unfolding store_block
store_block-Keeps buf j blocks (none, s) c = c
store_block-Keeps buf j blocks (some b, s) c = write_disk_block-Keeps b buf s c

continue-Keeps :
    {A : Type 0} (r : Option (ℕ → ℕ) × FileSystem)
    (f : (ℕ → ℕ) → FileSystem → Option A × FileSystem)
    → Keeps r
    → ((blocks : ℕ → ℕ) (s : FileSystem) → AreCounted s → Keeps (f blocks s))
    → Keeps (continue r f)
continue-Keeps (none, s) f c h = c
continue-Keeps (some blocks, s) f c h = h blocks s c

store_blocks-Keeps :
    (k i base : ℕ) (contents : ℕ → FileSystem → Block) (blocks : ℕ → ℕ) (s : FileSystem)
    → AreCounted s
    → Keeps (store_blocks k i base contents blocks s)
unfolding store_blocks
store_blocks-Keeps zero i base contents blocks s c = c
store_blocks-Keeps (suc k) i base contents blocks s c =
    continue-Keeps (store_block (contents i (get_block s).1) (i - base) blocks (get_block s)) _
      (store_block-Keeps (contents i (get_block s).1) (i - base) blocks (get_block s)
        (get_block-Keeps s c))
      λ blocks' s'. store_blocks-Keeps k (i + 1) base contents blocks' s'

write_created-Keeps :
    (junk : Junk) (i : ℕ) (r : Option Inode × FileSystem) → Keeps r → Keeps (write_created junk i r)
unfolding write_created
write_created-Keeps junk i (none, s) c = c
write_created-Keeps junk i (some inode, s) c = write_inode-Keeps i inode s c

module _ (junk : Junk) where
  store_indirect-Keeps :
      (n : ℕ) (contents : FileSystem → ℕ → FileSystem → Block) (inode : Inode)
      (r : Option ℕ × FileSystem)
      → Keeps r
      → Keeps (store_indirect junk n contents inode r)
  unfolding store_indirect
  store_indirect-Keeps n contents inode (none, s) c = c
  store_indirect-Keeps n contents inode (some b, s) c =
      continue-Keeps (store_blocks _ 15 15 (contents s) junk.map s) _
        (store_blocks-Keeps _ 15 15 (contents s) junk.map s c)
        λ blocks s'. write_disk_block-Keeps b _ s'

  store_data-Keeps :
      (n : ℕ) (direct : ℕ → FileSystem → Block) (indirect : FileSystem → ℕ → FileSystem → Block)
      (inode : Inode) (s : FileSystem)
      → AreCounted s
      → Keeps (store_data junk n direct indirect inode s)
  unfolding store_data
  store_data-Keeps n direct indirect inode s c =
      let new : (ℕ → ℕ) → Inode = λ blocks. record inode { direct_block = blocks } in
      let second : (ℕ → ℕ) → FileSystem → Option Inode × FileSystem =
        λ blocks s'. store_indirect junk n indirect (new blocks) (get_block s') in
      continue-Keeps {A = Inode} (store_blocks (direct_rounds n) 0 0 direct inode.direct_block s)
        (λ blocks s'.
          if less direct_size inode.size then second blocks s' else (some (new blocks), s'))
        (store_blocks-Keeps (direct_rounds n) 0 0 direct inode.direct_block s c)
        λ blocks s' c'.
          Keeps-if {A = Option Inode} (less direct_size inode.size) (second blocks s')
            (some (new blocks), s')
            (store_indirect-Keeps n indirect (new blocks) (get_block s') (get_block-Keeps s' c')) c'

  create_entry-Keeps :
      (name : List ℕ) (size : ℕ) (tmp : ℕ → ℕ) (r : Option ℕ × FileSystem)
      → Keeps r
      → Keeps (create_entry junk name size tmp r)
  unfolding create_entry
  create_entry-Keeps name size tmp (none, s) c = c
  create_entry-Keeps name size tmp (some i, s) c =
      write_created-Keeps junk i
        (store_data junk (num_block size) (λ k _. part tmp k) (λ _ k _. part tmp k)
          (new_file junk size) (add_entry name i s))
        (store_data-Keeps (num_block size) (λ k _. part tmp k) (λ _ k _. part tmp k)
          (new_file junk size) (add_entry name i s) (add_entry-Keeps name i s c))
