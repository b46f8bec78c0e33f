-- ===== src/Fs/Counts/Removed.antt =====
-- `rm` and `rmdir` of p4 keep the counts of free inodes and blocks right.
use csci4730_operating_syste.Fs.Counts.{write_inode-Keeps}
use csci4730_operating_syste.Base.{
  ℕ, zero, suc, ◌+◌, ◌≡◌, refl, Bool, true, false, Option, none, some, List, ltb, if◌then◌else◌,
  less, not, ◌==◌, Bool-cases, inl, inr, ltb→lt,
}
use csci4730_operating_syste.Fs.State.{Inode, Dentry, FileSystem, max_inode, max_block}
use csci4730_operating_syste.Fs.State
use csci4730_operating_syste.Fs.Alloc.{free_inode, free_block}
use csci4730_operating_syste.Fs.Alloc.Laws.{AreCounted, free_inode_lem, free_block_lem}
use csci4730_operating_syste.Fs.Access.{
  Junk, same_string, remove_entry, search_cur_dir, read_inode, read_disk_block, as_map, as_folder,
}
use csci4730_operating_syste.Fs.Directory.{
  is_directory, free_blocks, then_do, finished, rounds, remove_directory, remove_checked,
  dir_remove, dot, dot_dot,
}
use csci4730_operating_syste.Fs.File.{direct_size, direct_rounds, indirect_rounds, num_block}
use csci4730_operating_syste.Fs.Links.{free_indirect, free_file, remove_found, file_remove}

-- A state, if there was no fault, has the right counts.
abbrev Kept : Option FileSystem → Type 0
Kept none = Unit {0}
Kept (some s) = AreCounted s

abbrev pub KeptWith : {A : Type 0} → Option (A × FileSystem) → Type 0
KeptWith none = Unit {0}
KeptWith (some (a, s)) = AreCounted s

free_block_outside : (b : ℕ) (s : FileSystem) → ltb b max_block ≡ false → free_block b s ≡ none
unfolding free_block
free_block_outside b s outside = rw outside refl

free_inode_outside : (i : ℕ) (s : FileSystem) → ltb i max_inode ≡ false → free_inode i s ≡ none
unfolding free_inode
free_inode_outside i s outside = rw outside refl

Kept-of : (o : Option FileSystem) (s' : FileSystem) → o ≡ some s' → AreCounted s' → Kept o
Kept-of o s' e c = rw e c

free_block-Kept : (b : ℕ) (s : FileSystem) → AreCounted s → Kept (free_block b s)
free_block-Kept b s c = elim (Bool-cases (ltb b max_block)) [
  | inl inside ↦
      let (s', e, c', clear, count, rest, same) =
        free_block_lem s c b (ltb→lt b max_block inside) in
      Kept-of (free_block b s) s' e c'
  | inr outside ↦ rw (free_block_outside b s outside) tt
]

free_inode-Kept : (i : ℕ) (s : FileSystem) → AreCounted s → Kept (free_inode i s)
free_inode-Kept i s c = elim (Bool-cases (ltb i max_inode)) [
  | inl inside ↦
      let (s', e, c', clear, count, rest, same) =
        free_inode_lem s c i (ltb→lt i max_inode inside) in
      Kept-of (free_inode i s) s' e c'
  | inr outside ↦ rw (free_inode_outside i s outside) tt
]

remove_entry-Keeps :
    (name : List ℕ) (s : FileSystem) → AreCounted s → AreCounted (remove_entry name s)
unfolding remove_entry
remove_entry-Keeps name s c = record { inodes = c.inodes; blocks = c.blocks }

pub KeptWith-if :
    {A : Type 0} (b : Bool) (o p : Option (A × FileSystem))
    → KeptWith o
    → KeptWith p
    → KeptWith (if b then o else p)
KeptWith-if true o p h h' = h
KeptWith-if false o p h h' = h'

module _ (junk : Junk) where
  then_do-Kept :
      (o : Option FileSystem) (f : FileSystem → Option FileSystem)
      → Kept o
      → ((s : FileSystem) → AreCounted s → Kept (f s))
      → Kept (then_do junk o f)
  then_do-Kept none f c h = tt
  then_do-Kept (some s) f c h = h s c

  free_blocks-Kept :
      (k i : ℕ) (blocks : ℕ → ℕ) (s : FileSystem)
      → AreCounted s
      → Kept (free_blocks junk k i blocks s)
  unfolding free_blocks
  free_blocks-Kept zero i blocks s c = c
  free_blocks-Kept (suc k) i blocks s c =
      then_do-Kept (free_block (blocks i) s) _ (free_block-Kept (blocks i) s c)
        λ s' c'. free_blocks-Kept k (i + 1) blocks s' c'

  Kept-if : (b : Bool) (o p : Option FileSystem) → Kept o → Kept p → Kept (if b then o else p)
  Kept-if true o p h h' = h
  Kept-if false o p h h' = h'

  finished-Kept : (o : Option FileSystem) → Kept o → KeptWith (finished junk o)
  finished-Kept none c = tt
  finished-Kept (some s) c = c

  free_file-Kept :
      (i : ℕ) (inode : Inode) (s : FileSystem) → AreCounted s → Kept (free_file junk i inode s)
  unfolding free_file free_indirect
  free_file-Kept i inode s c =
      let n = num_block inode.size in
      let first = free_blocks junk (direct_rounds n) 0 inode.direct_block s in
      then_do-Kept (then_do junk first (free_indirect junk inode)) (free_inode i)
        (then_do-Kept first (free_indirect junk inode)
          (free_blocks-Kept (direct_rounds n) 0 inode.direct_block s c)
          λ s' c'.
            let blocks =
              as_map junk (read_disk_block inode.indirect_block (State.Block.map junk.map) s') in
            Kept-if (less direct_size inode.size) _ (some s')
              (then_do-Kept (free_blocks junk (indirect_rounds n) 0 blocks s')
                (free_block inode.indirect_block)
                (free_blocks-Kept (indirect_rounds n) 0 blocks s' c')
                λ s₂ c₂. free_block-Kept inode.indirect_block s₂ c₂)
              c')
        λ s' c'. free_inode-Kept i s' c'

  remove_found-Kept :
      (name : List ℕ) (found : Option ℕ) (s : FileSystem)
      → AreCounted s
      → KeptWith (remove_found junk name found s)
  unfolding remove_found
  remove_found-Kept name none s c = c
  remove_found-Kept name (some i) s c =
      let inode = s.inodes i in
      let c' = remove_entry-Keeps name s c in
      KeptWith-if (is_directory junk inode) _ _ c (
        KeptWith-if (s.cur_dir.num_entry == 0) _ _ c (
          KeptWith-if (inode.link_count == 1) _ _
            (finished-Kept (free_file junk i inode (remove_entry name s))
              (free_file-Kept i inode (remove_entry name s) c'))
            (write_inode-Keeps i _ (remove_entry name s) c')))

  pub file_remove-Kept :
      (name : List ℕ) (s : FileSystem) → AreCounted s → KeptWith (file_remove junk name s)
  unfolding file_remove
  file_remove-Kept name s c = remove_found-Kept name (search_cur_dir name s) s c

  remove_directory-Kept :
      (name : List ℕ) (i : ℕ) (inode : Inode) (s : FileSystem)
      → AreCounted s
      → KeptWith (remove_directory junk name i inode s)
  unfolding remove_directory
  remove_directory-Kept name i inode s c =
      let first =
        free_blocks junk (rounds junk inode.block_count) 0 inode.direct_block
          (remove_entry name s) in
      finished-Kept _ (
        then_do-Kept (then_do junk first _) (free_inode i)
          (then_do-Kept first _
            (free_blocks-Kept (rounds junk inode.block_count) 0 inode.direct_block
              (remove_entry name s) (remove_entry-Keeps name s c))
            λ s' c'.
              Kept-if (less direct_size inode.size) (free_block inode.indirect_block s') (some s')
                (free_block-Kept inode.indirect_block s' c') c')
          λ s' c'. free_inode-Kept i s' c')

  remove_checked-Kept :
      (name : List ℕ) (found : Option ℕ) (inode : Inode) (content : Dentry) (s : FileSystem)
      → AreCounted s
      → KeptWith (remove_checked junk name found inode content s)
  unfolding remove_checked
  remove_checked-Kept name none inode content s c = c
  remove_checked-Kept name (some i) inode content s c =
      KeptWith-if (not (is_directory junk inode)) _ _ c (
        KeptWith-if (same_string dot name) _ _ c (
          KeptWith-if (same_string dot_dot name) _ _ c (
            KeptWith-if (less 2 content.num_entry) _ _ c (remove_directory-Kept name i inode s c))))

  pub dir_remove-Kept :
      (name : List ℕ) (s : FileSystem) → AreCounted s → KeptWith (dir_remove junk name s)
  unfolding dir_remove
  dir_remove-Kept name s c =
      let found = search_cur_dir name s in
      let inode = read_inode found s in
      let first = read_disk_block (inode.direct_block 0) (State.folder junk.folder) s in
      remove_checked-Kept name found inode (as_folder junk first) s c
