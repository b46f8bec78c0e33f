-- ===== src/Fs/File/Same.antt =====
-- The loops of p4/file.c that take blocks, with contents that are read from the disk meanwhile.
use csci4730_operating_syste.Base.{
  ℕ, zero, suc, ◌+◌, ◌-◌, ◌≤◌, ◌<◌, ◌≡◌, refl, true, Option, arith, ltb, if◌then◌else◌, less,
  Bool-cases, inl, inr, ◌∙◌,
}
use mathlib.Core.Path.{subst}
use csci4730_operating_syste.Fs.Bitmap.{update}
use csci4730_operating_syste.Fs.State.{Inode, Block, FileSystem}
use csci4730_operating_syste.Fs.Alloc.{get_block}
use csci4730_operating_syste.Fs.Alloc.Laws.{AreCounted}
use csci4730_operating_syste.Fs.Access.{Junk, write_disk_block}
use csci4730_operating_syste.Fs.File.{
  direct_size, part, direct_rounds, indirect_rounds, store_block, store_blocks, store_indirect,
  store_data,
}
use csci4730_operating_syste.Fs.File.Store.{
  KeepsUsed, KeepsUsed-trans, TookBlock-write, store_blocks-Filled,
}
use csci4730_operating_syste.Fs.File.Data.{get_block-Got}

get_block-KeepsUsed :
    (s : FileSystem) → AreCounted s → 0 < s.free_block_count → KeepsUsed s (get_block s).1
get_block-KeepsUsed s c free = let (b, s', e, got) = get_block-Got s c free in rw e got.keeps

-- From `s` on, as long as its blocks in use keep what they hold, the contents are those of `tmp`.
abbrev pub Gives : (tmp : ℕ → ℕ) → (ℕ → FileSystem → Block) → (i end : ℕ) → FileSystem → Type 0
Gives tmp contents i end s =
    (t : FileSystem) → KeepsUsed s t → (m : ℕ) → i ≤ m → m < end → contents m t ≡ part tmp m

pub store_blocks-same :
    (tmp : ℕ → ℕ) (contents : ℕ → FileSystem → Block) (k i base : ℕ) (blocks : ℕ → ℕ)
    (s : FileSystem)
    → AreCounted s
    → k ≤ s.free_block_count
    → Gives tmp contents i (i + k) s
    → store_blocks k i base contents blocks s ≡ store_blocks k i base (λ m _. part tmp m) blocks s
unfolding store_blocks store_block
store_blocks-same tmp contents zero i base blocks s c enough gives = refl
store_blocks-same tmp contents (suc k) i base blocks s c enough gives =
    let (b, s₁, e, clear, took) = TookBlock-write s (part tmp i) c (omega arith) in
    let here : contents i s₁ ≡ part tmp i =
      gives s₁
        (subst (λ (r : Option ℕ × FileSystem). KeepsUsed s r.1) e
          (get_block-KeepsUsed s c (omega arith)))
        i (omega arith) (omega arith) in
    let rest =
      store_blocks-same tmp contents k (i + 1) base (update blocks (i - base) b)
        (write_disk_block b (part tmp i) s₁) took.counted (omega (arith, took.fewer))
        λ t keeps m low high.
          gives t (KeepsUsed-trans took.keeps keeps) m (omega arith) (omega arith) in
    rw (e, here) rest

left_for_rest :
    (n left free : ℕ)
    → left + direct_rounds n ≡ free
    → n + (if ltb 15 n then 1 else 0) ≤ free
    → 15 < n
    → n - 15 + 1 ≤ left
left_for_rest n left free e enough more = ground arith

module _ (junk : Junk) (tmp : ℕ → ℕ) (n : ℕ) (direct : ℕ → FileSystem → Block)
    (indirect : FileSystem → ℕ → FileSystem → Block) where
  -- The contents of the second half, whose map is read when its first block has been taken.
  abbrev pub GivesRest : FileSystem → Type 0
  GivesRest s = (t : FileSystem) → KeepsUsed s t → Gives tmp (indirect t) 15 n t

  store_indirect-same :
      (inode : Inode) (s : FileSystem)
      → AreCounted s
      → n - 15 + 1 ≤ s.free_block_count
      → 15 < n
      → GivesRest s
      → store_indirect junk n indirect inode (get_block s)
        ≡ store_indirect junk n (λ _ k _. part tmp k) inode (get_block s)
  unfolding store_indirect
  store_indirect-same inode s c enough more gives =
      let (b, s₁, e, got) = get_block-Got s c (omega arith) in
      let same =
        store_blocks-same tmp (indirect s₁) (indirect_rounds n) 15 15 junk.map s₁ got.counted
          (omega (arith, got.fewer))
          λ t keeps m low high. gives s₁ got.keeps t keeps m low (omega arith) in
      rw (e, same) refl

  -- If the contents stay those of `tmp` while blocks are taken, the data is stored as if they were
  -- given by `tmp`.
  pub store_data-same :
      (inode : Inode) (s : FileSystem)
      → AreCounted s
      → (less direct_size inode.size ≡ true → 15 < n)
      → n + (if ltb 15 n then 1 else 0) ≤ s.free_block_count
      → Gives tmp direct 0 (direct_rounds n) s
      → (15 < n → GivesRest s)
      → store_data junk n direct indirect inode s
        ≡ store_data junk n (λ k _. part tmp k) (λ _ k _. part tmp k) inode s
  unfolding store_data
  store_data-same inode s c more enough gives rest =
      let (blocks, s', e, f) =
        store_blocks-Filled tmp (direct_rounds n) 0 0 inode.direct_block s c (ground arith)
          (omega arith) in
      let first =
        store_blocks-same tmp direct (direct_rounds n) 0 0 inode.direct_block s c (ground arith)
          (λ t keeps m low high. gives t keeps m low (omega arith))
        ∙ e in
      elim (Bool-cases (less direct_size inode.size)) [
        | inr small ↦ rw (first, e, small) refl
        | inl large ↦
            let second =
              store_indirect-same (record inode { direct_block = blocks }) s' f.counted
                (left_for_rest n s'.free_block_count s.free_block_count f.fewer enough (more large))
                (more large) (λ t keeps. rest (more large) t (KeepsUsed-trans f.keeps keeps)) in
            rw (first, e, large) second
      ]
