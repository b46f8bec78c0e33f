-- ===== src/Fs/Alloc/Laws.antt =====
-- Inodes and blocks of p4/fs_util.c: the counts in the superblock are those of the maps.
use csci4730_operating_syste.Base.{
  ℕ, ◌+◌, ◌<◌, ◌≡◌, refl, ◌≢◌, none, some, arith, ◌⊎◌, inl, inr, Option-cases, lt→ltb, decrement,
}
use csci4730_operating_syste.Fs.Bitmap.{get_bit, set_bit}
use csci4730_operating_syste.Fs.State.{FileSystem, max_inode, max_block}
use csci4730_operating_syste.Fs.Alloc.{
  first_clear, take_slot, give_slot, get_inode, get_block, free_inode, free_block,
}
use csci4730_operating_syste.Fs.Alloc.Slots.{
  IsCounted, Taken, take_slot-Taken, first_clear-none, first_clear-count, give_slot-IsCounted,
}

-- The counts of free inodes and free blocks are the numbers of clear bits.
pub record AreCounted (s : FileSystem) : Type 0 where
  pub inodes : IsCounted max_inode s.inode_map s.free_inode_count
  pub blocks : IsCounted max_block s.block_map s.free_block_count

-- The outcomes of `get_inode`: all inodes are in use, or the first free one is taken.
abbrev pub GotInode : FileSystem → Type 0
GotInode s =
    ((get_inode s ≡ (none, s))
      × (s.free_inode_count ≡ 0)
      × ((j : ℕ) → j < max_inode → get_bit s.inode_map j ≡ 1))
    ⊎ ((i : ℕ) × (s' : FileSystem) × (get_inode s ≡ (some i, s'))
        × Taken max_inode s.inode_map s.free_inode_count i s'.inode_map s'.free_inode_count
        × (s' ≡ record s { inode_map = s'.inode_map; free_inode_count = s'.free_inode_count })
        × AreCounted s')

abbrev pub GotBlock : FileSystem → Type 0
GotBlock s =
    ((get_block s ≡ (none, s))
      × (s.free_block_count ≡ 0)
      × ((j : ℕ) → j < max_block → get_bit s.block_map j ≡ 1))
    ⊎ ((i : ℕ) × (s' : FileSystem) × (get_block s ≡ (some i, s'))
        × Taken max_block s.block_map s.free_block_count i s'.block_map s'.free_block_count
        × (s' ≡ record s { block_map = s'.block_map; free_block_count = s'.free_block_count })
        × AreCounted s')

module _ (s : FileSystem) (c : AreCounted s) where
  -- If the counts are right, `get_inode` returns -1 and changes nothing exactly when all 512 inodes
  -- are in use and the count is 0. Otherwise it returns the first free inode, sets its bit and no
  -- other, takes one from the count, changes nothing else, and the counts are right again.
  pub get_inode_lem : GotInode s
  unfolding get_inode take_slot
  get_inode_lem = elim (Option-cases (first_clear max_inode 0 s.inode_map)) [
    | inl full ↦ inl (
      rw full,
      first_clear-count max_inode s.inode_map s.free_inode_count c.inodes full,
      λ j lt.
          first_clear-none max_inode 0 max_inode s.inode_map (omega arith) full j (omega arith) lt,
    )
    | inr (i, found) ↦
        let taken =
          take_slot-Taken max_inode i s.inode_map s.free_inode_count (omega arith) c.inodes found in
        inr (
          i,
          record s {
            inode_map = set_bit s.inode_map i 1;
            free_inode_count = decrement s.free_inode_count;
          },
          rw found,
          taken,
          refl,
          record { inodes = taken.again; blocks = c.blocks },
        )
  ]

  -- If the counts are right, `get_block` returns -1 and changes nothing exactly when all 4096 blocks
  -- are in use and the count is 0. Otherwise it returns the first free block, sets its bit and no
  -- other, takes one from the count, changes nothing else, and the counts are right again.
  pub get_block_lem : GotBlock s
  unfolding get_block take_slot
  get_block_lem = elim (Option-cases (first_clear max_block 0 s.block_map)) [
    | inl full ↦ inl (
      rw full,
      first_clear-count max_block s.block_map s.free_block_count c.blocks full,
      λ j lt.
          first_clear-none max_block 0 max_block s.block_map (omega arith) full j (omega arith) lt,
    )
    | inr (i, found) ↦
        let taken =
          take_slot-Taken max_block i s.block_map s.free_block_count (omega arith) c.blocks found in
        inr (
          i,
          record s {
            block_map = set_bit s.block_map i 1;
            free_block_count = decrement s.free_block_count;
          },
          rw found,
          taken,
          refl,
          record { inodes = c.inodes; blocks = taken.again },
        )
  ]

  -- If the counts are right, freeing an inode within the map makes it free, keeps all other bits,
  -- adds one to the count exactly if it was in use, leaves the blocks alone, and the counts are
  -- right again.
  pub free_inode_lem :
      (i : ℕ)
      → i < max_inode
      → (s' : FileSystem) × (free_inode i s ≡ some s')
        × AreCounted s'
        × (get_bit s'.inode_map i ≡ 0)
        × (s'.free_inode_count ≡ s.free_inode_count + get_bit s.inode_map i)
        × ((j : ℕ) → j ≢ i → get_bit s'.inode_map j ≡ get_bit s.inode_map j)
        × (s'.block_map ≡ s.block_map)
  unfolding free_inode
  free_inode_lem i lt =
      let (counted, clear, count, same) =
        give_slot-IsCounted max_inode i s.inode_map s.free_inode_count (omega arith) lt c.inodes in
      (
        record s {
          inode_map = (give_slot i s.inode_map s.free_inode_count).0;
          free_inode_count = (give_slot i s.inode_map s.free_inode_count).1;
        },
        rw (lt→ltb _ _ lt),
        record { inodes = counted; blocks = c.blocks },
        clear,
        omega (arith, count, clear),
        same,
        refl,
      )

  -- If the counts are right, freeing a block within the map makes it free, keeps all other bits,
  -- adds one to the count exactly if it was in use, leaves the inodes alone, and the counts are
  -- right again.
  pub free_block_lem :
      (i : ℕ)
      → i < max_block
      → (s' : FileSystem) × (free_block i s ≡ some s')
        × AreCounted s'
        × (get_bit s'.block_map i ≡ 0)
        × (s'.free_block_count ≡ s.free_block_count + get_bit s.block_map i)
        × ((j : ℕ) → j ≢ i → get_bit s'.block_map j ≡ get_bit s.block_map j)
        × (s'.inode_map ≡ s.inode_map)
  unfolding free_block
  free_block_lem i lt =
      let (counted, clear, count, same) =
        give_slot-IsCounted max_block i s.block_map s.free_block_count (omega arith) lt c.blocks in
      (
        record s {
          block_map = (give_slot i s.block_map s.free_block_count).0;
          free_block_count = (give_slot i s.block_map s.free_block_count).1;
        },
        rw (lt→ltb _ _ lt),
        record { inodes = c.inodes; blocks = counted },
        clear,
        omega (arith, count, clear),
        same,
        refl,
      )
