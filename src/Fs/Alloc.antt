-- ===== src/Fs/Alloc.antt =====
-- p4/fs_util.c: the first free inode or block is taken, and given back.
pub mod Slots
pub mod Laws
use csci4730_operating_syste.Base.{
  ℕ, zero, suc, ◌+◌, Option, none, some, ltb, ◌==◌, if◌then◌else◌, increment, decrement,
}
use csci4730_operating_syste.Fs.Bitmap.{Bits, get_bit, set_bit}
use csci4730_operating_syste.Fs.State.{FileSystem, max_inode, max_block}

-- The loop of `get_inode` and of `get_block`, with the rounds that are left.
unfoldable pub first_clear : ℕ → ℕ → Bits → Option ℕ
first_clear zero i a = none
first_clear (suc k) i a =
    let rest = first_clear k (i + 1) a in if get_bit a i == 0 then some i else rest

-- The index that was found, the map, and the count.
unfoldable pub take_slot : Option ℕ → Bits → ℕ → Option ℕ × Bits × ℕ
take_slot none a count = (none, a, count)
take_slot (some i) a count = (some i, set_bit a i 1, decrement count)

unfoldable pub give_slot : ℕ → Bits → ℕ → Bits × ℕ
give_slot i a count = if get_bit a i == 1 then (set_bit a i 0, increment count) else (a, count)

-- -1 is `none`.
unfoldable pub get_inode : FileSystem → Option ℕ × FileSystem
unfolding first_clear take_slot
get_inode s =
    let (i, a, count) =
      take_slot (first_clear max_inode 0 s.inode_map) s.inode_map s.free_inode_count in
    (i, record s { inode_map = a; free_inode_count = count })

unfoldable pub get_block : FileSystem → Option ℕ × FileSystem
unfolding first_clear take_slot
get_block s =
    let (i, a, count) =
      take_slot (first_clear max_block 0 s.block_map) s.block_map s.free_block_count in
    (i, record s { block_map = a; free_block_count = count })

-- `none` is an index outside the map.
unfoldable pub free_inode : ℕ → FileSystem → Option FileSystem
unfolding give_slot
free_inode i s =
    let (a, count) = give_slot i s.inode_map s.free_inode_count in
    if ltb i max_inode then some (record s { inode_map = a; free_inode_count = count }) else none

unfoldable pub free_block : ℕ → FileSystem → Option FileSystem
unfolding give_slot
free_block i s =
    let (a, count) = give_slot i s.block_map s.free_block_count in
    if ltb i max_block then some (record s { block_map = a; free_block_count = count }) else none
