-- ===== src/Fs/File/Data.antt =====
-- The data blocks of a file in p4/file.c, those behind the indirect block included.
use csci4730_operating_syste.Base.{
  ℕ, ◌+◌, ◌-◌, ◌≤◌, ◌<◌, ◌≡◌, refl, true, false, some, arith, ltb, if◌then◌else◌, lt→ltb, less, inl,
  inr, ap,
}
use csci4730_operating_syste.Fs.Bitmap.{get_bit}
use csci4730_operating_syste.Fs.State.{Inode, Block, FileSystem, max_block}
use csci4730_operating_syste.Fs.State
use csci4730_operating_syste.Fs.Alloc.{get_block}
use csci4730_operating_syste.Fs.Alloc.Laws.{AreCounted, get_block_lem}
use csci4730_operating_syste.Fs.Access.{Junk, write_disk_block}
use csci4730_operating_syste.Fs.File.{direct_size, part, direct_rounds, store_indirect, store_data}
use csci4730_operating_syste.Fs.File.Store.{
  SameTables, SameTables-trans, KeepsUsed, KeepsUsed-trans, Holds, Holds-KeepsUsed, Filled,
  store_blocks-Filled,
}

-- The state when a free block has been taken and not written yet.
pub record Got (s : FileSystem) (b : ℕ) (s' : FileSystem) : Type 0 where
  pub counted : AreCounted s'
  pub fewer : s'.free_block_count + 1 ≡ s.free_block_count
  pub tables : SameTables s s'
  pub keeps : KeepsUsed s s'
  pub inside : b < max_block
  pub clear : get_bit s.block_map b ≡ 0
  pub in_use : get_bit s'.block_map b ≡ 1

pub get_block-Got :
    (s : FileSystem)
    → AreCounted s
    → 0 < s.free_block_count
    → (b : ℕ) × (s' : FileSystem) × (get_block s ≡ (some b, s')) × Got s b s'
get_block-Got s c free = elim (get_block_lem s c) [
  | inl (_, none_free, _) ↦ absurd (omega arith)
  | inr (b, s', e, taken, same, c') ↦
      let (_, inside, clear, _) = taken.first in
      (
        b,
        s',
        e,
        record {
          counted = c';
          fewer = taken.fewer;
          tables = record {
            inode_map = ap (λ (t : FileSystem). t.inode_map) same;
            free_inode_count = ap (λ (t : FileSystem). t.free_inode_count) same;
            inodes = ap (λ (t : FileSystem). t.inodes) same;
            cur_dir = ap (λ (t : FileSystem). t.cur_dir) same;
            cur_dir_inode = ap (λ (t : FileSystem). t.cur_dir_inode) same;
            magic_number = ap (λ (t : FileSystem). t.magic_number) same;
          };
          keeps = record {
            used = λ x h. ground (arith, taken.marked x);
            held = λ x h. ap (λ (t : FileSystem). t.disk x) same;
          };
          inside = inside;
          clear = clear;
          in_use = ground (arith, taken.marked b);
        },
      )
]

-- The state when the second half has been stored: `m` is the map in the indirect block `b`.
pub record Indirect (tmp : ℕ → ℕ) (n : ℕ) (s : FileSystem) (b : ℕ) (m : ℕ → ℕ) (s' : FileSystem)
    : Type 0 where
  pub counted : AreCounted s'
  pub tables : SameTables s s'
  pub keeps : KeepsUsed s s'
  pub fewer : s'.free_block_count + (n - 15) + 1 ≡ s.free_block_count
  pub map_block : Holds s' b (State.Block.map m)
  pub stored : (k : ℕ) → 15 ≤ k → k < 15 + (n - 15) → Holds s' (m (k - 15)) (part tmp k)

write-Indirect :
    (tmp : ℕ → ℕ) (n : ℕ) (s s₁ : FileSystem) (b : ℕ) (m₀ m : ℕ → ℕ) (s₂ : FileSystem)
    → Got s b s₁
    → Filled tmp (n - 15) 15 15 m₀ s₁ m s₂
    → Indirect tmp n s b m (write_disk_block b (State.Block.map m) s₂)
unfolding write_disk_block
write-Indirect tmp n s s₁ b m₀ m s₂ got f = rw (lt→ltb _ _ got.inside) (record {
  counted = record { inodes = f.counted.inodes; blocks = f.counted.blocks };
  tables =
      let t = SameTables-trans got.tables f.tables in
      record {
        inode_map = t.inode_map;
        free_inode_count = t.free_inode_count;
        inodes = t.inodes;
        cur_dir = t.cur_dir;
        cur_dir_inode = t.cur_dir_inode;
        magic_number = t.magic_number;
      };
  keeps =
      let k = KeepsUsed-trans got.keeps f.keeps in
      record { used = k.used; held = λ x h. ground (arith, k.held x h, got.clear) };
  fewer = omega (arith, got.fewer, f.fewer);
  map_block = record {
    inside = got.inside;
    in_use = f.keeps.used b got.in_use;
    holds = ground arith;
  };
  stored = λ k low high.
      let h = f.stored k low high in
      record {
        inside = h.inside;
        in_use = h.in_use;
        holds = ground (arith, h.holds, f.fresh k low high, got.in_use);
      };
})

module _ (junk : Junk) (tmp : ℕ → ℕ) (n : ℕ) where
  store_indirect-Indirect :
      (inode : Inode) (s : FileSystem)
      → AreCounted s
      → n - 15 + 1 ≤ s.free_block_count
      → (b : ℕ) × (m : ℕ → ℕ) × (s' : FileSystem) × (store_indirect junk n
            (λ _ k _. part tmp k)
            inode
            (get_block s)
          ≡ (some (record inode { indirect_block = b }), s'))
        × Indirect tmp n s b m s'
  unfolding store_indirect
  store_indirect-Indirect inode s c enough =
      let (b, s₁, e, got) = get_block-Got s c (omega arith) in
      let (m, s₂, e', f) =
        store_blocks-Filled tmp (n - 15) 15 15 junk.map s₁ got.counted (omega (arith, got.fewer))
          (omega arith) in
      (
        b,
        m,
        write_disk_block b (State.Block.map m) s₂,
        rw (e, e') refl,
        write-Indirect tmp n s s₁ b junk.map m s₂ got f,
      )

-- The `n` blocks that `inode` refers to hold the file `tmp`.
pub record Refers (tmp : ℕ → ℕ) (n : ℕ) (inode : Inode) (s : FileSystem) : Type 0 where
  pub direct : (k : ℕ) → k < n → k < 15 → Holds s (inode.direct_block (k - 0)) (part tmp k)
  pub indirect :
      15 < n
      → (m : ℕ → ℕ) × Holds s inode.indirect_block (State.Block.map m)
        × ((k : ℕ) → 15 ≤ k → k < n → Holds s (m (k - 15)) (part tmp k))

-- The state when the data of `n` blocks has been stored, and `inode'` refers to it.
pub record Data (tmp : ℕ → ℕ) (n : ℕ) (s : FileSystem) (inode inode' : Inode) (s' : FileSystem)
    : Type 0 where
  pub counted : AreCounted s'
  pub tables : SameTables s s'
  pub keeps : KeepsUsed s s'
  pub fewer : s'.free_block_count + n + (if ltb 15 n then 1 else 0) ≡ s.free_block_count
  pub same :
      inode'
      ≡ record inode { direct_block = inode'.direct_block; indirect_block = inode'.indirect_block }
  pub refers : Refers tmp n inode' s'

module _ (junk : Junk) (tmp : ℕ → ℕ) (n : ℕ) (inode : Inode) (s : FileSystem) where
  abbrev pub Stores : Type 0
  Stores =
      (inode' : Inode) × (s' : FileSystem) × (store_data junk n (λ k _. part tmp k)
          (λ _ k _. part tmp k) inode s
        ≡ (some inode', s'))
      × Data tmp n s inode inode' s'

  pub store_small :
      AreCounted s → less direct_size inode.size ≡ false → n ≤ 15 → n ≤ s.free_block_count → Stores
  unfolding store_data
  store_small c small few enough =
      let (blocks, s', e, f) =
        store_blocks-Filled tmp (direct_rounds n) 0 0 inode.direct_block s c (omega arith)
          (omega arith) in
      (
        record inode { direct_block = blocks },
        s',
        rw (e, small) refl,
        record {
          counted = f.counted;
          tables = f.tables;
          keeps = f.keeps;
          fewer = ground (arith, f.fewer);
          same = refl;
          refers = record {
            direct = λ k lt low. f.stored k (omega arith) (omega arith);
            indirect = λ more. absurd (omega arith);
          };
        },
      )

  pub store_large :
      AreCounted s
      → less direct_size inode.size ≡ true
      → 15 < n
      → n + 1 ≤ s.free_block_count
      → Stores
  unfolding store_data
  store_large c large more enough =
      let (blocks, s', e, f) =
        store_blocks-Filled tmp (direct_rounds n) 0 0 inode.direct_block s c (omega arith)
          (omega arith) in
      let (b, m, s'', e', g) =
        store_indirect-Indirect junk tmp n (record inode { direct_block = blocks }) s' f.counted
          (omega (arith, f.fewer)) in
      (
        record inode { direct_block = blocks; indirect_block = b },
        s'',
        rw (e, large, e') refl,
        record {
          counted = g.counted;
          tables = SameTables-trans f.tables g.tables;
          keeps = KeepsUsed-trans f.keeps g.keeps;
          fewer = ground (arith, f.fewer, g.fewer);
          same = refl;
          refers = record {
            direct = λ k lt low. Holds-KeepsUsed g.keeps (f.stored k (omega arith) (omega arith));
            indirect = λ _. (m, g.map_block, λ k low high. g.stored k low (omega arith));
          };
        },
      )
