-- ===== src/Fs/File/Store.antt =====
-- The loop of p4/file.c that takes blocks and writes data into them.
use csci4730_operating_syste.Base.{
  ℕ, zero, suc, ◌+◌, ◌-◌, ◌≤◌, ◌<◌, ◌≡◌, refl, some, arith, lt→ltb, inl, inr, ◌∙◌, ap,
}
use csci4730_operating_syste.Fs.Bitmap.{update, get_bit}
use csci4730_operating_syste.Fs.State.{Block, FileSystem, max_block}
use csci4730_operating_syste.Fs.Alloc.{get_block}
use csci4730_operating_syste.Fs.Alloc.Laws.{AreCounted, get_block_lem}
use csci4730_operating_syste.Fs.Access.{write_disk_block}
use native.Mathlib.Decide.{dec_lt}
use csci4730_operating_syste.Fs.Bitmap.Laws.{get_bit-lt}
use csci4730_operating_syste.Fs.File.{part, store_block, store_blocks}

-- Everything but the blocks is as it was.
pub record SameTables (s s' : FileSystem) : Type 0 where
  pub inode_map : s'.inode_map ≡ s.inode_map
  pub free_inode_count : s'.free_inode_count ≡ s.free_inode_count
  pub inodes : s'.inodes ≡ s.inodes
  pub cur_dir : s'.cur_dir ≡ s.cur_dir
  pub cur_dir_inode : s'.cur_dir_inode ≡ s.cur_dir_inode
  pub magic_number : s'.magic_number ≡ s.magic_number

-- Blocks that were in use are still in use, and hold what they held.
pub record KeepsUsed (s s' : FileSystem) : Type 0 where
  pub used : (b : ℕ) → get_bit s.block_map b ≡ 1 → get_bit s'.block_map b ≡ 1
  pub held : (b : ℕ) → get_bit s.block_map b ≡ 1 → s'.disk b ≡ s.disk b

pub KeepsUsed-trans : {s t u : FileSystem} → KeepsUsed s t → KeepsUsed t u → KeepsUsed s u
KeepsUsed-trans a b = record {
  used = λ x h. b.used x (a.used x h);
  held = λ x h. b.held x (a.used x h) ∙ a.held x h;
}

pub SameTables-trans : {s t u : FileSystem} → SameTables s t → SameTables t u → SameTables s u
SameTables-trans a b = record {
  inode_map = b.inode_map ∙ a.inode_map;
  free_inode_count = b.free_inode_count ∙ a.free_inode_count;
  inodes = b.inodes ∙ a.inodes;
  cur_dir = b.cur_dir ∙ a.cur_dir;
  cur_dir_inode = b.cur_dir_inode ∙ a.cur_dir_inode;
  magic_number = b.magic_number ∙ a.magic_number;
}

-- The state when a free block has been taken and written.
pub record TookBlock (s : FileSystem) (buf : Block) (b : ℕ) (s' : FileSystem) : Type 0 where
  pub counted : AreCounted s'
  pub fewer : s'.free_block_count + 1 ≡ s.free_block_count
  pub tables : SameTables s s'
  pub keeps : KeepsUsed s s'
  pub inside : b < max_block
  pub in_use : get_bit s'.block_map b ≡ 1
  pub holds : s'.disk b ≡ buf

pub TookBlock-write :
    (s : FileSystem) (buf : Block)
    → AreCounted s
    → 0 < s.free_block_count
    → (b : ℕ) × (s₁ : FileSystem) × (get_block s ≡ (some b, s₁))
      × (get_bit s.block_map b ≡ 0)
      × TookBlock s buf b (write_disk_block b buf s₁)
unfolding write_disk_block
TookBlock-write s buf c free = elim (get_block_lem s c) [
  | inl (_, none_free, _) ↦ absurd (omega arith)
  | inr (b, s₁, e, taken, same, c₁) ↦
      let (_, inside, clear, _) = taken.first in
      (
        b,
        s₁,
        e,
        clear,
        rw (lt→ltb _ _ inside) (record {
          counted = record { inodes = c₁.inodes; blocks = c₁.blocks };
          fewer = taken.fewer;
          tables = record {
            inode_map = ap (λ (t : FileSystem). t.inode_map) same;
            free_inode_count = ap (λ (t : FileSystem). t.free_inode_count) same;
            inodes = ap (λ (t : FileSystem). t.inodes) same;
            cur_dir = ap (λ (t : FileSystem). t.cur_dir) same;
            cur_dir_inode = ap (λ (t : FileSystem). t.cur_dir_inode) same;
            magic_number = ap (λ (t : FileSystem). t.magic_number) same;
          };
          keeps = record {
            used = λ x h. ground (arith, taken.marked x);
            held = λ x h. ground (arith, ap (λ (t : FileSystem). t.disk x) same);
          };
          inside = inside;
          in_use = ground (arith, taken.marked b);
          holds = ground arith;
        }),
      )
]

-- Block `b` is in use and holds `buf`.
pub record Holds (s : FileSystem) (b : ℕ) (buf : Block) : Type 0 where
  pub inside : b < max_block
  pub in_use : get_bit s.block_map b ≡ 1
  pub holds : s.disk b ≡ buf

pub Holds-KeepsUsed :
    {s t : FileSystem} {b : ℕ} {buf : Block} → KeepsUsed s t → Holds s b buf → Holds t b buf
Holds-KeepsUsed {s} {t} {b} k h = record {
  inside = h.inside;
  in_use = k.used b h.in_use;
  holds = k.held b h.in_use ∙ h.holds;
}

-- The state when the blocks of `tmp` from index `i` on have been stored, `k` of them.
pub record Filled (tmp : ℕ → ℕ) (k i base : ℕ) (blocks : ℕ → ℕ) (s : FileSystem) (blocks' : ℕ → ℕ)
    (s' : FileSystem) : Type 0 where
  pub counted : AreCounted s'
  pub fewer : s'.free_block_count + k ≡ s.free_block_count
  pub tables : SameTables s s'
  pub keeps : KeepsUsed s s'
  pub below : (m : ℕ) → m < i - base → blocks' m ≡ blocks m
  pub fresh : (m : ℕ) → i ≤ m → m < i + k → get_bit s.block_map (blocks' (m - base)) ≡ 0
  pub stored : (m : ℕ) → i ≤ m → m < i + k → Holds s' (blocks' (m - base)) (part tmp m)

-- One more block in front.
Filled-suc :
    (tmp : ℕ → ℕ) (k i base b : ℕ) (blocks : ℕ → ℕ) (s t : FileSystem) (blocks' : ℕ → ℕ)
    (s' : FileSystem)
    → base ≤ i
    → get_bit s.block_map b ≡ 0
    → TookBlock s (part tmp i) b t
    → Filled tmp k (i + 1) base (update blocks (i - base) b) t blocks' s'
    → Filled tmp (suc k) i base blocks s blocks' s'
Filled-suc tmp k i base b blocks s t blocks' s' le clear took f =
    let first : blocks' (i - base) ≡ b = f.below (i - base) (omega arith) ∙ ground arith in
    let here : Holds t b (part tmp i) = record {
      inside = took.inside;
      in_use = took.in_use;
      holds = took.holds;
    } in
    record {
      counted = f.counted;
      fewer = omega (arith, took.fewer, f.fewer);
      tables = SameTables-trans took.tables f.tables;
      keeps = KeepsUsed-trans took.keeps f.keeps;
      below = λ m lt. f.below m (omega arith) ∙ ground arith;
      fresh = λ m low high. elim (dec_lt i m) [
        | yes later ↦ ground (
          arith,
          f.fresh m (omega arith) (omega arith),
          took.keeps.used (blocks' (m - base)),
          get_bit-lt s.block_map (blocks' (m - base)),
        )
        | no past ↦ let e : i ≡ m = omega arith in rw (← e, first) clear
      ];
      stored = λ m low high. elim (dec_lt i m) [
        | yes later ↦ f.stored m (omega arith) (omega arith)
        | no past ↦ let e : i ≡ m = omega arith in rw (← e, first) (Holds-KeepsUsed f.keeps here)
      ];
    }

-- If the counts are right and enough blocks are free, the loop stores all the blocks.
pub store_blocks-Filled :
    (tmp : ℕ → ℕ) (k i base : ℕ) (blocks : ℕ → ℕ) (s : FileSystem)
    → AreCounted s
    → k ≤ s.free_block_count
    → base ≤ i
    → (blocks' : ℕ → ℕ) × (s' : FileSystem) × (store_blocks k i base (λ m _. part tmp m) blocks s
        ≡ (some blocks', s'))
      × Filled tmp k i base blocks s blocks' s'
unfolding store_blocks store_block
store_blocks-Filled tmp zero i base blocks s c enough le = (
  blocks,
  s,
  refl,
  record {
    counted = c;
    fewer = omega arith;
    tables = record {
      inode_map = refl;
      free_inode_count = refl;
      inodes = refl;
      cur_dir = refl;
      cur_dir_inode = refl;
      magic_number = refl;
    };
    keeps = record { used = λ b h. h; held = λ b h. refl };
    below = λ m lt. refl;
    fresh = λ m low high. absurd (omega arith);
    stored = λ m low high. absurd (omega arith);
  },
)
store_blocks-Filled tmp (suc k) i base blocks s c enough le =
    let (b, s₁, e, clear, took) = TookBlock-write s (part tmp i) c (omega arith) in
    let t : FileSystem = write_disk_block b (part tmp i) s₁ in
    let (blocks', s', e', f) =
      store_blocks-Filled tmp k (i + 1) base (update blocks (i - base) b) t took.counted
        (omega (arith, took.fewer)) (omega arith) in
    (blocks', s', rw (e, e') refl, Filled-suc tmp k i base b blocks s t blocks' s' le clear took f)
