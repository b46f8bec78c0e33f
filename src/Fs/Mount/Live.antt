-- ===== src/Fs/Mount/Live.antt =====
-- The states of p4 that can be saved by `fs_umount` and read again by `fs_mount`.
use csci4730_operating_syste.Base.{
  ℕ, ◌≤◌, ◌<◌, ◌≡◌, ◌≢◌, Bool, true, false, arith, ◌⊎◌, inl, inr, ◌∙◌, ap, sym,
}
use native.Mathlib.Decide.{dec_lt}
use csci4730_operating_syste.Fs.Bitmap.{get_bit}
use csci4730_operating_syste.Fs.State.{
  Inode, Block, bytes, folder, super_block, bit_map, inode_block, other, FileSystem, max_inode,
  max_block,
}
use csci4730_operating_syste.Fs.State
use csci4730_operating_syste.Fs.Alloc.Laws.{AreCounted}
use csci4730_operating_syste.Fs.Mount.{meta_blocks}
use csci4730_operating_syste.Fs.Mount.Fresh.{Mounted}
use csci4730_operating_syste.Fs.Mount.Again.{AtRoot}
use csci4730_operating_syste.Fs.File.Store.{KeepsUsed, Holds}
use csci4730_operating_syste.Fs.File.Named.{SameRoot, Marks}

-- File data, or the map in an indirect block.
abbrev pub is_data : Block → Bool
is_data (bytes b) = true
is_data (State.Block.map m) = true
is_data b = false

-- The meta data and the current directory lie in blocks that are in use and hold no file data.
abbrev pub Reserved : FileSystem → Type 0
Reserved s =
    (b : ℕ)
    → (b < meta_blocks) ⊎ (b ≡ s.cur_dir_inode)
    → (get_bit s.block_map b ≡ 1) × (is_data (s.disk b) ≡ false)

-- The counts are right, the current directory is the root, the inode 0 is in use, and files stay off
-- the meta data.
pub record Live (s : FileSystem) : Type 0 where
  pub counted : AreCounted s
  pub at_root : AtRoot s
  pub root_used : get_bit s.inode_map 0 ≡ 1
  pub reserved : Reserved s

-- Blocks of files lie behind the meta data, and are not that of the current directory.
pub Holds-apart :
    (s : FileSystem) (b : ℕ) (buf : Block)
    → Reserved s
    → is_data buf ≡ true
    → Holds s b buf
    → (meta_blocks ≤ b) × (b ≢ s.cur_dir_inode)
Holds-apart s b buf r of_file h =
    let same : is_data (s.disk b) ≡ true = ap is_data h.holds ∙ of_file in
    (
      elim (dec_lt b meta_blocks) [
        | yes low ↦ absurd (ground (arith, same, (r b (inl low)).1))
        | no high ↦ omega arith
      ],
      λ e. ground (arith, same, (r b (inr e)).1),
    )

-- Commands that keep the blocks in use, the inodes in use and the root directory keep all this.
pub Live-kept :
    (s s' : FileSystem) (i : ℕ)
    → Live s
    → AreCounted s'
    → KeepsUsed s s'
    → SameRoot s s'
    → get_bit s.inode_map i ≡ 0
    → ((j : ℕ) → j ≢ i → s'.inodes j ≡ s.inodes j)
    → Marks i s s'
    → Live s'
Live-kept s s' i l c keeps same free others marks =
    let first : s'.inodes 0 ≡ s.inodes 0 = others 0 (ground (arith, l.root_used, free)) in
    record {
      counted = c;
      at_root = record {
        number = same.magic_number ∙ l.at_root.number;
        root = ap (λ (n : Inode). n.direct_block 0) first ∙ l.at_root.root ∙ sym same.cur_dir_inode;
        behind = omega (arith, l.at_root.behind, same.cur_dir_inode);
        inside = omega (arith, l.at_root.inside, same.cur_dir_inode);
      };
      root_used = ground (arith, marks 0, l.root_used);
      reserved = λ b where_is.
          let (in_use, no_data) =
            l.reserved b
              (elim where_is [ inl low ↦ inl low | inr e ↦ inr (e ∙ same.cur_dir_inode) ]) in
          (keeps.used b in_use, ap is_data (keeps.held b in_use) ∙ no_data);
    }

-- No block holds file data, as when the program starts.
abbrev pub IsBlank : FileSystem → Type 0
IsBlank s = (b : ℕ) → is_data (s.disk b) ≡ false

pub Mounted-Live : (s s' : FileSystem) → IsBlank s → Mounted s s' → Live s'
Mounted-Live s s' blank m = record {
  counted = m.counted;
  at_root = record {
    number = m.number;
    root = m.root_block ∙ sym m.current;
    behind = omega (arith, m.current);
    inside = omega (arith, m.current);
  };
  root_used = m.root_used;
  reserved = λ b where_is. elim where_is [
    | inl low ↦
        (m.used b ∙ ground (arith, low), ap is_data (m.disk b (omega (arith, low))) ∙ blank b)
    | inr e ↦
        let here : b ≡ meta_blocks = e ∙ m.current in
        (m.used b ∙ ground (arith, here), rw here (ap is_data m.on_disk))
  ];
}
