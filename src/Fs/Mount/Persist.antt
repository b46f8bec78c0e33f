-- ===== src/Fs/Mount/Persist.antt =====
-- Files of p4 outlive a saved disk: `fs_umount` and `fs_mount` keep them.
use csci4730_operating_syste.Base.{
  ℕ, ◌≤◌, ◌<◌, ◌≡◌, refl, true, false, List, Option, arith, inl, inr, ◌∙◌, ap, sym, zero, suc,
}
use mathlib.Core.Path.{subst}
use csci4730_operating_syste.Fs.Bitmap.{get_bit}
use csci4730_operating_syste.Fs.State.{Inode, Block, FileSystem}
use csci4730_operating_syste.Fs.Alloc.Laws.{AreCounted}
use csci4730_operating_syste.Fs.Access.{Junk}
use csci4730_operating_syste.Fs.Access.Added.{search_same}
use csci4730_operating_syste.Fs.Mount.{meta_blocks, fs_umount}
use csci4730_operating_syste.Fs.Mount.Saved.{Saved, fs_umount-Saved}
use csci4730_operating_syste.Fs.Mount.Load.{Image, Layout, ready, unmount, fs_mount}
use csci4730_operating_syste.Fs.Mount.Again.{AtRoot, OnlyBlockMap, Remounted, fs_mount-unmount}
use csci4730_operating_syste.Fs.Mount.Live.{is_data, Reserved, Live, Holds-apart}
use csci4730_operating_syste.Fs.File.{num_block}
use csci4730_operating_syste.Fs.File.Store.{Holds}
use csci4730_operating_syste.Fs.File.Data.{Refers}
use csci4730_operating_syste.Fs.File.Named.{IsFile, Prints, IsFile-Prints}

module _ (s t : FileSystem) (l : Live s) (r : Remounted s t) where
  saved : Saved s (fs_umount s)
  saved = fs_umount-Saved s l.at_root.behind l.at_root.inside

  Holds-Remounted : (b : ℕ) (buf : Block) → is_data buf ≡ true → Holds s b buf → Holds t b buf
  Holds-Remounted b buf of_file h =
      let (behind, apart) = Holds-apart s b buf l.reserved of_file h in
      record {
        inside = h.inside;
        in_use = ap (λ m. get_bit m b) r.block_map ∙ h.in_use;
        holds = r.disk b h.inside ∙ saved.others b behind apart ∙ h.holds;
      }

  Refers-Remounted :
      (tmp : ℕ → ℕ) (n : ℕ) (inode : Inode) → Refers tmp n inode s → Refers tmp n inode t
  Refers-Remounted tmp n inode f = record {
    direct = λ k lt low. Holds-Remounted _ _ refl (f.direct k lt low);
    indirect = λ more.
        let (m, h, hs) = f.indirect more in
        (m, Holds-Remounted _ _ refl h, λ k low lt. Holds-Remounted _ _ refl (hs k low lt));
  }

  pub IsFile-Remounted :
      (junk : Junk) (name : List ℕ) (tmp : ℕ → ℕ) (size i : ℕ)
      → IsFile junk name tmp size i s
      → IsFile junk name tmp size i t
  IsFile-Remounted junk name tmp size i f =
      let same : t.inodes i ≡ s.inodes i = r.inodes i f.inside in
      record {
        found = search_same name s t r.cur_dir ∙ f.found;
        inside = f.inside;
        in_use = ap (λ m. get_bit m i) r.inode_map ∙ f.in_use;
        is_file = rw same f.is_file;
        has_size = rw same f.has_size;
        refers = rw same (Refers-Remounted tmp (num_block size) (s.inodes i) f.refers);
      }

  AreCounted-Remounted : AreCounted t
  AreCounted-Remounted =
      let c = l.counted in
      rw (r.inode_map, r.block_map, r.free_inode_count, r.free_block_count)
        (record { inodes = c.inodes; blocks = c.blocks })

  AtRoot-Remounted : AtRoot t
  AtRoot-Remounted =
      let at = l.at_root in
      record {
        number = r.magic_number ∙ at.number;
        root =
            ap (λ (n : Inode). n.direct_block 0) (r.inodes 0 (omega arith))
            ∙ at.root
            ∙ sym r.cur_dir_inode;
        behind = omega (arith, at.behind, r.cur_dir_inode);
        inside = omega (arith, at.inside, r.cur_dir_inode);
      }

  -- The blocks of the meta data as they were written.
  meta_no_data : (b : ℕ) → b < meta_blocks → is_data ((fs_umount s).disk b) ≡ false
  meta_no_data zero low = ap is_data saved.super
  meta_no_data (suc zero) low = ap is_data saved.inode_map
  meta_no_data (suc (suc zero)) low = ap is_data saved.block_map
  meta_no_data (suc (suc (suc m))) low =
      subst (λ b. is_data ((fs_umount s).disk b) ≡ false) (omega arith)
        (ap is_data (saved.inodes m (omega arith)))

  Reserved-Remounted : Reserved t
  Reserved-Remounted b (inl low) = (
    ap (λ m. get_bit m b) r.block_map ∙ (l.reserved b (inl low)).0,
    ap is_data (r.disk b (omega arith)) ∙ meta_no_data b low,
  )
  Reserved-Remounted b (inr e) =
      let here : b ≡ s.cur_dir_inode = e ∙ r.cur_dir_inode in
      (
        ap (λ m. get_bit m b) r.block_map ∙ (l.reserved b (inr here)).0,
        rw here (ap is_data (r.disk s.cur_dir_inode l.at_root.inside ∙ saved.current)),
      )

  pub Live-Remounted : Live t
  Live-Remounted = record {
    counted = AreCounted-Remounted;
    at_root = AtRoot-Remounted;
    root_used = ap (λ m. get_bit m 0) r.inode_map ∙ l.root_used;
    reserved = Reserved-Remounted;
  }

-- If the counts are right, the current directory is the root, what lies in the blocks of the meta
-- data is no file data, the host opens the file, and what is written over the end of `inodeMap`
-- lands in `blockMap`, then a file of at most 73216 bytes outlives `fs_umount` and `fs_mount`: from
-- any state of the globals `fs_mount` succeeds, the name stands for the same inode and the same
-- bytes, `cat` prints them, and the state can be saved again.
pub fs_mount-IsFile :
    (layout : Layout) (junk : Junk) (file : Option Image) (name : List ℕ) (tmp : ℕ → ℕ) (size i : ℕ)
    (s t : FileSystem)
    → OnlyBlockMap layout
    → Live s
    → size ≤ 73216
    → IsFile junk name tmp size i s
    → (t' : FileSystem) × (fs_mount layout (unmount true file s).0 t ≡ ready t')
      × Live t'
      × IsFile junk name tmp size i t'
      × Prints junk name tmp size t'
fs_mount-IsFile layout junk file name tmp size i s t only l le f =
    let (t', e, r) = fs_mount-unmount layout file s t l.at_root only in
    let f' = IsFile-Remounted s t' l r junk name tmp size i f in
    (t', e, Live-Remounted s t' l r, f', IsFile-Prints junk name tmp size i t' le f')
