-- ===== src/Fs/Links/Copied.antt =====
-- p4/file.c: the copy of a file is a file that holds the same.
use csci4730_operating_syste.Base.{
  ℕ, ◌+◌, ◌≤◌, ◌<◌, ◌≡◌, refl, ◌≢◌, none, List, arith, inl, inr, ◌∙◌, sym, ap,
}
use mathlib.Core.Path.{subst}
use csci4730_operating_syste.Fs.Bitmap.{get_bit}
use csci4730_operating_syste.Fs.State.{Inode, FileSystem, max_dir_entry, max_inode}
use csci4730_operating_syste.Fs.Alloc.Laws.{AreCounted, get_inode_lem}
use csci4730_operating_syste.Fs.Access.{Junk, done, search_cur_dir, write_inode, add_entry}
use csci4730_operating_syste.Fs.Access.Added.{search_added, search_same, search_kept}
use csci4730_operating_syste.Fs.Directory.{is_directory}
use csci4730_operating_syste.Fs.File.{num_block}
use csci4730_operating_syste.Fs.File.Store.{KeepsUsed}
use csci4730_operating_syste.Fs.File.Data.{Data}
use csci4730_operating_syste.Fs.File.Create.{needed}
use csci4730_operating_syste.Fs.File.Named.{IsFile, Marks, SameRoot, Prints, IsFile-Prints}
use csci4730_operating_syste.Fs.File.RoundTrip.{free_inode_left}
use csci4730_operating_syste.Fs.Links.Copy.{
  enough_for_copy, copy-Stores, copy_data, Refers-same, file_copy-stored,
}
use csci4730_operating_syste.Fs.Links.{copy_inode, file_copy}

-- The state when the file has been copied to inode `i`.
pub record Copied (junk : Junk) (src dest : List ℕ) (tmp : ℕ → ℕ) (size j : ℕ) (s : FileSystem)
    (i : ℕ) (s' : FileSystem) : Type 0 where
  pub copied : file_copy junk src dest s ≡ (done, s')
  pub source : IsFile junk src tmp size j s'
  pub copy : IsFile junk dest tmp size i s'
  pub prints_source : Prints junk src tmp size s'
  pub prints_copy : Prints junk dest tmp size s'
  pub counted : AreCounted s'
  pub fewer : s'.free_block_count + needed size ≡ s.free_block_count
  pub was_free : get_bit s.inode_map i ≡ 0
  pub marked : Marks i s s'
  pub others : (k : ℕ) → k ≢ i → s'.inodes k ≡ s.inodes k
  pub keeps : KeepsUsed s s'
  pub same_root : SameRoot s s'

module _ (junk : Junk) (src dest : List ℕ) (tmp : ℕ → ℕ) (j : ℕ) (s : FileSystem) where
  abbrev inode_of : Inode
  inode_of = s.inodes j

  abbrev size_of : ℕ
  size_of = (s.inodes j).size

  same_blocks :
      (s₀ : FileSystem)
      → s₀ ≡ record s { inode_map = s₀.inode_map; free_inode_count = s₀.free_inode_count }
      → KeepsUsed s s₀
  same_blocks s₀ same = record {
    used = λ b h. rw (ap (λ (t : FileSystem). t.block_map) same) h;
    held = λ b h. ap (λ (t : FileSystem). t.disk b) same;
  }

  -- What is known when the copy has been stored.
  module _ (i : ℕ) (s₀ : FileSystem) (inode : Inode) (s₂ : FileSystem)
      (d : Data tmp (num_block size_of) s₀ (copy_inode junk inode_of) inode s₂)
      (same : s₀ ≡ record s { inode_map = s₀.inode_map; free_inode_count = s₀.free_inode_count })
      (f : IsFile junk src tmp size_of j s) where
    abbrev copied_state : FileSystem
    copied_state = write_inode i inode (add_entry dest i s₂)

    same_dir : s₂.cur_dir ≡ s.cur_dir
    same_dir = d.tables.cur_dir ∙ ap (λ (t : FileSystem). t.cur_dir) same

    keeps_all : KeepsUsed s copied_state
    unfolding write_inode add_entry
    keeps_all = record {
      used = λ b h. d.keeps.used b (rw (ap (λ (t : FileSystem). t.block_map) same) h);
      held = λ b h.
          d.keeps.held b (rw (ap (λ (t : FileSystem). t.block_map) same) h)
          ∙ ap (λ (t : FileSystem). t.disk b) same;
    }

    keeps_copy : KeepsUsed s₂ copied_state
    unfolding write_inode add_entry
    keeps_copy = record { used = λ b h. h; held = λ b h. refl }

    counted_after : AreCounted copied_state
    unfolding write_inode add_entry
    counted_after = record { inodes = d.counted.inodes; blocks = d.counted.blocks }

    fewer_blocks : copied_state.free_block_count + needed size_of ≡ s.free_block_count
    unfolding write_inode add_entry
    fewer_blocks = omega (arith, d.fewer, ap (λ (t : FileSystem). t.free_block_count) same)

    SameRoot-after : SameRoot s copied_state
    unfolding write_inode add_entry
    SameRoot-after = record {
      cur_dir_inode = d.tables.cur_dir_inode ∙ ap (λ (t : FileSystem). t.cur_dir_inode) same;
      magic_number = d.tables.magic_number ∙ ap (λ (t : FileSystem). t.magic_number) same;
    }

    marks_after : Marks i s s₀ → Marks i s copied_state
    unfolding write_inode add_entry
    marks_after marks k = ap (λ m. get_bit m k) d.tables.inode_map ∙ marks k

    others_kept : (k : ℕ) → k ≢ i → copied_state.inodes k ≡ s.inodes k
    unfolding write_inode add_entry
    others_kept k ne = ground (
      arith,
      ap (λ (g : ℕ → Inode). g k) d.tables.inodes,
      ap (λ (t : FileSystem). t.inodes k) same,
    )

    here : copied_state.inodes i ≡ inode
    unfolding write_inode
    here = ground arith

    source-IsFile : i ≢ j → get_bit s₀.inode_map j ≡ 1 → IsFile junk src tmp size_of j copied_state
    unfolding write_inode add_entry
    source-IsFile ne used =
        let e = others_kept j (λ h. ne (sym h)) in
        record {
          found =
              search_same src (add_entry dest i s₂) copied_state refl
              ∙ search_kept src dest i j s s₂ f.found same_dir;
          inside = f.inside;
          in_use = ap (λ m. get_bit m j) d.tables.inode_map ∙ used;
          is_file = rw e f.is_file;
          has_size = rw e refl;
          refers =
              rw e (Refers-same tmp (num_block size_of) inode_of s copied_state keeps_all f.refers);
        }

    copy-IsFile :
        search_cur_dir dest s ≡ none
        → i < max_inode
        → get_bit s₀.inode_map i ≡ 1
        → IsFile junk dest tmp size_of i copied_state
    unfolding write_inode copy_inode is_directory add_entry
    copy-IsFile absent inside used = record {
      found =
          search_same dest (add_entry dest i s₂) copied_state refl
          ∙ search_added dest i s s₂ absent same_dir;
      inside = inside;
      in_use = ap (λ m. get_bit m i) d.tables.inode_map ∙ used;
      is_file = rw (here, d.same) f.is_file;
      has_size = rw (here, d.same) refl;
      refers =
          rw here (Refers-same tmp (num_block size_of) inode s₂ copied_state keeps_copy d.refers);
    }

  -- The copy of the file that fills `size_of` bytes.
  Copied-of :
      AreCounted s
      → IsFile junk src tmp size_of j s
      → search_cur_dir dest s ≡ none
      → s.cur_dir.num_entry < max_dir_entry
      → 0 < s.free_inode_count
      → size_of ≤ 73216
      → needed size_of ≤ s.free_block_count
      → (i : ℕ) × (s' : FileSystem) × Copied junk src dest tmp size_of j s i s'
  Copied-of c f absent room free le enough = elim (get_inode_lem s c) [
    | inl (_, none_free, _) ↦ absurd (omega arith)
    | inr (i, s₀, e, taken, same, c₀) ↦
        let (_, inside, clear, _) = taken.first in
        let r = Refers-same tmp (num_block size_of) inode_of s s₀ (same_blocks s₀ same) f.refers in
        let enough₀ : needed size_of ≤ s₀.free_block_count =
          rw (ap (λ (t : FileSystem). t.free_block_count) same) enough in
        let (inode, s₂, e₂, d) = copy-Stores junk tmp inode_of s₀ c₀ le enough₀ in
        let s' : FileSystem = copied_state i s₀ inode s₂ d same f in
        let source =
          source-IsFile i s₀ inode s₂ d same f (ground (arith, clear, f.in_use))
            (ground (arith, taken.marked j, f.in_use)) in
        let copy =
          copy-IsFile i s₀ inode s₂ d same f absent inside (ground (arith, taken.marked i)) in
        (
          i,
          s',
          record {
            copied =
                file_copy-stored junk src dest s f.found absent room (free_inode_left s c free)
                  (enough_for_copy size_of s c le enough) e
                  (copy_data junk tmp inode_of s₀ c₀ le enough₀ r ∙ e₂);
            source = source;
            copy = copy;
            prints_source = IsFile-Prints junk src tmp size_of j s' le source;
            prints_copy = IsFile-Prints junk dest tmp size_of i s' le copy;
            counted = counted_after i s₀ inode s₂ d same f;
            fewer = fewer_blocks i s₀ inode s₂ d same f;
            was_free = clear;
            marked = marks_after i s₀ inode s₂ d same f taken.marked;
            others = others_kept i s₀ inode s₂ d same f;
            keeps = keeps_all i s₀ inode s₂ d same f;
            same_root = SameRoot-after i s₀ inode s₂ d same f;
          },
        )
  ]

-- If the counts are right, the source is a file whose blocks hold the `size` bytes of `tmp`, the
-- other name is new, the directory has room, an inode is free, the size is at most 73216 bytes and
-- enough blocks are free, `cp` succeeds: it takes a free inode and exactly the blocks that the size
-- needs, keeps the counts right, and leaves all other inodes and all blocks in use as they were.
-- The new name is then a file that holds the same bytes, the source is still one, and `cat` of
-- either name prints them.
pub file_copy-Copied :
    (junk : Junk) (src dest : List ℕ) (tmp : ℕ → ℕ) (size j : ℕ) (s : FileSystem)
    → AreCounted s
    → IsFile junk src tmp size j s
    → search_cur_dir dest s ≡ none
    → s.cur_dir.num_entry < max_dir_entry
    → 0 < s.free_inode_count
    → size ≤ 73216
    → needed size ≤ s.free_block_count
    → (i : ℕ) × (s' : FileSystem) × Copied junk src dest tmp size j s i s'
file_copy-Copied junk src dest tmp size j s c f absent room free =
    subst
      (λ n.
        IsFile junk src tmp n j s
        → n ≤ 73216
        → needed n ≤ s.free_block_count
        → (i : ℕ) × (s' : FileSystem) × Copied junk src dest tmp n j s i s')
      f.has_size (λ f' le enough. Copied-of junk src dest tmp j s c f' absent room free le enough) f
