-- ===== src/Fs/File/RoundTrip.antt =====
-- p4/file.c: `file_cat` prints what `file_create` has written.
use csci4730_operating_syste.Base.{
  ℕ, ◌+◌, ◌≤◌, ◌<◌, ◌≡◌, refl, ◌≢◌, false, ◌||◌, none, some, List, arith, ltb, less, inl, inr, ◌∙◌,
  ap,
}
use csci4730_operating_syste.Fs.Bitmap.{get_bit}
use csci4730_operating_syste.Fs.Bitmap.Count.{clear_count-le}
use csci4730_operating_syste.Fs.State.{Inode, Block, FileSystem, max_dir_entry, max_inode}
use csci4730_operating_syste.Fs.Alloc.{get_inode}
use csci4730_operating_syste.Fs.Alloc.Laws.{AreCounted, get_inode_lem}
use csci4730_operating_syste.Fs.Access.{Junk, done, search_cur_dir, write_inode, add_entry}
use csci4730_operating_syste.Fs.Access.Added.{search_added, search_same}
use csci4730_operating_syste.Fs.Directory.{is_directory}
use csci4730_operating_syste.Fs.File.{
  num_block, part, store_data, lacks_blocks, new_file, write_created, create_entry, create_checked,
  file_create,
}
use csci4730_operating_syste.Fs.File.Store.{KeepsUsed}
use csci4730_operating_syste.Fs.File.Data.{Data}
use csci4730_operating_syste.Fs.File.Named.{IsFile, Marks, SameRoot, Prints, IsFile-Prints}
use csci4730_operating_syste.Fs.File.Create.{needed, enough_blocks, Refers-write, stored}

-- The file has been created with inode `i`.
pub record Created (junk : Junk) (name : List ℕ) (size : ℕ) (tmp : ℕ → ℕ) (s : FileSystem) (i : ℕ)
    (s' : FileSystem) : Type 0 where
  pub created : file_create junk name size tmp s ≡ (done, s')
  pub file : IsFile junk name tmp size i s'
  pub prints : Prints junk name tmp size s'
  pub counted : AreCounted s'
  pub fewer : s'.free_block_count + needed size ≡ s.free_block_count
  pub was_free : get_bit s.inode_map i ≡ 0
  pub marked : Marks i s s'
  pub others : (j : ℕ) → j ≢ i → s'.inodes j ≡ s.inodes j
  pub keeps : KeepsUsed s s'
  pub same_root : SameRoot s s'

file_create-stored :
    (junk : Junk) (name : List ℕ) (size : ℕ) (tmp : ℕ → ℕ) (s : FileSystem) {i : ℕ}
    {s₀ : FileSystem} {inode : Inode} {s₂ : FileSystem}
    → search_cur_dir name s ≡ none
    → s.cur_dir.num_entry < max_dir_entry
    → less s.free_inode_count 1 ≡ false
    → 1 ≤ size
    → size ≤ 73216
    → lacks_blocks junk size s ≡ false
    → get_inode s ≡ (some i, s₀)
    → store_data junk
        (num_block size)
        (λ k _. part tmp k)
        (λ _ k _. part tmp k)
        (new_file junk size)
        (add_entry name i s₀)
      ≡ (some inode, s₂)
    → file_create junk name size tmp s ≡ (done, write_inode i inode s₂)
unfolding file_create create_checked create_entry write_created
file_create-stored junk name size tmp s absent room free pos le enough got stored =
    let fits : (less size 1 || less 73216 size) ≡ false = ground arith in
    let entry : ltb max_dir_entry (s.cur_dir.num_entry + 1) ≡ false = ground arith in
    rw (fits, absent, entry, free, enough, got, stored) refl

pub free_inode_left :
    (s : FileSystem) → AreCounted s → 0 < s.free_inode_count → less s.free_inode_count 1 ≡ false
free_inode_left s c free =
    let most : s.free_inode_count ≤ max_inode =
      omega (arith, c.inodes.counted, clear_count-le max_inode s.inode_map) in
    ground arith

add_entry-AreCounted :
    (name : List ℕ) (i : ℕ) (s : FileSystem) → AreCounted s → AreCounted (add_entry name i s)
unfolding add_entry
add_entry-AreCounted name i s c = record { inodes = c.inodes; blocks = c.blocks }

module _ (junk : Junk) (name : List ℕ) (size : ℕ) (tmp : ℕ → ℕ) (s : FileSystem) where
  -- What is known of the file when it has been stored.
  module _ (i : ℕ) (s₀ : FileSystem) (inode : Inode) (s₂ : FileSystem)
      (d : Data tmp (num_block size) (add_entry name i s₀) (new_file junk size) inode s₂) where
    is_a_file : is_directory junk inode ≡ false
    unfolding is_directory new_file
    is_a_file = rw d.same refl

    has_size : inode.size ≡ size
    unfolding new_file
    has_size = rw d.same refl

    here : (write_inode i inode s₂).inodes i ≡ inode
    unfolding write_inode
    here = ground arith

    elsewhere :
        s₀.inodes ≡ s.inodes → (j : ℕ) → j ≢ i → (write_inode i inode s₂).inodes j ≡ s.inodes j
    unfolding write_inode add_entry
    elsewhere e j ne =
        ground (arith, ap (λ (f : ℕ → Inode). f j) d.tables.inodes, ap (λ (f : ℕ → Inode). f j) e)

    marks_after : Marks i s s₀ → Marks i s (write_inode i inode s₂)
    unfolding write_inode add_entry
    marks_after marks j = ap (λ m. get_bit m j) d.tables.inode_map ∙ marks j

    marked_after : get_bit s₀.inode_map i ≡ 1 → get_bit (write_inode i inode s₂).inode_map i ≡ 1
    unfolding write_inode add_entry
    marked_after used = ap (λ m. get_bit m i) d.tables.inode_map ∙ used

    recorded :
        search_cur_dir name s ≡ none
        → s₀.cur_dir ≡ s.cur_dir
        → search_cur_dir name (write_inode i inode s₂) ≡ some i
    unfolding write_inode
    recorded absent e =
        search_same name (add_entry name i s₀) (write_inode i inode s₂) d.tables.cur_dir
        ∙ search_added name i s s₀ absent e

    IsFile-after :
        search_cur_dir name s ≡ none
        → s₀.cur_dir ≡ s.cur_dir
        → i < max_inode
        → get_bit s₀.inode_map i ≡ 1
        → IsFile junk name tmp size i (write_inode i inode s₂)
    IsFile-after absent e inside used = record {
      found = recorded absent e;
      inside = inside;
      in_use = marked_after used;
      is_file = rw here is_a_file;
      has_size = rw here has_size;
      refers = rw here (Refers-write tmp (num_block size) i inode inode s₂ d.refers);
    }

    counted_after : AreCounted (write_inode i inode s₂)
    unfolding write_inode
    counted_after = record { inodes = d.counted.inodes; blocks = d.counted.blocks }

    fewer_blocks :
        s₀.free_block_count ≡ s.free_block_count
        → (write_inode i inode s₂).free_block_count + needed size ≡ s.free_block_count
    unfolding write_inode add_entry
    fewer_blocks e = omega (arith, d.fewer)

    SameRoot-after :
        s₀.cur_dir_inode ≡ s.cur_dir_inode
        → s₀.magic_number ≡ s.magic_number
        → SameRoot s (write_inode i inode s₂)
    unfolding write_inode add_entry
    SameRoot-after e e' = record {
      cur_dir_inode = d.tables.cur_dir_inode ∙ e;
      magic_number = d.tables.magic_number ∙ e';
    }

    keeps_used :
        s₀.block_map ≡ s.block_map → s₀.disk ≡ s.disk → KeepsUsed s (write_inode i inode s₂)
    unfolding write_inode add_entry
    keeps_used e e' = record {
      used = λ b h. d.keeps.used b (rw e h);
      held = λ b h. d.keeps.held b (rw e h) ∙ ap (λ (f : ℕ → Block). f b) e';
    }

  enough_left :
      (i : ℕ) (s₀ : FileSystem)
      → s₀.free_block_count ≡ s.free_block_count
      → needed size ≤ s.free_block_count
      → needed size ≤ (add_entry name i s₀).free_block_count
  unfolding add_entry
  enough_left i s₀ e enough = rw e enough

  -- If the counts are right, the name is new, the directory has room, an inode is free, the size is
  -- from 1 to 73216 bytes and enough blocks are free, `create` succeeds: it takes a free inode and
  -- exactly the blocks that the size needs, keeps the counts right, and leaves all other inodes and
  -- all blocks in use as they were. `cat` of the name then prints the bytes that were written.
  pub file_cat-file_create :
      AreCounted s
      → search_cur_dir name s ≡ none
      → s.cur_dir.num_entry < max_dir_entry
      → 0 < s.free_inode_count
      → 1 ≤ size
      → size ≤ 73216
      → needed size ≤ s.free_block_count
      → (i : ℕ) × (s' : FileSystem) × Created junk name size tmp s i s'
  file_cat-file_create c absent room free pos le enough = elim (get_inode_lem s c) [
    | inl (_, none_free, _) ↦ absurd (omega arith)
    | inr (i, s₀, e, taken, same, c₀) ↦
        let (_, inside, clear, _) = taken.first in
        let (inode, s₂, e₂, d) =
          stored junk size tmp (add_entry name i s₀) (add_entry-AreCounted name i s₀ c₀) le
            (enough_left i s₀ (ap (λ (t : FileSystem). t.free_block_count) same) enough) in
        let s' : FileSystem = write_inode i inode s₂ in
        let file =
          IsFile-after i s₀ inode s₂ d absent (ap (λ (t : FileSystem). t.cur_dir) same) inside
            (ground (arith, taken.marked i)) in
        (
          i,
          s',
          record {
            created =
                file_create-stored junk name size tmp s absent room (free_inode_left s c free) pos
                  le (enough_blocks junk size s c le enough) e e₂;
            file = file;
            prints = IsFile-Prints junk name tmp size i s' le file;
            counted = counted_after i s₀ inode s₂ d;
            fewer = fewer_blocks i s₀ inode s₂ d (ap (λ (t : FileSystem). t.free_block_count) same);
            was_free = clear;
            marked = marks_after i s₀ inode s₂ d taken.marked;
            others = elsewhere i s₀ inode s₂ d (ap (λ (t : FileSystem). t.inodes) same);
            keeps =
                keeps_used i s₀ inode s₂ d (ap (λ (t : FileSystem). t.block_map) same)
                  (ap (λ (t : FileSystem). t.disk) same);
            same_root =
                SameRoot-after i s₀ inode s₂ d (ap (λ (t : FileSystem). t.cur_dir_inode) same)
                  (ap (λ (t : FileSystem). t.magic_number) same);
          },
        )
  ]
