-- ===== src/Fs/File/Named.antt =====
-- A file of p4 by its name: what the current directory, its inode and its blocks say of it.
use csci4730_operating_syste.Base.{
  ℕ, ◌≤◌, ◌<◌, ◌≡◌, refl, false, some, List, arith, ◌∙◌, sym, ap, ◌==◌, if◌then◌else◌,
}
use mathlib.Core.Path.{subst}
use csci4730_operating_syste.Fs.Bitmap.{get_bit}
use csci4730_operating_syste.Fs.State.{FileSystem, max_inode}
use csci4730_operating_syste.Fs.Access.{Junk, printed, search_cur_dir}
use csci4730_operating_syste.Fs.Directory.{is_directory}
use csci4730_operating_syste.Fs.File.{num_block, content, file_cat}
use csci4730_operating_syste.Fs.File.Data.{Refers}
use csci4730_operating_syste.Fs.File.Content.{content-Printed}
use csci4730_operating_syste.Fs.File.Create.{file_cat_lem}

-- The name stands for inode `i`, which is in the table and in use, is no directory, and whose blocks hold the `size`
-- bytes of `tmp`.
pub record IsFile (junk : Junk) (name : List ℕ) (tmp : ℕ → ℕ) (size i : ℕ) (s : FileSystem)
    : Type 0 where
  pub found : search_cur_dir name s ≡ some i
  pub inside : i < max_inode
  pub in_use : get_bit s.inode_map i ≡ 1
  pub is_file : is_directory junk (s.inodes i) ≡ false
  pub has_size : (s.inodes i).size ≡ size
  pub refers : Refers tmp (num_block size) (s.inodes i) s

-- Inode `i` is marked as used, and the other marks are as they were.
abbrev pub Marks : ℕ → FileSystem → FileSystem → Type 0
Marks i s s' = (j : ℕ) → get_bit s'.inode_map j ≡ (if j == i then 1 else get_bit s.inode_map j)

-- The magic number and the block of the current directory are as they were.
pub record SameRoot (s s' : FileSystem) : Type 0 where
  pub cur_dir_inode : s'.cur_dir_inode ≡ s.cur_dir_inode
  pub magic_number : s'.magic_number ≡ s.magic_number

-- `file_cat` prints `str`, which is the `size` bytes of `tmp` and a final 0.
abbrev pub Prints : Junk → List ℕ → (ℕ → ℕ) → ℕ → FileSystem → Type 0
Prints junk name tmp size s =
    (str : ℕ → ℕ) × (file_cat junk name s ≡ (printed str size, s))
    × ((x : ℕ) → x < size → str x ≡ tmp x)
    × (str size ≡ 0)

pub IsFile-Prints :
    (junk : Junk) (name : List ℕ) (tmp : ℕ → ℕ) (size i : ℕ) (s : FileSystem)
    → size ≤ 73216
    → IsFile junk name tmp size i s
    → Prints junk name tmp size s
IsFile-Prints junk name tmp size i s le f =
    let inode = s.inodes i in
    let (same_bytes, end) =
      content-Printed junk tmp inode s
        (subst (λ n. Refers tmp (num_block n) inode s) (sym f.has_size) f.refers)
        (omega (arith, f.has_size)) in
    (
      content junk inode s,
      file_cat_lem junk name i inode s f.found refl f.is_file
          ∙ ap (λ n. (printed (content junk inode s) n, s)) f.has_size,
      λ x lt. same_bytes x (omega (arith, f.has_size)),
      subst (λ n. content junk inode s n ≡ 0) f.has_size end,
    )
