-- ===== src/Fs/Tests/Copy.antt =====
-- The copy of a file of p4 that was just created.
use csci4730_operating_syste.Base.{ℕ, ◌≡◌, refl, none, some, List, [], ◌∷◌, arith, sym, ◌∙◌, ap}
use mathlib.Core.Path.{subst}
use mathlib.Core.Option.{some-injective}
use csci4730_operating_syste.Fs.State.{FileSystem}
use csci4730_operating_syste.Fs.Bitmap.{get_bit, set_bit, toggle_bit}
use csci4730_operating_syste.Fs.Alloc.{get_inode, get_block}
use csci4730_operating_syste.Fs.Access.{
  Outcome, search_cur_dir, add_entry, write_disk_block, write_inode,
}
use csci4730_operating_syste.Fs.Alloc.Laws.{AreCounted}
use csci4730_operating_syste.Fs.File.{file_create, num_block}
use csci4730_operating_syste.Fs.File.Named.{IsFile}
use csci4730_operating_syste.Fs.File.RoundTrip.{Created, file_cat-file_create}
use csci4730_operating_syste.Fs.Links.Copied.{Copied, file_copy-Copied}
use csci4730_operating_syste.Fs.Tests.{rubbish, fresh, fresh-AreCounted, name_c, lookups}

abbrev letters : ℕ → ℕ
letters x = b'x'

abbrev name_d : List ℕ
name_d = b'd' ∷ []

-- The state when a file of two blocks has been created.
abbrev pub made : FileSystem
made = (file_create rubbish name_c 600 letters fresh).1

made-Created : (i : ℕ) × (s' : FileSystem) × Created rubbish name_c 600 letters fresh i s'
unfolding lookups num_block
made-Created =
    file_cat-file_create rubbish name_c 600 letters fresh fresh-AreCounted refl (omega arith)
      (omega arith) (omega arith) (omega arith) (omega arith)

pub made_entries :
    (search_cur_dir name_c made ≡ some 0)
    × (search_cur_dir name_d made ≡ none)
    × (made.cur_dir.num_entry ≡ 4)
    × (made.free_inode_count ≡ 511)
    × (made.free_block_count ≡ 4094)
unfolding lookups file_create get_inode get_bit get_block add_entry write_disk_block set_bit
    toggle_bit write_inode
made_entries = (refl, refl, refl, refl, refl)

-- What was made is a file with right counts.
pub made-IsFile : AreCounted made × IsFile rubbish name_c letters 600 0 made
made-IsFile =
    let (i, s', c) = made-Created in
    let e : s' ≡ made = ap (λ (r : Outcome × FileSystem). r.1) (sym c.created) in
    let f : IsFile rubbish name_c letters 600 i made =
      subst (λ t. IsFile rubbish name_c letters 600 i t) e c.file in
    let first : i ≡ 0 = some-injective i 0 (sym f.found ∙ made_entries.0) in
    (
      subst (λ t. AreCounted t) e c.counted,
      subst (λ n. IsFile rubbish name_c letters 600 n made) first f,
    )

file_copy-Copied_example :
    (i : ℕ) × (s' : FileSystem) × Copied rubbish name_c name_d letters 600 0 made i s'
unfolding num_block
file_copy-Copied_example =
    let (_, absent, entries, inodes, blocks) = made_entries in
    file_copy-Copied rubbish name_c name_d letters 600 0 made made-IsFile.0 made-IsFile.1 absent
      (omega (arith, entries)) (omega (arith, inodes)) (omega arith) (omega (arith, blocks))
