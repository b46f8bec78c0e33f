-- ===== src/Fs/Tests/Remove.antt =====
-- The removal of a file of p4 that was just created.
use csci4730_operating_syste.Base.{ℕ, zero, suc, ◌<◌, ◌≡◌, refl, some, arith, ap, ◌∙◌}
use csci4730_operating_syste.Fs.State.{FileSystem}
use csci4730_operating_syste.Fs.Bitmap.{get_bit, set_bit, toggle_bit}
use csci4730_operating_syste.Fs.Alloc.{get_inode, get_block}
use csci4730_operating_syste.Fs.Access.{done, add_entry, write_disk_block, write_inode}
use csci4730_operating_syste.Fs.Directory.{is_directory}
use csci4730_operating_syste.Fs.File.{file_create, num_block}
use csci4730_operating_syste.Fs.Counts.Freed.{Owned}
use csci4730_operating_syste.Fs.Links.{file_remove}
use csci4730_operating_syste.Fs.Links.Freed.{Removed, held_block, file_remove-Removed}
use csci4730_operating_syste.Fs.Tests.{rubbish, name_c, lookups}
use csci4730_operating_syste.Fs.Tests.Copy.{made, made-IsFile}

-- All that the creation of the file computes with.
creation : Unit {0}
unfolding lookups file_create get_inode get_bit get_block add_entry write_disk_block set_bit
    toggle_bit write_inode num_block is_directory
creation = tt

abbrev blocks_of : ℕ → ℕ
blocks_of = held_block rubbish (made.inodes 0) made

-- The file lies in the blocks 0 and 1, which are in use.
numbered : (j : ℕ) → j < 2 → blocks_of j ≡ j
unfolding creation
numbered zero lt = refl
numbered (suc zero) lt = refl
numbered (suc (suc j)) lt = absurd (omega (arith, lt))

marked : (j : ℕ) → j < 2 → get_bit made.block_map j ≡ 1
unfolding creation
marked zero lt = refl
marked (suc zero) lt = refl
marked (suc (suc j)) lt = absurd (omega (arith, lt))

made-Owned : Owned 2 0 blocks_of made
made-Owned = record {
  inside = λ j low high. omega (arith, numbered j high, high);
  in_use = λ j low high. ap (get_bit made.block_map) (numbered j high) ∙ marked j high;
  distinct = λ j l low lt high.
      λ e. omega (arith, numbered j (omega (arith, lt, high)), numbered l high, e, lt);
}

file_remove-Removed_example :
    (s' : FileSystem) × (file_remove rubbish name_c made ≡ some (done, s'))
    × Removed 2 0 blocks_of made s'
unfolding creation
file_remove-Removed_example =
    file_remove-Removed rubbish name_c made 0 made-IsFile.0 refl refl (omega arith) refl
      (omega arith) (omega arith) refl made-Owned
