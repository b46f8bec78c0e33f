-- ===== src/Fs/Tests.antt =====
-- The theorems on the file system of p4 at states that meet their hypotheses.
mod Copy
mod Mount
mod Remove
use csci4730_operating_syste.Fs.File.Random.{is_alnum, create_random, file_cat-create_random}
use csci4730_operating_syste.Base.{
  ◌*◌, ℕ, zero, suc, ◌+◌, ◌≤◌, ◌<◌, ◌≡◌, refl, ◌≢◌, some, List, [], ◌∷◌, arith, codes, true,
}
use csci4730_operating_syste.Fs.Bitmap.{update, get_bit}
use csci4730_operating_syste.Fs.Bitmap.Count.{clear_count}
use csci4730_operating_syste.Fs.State.{
  file, Inode, DirectoryEntry, Dentry, folder, other, FileSystem, max_inode, max_block,
}
use csci4730_operating_syste.Fs.Alloc.{free_block}
use csci4730_operating_syste.Fs.Alloc.Laws.{AreCounted, GotBlock, get_block_lem, free_block_lem}
use csci4730_operating_syste.Fs.Access.{
  Junk, failed, already_exists, same_string, same_prefix, command, search_from, search_cur_dir,
  shift_down, remove_from, remove_entry, printed,
}
use csci4730_operating_syste.Fs.Access.Search.{
  IsEntry, Found, search_cur_dir-Found, remove_entry_lem,
}
use csci4730_operating_syste.Fs.Directory.{dir_make, dir_change}
use csci4730_operating_syste.Fs.Directory.Make.{dir_make-already_exists}
use csci4730_operating_syste.Fs.Mount.FirstChange.{dir_change-mount_new}
use csci4730_operating_syste.Fs.Access.{done}
use csci4730_operating_syste.Fs.Directory.{is_directory}
use csci4730_operating_syste.Fs.File.{num_block, file_create, file_cat}
use csci4730_operating_syste.Fs.File.RoundTrip.{Created, file_cat-file_create}
use csci4730_operating_syste.Fs.Mount.Fresh.{Mounted, mount_new-Mounted}
use csci4730_operating_syste.Fs.Counts.Commands.{commands-AreCounted}
use csci4730_operating_syste.Fs.Links.{file_copy, hard_link, file_remove}
use csci4730_operating_syste.Fs.Counts.Removed.{KeptWith}
use csci4730_operating_syste.Fs.Mount.{mount_new, fs_umount}
use csci4730_operating_syste.Fs.Mount.Saved.{Saved, fs_umount-Saved}
use csci4730_operating_syste.Fs.Shell.{CommandLine, session}
use csci4730_operating_syste.Fs.Shell.Session.{session-AreCounted}
use csci4730_operating_syste.Fs.Links.Laws.{file_remove-hard_link}

-- All that the look-ups compute with.
lookups : Unit {0}
unfolding same_string same_prefix command search_from search_cur_dir shift_down remove_from
    remove_entry
lookups = tt

abbrev blank : Inode
blank = record {
  type = file;
  size = 0;
  block_count = 0;
  direct_block = λ k. 0;
  indirect_block = 0;
  link_count = 1;
}

abbrev entry : List ℕ → ℕ → DirectoryEntry
entry name i = record { name = name; inode = i }

abbrev name_a : List ℕ
name_a = b'a' ∷ []

abbrev name_b : List ℕ
name_b = b'b' ∷ []

abbrev dir : Dentry
dir = record {
  num_entry = 3;
  dentry =
      update (update (update (λ k. entry [] 0) 0 (entry (b'.' ∷ []) 0)) 1 (entry name_a 4)) 2
        (entry name_b 5);
}

abbrev rubbish : Junk
rubbish = record { inode = blank; folder = dir; map = λ k. 7; bytes = λ k. 1 }

-- Nothing is in use.
abbrev fresh : FileSystem
fresh = record {
  magic_number = 0;
  inode_map = λ k. 0;
  block_map = λ k. 0;
  free_inode_count = 512;
  free_block_count = 4096;
  inodes = λ k. blank;
  stray = blank;
  cur_dir = dir;
  cur_dir_inode = 131;
  disk = λ k. other;
}

clear_count-zero : (n : ℕ) → n ≡ clear_count n (λ k. 0)
unfolding clear_count get_bit
clear_count-zero zero = refl
clear_count-zero (suc n) = ground (arith, clear_count-zero n)

fresh-AreCounted : AreCounted fresh
fresh-AreCounted = record {
  inodes = record { bytes = λ k. omega arith; counted = clear_count-zero max_inode };
  blocks = record { bytes = λ k. omega arith; counted = clear_count-zero max_block };
}

get_block_lem_example : GotBlock fresh
get_block_lem_example = get_block_lem fresh fresh-AreCounted

dot_not_a : (m : ℕ) → m < 1 → (dir.dentry m).name ≢ name_a
dot_not_a zero high e = ground (arith, e)
dot_not_a (suc m) high e = absurd (omega arith)

a_at_1 : IsEntry name_a dir.dentry 0 3 1
a_at_1 = record {
  low = omega arith;
  high = omega arith;
  named = refl;
  before = λ m low high. dot_not_a m high;
}

dir_make-already_exists_example :
    (b : ℕ) × (s' : FileSystem) × (dir_make rubbish name_a fresh ≡ (failed already_exists, s'))
    × (get_bit fresh.block_map b ≡ 0)
    × (get_bit s'.block_map b ≡ 1)
    × (s'.free_block_count + 1 ≡ 4096)
    × (s' ≡ record fresh { block_map = s'.block_map; free_block_count = s'.free_block_count })
unfolding lookups
dir_make-already_exists_example =
    dir_make-already_exists rubbish name_a fresh {i = 4} fresh-AreCounted refl (omega arith)

-- The globals are 0 when the program starts.
dir_change-mount_new_example :
    (s₁ : FileSystem) × (s₂ : FileSystem) × (s₃ : FileSystem) × (mount_new fresh ≡ some s₁)
    × (dir_make rubbish name_a s₁ ≡ (done, s₂))
    × (get_bit s₂.block_map 0 ≡ 1)
    × (s₂.disk 0 ≡ other)
    × (s₂.disk 131 ≡ folder s₂.cur_dir)
    × (dir_change rubbish name_a s₂ ≡ (done, s₃))
    × (s₃.cur_dir_inode ≡ 1)
    × (s₃.disk 0 ≡ folder s₂.cur_dir)
dir_change-mount_new_example =
    dir_change-mount_new rubbish name_a fresh
      (record { inode_map = λ i. refl; block_map = λ i. refl }) refl (λ e. ground (arith, e))
      (λ e. ground (arith, e))

abbrev name_c : List ℕ
name_c = b'c' ∷ []

-- A file with an indirect block.
file_cat-file_create_example :
    (i : ℕ) × (s' : FileSystem) × Created rubbish name_c 8000 (λ x. b'x') fresh i s'
unfolding lookups num_block
file_cat-file_create_example =
    file_cat-file_create rubbish name_c 8000 (λ x. b'x') fresh fresh-AreCounted refl (omega arith)
      (omega arith) (omega arith) (omega arith) (omega arith)

file_remove-hard_link_example :
    (s₁ : FileSystem) × (s₂ : FileSystem) × (hard_link rubbish name_a name_c fresh ≡ (done, s₁))
    × (search_cur_dir name_c s₁ ≡ some 4)
    × ((s₁.inodes 4).link_count ≡ 2)
    × (file_remove rubbish name_c s₁ ≡ some (done, s₂))
    × (s₂.cur_dir.num_entry ≡ 3)
    × ((m : ℕ) → m < 3 → s₂.cur_dir.dentry m ≡ dir.dentry m)
    × ((k : ℕ) → s₂.inodes k ≡ blank)
    × (s₂ ≡ record fresh { cur_dir = s₂.cur_dir; inodes = s₂.inodes })
unfolding lookups is_directory
file_remove-hard_link_example =
    file_remove-hard_link rubbish name_a name_c fresh 4 refl refl refl (omega arith) refl refl
      (omega arith) (omega arith)

mount_new-Mounted_example : (s' : FileSystem) × Mounted fresh s'
mount_new-Mounted_example =
    mount_new-Mounted fresh (record { inode_map = λ i. refl; block_map = λ i. refl })

abbrev create_a : CommandLine
create_a = record {
  comm = codes "create";
  arg1 = name_a;
  arg2 = codes "600";
  words = 3;
  size = 600;
  tmp = λ x. b'x';
}

abbrev remove_a : CommandLine
remove_a = record { comm = codes "rm"; arg1 = name_a; arg2 = []; words = 2; size = 0; tmp = λ x. 0 }

session-AreCounted_example :
    (s' : FileSystem) × (mount_new fresh ≡ some s')
    × KeptWith (session rubbish (create_a ∷ remove_a ∷ []) s')
session-AreCounted_example =
    session-AreCounted rubbish fresh (create_a ∷ remove_a ∷ [])
      (record { inode_map = λ i. refl; block_map = λ i. refl })

file_cat-create_random_example :
    (s' : FileSystem) × (str : ℕ → ℕ) × (create_random rubbish (λ k. k * k) name_c 600 fresh
      ≡ (done, s'))
    × (file_cat rubbish name_c s' ≡ (printed str 600, s'))
    × ((x : ℕ) → x < 600 → is_alnum (str x) ≡ true)
    × (str 600 ≡ 0)
unfolding lookups num_block
file_cat-create_random_example =
    file_cat-create_random rubbish (λ k. k * k) name_c 600 fresh fresh-AreCounted refl (omega arith)
      (omega arith) (omega arith) (omega arith) (omega arith)
