-- ===== src/Fs/Shell.antt =====
-- p4/fs_sim.c: the loop of `main`, and `execute_command` of p4/fs.c, with `ls` of p4/directory.c,
-- `file_stat` of p4/file.c and `fs_stat` of p4/fs.c.
pub mod Session
use csci4730_operating_syste.Base.{
  ℕ, zero, suc, ◌+◌, ◌||◌, Bool, true, false, Option, none, some, List, [], ◌∷◌, ltb, if◌then◌else◌,
  codes,
}
use csci4730_operating_syste.Fs.State.{Inode, DirectoryEntry, FileSystem}
use csci4730_operating_syste.Fs.Access.{
  Junk, Outcome, failed, does_not_exist, command, search_cur_dir, read_inode,
}
use csci4730_operating_syste.Fs.Directory.{dir_make, dir_remove, dir_change}
use csci4730_operating_syste.Fs.File.{file_create, file_cat}
use csci4730_operating_syste.Fs.Links.{file_remove, hard_link, file_copy}

-- What `sscanf` makes of a line: up to three words, which fit the arrays, and their number. `size` is
-- what `atoi` makes of the third, and `tmp` the buffer that `rand_string` fills for `create`.
pub record CommandLine : Type 0 where
  pub comm : List ℕ
  pub arg1 : List ℕ
  pub arg2 : List ℕ
  pub words : ℕ
  pub size : ℕ
  pub tmp : ℕ → ℕ

-- What a command prints or returns.
pub data Reply : Type 0 where
  outcome : Outcome → Reply
  usage : Reply
  not_found : Reply
  listing : List (DirectoryEntry × Inode) → Reply
  attributes : ℕ → Inode → Reply
  totals : (free_blocks free_inodes : ℕ) → Reply

-- The loop of `ls`, with `k` rounds left.
unfoldable pub list_from : ℕ → ℕ → FileSystem → List (DirectoryEntry × Inode)
list_from zero i s = []
list_from (suc k) i s =
    (s.cur_dir.dentry i, read_inode (some (s.cur_dir.dentry i).inode) s) ∷ list_from k (i + 1) s

unfoldable pub ls : FileSystem → Reply
ls s = listing (list_from s.cur_dir.num_entry 0 s)

-- `file_stat`, when the name has been looked up.
unfoldable pub stat_found : Option ℕ → FileSystem → Reply
stat_found none s = outcome (failed does_not_exist)
stat_found (some i) s = attributes i (read_inode (some i) s)

unfoldable pub file_stat : List ℕ → FileSystem → Reply
file_stat name s = stat_found (search_cur_dir name s) s

unfoldable pub fs_stat : FileSystem → Reply
fs_stat s = totals s.free_block_count s.free_inode_count

-- A command that may fault, and one that does not.
abbrev pub with_outcome : Option (Outcome × FileSystem) → Option (Reply × FileSystem)
with_outcome none = none
with_outcome (some (o, s)) = some (outcome o, s)

abbrev pub of_outcome : Outcome × FileSystem → Option (Reply × FileSystem)
of_outcome (o, s) = some (outcome o, s)

-- A command with fewer words than it needs prints how it is used.
abbrev pub needs :
    ℕ → CommandLine → FileSystem → Option (Reply × FileSystem) → Option (Reply × FileSystem)
needs n input s r = if ltb input.words n then some (usage, s) else r

module _ (junk : Junk) where
  -- `none` is a fault. The number of words counts the command.
  unfoldable pub execute_command : CommandLine → FileSystem → Option (Reply × FileSystem)
  execute_command input s =
      if command input.comm (codes "create")
      then needs 3 input s (of_outcome (file_create junk input.arg1 input.size input.tmp s))
      else if command input.comm (codes "cat")
      then needs 2 input s (of_outcome (file_cat junk input.arg1 s))
      else if command input.comm (codes "rm")
      then needs 2 input s (with_outcome (file_remove junk input.arg1 s))
      else if command input.comm (codes "mkdir")
      then needs 2 input s (of_outcome (dir_make junk input.arg1 s))
      else if command input.comm (codes "rmdir")
      then needs 2 input s (with_outcome (dir_remove junk input.arg1 s))
      else if command input.comm (codes "cd")
      then needs 2 input s (of_outcome (dir_change junk input.arg1 s))
      else if command input.comm (codes "ls")
      then some (ls s, s)
      else if command input.comm (codes "stat")
      then needs 2 input s (some (file_stat input.arg1 s, s))
      else if command input.comm (codes "df")
      then some (fs_stat s, s)
      else if command input.comm (codes "ln")
      then needs 3 input s (of_outcome (hard_link junk input.arg1 input.arg2 s))
      else if command input.comm (codes "cp")
      then needs 3 input s (of_outcome (file_copy junk input.arg1 input.arg2 s))
      else some (not_found, s)

  abbrev pub then_reply :
      Reply → Option (List Reply × FileSystem) → Option (List Reply × FileSystem)
  then_reply r none = none
  then_reply r (some (rs, s)) = some (r ∷ rs, s)

  abbrev pub then_go :
      Option (Reply × FileSystem)
      → (FileSystem → Option (List Reply × FileSystem))
      → Option (List Reply × FileSystem)
  then_go none f = none
  then_go (some (r, s)) f = then_reply r (f s)

  -- The loop of `main` over its input, and what each command replies.
  unfoldable pub session : List CommandLine → FileSystem → Option (List Reply × FileSystem)
  session [] s = some ([], s)
  session (input ∷ inputs) s =
      let go = then_go (execute_command input s) (session inputs) in
      if command input.comm (codes "quit")
      then some ([], s)
      else if command input.comm (codes "exit")
      then some ([], s)
      else go
