-- ===== src/Fs/Shell/Session.antt =====
-- A run of p4/fs_sim.c keeps the counts of free inodes and blocks right.
use csci4730_operating_syste.Base.{ℕ, ◌≡◌, Option, none, some, List, [], ◌∷◌, ltb, codes}
use csci4730_operating_syste.Fs.State.{FileSystem}
use csci4730_operating_syste.Fs.Alloc.Laws.{AreCounted}
use csci4730_operating_syste.Fs.Access.{
  Junk, Outcome, printed, failed, is_a_directory, command, search_cur_dir, read_inode,
}
use csci4730_operating_syste.Fs.Directory.{dir_make, dir_change, is_directory}
use csci4730_operating_syste.Fs.File.{file_create, file_cat, cat_found, content}
use csci4730_operating_syste.Fs.Links.{hard_link, file_copy}
use csci4730_operating_syste.Fs.Counts.{Keeps-if}
use csci4730_operating_syste.Fs.Counts.Commands.{commands-AreCounted}
use csci4730_operating_syste.Fs.Counts.Removed.{
  KeptWith, KeptWith-if, file_remove-Kept, dir_remove-Kept,
}
use csci4730_operating_syste.Fs.Mount.{mount_new}
use csci4730_operating_syste.Fs.Mount.Init.{IsZero}
use csci4730_operating_syste.Fs.Mount.Fresh.{mount_new-Mounted}
use csci4730_operating_syste.Fs.Shell.{
  CommandLine, Reply, usage, with_outcome, of_outcome, execute_command, then_go, then_reply,
  session,
}

of_outcome-Kept : (r : Outcome × FileSystem) → AreCounted r.1 → KeptWith (of_outcome r)
of_outcome-Kept (o, s) c = c

with_outcome-Kept : (r : Option (Outcome × FileSystem)) → KeptWith r → KeptWith (with_outcome r)
with_outcome-Kept none c = tt
with_outcome-Kept (some (o, s)) c = c

module _ (junk : Junk) where
  cat_found-Kept :
      (found : Option ℕ) (s : FileSystem) → AreCounted s → AreCounted (cat_found junk found s).1
  unfolding cat_found
  cat_found-Kept none s c = c
  cat_found-Kept (some i) s c =
      let inode = read_inode (some i) s in
      Keeps-if (is_directory junk inode) (failed is_a_directory, s)
        (printed (content junk inode s) inode.size, s) c c

  execute_command-Kept :
      (input : CommandLine) (s : FileSystem)
      → AreCounted s
      → KeptWith (execute_command junk input s)
  unfolding execute_command file_cat
  execute_command-Kept input s c =
      let (create, copy, link, make, change) =
        commands-AreCounted junk input.arg1 input.arg2 input.size input.tmp s c in
      let is = λ (word : List ℕ). command input.comm word in
      let asks = λ (n : ℕ) (r : Option (Reply × FileSystem)) (k : KeptWith r).
        KeptWith-if (ltb input.words n) (some (usage, s)) r c k in
      let created = of_outcome-Kept (file_create junk input.arg1 input.size input.tmp s) create in
      let made = of_outcome-Kept (dir_make junk input.arg1 s) make in
      let changed = of_outcome-Kept (dir_change junk input.arg1 s) change in
      let linked = of_outcome-Kept (hard_link junk input.arg1 input.arg2 s) link in
      let copied = of_outcome-Kept (file_copy junk input.arg1 input.arg2 s) copy in
      let cat =
        of_outcome-Kept (cat_found junk (search_cur_dir input.arg1 s) s)
          (cat_found-Kept (search_cur_dir input.arg1 s) s c) in
      let remove = with_outcome-Kept _ (file_remove-Kept junk input.arg1 s c) in
      let remove_dir = with_outcome-Kept _ (dir_remove-Kept junk input.arg1 s c) in
      KeptWith-if (is (codes "create")) _ _ (asks 3 _ created) (
        KeptWith-if (is (codes "cat")) _ _ (asks 2 _ cat) (
          KeptWith-if (is (codes "rm")) _ _ (asks 2 _ remove) (
            KeptWith-if (is (codes "mkdir")) _ _ (asks 2 _ made) (
              KeptWith-if (is (codes "rmdir")) _ _ (asks 2 _ remove_dir) (
                KeptWith-if (is (codes "cd")) _ _ (asks 2 _ changed) (
                  KeptWith-if (is (codes "ls")) _ _ c (
                    KeptWith-if (is (codes "stat")) _ _ (asks 2 _ c) (
                      KeptWith-if (is (codes "df")) _ _ c (
                        KeptWith-if (is (codes "ln")) _ _ (asks 3 _ linked)
                          (KeptWith-if (is (codes "cp")) _ _ (asks 3 _ copied) c))))))))))

  replied-Kept :
      (r : Reply) (o : Option (List Reply × FileSystem))
      → KeptWith o
      → KeptWith (then_reply junk r o)
  replied-Kept r none c = tt
  replied-Kept r (some (rs, s)) c = c

  then_go-Kept :
      (r : Option (Reply × FileSystem)) (f : FileSystem → Option (List Reply × FileSystem))
      → KeptWith r
      → ((s : FileSystem) → AreCounted s → KeptWith (f s))
      → KeptWith (then_go junk r f)
  then_go-Kept none f c h = tt
  then_go-Kept (some (r, s)) f c h = replied-Kept r (f s) (h s c)

  session-Kept :
      (inputs : List CommandLine) (s : FileSystem) → AreCounted s → KeptWith (session junk inputs s)
  unfolding session
  session-Kept [] s c = c
  session-Kept (input ∷ inputs) s c = KeptWith-if (command input.comm (codes "quit")) _ _ c (
      KeptWith-if (command input.comm (codes "exit")) _ _ c (
        then_go-Kept (execute_command junk input s) (session junk inputs)
          (execute_command-Kept input s c) λ s' c'. session-Kept inputs s' c'))

  -- On a disk that is new, with the globals as the program starts, `fs_mount` succeeds, and whatever
  -- commands are entered: unless one of them faults, the counts of free inodes and blocks are right
  -- in the state in which the loop of `main` ends.
  pub session-AreCounted :
      (s : FileSystem) (inputs : List CommandLine)
      → IsZero s
      → (s' : FileSystem) × (mount_new s ≡ some s') × KeptWith (session junk inputs s')
  session-AreCounted s inputs zeroed =
      let (s', m) = mount_new-Mounted s zeroed in (s', m.mounted, session-Kept inputs s' m.counted)
