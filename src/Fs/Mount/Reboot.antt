-- ===== src/Fs/Mount/Reboot.antt =====
-- Two runs of p4: a file that was created in the first is printed in the second.
use csci4730_operating_syste.Base.{
  ℕ, ◌≤◌, ◌≡◌, ◌≢◌, refl, true, some, none, List, Option, arith, ◌∙◌, ap, sym,
}
use csci4730_operating_syste.Fs.State.{FileSystem}
use csci4730_operating_syste.Fs.Access.{Junk, done, search_cur_dir}
use csci4730_operating_syste.Fs.Access.Search.{Found, search_cur_dir-Found}
use csci4730_operating_syste.Fs.Directory.{dot}
use csci4730_operating_syste.Fs.Mount.Load.{Layout, ready, disk_mount, unmount, fs_mount}
use csci4730_operating_syste.Fs.Mount.Persist.{fs_mount-IsFile}
use csci4730_operating_syste.Fs.Mount.Again.{OnlyBlockMap}
use csci4730_operating_syste.Fs.Mount.Live.{Live, Live-kept, IsBlank, Mounted-Live}
use csci4730_operating_syste.Fs.Mount.Init.{IsZero}
use csci4730_operating_syste.Fs.Mount.Fresh.{mount_new-Mounted}
use csci4730_operating_syste.Fs.File.RoundTrip.{Created, file_cat-file_create}
use csci4730_operating_syste.Fs.File.Create.{needed}
use csci4730_operating_syste.Fs.File.Content.{num_block-bounds}
use csci4730_operating_syste.Fs.Links.Copied.{Copied}
use csci4730_operating_syste.Fs.File.{file_create}
use csci4730_operating_syste.Fs.File.Named.{Prints}

only_dot :
    (s : FileSystem) (name : List ℕ) (found : Option ℕ)
    → s.cur_dir.num_entry ≡ 1
    → (s.cur_dir.dentry 0).name ≡ dot
    → name ≢ dot
    → Found name s.cur_dir.dentry 0 s.cur_dir.num_entry found
    → found ≡ none
only_dot s name none one first ne f = refl
only_dot s name (some i) one first ne (j, is, e) =
    let here : j ≡ 0 = omega (arith, one, is.high) in
    absurd (ne (sym is.named ∙ ap (λ k. (s.cur_dir.dentry k).name) here ∙ first))

Created-Live :
    (junk : Junk) (name : List ℕ) (size : ℕ) (tmp : ℕ → ℕ) (s : FileSystem) (i : ℕ)
    (s' : FileSystem)
    → Live s
    → Created junk name size tmp s i s'
    → Live s'
Created-Live junk name size tmp s i s' l c =
    Live-kept s s' i l c.counted c.keeps c.same_root c.was_free c.others c.marked

pub Copied-Live :
    (junk : Junk) (src dest : List ℕ) (tmp : ℕ → ℕ) (size j : ℕ) (s : FileSystem) (i : ℕ)
    (s' : FileSystem)
    → Live s
    → Copied junk src dest tmp size j s i s'
    → Live s'
Copied-Live junk src dest tmp size j s i s' l c =
    Live-kept s s' i l c.counted c.keeps c.same_root c.was_free c.others c.marked

needed_most : (size : ℕ) → size ≤ 73216 → needed size ≤ 3964
needed_most size le = let (low, high) = num_block-bounds size in ground arith

-- A run of the program on a new disk, from globals and a disk that are zero, and a second one from
-- any globals. If the name is not ".", the size is from 1 to 73216 bytes, the host opens the file,
-- and what is written over the end of `inodeMap` lands in `blockMap`, then mounting, `create`,
-- unmounting, and mounting again succeed, and `cat` then prints the bytes that were written.
pub file_cat-fs_mount :
    (layout : Layout) (junk : Junk) (name : List ℕ) (size : ℕ) (tmp : ℕ → ℕ) (s t : FileSystem)
    → OnlyBlockMap layout
    → IsZero s
    → IsBlank s
    → name ≢ dot
    → 1 ≤ size
    → size ≤ 73216
    → (s₁ : FileSystem) × (s₂ : FileSystem) × (t' : FileSystem) × (fs_mount layout none s
        ≡ ready s₁)
      × (file_create junk name size tmp s₁ ≡ (done, s₂))
      × (fs_mount layout (unmount true none s₂).0 t ≡ ready t')
      × Prints junk name tmp size t'
unfolding fs_mount disk_mount
file_cat-fs_mount layout junk name size tmp s t only zero_maps blank ne pos le =
    let (s₁, m) = mount_new-Mounted s zero_maps in
    let absent =
      only_dot s₁ name (search_cur_dir name s₁) m.one_entry m.first_entry ne
        (search_cur_dir-Found name s₁) in
    let (i, s₂, c) =
      file_cat-file_create junk name size tmp s₁ m.counted absent (omega (arith, m.one_entry))
        (omega (arith, m.free_inodes)) pos le (omega (arith, m.free_blocks, needed_most size le)) in
    let live = Created-Live junk name size tmp s₁ i s₂ (Mounted-Live s s₁ blank m) c in
    let (t', e, _, _, prints) =
      fs_mount-IsFile layout junk none name tmp size i s₂ t only live le c.file in
    (s₁, s₂, t', rw m.mounted refl, c.created, e, prints)
