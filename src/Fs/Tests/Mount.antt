-- ===== src/Fs/Tests/Mount.antt =====
-- Disks of p4 that are saved and mounted again.
use csci4730_operating_syste.Base.{◌≡◌, refl, ◌≢◌, ◌+◌, none, arith, true}
use csci4730_operating_syste.Fs.State.{FileSystem}
use csci4730_operating_syste.Fs.Access.{done}
use csci4730_operating_syste.Fs.Directory.{dot}
use csci4730_operating_syste.Fs.File.{file_create}
use csci4730_operating_syste.Fs.File.Named.{Prints}
use csci4730_operating_syste.Fs.Mount.{magic}
use csci4730_operating_syste.Fs.Mount.Load.{Layout, ready, unmount, fs_mount}
use csci4730_operating_syste.Fs.Mount.Again.{Remounted, fs_mount-unmount}
use csci4730_operating_syste.Fs.Mount.Reboot.{file_cat-fs_mount}
use csci4730_operating_syste.Fs.Tests.{rubbish, fresh, blank, name_c}

-- What is behind `inodeMap` sets the whole map of the blocks.
abbrev layout : Layout
layout = record {
  junk = rubbish;
  super = λ b. (0, 0, 0);
  bits = λ b k. 9;
  four = λ b k. blank;
  overrun = λ b s. record s { block_map = λ k. 255 };
}

-- A state that can be saved.
abbrev rooted : FileSystem
rooted = record fresh {
  magic_number = magic;
  inodes = λ k. record blank { direct_block = λ j. 131 + k };
}

fs_mount-unmount_example :
    (t' : FileSystem) × (fs_mount layout (unmount true none rooted).0 fresh ≡ ready t')
    × Remounted rooted t'
fs_mount-unmount_example =
    fs_mount-unmount layout none rooted fresh
      (record { number = refl; root = refl; behind = omega arith; inside = omega arith })
      (λ b s. refl)

c_not_dot : name_c ≢ dot
c_not_dot e = ground (arith, e)

file_cat-fs_mount_example :
    (s₁ : FileSystem) × (s₂ : FileSystem) × (t' : FileSystem) × (fs_mount layout none fresh
      ≡ ready s₁)
    × (file_create rubbish name_c 8000 (λ x. b'x') s₁ ≡ (done, s₂))
    × (fs_mount layout (unmount true none s₂).0 rooted ≡ ready t')
    × Prints rubbish name_c (λ x. b'x') 8000 t'
file_cat-fs_mount_example =
    file_cat-fs_mount layout rubbish name_c 8000 (λ x. b'x') fresh rooted (λ b s. refl)
      (record { inode_map = λ i. refl; block_map = λ i. refl }) (λ b. refl) c_not_dot (omega arith)
      (omega arith)
