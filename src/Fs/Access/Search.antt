-- ===== src/Fs/Access/Search.antt =====
-- The look-up of a name in the current directory of p4, and the removal of its entry.
use csci4730_operating_syste.Base.{
  ℕ, zero, suc, ◌+◌, ◌-◌, ◌≤◌, ◌<◌, ◌≡◌, refl, ◌≢◌, true, false, Option, none, some, List, arith,
  ltb, if◌then◌else◌, Bool-cases, inl, inr, sym,
}
use csci4730_operating_syste.Fs.Bitmap.{update}
use csci4730_operating_syste.Fs.State.{DirectoryEntry, Dentry, FileSystem}
use native.Mathlib.Decide.{dec_lt}
use csci4730_operating_syste.Fs.Access.{
  same_string, command, search_from, search_cur_dir, shift_down, remove_from, remove_entry,
}
use csci4730_operating_syste.Fs.Access.Names.{command_iff, same_string_refl, same_string-eq}

-- `j` is the first index from `from` on, below `end`, with an entry of the name.
pub record IsEntry (name : List ℕ) (dentry : ℕ → DirectoryEntry) (from end j : ℕ) : Type 0 where
  pub low : from ≤ j
  pub high : j < end
  pub named : (dentry j).name ≡ name
  pub before : (m : ℕ) → from ≤ m → m < j → (dentry m).name ≢ name

-- What the search finds: no entry of the name, or the inode of the first one.
abbrev pub Found : List ℕ → (ℕ → DirectoryEntry) → (from end : ℕ) → Option ℕ → Type 0
Found name dentry from end none = (m : ℕ) → from ≤ m → m < end → (dentry m).name ≢ name
Found name dentry from end (some i) =
    (j : ℕ) × IsEntry name dentry from end j × ((dentry j).inode ≡ i)

module _ (name : List ℕ) (dentry : ℕ → DirectoryEntry) where
  differs : (m : ℕ) → command name (dentry m).name ≡ false → (dentry m).name ≢ name
  differs m h e = ground (arith, (command_iff name (dentry m).name).1 (sym e))

  Found-later :
      (i end : ℕ) (r : Option ℕ)
      → command name (dentry i).name ≡ false
      → Found name dentry (i + 1) end r
      → Found name dentry i end r
  Found-later i end none h f = λ m low high. elim (dec_lt i m) [
    | yes above ↦ f m (omega arith) high
    | no here ↦ let e : i ≡ m = omega arith in rw (← e) (differs i h)
  ]
  Found-later i end (some x) h (j, is, e) = (
    j,
    record {
      low = omega (arith, is.low);
      high = is.high;
      named = is.named;
      before = λ m low high. elim (dec_lt i m) [
        | yes above ↦ is.before m (omega arith) high
        | no here ↦ let e' : i ≡ m = omega arith in rw (← e') (differs i h)
      ];
    },
    e,
  )

  pub search_from-Found :
      (k i end : ℕ) → i + k ≡ end → Found name dentry i end (search_from k i name dentry)
  unfolding search_from
  search_from-Found zero i end e = λ m low high. absurd (omega arith)
  search_from-Found (suc k) i end e = elim (Bool-cases (command name (dentry i).name)) [
    | inl same ↦ rw same (
      i,
      record {
        low = omega arith;
        high = omega arith;
        named = sym ((command_iff name (dentry i).name).0 same);
        before = λ m low high. absurd (omega arith);
      },
      refl,
    )
    | inr other ↦ rw other (
        Found-later i end (search_from k (i + 1) name dentry) other
          (search_from-Found k (i + 1) end (omega arith)))
  ]

-- `search_cur_dir` returns the inode of the first entry of the name, and -1 exactly if the current
-- directory has no entry of the name.
pub search_cur_dir-Found :
    (name : List ℕ) (s : FileSystem)
    → Found name s.cur_dir.dentry 0 s.cur_dir.num_entry (search_cur_dir name s)
unfolding search_cur_dir
search_cur_dir-Found name s =
    search_from-Found name s.cur_dir.dentry s.cur_dir.num_entry 0 s.cur_dir.num_entry (omega arith)

shift_down_lem :
    (k i : ℕ) (dentry : ℕ → DirectoryEntry) (m : ℕ)
    → shift_down k i dentry m
      ≡ (if ltb m i then dentry m else if ltb m (i + k) then dentry (m + 1) else dentry m)
unfolding shift_down
shift_down_lem zero i dentry m = ground arith
shift_down_lem (suc k) i dentry m =
    ground (arith, shift_down_lem k (i + 1) (update dentry i (dentry (i + 1))) m)

not_same :
    (name : List ℕ) (d : Dentry) (i : ℕ)
    → (d.dentry i).name ≢ name
    → same_string name (d.dentry i).name ≡ false
not_same name d i ne = elim (Bool-cases (same_string name (d.dentry i).name)) [
  | inl h ↦ absurd (ne (sym (same_string-eq name (d.dentry i).name h)))
  | inr h ↦ h
]

remove_from-found :
    (name : List ℕ) (d : Dentry) (k i j : ℕ)
    → i + k ≡ d.num_entry
    → IsEntry name d.dentry i d.num_entry j
    → remove_from k i name d
      ≡ record { num_entry = d.num_entry - 1; dentry = shift_down (d.num_entry - j) j d.dentry }
unfolding remove_from
remove_from-found name d zero i j e is = absurd (omega (arith, is.low, is.high))
remove_from-found name d (suc k) i j e is = elim (dec_lt i j) [
  | yes later ↦
      let other : same_string name (d.dentry i).name ≡ false =
        not_same name d i (is.before i (omega arith) later) in
      rw other (
        remove_from-found name d k (i + 1) j (omega arith) (record {
          low = omega arith;
          high = is.high;
          named = is.named;
          before = λ m low high. is.before m (omega arith) high;
        }))
  | no past ↦
      let here : i ≡ j = omega (arith, is.low) in
      let same : same_string name (d.dentry i).name ≡ true =
        rw (here, is.named) (same_string_refl name) in
      let count : d.num_entry - j ≡ suc k = omega arith in rw (same, count, here)
]

-- Removing the first entry of a name takes it out: the entries in front of it stay where they are,
-- those behind it move down by one, and nothing but the current directory changes.
pub remove_entry_lem :
    (name : List ℕ) (s : FileSystem) (j : ℕ)
    → IsEntry name s.cur_dir.dentry 0 s.cur_dir.num_entry j
    → ((remove_entry name s).cur_dir.num_entry + 1 ≡ s.cur_dir.num_entry)
      × ((m : ℕ) → m < j → (remove_entry name s).cur_dir.dentry m ≡ s.cur_dir.dentry m)
      × ((m : ℕ)
          → j ≤ m
          → m < s.cur_dir.num_entry
          → (remove_entry name s).cur_dir.dentry m ≡ s.cur_dir.dentry (m + 1))
      × (remove_entry name s ≡ record s { cur_dir = (remove_entry name s).cur_dir })
unfolding remove_entry
remove_entry_lem name s j is =
    let n = s.cur_dir.num_entry in
    let d = s.cur_dir.dentry in
    let e = remove_from-found name s.cur_dir n 0 j (omega arith) is in
    (
      rw e (omega (arith, is.high)),
      λ m lt. rw e (ground (arith, shift_down_lem (n - j) j d m)),
      λ m le lt. rw e (ground (arith, shift_down_lem (n - j) j d m)),
      refl,
    )
