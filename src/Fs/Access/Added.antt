-- ===== src/Fs/Access/Added.antt =====
-- A name that was just added to the current directory of p4 is found.
use csci4730_operating_syste.Base.{ℕ, ◌<◌, ◌≡◌, refl, ◌≢◌, Option, none, some, List, arith, ap, ◌∙◌}
use native.Mathlib.Decide.{dec_lt}
use csci4730_operating_syste.Fs.State.{DirectoryEntry, Dentry, FileSystem}
use csci4730_operating_syste.Fs.Access.{search_from, search_cur_dir, add_entry}
use csci4730_operating_syste.Fs.Access.Search.{IsEntry, Found, search_cur_dir-Found}

absent-differs :
    (name : List ℕ) (s : FileSystem)
    → search_cur_dir name s ≡ none
    → (m : ℕ) → m < s.cur_dir.num_entry
    → (s.cur_dir.dentry m).name ≢ name
absent-differs name s absent m lt = (rw absent at (search_cur_dir-Found name s)) m (omega arith) lt

-- The name is the last entry, and there is no other of it.
pub added-IsEntry :
    (name : List ℕ) (i : ℕ) (s t : FileSystem)
    → search_cur_dir name s ≡ none
    → t.cur_dir ≡ s.cur_dir
    → IsEntry name
        (add_entry name i t).cur_dir.dentry
        0
        (add_entry name i t).cur_dir.num_entry
        s.cur_dir.num_entry
unfolding add_entry
added-IsEntry name i s t absent same = rw same (record {
  low = omega arith;
  high = omega arith;
  named = ground arith;
  before = λ m low high. ground (arith, absent-differs name s absent m high);
})

IsEntry-unique :
    (name : List ℕ) (d : ℕ → DirectoryEntry) (end j k : ℕ)
    → IsEntry name d 0 end j
    → IsEntry name d 0 end k
    → j ≡ k
IsEntry-unique name d end j k a b = elim (dec_lt j k) [
  | yes lt ↦ absurd (b.before j (omega arith) lt a.named)
  | no ge ↦ elim (dec_lt k j) [
    | yes gt ↦ absurd (a.before k (omega arith) gt b.named)
    | no le ↦ omega arith
  ]
]

-- Two first entries of a name are the same.
Found-IsEntry :
    (name : List ℕ) (d : ℕ → DirectoryEntry) (end j : ℕ) (r : Option ℕ)
    → IsEntry name d 0 end j
    → Found name d 0 end r
    → r ≡ some (d j).inode
Found-IsEntry name d end j none is f = absurd (f j (omega arith) is.high is.named)
Found-IsEntry name d end j (some i) is (m, is', e) =
    rw (IsEntry-unique name d end j m is is', e) refl

pub search_added :
    (name : List ℕ) (i : ℕ) (s t : FileSystem)
    → search_cur_dir name s ≡ none
    → t.cur_dir ≡ s.cur_dir
    → search_cur_dir name (add_entry name i t) ≡ some i
unfolding add_entry
search_added name i s t absent same =
    let u = add_entry name i t in
    let last : (u.cur_dir.dentry s.cur_dir.num_entry).inode ≡ i = rw same (ground arith) in
    Found-IsEntry name u.cur_dir.dentry u.cur_dir.num_entry s.cur_dir.num_entry
      (search_cur_dir name u) (added-IsEntry name i s t absent same) (search_cur_dir-Found name u)
    ∙ ap some last

-- The search depends on the current directory only.
pub search_same :
    (name : List ℕ) (s t : FileSystem)
    → t.cur_dir ≡ s.cur_dir
    → search_cur_dir name t ≡ search_cur_dir name s
unfolding search_cur_dir
search_same name s t e = ap (λ (d : Dentry). search_from d.num_entry 0 name d.dentry) e

IsEntry-added :
    (name dest : List ℕ) (i j : ℕ) (s t : FileSystem)
    → t.cur_dir ≡ s.cur_dir
    → IsEntry name s.cur_dir.dentry 0 s.cur_dir.num_entry j
    → IsEntry name (add_entry dest i t).cur_dir.dentry 0 (add_entry dest i t).cur_dir.num_entry j
unfolding add_entry
IsEntry-added name dest i j s t same is = rw same (record {
  low = is.low;
  high = omega (arith, is.high);
  named = ground (arith, is.named, is.high);
  before = λ m low high e. is.before m low high (ground (arith, e, is.high));
})

-- A name that is there is still found behind the addition of another entry.
pub search_kept :
    (name dest : List ℕ) (i j : ℕ) (s t : FileSystem)
    → search_cur_dir name s ≡ some j
    → t.cur_dir ≡ s.cur_dir
    → search_cur_dir name (add_entry dest i t) ≡ some j
unfolding add_entry
search_kept name dest i j s t found same =
    let u = add_entry dest i t in
    let (m, is, e) = rw found at (search_cur_dir-Found name s) in
    let kept : (u.cur_dir.dentry m).inode ≡ j = rw same (ground (arith, e, is.high)) in
    Found-IsEntry name u.cur_dir.dentry u.cur_dir.num_entry m (search_cur_dir name u)
      (IsEntry-added name dest i m s t same is) (search_cur_dir-Found name u)
    ∙ ap some kept
