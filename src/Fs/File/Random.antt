-- ===== src/Fs/File/Random.antt =====
-- `rand_string` of p4/fs_util.c, which fills the buffer of `file_create`, and what `cat` then prints.
use csci4730_operating_syste.Base.{
  ℕ, zero, suc, ◌+◌, ◌%◌, ◌≤◌, ◌<◌, ◌≡◌, refl, Bool, true, false, ◌&&◌, ◌||◌, none, List, arith,
  ltb, leb, ◌==◌, if◌then◌else◌, codes, get_elem?, Option, some, ◌∙◌, ap, Bool-cases, inl, inr,
}
use csci4730_operating_syste.Fs.Bitmap.{update}
use csci4730_operating_syste.Fs.State.{FileSystem, max_dir_entry}
use csci4730_operating_syste.Fs.Alloc.Laws.{AreCounted}
use csci4730_operating_syste.Fs.Access.{Junk, Outcome, done, printed, search_cur_dir}
use csci4730_operating_syste.Fs.File.{file_create, file_cat}
use csci4730_operating_syste.Fs.File.Create.{needed}
use csci4730_operating_syste.Fs.File.RoundTrip.{file_cat-file_create}

abbrev pub charset : List ℕ
charset = codes "abcdefghijklmnopqrstuvwxyzABCDEFGHIJKLMNOPQRSTUVWXYZ0123456789"

abbrev pub char_or_0 : Option ℕ → ℕ
char_or_0 none = 0
char_or_0 (some c) = c

-- `charset[key]`; the 0 behind the letters is never asked for.
unfoldable pub char_at : ℕ → ℕ
char_at key = char_or_0 (get_elem? charset key)

-- The loop, from index `n` on with `k` rounds left; `rand` gives the results of the calls by their
-- number.
unfoldable pub rand_from : (ℕ → ℕ) → (k n : ℕ) → (ℕ → ℕ) → ℕ → ℕ
unfolding char_at
rand_from rand zero n str = str
rand_from rand (suc k) n str = rand_from rand k (n + 1) (update str n (char_at (rand n % 62)))

-- The buffer, when it held `str`.
unfoldable pub rand_string : (ℕ → ℕ) → (ℕ → ℕ) → (size : ℕ) → ℕ → ℕ
unfolding rand_from
rand_string rand str size = if ltb size 1 then str else update (rand_from rand size 0 str) size 0

-- `file_create`, with the buffer that it fills; `malloc` leaves `junk.bytes` in it.
unfoldable pub create_random : Junk → (ℕ → ℕ) → List ℕ → ℕ → FileSystem → Outcome × FileSystem
unfolding rand_string
create_random junk rand name size s =
    file_create junk name size (rand_string rand junk.bytes size) s

-- A letter or a digit.
abbrev pub is_alnum : ℕ → Bool
is_alnum c =
    (leb b'a' c && leb c b'z') || ((leb b'A' c && leb c b'Z') || (leb b'0' c && leb c b'9'))

abbrev all_alnum : ℕ → Bool
all_alnum zero = true
all_alnum (suc k) = is_alnum (char_at k) && all_alnum k

charset_alnum : all_alnum 62 ≡ true
unfolding char_at
charset_alnum = refl

below_alnum : (k n : ℕ) → all_alnum k ≡ true → n < k → is_alnum (char_at n) ≡ true
below_alnum zero n all lt = elim lt [ ]
below_alnum (suc k) n all lt =
    let rest = below_alnum k n in
    elim (Bool-cases (n == k)) [
      | inl e ↦ let same : n ≡ k = ground (arith, e) in ground (arith, all, same)
      | inr ne ↦ rest (ground (arith, all)) (ground (arith, ne))
    ]

rand_from-alnum :
    (rand : ℕ → ℕ) (k n : ℕ) (str : ℕ → ℕ) (x : ℕ)
    → (x < n → is_alnum (str x) ≡ true)
    → x < n + k
    → is_alnum (rand_from rand k n str x) ≡ true
unfolding rand_from
rand_from-alnum rand zero n str x before lt = before (omega arith)
rand_from-alnum rand (suc k) n str x before lt =
    let letter = below_alnum 62 (rand n % 62) charset_alnum (omega arith) in
    rand_from-alnum rand k (n + 1) (update str n (char_at (rand n % 62))) x
      (λ lt'. elim (Bool-cases (x == n)) [
        | inl e ↦ rw e letter
        | inr ne ↦ rw ne (before (ground (arith, ne)))
      ])
      (omega arith)

pub rand_string-alnum :
    (rand : ℕ → ℕ) (str : ℕ → ℕ) (size x : ℕ)
    → x < size
    → is_alnum (rand_string rand str size x) ≡ true
unfolding rand_string
rand_string-alnum rand str size x lt =
    let some_size : ltb size 1 ≡ false = ground arith in
    let inside : (x == size) ≡ false = ground arith in
    rw (some_size, inside) (rand_from-alnum rand size 0 str x (λ h. elim h [ ]) (omega arith))

-- Under the conditions of `create`, what it writes and `cat` prints is a string of exactly `size`
-- letters and digits: no byte in front of its end is 0.
pub file_cat-create_random :
    (junk : Junk) (rand : ℕ → ℕ) (name : List ℕ) (size : ℕ) (s : FileSystem)
    → AreCounted s
    → search_cur_dir name s ≡ none
    → s.cur_dir.num_entry < max_dir_entry
    → 0 < s.free_inode_count
    → 1 ≤ size
    → size ≤ 73216
    → needed size ≤ s.free_block_count
    → (s' : FileSystem) × (str : ℕ → ℕ) × (create_random junk rand name size s ≡ (done, s'))
      × (file_cat junk name s' ≡ (printed str size, s'))
      × ((x : ℕ) → x < size → is_alnum (str x) ≡ true)
      × (str size ≡ 0)
unfolding create_random
file_cat-create_random junk rand name size s c absent room free pos le enough =
    let (i, s', made) =
      file_cat-file_create junk name size (rand_string rand junk.bytes size) s c absent room free
        pos le enough in
    let (str, cat, same, end) = made.prints in
    (
      s',
      str,
      made.created,
      cat,
      λ x lt. ap is_alnum (same x lt) ∙ rand_string-alnum rand junk.bytes size x lt,
      end,
    )
