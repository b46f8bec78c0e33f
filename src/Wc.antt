-- ===== src/Wc.antt =====
-- The word counter of p1: `word_count` of p1/wc_core.c, and the children of p1/wc_multi.c. A file
-- is the list of its bytes.
pub mod Split
pub mod Programs
mod Tests
use csci4730_operating_syste.Base.{
  ℕ, zero, suc, ◌+◌, ◌-◌, ◌*◌, ◌/◌, Bool, true, false, ◌||◌, not, Option, none, some, List, [], ◌∷◌,
  ltb, ◌==◌, if◌then◌else◌, length, drop,
}

pub record Count : Type 0 where
  pub linecount : ℕ
  pub wordcount : ℕ
  pub charcount : ℕ

abbrev pub zero_count : Count
zero_count = record { linecount = 0; wordcount = 0; charcount = 0 }

-- The byte that `getc` returns as EOF, when it is put into a `char`.
abbrev pub eof : ℕ
eof = 0xff

abbrev pub is_separator : ℕ → Bool
is_separator ch = ch == b' ' || ch == b'\n'

unfoldable pub count_char : ℕ → Count → Count
count_char ch c = record {
  linecount = if ch == b'\n' then c.linecount + 1 else c.linecount;
  wordcount = if is_separator ch then c.wordcount + 1 else c.wordcount;
  charcount = if is_separator ch then c.charcount else c.charcount + 1;
}

-- The loop of `word_count`, with the bytes that are left to read. One more is read and dropped.
unfoldable pub count_loop : ℕ → List ℕ → Count → Count
unfolding count_char
count_loop left [] c = c
count_loop zero (ch ∷ rest) c = c
count_loop (suc left) (ch ∷ rest) c =
    if ch == eof then c else count_loop left rest (count_char ch c)

unfoldable pub word_count : List ℕ → (offset size : ℕ) → Count
unfolding count_loop
word_count fp offset size = count_loop size (drop offset fp) zero_count

-- What child `i` of `n` counts.
unfoldable pub child : List ℕ → (n i : ℕ) → Count
unfolding word_count
child fp n i =
    let fsize = length fp in
    let offset = i * (fsize / n) in
    word_count fp offset (if i == n - 1 then fsize - offset else fsize / n)

-- A child runs until it does not crash: `crashes` says of each attempt if it does. `none` is a
-- parent that still waits.
unfoldable pub retry : List Bool → Count → Option Count
retry [] c = none
retry (true ∷ crashes) c = retry crashes c
retry (false ∷ crashes) c = some c

abbrev pub add : Count → Count → Count
add c d = record {
  linecount = c.linecount + d.linecount;
  wordcount = c.wordcount + d.wordcount;
  charcount = c.charcount + d.charcount;
}

-- One round of the loop that reads the pipes.
unfoldable pub add_child : Option Count → Option Count → Option Count
add_child none total = none
add_child (some c) none = none
add_child (some c) (some total) = some (add c total)

-- The children from `i` on, `k` of them.
unfoldable pub total : ℕ → ℕ → List ℕ → ℕ → (ℕ → List Bool) → Option Count
unfolding child retry add_child
total zero i fp n crashes = some zero_count
total (suc k) i fp n crashes =
    add_child (retry (crashes i) (child fp n i)) (total k (i + 1) fp n crashes)

unfoldable pub wc_multi : List ℕ → ℕ → (ℕ → List Bool) → Option Count
unfolding total
wc_multi fp n crashes = total n 0 fp n crashes
