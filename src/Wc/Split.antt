-- ===== src/Wc/Split.antt =====
-- The children of p1/wc_multi.c together count what one process would.
use csci4730_operating_syste.Base.{
  ℕ, zero, suc, ◌+◌, ◌-◌, ◌*◌, ◌/◌, ◌<◌, ◌≡◌, refl, ◌≢◌, Bool, true, false, some, List, [], ◌∷◌,
  arith, ◌==◌, if◌then◌else◌, length, drop, take, All, length-drop, length-append, take-all, ◌∙◌,
  ap, ◌++◌, sym,
}
use csci4730_operating_syste.Wc.{
  Count, zero_count, eof, is_separator, count_char, count_loop, word_count, child, retry, add,
  add_child, total, wc_multi,
}

-- How many bytes there are of a kind.
unfoldable pub number : (ℕ → Bool) → List ℕ → ℕ
number p [] = 0
number p (ch ∷ rest) = number p rest + (if p ch then 1 else 0)

-- The newlines, the separators, and the other bytes.
abbrev pub tally : List ℕ → Count
tally fp = record {
  linecount = number (λ ch. ch == b'\n') fp;
  wordcount = number is_separator fp;
  charcount = number (λ ch. if is_separator ch then false else true) fp;
}

abbrev pub NoEof : List ℕ → Type 0
NoEof = All (λ ch. ch ≢ eof)

Count-eq :
    (a b : Count)
    → a.linecount ≡ b.linecount
    → a.wordcount ≡ b.wordcount
    → a.charcount ≡ b.charcount
    → a ≡ b
Count-eq a b e e' e'' = cc

add_none : (c : Count) → c ≡ add (tally []) c
unfolding number
add_none c = Count-eq c (add (tally []) c) (omega arith) (omega arith) (omega arith)

count_char-tally :
    (ch : ℕ) (fp : List ℕ) (c : Count) → add (tally fp) (count_char ch c) ≡ add (tally (ch ∷ fp)) c
unfolding count_char number
count_char-tally ch fp c =
    Count-eq (add (tally fp) (count_char ch c)) (add (tally (ch ∷ fp)) c) (ground arith)
      (ground arith) (ground arith)

count_loop-tally :
    (left : ℕ) (fp : List ℕ) (c : Count)
    → NoEof fp
    → count_loop left fp c ≡ add (tally (take left fp)) c
unfolding count_loop number
count_loop-tally zero [] c h = add_none c
count_loop-tally (suc left) [] c h = add_none c
count_loop-tally zero (ch ∷ rest) c h = add_none c
count_loop-tally (suc left) (ch ∷ rest) c (ne, h) =
    let go : (ch == eof) ≡ false = ground (arith, ne) in
    rw (go, count_loop-tally left rest (count_char ch c) h) (count_char-tally ch (take left rest) c)

count_loop-eof :
    (left : ℕ) (front behind : List ℕ) (c : Count)
    → length front < left
    → NoEof front
    → count_loop left (front ++ eof ∷ behind) c ≡ add (tally front) c
unfolding count_loop
count_loop-eof zero front behind c lt h = absurd (omega arith)
count_loop-eof (suc left) [] behind c lt h = add_none c
count_loop-eof (suc left) (ch ∷ front) behind c lt (ne, h) =
    let go : (ch == eof) ≡ false = ground (arith, ne) in
    rw (go, count_loop-eof left front behind (count_char ch c) (omega arith) h)
      (count_char-tally ch front c)

number-take :
    (p : ℕ → Bool) (k : ℕ) (fp : List ℕ) → number p (take k fp) + number p (drop k fp) ≡ number p fp
unfolding number
number-take p zero [] = refl
number-take p (suc k) [] = refl
number-take p zero (ch ∷ rest) = ground arith
number-take p (suc k) (ch ∷ rest) = ground (arith, number-take p k rest)

NoEof-drop : (k : ℕ) (fp : List ℕ) → NoEof fp → NoEof (drop k fp)
NoEof-drop zero [] h = h
NoEof-drop zero (ch ∷ rest) h = h
NoEof-drop (suc k) [] h = h
NoEof-drop (suc k) (ch ∷ rest) (ne, h) = NoEof-drop k rest h

drop_none : (k : ℕ) → drop {A = ℕ} k [] ≡ []
drop_none zero = refl
drop_none (suc k) = refl

drop_more : (j k : ℕ) (fp : List ℕ) → drop k (drop j fp) ≡ drop (j + k) fp
drop_more zero k fp = let e : 0 + k ≡ k = omega arith in rw e refl
drop_more (suc j) k [] = rw (drop_none k, drop_none (suc j + k)) refl
drop_more (suc j) k (ch ∷ rest) =
    let e : suc j + k ≡ suc (j + k) = omega arith in rw e (drop_more j k rest)

-- A part and what is behind it.
tally-take : (k : ℕ) (fp : List ℕ) → add (tally (take k fp)) (tally (drop k fp)) ≡ tally fp
tally-take k fp =
    Count-eq (add (tally (take k fp)) (tally (drop k fp))) (tally fp) (number-take _ k fp)
      (number-take _ k fp) (number-take _ k fp)

word_count-tally :
    (fp : List ℕ) (offset size : ℕ)
    → NoEof fp
    → word_count fp offset size ≡ tally (take size (drop offset fp))
unfolding word_count
word_count-tally fp offset size h =
    count_loop-tally size (drop offset fp) zero_count (NoEof-drop offset fp h)
    ∙ Count-eq _ (tally (take size (drop offset fp))) (omega arith) (omega arith) (omega arith)

-- An attempt that does not crash.
pub data Succeeds : List Bool → Type 0 where
  now : {crashes : List Bool} → Succeeds (false ∷ crashes)
  later : {crashes : List Bool} → Succeeds crashes → Succeeds (true ∷ crashes)

retry-Succeeds : {crashes : List Bool} (c : Count) → Succeeds crashes → retry crashes c ≡ some c
unfolding retry
retry-Succeeds c now = refl
retry-Succeeds c (later h) = retry-Succeeds c h

module _ (fp : List ℕ) (n : ℕ) (crashes : ℕ → List Bool) (h : NoEof fp)
    (ok : (i : ℕ) → i < n → Succeeds (crashes i)) where
  abbrev offset : ℕ → ℕ
  offset i = i * (length fp / n)

  child-inner :
      (i : ℕ) → suc i < n → child fp n i ≡ tally (take (length fp / n) (drop (offset i) fp))
  unfolding child
  child-inner i lt =
      let inner : (i == n - 1) ≡ false = ground arith in
      rw inner (word_count-tally fp (offset i) (length fp / n) h)

  child-last : (i : ℕ) → suc i ≡ n → child fp n i ≡ tally (drop (offset i) fp)
  unfolding child
  child-last i e =
      let last : (i == n - 1) ≡ true = ground arith in
      let all =
        take-all (length fp - offset i) (drop (offset i) fp)
          (omega (arith, length-drop (offset i) fp)) in
      rw last (word_count-tally fp (offset i) (length fp - offset i) h ∙ ap tally all)

  offset_more : (i : ℕ) → offset i + length fp / n ≡ offset (i + 1)
  offset_more i = omega arith

  total-tally :
      (k i : ℕ) → i + suc k ≡ n → total (suc k) i fp n crashes ≡ some (tally (drop (offset i) fp))
  unfolding total add_child
  total-tally zero i e =
      rw
        (
          child-last i (omega arith),
          retry-Succeeds (tally (drop (offset i) fp)) (ok i (omega arith)),
        )
        (ap some (
          Count-eq (add (tally (drop (offset i) fp)) zero_count) (tally (drop (offset i) fp))
            (omega arith) (omega arith) (omega arith)))
  total-tally (suc k) i e =
      let size = length fp / n in
      let behind : drop (offset (i + 1)) fp ≡ drop size (drop (offset i) fp) =
        rw⁻¹ (offset_more i) (sym (drop_more (offset i) size fp)) in
      rw
        (
          child-inner i (omega arith),
          retry-Succeeds (tally (take size (drop (offset i) fp))) (ok i (omega arith)),
          total-tally k (i + 1) (omega arith),
          behind,
        )
        (ap some (tally-take size (drop (offset i) fp)))

-- If no byte of the file is 0xff, there is at least one child, and each child has an attempt that
-- does not crash, the parent ends, and its totals are the number of newlines, the number of
-- newlines and spaces, and the number of other bytes of the whole file: no byte is counted twice
-- or left out between the children, and they are what one process would count.
pub wc_multi-tally :
    (fp : List ℕ) (n : ℕ) (crashes : ℕ → List Bool)
    → NoEof fp
    → 0 < n
    → ((i : ℕ) → i < n → Succeeds (crashes i))
    → (wc_multi fp n crashes ≡ some (tally fp)) × (word_count fp 0 (length fp) ≡ tally fp)
unfolding wc_multi
wc_multi-tally fp (suc k) crashes h pos ok = (
  (let start : 0 * (length fp / suc k) ≡ 0 = omega arith in
      total-tally fp (suc k) crashes h ok k 0 (omega arith)
      ∙ ap (λ o. some (tally (drop o fp))) start),
  word_count-tally fp 0 (length fp) h ∙ ap tally (take-all (length fp) fp (omega arith)),
)
wc_multi-tally fp zero crashes h pos ok = absurd (omega arith)

-- A byte 0xff ends the count of a file: what is behind it is not counted.
pub word_count-eof :
    (front behind : List ℕ)
    → NoEof front
    → word_count (front ++ eof ∷ behind) 0 (length (front ++ eof ∷ behind)) ≡ tally front
unfolding word_count
word_count-eof front behind h =
    count_loop-eof (length (front ++ eof ∷ behind)) front behind zero_count
      (omega (arith, length-append front (eof ∷ behind))) h
    ∙ Count-eq (add (tally front) zero_count) (tally front) (omega arith) (omega arith)
        (omega arith)
