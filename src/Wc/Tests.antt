-- ===== src/Wc/Tests.antt =====
-- The theorems on the word counter of p1 at concrete files.
use csci4730_operating_syste.Base.{ℕ, ◌≡◌, Bool, true, false, some, List, [], ◌∷◌, arith, refl, pos}
use csci4730_operating_syste.Wc.{Count, eof, word_count, wc_multi}
use csci4730_operating_syste.Wc.Programs.{
  Arguments, counted, main_multi, main_single, main_multi-main_single, clamp,
}
use csci4730_operating_syste.Wc.Split.{number, now, later, wc_multi-tally, word_count-eof}

abbrev text : List ℕ
text = b'a' ∷ b' ' ∷ b'b' ∷ b'c' ∷ b'\n' ∷ b'd' ∷ b'\n' ∷ []

abbrev crashes : ℕ → List Bool
crashes i = true ∷ false ∷ []

abbrev expected : Count
expected = record { linecount = 2; wordcount = 3; charcount = 4 }

wc_multi-tally_example :
    (wc_multi text 3 crashes ≡ some expected) × (word_count text 0 7 ≡ expected)
unfolding number
wc_multi-tally_example =
    wc_multi-tally text 3 crashes
      (
        omega arith,
        (
          omega arith,
          (omega arith, (omega arith, (omega arith, (omega arith, (omega arith, tt))))),
        ),
      )
      (omega arith) (λ i lt. later now)

word_count-eof_example :
    word_count (b'a' ∷ eof ∷ b'b' ∷ []) 0 3 ≡ record { linecount = 0; wordcount = 0; charcount = 1 }
unfolding number
word_count-eof_example = word_count-eof (b'a' ∷ []) (b'b' ∷ []) (omega arith, tt)

-- `wc file 4 20`
abbrev arguments : Arguments
arguments = record { argc = 4; processes = pos 4; rate = pos 20; opened = some text }

main_multi-main_single_example :
    (main_multi arguments crashes ≡ counted expected)
    × (main_single arguments 77 ≡ main_multi arguments crashes)
unfolding number clamp
main_multi-main_single_example =
    main_multi-main_single arguments text 77 crashes (omega arith) refl
      (
        omega arith,
        (
          omega arith,
          (omega arith, (omega arith, (omega arith, (omega arith, (omega arith, tt))))),
        ),
      )
      refl (λ i lt. later now)
