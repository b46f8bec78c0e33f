-- ===== src/Fs/Alloc/Slots.antt =====
-- Taking and giving back a slot keep the count of the clear bits of a map of p4.
use csci4730_operating_syste.Base.{
  ℕ, zero, suc, ◌+◌, ◌^◌, ◌≤◌, ◌<◌, ◌≡◌, refl, ◌≢◌, none, some, arith, ◌==◌, if◌then◌else◌,
  decrement, false, inl, inr, Bool-cases, ◌∙◌,
}
use native.Mathlib.Decide.{dec_lt}
use csci4730_operating_syste.Fs.Bitmap.{Bits, AreBytes, get_bit, set_bit}
use csci4730_operating_syste.Fs.Bitmap.Laws.{get_bit-lt, get_bit-set_bit, set_bit-AreBytes}
use csci4730_operating_syste.Fs.Bitmap.Count.{
  clear_count, clear_count-le, clear_count-set, clear_count-clear, clear_count-pos,
}
use csci4730_operating_syste.Fs.Alloc.{first_clear, give_slot}

-- The first `n` bits of the map are those of slots, and `count` of them are clear.
pub record IsCounted (n : ℕ) (a : Bits) (count : ℕ) : Type 0 where
  pub bytes : AreBytes a
  pub counted : count ≡ clear_count n a

-- `i` is the first clear bit from `from` on, below `end`.
abbrev pub IsFirst : Bits → (from end i : ℕ) → Type 0
IsFirst a from end i =
    (from ≤ i) × (i < end) × (get_bit a i ≡ 0) × ((j : ℕ) → from ≤ j → j < i → get_bit a j ≡ 1)

last_set : (a : Bits) (i j : ℕ) → j ≡ i → (get_bit a i == 0) ≡ false → get_bit a j ≡ 1
last_set a i j e set = ground (arith, get_bit-lt a i)

pub first_clear-some :
    (k i n : ℕ) (a : Bits) {f : ℕ} → i + k ≡ n → first_clear k i a ≡ some f → IsFirst a i n f
unfolding first_clear
first_clear-some zero i n a e found = cc
first_clear-some (suc k) i n a {f} e found = elim (Bool-cases (get_bit a i == 0)) [
  | inl clear ↦
      let same : i ≡ f = ground arith in
      (omega arith, omega arith, ground arith, λ j le lt. absurd (omega arith))
  | inr set ↦
      let (le, lt, clear, before) =
        first_clear-some k (i + 1) n a {f = f} (omega arith) (rw set at found) in
      (
        omega arith,
        lt,
        clear,
        λ j le' lt'. elim (dec_lt i j) [
          | yes above ↦ before j (omega arith) lt'
          | no here ↦ last_set a i j (omega arith) set
        ],
      )
]

pub first_clear-none :
    (k i n : ℕ) (a : Bits)
    → i + k ≡ n
    → first_clear k i a ≡ none
    → (j : ℕ) → i ≤ j
    → j < n
    → get_bit a j ≡ 1
unfolding first_clear
first_clear-none zero i n a e found j le lt = absurd (omega arith)
first_clear-none (suc k) i n a e found j le lt = elim (Bool-cases (get_bit a i == 0)) [
  | inl clear ↦ ground arith
  | inr set ↦ elim (dec_lt i j) [
    | yes above ↦ first_clear-none k (i + 1) n a (omega arith) (rw set at found) j (omega arith) lt
    | no here ↦ last_set a i j (omega arith) set
  ]
]

-- What is known when a slot has been taken, or could not be.
pub record Taken (n : ℕ) (a : Bits) (count i : ℕ) (a' : Bits) (count' : ℕ) : Type 0 where
  pub first : IsFirst a 0 n i
  pub marked : (j : ℕ) → get_bit a' j ≡ (if j == i then 1 else get_bit a j)
  pub fewer : count' + 1 ≡ count
  pub again : IsCounted n a' count'

pub take_slot-Taken :
    (n i : ℕ) (a : Bits) (count : ℕ)
    → n < 2 ^ 31
    → IsCounted n a count
    → first_clear n 0 a ≡ some i
    → Taken n a count i (set_bit a i 1) (decrement count)
take_slot-Taken n i a count small c found =
    let (low, lt, clear, before) = first_clear-some n 0 n a (omega arith) found in
    let pos = clear_count-pos a i c.bytes n lt clear in
    let less = clear_count-set a i c.bytes n lt clear in
    record {
      first = (low, lt, clear, before);
      marked = λ j. get_bit-set_bit a i j 1 c.bytes (omega arith);
      fewer = omega (arith, c.counted, clear_count-le n a);
      again = record {
        bytes = set_bit-AreBytes a i 1 c.bytes;
        counted = omega (arith, c.counted, clear_count-le n a);
      };
    }

-- With no clear bit the count is 0.
all_set-count : (n : ℕ) (a : Bits) → ((j : ℕ) → j < n → get_bit a j ≡ 1) → clear_count n a ≡ 0
unfolding clear_count
all_set-count zero a h = refl
all_set-count (suc n) a h =
    ground (arith, all_set-count n a (λ j lt. h j (omega arith)), h n (omega arith))

pub first_clear-count :
    (n : ℕ) (a : Bits) (count : ℕ) → IsCounted n a count → first_clear n 0 a ≡ none → count ≡ 0
first_clear-count n a count c found =
    c.counted
    ∙ all_set-count n a (λ j lt. first_clear-none n 0 n a (omega arith) found j (omega arith) lt)

-- Giving back a slot makes it clear, and giving back a clear one changes nothing.
pub give_slot-IsCounted :
    (n i : ℕ) (a : Bits) (count : ℕ)
    → n < 2 ^ 31
    → i < n
    → IsCounted n a count
    → IsCounted n (give_slot i a count).0 (give_slot i a count).1
      × (get_bit (give_slot i a count).0 i ≡ 0)
      × ((give_slot i a count).1 + get_bit (give_slot i a count).0 i ≡ count + get_bit a i)
      × ((j : ℕ) → j ≢ i → get_bit (give_slot i a count).0 j ≡ get_bit a j)
unfolding give_slot
give_slot-IsCounted n i a count small lt c = elim (Bool-cases (get_bit a i == 1)) [
  | inl set ↦
      let more = clear_count-clear a i c.bytes n lt (ground arith) in
      let bit = λ (j : ℕ). get_bit-set_bit a i j 0 c.bytes (omega arith) in
      rw set (
        record {
          bytes = set_bit-AreBytes a i 0 c.bytes;
          counted = omega (arith, c.counted, clear_count-le n (set_bit a i 0));
        },
        ground (arith, bit i),
        ground (arith, bit i, c.counted, clear_count-le n (set_bit a i 0)),
        λ j ne. ground (arith, bit j),
      )
  | inr clear ↦ rw clear (c, ground (arith, get_bit-lt a i), refl, λ j ne. refl)
]
