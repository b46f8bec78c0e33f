-- ===== src/Vm/Replacement/Lru.antt =====
-- The LRU policy of p3/pagetable.c: its list orders the frames by their last use.
use csci4730_operating_syste.Base.{
  ℕ, suc, ◌≤◌, ◌<◌, ◌≡◌, refl, ◌≢◌, ap, List, [], ◌∷◌, ◌++◌, some, arith, ◌==◌, if◌then◌else◌, All,
  All-mono, Bool-cases, inl, inr,
}
use csci4730_operating_syste.Vm.Replacement.{
  lru_policy, Queues, insert_tail, remove_head, remove, lru, find_replacement, drop_victim, enqueue,
  note_hit,
}

-- How many uses ago `f` was used, in a history whose head is the latest use.
pub age : List ℕ → ℕ → ℕ
age [] f = 0
age (g ∷ h) f = let before = suc (age h f) in if f == g then 0 else before

abbrev Absent : ℕ → List ℕ → Type 0
Absent f xs = All (λ y. y ≢ f) xs

-- Each frame was last used before every frame behind it.
abbrev Ordered : List ℕ → List ℕ → Type 0
Ordered h [] = Unit
Ordered h (x ∷ xs) = All (λ y. age h y < age h x) xs × Ordered h xs

-- The queue after the uses of a history: hits, loads of frames not in the queue, replacements.
pub data Reached (max_pfn : ℕ) : List ℕ → Queues → Type 0 where
  empty : (q : Queues) → q.head ≡ [] → Reached max_pfn [] q
  hit :
      {h : List ℕ} {q : Queues} (f : ℕ)
      → Reached max_pfn h q
      → Reached max_pfn (f ∷ h) (note_hit lru_policy f q)
  load :
      {h : List ℕ} {q : Queues} (f : ℕ)
      → Reached max_pfn h q
      → Absent f q.head
      → Reached max_pfn (f ∷ h) (enqueue lru_policy f q)
  replace :
      {h : List ℕ} {q : Queues} (f : ℕ) (q' : Queues)
      → Reached max_pfn h q
      → find_replacement lru_policy max_pfn q ≡ some (f, q')
      → Reached max_pfn (f ∷ h) (enqueue lru_policy f (drop_victim lru_policy q'))

remove-All {ℓ} : (P : ℕ → Type ℓ) (f : ℕ) (xs : List ℕ) → All P xs → All P (remove xs f)
unfolding remove
remove-All P f [] h = tt
remove-All P f (x ∷ xs) h = elim (Bool-cases (f == x)) [
  | inl e ↦ rw e h.1
  | inr e ↦ rw e (h.0, remove-All P f xs h.1)
]

remove-Ordered : (h : List ℕ) (f : ℕ) (xs : List ℕ) → Ordered h xs → Ordered h (remove xs f)
unfolding remove
remove-Ordered h f [] o = tt
remove-Ordered h f (x ∷ xs) o = elim (Bool-cases (f == x)) [
  | inl e ↦ rw e o.1
  | inr e ↦ rw e (remove-All (λ y. age h y < age h x) f xs o.0, remove-Ordered h f xs o.1)
]

below_ne : (h : List ℕ) (f x y : ℕ) → f ≡ x → age h y < age h x → y ≢ f
below_ne h f x y e lt same = omega (arith, ap (age h) e, ap (age h) same)

remove-Absent : (h : List ℕ) (f : ℕ) (xs : List ℕ) → Ordered h xs → Absent f (remove xs f)
unfolding remove
remove-Absent h f [] o = tt
remove-Absent h f (x ∷ xs) o = elim (Bool-cases (f == x)) [
  | inl e ↦ rw e (All-mono _ xs (λ y lt same. below_ne h f x y (ground arith) lt same) o.0)
  | inr e ↦ rw e (ground arith, remove-Absent h f xs o.1)
]

-- A use of `f` moves the others back by one.
use-All :
    (h : List ℕ) (f x : ℕ) (xs : List ℕ)
    → x ≢ f
    → Absent f xs
    → All (λ y. age h y < age h x) xs
    → All (λ y. age (f ∷ h) y < age (f ∷ h) x) (xs ++ (f ∷ []))
unfolding age
use-All h f x [] ne a o = (ground arith, tt)
use-All h f x (y ∷ ys) ne a o = (ground arith, use-All h f x ys ne a.1 o.1)

use-Ordered :
    (h : List ℕ) (f : ℕ) (xs : List ℕ)
    → Absent f xs
    → Ordered h xs
    → Ordered (f ∷ h) (xs ++ (f ∷ []))
use-Ordered h f [] a o = (tt, tt)
use-Ordered h f (x ∷ xs) a o = (use-All h f x xs a.0 a.1 o.0, use-Ordered h f xs a.1 o.1)

head-Ordered : (h : List ℕ) (x : ℕ) (xs : List ℕ) → Ordered h (x ∷ xs) → Absent x xs
head-Ordered h x xs o = All-mono _ xs (λ y lt same. below_ne h x x y refl lt same) o.0

lru-parts :
    (q : Queues) (x : ℕ) (xs : List ℕ) (f : ℕ) (q' : Queues)
    → lru (record q { head = x ∷ xs }) ≡ some (f, q')
    → (x ≡ f) × (remove_head q'.head ≡ xs)
unfolding lru remove_head
lru-parts q x xs f q' e = ground arith

replace-Ordered :
    (h : List ℕ) (xs : List ℕ) (f : ℕ) (q q' : Queues)
    → Ordered h xs
    → lru (record q { head = xs }) ≡ some (f, q')
    → Ordered (f ∷ h) (insert_tail (remove_head q'.head) f)
unfolding lru insert_tail
replace-Ordered h [] f q q' o e = cc
replace-Ordered h (x ∷ xs) f q q' o e =
    let (same, rest) = lru-parts q x xs f q' e in
    rw (rest, ← same) (use-Ordered h x xs (head-Ordered h x xs o) o.1)

Reached-Ordered : {n : ℕ} {h : List ℕ} {q : Queues} → Reached n h q → Ordered h q.head
unfolding note_hit enqueue drop_victim find_replacement insert_tail
Reached-Ordered (empty q e) = rw e tt
Reached-Ordered (hit {h} {q} f r) =
    use-Ordered h f (remove q.head f) (remove-Absent h f q.head (Reached-Ordered r))
      (remove-Ordered h f q.head (Reached-Ordered r))
Reached-Ordered (load {h} {q} f r a) = use-Ordered h f q.head a (Reached-Ordered r)
Reached-Ordered (replace {h} {q} f q' r e) = replace-Ordered h q.head f q q' (Reached-Ordered r) e

head-least :
    (h xs : List ℕ) (f : ℕ) (q q' : Queues)
    → Ordered h xs
    → lru (record q { head = xs }) ≡ some (f, q')
    → All (λ y. age h y ≤ age h f) xs
head-least h [] f q q' o e = tt
head-least h (x ∷ xs) f q q' o e =
    let (same, rest) = lru-parts q x xs f q' e in
    (omega (arith, ap (age h) same), All-mono _ xs (λ y lt. omega (arith, ap (age h) same)) o.0)

-- After any sequence of hits, loads and replacements, the frame that LRU evicts was last used
-- no later than any frame in its list.
pub lru-least_recent :
    {n : ℕ} {h : List ℕ} {q : Queues} (f : ℕ) (q' : Queues)
    → Reached n h q
    → find_replacement lru_policy n q ≡ some (f, q')
    → All (λ y. age h y ≤ age h f) q.head
unfolding find_replacement
lru-least_recent {h} {q} f q' r e = head-least h q.head f q q' (Reached-Ordered r) e
