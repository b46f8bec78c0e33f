-- ===== src/Vm/Nodes/Refine.antt =====
-- The lists of p3/list.c and p3/clock_list.c against the sequences of `Vm.Replacement`.
use csci4730_operating_syste.Base.{
  ℕ, ◌+◌, ◌≡◌, ◌≢◌, refl, Bool, false, some, [], ◌∷◌, ◌++◌, arith, ◌==◌, ap, ◌∙◌, length, ◌<◌, ◌≤◌,
  Bool-cases, inl, inr, length-append,
}
use csci4730_operating_syste.Vm.Replacement.{insert_tail, remove, Queues, note_hit, lru_policy}
use csci4730_operating_syste.Vm.Nodes.{
  Ptr, null, node, Heap, fault, Cmd, and_then, load, cut_tail, cut_last, set_next,
}
use csci4730_operating_syste.Vm.Nodes.Lists.{
  list_remove_tail, list_remove, list_insert_head, list_insert_tail,
}
use csci4730_operating_syste.Vm.Nodes.Seg.{Cells, has}
use csci4730_operating_syste.Vm.Nodes.Walk.{without, go_to_last-last}
use csci4730_operating_syste.Vm.Nodes.Cut.{cut_tail-lem, cut-without}
use csci4730_operating_syste.Vm.Nodes.Link.{link_head-lem, link_tail-lem}
use csci4730_operating_syste.Vm.Nodes.Abstract.{
  IsList, IsFresh, values, Returns, Leaves-Returns, values-append,
}

module _ {A : Type 0} where
  without-has :
      (same : A → Bool) (a : Ptr) (xs : Cells A)
      → has a xs ≡ false
      → has a (without same xs) ≡ false
  without-has same a [] out = out
  without-has same a ((p, v) ∷ xs) out =
      let rest = without-has same a xs (ground (arith, out)) in
      elim (Bool-cases (same v)) [
        | inl hit ↦ rw hit (ground (arith, out))
        | inr miss ↦ rw miss (ground (arith, out, rest))
      ]

without-remove :
    (x : ℕ) (xs : Cells ℕ) → values (without (λ item. x == item) xs) ≡ remove (values xs) x
unfolding remove
without-remove x [] = refl
without-remove x ((p, v) ∷ xs) =
    let rest = without-remove x xs in
    elim (Bool-cases (x == v)) [
      | inl hit ↦ rw hit refl
      | inr miss ↦ rw miss (ap (λ vs. v ∷ vs) rest)
    ]

pub list_remove-remove :
    (k head x : ℕ) (h : Heap ℕ) (xs : Cells ℕ)
    → IsList h head xs
    → length xs < k
    → Returns (list_remove k head x h) (remove (values xs) x)
unfolding list_remove
list_remove-remove k head x h xs (e, s) enough = rw e (
    Leaves-Returns _ (without (λ item. x == item) xs) (remove (values xs) x)
      (cut-without k (λ item. x == item) h xs s enough) (without-remove x xs))

pub list_insert_tail-insert_tail :
    (k p head x : ℕ) (h : Heap ℕ) (xs : Cells ℕ)
    → IsList h head xs
    → IsFresh p xs
    → length xs ≤ k
    → Returns (list_insert_tail k p head x h) (insert_tail (values xs) x)
unfolding list_insert_tail insert_tail
list_insert_tail-insert_tail k p head x h xs (e, s) fresh enough = rw e (
    Leaves-Returns _ (xs ++ (p, x) ∷ []) _ (link_tail-lem k h p x xs s fresh.0 fresh.1 enough)
      (values-append xs ((p, x) ∷ [])))

pub list_insert_head-cons :
    (p head x : ℕ) (h : Heap ℕ) (xs : Cells ℕ)
    → IsList h head xs
    → IsFresh p xs
    → Returns (list_insert_head p head x h) (x ∷ values xs)
unfolding list_insert_head
list_insert_head-cons p head x h xs (e, s) fresh =
    rw e (Leaves-Returns _ ((p, x) ∷ xs) _ (link_head-lem h p x xs s fresh.0 fresh.1) refl)

-- `is_page_hit`: `head = list_remove(head, PFN); head = list_insert_tail(head, PFN);`
unfoldable pub lru_hit : ℕ → Ptr → Ptr → ℕ → Cmd ℕ Ptr
lru_hit k p head frame h =
    and_then (list_remove k head frame h) λ head' h'. list_insert_tail k p head' frame h'

length-without :
    {A : Type 0} (same : A → Bool) (xs : Cells A) → length (without same xs) ≤ length xs
length-without same [] = omega arith
length-without same ((p, v) ∷ xs) =
    let rest = length-without same xs in
    elim (Bool-cases (same v)) [
      | inl hit ↦ rw hit (omega arith)
      | inr miss ↦ rw miss (omega (arith, rest))
    ]

-- What `is_page_hit` does to the nodes under LRU, for a list at `head` that holds `q.head`, linked both
-- ways, a new address `p` that is not in it, and fuel above its length: both calls return without a
-- fault, and the head returned is that of a list, linked both ways, which holds what `note_hit` says.
pub lru_hit-note_hit :
    (k p head frame : ℕ) (h : Heap ℕ) (xs : Cells ℕ) (q : Queues)
    → IsList h head xs
    → IsFresh p xs
    → length xs < k
    → values xs ≡ q.head
    → Returns (lru_hit k p head frame h) (note_hit lru_policy frame q).head
unfolding list_remove list_insert_tail insert_tail note_hit lru_hit
lru_hit-note_hit k p head frame h xs q (e, s) fresh enough same =
    let test = λ (item : ℕ). frame == item in
    let kept = without test xs in
    let (g, run, s') = cut-without k test h xs s enough in
    let short : length kept ≤ k = omega (arith, length-without test xs) in
    let out = without-has test p xs fresh.1 in
    rw (e, run)
      (Leaves-Returns _ (kept ++ (p, frame) ∷ []) _
        (link_tail-lem k g p frame kept s' fresh.0 out short)
        (values-append kept ((p, frame) ∷ [])
          ∙ ap (λ vs. vs ++ frame ∷ [])
              (without-remove frame xs ∙ ap (λ vs. remove vs frame) same)))

pub list_remove_tail-drops_last :
    (k head a b x y : ℕ) (h : Heap ℕ) (xs : Cells ℕ)
    → IsList h head ((a, x) ∷ xs ++ (b, y) ∷ [])
    → length xs + 1 < k
    → Returns (list_remove_tail k head h) (x ∷ values xs)
unfolding list_remove_tail
list_remove_tail-drops_last k head a b x y h xs (e, s) enough =
    let short : length (xs ++ (b, y) ∷ []) < k =
      omega (arith, length-append xs ((b, y) ∷ []), enough) in
    rw e (Leaves-Returns _ ((a, x) ∷ xs) _ (cut_tail-lem k h a b x y xs s short) refl)

cut_last-fault :
    (a x : ℕ) (h : Heap ℕ) → h a ≡ some (node x null null) → a ≢ null → cut_last a h ≡ fault
unfolding cut_last set_next load
cut_last-fault a x h at ne = ground (arith, at, ne)

-- On a list of one node, with any fuel, `list_remove_tail` reads through the NULL `prev`.
pub list_remove_tail-fault :
    (k head a x : ℕ) (h : Heap ℕ)
    → IsList h head ((a, x) ∷ [])
    → 0 < k
    → list_remove_tail k head h ≡ fault
unfolding list_remove_tail cut_tail
list_remove_tail-fault k head a x h (e, s) enough =
    rw (e, go_to_last-last k h null a x [] s enough, cut_last-fault a x h s.0 s.1)
      (ground (arith, s.1))
