-- ===== src/Vm/Nodes/Printed.antt =====
-- What the printing of a list of p3/list.c or p3/clock_list.c prints.
use csci4730_operating_syste.Base.{
  ℕ, zero, suc, ◌+◌, ◌-◌, ◌<◌, ◌≡◌, refl, false, List, [], ◌∷◌, ◌++◌, arith, ◌==◌, codes, length,
  ◌∙◌, ap, sym,
}
use mathlib.Core.List.{reverse, reverse-cons, append_assoc, append-nil}
use csci4730_operating_syste.Stdio.{Text}
use csci4730_operating_syste.Vm.Replacement.{ClockNode}
use csci4730_operating_syste.Vm.Nodes.{Ptr, null, Heap, ok, and_then}
use csci4730_operating_syste.Vm.Nodes.Seg.{Cells, first, last, Seg}
use csci4730_operating_syste.Vm.Nodes.Ends.{load_node}
use csci4730_operating_syste.Vm.Nodes.Walk.{go_to_last-last}
use csci4730_operating_syste.Vm.Nodes.Abstract.{IsList, values}
use csci4730_operating_syste.Vm.Nodes.Print.{
  print_next, print_prev, print_forward, print_reverse, show_item, show_clock, list_print,
  list_reverse_print, clock_list_print, clock_list_reverse_print,
}

module _ {A : Type 0} (show : A → Text) where
  -- The items one after the other.
  abbrev pub shown : List A → Text
  shown [] = []
  shown (x ∷ xs) = show x ++ shown xs

  pub print_next-shown :
      (k : ℕ) (h : Heap A) (before : Ptr) (xs : Cells A)
      → Seg h before xs null
      → length xs < k
      → print_next show k (first xs null) h ≡ ok (shown (values xs)) h
  unfolding print_next
  print_next-shown zero h before xs s enough = elim enough [ ]
  print_next-shown (suc k) h before [] s enough = refl
  print_next-shown (suc k) h before ((q, w) ∷ xs) (e, ne, out, s) enough =
      rw (load_node h q _ e ne, print_next-shown k h q xs s (omega arith)) (ground arith)

  abbrev shown_back : List A → Text
  shown_back [] = []
  shown_back (x ∷ xs) = shown_back xs ++ show x

  print_prev_step :
      (k : ℕ) (h : Heap A) (before end p : Ptr) (v : A) (xs : Cells A)
      → Seg h before ((p, v) ∷ xs) end
      → print_prev show (suc k) p h
        ≡ and_then (print_prev show k before h) (λ rest. ok (show v ++ rest))
  unfolding print_prev
  print_prev_step k h before end p v xs (e, ne, out, s) =
      let there : (p == null) ≡ false = ground (arith, ne) in rw (load_node h p _ e ne, there) refl

  -- From the last node to the first.
  print_prev-back :
      (k m : ℕ) (h : Heap A) (before end : Ptr) (xs : Cells A) (rest : Text)
      → Seg h before xs end
      → length xs + k ≡ m
      → print_prev show k before h ≡ ok rest h
      → print_prev show m (last before xs) h ≡ ok (shown_back (values xs) ++ rest) h
  print_prev-back k m h before end [] rest s e done =
      let same : m ≡ k = omega arith in ap (λ f. print_prev show f before h) same ∙ done
  print_prev-back k m h before end ((p, v) ∷ xs) rest s e done =
      let here : print_prev show (suc k) p h ≡ ok (show v ++ rest) h =
        print_prev_step k h before end p v xs s
        ∙ ap (λ r. and_then r (λ t. ok (show v ++ t))) done in
      print_prev-back (suc k) m h p end xs (show v ++ rest) s.3 (omega arith) here
      ∙ ap (λ t. ok t h) (sym (append_assoc (shown_back (values xs)) (show v) rest))

  shown-append : (xs ys : List A) → shown (xs ++ ys) ≡ shown xs ++ shown ys
  shown-append [] ys = refl
  shown-append (x ∷ xs) ys =
      ap (λ t. show x ++ t) (shown-append xs ys) ∙ sym (append_assoc (show x) (shown xs) (shown ys))

  shown_back-reverse : (xs : List A) → shown_back xs ≡ shown (reverse xs)
  shown_back-reverse [] = refl
  shown_back-reverse (x ∷ xs) =
      ap (λ t. t ++ show x) (shown_back-reverse xs)
      ∙ ap (λ t. shown (reverse xs) ++ t) (sym (append-nil (show x)))
      ∙ sym (shown-append (reverse xs) (x ∷ []))
      ∙ ap shown (sym (reverse-cons x xs))

  print_prev-null : (k : ℕ) (h : Heap A) → print_prev show (suc k) null h ≡ ok [] h
  unfolding print_prev
  print_prev-null k h = refl

  pub print_prev-shown :
      (k : ℕ) (h : Heap A) (xs : Cells A)
      → Seg h null xs null
      → length xs < k
      → print_prev show k (last null xs) h ≡ ok (shown (reverse (values xs))) h
  print_prev-shown k h xs s enough =
      let left = k - length xs - 1 in
      print_prev-back (suc left) k h null null xs [] s (omega arith) (print_prev-null left h)
      ∙ ap (λ t. ok t h) (append-nil (shown_back (values xs)) ∙ shown_back-reverse (values xs))

  -- A list is printed forward as it is.
  pub print_forward-shown :
      (k : ℕ) (h : Heap A) (head : Ptr) (xs : Cells A)
      → IsList h head xs
      → length xs < k
      → print_forward show k head h ≡ ok (codes "Forward: " ++ (shown (values xs) ++ codes "\n")) h
  unfolding print_forward
  print_forward-shown k h head xs (e, s) enough = rw (e, print_next-shown k h null xs s enough) refl

  -- A list is printed in reverse from its end, and an empty list not at all.
  pub print_reverse-shown :
      (k : ℕ) (h : Heap A) (head p : Ptr) (v : A) (xs : Cells A)
      → IsList h head ((p, v) ∷ xs)
      → length xs + 1 < k
      → print_reverse show k head h
        ≡ ok (codes "Reverse: " ++ (shown (reverse (v ∷ values xs)) ++ codes "\n")) h
  unfolding print_reverse
  print_reverse-shown k h head p v xs (e, s) enough =
      let there : (p == null) ≡ false = ground (arith, s.1) in
      rw
        (
          e,
          there,
          go_to_last-last k h null p v xs s (omega arith),
          print_prev-shown k h ((p, v) ∷ xs) s (omega arith),
        )
        refl

  print_reverse-empty : (k : ℕ) (h : Heap A) → print_reverse show k null h ≡ ok [] h
  unfolding print_reverse
  print_reverse-empty k h = refl

  -- `Reverse: `, and nothing for an empty list.
  abbrev pub reverse_text : List A → Text
  reverse_text [] = []
  reverse_text (x ∷ xs) = codes "Reverse: " ++ (shown (reverse (x ∷ xs)) ++ codes "\n")

  pub print_reverse-reverse_text :
      (k : ℕ) (h : Heap A) (head : Ptr) (xs : Cells A)
      → IsList h head xs
      → length xs < k
      → print_reverse show k head h ≡ ok (reverse_text (values xs)) h
  print_reverse-reverse_text k h head [] (e, s) enough =
      ap (λ p. print_reverse show k p h) e ∙ print_reverse-empty k h
  print_reverse-reverse_text k h head ((p, v) ∷ xs) l enough =
      print_reverse-shown k h head p v xs l (omega arith)

-- On a list that is linked both ways, with fuel above its length, `list_print` prints the items in
-- order and `list_reverse_print`, which goes back by `prev`, prints them in the reverse order, or
-- nothing if the list is empty; the same holds for the pairs that the two functions of
-- p3/clock_list.c print. None of them faults or changes a node.
pub list_reverse_print-reverse :
    (k : ℕ) (h : Heap ℕ) (head : Ptr) (xs : Cells ℕ) (h' : Heap ClockNode) (head' : Ptr)
    (ys : Cells ClockNode)
    → IsList h head xs
    → length xs < k
    → IsList h' head' ys
    → length ys < k
    → (list_print k head h
        ≡ ok (codes "Forward: " ++ (shown show_item (values xs) ++ codes "\n")) h)
      × (list_reverse_print k head h ≡ ok (reverse_text show_item (values xs)) h)
      × (clock_list_print k head' h'
          ≡ ok (codes "Forward: " ++ (shown show_clock (values ys) ++ codes "\n")) h')
      × (clock_list_reverse_print k head' h' ≡ ok (reverse_text show_clock (values ys)) h')
unfolding list_print list_reverse_print clock_list_print clock_list_reverse_print
list_reverse_print-reverse k h head xs h' head' ys l enough l' enough' = (
  print_forward-shown show_item k h head xs l enough,
  print_reverse-reverse_text show_item k h head xs l enough,
  print_forward-shown show_clock k h' head' ys l' enough',
  print_reverse-reverse_text show_clock k h' head' ys l' enough',
)
