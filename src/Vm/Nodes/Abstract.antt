-- ===== src/Vm/Nodes/Abstract.antt =====
-- What the lists of p3/list.c and p3/clock_list.c hold, as sequences.
use csci4730_operating_syste.Base.{◌≡◌, ◌≢◌, refl, false, List, [], ◌∷◌, ◌++◌, ap}
use csci4730_operating_syste.Vm.Nodes.{Ptr, null, Heap, Run, ok}
use csci4730_operating_syste.Vm.Nodes.Seg.{Cells, has, first, Seg}
use csci4730_operating_syste.Vm.Nodes.Cut.{Leaves}

module _ {A : Type 0} where
  -- The list at `head` holds the cells `xs` in order, linked both ways.
  abbrev pub IsList : Heap A → Ptr → Cells A → Type 0
  IsList h head xs = (head ≡ first xs null) × Seg h null xs null

  abbrev pub values : Cells A → List A
  values [] = []
  values ((p, v) ∷ xs) = v ∷ values xs

  -- A new address, which the list does not use.
  abbrev pub IsFresh : Ptr → Cells A → Type 0
  IsFresh p xs = (p ≢ null) × (has p xs ≡ false)

  -- The command returns the head of a list that holds `vs`.
  abbrev pub Returns : Run A Ptr → List A → Type 0
  Returns m vs =
      (head : Ptr) × (g : Heap A) × (xs : Cells A) × (m ≡ ok head g)
      × IsList g head xs
      × (values xs ≡ vs)

  pub Leaves-Returns :
      (m : Run A Ptr) (xs : Cells A) (vs : List A) → Leaves m xs → values xs ≡ vs → Returns m vs
  Leaves-Returns m xs vs (g, e, s) same = (first xs null, g, xs, e, (refl, s), same)

  pub values-append : (xs ys : Cells A) → values (xs ++ ys) ≡ values xs ++ values ys
  values-append [] ys = refl
  values-append ((p, v) ∷ xs) ys = ap (λ vs. v ∷ vs) (values-append xs ys)
