-- ===== src/Vm/Nodes/Seg.antt =====
-- What a list of p3/list.c or p3/clock_list.c stands for, and writes at its ends.
use csci4730_operating_syste.Base.{
  ◌≡◌, ◌≢◌, Bool, true, false, ◌||◌, some, List, [], ◌∷◌, arith, ◌==◌,
}
use csci4730_operating_syste.Vm.Nodes.{Ptr, null, Node, node, Heap, write}

-- The nodes in order, each with its address.
abbrev pub Cells : Type 0 → Type 0
Cells A = List (Ptr × A)

module _ {A : Type 0} where
  abbrev pub has : Ptr → Cells A → Bool
  has a [] = false
  has a ((p, v) ∷ xs) = (a == p) || has a xs

  -- The address of the first node, or what follows an empty segment.
  abbrev pub first : Cells A → Ptr → Ptr
  first [] end = end
  first ((p, v) ∷ xs) end = p

  -- The address of the last node, or what stands before an empty segment.
  abbrev pub last : Ptr → Cells A → Ptr
  last before [] = before
  last before ((p, v) ∷ xs) = last p xs

  -- From behind `before` to in front of `end`.
  abbrev pub Seg : Heap A → Ptr → Cells A → Ptr → Type 0
  Seg h before [] end = Unit {0}
  Seg h before ((p, v) ∷ xs) end =
      (h p ≡ some (node v (first xs end) before)) × (p ≢ null) × (has p xs ≡ false) × Seg h p xs end

  pub frame :
      (h g : Heap A) (before end : Ptr) (xs : Cells A)
      → Seg h before xs end
      → ((a : Ptr) → has a xs ≡ true → g a ≡ h a)
      → Seg g before xs end
  frame h g before end [] s same = tt
  frame h g before end ((p, v) ∷ xs) (e, ne, out, s) same =
      (ground (arith, same p), ne, out, frame h g p end xs s λ a i. same a (ground arith))

  pub frame-write :
      (h : Heap A) (before end : Ptr) (xs : Cells A) (q : Ptr) (n : Node A)
      → Seg h before xs end
      → has q xs ≡ false
      → Seg (write h q n) before xs end
  frame-write h before end xs q n s out =
      frame h (write h q n) before end xs s λ a i. ground (arith, i)
