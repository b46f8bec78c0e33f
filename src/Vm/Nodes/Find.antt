-- ===== src/Vm/Nodes/Find.antt =====
-- `list_find` of p3/list.c and `clock_list_find` of p3/clock_list.c.
use csci4730_operating_syste.Base.{
  ℕ, ◌+◌, ◌≡◌, refl, List, [], ◌∷◌, ◌==◌, if◌then◌else◌, ap, length, ◌<◌, Bool-cases, inl, inr, ℤ,
  pos, negsuc,
}
use csci4730_operating_syste.Vm.Replacement.{ClockNode}
use csci4730_operating_syste.Vm.Nodes.{null, Heap, ok}
use csci4730_operating_syste.Vm.Nodes.Lists.{list_find, index_of, clock_list_find, ref_of}
use csci4730_operating_syste.Vm.Nodes.Seg.{Cells}
use csci4730_operating_syste.Vm.Nodes.Walk.{position, find_node-position}
use csci4730_operating_syste.Vm.Nodes.Abstract.{IsList, values}

-- The position of the first `x`, counted from `i`, and -1 when there is none.
abbrev pub index : ℕ → List ℕ → ℕ → ℤ
index i [] x = negsuc 0
index i (y ∷ ys) x = let rest = index (i + 1) ys x in if y == x then pos i else rest

position-index :
    (i x : ℕ) (xs : Cells ℕ) → index_of (position (λ item. item == x) i xs) ≡ index i (values xs) x
position-index i x [] = refl
position-index i x ((p, v) ∷ xs) =
    let rest = position-index (i + 1) x xs in
    elim (Bool-cases (v == x)) [ inl hit ↦ rw hit refl | inr miss ↦ rw miss rest ]

pub list_find-index :
    (k head x : ℕ) (h : Heap ℕ) (xs : Cells ℕ)
    → IsList h head xs
    → length xs < k
    → list_find k head x h ≡ ok (index 0 (values xs) x) h
unfolding list_find
list_find-index k head x h xs (e, s) enough =
    rw (e, find_node-position (λ item. item == x) k 0 h null xs s enough)
      (ap (λ z. ok z h) (position-index 0 x xs))

-- The reference of the first node of frame `x`, and -1 when there is none.
abbrev pub reference : List ClockNode → ℕ → ℤ
reference [] x = negsuc 0
reference (n ∷ ns) x = let rest = reference ns x in if n.frame == x then pos n.ref else rest

position-reference :
    (i x : ℕ) (xs : Cells ClockNode)
    → ref_of (position (λ item. item.frame == x) i xs) ≡ reference (values xs) x
position-reference i x [] = refl
position-reference i x ((p, n) ∷ xs) =
    let rest = position-reference (i + 1) x xs in
    elim (Bool-cases (n.frame == x)) [ inl hit ↦ rw hit refl | inr miss ↦ rw miss rest ]

pub clock_list_find-reference :
    (k head x : ℕ) (h : Heap ClockNode) (xs : Cells ClockNode)
    → IsList h head xs
    → length xs < k
    → clock_list_find k head x h ≡ ok (reference (values xs) x) h
unfolding clock_list_find
clock_list_find-reference k head x h xs (e, s) enough =
    rw (e, find_node-position (λ item. item.frame == x) k 0 h null xs s enough)
      (ap (λ z. ok z h) (position-reference 0 x xs))
