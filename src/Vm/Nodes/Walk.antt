-- ===== src/Vm/Nodes/Walk.antt =====
-- The loops that walk a list of p3/list.c or p3/clock_list.c.
use csci4730_operating_syste.Base.{
  ℕ, zero, suc, ◌+◌, ◌≡◌, refl, Bool, true, false, Option, none, some, [], ◌∷◌, ◌++◌, arith,
  if◌then◌else◌, ap, length, All, ◌⊎◌, inl, inr, ◌<◌, Bool-cases,
}
use csci4730_operating_syste.Vm.Nodes.{Ptr, null, Heap, ok, go_to_last, unlink, cut_loop, find_node}
use csci4730_operating_syste.Vm.Nodes.Seg.{Cells, first, last, Seg}
use csci4730_operating_syste.Vm.Nodes.Ends.{load_node}

module _ {A : Type 0} where
  pub go_to_last-last :
      (k : ℕ) (h : Heap A) (before p : Ptr) (v : A) (xs : Cells A)
      → Seg h before ((p, v) ∷ xs) null
      → length xs < k
      → go_to_last k p h ≡ ok (last p xs) h
  unfolding go_to_last
  go_to_last-last zero h before p v xs s enough = elim enough [ ]
  go_to_last-last (suc k) h before p v [] (e, ne, out, s) enough = rw (load_node h p _ e ne)
  go_to_last-last (suc k) h before p v ((q, w) ∷ xs) (e, ne, out, s) enough =
      rw (load_node h p _ e ne) (ground (arith, s.1, go_to_last-last k h p q w xs s))

  -- No item is `same`.
  abbrev pub Misses : (A → Bool) → Cells A → Type 0
  Misses same xs = All (λ (c : Ptr × A). same c.1 ≡ false) xs

  module _ (same : A → Bool) where
    pub cut_loop-hit :
        (k f : ℕ) (h : Heap A) (before head r : Ptr) (v : A) (ys zs : Cells A)
        → Seg h before (ys ++ (r, v) ∷ zs) null
        → Misses same ys
        → same v ≡ true
        → length ys < f
        → cut_loop k same f head (first (ys ++ (r, v) ∷ zs) null) h
          ≡ unlink k head r (first zs null) h
    unfolding cut_loop
    cut_loop-hit k zero h before head r v ys zs s miss hit enough = elim enough [ ]
    cut_loop-hit k (suc f) h before head r v [] zs (e, ne, out, s) miss hit enough =
        rw (load_node h r _ e ne, hit) (ground arith)
    cut_loop-hit k (suc f) h before head r v ((q, w) ∷ ys) zs (e, ne, out, s) miss hit enough =
        let rest = cut_loop-hit k f h q head r v ys zs s miss.1 hit (omega arith) in
        rw (load_node h q _ e ne, miss.0) (ground (arith, rest))

    pub cut_loop-miss :
        (k f : ℕ) (h : Heap A) (before head : Ptr) (xs : Cells A)
        → Seg h before xs null
        → Misses same xs
        → length xs < f
        → cut_loop k same f head (first xs null) h ≡ ok head h
    unfolding cut_loop
    cut_loop-miss k zero h before head xs s miss enough = elim enough [ ]
    cut_loop-miss k (suc f) h before head [] s miss enough = refl
    cut_loop-miss k (suc f) h before head ((q, w) ∷ xs) (e, ne, out, s) miss enough =
        let rest = cut_loop-miss k f h q head xs s miss.1 (omega arith) in
        rw (load_node h q _ e ne, miss.0) (ground (arith, rest))

    abbrev pub position : ℕ → Cells A → Option (ℕ × A)
    position i [] = none
    position i ((p, v) ∷ xs) =
        let rest = position (i + 1) xs in if same v then some (i, v) else rest

    pub find_node-position :
        (k i : ℕ) (h : Heap A) (before : Ptr) (xs : Cells A)
        → Seg h before xs null
        → length xs < k
        → find_node k same i (first xs null) h ≡ ok (position i xs) h
    unfolding find_node
    find_node-position zero i h before xs s enough = elim enough [ ]
    find_node-position (suc k) i h before [] s enough = refl
    find_node-position (suc k) i h before ((q, w) ∷ xs) (e, ne, out, s) enough =
        let rest = find_node-position k (i + 1) h q xs s (omega arith) in
        rw (load_node h q _ e ne) (elim (Bool-cases (same w)) [
          | inl hit ↦ rw hit (ground arith)
          | inr miss ↦ rw miss (ground (arith, rest))
        ])

    -- The cells without the first that is `same`.
    abbrev pub without : Cells A → Cells A
    without [] = []
    without ((p, v) ∷ xs) = let rest = without xs in if same v then xs else (p, v) ∷ rest

    pub without-miss : (xs : Cells A) → Misses same xs → without xs ≡ xs
    without-miss [] miss = refl
    without-miss ((p, v) ∷ xs) miss = rw miss.0 (ap (λ ys. (p, v) ∷ ys) (without-miss xs miss.1))

    pub without-hit :
        (r : Ptr) (v : A) (ys zs : Cells A)
        → Misses same ys
        → same v ≡ true
        → without (ys ++ (r, v) ∷ zs) ≡ ys ++ zs
    without-hit r v [] zs miss hit = rw hit
    without-hit r v ((p, w) ∷ ys) zs miss hit =
        rw miss.0 (ap (λ xs. (p, w) ∷ xs) (without-hit r v ys zs miss.1 hit))

    -- A list has no node that is `same`, or a first one.
    abbrev pub Hit : Cells A → Type 0
    Hit xs =
        (r : Ptr) × (v : A) × (ys : Cells A) × (zs : Cells A) × (xs ≡ ys ++ (r, v) ∷ zs)
        × Misses same ys
        × (same v ≡ true)

    pub Misses-or-Hit : (xs : Cells A) → Misses same xs ⊎ Hit xs
    Misses-or-Hit [] = inl tt
    Misses-or-Hit ((p, w) ∷ xs) = elim (Bool-cases (same w)) [
      | inl hit ↦ inr (p, w, [], xs, refl, tt, hit)
      | inr miss ↦ elim (Misses-or-Hit xs) [
        | inl all ↦ inl (miss, all)
        | inr (r, v, ys, zs, e, all, hit) ↦
            inr (r, v, (p, w) ∷ ys, zs, ap (λ x. (p, w) ∷ x) e, (miss, all), hit)
      ]
    ]
