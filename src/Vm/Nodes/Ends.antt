-- ===== src/Vm/Nodes/Ends.antt =====
-- Writes at the ends of a list of p3/list.c or p3/clock_list.c, and lists cut in two.
use csci4730_operating_syste.Base.{
  ◌≡◌, ◌≢◌, refl, false, ◌||◌, some, [], ◌∷◌, ◌++◌, arith, ◌==◌, ap, sym, ◌∙◌,
}
use csci4730_operating_syste.Vm.Nodes.{
  Ptr, null, Node, node, Heap, write, ok, load, set_next, set_prev,
}
use csci4730_operating_syste.Vm.Nodes.Seg.{Cells, has, first, last, Seg, frame-write}

module _ {A : Type 0} where
  -- The segments share no address.
  abbrev pub Apart : Cells A → Cells A → Type 0
  Apart [] ys = Unit {0}
  Apart ((p, v) ∷ xs) ys = (has p ys ≡ false) × Apart xs ys

  pub load_node : (h : Heap A) (p : Ptr) (n : Node A) → h p ≡ some n → p ≢ null → load p h ≡ ok n h
  unfolding load
  load_node h p n e ne = ground (arith, e)

  pub set_next-node :
      (h : Heap A) (p q : Ptr) (n : Node A)
      → h p ≡ some n
      → p ≢ null
      → set_next p q h ≡ ok tt (write h p (node n.item q n.prev))
  unfolding set_next
  set_next-node h p q n e ne = rw (load_node h p n e ne)

  pub set_prev-node :
      (h : Heap A) (p q : Ptr) (n : Node A)
      → h p ≡ some n
      → p ≢ null
      → set_prev p q h ≡ ok tt (write h p (node n.item n.next q))
  unfolding set_prev
  set_prev-node h p q n e ne = rw (load_node h p n e ne)

  pub write_self : (h : Heap A) (p : Ptr) (n : Node A) → write h p n p ≡ some n
  write_self h p n = ground arith

  pub write_ne : (h : Heap A) (p a : Ptr) (n : Node A) → (a == p) ≡ false → write h p n a ≡ h a
  write_ne h p a n ne = ground arith

  pub has-last :
      (a p : Ptr) (v : A) (xs : Cells A) → has a ((p, v) ∷ xs) ≡ false → (a == last p xs) ≡ false
  has-last a p v [] out = ground (arith, out)
  has-last a p v ((q, w) ∷ xs) out = has-last a q w xs (ground (arith, out))

  -- The last node now points to `end'`.
  pub set_end :
      (h : Heap A) (before end end' p : Ptr) (v : A) (xs : Cells A)
      → Seg h before ((p, v) ∷ xs) end
      → (n : Node A) × (h (last p xs) ≡ some n)
        × (last p xs ≢ null)
        × Seg (write h (last p xs) (node n.item end' n.prev)) before ((p, v) ∷ xs) end'
  set_end h before end end' p v [] (e, ne, out, s) =
      (node v end before, e, ne, (write_self h p (node v end' before), ne, refl, tt))
  set_end h before end end' p v ((q, w) ∷ xs) (e, ne, out, s) =
      let (n, en, nen, s') = set_end h p end end' q w xs s in
      let g = write h (last q xs) (node n.item end' n.prev) in
      let far = has-last p q w xs out in
      (n, en, nen, (write_ne h (last q xs) p (node n.item end' n.prev) far ∙ e, ne, out, s'))

  -- The first node now has `before'` in front of it.
  pub set_start :
      (h : Heap A) (before before' end p : Ptr) (v : A) (xs : Cells A)
      → Seg h before ((p, v) ∷ xs) end
      → Seg (write h p (node v (first xs end) before')) before' ((p, v) ∷ xs) end
  set_start h before before' end p v xs (e, ne, out, s) = (
    write_self h p (node v (first xs end) before'),
    ne,
    out,
    frame-write h p end xs p (node v (first xs end) before') s out,
  )

  pub first-append : (xs ys : Cells A) (end : Ptr) → first (xs ++ ys) end ≡ first xs (first ys end)
  first-append [] ys end = refl
  first-append ((p, v) ∷ xs) ys end = refl

  pub has-append : (a : Ptr) (xs ys : Cells A) → has a (xs ++ ys) ≡ (has a xs || has a ys)
  has-append a [] ys = refl
  has-append a ((p, v) ∷ xs) ys = ground (arith, has-append a xs ys)

  pub split :
      (h : Heap A) (before end : Ptr) (xs ys : Cells A)
      → Seg h before (xs ++ ys) end
      → Seg h before xs (first ys end) × Seg h (last before xs) ys end × Apart xs ys
  split h before end [] ys s = (tt, s, tt)
  split h before end ((p, v) ∷ xs) ys (e, ne, out, s) =
      let (s₁, s₂, apart) = split h p end xs ys s in
      let out' = sym (has-append p xs ys) ∙ out in
      (
        (
          e ∙ ap (λ f. some (node v f before)) (first-append xs ys end),
          ne,
          ground (arith, out'),
          s₁,
        ),
        s₂,
        (ground (arith, out'), apart),
      )

  pub join :
      (h : Heap A) (before end : Ptr) (xs ys : Cells A)
      → Seg h before xs (first ys end)
      → Seg h (last before xs) ys end
      → Apart xs ys
      → Seg h before (xs ++ ys) end
  join h before end [] ys s₁ s₂ apart = s₂
  join h before end ((p, v) ∷ xs) ys (e, ne, out, s₁) s₂ (far, apart) =
      let rest = join h p end xs ys s₁ s₂ apart in
      let same = ap (λ f. some (node v f before)) (sym (first-append xs ys end)) in
      (e ∙ same, ne, has-append p xs ys ∙ ground (arith, out, far), rest)
