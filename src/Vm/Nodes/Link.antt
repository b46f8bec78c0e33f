-- ===== src/Vm/Nodes/Link.antt =====
-- Nodes that enter a list of p3/list.c or p3/clock_list.c.
use csci4730_operating_syste.Base.{
  ℕ, ◌≡◌, ◌≢◌, refl, false, some, [], ◌∷◌, ◌++◌, arith, ◌==◌, ◌∙◌, length, ◌≤◌,
}
use csci4730_operating_syste.Vm.Nodes.{
  Ptr, null, Node, node, Heap, write, ok, go_to_last, set_next, set_prev, link_head, link_tail,
  new_node,
}
use csci4730_operating_syste.Vm.Nodes.Seg.{Cells, has, first, last, Seg, frame-write}
use csci4730_operating_syste.Vm.Nodes.Ends.{
  Apart, set_next-node, set_prev-node, set_end, set_start, join, write_ne, write_self, has-last,
}
use csci4730_operating_syste.Vm.Nodes.Walk.{go_to_last-last}
use csci4730_operating_syste.Vm.Nodes.Cut.{Leaves}

module _ {A : Type 0} where
  Apart-one : (xs : Cells A) (p : Ptr) (w : A) → has p xs ≡ false → Apart xs ((p, w) ∷ [])
  Apart-one [] p w out = tt
  Apart-one ((q, v) ∷ xs) p w out = (ground (arith, out), Apart-one xs p w (ground (arith, out)))

  link_head_run :
      (h : Heap A) (p q : Ptr) (w : A) (m n : Node A)
      → q ≢ null
      → p ≢ null
      → set_prev q p (write h p (node w null null))
        ≡ ok tt (write (write h p (node w null null)) q n)
      → write (write h p (node w null null)) q n p ≡ some m
      → link_head p w q h
        ≡ ok p (write (write (write h p (node w null null)) q n) p (node m.item q m.prev))
  unfolding link_head new_node
  link_head_run h p q w m n nq np back at =
      rw (back)
        (ground (arith, nq, set_next-node (write (write h p (node w null null)) q n) p q m at np))

  pub link_head-lem :
      (h : Heap A) (p : Ptr) (w : A) (xs : Cells A)
      → Seg h null xs null
      → p ≢ null
      → has p xs ≡ false
      → Leaves (link_head p w (first xs null) h) ((p, w) ∷ xs)
  unfolding link_head new_node
  link_head-lem h p w [] s np out =
      (write h p (node w null null), refl, (write_self h p (node w null null), np, refl, tt))
  link_head-lem h p w ((q, v) ∷ xs) s np out =
      let g = write h p (node w null null) in
      let s' = frame-write h null null ((q, v) ∷ xs) p (node w null null) s out in
      let n = node v (first xs null) p in
      let g' = write g q n in
      let ne : (p == q) ≡ false = ground (arith, out) in
      let at = write_ne g q p n ne ∙ write_self h p (node w null null) in
      let s₂ = set_start g null p null q v xs s' in
      let s₃ = frame-write g' p null ((q, v) ∷ xs) p (node w q null) s₂ out in
      (
        write g' p (node w q null),
        link_head_run h p q w (node w null null) n s.1 np (set_prev-node g q p _ s'.0 s.1) at,
        (write_self g' p (node w q null), np, out, s₃),
      )

  link_tail_run :
      (k : ℕ) (h : Heap A) (p q t : Ptr) (w : A) (n m : Node A)
      → q ≢ null
      → go_to_last k q (write h p (node w null null)) ≡ ok t (write h p (node w null null))
      → set_next t p (write h p (node w null null))
        ≡ ok tt (write (write h p (node w null null)) t n)
      → set_prev p t (write (write h p (node w null null)) t n)
        ≡ ok tt (write (write (write h p (node w null null)) t n) p m)
      → link_tail k p w q h ≡ ok q (write (write (write h p (node w null null)) t n) p m)
  unfolding link_tail new_node
  link_tail_run k h p q t w n m nq go step₁ step₂ = rw (go, step₁, step₂) (ground (arith, nq))

  pub link_tail-lem :
      (k : ℕ) (h : Heap A) (p : Ptr) (w : A) (xs : Cells A)
      → Seg h null xs null
      → p ≢ null
      → has p xs ≡ false
      → length xs ≤ k
      → Leaves (link_tail k p w (first xs null) h) (xs ++ (p, w) ∷ [])
  unfolding link_tail new_node
  link_tail-lem k h p w [] s np out enough =
      (write h p (node w null null), refl, (write_self h p (node w null null), np, refl, tt))
  link_tail-lem k h p w ((q, v) ∷ xs) s np out enough =
      let new = node w null null in
      let g = write h p new in
      let t = last q xs in
      let s' = frame-write h null null ((q, v) ∷ xs) p new s out in
      let go = go_to_last-last k g null q v xs s' (omega (arith, enough)) in
      let (n, en, nen, s₂) = set_end g null null p q v xs s' in
      let n' = node n.item p n.prev in
      let g₂ = write g t n' in
      let at : g₂ p ≡ some new = write_ne g t p n' (has-last p q v xs out) ∙ write_self h p new in
      let m = node w null t in
      let g₃ = write g₂ p m in
      let s₃ = frame-write g₂ null p ((q, v) ∷ xs) p m s₂ out in
      (
        g₃,
        link_tail_run k h p q t w n' m s.1 go (set_next-node g t p n en nen)
            (set_prev-node g₂ p t new at np),
        join g₃ null null ((q, v) ∷ xs) ((p, w) ∷ []) s₃ (write_self g₂ p m, np, refl, tt)
            (Apart-one ((q, v) ∷ xs) p w out),
      )
