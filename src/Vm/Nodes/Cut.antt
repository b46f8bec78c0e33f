-- ===== src/Vm/Nodes/Cut.antt =====
-- Nodes that leave a list of p3/list.c or p3/clock_list.c.
use csci4730_operating_syste.Base.{
  ℕ, ◌≡◌, ◌≢◌, refl, Bool, true, false, some, [], ◌∷◌, ◌++◌, arith, ◌==◌, ap, sym, ◌∙◌, length, inl,
  inr, ◌<◌, ◌≤◌, Bool-cases, length-append,
}
use mathlib.Core.List.{append-nil}
use mathlib.Core.Path.{subst}
use csci4730_operating_syste.Vm.Nodes.{
  Ptr, null, Node, node, Heap, write, Run, ok, go_to_last, unlink, cut_loop, cut_head, clear_prev,
  cut_tail, cut_last, link_next, link_prev, cut,
}
use csci4730_operating_syste.Vm.Nodes.Seg.{Cells, has, first, last, Seg, frame-write}
use csci4730_operating_syste.Vm.Nodes.Ends.{
  Apart, load_node, set_next-node, set_prev-node, set_end, set_start, split, join, write_ne,
}
use csci4730_operating_syste.Vm.Nodes.Walk.{
  Misses, without, cut_loop-hit, cut_loop-miss, go_to_last-last, without-hit, without-miss,
  Misses-or-Hit,
}

module _ {A : Type 0} where
  -- The command returns the head of the cells `ys`, and its heap holds them.
  abbrev pub Leaves : Run A Ptr → Cells A → Type 0
  Leaves m ys = (g : Heap A) × (m ≡ ok (first ys null) g) × Seg g null ys null

  pub Leaves-back : (m n : Run A Ptr) (ys : Cells A) → m ≡ n → Leaves n ys → Leaves m ys
  Leaves-back m n ys e (g, en, s) = (g, e ∙ en, s)

  pub Apart-last :
      (p : Ptr) (v : A) (xs ys : Cells A) → Apart ((p, v) ∷ xs) ys → has (last p xs) ys ≡ false
  Apart-last p v [] ys apart = apart.0
  Apart-last p v ((q, w) ∷ xs) ys apart = Apart-last q w xs ys apart.1

  pub Apart-flip : (xs ys : Cells A) (a : Ptr) → Apart xs ys → has a ys ≡ true → has a xs ≡ false
  Apart-flip [] ys a apart i = refl
  Apart-flip ((p, v) ∷ xs) ys a apart i =
      let rest = Apart-flip xs ys a apart.1 i in
      let ne : (a == p) ≡ false = elim (Bool-cases (a == p)) [
        | inl e ↦ absurd (ground (arith, e, apart.0, i))
        | inr e ↦ e
      ] in
      ground (arith, ne, rest)

  pub Apart-mono :
      (xs : Cells A) (r : Ptr) (v : A) (zs : Cells A) → Apart xs ((r, v) ∷ zs) → Apart xs zs
  Apart-mono [] r v zs apart = tt
  Apart-mono ((p, w) ∷ xs) r v zs apart = (ground (arith, apart.0), Apart-mono xs r v zs apart.1)

  pub cut_head-lem :
      (h : Heap A) (p : Ptr) (v : A) (xs : Cells A)
      → Seg h null ((p, v) ∷ xs) null
      → Leaves (cut_head p h) xs
  unfolding cut_head clear_prev
  cut_head-lem h p v [] (e, ne, out, s) = (h, (ground (arith, load_node h p _ e ne)), tt)
  cut_head-lem h p v ((q, w) ∷ xs) (e, ne, out, s) = (
    write h q (node w (first xs null) null),
    (rw (load_node h p _ e ne) (ground (arith, ne, s.1, set_prev-node h q null _ s.0 s.1))),
    set_start h p null null q w xs s,
  )

  pub last-snoc : (p r : Ptr) (w : A) (xs : Cells A) → last p (xs ++ (r, w) ∷ []) ≡ r
  last-snoc p r w [] = refl
  last-snoc p r w ((q, u) ∷ xs) = last-snoc q r w xs

  pub cut_last-lem :
      (h : Heap A) (r t : Ptr) (w : A) (n : Node A)
      → h r ≡ some (node w null t)
      → r ≢ null
      → h t ≡ some n
      → t ≢ null
      → cut_last r h ≡ ok tt (write h t (node n.item null n.prev))
  unfolding cut_last
  cut_last-lem h r t w n e ne en nen = rw (load_node h r _ e ne) (set_next-node h t null n en nen)

  -- The list has a node before the last.
  pub cut_tail-lem :
      (k : ℕ) (h : Heap A) (p r : Ptr) (v w : A) (xs : Cells A)
      → Seg h null ((p, v) ∷ xs ++ (r, w) ∷ []) null
      → length (xs ++ (r, w) ∷ []) < k
      → Leaves (cut_tail k p h) ((p, v) ∷ xs)
  unfolding cut_tail
  cut_tail-lem k h p r v w xs s enough =
      let (s₁, s₂, apart) = split h null null ((p, v) ∷ xs) ((r, w) ∷ []) s in
      let (n, en, nen, s') = set_end h null r null p v xs s₁ in
      let g = write h (last p xs) (node n.item null n.prev) in
      let go : go_to_last k p h ≡ ok r h =
        go_to_last-last k h null p v (xs ++ (r, w) ∷ []) s enough
        ∙ ap (λ q. ok q h) (last-snoc p r w xs) in
      let cut' = cut_last-lem h r (last p xs) w n s₂.0 s₂.1 en nen in
      (g, rw (go, cut') (ground (arith, s.1)), s')

  has-behind : (a p : Ptr) (v : A) (xs : Cells A) → has a ((p, v) ∷ xs) ≡ false → has a xs ≡ false
  has-behind a p v xs out = ground (arith, out)

  has-ne : (a p : Ptr) (v : A) (xs : Cells A) → has a ((p, v) ∷ xs) ≡ false → (p == a) ≡ false
  has-ne a p v xs out = ground (arith, out)

  has-second : (r q : Ptr) (w x : A) (zs : Cells A) → has q ((r, w) ∷ (q, x) ∷ zs) ≡ true
  has-second r q w x zs = ground arith

  link_next-lem :
      (h : Heap A) (r t u : Ptr) (w : A) (n : Node A)
      → h r ≡ some (node w u t)
      → r ≢ null
      → h t ≡ some n
      → t ≢ null
      → link_next r h ≡ ok tt (write h t (node n.item u n.prev))
  unfolding link_next
  link_next-lem h r t u w n e ne en nen =
      rw (load_node h r _ e ne) (ground (arith, nen, set_next-node h t u n en nen))

  link_prev-lem :
      (h : Heap A) (r t u : Ptr) (w : A) (n : Node A)
      → h r ≡ some (node w u t)
      → r ≢ null
      → h u ≡ some n
      → u ≢ null
      → link_prev r h ≡ ok tt (write h u (node n.item n.next t))
  unfolding link_prev
  link_prev-lem h r t u w n e ne en nen =
      rw (load_node h r _ e ne) (ground (arith, nen, set_prev-node h u t n en nen))

  unlink_run :
      (k : ℕ) (h g g' : Heap A) (p q r : Ptr)
      → (r == p) ≡ false
      → q ≢ null
      → link_next r h ≡ ok tt g
      → link_prev r g ≡ ok tt g'
      → unlink k p r q h ≡ ok p g'
  unfolding unlink
  unlink_run k h g g' p q r out nq next' prev' = rw (next', prev', out) (ground (arith, nq))

  -- The node `r` has `(p, v) ∷ ys` before it and `(q, x) ∷ zs` behind it.
  unlink_middle :
      (k : ℕ) (h : Heap A) (p q r : Ptr) (v w x : A) (ys zs : Cells A)
      → Seg h null ((p, v) ∷ ys ++ (r, w) ∷ (q, x) ∷ zs) null
      → Leaves (unlink k p r q h) ((p, v) ∷ ys ++ (q, x) ∷ zs)
  unfolding unlink
  unlink_middle k h p q r v w x ys zs s =
      let (s₁, s₂, apart) = split h null null ((p, v) ∷ ys) ((r, w) ∷ (q, x) ∷ zs) s in
      let (er, ner, outr, s₃) = s₂ in
      let (n, en, nen, s₁') = set_end h null r q p v ys s₁ in
      let t = last p ys in
      let g = write h t (node n.item q n.prev) in
      let out = Apart-last p v ys ((r, w) ∷ (q, x) ∷ zs) apart in
      let s₃' =
        frame-write h r null ((q, x) ∷ zs) t (node n.item q n.prev) s₃
          (has-behind t r w ((q, x) ∷ zs) out) in
      let er' : g r ≡ some (node w q t) =
        write_ne h t r (node n.item q n.prev) (has-ne t r w ((q, x) ∷ zs) out) ∙ er in
      let g' = write g q (node x (first zs null) t) in
      let far : has q ((p, v) ∷ ys) ≡ false =
        Apart-flip ((p, v) ∷ ys) ((r, w) ∷ (q, x) ∷ zs) q apart (has-second r q w x zs) in
      let left = frame-write g null q ((p, v) ∷ ys) q (node x (first zs null) t) s₁' far in
      let right = set_start g r t null q x zs s₃' in
      let next' = link_next-lem h r t q w n er ner en nen in
      let prev' = link_prev-lem g r t q w _ er' ner s₃'.0 s₃'.1 in
      let parts = Apart-mono ((p, v) ∷ ys) r w ((q, x) ∷ zs) apart in
      (
        g',
        unlink_run k h g g' p q r (has-ne p r w ((q, x) ∷ zs) apart.0) s₃.1 next' prev',
        join g' null null ((p, v) ∷ ys) ((q, x) ∷ zs) left right parts,
      )

  -- The node `r` stands between `ys` and `zs`.
  pub unlink-lem :
      (k : ℕ) (h : Heap A) (r : Ptr) (w : A) (ys zs : Cells A)
      → Seg h null (ys ++ (r, w) ∷ zs) null
      → length (ys ++ (r, w) ∷ zs) ≤ k
      → Leaves (unlink k (first (ys ++ (r, w) ∷ zs) null) r (first zs null) h) (ys ++ zs)
  unfolding unlink
  unlink-lem k h r w [] zs s enough =
      Leaves-back _ (cut_head r h) zs (ground arith) (cut_head-lem h r w zs s)
  unlink-lem k h r w ((p, v) ∷ ys) [] s enough =
      let apart = (split h null null ((p, v) ∷ ys) ((r, w) ∷ []) s).2 in
      let out = has-ne p r w [] apart.0 in
      let same = append-nil ys in
      rw same (
        Leaves-back _ (cut_tail k p h) ((p, v) ∷ ys) (rw out (ground arith))
          (cut_tail-lem k h p r v w ys s (omega (arith, enough))))
  unlink-lem k h r w ((p, v) ∷ ys) ((q, x) ∷ zs) s enough = unlink_middle k h p q r v w x ys zs s

  cut-loop :
      (k : ℕ) (same : A → Bool) (h : Heap A) (p : Ptr)
      → p ≢ null
      → cut k same p h ≡ cut_loop k same k p p h
  unfolding cut
  cut-loop k same h p ne = ground (arith, ne)

  first_ne :
      (h : Heap A) (r : Ptr) (w : A) (ys zs : Cells A)
      → Seg h null (ys ++ (r, w) ∷ zs) null
      → first (ys ++ (r, w) ∷ zs) null ≢ null
  first_ne h r w [] zs s = s.1
  first_ne h r w ((p, v) ∷ ys) zs s = s.1

  cut-miss :
      (k : ℕ) (same : A → Bool) (h : Heap A) (xs : Cells A)
      → Seg h null xs null
      → length xs < k
      → Misses same xs
      → cut k same (first xs null) h ≡ ok (first xs null) h
  unfolding cut
  cut-miss k same h [] s enough miss = refl
  cut-miss k same h ((p, v) ∷ xs) s enough miss =
      cut-loop k same h p s.1 ∙ cut_loop-miss same k k h null p ((p, v) ∷ xs) s miss enough

  cut-hit :
      (k : ℕ) (same : A → Bool) (h : Heap A) (r : Ptr) (w : A) (ys zs : Cells A)
      → Misses same ys
      → same w ≡ true
      → Seg h null (ys ++ (r, w) ∷ zs) null
      → length (ys ++ (r, w) ∷ zs) < k
      → Leaves (cut k same (first (ys ++ (r, w) ∷ zs) null) h) (without same (ys ++ (r, w) ∷ zs))
  cut-hit k same h r w ys zs miss hit s enough =
      let p = first (ys ++ (r, w) ∷ zs) null in
      let short : length ys < k = omega (arith, enough, length-append ys ((r, w) ∷ zs)) in
      let walk = cut_loop-hit same k k h null p r w ys zs s miss hit short in
      let found = cut-loop k same h p (first_ne h r w ys zs s) ∙ walk in
      rw (without-hit same r w ys zs miss hit)
        (Leaves-back _ _ (ys ++ zs) found (unlink-lem k h r w ys zs s (omega (arith, enough))))

  pub cut-without :
      (k : ℕ) (same : A → Bool) (h : Heap A) (xs : Cells A)
      → Seg h null xs null
      → length xs < k
      → Leaves (cut k same (first xs null) h) (without same xs)
  cut-without k same h xs s enough = elim (Misses-or-Hit same xs) [
    | inl miss ↦ rw (without-miss same xs miss) (h, cut-miss k same h xs s enough miss, s)
    | inr (r, w, ys, zs, e, miss, hit) ↦
        subst
          (λ x.
            Seg h null x null
            → length x < k
            → Leaves (cut k same (first x null) h) (without same x))
          (sym e) (cut-hit k same h r w ys zs miss hit) s enough
  ]
