-- ===== src/Vm/Nodes/Clock.antt =====
-- The loop of `clock` in p3/pagetable.c on the nodes of p3/clock_list.c.
use csci4730_operating_syste.Base.{
  ℕ, zero, suc, ◌+◌, ◌<◌, ◌≤◌, ◌≡◌, refl, sym, ap, ◌∙◌, true, false, none, some, List, [], ◌∷◌,
  ◌++◌, arith, ◌==◌, if◌then◌else◌, length, length-append, All, Bool-cases, inl, inr,
}
use mathlib.Core.Option.{some-injective}
use csci4730_operating_syste.Vm.Replacement.{
  ClockNode, clock_node, remove_head, insert_tail, clock_loop, clock_from, clock, Queues,
}
use csci4730_operating_syste.Vm.Replacement.Clock.{clock_loop-victim}
use csci4730_operating_syste.Vm.Nodes.{Ptr, Heap, Run, ok, out_of_fuel, Cmd, and_then, load}
use csci4730_operating_syste.Vm.Nodes.Lists.{clock_list_remove_head, clock_list_insert_tail}
use csci4730_operating_syste.Vm.Nodes.Seg.{Cells, has, first, Seg}
use csci4730_operating_syste.Vm.Nodes.Ends.{load_node, has-append}
use csci4730_operating_syste.Vm.Nodes.Cut.{Leaves, cut_head-lem}
use csci4730_operating_syste.Vm.Nodes.Link.{link_tail-lem}
use csci4730_operating_syste.Vm.Nodes.Abstract.{IsList, IsFresh, values, Returns, values-append}

-- The body of the loop: the head node leaves and enters at the tail, not referenced.
unfoldable pub clock_round : ℕ → Ptr → Ptr → Cmd ClockNode Ptr
clock_round k p head h = and_then (load head h) λ n h₁.
    and_then (clock_list_remove_head head h₁)
      λ head' h₂. clock_list_insert_tail k p head' n.item.frame 0 h₂

-- The loop; `ps` are the addresses that `malloc` returns, one for each round.
unfoldable pub clock_walk : ℕ → List Ptr → Ptr → Cmd ClockNode Ptr
clock_walk k [] head h =
    and_then (load head h) λ n h₁. if n.item.ref == 1 then out_of_fuel else ok head h₁
clock_walk k (p ∷ ps) head h = and_then (load head h) λ n h₁.
    if n.item.ref == 1 then and_then (clock_round k p head h₁) (clock_walk k ps) else ok head h₁

-- New addresses, all different.
abbrev pub AreFresh : List Ptr → Cells ClockNode → Type 0
AreFresh [] xs = Unit {0}
AreFresh (p ∷ ps) xs = IsFresh p xs × All (λ (q : Ptr). (q == p) ≡ false) ps × AreFresh ps xs

AreFresh-rotate :
    (ps : List Ptr) (a p : Ptr) (n m : ClockNode) (xs : Cells ClockNode)
    → AreFresh ps ((a, n) ∷ xs)
    → All (λ (q : Ptr). (q == p) ≡ false) ps
    → AreFresh ps (xs ++ (p, m) ∷ [])
AreFresh-rotate [] a p n m xs fresh apart = tt
AreFresh-rotate (q ∷ ps) a p n m xs ((ne, out), others, fresh) (far, apart) = (
  (ne, has-append q xs ((p, m) ∷ []) ∙ ground (arith, out, far)),
  others,
  AreFresh-rotate ps a p n m xs fresh apart,
)

clock_round-Leaves :
    (k p : ℕ) (h : Heap ClockNode) (a : Ptr) (n : ClockNode) (xs : Cells ClockNode)
    → Seg h 0 ((a, n) ∷ xs) 0
    → IsFresh p ((a, n) ∷ xs)
    → length xs ≤ k
    → Leaves (clock_round k p a h) (xs ++ (p, clock_node n.frame 0) ∷ [])
unfolding clock_list_remove_head clock_list_insert_tail clock_round
clock_round-Leaves k p h a n xs s fresh enough =
    let (g, run, s') = cut_head-lem h a n xs s in
    let out : has p xs ≡ false = ground (arith, fresh.1) in
    rw (load_node h a _ s.0 s.1, run)
      (link_tail-lem k g p (clock_node n.frame 0) xs s' fresh.0 out enough)

Returns-back : (m n : Run ClockNode Ptr) (ns : List ClockNode) → m ≡ n → Returns n ns → Returns m ns
Returns-back m n ns e (head, g, xs, en, l, same) = (head, g, xs, e ∙ en, l, same)

clock_loop_stops :
    (k : ℕ) (n : ClockNode) (ns : List ClockNode)
    → (n.ref == 1) ≡ false
    → clock_loop (suc k) (n ∷ ns) ≡ some (n ∷ ns)
unfolding clock_loop
clock_loop_stops k n ns clear = rw clear refl

clock_loop_turns :
    (k : ℕ) (n : ClockNode) (ns : List ClockNode)
    → (n.ref == 1) ≡ true
    → clock_loop (suc k) (n ∷ ns) ≡ clock_loop k (ns ++ clock_node n.frame 0 ∷ [])
unfolding clock_loop insert_tail remove_head
clock_loop_turns k n ns referenced = rw referenced refl

clock_loop_over : (ns : List ClockNode) → clock_loop zero ns ≡ none
unfolding clock_loop
clock_loop_over ns = refl

clock_loop_empty : (k : ℕ) → clock_loop (suc k) [] ≡ none
unfolding clock_loop
clock_loop_empty k = refl

clock_walk_stops :
    (k : ℕ) (ps : List Ptr) (h : Heap ClockNode) (a : Ptr) (n : ClockNode) (xs : Cells ClockNode)
    → Seg h 0 ((a, n) ∷ xs) 0
    → (n.ref == 1) ≡ false
    → clock_walk k ps a h ≡ ok a h
unfolding clock_walk
clock_walk_stops k [] h a n xs s clear = rw (load_node h a _ s.0 s.1, clear) refl
clock_walk_stops k (p ∷ ps) h a n xs s clear = rw (load_node h a _ s.0 s.1, clear) refl

clock_walk_turns :
    (k : ℕ) (p : Ptr) (ps : List Ptr) (h g : Heap ClockNode) (a b : Ptr) (n : ClockNode)
    (xs : Cells ClockNode)
    → Seg h 0 ((a, n) ∷ xs) 0
    → (n.ref == 1) ≡ true
    → clock_round k p a h ≡ ok b g
    → clock_walk k (p ∷ ps) a h ≡ clock_walk k ps b g
unfolding clock_walk
clock_walk_turns k p ps h g a b n xs s referenced round =
    rw (load_node h a _ s.0 s.1, referenced, round) refl

stopped :
    (k : ℕ) (ps : List Ptr) (h : Heap ClockNode) (a : Ptr) (n : ClockNode) (xs : Cells ClockNode)
    (ns : List ClockNode)
    → Seg h 0 ((a, n) ∷ xs) 0
    → (n.ref == 1) ≡ false
    → clock_loop (suc (length ps)) (n ∷ values xs) ≡ some ns
    → Returns (clock_walk k ps a h) ns
stopped k ps h a n xs ns s clear e = (
  a,
  h,
  (a, n) ∷ xs,
  clock_walk_stops k ps h a n xs s clear,
  (refl, s),
  some-injective _ _ (sym (clock_loop_stops (length ps) n (values xs) clear) ∙ e),
)

-- On nodes that hold `xs`, linked both ways, with as many new addresses as the loop may need: if the loop on
-- sequences ends with `ns`, the loop on the nodes returns without a fault the head of a list, linked both
-- ways, that holds `ns`.
pub clock_walk-clock_loop :
    (k : ℕ) (ps : List Ptr) (head : Ptr) (h : Heap ClockNode) (xs : Cells ClockNode)
    (ns : List ClockNode)
    → IsList h head xs
    → AreFresh ps xs
    → length xs ≤ k
    → clock_loop (suc (length ps)) (values xs) ≡ some ns
    → Returns (clock_walk k ps head h) ns
clock_walk-clock_loop k ps head h [] ns l fresh enough e =
    let impossible = sym (clock_loop_empty (length ps)) ∙ e in cc
clock_walk-clock_loop k [] head h ((a, n) ∷ xs) ns (eh, s) fresh enough e =
    elim (Bool-cases (n.ref == 1)) [
      | inr clear ↦ rw eh (stopped k [] h a n xs ns s clear e)
      | inl referenced ↦
          let impossible =
            sym (clock_loop_over (values xs ++ clock_node n.frame 0 ∷ []))
            ∙ (sym (clock_loop_turns 0 n (values xs) referenced) ∙ e) in
          cc
    ]
clock_walk-clock_loop k (p ∷ ps) head h ((a, n) ∷ xs) ns (eh, s) (new, apart, fresh) enough e =
    let m = clock_node n.frame 0 in
    let ys = xs ++ (p, m) ∷ [] in
    elim (Bool-cases (n.ref == 1)) [
      | inr clear ↦ rw eh (stopped k (p ∷ ps) h a n xs ns s clear e)
      | inl referenced ↦
          let (g, run, s') = clock_round-Leaves k p h a n xs s new (omega arith) in
          let e' : clock_loop (suc (length ps)) (values ys) ≡ some ns =
            ap (clock_loop (suc (length ps))) (values-append xs ((p, m) ∷ []))
            ∙ (sym (clock_loop_turns (suc (length ps)) n (values xs) referenced) ∙ e) in
          let fits : length ys ≤ k = omega (arith, length-append xs ((p, m) ∷ []), enough) in
          let fresh' = AreFresh-rotate ps a p n m xs fresh apart in
          let rest = clock_walk-clock_loop k ps (first ys 0) g ys ns (refl, s') fresh' fits e' in
          rw eh (
            Returns-back _ _ ns (clock_walk_turns k p ps h g a (first ys 0) n xs s referenced run)
              rest)
    ]

length-values : (xs : Cells ClockNode) → length (values xs) ≡ length xs
length-values [] = refl
length-values ((a, n) ∷ xs) = ap suc (length-values xs)

clock_victim :
    (j : ℕ) (q : Queues) (n : ClockNode) (ns : List ClockNode)
    → j ≡ length ns + 1
    → (v : ClockNode) × (vs : List ClockNode) × (clock_loop (suc j) (n ∷ ns) ≡ some (v ∷ vs))
      × (clock (record q { clock_head = n ∷ ns })
          ≡ some (v.frame, record q { clock_head = v ∷ vs }))
unfolding clock clock_from
clock_victim j q n ns e =
    let (v, vs, found) = clock_loop-victim (suc j) n ns (omega arith) in
    let same : length (n ∷ ns) + 1 ≡ suc j = omega arith in
    (
      v,
      vs,
      found,
      ap (λ i. clock_from (record q { clock_head = n ∷ ns }) (clock_loop i (n ∷ ns))) same
          ∙ ap (clock_from (record q { clock_head = n ∷ ns })) found,
    )

-- On a list at `head` that is not empty and is linked both ways, with one new address for each node and
-- enough fuel for a walk: `clock` finds a victim, the loop on the nodes ends without a fault, and it returns
-- the head of a list, linked both ways, that holds what `clock` leaves, with the victim in front.
pub clock_walk-clock :
    (k : ℕ) (ps : List Ptr) (head : Ptr) (h : Heap ClockNode) (a : Ptr) (n : ClockNode)
    (xs : Cells ClockNode) (q : Queues)
    → IsList h head ((a, n) ∷ xs)
    → AreFresh ps ((a, n) ∷ xs)
    → length ps ≡ length xs + 1
    → length xs < k
    → (v : ClockNode) × (vs : List ClockNode) × (clock (record q { clock_head = n ∷ values xs })
        ≡ some (v.frame, record q { clock_head = v ∷ vs }))
      × Returns (clock_walk k ps head h) (v ∷ vs)
clock_walk-clock k ps head h a n xs q l fresh many enough =
    let (v, vs, found, e) =
      clock_victim (length ps) q n (values xs) (omega (arith, many, length-values xs)) in
    (v, vs, e, clock_walk-clock_loop k ps head h ((a, n) ∷ xs) (v ∷ vs) l fresh (omega arith) found)
