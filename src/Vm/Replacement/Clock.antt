-- ===== src/Vm/Replacement/Clock.antt =====
-- The clock policy of p3/pagetable.c gives each referenced frame a second chance.
use csci4730_operating_syste.Base.{
  ℕ, zero, suc, ◌+◌, ◌≤◌, ◌<◌, ◌≡◌, refl, ◌≢◌, ap, ◌∙◌, List, [], ◌∷◌, ◌++◌, some, arith, ◌==◌,
  length, length-append, true, ◌⊎◌, inl, inr,
}
use mathlib.Core.List.{append_assoc, append-nil}
use native.Mathlib.Decide.{ℕ_discrete}
use csci4730_operating_syste.Vm.Replacement.{
  ClockNode, clock_node, Queues, clock_loop, clock, clock_from,
}

-- Every node has its reference set.
abbrev pub AllReferenced : List ClockNode → Type 0
AllReferenced [] = Unit
AllReferenced (n ∷ ns) = (n.ref ≡ 1) × AllReferenced ns

-- The same frames with their references cleared.
unfoldable pub cleared : List ClockNode → List ClockNode
cleared [] = []
cleared (n ∷ ns) = clock_node n.frame 0 ∷ cleared ns

length-cleared : (ns : List ClockNode) → length (cleared ns) ≡ length ns
unfolding cleared
length-cleared [] = refl
length-cleared (n ∷ ns) = ap suc (length-cleared ns)

-- The nodes `done` have had their chance already.
clock_loop-rotate :
    (k : ℕ) (pre : List ClockNode) (n : ClockNode) (post : List ClockNode)
    → length pre < k
    → AllReferenced pre
    → n.ref ≢ 1
    → clock_loop k (pre ++ (n ∷ post)) ≡ some ((n ∷ post) ++ cleared pre)
unfolding clock_loop cleared
clock_loop-rotate zero pre n post fuel all fresh = absurd (omega arith)
clock_loop-rotate (suc k) [] n post fuel all fresh = ground (arith, append-nil post)
clock_loop-rotate (suc k) (p ∷ pre) n post fuel all fresh =
    let e : (p.ref == 1) ≡ true = ground arith in
    rw (e, append_assoc pre (n ∷ post) (clock_node p.frame 0 ∷ []))
      (clock_loop-rotate k pre n (post ++ (clock_node p.frame 0 ∷ [])) (omega arith) all.1 fresh
        ∙ ap some (append_assoc (n ∷ post) (clock_node p.frame 0 ∷ []) (cleared pre)))

length-le-append : (xs ys : List ClockNode) → length xs ≤ length (xs ++ ys)
length-le-append xs ys = omega (arith, length-append xs ys)

-- If some node has its reference clear, the first such node is the victim. The nodes before it
-- have their references cleared and go to the end of the queue in their order, and the nodes
-- behind it stay as they are.
pub clock-second_chance :
    (q : Queues) (pre : List ClockNode) (n : ClockNode) (post : List ClockNode)
    → AllReferenced pre
    → n.ref ≢ 1
    → clock (record q { clock_head = pre ++ (n ∷ post) })
      ≡ some (n.frame, record q { clock_head = (n ∷ post) ++ cleared pre })
unfolding clock clock_from
clock-second_chance q pre n post all fresh = rw (
    clock_loop-rotate (length (pre ++ (n ∷ post)) + 1) pre n post
      (omega (arith, length-le-append pre (n ∷ post))) all fresh)

clock_loop-circle :
    (k : ℕ) (n : ClockNode) (ns : List ClockNode)
    → length ns + 1 < k
    → AllReferenced (n ∷ ns)
    → clock_loop k (n ∷ ns) ≡ some (cleared (n ∷ ns))
unfolding clock_loop cleared
clock_loop-circle zero n ns fuel all = absurd (omega arith)
clock_loop-circle (suc k) n ns fuel all =
    let e : (n.ref == 1) ≡ true = ground arith in
    rw e (clock_loop-rotate k ns (clock_node n.frame 0) [] (omega arith) all.1 (omega arith))

-- If every node of the queue is referenced, one full round clears all the references and the head
-- is the victim after all.
pub clock-full_circle :
    (q : Queues) (n : ClockNode) (ns : List ClockNode)
    → AllReferenced (n ∷ ns)
    → clock (record q { clock_head = n ∷ ns })
      ≡ some (n.frame, record q { clock_head = cleared (n ∷ ns) })
unfolding clock clock_from cleared
clock-full_circle q n ns all = rw (clock_loop-circle (length (n ∷ ns) + 1) n ns (omega arith) all)

-- The first node with a clear reference, if there is one.
first_fresh :
    (ns : List ClockNode)
    → AllReferenced ns
      ⊎ ((pre : List ClockNode) × (n : ClockNode) × (post : List ClockNode) × (ns
            ≡ pre ++ (n ∷ post))
          × AllReferenced pre
          × (n.ref ≢ 1))
first_fresh [] = inl tt
first_fresh (n ∷ ns) = elim (ℕ_discrete n.ref 1) [
  | no fresh ↦ inr ([], n, ns, refl, tt, fresh)
  | yes set ↦ elim (first_fresh ns) [
    | inl all ↦ inl (set, all)
    | inr (pre, m, post, e, all, fresh) ↦
        inr (n ∷ pre, m, post, ap (λ l. n ∷ l) e, (set, all), fresh)
  ]
]

-- On a queue that is not empty the loop ends, and leaves the victim at the head.
pub clock_loop-victim :
    (k : ℕ) (c : ClockNode) (l : List ClockNode)
    → length l + 1 < k
    → (n : ClockNode) × (ns : List ClockNode) × (clock_loop k (c ∷ l) ≡ some (n ∷ ns))
clock_loop-victim k c l fuel = elim (first_fresh (c ∷ l)) [
  | inl all ↦
      (clock_node c.frame 0, cleared l, unfold cleared in (clock_loop-circle k c l fuel all))
  | inr (pre, n, post, e, all, fresh) ↦ (
    n,
    post ++ cleared pre,
    rw e (
        clock_loop-rotate k pre n post
          (omega (arith, ap length e, length-le-append pre (n ∷ post), fuel)) all fresh),
  )
]
