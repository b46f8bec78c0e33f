-- ===== src/Vm/Replacement/Bounds.antt =====
-- The queues of p3/pagetable.c hold frames in range, so a victim is found and is in range.
use csci4730_operating_syste.Base.{
  ℕ, zero, suc, ◌+◌, ◌≤◌, ◌<◌, ◌%◌, ◌≡◌, refl, List, [], ◌∷◌, ◌++◌, some, arith, ◌==◌, length,
  length-append, All, All-append, All-mono, Bool-cases, inl, inr,
}
use csci4730_operating_syste.Vm.Replacement.{
  Policy, zero_policy, fifo_policy, lru_policy, clock_policy, ClockNode, clock_node, Queues,
  remove_head, insert_tail, remove, update_ref, lru, clock_loop, clock, clock_from,
  find_replacement, drop_victim, enqueue, note_hit,
}
use csci4730_operating_syste.Vm.Replacement.Clock.{clock_loop-victim}
use mathlib.Core.Option.{some-injective}
use mathlib.Core.Path.{subst}

-- Every frame in the queue of the policy is below `n`.
abbrev pub Below : Policy → ℕ → Queues → Type 0
Below lru_policy n q = All (λ f. f < n) q.head
Below clock_policy n q = All (λ c. c.frame < n) q.clock_head
Below zero_policy n q = Unit
Below fifo_policy n q = Unit

-- The queue of a policy that keeps one is not empty.
abbrev pub IsFilled : Policy → Queues → Type 0
IsFilled lru_policy q = 0 < length q.head
IsFilled clock_policy q = 0 < length q.clock_head
IsFilled zero_policy q = Unit
IsFilled fifo_policy q = Unit

remove-Below : (n f : ℕ) (xs : List ℕ) → All (λ x. x < n) xs → All (λ x. x < n) (remove xs f)
unfolding remove
remove-Below n f [] h = tt
remove-Below n f (x ∷ xs) h = elim (Bool-cases (f == x)) [
  | inl e ↦ rw e h.1
  | inr e ↦ rw e (h.0, remove-Below n f xs h.1)
]

update_ref-Below :
    (n f r : ℕ) (ns : List ClockNode)
    → All (λ c. c.frame < n) ns
    → All (λ c. c.frame < n) (update_ref ns f r)
unfolding update_ref
update_ref-Below n f r [] h = tt
update_ref-Below n f r (c ∷ ns) h = elim (Bool-cases (c.frame == f)) [
  | inl e ↦ rw e h
  | inr e ↦ rw e (h.0, update_ref-Below n f r ns h.1)
]

length-update_ref : (f r : ℕ) (ns : List ClockNode) → length (update_ref ns f r) ≡ length ns
unfolding update_ref
length-update_ref f r [] = refl
length-update_ref f r (c ∷ ns) = ground (arith, length-update_ref f r ns)

clock_loop-Below :
    (k n : ℕ) (ns : List ClockNode) {ns' : List ClockNode}
    → All (λ c. c.frame < n) ns
    → clock_loop k ns ≡ some ns'
    → All (λ c. c.frame < n) ns'
unfolding clock_loop insert_tail remove_head
clock_loop-Below zero n ns h e = cc
clock_loop-Below (suc k) n [] h e = cc
clock_loop-Below (suc k) n (c ∷ ns) h e = elim (Bool-cases (c.ref == 1)) [
  | inl r ↦
      clock_loop-Below k n (ns ++ (clock_node c.frame 0 ∷ []))
        (All-append (λ (c : ClockNode). c.frame < n) ns _ h.1 (h.0, tt)) (rw r at e)
  | inr r ↦ subst (All (λ (c : ClockNode). c.frame < n)) (some-injective _ _ (rw r at e)) h
]

lru-lt :
    (n : ℕ) (q : Queues) (xs : List ℕ)
    → All (λ f. f < n) xs
    → 0 < length xs
    → (f : ℕ) × (q' : Queues) × (lru (record q { head = xs }) ≡ some (f, q'))
      × (f < n)
      × Below lru_policy n (drop_victim lru_policy q')
unfolding lru drop_victim
lru-lt n q [] b filled = elim filled [ ]
lru-lt n q (x ∷ xs) b filled = (x, record q { head = x ∷ xs }, refl, b.0, b.1)

clock-lt :
    (n : ℕ) (q : Queues) (ns : List ClockNode)
    → All (λ c. c.frame < n) ns
    → 0 < length ns
    → (f : ℕ) × (q' : Queues) × (clock (record q { clock_head = ns }) ≡ some (f, q'))
      × (f < n)
      × Below clock_policy n (drop_victim clock_policy q')
unfolding clock clock_from drop_victim
clock-lt n q [] b filled = elim filled [ ]
clock-lt n q (c ∷ ns) b filled =
    let (v, vs, e) = clock_loop-victim (length (c ∷ ns) + 1) c ns (omega arith) in
    let b' = clock_loop-Below (length (c ∷ ns) + 1) n (c ∷ ns) b e in
    (v.frame, record q { clock_head = v ∷ vs }, rw e, b'.0, b'.1)

-- A queue that is filled with frames below `n` yields a victim below `n`, and what is left of the
-- queue when the victim has gone is below `n` too.
pub find_replacement-lt :
    (p : Policy) (n : ℕ) (q : Queues)
    → 0 < n
    → Below p n q
    → IsFilled p q
    → (f : ℕ) × (q' : Queues) × (find_replacement p n q ≡ some (f, q'))
      × (f < n)
      × Below p n (drop_victim p q')
unfolding find_replacement drop_victim
find_replacement-lt zero_policy n q pos b filled = (0, q, refl, pos, tt)
find_replacement-lt fifo_policy n q pos b filled = (q.turns % n, _, refl, omega arith, tt)
find_replacement-lt lru_policy n q pos b filled = lru-lt n q q.head b filled
find_replacement-lt clock_policy n q pos b filled = clock-lt n q q.clock_head b filled

pub enqueue-Below :
    (p : Policy) (n f : ℕ) (q : Queues)
    → Below p n q
    → f < n
    → Below p n (enqueue p f q) × IsFilled p (enqueue p f q)
unfolding enqueue
enqueue-Below zero_policy n f q b lt = (tt, tt)
enqueue-Below fifo_policy n f q b lt = (tt, tt)
enqueue-Below lru_policy n f q b lt =
    (All-append (λ f. f < n) q.head _ b (lt, tt), omega (arith, length-append q.head (f ∷ [])))
enqueue-Below clock_policy n f q b lt = (
  All-append (λ (c : ClockNode). c.frame < n) q.clock_head _ b (lt, tt),
  omega (arith, length-append q.clock_head (clock_node f 0 ∷ [])),
)

pub note_hit-Below :
    (p : Policy) (n f : ℕ) (q : Queues)
    → Below p n q
    → IsFilled p q
    → f < n
    → Below p n (note_hit p f q) × IsFilled p (note_hit p f q)
unfolding note_hit
note_hit-Below zero_policy n f q b filled lt = (tt, tt)
note_hit-Below fifo_policy n f q b filled lt = (tt, tt)
note_hit-Below lru_policy n f q b filled lt = (
  All-append (λ f. f < n) (remove q.head f) _ (remove-Below n f q.head b) (lt, tt),
  omega (arith, length-append (remove q.head f) (f ∷ [])),
)
note_hit-Below clock_policy n f q b filled lt =
    (update_ref-Below n f 1 q.clock_head b, omega (arith, length-update_ref f 1 q.clock_head))

pub Below-mono : (p : Policy) (n m : ℕ) (q : Queues) → n ≤ m → Below p n q → Below p m q
Below-mono zero_policy n m q le b = tt
Below-mono fifo_policy n m q le b = tt
Below-mono lru_policy n m q le b = All-mono _ q.head (λ f h. omega arith) b
Below-mono clock_policy n m q le b = All-mono _ q.clock_head (λ c h. omega arith) b
