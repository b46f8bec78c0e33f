-- ===== src/Vm/Replacement.antt =====
-- p3/pagetable.c: the replacement policies and the queues that they keep. The lists behind `head`
-- and `clockHead` are written as the sequences that they hold.
pub mod Lru
pub mod Bounds
pub mod Clock
use csci4730_operating_syste.Base.{
  ℕ, zero, suc, ◌+◌, ◌%◌, List, [], ◌∷◌, ◌++◌, Option, none, some, ◌==◌, if◌then◌else◌, length,
}

-- `#define ZERO 0 … CLOCK 3`
pub data Policy : Type 0 where
  zero_policy fifo_policy lru_policy clock_policy : Policy

-- The payload of `struct ClockNode`.
pub record ClockNode : Type 0 where
  pub frame : ℕ
  pub ref : ℕ

abbrev pub clock_node : ℕ → ℕ → ClockNode
clock_node f r = record { frame = f; ref = r }

-- The globals `i` (as `turns`, which is `i + 1`), `head` and `clockHead`.
pub record Queues : Type 0 where
  pub turns : ℕ
  pub head : List ℕ
  pub clock_head : List ClockNode

unfoldable pub remove_head {ℓ} : {A : Type ℓ} → List A → List A
remove_head [] = []
remove_head (x ∷ xs) = xs

unfoldable pub insert_tail {ℓ} : {A : Type ℓ} → List A → A → List A
insert_tail xs x = xs ++ (x ∷ [])

-- Drops the first element that is `x`.
unfoldable pub remove : List ℕ → ℕ → List ℕ
remove [] x = []
remove (y ∷ ys) x = if x == y then ys else y ∷ remove ys x

-- Sets the reference of the first node of frame `f`.
unfoldable pub update_ref : List ClockNode → ℕ → ℕ → List ClockNode
update_ref [] f r = []
update_ref (n ∷ ns) f r = if n.frame == f then record n { ref = r } ∷ ns else n ∷ update_ref ns f r

unfoldable pub fifo : ℕ → Queues → Option (ℕ × Queues)
fifo max_pfn q = some (q.turns % max_pfn, record q { turns = q.turns + 1 })

-- `head->data`, a fault on the empty list.
unfoldable pub lru : Queues → Option (ℕ × Queues)
lru q = elim q.head [ [] ↦ none | x ∷ xs ↦ some (x, q) ]

-- The loop of `clock`: `none` is a read through the null pointer, or fuel that ran out.
unfoldable pub clock_loop : ℕ → List ClockNode → Option (List ClockNode)
unfolding insert_tail remove_head
clock_loop zero ns = none
clock_loop (suc k) [] = none
clock_loop (suc k) (n ∷ ns) =
    let rest = clock_loop k (insert_tail (remove_head (n ∷ ns)) (clock_node n.frame 0)) in
    if n.ref == 1 then rest else some (n ∷ ns)

unfoldable pub clock_from : Queues → Option (List ClockNode) → Option (ℕ × Queues)
clock_from q none = none
clock_from q (some []) = none
clock_from q (some (n ∷ ns)) = some (n.frame, record q { clock_head = n ∷ ns })

-- One round more than there are nodes is enough, since each round clears one reference.
unfoldable pub clock : Queues → Option (ℕ × Queues)
unfolding clock_loop clock_from
clock q = clock_from q (clock_loop (length q.clock_head + 1) q.clock_head)

unfoldable pub find_replacement : Policy → ℕ → Queues → Option (ℕ × Queues)
unfolding fifo lru clock
find_replacement zero_policy max_pfn q = some (0, q)
find_replacement fifo_policy max_pfn q = fifo max_pfn q
find_replacement lru_policy max_pfn q = lru q
find_replacement clock_policy max_pfn q = clock q

-- `pagefault_handler`, after the victim is found: its node leaves the queue.
unfoldable pub drop_victim : Policy → Queues → Queues
unfolding remove_head
drop_victim lru_policy q = record q { head = remove_head q.head }
drop_victim clock_policy q = record q { clock_head = remove_head q.clock_head }
drop_victim _ q = q

-- `pagefault_handler`, before the frame is filled: it enters the queue.
unfoldable pub enqueue : Policy → ℕ → Queues → Queues
unfolding insert_tail
enqueue lru_policy f q = record q { head = insert_tail q.head f }
enqueue clock_policy f q = record q { clock_head = insert_tail q.clock_head (clock_node f 0) }
enqueue _ f q = q

-- `is_page_hit`: the queues learn of a hit on frame `f`.
unfoldable pub note_hit : Policy → ℕ → Queues → Queues
unfolding insert_tail remove update_ref
note_hit lru_policy f q = record q { head = insert_tail (remove q.head f) f }
note_hit clock_policy f q = record q { clock_head = update_ref q.clock_head f 1 }
note_hit _ f q = q
