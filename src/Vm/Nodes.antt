-- ===== src/Vm/Nodes.antt =====
-- The doubly linked lists of p3/list.c and p3/clock_list.c, as nodes at addresses. The two files have
-- the same code for two payloads; `A` is the payload. Loops take fuel. No node is ever freed.
pub mod Lists
pub mod Seg
pub mod Ends
pub mod Walk
pub mod Cut
pub mod Link
pub mod Abstract
pub mod Refine
pub mod Refs
pub mod Find
pub mod Clock
pub mod Print
pub mod Printed
mod Tests
use csci4730_operating_syste.Base.{
  ℕ, zero, suc, ◌+◌, Bool, true, false, Option, none, some, ◌==◌, if◌then◌else◌,
}

abbrev pub Ptr : Type 0
Ptr = ℕ

abbrev pub null : Ptr
null = 0

-- `struct Node` and `struct ClockNode`
pub record Node (A : Type 0) : Type 0 where
  pub item : A
  pub next : Ptr
  pub prev : Ptr

abbrev pub node : {A : Type 0} → A → Ptr → Ptr → Node A
node item next prev = record { item = item; next = next; prev = prev }

abbrev pub Heap : Type 0 → Type 0
Heap A = Ptr → Option (Node A)

pub data Run (A B : Type 0) : Type 0 where
  ok : B → Heap A → Run A B
  fault : Run A B
  out_of_fuel : Run A B

abbrev pub Cmd : Type 0 → Type 0 → Type 0
Cmd A B = Heap A → Run A B

abbrev pub and_then : {A B C : Type 0} → Run A B → (B → Cmd A C) → Run A C
and_then (ok b h) k = k b h
and_then fault k = fault
and_then out_of_fuel k = out_of_fuel

infixl 5 ◌>>=◌ ◌>>◌
abbrev pub ◌>>=◌ : {A B C : Type 0} → Cmd A B → (B → Cmd A C) → Cmd A C
(m >>= k) h = and_then (m h) k

abbrev pub ◌>>◌ : {A B C : Type 0} → Cmd A B → Cmd A C → Cmd A C
(m >> k) h = and_then (m h) λ _. k

abbrev pub write : {A : Type 0} → Heap A → Ptr → Node A → Heap A
write h p n a = if a == p then some n else h a

abbrev pub found : {A : Type 0} → Option (Node A) → Cmd A (Node A)
found none h = fault
found (some n) h = ok n h

-- `*p`, a fault at NULL and at an address that holds no node.
unfoldable pub load : {A : Type 0} → Ptr → Cmd A (Node A)
load p h = if p == null then fault else found (h p) h

abbrev pub store : {A : Type 0} → Ptr → Node A → Cmd A (Unit {0})
store p n h = ok tt (write h p n)

unfoldable pub set_next : {A : Type 0} → Ptr → Ptr → Cmd A (Unit {0})
set_next p q = do n ← load p; store p (record n { next = q })

unfoldable pub set_prev : {A : Type 0} → Ptr → Ptr → Cmd A (Unit {0})
set_prev p q = do n ← load p; store p (record n { prev = q })

-- The `while` that goes to the last node.
unfoldable pub go_to_last : {A : Type 0} → ℕ → Ptr → Cmd A Ptr
go_to_last zero p h = out_of_fuel
go_to_last (suc k) p h =
    and_then (load p h) λ n h'. if n.next == null then ok p h' else go_to_last k n.next h'

-- `if(head != NULL) head->prev = NULL;`
unfoldable pub clear_prev : {A : Type 0} → Ptr → Cmd A Ptr
clear_prev p h = if p == null then ok p h else and_then (set_prev p null h) λ _. ok p

unfoldable pub cut_head : {A : Type 0} → Ptr → Cmd A Ptr
cut_head head h = if head == null then ok null h else and_then (load head h) λ n. clear_prev n.next

-- `ret->prev->next = NULL;`
unfoldable pub cut_last : {A : Type 0} → Ptr → Cmd A (Unit {0})
cut_last ret = do n ← load ret; set_next n.prev null

unfoldable pub cut_tail : {A : Type 0} → ℕ → Ptr → Cmd A Ptr
cut_tail k head h =
    if head == null
    then ok null h
    else and_then (go_to_last k head h) λ ret h'. and_then (cut_last ret h') λ _. ok head

-- `if(ret->prev) ret->prev->next = ret->next;`
unfoldable pub link_next : {A : Type 0} → Ptr → Cmd A (Unit {0})
link_next ret = do n ← load ret; λ h. if n.prev == null then ok tt h else set_next n.prev n.next h

-- `if(ret->next) ret->next->prev = ret->prev;`
unfoldable pub link_prev : {A : Type 0} → Ptr → Cmd A (Unit {0})
link_prev ret = do n ← load ret; λ h. if n.next == null then ok tt h else set_prev n.next n.prev h

-- The node that was sought is `ret`, and `next` follows it.
unfoldable pub unlink : {A : Type 0} → ℕ → Ptr → Ptr → Ptr → Cmd A Ptr
unlink k head ret next h =
    if ret == head
    then cut_head head h
    else if next == null
    then cut_tail k head h
    else and_then (link_next ret h) λ _ h'. and_then (link_prev ret h') λ _. ok head

unfoldable pub cut_loop : {A : Type 0} → ℕ → (A → Bool) → ℕ → Ptr → Ptr → Cmd A Ptr
cut_loop k same zero head ret h = out_of_fuel
cut_loop k same (suc f) head ret h =
    if ret == null
    then ok head h
    else and_then (load ret h) λ n h'.
      if same n.item then unlink k head ret n.next h' else cut_loop k same f head n.next h'

-- Takes out the first node whose item is `same`.
unfoldable pub cut : {A : Type 0} → ℕ → (A → Bool) → Ptr → Cmd A Ptr
unfolding cut_loop
cut k same head h = if head == null then ok null h else cut_loop k same k head head h

-- `p` is the address that `malloc` has returned.
unfoldable pub new_node : {A : Type 0} → Ptr → A → Cmd A (Unit {0})
new_node p item = store p (node item null null)

unfoldable pub link_head : {A : Type 0} → Ptr → A → Ptr → Cmd A Ptr
unfolding new_node
link_head p item head h = and_then (new_node p item h) λ _ h'.
    if head == null
    then ok p h'
    else and_then (set_prev head p h') λ _ h₂. and_then (set_next p head h₂) λ _. ok p

unfoldable pub link_tail : {A : Type 0} → ℕ → Ptr → A → Ptr → Cmd A Ptr
unfolding new_node
link_tail k p item head h = and_then (new_node p item h) λ _ h'.
    if head == null
    then ok p h'
    else and_then (go_to_last k head h')
        λ temp h₂. and_then (set_next temp p h₂) λ _ h₃. and_then (set_prev p temp h₃) λ _. ok head

-- The item of the first node that is `same`, with its position counted from `i`.
unfoldable pub find_node : {A : Type 0} → ℕ → (A → Bool) → ℕ → Ptr → Cmd A (Option (ℕ × A))
find_node zero same i p h = out_of_fuel
find_node (suc k) same i p h =
    if p == null
    then ok none h
    else and_then (load p h)
        λ n h'. if same n.item then ok (some (i, n.item)) h' else find_node k same (i + 1) n.next h'
