-- ===== src/Vm/Nodes/Tests.antt =====
-- The lists of p3/list.c and p3/clock_list.c on lists of two and three nodes.
use csci4730_operating_syste.Base.{
  List, ℕ, ◌≡◌, refl, none, some, [], ◌∷◌, codes, arith, ◌==◌, if◌then◌else◌,
}
use csci4730_operating_syste.Vm.Replacement.{
  clock, ClockNode, clock_node, Queues, note_hit, lru_policy,
}
use csci4730_operating_syste.Vm.Nodes.{
  node, Heap, ok, link_head, link_tail, cut_head, clear_prev, new_node, load, set_next, set_prev,
  go_to_last,
}
use csci4730_operating_syste.Vm.Nodes.Seg.{Cells}
use csci4730_operating_syste.Stdio.{decimal, digits}
use csci4730_operating_syste.Vm.Nodes.Print.{
  print_next, print_forward, list_print, list_reverse_print, clock_list_print,
  clock_list_reverse_print, list_test,
}
use csci4730_operating_syste.Vm.Nodes.Printed.{list_reverse_print-reverse}
use csci4730_operating_syste.Vm.Nodes.Lists.{list_insert_head, list_insert_tail, list_remove_head}
use csci4730_operating_syste.Vm.Nodes.Abstract.{IsList, Returns}
use csci4730_operating_syste.Vm.Nodes.Refine.{lru_hit, lru_hit-note_hit}
use csci4730_operating_syste.Vm.Nodes.Clock.{clock_walk, clock_walk-clock}

-- The list 7, 5, 9.
abbrev ints : Heap ℕ
ints p =
    if p == 10
    then some (node 7 20 0)
    else if p == 20
    then some (node 5 30 10)
    else if p == 30
    then some (node 9 0 20)
    else none

abbrev cells : Cells ℕ
cells = (10, 7) ∷ (20, 5) ∷ (30, 9) ∷ []

ints-IsList : IsList ints 10 cells
ints-IsList = ground arith

abbrev lone : Heap ℕ
lone p = if p == 10 then some (node 7 0 0) else none

abbrev clocks : Heap ClockNode
clocks p =
    if p == 10
    then some (node (clock_node 0 1) 20 0)
    else if p == 20
    then some (node (clock_node 1 0) 0 10)
    else none

abbrev clock_cells : Cells ClockNode
clock_cells = (10, clock_node 0 1) ∷ (20, clock_node 1 0) ∷ []

clocks-IsList : IsList clocks 10 clock_cells
clocks-IsList = ground arith

abbrev queues : Queues
queues = record { turns = 0; head = 7 ∷ 5 ∷ 9 ∷ []; clock_head = [] }

lru_hit-note_hit_example : Returns (lru_hit 4 40 10 5 ints) (note_hit lru_policy 5 queues).head
lru_hit-note_hit_example =
    lru_hit-note_hit 4 40 10 5 ints cells queues ints-IsList (ground arith) (omega arith) refl

clock_walk-clock_example :
    (v : ClockNode) × (vs : List ClockNode) × (clock
        (record queues { clock_head = clock_node 0 1 ∷ clock_node 1 0 ∷ [] })
      ≡ some (v.frame, record queues { clock_head = v ∷ vs }))
    × Returns (clock_walk 4 (40 ∷ 50 ∷ []) 10 clocks) (v ∷ vs)
clock_walk-clock_example =
    clock_walk-clock 4 (40 ∷ 50 ∷ []) 10 clocks 10 (clock_node 0 1) ((20, clock_node 1 0) ∷ [])
      queues clocks-IsList (ground arith) refl (omega arith)

list_reverse_print-reverse_example :
    (list_print 4 10 ints ≡ ok (codes "Forward: 7 5 9 \n") ints)
    × (list_reverse_print 4 10 ints ≡ ok (codes "Reverse: 9 5 7 \n") ints)
    × (clock_list_print 4 10 clocks ≡ ok (codes "Forward: [0, 1] [1, 0] \n") clocks)
    × (clock_list_reverse_print 4 10 clocks ≡ ok (codes "Reverse: [1, 0] [0, 1] \n") clocks)
unfolding decimal digits
list_reverse_print-reverse_example =
    list_reverse_print-reverse 4 ints 10 cells clocks 10 clock_cells ints-IsList (omega arith)
      clocks-IsList (omega arith)

-- What p3/list_test.c prints.
printed_by_test :
    (h : Heap ℕ) × (list_test 8 10 20 30 40 (λ p. none)
      ≡ ok
          (codes
            "Forward: 2 \nForward: 4 2 \nForward: 4 2 6 \nForward: 4 2 6 8 \nForward: 2 6 8 \n")
          h)
unfolding list_test list_print print_forward print_next list_insert_head list_insert_tail
    list_remove_head link_head link_tail cut_head clear_prev new_node load set_next set_prev
    go_to_last decimal digits
printed_by_test = (_, refl)
