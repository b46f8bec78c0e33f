-- ===== src/Vm/Nodes/Lists.antt =====
-- p3/list.c and p3/clock_list.c: the operations by their names. `k` is the fuel of each loop, and `p` the
-- address that `malloc` has returned.
use csci4730_operating_syste.Base.{
  ℕ, zero, suc, Option, none, some, ◌==◌, if◌then◌else◌, ℤ, pos, negsuc,
}
use csci4730_operating_syste.Vm.Replacement.{ClockNode, clock_node}
use csci4730_operating_syste.Vm.Nodes.{
  Ptr, null, ok, out_of_fuel, Cmd, and_then, write, load, cut_tail, cut_head, cut, link_head,
  link_tail, find_node,
}

unfoldable pub list_remove_tail : ℕ → Ptr → Cmd ℕ Ptr
list_remove_tail k head = cut_tail k head

unfoldable pub list_remove_head : Ptr → Cmd ℕ Ptr
list_remove_head head = cut_head head

unfoldable pub list_remove : ℕ → Ptr → ℕ → Cmd ℕ Ptr
list_remove k head x = cut k (λ item. x == item) head

unfoldable pub list_insert_head : Ptr → Ptr → ℕ → Cmd ℕ Ptr
list_insert_head p head x = link_head p x head

unfoldable pub list_insert_tail : ℕ → Ptr → Ptr → ℕ → Cmd ℕ Ptr
list_insert_tail k p head x = link_tail k p x head

abbrev pub index_of : {A : Type 0} → Option (ℕ × A) → ℤ
index_of none = negsuc 0
index_of (some (i, x)) = pos i

unfoldable pub list_find : ℕ → Ptr → ℕ → Cmd ℕ ℤ
list_find k head x h =
    and_then (find_node k (λ item. item == x) 0 head h) λ found. ok (index_of found)

unfoldable pub clock_list_remove_tail : ℕ → Ptr → Cmd ClockNode Ptr
clock_list_remove_tail k head = cut_tail k head

unfoldable pub clock_list_remove_head : Ptr → Cmd ClockNode Ptr
clock_list_remove_head head = cut_head head

unfoldable pub clock_list_remove : ℕ → Ptr → ℕ → Cmd ClockNode Ptr
clock_list_remove k head x = cut k (λ item. x == item.frame) head

unfoldable pub clock_list_insert_head : Ptr → Ptr → ℕ → ℕ → Cmd ClockNode Ptr
clock_list_insert_head p head x ref = link_head p (clock_node x ref) head

unfoldable pub clock_list_insert_tail : ℕ → Ptr → Ptr → ℕ → ℕ → Cmd ClockNode Ptr
clock_list_insert_tail k p head x ref = link_tail k p (clock_node x ref) head

unfoldable pub update_loop : ℕ → Ptr → Ptr → ℕ → ℕ → Cmd ClockNode Ptr
update_loop zero head temp x ref h = out_of_fuel
update_loop (suc k) head temp x ref h =
    if temp == null
    then ok head h
    else and_then (load temp h) λ n h'.
      if n.item.frame == x
      then ok head (write h' temp (record n { item = record (n.item) { ref = ref } }))
      else update_loop k head n.next x ref h'

unfoldable pub clock_list_update_ref : ℕ → Ptr → ℕ → ℕ → Cmd ClockNode Ptr
unfolding update_loop
clock_list_update_ref k head x ref = update_loop k head head x ref

abbrev pub ref_of : Option (ℕ × ClockNode) → ℤ
ref_of none = negsuc 0
ref_of (some (i, n)) = pos n.ref

-- The reference of the node that holds `x`, and -1 when there is none.
unfoldable pub clock_list_find : ℕ → Ptr → ℕ → Cmd ClockNode ℤ
clock_list_find k head x h =
    and_then (find_node k (λ item. item.frame == x) 0 head h) λ found. ok (ref_of found)

unfoldable pub clock_list_check : Ptr → Cmd ClockNode ℕ
clock_list_check head h = and_then (load head h) λ n. ok n.item.ref
