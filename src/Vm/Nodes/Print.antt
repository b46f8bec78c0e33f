-- ===== src/Vm/Nodes/Print.antt =====
-- The printing of the lists of p3/list.c and p3/clock_list.c, and p3/list_test.c. `k` is the fuel of
-- each loop.
use csci4730_operating_syste.Base.{ℕ, zero, suc, [], ◌++◌, ◌==◌, if◌then◌else◌, codes}
use csci4730_operating_syste.Stdio.{Text, decimal}
use csci4730_operating_syste.Vm.Replacement.{ClockNode}
use csci4730_operating_syste.Vm.Nodes.{
  Ptr, null, ok, out_of_fuel, Cmd, and_then, ◌>>=◌, load, go_to_last,
}
use csci4730_operating_syste.Vm.Nodes.Lists.{list_insert_head, list_insert_tail, list_remove_head}

module _ {A : Type 0} (show : A → Text) where
  -- The loops that print each item and go on with `next` or with `prev`.
  unfoldable pub print_next : ℕ → Ptr → Cmd A Text
  print_next zero p h = out_of_fuel
  print_next (suc k) p h =
      if p == null
      then ok [] h
      else and_then (load p h)
          λ n h'. and_then (print_next k n.next h') λ rest. ok (show n.item ++ rest)

  unfoldable pub print_prev : ℕ → Ptr → Cmd A Text
  print_prev zero p h = out_of_fuel
  print_prev (suc k) p h =
      if p == null
      then ok [] h
      else and_then (load p h)
          λ n h'. and_then (print_prev k n.prev h') λ rest. ok (show n.item ++ rest)

  unfoldable pub print_forward : ℕ → Ptr → Cmd A Text
  print_forward k head h =
      and_then (print_next k head h) λ items. ok (codes "Forward: " ++ (items ++ codes "\n"))

  unfoldable pub print_reverse : ℕ → Ptr → Cmd A Text
  print_reverse k head h =
      if head == null
      then ok [] h
      else and_then (go_to_last k head h) λ temp h'.
        and_then (print_prev k temp h') λ items. ok (codes "Reverse: " ++ (items ++ codes "\n"))

-- `printf("%d ", ...)` and `printf("[%d, %d] ", ...)`
abbrev pub show_item : ℕ → Text
show_item x = decimal x ++ codes " "

abbrev pub show_clock : ClockNode → Text
show_clock n = codes "[" ++ (decimal n.frame ++ (codes ", " ++ (decimal n.ref ++ codes "] ")))

unfoldable pub list_print : ℕ → Ptr → Cmd ℕ Text
list_print k head = print_forward show_item k head

unfoldable pub list_reverse_print : ℕ → Ptr → Cmd ℕ Text
list_reverse_print k head = print_reverse show_item k head

unfoldable pub clock_list_print : ℕ → Ptr → Cmd ClockNode Text
clock_list_print k head = print_forward show_clock k head

unfoldable pub clock_list_reverse_print : ℕ → Ptr → Cmd ClockNode Text
clock_list_reverse_print k head = print_reverse show_clock k head

-- `main` of p3/list_test.c; `a` to `d` are the addresses that `malloc` returns.
unfoldable pub list_test : ℕ → (a b c d : Ptr) → Cmd ℕ Text
unfolding list_print
list_test k a b c d = do
  head ← list_insert_head a null 2
  first_line ← list_print k head
  head ← list_insert_head b head 4
  second_line ← list_print k head
  head ← list_insert_tail k c head 6
  third_line ← list_print k head
  head ← list_insert_tail k d head 8
  fourth_line ← list_print k head
  head ← list_remove_head head
  fifth_line ← list_print k head
  ok (first_line ++ (second_line ++ (third_line ++ (fourth_line ++ fifth_line))))
