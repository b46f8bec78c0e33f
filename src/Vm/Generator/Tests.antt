-- ===== src/Vm/Generator/Tests.antt =====
-- Inputs that p3/input_gen.c prints.
use csci4730_operating_syste.Base.{ℕ, ◌+◌, ◌*◌, ◌≡◌, refl, some, List, arith, codes, pos, true}
use csci4730_operating_syste.Stdio.{Text, digits, decimal, hex_4}
use csci4730_operating_syste.Vm.Tables.{Pte, Ipte, Vm}
use csci4730_operating_syste.Vm.Generator.{
  Rand, letter, make_line, make_lines, print_line, print_lines, print_header, generate,
}
use csci4730_operating_syste.Vm.Generator.Valid.{replay}
use csci4730_operating_syste.Vm.Generator.Served.{simulate-generate}
use csci4730_operating_syste.Vm.Requests.{Report}
use csci4730_operating_syste.Vm.Requests.Reading.{Variables, served, simulate}
use csci4730_operating_syste.Vm.Requests.Spec.{observe_all}

-- Numbers that are a little random.
abbrev rolled : Rand
rolled k = k * 7 + 3

abbrev junk_pte : ℕ → ℕ → Pte
junk_pte p v = record { valid = true; pfn = 9; dirty = true }

abbrev zero_ipte : ℕ → Ipte
zero_ipte f = record { pid = 0; vpn = 0 }

abbrev unset : Variables
unset = record { pid = pos 0; type = 0; addr = pos 0; byte = 0 }

generate_two :
    generate 4 2 2 rolled ≡ some (codes "# PAGES: 4, # PROCS: 2\n1 R 0x0211\n1 R 0x022d\n")
unfolding generate make_lines make_line letter print_lines print_line print_header decimal digits
    hex_4
generate_two = refl

simulate-generate_example :
    (text : Text) × (reports : List Report) × (s' : Vm) × (generate 4 2 5 rolled ≡ some text)
    × (simulate 2 2 junk_pte zero_ipte (λ k. 0) unset text ≡ served reports s')
    × (observe_all reports ≡ replay (make_lines 4 2 rolled 5 0) (λ p q. b'A'))
simulate-generate_example =
    simulate-generate 2 4 2 5 2 junk_pte zero_ipte (λ k. 0) unset rolled (omega arith)
      (omega arith, omega arith) (omega arith, omega arith) (omega arith, omega arith)
      (λ f lt. (omega arith, omega arith))
