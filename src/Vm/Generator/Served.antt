-- ===== src/Vm/Generator/Served.antt =====
-- p3/vm.c serves every input that p3/input_gen.c prints.
use csci4730_operating_syste.Base.{
  ℕ, ◌<◌, ◌≤◌, ◌≡◌, refl, false, some, List, [], ◌∷◌, ◌++◌, arith, ◌==◌, ◌∙◌, sym, ap, All,
  Bool-cases, inl, inr, length, length-append, drop,
}
use mathlib.Core.List.{append_assoc}
use csci4730_operating_syste.Stdio.{Text, fgets, read_lines}
use csci4730_operating_syste.Vm.Tables.{Pte, Ipte, Vm}
use csci4730_operating_syste.Vm.Generator.{
  Rand, Line, make_lines, print_lines, print_header, generate,
}
use csci4730_operating_syste.Stdio.Lines.{fgets-line, drop-length}
use csci4730_operating_syste.Vm.Generator.Split.{IsValid, read_lines-print_lines}
use csci4730_operating_syste.Vm.Generator.Valid.{
  make_lines-IsValid, accesses, replay, read_inputs-print_line, ideal_run-replay,
}
use csci4730_operating_syste.Vm.Requests.{Report, run}
use csci4730_operating_syste.Vm.Requests.Reading.{
  Variables, scan_header, served, read_inputs, ending, with_sizes, serve_from, simulate,
}
use csci4730_operating_syste.Vm.Requests.Spec.{inputs, observe_all}
use csci4730_operating_syste.Vm.Requests.Start.{start, start-ideal_run}
use csci4730_operating_syste.Vm.Generator.Header.{
  header_body, header-OneLine, header_short, print_header-header_body, scan_header-print_header,
}

module _ (max_pfn number : ℕ) (junk_pte : ℕ → ℕ → Pte) (junk_ipte : ℕ → Ipte) (junk_byte : ℕ → ℕ)
    (v : Variables) where
  simulate_step :
      (s : Text)
      → 0 < length s
      → simulate max_pfn number junk_pte junk_ipte junk_byte v s
        ≡ with_sizes max_pfn number junk_pte junk_ipte junk_byte v
            (drop (length (fgets 255 s)) s)
            (scan_header (fgets 255 s))
  unfolding simulate
  simulate_step [] lt = elim lt [ ]
  simulate_step (c ∷ s) lt = refl

  -- The header is read, and the lines behind it are left.
  simulate_header :
      (max_vpn num_proc : ℕ) (rest : Text)
      → max_vpn ≤ 256
      → num_proc ≤ 256
      → simulate max_pfn number junk_pte junk_ipte junk_byte v
          (print_header max_vpn num_proc ++ rest)
        ≡ serve_from max_pfn number junk_pte junk_ipte junk_byte v rest
            (start max_pfn max_vpn num_proc number junk_pte junk_ipte junk_byte)
  simulate_header max_vpn num_proc rest le le' =
      let body = header_body max_vpn num_proc in
      let header = print_header max_vpn num_proc in
      let e = print_header-header_body max_vpn num_proc in
      let whole : header ++ rest ≡ body ++ b'\n' ∷ rest =
        ap (λ l. l ++ rest) e ∙ append_assoc body (b'\n' ∷ []) rest in
      let got : fgets 255 (header ++ rest) ≡ header =
        ap (fgets 255) whole
        ∙ fgets-line 255 body rest (header-OneLine max_vpn num_proc)
            (header_short max_vpn num_proc le le')
        ∙ sym e in
      let left : drop (length (fgets 255 (header ++ rest))) (header ++ rest) ≡ rest =
        ap (λ l. drop (length l) (header ++ rest)) got ∙ drop-length header rest in
      let some_bytes : 0 < length (header ++ rest) =
        omega (arith, length-append header rest, ap length e, length-append body (b'\n' ∷ [])) in
      simulate_step (header ++ rest) some_bytes
      ∙ ap
          (λ l.
            with_sizes max_pfn number junk_pte junk_ipte junk_byte v
              (drop (length (fgets 255 (header ++ rest))) (header ++ rest)) (scan_header l))
          got
      ∙ ap (λ l. with_sizes max_pfn number junk_pte junk_ipte junk_byte v l (scan_header header))
          left
      ∙ ap (with_sizes max_pfn number junk_pte junk_ipte junk_byte v rest)
          (scan_header-print_header max_vpn num_proc)

  serve_lines :
      (max_vpn num_proc : ℕ) (lines : List Line)
      → max_vpn ≤ 256
      → num_proc ≤ 256
      → All (IsValid max_vpn num_proc) lines
      → read_inputs v (read_lines (length (print_lines lines)) 255 (print_lines lines))
        ≡ inputs (accesses v.byte lines)
  serve_lines max_vpn num_proc lines le le' valid =
      ap (read_inputs v) (
        read_lines-print_lines max_vpn num_proc le le' (length (print_lines lines)) lines valid
          (omega arith))
      ∙ read_inputs-print_line max_vpn num_proc le v lines valid

-- The text that the generator prints for at least one page and one process.
generate_text :
    (max_vpn num_proc req_num : ℕ) (rand : Rand)
    → 1 ≤ max_vpn
    → 1 ≤ num_proc
    → generate max_vpn num_proc req_num rand
      ≡ some (
          print_header max_vpn num_proc ++ print_lines (make_lines max_vpn num_proc rand req_num 0))
unfolding generate
generate_text max_vpn num_proc req_num rand pages processes =
    let some_page : (max_vpn == 0) ≡ false = ground arith in
    let some_process : (num_proc == 0) ≡ false = ground arith in
    elim (Bool-cases (req_num == 0)) [
      | inl e ↦ rw (e, generate) refl
      | inr e ↦ rw (e, some_page, some_process, generate) refl
    ]

-- If there are from 1 to 256 frames, pages and processes, the policy is known, and the inverted table
-- comes from `malloc` with entries within the tables (zeros, for example), then whatever `rand`
-- returns, `input_gen` prints a text that `vm` reads and serves to the end with no fault. It
-- serves exactly the requests that were made up, refuses none of them, and for each read shows what
-- was written last to the page, or 'A'.
pub simulate-generate :
    (max_pfn max_vpn num_proc req_num number : ℕ) (junk_pte : ℕ → ℕ → Pte) (junk_ipte : ℕ → Ipte)
    (junk_byte : ℕ → ℕ) (v : Variables) (rand : Rand)
    → number ≤ 3
    → (1 ≤ max_pfn) × (max_pfn ≤ 256)
    → (1 ≤ max_vpn) × (max_vpn ≤ 256)
    → (1 ≤ num_proc) × (num_proc ≤ 256)
    → ((f : ℕ) → f < max_pfn → ((junk_ipte f).pid < num_proc) × ((junk_ipte f).vpn < max_vpn))
    → (text : Text) × (reports : List Report) × (s' : Vm) × (generate max_vpn num_proc req_num rand
        ≡ some text)
      × (simulate max_pfn number junk_pte junk_ipte junk_byte v text ≡ served reports s')
      × (observe_all reports ≡ replay (make_lines max_vpn num_proc rand req_num 0) (λ p q. b'A'))
simulate-generate max_pfn max_vpn num_proc req_num number junk_pte junk_ipte junk_byte v rand le f
      pages processes known =
    let lines = make_lines max_vpn num_proc rand req_num 0 in
    let valid = make_lines-IsValid max_vpn num_proc rand req_num 0 (omega arith) (omega arith) in
    elim (start-ideal_run max_pfn max_vpn num_proc number junk_pte junk_ipte junk_byte
      (accesses v.byte lines) known) [
        | inr (refused, _) ↦ absurd (refused (le, f, pages, processes))
        | inl (_, (s, e, (reports, s', runs, seen))) ↦ (
          print_header max_vpn num_proc ++ print_lines lines,
          reports,
          s',
          generate_text max_vpn num_proc req_num rand pages.0 processes.0,
          simulate_header max_pfn number junk_pte junk_ipte junk_byte v max_vpn num_proc
                (print_lines lines) pages.1 processes.1
              ∙ ap (serve_from max_pfn number junk_pte junk_ipte junk_byte v (print_lines lines)) e
              ∙ ap (λ xs. ending (run xs s))
                  (serve_lines max_pfn number junk_pte junk_ipte junk_byte v max_vpn num_proc lines
                    pages.1 processes.1 valid)
              ∙ ap ending runs,
          seen ∙ ideal_run-replay max_vpn num_proc pages.1 lines v.byte (λ p q. b'A') valid,
        )
      ]
