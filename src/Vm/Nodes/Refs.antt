-- ===== src/Vm/Nodes/Refs.antt =====
-- `clock_list_update_ref` of p3/clock_list.c against `update_ref`.
use csci4730_operating_syste.Base.{
  ℕ, zero, suc, ◌≡◌, refl, false, ◌||◌, some, [], ◌∷◌, arith, ◌==◌, if◌then◌else◌, ap, sym, ◌∙◌,
  length, ◌<◌, Bool-cases, inl, inr,
}
use csci4730_operating_syste.Vm.Replacement.{ClockNode, update_ref}
use csci4730_operating_syste.Vm.Nodes.{Ptr, null, node, Heap, Run, ok, write}
use csci4730_operating_syste.Vm.Nodes.Lists.{update_loop, clock_list_update_ref}
use csci4730_operating_syste.Vm.Nodes.Seg.{Cells, has, first, Seg, frame-write}
use csci4730_operating_syste.Vm.Nodes.Ends.{load_node, write_ne, write_self}
use csci4730_operating_syste.Vm.Nodes.Abstract.{IsList, values, Returns, Leaves-Returns}

abbrev marked : ℕ → ℕ → Cells ClockNode → Cells ClockNode
marked x ref [] = []
marked x ref ((p, n) ∷ xs) =
    let rest = marked x ref xs in
    if n.frame == x then (p, record n { ref = ref }) ∷ xs else (p, n) ∷ rest

marked-has : (x ref : ℕ) (a : Ptr) (xs : Cells ClockNode) → has a (marked x ref xs) ≡ has a xs
marked-has x ref a [] = refl
marked-has x ref a ((p, n) ∷ xs) =
    let rest = marked-has x ref a xs in
    elim (Bool-cases (n.frame == x)) [
      | inl hit ↦ rw hit refl
      | inr miss ↦ rw miss (ap (λ b. (a == p) || b) rest)
    ]

marked-first : (x ref : ℕ) (xs : Cells ClockNode) → first (marked x ref xs) null ≡ first xs null
marked-first x ref [] = refl
marked-first x ref ((p, n) ∷ xs) = elim (Bool-cases (n.frame == x)) [
  | inl hit ↦ rw hit refl
  | inr miss ↦ rw miss refl
]

marked-update_ref :
    (x ref : ℕ) (xs : Cells ClockNode) → values (marked x ref xs) ≡ update_ref (values xs) x ref
unfolding update_ref
marked-update_ref x ref [] = refl
marked-update_ref x ref ((p, n) ∷ xs) =
    let rest = marked-update_ref x ref xs in
    elim (Bool-cases (n.frame == x)) [
      | inl hit ↦ rw hit refl
      | inr miss ↦ rw miss (ap (λ vs. n ∷ vs) rest)
    ]

-- The loop leaves the marked cells, and all other nodes as they were.
abbrev Marks :
    Run ClockNode Ptr → Heap ClockNode → Ptr → Ptr → Cells ClockNode → Cells ClockNode → Type 0
Marks m h head before xs ys =
    (g : Heap ClockNode) × (m ≡ ok head g)
    × Seg g before ys null
    × ((a : Ptr) → has a xs ≡ false → g a ≡ h a)

update_loop-marked :
    (k head x ref : ℕ) (h : Heap ClockNode) (before : Ptr) (xs : Cells ClockNode)
    → Seg h before xs null
    → length xs < k
    → Marks (update_loop k head (first xs null) x ref h) h head before xs (marked x ref xs)
unfolding update_loop
update_loop-marked zero head x ref h before xs s enough = elim enough [ ]
update_loop-marked (suc k) head x ref h before [] s enough = (h, refl, tt, λ a i. refl)
update_loop-marked (suc k) head x ref h before ((p, n) ∷ xs) (e, ne, out, s) enough =
    let (g, run, s', same) = update_loop-marked k head x ref h p xs s (omega (arith, enough)) in
    let n' = node (record n { ref = ref }) (first xs null) before in
    let at = load_node h p _ e ne in
    elim (Bool-cases (n.frame == x)) [
      | inl hit ↦ rw hit (
        write h p n',
        rw (at, hit) (ground (arith, ne)),
        (write_self h p n', ne, out, frame-write h p null xs p n' s out),
        λ a i. write_ne h p a n' (ground (arith, i)),
      )
      | inr miss ↦ rw miss (
        g,
        rw (at, miss) (ground (arith, ne, run)),
        (
          same p out ∙ e ∙ ap (λ f. some (node n f before)) (sym (marked-first x ref xs)),
          ne,
          marked-has x ref p xs ∙ out,
          s',
        ),
        λ a i. same a (ground (arith, i)),
      )
    ]

-- On a list at `head` that is linked both ways, with fuel above its length, `clock_list_update_ref`
-- returns without a fault the head of a list, linked both ways, that holds what `update_ref` says.
pub clock_list_update_ref-update_ref :
    (k head x ref : ℕ) (h : Heap ClockNode) (xs : Cells ClockNode)
    → IsList h head xs
    → length xs < k
    → Returns (clock_list_update_ref k head x ref h) (update_ref (values xs) x ref)
unfolding clock_list_update_ref
clock_list_update_ref-update_ref k head x ref h xs (e, s) enough = rw e (
    let (g, run, s', same) = update_loop-marked k (first xs null) x ref h null xs s enough in
    Leaves-Returns _ (marked x ref xs) _
      (g, run ∙ ap (λ p. ok p g) (sym (marked-first x ref xs)), s') (marked-update_ref x ref xs))
