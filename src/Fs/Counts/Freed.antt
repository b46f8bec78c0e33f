-- ===== src/Fs/Counts/Freed.antt =====
-- The loops of p4 that give back the blocks of a file or a directory.
use csci4730_operating_syste.Base.{
  ℕ, zero, suc, ◌+◌, ◌≤◌, ◌<◌, ◌≡◌, refl, ◌≢◌, Option, none, some, arith, lt→ltb, ap, sym, ◌∙◌,
}
use mathlib.Core.Path.{subst}
use native.Mathlib.Decide.{dec_lt}
use csci4730_operating_syste.Fs.Bitmap.{get_bit}
use csci4730_operating_syste.Fs.State.{FileSystem, max_block}
use csci4730_operating_syste.Fs.Alloc.{give_slot, free_block}
use csci4730_operating_syste.Fs.Alloc.Slots.{give_slot-IsCounted}
use csci4730_operating_syste.Fs.Alloc.Laws.{AreCounted}
use csci4730_operating_syste.Fs.Access.{Junk}
use csci4730_operating_syste.Fs.Directory.{free_blocks, then_do}

-- The `k` blocks from the index `i` on are in the map, in use, and no two are the same.
pub record Owned (k i : ℕ) (blocks : ℕ → ℕ) (s : FileSystem) : Type 0 where
  pub inside : (j : ℕ) → i ≤ j → j < i + k → blocks j < max_block
  pub in_use : (j : ℕ) → i ≤ j → j < i + k → get_bit s.block_map (blocks j) ≡ 1
  pub distinct : (j l : ℕ) → i ≤ j → j < l → l < i + k → blocks j ≢ blocks l

-- They are free, the count has grown by their number, the other blocks are as they were, and so is
-- all else.
pub record Freed (k i : ℕ) (blocks : ℕ → ℕ) (s s' : FileSystem) : Type 0 where
  pub again : AreCounted s'
  pub count : s'.free_block_count ≡ s.free_block_count + k
  pub clear : (j : ℕ) → i ≤ j → j < i + k → get_bit s'.block_map (blocks j) ≡ 0
  pub others :
      (x : ℕ)
      → ((j : ℕ) → i ≤ j → j < i + k → x ≢ blocks j)
      → get_bit s'.block_map x ≡ get_bit s.block_map x
  pub rest : s' ≡ record s { block_map = s'.block_map; free_block_count = s'.free_block_count }

-- `free_block` of a block that is in use.
pub free_block-Freed :
    (i : ℕ) (blocks : ℕ → ℕ) (s : FileSystem)
    → AreCounted s
    → blocks i < max_block
    → get_bit s.block_map (blocks i) ≡ 1
    → (s' : FileSystem) × (free_block (blocks i) s ≡ some s') × Freed 1 i blocks s s'
unfolding free_block
free_block-Freed i blocks s c lt used =
    let b = blocks i in
    let (counted, clear, count, same) =
      give_slot-IsCounted max_block b s.block_map s.free_block_count (omega arith) lt c.blocks in
    (
      record s {
        block_map = (give_slot b s.block_map s.free_block_count).0;
        free_block_count = (give_slot b s.block_map s.free_block_count).1;
      },
      rw (lt→ltb _ _ lt),
      record {
        again = record { inodes = c.inodes; blocks = counted };
        count = omega (arith, count, clear, used);
        clear = λ j low high.
            let here : i ≡ j = omega (arith, low, high) in
            subst (λ l. get_bit (give_slot b s.block_map s.free_block_count).0 (blocks l) ≡ 0) here
              clear;
        others = λ x ne. same x (ne i (omega arith) (omega arith));
        rest = refl;
      },
    )

module _ (k l i : ℕ) (blocks : ℕ → ℕ) (s s₁ : FileSystem) where
  pub Owned-first : Owned (k + l) i blocks s → Owned k i blocks s
  Owned-first o = record {
    inside = λ j low high. o.inside j low (omega (arith, high));
    in_use = λ j low high. o.in_use j low (omega (arith, high));
    distinct = λ j m low lt high. o.distinct j m low lt (omega (arith, high));
  }

  pub Owned-rest : Owned (k + l) i blocks s → Freed k i blocks s s₁ → Owned l (i + k) blocks s₁
  Owned-rest o f = record {
    inside = λ j low high. o.inside j (omega (arith, low)) (omega (arith, high));
    in_use = λ j low high.
        f.others (blocks j) (λ m low' high' e.
          o.distinct m j low' (omega (arith, low, high')) (omega (arith, high)) (sym e))
        ∙ o.in_use j (omega (arith, low)) (omega (arith, high));
    distinct = λ j m low lt high. o.distinct j m (omega (arith, low)) lt (omega (arith, high));
  }

-- Two loops, one behind the other.
pub Freed-both :
    (k l i : ℕ) (blocks : ℕ → ℕ) (s s₁ s₂ : FileSystem)
    → Owned (k + l) i blocks s
    → Freed k i blocks s s₁
    → Freed l (i + k) blocks s₁ s₂
    → Freed (k + l) i blocks s s₂
Freed-both k l i blocks s s₁ s₂ o f g = record {
  again = g.again;
  count = omega (arith, f.count, g.count);
  clear = λ j low high. elim (dec_lt j (i + k)) [
    | yes before ↦
        g.others (blocks j) (λ m low' high' e.
          o.distinct j m low (omega (arith, before, low')) (omega (arith, high')) e)
        ∙ f.clear j low before
    | no past ↦ g.clear j (omega (arith, past)) (omega (arith, high))
  ];
  others = λ x ne.
      g.others x (λ j low high. ne j (omega (arith, low)) (omega (arith, high)))
      ∙ f.others x (λ j low high. ne j low (omega (arith, high)));
  rest =
      g.rest
      ∙ ap
          (λ (t : FileSystem). record t {
            block_map = s₂.block_map;
            free_block_count = s₂.free_block_count;
          })
          f.rest;
}

Freed-none : (i : ℕ) (blocks : ℕ → ℕ) (s : FileSystem) → AreCounted s → Freed 0 i blocks s s
Freed-none i blocks s c = record {
  again = c;
  count = omega arith;
  clear = λ j low high. absurd (omega (arith, low, high));
  others = λ x ne. refl;
  rest = refl;
}

n_step : (k : ℕ) → suc k ≡ 1 + k
n_step k = omega arith

module _ (junk : Junk) where
  pub then_do-same :
      (o : Option FileSystem) {f g : FileSystem → Option FileSystem}
      → ((t : FileSystem) → f t ≡ g t)
      → then_do junk o f ≡ then_do junk o g
  then_do-same none h = refl
  then_do-same (some t) h = h t

  pub free_blocks-same :
      (k i i' : ℕ) (blocks blocks' : ℕ → ℕ) (s : FileSystem)
      → ((j : ℕ) → j < k → blocks (i + j) ≡ blocks' (i' + j))
      → free_blocks junk k i blocks s ≡ free_blocks junk k i' blocks' s
  unfolding free_blocks
  free_blocks-same zero i i' blocks blocks' s same = refl
  free_blocks-same (suc k) i i' blocks blocks' s same =
      let first : blocks i ≡ blocks' i' =
        ap blocks (omega arith) ∙ same 0 (omega arith) ∙ ap blocks' (omega arith) in
      let rest = λ (t : FileSystem). free_blocks-same k (i + 1) (i' + 1) blocks blocks' t λ j lt.
        ap blocks (omega arith) ∙ same (j + 1) (omega (arith, lt)) ∙ ap blocks' (omega arith) in
      ap (λ b. then_do junk (free_block b s) λ t. free_blocks junk k (i + 1) blocks t) first
      ∙ then_do-same (free_block (blocks' i') s) rest

  pub free_blocks-Freed :
      (k i : ℕ) (blocks : ℕ → ℕ) (s : FileSystem)
      → AreCounted s
      → Owned k i blocks s
      → (s' : FileSystem) × (free_blocks junk k i blocks s ≡ some s') × Freed k i blocks s s'
  unfolding free_blocks
  free_blocks-Freed zero i blocks s c o = (s, refl, Freed-none i blocks s c)
  free_blocks-Freed (suc k) i blocks s c o =
      let o' = subst (λ n. Owned n i blocks s) (n_step k) o in
      let (s₁, e, f) =
        free_block-Freed i blocks s c (o.inside i (omega arith) (omega arith))
          (o.in_use i (omega arith) (omega arith)) in
      let (s₂, e', g) =
        free_blocks-Freed k (i + 1) blocks s₁ f.again (Owned-rest 1 k i blocks s s₁ o' f) in
      (
        s₂,
        rw e e',
        subst (λ n. Freed n i blocks s s₂) (sym (n_step k))
            (Freed-both 1 k i blocks s s₁ s₂ o' f g),
      )
