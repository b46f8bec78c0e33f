-- ===== src/Web/Queue/Control.antt =====
-- `main` of p2/webserver_multi.c, and `thread_control` from the end of the listener on.
use csci4730_operating_syste.Base.{
  ℕ, zero, suc, ◌+◌, ◌≤◌, ◌<◌, ◌≡◌, refl, Bool, true, false, Option, none, some, List, [], ◌∷◌,
  arith, ◌==◌, if◌then◌else◌, ℤ, pos, negsuc, ap, ◌∙◌, Bool-cases, inl, inr, not, length,
}
use native.Mathlib.Decide.{dec_lt}
use csci4730_operating_syste.Web.Server.{Options, settings}
use csci4730_operating_syste.Web.Queue.{update, Consumer, idle, stopped, System, started}

-- A negative number of threads is undefined as the length of an array, and taken as 0.
abbrev pub pool_size : ℤ → ℕ
pool_size (pos n) = n
pool_size (negsuc n) = 0

-- `main`, up to the threads that `thread_control` has created: their number, and the state; `none` is
-- the usage. `request` is what lies in the buffer.
unfoldable pub multi_main : Options → (ℕ → ℕ) → Option (ℕ × System)
multi_main o request = elim (settings o) [
  | none ↦ none
  | some s ↦ some (pool_size s.num_thread, started request)
]

-- `pthread_tryjoin_np` returns 0.
abbrev pub has_ended : Consumer → Bool
has_ended stopped = true
has_ended c = false

-- The loop of `thread_control` over the pool, from thread `i` on with `k` rounds left: the pool, and
-- the threads that go on without a place in it.
unfoldable pub join_pool : ℕ → ℕ → (ℕ → Consumer) → (ℕ → Consumer) × List Consumer
join_pool zero i pool = (pool, [])
join_pool (suc k) i pool =
    let rest = join_pool k (i + 1) (if has_ended (pool i) then pool else update pool i idle) in
    (rest.0, if has_ended (pool i) then rest.1 else pool i ∷ rest.1)

-- The threads from thread `i` on, `k` in number.
abbrev pub threads : ℕ → ℕ → (ℕ → Consumer) → List Consumer
threads zero i pool = []
threads (suc k) i pool = pool i ∷ threads k (i + 1) pool

abbrev pub filter {ℓ} : {A : Type ℓ} → (A → Bool) → List A → List A
filter p [] = []
filter p (x ∷ xs) = let rest = filter p xs in if p x then x ∷ rest else rest

-- Those of them that have not ended.
abbrev pub alive : ℕ → ℕ → (ℕ → Consumer) → List Consumer
alive k i pool = filter (λ c. not (has_ended c)) (threads k i pool)

threads-update :
    (k i j : ℕ) (pool : ℕ → Consumer) (c : Consumer)
    → j < i
    → threads k i (update pool j c) ≡ threads k i pool
threads-update zero i j pool c lt = refl
threads-update (suc k) i j pool c lt =
    let same : update pool j c i ≡ pool i = ground (arith, lt) in
    let rest = threads-update k (i + 1) j pool c (omega arith) in rw (same, rest) refl

step_pool : ℕ → (ℕ → Consumer) → ℕ → Consumer
step_pool i pool = if has_ended (pool i) then pool else update pool i idle

threads_step :
    (k i : ℕ) (pool : ℕ → Consumer) → threads k (i + 1) (step_pool i pool) ≡ threads k (i + 1) pool
unfolding step_pool
threads_step k i pool = elim (Bool-cases (has_ended (pool i))) [
  | inl e ↦ rw e refl
  | inr e ↦ rw e (threads-update k (i + 1) i pool idle (omega arith))
]

step_pool_other : (i j : ℕ) (pool : ℕ → Consumer) → (j == i) ≡ false → step_pool i pool j ≡ pool j
unfolding step_pool
step_pool_other i j pool ne = elim (Bool-cases (has_ended (pool i))) [
  | inl e ↦ rw e refl
  | inr e ↦ rw (e, ne) refl
]

step_pool_here :
    (i : ℕ) (pool : ℕ → Consumer)
    → step_pool i pool i ≡ (if has_ended (pool i) then pool i else idle)
unfolding step_pool
step_pool_here i pool = elim (Bool-cases (has_ended (pool i))) [
  | inl e ↦ rw e refl
  | inr e ↦ rw e (ground arith)
]

join_pool-step :
    (k i : ℕ) (pool : ℕ → Consumer)
    → join_pool (suc k) i pool ≡ (
      (join_pool k (i + 1) (step_pool i pool)).0,
      if has_ended (pool i)
          then (join_pool k (i + 1) (step_pool i pool)).1
          else pool i ∷ (join_pool k (i + 1) (step_pool i pool)).1,
    )
unfolding join_pool step_pool
join_pool-step k i pool = refl

join_pool_before : (k i j : ℕ) (pool : ℕ → Consumer) → j < i → (join_pool k i pool).0 j ≡ pool j
unfolding join_pool
join_pool_before zero i j pool lt = refl
join_pool_before (suc k) i j pool lt =
    let other : (j == i) ≡ false = ground (arith, lt) in
    ap (λ (r : (ℕ → Consumer) × List Consumer). r.0 j) (join_pool-step k i pool)
    ∙ join_pool_before k (i + 1) j (step_pool i pool) (omega arith)
    ∙ step_pool_other i j pool other

join_pool-at :
    (k i j : ℕ) (pool : ℕ → Consumer)
    → i ≤ j
    → j < i + k
    → (join_pool k i pool).0 j ≡ (if has_ended (pool j) then pool j else idle)
join_pool-at zero i j pool low high = absurd (omega arith)
join_pool-at (suc k) i j pool low high =
    let first = ap (λ (r : (ℕ → Consumer) × List Consumer). r.0 j) (join_pool-step k i pool) in
    elim (dec_lt i j) [
      | yes later ↦
          let other : (j == i) ≡ false = ground (arith, later) in
          first
          ∙ join_pool-at k (i + 1) j (step_pool i pool) (omega arith) (omega arith)
          ∙ ap (λ c. if has_ended c then c else idle) (step_pool_other i j pool other)
      | no past ↦
          let here : j ≡ i = omega arith in
          first
          ∙ join_pool_before k (i + 1) j (step_pool i pool) (omega arith)
          ∙ ap (step_pool i pool) here
          ∙ step_pool_here i pool
          ∙ ap (λ n. if has_ended (pool n) then pool n else idle) (omega arith)
    ]

join_pool-alive : (k i : ℕ) (pool : ℕ → Consumer) → (join_pool k i pool).1 ≡ alive k i pool
unfolding join_pool
join_pool-alive zero i pool = refl
join_pool-alive (suc k) i pool =
    let rest =
      join_pool-alive k (i + 1) (step_pool i pool)
      ∙ ap (filter (λ c. not (has_ended c))) (threads_step k i pool) in
    let first = ap (λ (r : (ℕ → Consumer) × List Consumer). r.1) (join_pool-step k i pool) in
    elim (Bool-cases (has_ended (pool i))) [
      | inl e ↦ first ∙ rw e rest
      | inr e ↦ first ∙ rw e (ap (λ cs. pool i ∷ cs) rest)
    ]

-- Places that are filled anew where a thread has not ended have as many running threads.
alive-refilled :
    (k i : ℕ) (pool pool' : ℕ → Consumer)
    → ((j : ℕ) → i ≤ j → j < i + k → pool' j ≡ (if has_ended (pool j) then pool j else idle))
    → length (alive k i pool') ≡ length (alive k i pool)
alive-refilled zero i pool pool' same = refl
alive-refilled (suc k) i pool pool' same =
    let rest =
      alive-refilled k (i + 1) pool pool'
        λ j low high. same j (omega (arith, low)) (omega (arith, high)) in
    let first = same i (omega arith) (omega arith) in
    elim (Bool-cases (has_ended (pool i))) [
      | inl e ↦ let stays : pool' i ≡ pool i = first ∙ rw e refl in rw (stays, e) rest
      | inr e ↦ let new : pool' i ≡ idle = first ∙ rw e refl in rw (new, e) (ap suc rest)
    ]

-- When the listener has ended, the loop of `thread_control` that a comment calls crash handling
-- does not start a thread in place of one that has crashed, and starts one for each that still
-- runs: the place of a thread that has ended stays as it is, every other place gets a new thread,
-- so that as many places as before have a thread that runs, and the threads that go on without
-- a place are exactly those that had not ended, each as it was.
pub join_pool-reversed :
    (n : ℕ) (pool : ℕ → Consumer)
    → ((j : ℕ) → j < n → (join_pool n 0 pool).0 j ≡ (if has_ended (pool j) then pool j else idle))
      × (length (alive n 0 (join_pool n 0 pool).0) ≡ length (alive n 0 pool))
      × ((join_pool n 0 pool).1 ≡ alive n 0 pool)
join_pool-reversed n pool = (
  λ j lt. join_pool-at n 0 j pool (omega arith) (omega arith),
  alive-refilled n 0 pool (join_pool n 0 pool).0
      λ j low high. join_pool-at n 0 j pool (omega arith) (omega (arith, high)),
  join_pool-alive n 0 pool,
)
