-- ===== src/Web/Queue/Stack.antt =====
-- `producer` and `consumer` of p2/webserver_multi.c when no thread interrupts another: the request
-- buffer is a stack.
use csci4730_operating_syste.Base.{
  ℕ, ◌+◌, ◌-◌, ◌<◌, ◌≤◌, ◌≡◌, refl, arith, ◌==◌, ltb, if◌then◌else◌, true, false, Option, none,
  some, List, [], ◌∷◌, length, ap, ◌∙◌, sym,
}
use mathlib.Core.Path.{subst}
use mathlib.Core.Option.{some-injective}
use native.Mathlib.Decide.{dec_lt}
use csci4730_operating_syste.Web.Queue.{max_request, update, Shared}
use csci4730_operating_syste.Web.Queue.{accepting, System, Reach}
use csci4730_operating_syste.Web.Queue.Runs.{deliver}

-- `producer` from the call to the return; `none` is a wait that does not end.
unfoldable pub producer : ℕ → Shared → Option Shared
producer s m =
    if m.empty == 0
    then none
    else if m.locked
    then none
    else some (record {
      request = update m.request m.full s;
      full = m.full + 1;
      empty = m.empty - 1;
      locked = false;
    })

-- A round of `consumer` up to `process`: the request, and the buffer.
unfoldable pub consumer : Shared → Option (ℕ × Shared)
consumer m =
    if m.full == 0
    then none
    else if m.locked
    then none
    else let semfull = m.full - 1 in
      some (
        m.request semfull,
        record { request = m.request; full = semfull; empty = m.empty + 1; locked = false },
      )

pub data Op : Type 0 where
  arrive : (s : ℕ) → Op
  fetch : Op

abbrev put : Option Shared → (Shared → List ℕ) → List ℕ
put none rest = []
put (some m) rest = rest m

abbrev fetched : Option (ℕ × Shared) → (Shared → List ℕ) → List ℕ
fetched none rest = []
fetched (some (req, m)) rest = req ∷ rest m

-- The requests that are fetched, in order, until a call would wait for ever.
unfoldable pub run_buffer : List Op → Shared → List ℕ
unfolding producer consumer
run_buffer [] m = []
run_buffer (arrive s ∷ ops) m = put (producer s m) (run_buffer ops)
run_buffer (fetch ∷ ops) m = fetched (consumer m) (run_buffer ops)

-- The same of a stack of at most 100 requests.
unfoldable pub run_stack : List Op → List ℕ → List ℕ
run_stack [] xs = []
run_stack (arrive s ∷ ops) xs =
    let rest = run_stack ops (s ∷ xs) in if ltb (length xs) max_request then rest else []
run_stack (fetch ∷ ops) [] = []
run_stack (fetch ∷ ops) (x ∷ xs) = x ∷ run_stack ops xs

-- The slots below `full` hold the stack, the top last.
abbrev Slots : (ℕ → ℕ) → List ℕ → Type 0
Slots request [] = Unit {0}
Slots request (x ∷ xs) = (request (length xs) ≡ x) × Slots request xs

pub record Represents (m : Shared) (xs : List ℕ) : Type 0 where
  pub full : m.full ≡ length xs
  pub empty : m.empty + length xs ≡ max_request
  pub free : m.locked ≡ false
  pub slots : Slots m.request xs

Slots-update :
    (request : ℕ → ℕ) (k s : ℕ) (xs : List ℕ)
    → length xs ≤ k
    → Slots request xs
    → Slots (update request k s) xs
Slots-update request k s [] le h = tt
Slots-update request k s (x ∷ xs) le (e, h) =
    (ground arith, Slots-update request k s xs (omega arith) h)

abbrev pushed : ℕ → Shared → Shared
pushed s m = record {
  request = update m.request m.full s;
  full = m.full + 1;
  empty = m.empty - 1;
  locked = false;
}

abbrev popped : Shared → Shared
popped m = record { request = m.request; full = m.full - 1; empty = m.empty + 1; locked = false }

pushed-Represents :
    (s : ℕ) (m : Shared) (xs : List ℕ)
    → Represents m xs
    → length xs < max_request
    → Represents (pushed s m) (s ∷ xs)
pushed-Represents s m xs r room = record {
  full = omega (arith, r.full);
  empty = omega (arith, r.empty);
  free = refl;
  slots =
      (ground (arith, r.full), Slots-update m.request m.full s xs (omega (arith, r.full)) r.slots);
}

popped-Represents :
    (m : Shared) (x : ℕ) (xs : List ℕ) → Represents m (x ∷ xs) → Represents (popped m) xs
popped-Represents m x xs r = record {
  full = omega (arith, r.full);
  empty = omega (arith, r.empty);
  free = refl;
  slots = r.slots.1;
}

producer-some :
    (s : ℕ) (m : Shared) → m.locked ≡ false → 0 < m.empty → producer s m ≡ some (pushed s m)
unfolding producer
producer-some s m free room =
    let left : (m.empty == 0) ≡ false = ground arith in rw (left, free) refl

producer-none : (s : ℕ) (m : Shared) → m.empty ≡ 0 → producer s m ≡ none
unfolding producer
producer-none s m full = let left : (m.empty == 0) ≡ true = ground arith in rw left refl

consumer-some :
    (m : Shared)
    → m.locked ≡ false
    → 0 < m.full
    → consumer m ≡ some (m.request (m.full - 1), popped m)
unfolding consumer
consumer-some m free some_left =
    let left : (m.full == 0) ≡ false = ground arith in rw (left, free) refl

consumer-none : (m : Shared) → m.full ≡ 0 → consumer m ≡ none
unfolding consumer
consumer-none m none_left = let left : (m.full == 0) ≡ true = ground arith in rw left refl

-- While no call of `producer` or of `consumer` interrupts another, the buffer is a stack of at
-- most 100 requests: from a buffer that represents `xs`, any sequence of calls fetches what the
-- stack gives, the request that came last first, and waits where the stack is full or empty.
pub run_buffer-run_stack :
    (ops : List Op) (m : Shared) (xs : List ℕ)
    → Represents m xs
    → run_buffer ops m ≡ run_stack ops xs
unfolding run_buffer run_stack
run_buffer-run_stack [] m xs r = refl
run_buffer-run_stack (arrive s ∷ ops) m xs r = elim (dec_lt (length xs) max_request) [
  | yes room ↦
      let fits : ltb (length xs) max_request ≡ true = ground arith in
      rw (producer-some s m r.free (omega (arith, r.empty)), fits)
        (run_buffer-run_stack ops (pushed s m) (s ∷ xs) (pushed-Represents s m xs r room))
  | no full ↦
      let fits : ltb (length xs) max_request ≡ false = ground arith in
      rw (producer-none s m (omega (arith, r.empty)), fits) refl
]
run_buffer-run_stack (fetch ∷ ops) m [] r = rw (consumer-none m (omega (arith, r.full))) refl
run_buffer-run_stack (fetch ∷ ops) m (x ∷ xs) r =
    let top : m.request (m.full - 1) ≡ x = ap m.request (omega (arith, r.full)) ∙ r.slots.0 in
    rw
      (
        consumer-some m r.free (omega (arith, r.full)),
        top,
        run_buffer-run_stack ops (popped m) xs (popped-Represents m x xs r),
      )
      refl

-- `producer` is a run of the listener.
pub producer-Reach :
    {n : ℕ} (s : System) (a : ℕ) {m : Shared}
    → s.listener ≡ accepting
    → s.shared.locked ≡ false
    → producer a s.shared ≡ some m
    → Reach n s (record s { shared = m; listener = accepting })
producer-Reach {n} s a {m} waits free e = elim (dec_lt 0 s.shared.empty) [
  | yes room ↦
      let same : pushed a s.shared ≡ m =
        some-injective _ _ (sym (producer-some a s.shared free room) ∙ e) in
      subst (λ m. Reach n s (record s { shared = m; listener = accepting })) same
        (deliver s a waits free room)
  | no full ↦ cc (producer-none a s.shared (omega arith), e)
]
