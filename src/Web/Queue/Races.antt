-- ===== src/Web/Queue/Races.antt =====
-- Where the request buffer of p2/webserver_multi.c does not do what it means to.
use csci4730_operating_syste.Base.{
  [], ◌∷◌, ℕ, zero, suc, ◌+◌, ◌-◌, ◌<◌, ◌≤◌, ◌≡◌, ◌≢◌, refl, arith, ltb, if◌then◌else◌, false, ◌∙◌,
}
use csci4730_operating_syste.Web.Queue.{
  max_request, update, Shared, accepting, Consumer, idle, serving, stopped, Consume, System, listen,
  work, started, Reach, here, next, Produce,
}
use csci4730_operating_syste.Web.Queue.History.{accepted, served}
use csci4730_operating_syste.Web.Queue.Runs.{work_at, deliver, Reach-trans, take_request}

-- If the listener delivers `b` while a thread stands between `sem_wait` and `sem_getvalue`, a
-- request is lost: whatever the sockets `a` and `b` and what the buffer held at the start, there is
-- a run in which exactly `a` and then `b` are accepted and exactly one call of `process` begins, with
-- what slot 1 held at the start. Behind it that thread still serves this socket, all others wait,
-- so does the listener, and one request is left to be taken, with `b` in slot 0 and in the other
-- slots what they held at the start: if `a` is none of these, it is nowhere any more.
pub request_lost :
    (n : ℕ) (request : ℕ → ℕ) (a b : ℕ)
    → 0 < n
    → (s : System) × (r : Reach n (started request) s) × (accepted r ≡ b ∷ a ∷ [])
      × (served r ≡ request 1 ∷ [])
      × (s.pool 0 ≡ serving (request 1))
      × ((i : ℕ) → i ≢ 0 → s.pool i ≡ idle)
      × (s.listener ≡ accepting)
      × (s.shared.full ≡ 1)
      × (s.shared.request 0 ≡ b)
      × ((k : ℕ) → k ≢ 0 → s.shared.request k ≡ request k)
unfolding started
request_lost n request a b pos =
    let r : Reach n (started request) (started request) = here in
    let r = next r (listen (Produce.accept a)) in
    let r = next r (listen (Produce.wait_empty (omega arith))) in
    let r = next r (listen (Produce.lock refl)) in
    let r = next r (listen Produce.get_value) in
    let r = next r (listen Produce.write) in
    let r = next r (listen Produce.unlock) in
    let r = next r (listen Produce.post_full) in
    let r = next r (work 0 pos (Consume.wait_full (omega arith))) in
    let r = next r (listen (Produce.accept b)) in
    let r = next r (listen (Produce.wait_empty (omega arith))) in
    let r = next r (listen (Produce.lock refl)) in
    let r = next r (listen Produce.get_value) in
    let r = next r (listen Produce.write) in
    let r = next r (listen Produce.unlock) in
    let r = next r (listen Produce.post_full) in
    let r = next r (work 0 pos (Consume.lock refl)) in
    let r = next r (work 0 pos Consume.get_value) in
    let r = next r (work 0 pos Consume.read) in
    let r = next r (work 0 pos Consume.unlock) in
    let r = next r (work 0 pos Consume.post_empty) in
    (_, r, refl, refl, refl, λ i ne. ground arith, refl, refl, refl, λ k ne. ground arith)

-- The listener waits, the buffer is empty, and the first `k` threads have stopped.
record IsQuiet (k : ℕ) (s : System) : Type 0 where
  listener : s.listener ≡ accepting
  locked : s.shared.locked ≡ false
  full : s.shared.full ≡ 0
  empty : s.shared.empty ≡ max_request
  pool : (i : ℕ) → s.pool i ≡ (if ltb i k then stopped else idle)

started-IsQuiet : (request : ℕ → ℕ) → IsQuiet 0 (started request)
unfolding started
started-IsQuiet request = record {
  listener = refl;
  locked = refl;
  full = refl;
  empty = refl;
  pool = λ i. ground arith;
}

-- One more request, and thread `k` crashes on it.
one_crash :
    {n : ℕ} (k : ℕ) (s : System)
    → k < n
    → IsQuiet k s
    → (t : System) × Reach n s t × IsQuiet (suc k) t
one_crash {n} k s lt q =
    let r = deliver {n = n} s 0 q.listener q.locked (omega (arith, q.empty)) in
    let t : System = record s {
      shared = record {
        request = update s.shared.request s.shared.full 0;
        full = s.shared.full + 1;
        empty = s.shared.empty - 1;
        locked = false;
      };
      listener = accepting;
    } in
    let (pool, r', end, others) =
      take_request {n = n} t k lt (q.pool k ∙ ground arith) refl (omega arith) in
    let u : System = record t {
      shared = record t.shared { full = t.shared.full - 1; empty = t.shared.empty + 1 };
      pool = pool;
    } in
    (
      record u { pool = update pool k stopped },
      next (Reach-trans r r') (work_at u k lt end Consume.crash),
      record {
        listener = refl;
        locked = refl;
        full = omega (arith, q.full);
        empty = omega (arith, q.empty);
        pool = λ i. ground (arith, others i, q.pool i);
      },
    )

all_crash :
    {n : ℕ} (request : ℕ → ℕ) (k : ℕ)
    → k ≤ n
    → (s : System) × Reach n (started request) s × IsQuiet k s
all_crash request zero le = (started request, here, started-IsQuiet request)
all_crash request (suc k) le =
    let (s, r, q) = all_crash request k (omega arith) in
    let (t, r', q') = one_crash k s (omega arith) q in (t, Reach-trans r r', q')

not_stopped : {m m' : Shared} {c c' : Consumer} → Consume m c m' c' → c ≢ stopped
not_stopped (Consume.wait_full pos) e = cc
not_stopped (Consume.lock free) e = cc
not_stopped Consume.get_value e = cc
not_stopped Consume.read e = cc
not_stopped Consume.unlock e = cc
not_stopped Consume.post_empty e = cc
not_stopped Consume.finish e = cc
not_stopped Consume.crash e = cc

stays_stopped :
    {n : ℕ} (s : System)
    → ((i : ℕ) → i < n → s.pool i ≡ stopped)
    → {t : System} → Reach n s t
    → (i : ℕ) → i < n
    → t.pool i ≡ stopped
stays_stopped s h here i lt = h i lt
stays_stopped s h (next r (listen mv)) i lt = stays_stopped s h r i lt
stays_stopped s h (next r (work j lt' mv)) i lt =
    absurd (not_stopped mv (stays_stopped s h r j lt'))

-- Threads that stop in `process` are not replaced while the listener runs: whatever the number of
-- threads, there is a run that ends with a request in the buffer and all threads stopped, and in
-- every state behind it they are still stopped, so that no request is ever served again.
pub pool_exhausted :
    (n : ℕ) (request : ℕ → ℕ) (a : ℕ)
    → (s : System) × Reach n (started request) s
      × (s.shared.full ≡ 1)
      × (s.shared.request 0 ≡ a)
      × ((t : System) → Reach n s t → (i : ℕ) → i < n → t.pool i ≡ stopped)
pool_exhausted n request a =
    let (s, r, q) = all_crash {n = n} request n (omega arith) in
    let t : System = record s {
      shared = record {
        request = update s.shared.request s.shared.full a;
        full = s.shared.full + 1;
        empty = s.shared.empty - 1;
        locked = false;
      };
      listener = accepting;
    } in
    (
      t,
      Reach-trans r (deliver s a q.listener q.locked (omega (arith, q.empty))),
      omega (arith, q.full),
      ground (arith, q.full),
      λ u r' i lt. stays_stopped t (λ j lt'. q.pool j ∙ ground arith) r' i lt,
    )
