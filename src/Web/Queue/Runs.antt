-- ===== src/Web/Queue/Runs.antt =====
-- Runs of the listener and of one thread on the request buffer of p2/webserver_multi.c.
use mathlib.Core.Path.{subst}
use csci4730_operating_syste.Base.{ℕ, ◌+◌, ◌-◌, ◌<◌, ◌≡◌, ◌≢◌, arith, false, sym}
use csci4730_operating_syste.Web.Queue.{
  update, Shared, Producer, accepting, Consumer, idle, claimed, inside, looked, took, leaving,
  serving, Produce, Consume, System, Step, listen, work, Reach, here, next,
}

update_self : {A : Type 0} (f : ℕ → A) (i : ℕ) (a : A) → update f i a i ≡ a
update_self f i a = ground arith

module _ {n : ℕ} (s : System) where
  pub listen_at :
      {p p' : Producer} {m : Shared}
      → s.listener ≡ p
      → Produce s.shared p m p'
      → Step n s (record s { shared = m; listener = p' })
  listen_at {p'} {m} e mv = listen (subst (λ p. Produce s.shared p m p') (sym e) mv)

  pub work_at :
      {c c' : Consumer} {m : Shared} (i : ℕ)
      → i < n
      → s.pool i ≡ c
      → Consume s.shared c m c'
      → Step n s (record s { shared = m; pool = update s.pool i c' })
  work_at {c'} {m} i lt e mv = work i lt (subst (λ c. Consume s.shared c m c') (sym e) mv)

  pub deliver :
      (a : ℕ)
      → s.listener ≡ accepting
      → s.shared.locked ≡ false
      → 0 < s.shared.empty
      → Reach n s (record s {
        shared = record {
          request = update s.shared.request s.shared.full a;
          full = s.shared.full + 1;
          empty = s.shared.empty - 1;
          locked = false;
        };
        listener = accepting;
      })
  deliver a started free room =
      next
        (next
          (next
            (next
              (next
                (next (next here (listen_at started (Produce.accept a)))
                  (listen (Produce.wait_empty room)))
                (listen (Produce.lock free)))
              (listen Produce.get_value))
            (listen Produce.write))
          (listen Produce.unlock))
        (listen Produce.post_full)

-- Thread `i` takes one more step.
move :
    {n : ℕ} {s t : System} {c c' : Consumer} {m : Shared} (i : ℕ)
    → i < n
    → Reach n s t
    → t.pool i ≡ c
    → Consume t.shared c m c'
    → Reach n s (record t { shared = m; pool = update t.pool i c' })
move i lt r e mv = next r (work_at _ i lt e mv)

pub Reach-trans : {n : ℕ} {s t u : System} → Reach n s t → Reach n t u → Reach n s u
Reach-trans r here = r
Reach-trans r (next r' st) = next (Reach-trans r r') st

module _ {n : ℕ} (s : System) (i : ℕ) (lt : i < n) where
  -- What is left of `consumer` when the thread has its claim, up to `process`.
  pub finish_taking :
      s.pool i ≡ claimed
      → s.shared.locked ≡ false
      → (pool : ℕ → Consumer) × Reach n s (record s {
        shared = record {
          request = s.shared.request;
          full = s.shared.full;
          empty = s.shared.empty + 1;
          locked = false;
        };
        pool = pool;
      })
        × (pool i ≡ serving (s.shared.request s.shared.full))
        × ((j : ℕ) → j ≢ i → pool j ≡ s.pool j)
  finish_taking has_claim free =
      let req = s.shared.request s.shared.full in
      let p₁ = update s.pool i inside in
      let p₂ = update p₁ i (looked s.shared.full) in
      let p₃ = update p₂ i (took req) in
      let p₄ = update p₃ i (leaving req) in
      let r : Reach n s s = here in
      let r = move i lt r has_claim (Consume.lock free) in
      let r = move i lt r (update_self s.pool i inside) Consume.get_value in
      let r = move i lt r (update_self p₁ i (looked s.shared.full)) Consume.read in
      let r = move i lt r (update_self p₂ i (took req)) Consume.unlock in
      let r = move i lt r (update_self p₃ i (leaving req)) Consume.post_empty in
      (update p₄ i (serving req), r, update_self p₄ i (serving req), λ j ne. ground arith)

-- `consumer` from `sem_wait(&sem_full)` up to `process`.
pub take_request :
    {n : ℕ} (s : System) (i : ℕ)
    → i < n
    → s.pool i ≡ idle
    → s.shared.locked ≡ false
    → 0 < s.shared.full
    → (pool : ℕ → Consumer) × Reach n s (record s {
      shared = record {
        request = s.shared.request;
        full = s.shared.full - 1;
        empty = s.shared.empty + 1;
        locked = false;
      };
      pool = pool;
    })
      × (pool i ≡ serving (s.shared.request (s.shared.full - 1)))
      × ((j : ℕ) → j ≢ i → pool j ≡ s.pool j)
take_request {n} s i lt waits free some_left =
    let claim : Reach n s s = here in
    let claim = move i lt claim waits (Consume.wait_full some_left) in
    let t : System = record s {
      shared = record s.shared { full = s.shared.full - 1 };
      pool = update s.pool i claimed;
    } in
    let (pool, r, end, others) = finish_taking t i lt (update_self s.pool i claimed) free in
    (pool, Reach-trans claim r, end, λ j ne. ground (arith, others j))
