-- ===== src/Web/Queue/Invariant.antt =====
-- What holds in every reachable state of the request buffer of p2/webserver_multi.c.
use csci4730_operating_syste.Base.{ℕ, ◌+◌, ◌-◌, ◌<◌, ◌≡◌, refl, Bool, arith, if◌then◌else◌}
use csci4730_operating_syste.Web.Queue.{
  max_request, Shared, Producer, accepting, arrived, reserved, entered, counted, written, released,
  Consumer, idle, claimed, inside, looked, took, leaving, serving, stopped, Produce, Consume,
  System, Step, listen, work, started, Reach, here, next,
}
use csci4730_operating_syste.Web.Queue.Pool.{sum_of, sum_of-update, sum_of_zero, sum_of-le}

-- 1 between the wait for a slot of the listener, or of a thread, and its post.
abbrev pub producing : Producer → ℕ
producing accepting = 0
producing (arrived s) = 0
producing (reserved s) = 1
producing (entered s) = 1
producing (counted s k) = 1
producing written = 1
producing released = 1

abbrev pub consuming : Consumer → ℕ
consuming idle = 0
consuming claimed = 1
consuming inside = 1
consuming (looked k) = 1
consuming (took req) = 1
consuming (leaving req) = 1
consuming (serving req) = 0
consuming stopped = 0

-- 1 between `pthread_mutex_lock` and `pthread_mutex_unlock`.
abbrev pub writing : Producer → ℕ
writing accepting = 0
writing (arrived s) = 0
writing (reserved s) = 0
writing (entered s) = 1
writing (counted s k) = 1
writing written = 1
writing released = 0

abbrev pub reading : Consumer → ℕ
reading idle = 0
reading claimed = 0
reading inside = 1
reading (looked k) = 1
reading (took req) = 1
reading (leaving req) = 0
reading (serving req) = 0
reading stopped = 0

abbrev pub bit : Bool → ℕ
bit b = if b then 1 else 0

-- The index at which a thread is about to access the buffer.
abbrev pub write_index : Producer → ℕ
write_index (counted s k) = k
write_index accepting = 0
write_index (arrived s) = 0
write_index (reserved s) = 0
write_index (entered s) = 0
write_index written = 0
write_index released = 0

abbrev pub read_index : Consumer → ℕ
read_index (looked k) = k
read_index idle = 0
read_index claimed = 0
read_index inside = 0
read_index (took req) = 0
read_index (leaving req) = 0
read_index (serving req) = 0
read_index stopped = 0

pub record Inv (n : ℕ) (s : System) : Type 0 where
  pub slots :
      s.shared.empty + s.shared.full + producing s.listener + sum_of consuming n s.pool
      ≡ max_request
  pub owner : writing s.listener + sum_of reading n s.pool ≡ bit s.shared.locked
  pub write_bound : write_index s.listener < max_request
  pub read_bound : (i : ℕ) → read_index (s.pool i) < max_request

started-Inv : (n : ℕ) (request : ℕ → ℕ) → Inv n (started request)
unfolding started
started-Inv n request = record {
  slots = omega (arith, sum_of_zero consuming n (λ i. idle) (λ i. refl));
  owner = omega (arith, sum_of_zero reading n (λ i. idle) (λ i. refl));
  write_bound = omega arith;
  read_bound = λ i. omega arith;
}

-- One step of the listener, with what the pool adds to the two sums.
Produce-keeps :
    {m m' : Shared} {p p' : Producer} (a b : ℕ)
    → Produce m p m' p'
    → m.empty + m.full + producing p + a ≡ max_request
    → writing p + b ≡ bit m.locked
    → write_index p < max_request
    → (m'.empty + m'.full + producing p' + a ≡ max_request)
      × (writing p' + b ≡ bit m'.locked)
      × (write_index p' < max_request)
Produce-keeps a b (Produce.accept s) slots owner bound = ground arith
Produce-keeps a b (Produce.wait_empty pos) slots owner bound = ground arith
Produce-keeps a b (Produce.lock open_) slots owner bound = ground arith
Produce-keeps a b Produce.get_value slots owner bound = ground arith
Produce-keeps a b Produce.write slots owner bound = ground arith
Produce-keeps a b Produce.unlock slots owner bound = ground arith
Produce-keeps a b Produce.post_full slots owner bound = ground arith

-- One step of a thread, with what the listener and the others add.
Consume-keeps :
    {m m' : Shared} {c c' : Consumer} (a b : ℕ)
    → Consume m c m' c'
    → m.empty + m.full + consuming c + a ≡ max_request
    → reading c + b ≡ bit m.locked
    → read_index c < max_request
    → (m'.empty + m'.full + consuming c' + a ≡ max_request)
      × (reading c' + b ≡ bit m'.locked)
      × (read_index c' < max_request)
Consume-keeps a b (Consume.wait_full pos) slots owner bound = ground arith
Consume-keeps a b (Consume.lock open_) slots owner bound = ground arith
Consume-keeps a b Consume.get_value slots owner bound = ground arith
Consume-keeps a b Consume.read slots owner bound = ground arith
Consume-keeps a b Consume.unlock slots owner bound = ground arith
Consume-keeps a b Consume.post_empty slots owner bound = ground arith
Consume-keeps a b Consume.finish slots owner bound = ground arith
Consume-keeps a b Consume.crash slots owner bound = ground arith

Step-Inv : {n : ℕ} {s t : System} → Inv n s → Step n s t → Inv n t
Step-Inv {n} {s} v (listen {m} {p} mv) =
    let (slots, owner, bound) =
      Produce-keeps (sum_of consuming n s.pool) (sum_of reading n s.pool) mv v.slots v.owner
        v.write_bound in
    record { slots = slots; owner = owner; write_bound = bound; read_bound = v.read_bound }
Step-Inv {n} {s} v (work {m} {c} i lt mv) =
    let q = sum_of-update consuming n i s.pool c lt in
    let r = sum_of-update reading n i s.pool c lt in
    let le = sum_of-le consuming n i s.pool lt in
    let le' = sum_of-le reading n i s.pool lt in
    let (slots, owner, bound) =
      Consume-keeps (producing s.listener + sum_of consuming n s.pool - consuming (s.pool i))
        (writing s.listener + sum_of reading n s.pool - reading (s.pool i)) mv
        (omega (arith, v.slots, le)) (omega (arith, v.owner, le')) (v.read_bound i) in
    record {
      slots = omega (arith, slots, q, le);
      owner = omega (arith, owner, r, le');
      write_bound = v.write_bound;
      read_bound = λ j. ground (arith, v.read_bound j, bound);
    }

pub Reach-Inv : {n : ℕ} (request : ℕ → ℕ) {s : System} → Reach n (started request) s → Inv n s
Reach-Inv request here = started-Inv _ request
Reach-Inv request (next r st) = Step-Inv (Reach-Inv request r) st
