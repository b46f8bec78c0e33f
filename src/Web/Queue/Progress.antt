-- ===== src/Web/Queue/Progress.antt =====
-- The request buffer of p2/webserver_multi.c does not deadlock while a thread of the pool lives.
use csci4730_operating_syste.Base.{
  ℕ, ◌+◌, ◌<◌, ◌≡◌, ◌≢◌, refl, arith, false, Bool-cases, ◌⊎◌, inl, inr, ap,
}
use native.Mathlib.Decide.{dec_lt}
use csci4730_operating_syste.Web.Queue.{
  max_request, Shared, Producer, accepting, arrived, reserved, entered, counted, written, released,
  Consumer, idle, claimed, inside, looked, took, leaving, serving, stopped, Produce, Consume,
  System, Step, work, started, Reach,
}
use csci4730_operating_syste.Web.Queue.Pool.{sum_of, sum_of_pos}
use csci4730_operating_syste.Web.Queue.Runs.{listen_at}
use csci4730_operating_syste.Web.Queue.Invariant.{
  producing, consuming, writing, reading, bit, Inv, Reach-Inv,
}

abbrev CanMove : Shared → Consumer → Type 0
CanMove m c = (m' : Shared) × (c' : Consumer) × Consume m c m' c'

holder-CanMove : (m : Shared) (c : Consumer) → 0 < reading c → CanMove m c
holder-CanMove m idle h = absurd (omega arith)
holder-CanMove m claimed h = absurd (omega arith)
holder-CanMove m inside h = (_, _, Consume.get_value)
holder-CanMove m (looked k) h = (_, _, Consume.read)
holder-CanMove m (took req) h = (_, _, Consume.unlock)
holder-CanMove m (leaving req) h = absurd (omega arith)
holder-CanMove m (serving req) h = absurd (omega arith)
holder-CanMove m stopped h = absurd (omega arith)

live-CanMove :
    (m : Shared) (c : Consumer)
    → m.locked ≡ false
    → c ≢ stopped
    → (0 < m.full) ⊎ (0 < consuming c)
    → CanMove m c
live-CanMove m idle free live (inl pos) = (_, _, Consume.wait_full pos)
live-CanMove m idle free live (inr pos) = absurd (omega arith)
live-CanMove m claimed free live some_left = (_, _, Consume.lock free)
live-CanMove m inside free live some_left = (_, _, Consume.get_value)
live-CanMove m (looked k) free live some_left = (_, _, Consume.read)
live-CanMove m (took req) free live some_left = (_, _, Consume.unlock)
live-CanMove m (leaving req) free live some_left = (_, _, Consume.post_empty)
live-CanMove m (serving req) free live some_left = (_, _, Consume.finish)
live-CanMove m stopped free live some_left = absurd (live refl)

stopped-consuming : (c : Consumer) → 0 < consuming c → c ≢ stopped
stopped-consuming c h e = ground arith

module _ (n : ℕ) (s : System) where
  abbrev Moves : Type 0
  Moves = (t : System) × Step n s t

  worker-Moves : (i : ℕ) → i < n → CanMove s.shared (s.pool i) → Moves
  worker-Moves i lt (m, c, mv) = (_, work i lt mv)

  holder-Moves : 0 < sum_of reading n s.pool → Moves
  holder-Moves pos =
      let (i, lt, h) = sum_of_pos reading n s.pool pos in
      worker-Moves i lt (holder-CanMove s.shared (s.pool i) h)

  -- All slots are with the threads and in the buffer.
  pool-Moves :
      s.shared.full + sum_of consuming n s.pool ≡ max_request
      → sum_of reading n s.pool ≡ bit s.shared.locked
      → (j : ℕ) → j < n
      → s.pool j ≢ stopped
      → Moves
  pool-Moves slots owner j lt live = elim (Bool-cases s.shared.locked) [
    | inl held ↦ holder-Moves (ground arith)
    | inr free ↦ elim (dec_lt 0 s.shared.full) [
      | yes some_left ↦
          worker-Moves j lt (live-CanMove s.shared (s.pool j) free live (inl some_left))
      | no none_left ↦
          let (i, lt', pos) = sum_of_pos consuming n s.pool (omega arith) in
          worker-Moves i lt'
            (live-CanMove s.shared (s.pool i) free (stopped-consuming (s.pool i) pos) (inr pos))
    ]
  ]

  listener-Moves :
      Inv n s
      → (p : Producer) → s.listener ≡ p
      → p ≢ accepting
      → (j : ℕ) → j < n
      → s.pool j ≢ stopped
      → Moves
  listener-Moves v accepting e busy j lt live = absurd (busy refl)
  listener-Moves v (arrived r) e busy j lt live = elim (dec_lt 0 s.shared.empty) [
    | yes room ↦ (_, listen_at s e (Produce.wait_empty room))
    | no full ↦
        pool-Moves (omega (arith, v.slots, ap producing e)) (omega (arith, v.owner, ap writing e)) j
          lt live
  ]
  listener-Moves v (reserved r) e busy j lt live = elim (Bool-cases s.shared.locked) [
    | inl held ↦ holder-Moves (ground (arith, v.owner, ap writing e))
    | inr free ↦ (_, listen_at s e (Produce.lock free))
  ]
  listener-Moves v (entered r) e busy j lt live = (_, listen_at s e (Produce.get_value))
  listener-Moves v (counted r k) e busy j lt live = (_, listen_at s e (Produce.write))
  listener-Moves v written e busy j lt live = (_, listen_at s e (Produce.unlock))
  listener-Moves v released e busy j lt live = (_, listen_at s e (Produce.post_full))

-- In every state that can be reached, while the listener is in `producer` and some thread of the
-- pool has not stopped, some step of the server is possible: the semaphores and the mutex do
-- not deadlock.
pub producer_progress :
    {n : ℕ} (request : ℕ → ℕ) {s : System}
    → Reach n (started request) s
    → s.listener ≢ accepting
    → (j : ℕ) → j < n
    → s.pool j ≢ stopped
    → (t : System) × Step n s t
producer_progress request {s} r busy j lt live =
    listener-Moves _ s (Reach-Inv request r) s.listener refl busy j lt live
