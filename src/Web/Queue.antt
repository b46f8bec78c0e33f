-- ===== src/Web/Queue.antt =====
-- The request buffer of p2/webserver_multi.c: the listener that runs `producer`, and the threads of
-- the pool that run `consumer`, one shared access at a time.
pub mod Pool
pub mod Invariant
pub mod Safety
pub mod Progress
pub mod Runs
pub mod History
pub mod Races
pub mod Control
pub mod Stack
use csci4730_operating_syste.Base.{
  ℕ, ◌+◌, ◌-◌, ◌<◌, ◌≡◌, Bool, true, false, Option, none, some, ◌==◌, if◌then◌else◌,
}

-- MAX_REQUEST
abbrev pub max_request : ℕ
max_request = 100

abbrev pub update {ℓ} : {A : Type ℓ} → (ℕ → A) → ℕ → A → ℕ → A
update f i a j = if j == i then a else f j

-- The buffer, the values of the two semaphores, and whether the mutex is locked.
pub record Shared : Type 0 where
  pub request : ℕ → ℕ
  pub full : ℕ
  pub empty : ℕ
  pub locked : Bool

-- Where the listener stands: in `accept`, or in `producer` with its socket `s`.
pub data Producer : Type 0 where
  accepting : Producer
  arrived : (s : ℕ) → Producer  -- before sem_wait(&sem_empty)
  reserved : (s : ℕ) → Producer  -- before pthread_mutex_lock
  entered : (s : ℕ) → Producer  -- before sem_getvalue
  counted : (s semfull : ℕ) → Producer  -- before the write
  written : Producer  -- before pthread_mutex_unlock
  released : Producer  -- before sem_post(&sem_full)

-- Where a thread of the pool stands in `consumer`.
pub data Consumer : Type 0 where
  idle : Consumer  -- before sem_wait(&sem_full)
  claimed : Consumer  -- before pthread_mutex_lock
  inside : Consumer  -- before sem_getvalue
  looked : (semfull : ℕ) → Consumer  -- before the read
  took : (req : ℕ) → Consumer  -- before pthread_mutex_unlock
  leaving : (req : ℕ) → Consumer  -- before sem_post(&sem_empty)
  serving : (req : ℕ) → Consumer  -- in `process`
  stopped : Consumer  -- behind pthread_exit

-- A step of the listener. Which socket `accept` returns is open.
pub data Produce (m : Shared) : Producer → Shared → Producer → Type 0 where
  accept : (s : ℕ) → Produce m accepting m (arrived s)
  wait_empty :
      {s : ℕ} → 0 < m.empty → Produce m (arrived s) (record m { empty = m.empty - 1 }) (reserved s)
  lock :
      {s : ℕ} → m.locked ≡ false → Produce m (reserved s) (record m { locked = true }) (entered s)
  get_value : {s : ℕ} → Produce m (entered s) m (counted s m.full)
  write : {s k : ℕ} → Produce m (counted s k) (record m { request = update m.request k s }) written
  unlock : Produce m written (record m { locked = false }) released
  post_full : Produce m released (record m { full = m.full + 1 }) accepting

-- A step of a thread of the pool. Whether `process` ends the thread is open.
pub data Consume (m : Shared) : Consumer → Shared → Consumer → Type 0 where
  wait_full : 0 < m.full → Consume m idle (record m { full = m.full - 1 }) claimed
  lock : m.locked ≡ false → Consume m claimed (record m { locked = true }) inside
  get_value : Consume m inside m (looked m.full)
  read : {k : ℕ} → Consume m (looked k) m (took (m.request k))
  unlock : {req : ℕ} → Consume m (took req) (record m { locked = false }) (leaving req)
  post_empty : {req : ℕ} → Consume m (leaving req) (record m { empty = m.empty + 1 }) (serving req)
  finish : {req : ℕ} → Consume m (serving req) m idle
  crash : {req : ℕ} → Consume m (serving req) m stopped

pub record System : Type 0 where
  pub shared : Shared
  pub listener : Producer
  pub pool : ℕ → Consumer

-- One step of the listener or of one of the `n` threads.
pub data Step (n : ℕ) (s : System) : System → Type 0 where
  listen :
      {m : Shared} {p : Producer}
      → Produce s.shared s.listener m p
      → Step n s (record s { shared = m; listener = p })
  work :
      {m : Shared} {c : Consumer} (i : ℕ)
      → i < n
      → Consume s.shared (s.pool i) m c
      → Step n s (record s { shared = m; pool = update s.pool i c })

-- The state when `main` has made the semaphores and `thread_control` the threads.
unfoldable pub started : (ℕ → ℕ) → System
started request = record {
  shared = record { request = request; full = 0; empty = max_request; locked = false };
  listener = accepting;
  pool = λ i. idle;
}

pub data Reach (n : ℕ) (s : System) : System → Type 0 where
  here : Reach n s s
  next : {t u : System} → Reach n s t → Step n t u → Reach n s u
