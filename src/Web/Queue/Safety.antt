-- ===== src/Web/Queue/Safety.antt =====
-- The accesses to the request buffer of p2/webserver_multi.c are in range and exclude one another.
use csci4730_operating_syste.Base.{ℕ, ◌<◌, ◌≤◌, ◌≡◌, arith, ap}
use native.Mathlib.Decide.{dec_lt}
use csci4730_operating_syste.Web.Queue.{max_request, counted, looked, System, started, Reach}
use csci4730_operating_syste.Web.Queue.Pool.{sum_of-le, sum_of-le_two}
use csci4730_operating_syste.Web.Queue.Invariant.{
  writing, reading, write_index, read_index, bit, Reach-Inv,
}

module _ {n : ℕ} (request : ℕ → ℕ) {s : System} (r : Reach n (started request) s) where
  -- Whatever the number of threads and in every state that can be reached: the index at which the
  -- listener is about to write and the index at which a thread is about to read are below 100, the
  -- size of the buffer.
  pub buffer_bounds :
      ((req k : ℕ) → s.listener ≡ counted req k → k < max_request)
      × ((i k : ℕ) → s.pool i ≡ looked k → k < max_request)
  buffer_bounds =
      let v = Reach-Inv request r in
      (
        λ req k e. omega (arith, v.write_bound, ap write_index e),
        λ i k e. omega (arith, v.read_bound i, ap read_index e),
      )

  -- In every state that can be reached, while the listener is between lock and unlock no thread is,
  -- and two threads are never there together.
  pub mutual_exclusion :
      (writing s.listener ≡ 1 → (i : ℕ) → i < n → reading (s.pool i) ≡ 0)
      × ((i j : ℕ) → i < n → j < n → reading (s.pool i) ≡ 1 → reading (s.pool j) ≡ 1 → i ≡ j)
  mutual_exclusion =
      let v = Reach-Inv request r in
      let few : bit s.shared.locked ≤ 1 = ground arith in
      (
        λ h i lt. omega (arith, few, v.owner, sum_of-le reading n i s.pool lt),
        λ i j lt lt' h h'. elim (dec_lt i j) [
          | yes below ↦
              absurd (omega (arith, few, v.owner, sum_of-le_two reading n i j s.pool below lt'))
          | no above ↦ elim (dec_lt j i) [
            | yes below ↦
                absurd (omega (arith, few, v.owner, sum_of-le_two reading n j i s.pool below lt))
            | no here ↦ omega arith
          ]
        ],
      )
