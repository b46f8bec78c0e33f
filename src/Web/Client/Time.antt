-- ===== src/Web/Client/Time.antt =====
-- `timeval_subtract` of p2/client.c.
use csci4730_operating_syste.Base.{
  ℕ, ◌+◌, ◌-◌, ◌*◌, ◌/◌, ◌%◌, ◌<◌, ◌≤◌, ◌≡◌, refl, Bool, true, false, arith, ltb, if◌then◌else◌, ℤ,
  pos, Bool-cases, inl, inr, ltb→lt,
}
use csci4730_operating_syste.Web.Client.{Timeval, total_usec, Difference, negate, timeval_subtract}

-- The number that `a` stands for in front of the sign `down`.
abbrev pub signed : Bool → ℕ → ℤ
signed true n = negate n
signed false n = pos n

ltb-false : (a b : ℕ) → ltb a b ≡ false → b ≤ a
ltb-false a b e = ground arith

-- What `d` says of the way from `t1` to `t2`: both fields have one sign, with less than a million
-- microseconds, the flag is set exactly if `t2` is the earlier, and the fields lead from the earlier to
-- the later time.
abbrev pub IsDifference : (t2 t1 : Timeval) → Difference → Type 0
IsDifference t2 t1 d =
    (s : ℕ) × (u : ℕ) × (u < 1000000)
    × (d.diff_sec ≡ signed d.negative s)
    × (d.diff_usec ≡ signed d.negative u)
    × ((if d.negative then total_usec t2 else total_usec t1) + (s * 1000000 + u)
        ≡ (if d.negative then total_usec t1 else total_usec t2))
    × (d.negative ≡ ltb (total_usec t2) (total_usec t1))

-- For all times, the result and the flag of `timeval_subtract` are the difference in the sense of
-- `IsDifference`, also where the later time comes first.
pub timeval_subtract-IsDifference : (t2 t1 : Timeval) → IsDifference t2 t1 (timeval_subtract t2 t1)
unfolding timeval_subtract
timeval_subtract-IsDifference t2 t1 =
    let a = total_usec t2 in
    let b = total_usec t1 in
    elim (Bool-cases (ltb a b)) [
      | inl less ↦ rw less (
        ((b - a) / 1000000),
        ((b - a) % 1000000),
        omega arith,
        refl,
        refl,
        omega (arith, ltb→lt a b less),
        refl,
      )
      | inr more ↦ rw more (
        ((a - b) / 1000000),
        ((a - b) % 1000000),
        omega arith,
        refl,
        refl,
        omega (arith, ltb-false a b more),
        refl,
      )
    ]
