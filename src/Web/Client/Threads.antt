-- ===== src/Web/Client/Threads.antt =====
-- p2/client.c: `main`, with the threads that it starts again, and what a thread does in `client`.
use csci4730_operating_syste.Base.{
  ◌%◌, ◌^◌, ℕ, zero, suc, ◌+◌, Bool, true, false, Option, none, some, List, [], ◌∷◌, ltb,
  if◌then◌else◌, codes, ℤ, pos, negsuc,
}
use csci4730_operating_syste.Web.Text.{Text}
use csci4730_operating_syste.Web.Client.{build_get_query, Sent, send_query}

abbrev pub max_thread : ℕ
max_thread = 100

-- The arguments: `argc`, `atoi` of the third, and the fourth.
pub record Invocation : Type 0 where
  pub argc : ℕ
  pub number : ℤ
  pub fourth : Text

-- The rounds of a loop up to the number: none for a number below 0.
abbrev pub at_least_0 : ℤ → ℕ
at_least_0 (pos n) = n
at_least_0 (negsuc n) = 0

abbrev pub at_most : ℕ → ℤ → ℤ
at_most m (pos n) = if ltb m n then pos m else pos n
at_most m (negsuc n) = negsuc n

-- The number of threads and the page; `none` is the exit behind `usage`.
unfoldable pub client_settings : Invocation → Option (ℤ × Text)
client_settings a =
    let nthread = if ltb a.argc 4 then pos 10 else a.number in
    if ltb a.argc 3
    then none
    else some (at_most max_thread nthread, if ltb 4 a.argc then a.fourth else codes "/index.html")

abbrev pub positive : ℤ → Bool
positive (pos zero) = false
positive (pos (suc n)) = true
positive (negsuc n) = false

-- What comes of a call of `pthread_join`: it returns, and `*tret` reads a number; or a thread calls
-- `exit(1)` before it returns. The address is that of a local of a thread that has ended, so the
-- number may be any.
pub data Join : Type 0 where
  tret : ℤ → Join
  exit_1 : Join

-- How the loop over the threads ends: with the count of failures, in `exit(1)`, or where nothing
-- is known of the next call.
pub data JoinEnd : Type 0 where
  joined : ℕ → JoinEnd
  exited_1 : JoinEnd
  waits : JoinEnd

-- The loop over the threads, `n` of them left.
unfoldable pub join_all : ℕ → List Join → ℕ → JoinEnd
join_all zero joins failed = joined failed
join_all (suc n) [] failed = waits
join_all (suc n) (exit_1 ∷ joins) failed = exited_1
join_all (suc n) (tret r ∷ joins) failed =
    join_all (if positive r then n else suc n) joins (if positive r then failed else failed + 1)

-- How `main` ends: `handled` has the numbers of requests and of failures that it prints.
pub data ClientEnd : Type 0 where
  usage_exit : ClientEnd
  failure_exit : ClientEnd
  unfinished : ClientEnd
  handled : (requests : ℤ) → (failures : ℕ) → ClientEnd

abbrev pub finished_with : ℤ → JoinEnd → ClientEnd
finished_with n waits = unfinished
finished_with n exited_1 = failure_exit
finished_with n (joined failures) = handled n failures

abbrev pub with_settings : List Join → Option (ℤ × Text) → ClientEnd
with_settings joins none = usage_exit
with_settings joins (some (n, page)) = finished_with n (join_all (at_least_0 n) joins 0)

unfoldable pub client_main : Invocation → List Join → ClientEnd
unfolding client_settings join_all
client_main a joins = with_settings joins (client_settings a)

-- The loop of `recv`: the results of the calls, and the bytes so far. The result is `rbyte`, a C
-- integer by its pattern, and if the last call did not fail.
unfoldable pub receive : List ℤ → ℕ → Option (ℕ × Bool)
receive [] rbyte = none
receive (pos zero ∷ results) rbyte = some (rbyte, true)
receive (pos (suc n) ∷ results) rbyte = receive results ((rbyte + suc n) % 2 ^ 32)
receive (negsuc n ∷ results) rbyte = some (rbyte, false)

-- How a thread ends: in `exit(1)`, not yet, or with a count of bytes.
pub data ThreadEnd : Type 0 where
  exited : ThreadEnd
  waiting : ThreadEnd
  received : (rbyte : ℕ) → (complete : Bool) → ThreadEnd

abbrev pub counted : Option (ℕ × Bool) → ThreadEnd
counted none = waiting
counted (some (rbyte, complete)) = received rbyte complete

abbrev pub receive_behind : List ℤ → Option (Text × Text) → ThreadEnd
receive_behind results none = exited
receive_behind results (some (sent, [])) = counted (receive results 0)
receive_behind results (some (sent, c ∷ left)) = waiting

-- `client`, when the address is known and the socket is connected.
unfoldable pub client : (host page : Text) → Sent → List ℤ → ThreadEnd
unfolding receive
client host page sends results =
    receive_behind results (send_query sends [] (build_get_query host page))
