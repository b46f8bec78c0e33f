-- ===== src/Web/Client.antt =====
-- p2/client.c: the request that the client sends, and the time that it reports.
pub mod Exchange
pub mod Joined
pub mod Query
pub mod Threads
mod Tests
pub mod Time
use csci4730_operating_syste.Base.{
  codes, ℕ, zero, suc, ◌+◌, ◌-◌, ◌*◌, ◌/◌, ◌%◌, Bool, true, false, Option, none, some, List, [],
  ◌∷◌, ◌++◌, ltb, ◌==◌, if◌then◌else◌, length, take, drop, ℤ, pos, negsuc,
}
use csci4730_operating_syste.Web.Text.{Text, written, crlf}

abbrev pub user_agent : Text
user_agent = codes "HTMLGET 1.0"

abbrev pub tpl : Text
tpl = codes "GET /%s HTTP/1.0\r\nHost: %s\r\nUser-Agent: %s\r\n\r\n"

-- The page without a slash at its head.
unfoldable pub getpage : Text → Text
getpage [] = []
getpage (c ∷ page) = if c == b'/' then page else c ∷ page

-- The bytes that `malloc` is asked for.
unfoldable pub query_size : (host page : Text) → ℕ
query_size host page = length host + length (getpage page) + length user_agent + length tpl - 5

-- What `sprintf` writes, less the zero behind it.
unfoldable pub build_get_query : (host page : Text) → Text
build_get_query host page = written (
    codes "GET /"
    ∷ getpage page
    ∷ codes " HTTP/1.0\r\nHost: "
    ∷ host
    ∷ codes "\r\nUser-Agent: "
    ∷ user_agent
    ∷ codes "\r\n\r\n"
    ∷ [])

-- What `send` returns; `none` is -1.
abbrev pub Sent : Type 0
Sent = List (Option ℕ)

-- The loop that sends `get`, of which `left` is not sent: what the server receives, `none` where the client
-- gives up. The list has no results left where the client still waits.
unfoldable pub send_query : Sent → (received left : Text) → Option (Text × Text)
send_query results received [] = some (received, [])
send_query [] received (c ∷ left) = some (received, c ∷ left)
send_query (none ∷ results) received (c ∷ left) = none
send_query (some n ∷ results) received (c ∷ left) =
    send_query results (received ++ take n (c ∷ left)) (drop n (c ∷ left))

-- `struct timeval`; `long int` is not bounded.
pub record Timeval : Type 0 where
  pub tv_sec : ℕ
  pub tv_usec : ℕ

abbrev pub total_usec : Timeval → ℕ
total_usec t = t.tv_usec + 1000000 * t.tv_sec

pub record Difference : Type 0 where
  pub diff_sec : ℤ
  pub diff_usec : ℤ
  pub negative : Bool

abbrev pub negate : ℕ → ℤ
negate zero = pos 0
negate (suc n) = negsuc n

-- `/` and `%` of C round to 0, so both take the sign of `diff`.
unfoldable pub timeval_subtract : (t2 t1 : Timeval) → Difference
timeval_subtract t2 t1 =
    let up = total_usec t2 - total_usec t1 in
    let down = total_usec t1 - total_usec t2 in
    if ltb (total_usec t2) (total_usec t1)
    then record {
      diff_sec = negate (down / 1000000);
      diff_usec = negate (down % 1000000);
      negative = true;
    }
    else record { diff_sec = pos (up / 1000000); diff_usec = pos (up % 1000000); negative = false }
