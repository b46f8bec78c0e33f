-- ===== src/Web/Client/Query.antt =====
-- The request that p2/client.c builds fits its buffer, and p2/net.c reads it back.
use csci4730_operating_syste.Stdio.Lines.{fgets-line}
use csci4730_operating_syste.Base.{
  codes, ℕ, ◌+◌, ◌≤◌, ◌<◌, ◌≡◌, refl, ap, sym, ◌∙◌, false, Option, none, some, [], ◌∷◌, ◌++◌, arith,
  ◌==◌, length, length-append, take, drop, All, All-append, take-drop, length-drop,
}
use mathlib.Core.List.{append_assoc, append-nil}
use csci4730_operating_syste.Web.Text.{Text, fgets}
use csci4730_operating_syste.Web.Http.Process.{parse_request}
use csci4730_operating_syste.Web.Http.Parse.{parse_request-words}
use csci4730_operating_syste.Web.Client.{
  user_agent, getpage, query_size, build_get_query, Sent, send_query,
}

-- For every host and page, the request and the zero behind it fill the buffer that is allocated exactly.
pub build_get_query-size :
    (host page : Text) → length (build_get_query host page) + 1 ≡ query_size host page
unfolding build_get_query query_size
build_get_query-size host page =
    let behind_host = codes "\r\nUser-Agent: " ++ (user_agent ++ codes "\r\n\r\n") in
    omega (
      arith,
      length-append host behind_host,
      length-append (getpage page) (codes " HTTP/1.0\r\nHost: " ++ (host ++ behind_host)),
    )

-- If the page has no blank and no line feed and is shorter than 4080 bytes, the server reads from the request
-- of the client the method GET, the page behind a slash, and the protocol, whichever the host.
pub build_get_query-parse_request :
    (host page : Text)
    → All (λ (y : ℕ). (y == b' ') ≡ false) (getpage page)
    → All (λ (y : ℕ). (y == b'\n') ≡ false) (getpage page)
    → length (getpage page) < 4080
    → parse_request (fgets 4095 (build_get_query host page))
      ≡ some (codes "GET", b'/' ∷ getpage page, codes "HTTP/1.0")
unfolding build_get_query
build_get_query-parse_request host page spaces lines short =
    let behind =
      codes "Host: " ++ (host ++ (codes "\r\nUser-Agent: " ++ (user_agent ++ codes "\r\n\r\n"))) in
    let line = codes "GET /" ++ (getpage page ++ codes " HTTP/1.0\r") in
    let same : build_get_query host page ≡ line ++ b'\n' ∷ behind =
      ap (λ t. codes "GET /" ++ t)
        (sym (append_assoc (getpage page) (codes " HTTP/1.0\r") (b'\n' ∷ behind))) in
    let out =
      All-append (λ (y : ℕ). (y == b'\n') ≡ false) (getpage page) (codes " HTTP/1.0\r") lines
        (ground arith) in
    let long : length line < 4095 =
      omega (arith, length-append (getpage page) (codes " HTTP/1.0\r"), short) in
    let read = fgets-line 4095 line behind (refl, (refl, (refl, (refl, (refl, out))))) long in
    let words =
      ap (λ t. codes "GET /" ++ t)
        (append_assoc (getpage page) (codes " HTTP/1.0\r") (b'\n' ∷ [])) in
    ap parse_request (ap (fgets 4095) same ∙ read ∙ words)
    ∙ parse_request-words (codes "GET") (b'/' ∷ getpage page) (codes "HTTP/1.0") (b'\n' ∷ [])
        (ground arith) (refl, spaces) (ground arith)

-- Each call of `send` takes at least a byte.
abbrev pub Proceeds : Option ℕ → Type 0
Proceeds none = ⊥
Proceeds (some n) = 0 < n

-- However `send` cuts the request, if no call fails and each takes at least a byte, then as many calls as
-- there are bytes left are enough, and the server has received all, in order.
pub send_query_complete :
    (results : Sent) (received left : Text)
    → All Proceeds results
    → length left ≤ length results
    → send_query results received left ≡ some (received ++ left, [])
unfolding send_query
send_query_complete [] received [] ok enough = ap (λ t. some (t, [])) (sym (append-nil received))
send_query_complete (r ∷ results) received [] ok enough =
    ap (λ t. some (t, [])) (sym (append-nil received))
send_query_complete [] received (c ∷ left) ok enough = elim enough [ ]
send_query_complete (none ∷ results) received (c ∷ left) ok enough = absurd ok.0
send_query_complete (some n ∷ results) received (c ∷ left) ok enough =
    let cut = take n (c ∷ left) in
    let rest = drop n (c ∷ left) in
    let shorter : length rest ≤ length results =
      omega (arith, length-drop n (c ∷ left), ok.0, enough) in
    send_query_complete results (received ++ cut) rest ok.1 shorter
    ∙ ap (λ t. some (t, []))
        (append_assoc received cut rest ∙ ap (λ t. received ++ t) (take-drop n (c ∷ left)))
