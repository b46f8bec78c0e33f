-- ===== src/Web/Client/Exchange.antt =====
-- A request of p2/client.c that p2/net.c answers.
use csci4730_operating_syste.Base.{
  ◌%◌, ◌^◌, ℕ, zero, suc, ◌+◌, ◌<◌, ◌≤◌, ◌≡◌, refl, true, false, some, List, [], ◌∷◌, ◌++◌, arith,
  ◌==◌, codes, pos, map, length, All, ap, ◌∙◌,
}
use csci4730_operating_syste.Web.Text.{Text, fgets}
use csci4730_operating_syste.Web.Http.{Host}
use csci4730_operating_syste.Web.Http.Process.{
  answer_request, answer_parsed, answer_line, process, replied, parse_request,
}
use csci4730_operating_syste.Web.Client.{getpage, build_get_query, Sent, send_query}
use csci4730_operating_syste.Web.Client.Query.{
  Proceeds, send_query_complete, build_get_query-parse_request,
}
use csci4730_operating_syste.Web.Client.Threads.{receive, receive_behind, received, counted, client}

abbrev pub sum_of : List ℕ → ℕ
sum_of [] = 0
sum_of (n ∷ ns) = n + sum_of ns

receive-sum_of :
    (ns : List ℕ) (rbyte : ℕ)
    → All (λ (n : ℕ). 0 < n) ns
    → rbyte + sum_of ns < 2 ^ 32
    → receive (map pos ns ++ pos 0 ∷ []) rbyte ≡ some (rbyte + sum_of ns, true)
unfolding receive
receive-sum_of [] rbyte ok lt = ap (λ n. some (n, true)) (omega arith)
receive-sum_of (zero ∷ ns) rbyte ok lt = elim ok.0 [ ]
receive-sum_of (suc n ∷ ns) rbyte ok lt =
    let fits : (rbyte + suc n) % 2 ^ 32 ≡ rbyte + suc n = omega (arith, lt) in
    ap (receive (map pos ns ++ pos 0 ∷ [])) fits
    ∙ receive-sum_of ns (rbyte + suc n) ok.1 (omega (arith, lt))
    ∙ ap (λ m. some (m, true)) (omega arith)

answered :
    (server : Host) (line : Text) (method path protocol reply : Text)
    → parse_request line ≡ some (method, path, protocol)
    → answer_request server method path ≡ some reply
    → process server false true (some line) ≡ replied reply
unfolding process answer_line answer_parsed
answered server line method path protocol reply e e' = rw (e, e') refl

-- If the page has no blank and no line feed and is shorter than 4080 bytes, no call of `send` fails,
-- each takes at least a byte and there are as many as there are bytes, then the server gets the
-- request as it was built. If it does not crash, opens the stream and has an answer to a GET of
-- the page, it replies with this answer, and however `recv` cuts the reply, the thread ends
-- with the number of its bytes, if that is below 2^31.
pub client-process :
    (server : Host) (host page reply : Text) (sends : Sent) (chunks : List ℕ)
    → All (λ (y : ℕ). (y == b' ') ≡ false) (getpage page)
    → All (λ (y : ℕ). (y == b'\n') ≡ false) (getpage page)
    → length (getpage page) < 4080
    → All Proceeds sends
    → length (build_get_query host page) ≤ length sends
    → answer_request server (codes "GET") (b'/' ∷ getpage page) ≡ some reply
    → All (λ (n : ℕ). 0 < n) chunks
    → sum_of chunks ≡ length reply
    → length reply < 2 ^ 31
    → (send_query sends [] (build_get_query host page) ≡ some (build_get_query host page, []))
      × (process server false true (some (fgets 4095 (build_get_query host page))) ≡ replied reply)
      × (client host page sends (map pos chunks ++ pos 0 ∷ []) ≡ received (length reply) true)
unfolding client
client-process server host page reply sends chunks spaces lines short proceeds enough answer cut
      whole small =
    let query = build_get_query host page in
    let sent : send_query sends [] query ≡ some (query, []) =
      send_query_complete sends [] query proceeds enough in
    (
      sent,
      answered server (fgets 4095 query) (codes "GET") (b'/' ∷ getpage page) (codes "HTTP/1.0")
          reply (build_get_query-parse_request host page spaces lines short) answer,
      ap (receive_behind (map pos chunks ++ pos 0 ∷ [])) sent
          ∙ ap counted (receive-sum_of chunks 0 cut (omega (arith, whole, small)))
          ∙ ap (λ n. received n true) (omega (arith, whole)),
    )
