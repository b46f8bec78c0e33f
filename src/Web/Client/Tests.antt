-- ===== src/Web/Client/Tests.antt =====
-- The theorems on `main` and `client` of p2/client.c at concrete runs.
use csci4730_operating_syste.Base.{
  ℕ, zero, suc, ◌<◌, ◌≤◌, ◌≡◌, refl, true, false, none, some, List, [], ◌∷◌, arith, codes, pos,
  negsuc, length, All, replicate, ◌⊎◌,
}
use csci4730_operating_syste.Stdio.{decimal, digits}
use csci4730_operating_syste.Web.Text.{Text, fgets, same_text, same_ignoring_case}
use csci4730_operating_syste.Web.Http.{Host, send_error, send_headers}
use csci4730_operating_syste.Web.Http.Process.{process, replied, answer_request, answer_found}
use csci4730_operating_syste.Web.Client.{getpage, build_get_query, send_query}
use csci4730_operating_syste.Web.Client.Query.{Proceeds}
use csci4730_operating_syste.Web.Client.Threads.{
  Join, tret, exit_1, Invocation, handled, failure_exit, client_main, received, client,
}
use csci4730_operating_syste.Web.Client.Joined.{Ends, client_main-Ends}
use csci4730_operating_syste.Web.Client.Exchange.{client-process}

-- Two threads; the second fails once.
abbrev two_threads : Invocation
two_threads = record { argc = 4; number = pos 2; fourth = [] }

abbrev one_failure : List Join
one_failure = tret (pos 5) ∷ tret (negsuc 3) ∷ tret (pos 9) ∷ exit_1 ∷ []

client_main-Ends_example :
    (2 ≤ 100)
    × (((f : ℕ) × (client_main two_threads one_failure ≡ handled (pos 2) f)
          × Ends 2 one_failure 0 f)
        ⊎ ((2 < 2) × (client_main two_threads one_failure ≡ failure_exit)))
client_main-Ends_example = client_main-Ends two_threads one_failure (omega arith)

-- A server with no files.
abbrev bare : Host
bare = record {
  stat = λ p. none;
  fopen = λ p. none;
  readdir = λ p. none;
  cwd = codes "/w";
  time = 0;
  http_date = λ t. codes "now";
  list_date = λ t. codes "now";
}

abbrev not_found : Text
not_found = send_error bare 404 (codes "Not Found") none (codes "File not found.")

replicate-Proceeds : (n : ℕ) → All Proceeds (replicate n (some 3))
replicate-Proceeds zero = tt
replicate-Proceeds (suc n) = (omega arith, replicate-Proceeds n)

answer_bare : answer_request bare (codes "GET") (codes "/x") ≡ some not_found
unfolding answer_request answer_found same_ignoring_case same_text
answer_bare = refl

-- The reply has 216 bytes.
client-process_example :
    (send_query (replicate 80 (some 3)) [] (build_get_query (codes "h") (codes "x"))
      ≡ some (build_get_query (codes "h") (codes "x"), []))
    × (process bare false true (some (fgets 4095 (build_get_query (codes "h") (codes "x"))))
        ≡ replied not_found)
    × (client (codes "h") (codes "x") (replicate 80 (some 3)) (pos 200 ∷ pos 16 ∷ pos 0 ∷ [])
        ≡ received (length not_found) true)
unfolding getpage build_get_query send_error send_headers decimal digits
client-process_example =
    client-process bare (codes "h") (codes "x") not_found (replicate 80 (some 3)) (200 ∷ 16 ∷ [])
      (refl, tt) (refl, tt) (omega arith) (replicate-Proceeds 80) (omega arith) answer_bare
      (omega arith, (omega arith, tt)) refl (omega arith)
