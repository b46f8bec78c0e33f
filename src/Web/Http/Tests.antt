-- ===== src/Web/Http/Tests.antt =====
-- The theorems on p2/net.c and p2/client.c at concrete requests.
use csci4730_operating_syste.Base.{
  codes, ◌↔◌, ◌≢◌, ℕ, zero, suc, All, replicate, ◌<◌, ◌≡◌, refl, arith, true, false, none, some, [],
  ◌∷◌, ◌++◌, length, ◌==◌, if◌then◌else◌,
}
use csci4730_operating_syste.Web.Text.{Text}
use csci4730_operating_syste.Web.Http.{Stat, Host, send_file, send_headers, get_mime_type}
use csci4730_operating_syste.Web.Http.Process.{process, replied, fault, path_max}
use csci4730_operating_syste.Web.Http.Status.{Starts, verdict, verdict_line, process-verdict}
use csci4730_operating_syste.Web.Http.Overrun.{process-overrun}
use csci4730_operating_syste.Web.Http.Parse.{IsWord}
use csci4730_operating_syste.Web.Http.Deliver.{send_file-content}
use csci4730_operating_syste.Web.Client.{Timeval, timeval_subtract}
use csci4730_operating_syste.Web.Client.Time.{IsDifference, timeval_subtract-IsDifference}

abbrev directory : Stat
directory = record { is_dir = true; is_reg = false; st_size = 0; st_mtime = 0 }

-- In /w, the directory /w/d/ with a file a, and no index.html. The files are empty.
abbrev host : Host
host = record {
  stat = λ p. if length p == 5 then some directory else none;
  fopen = λ p. some [];
  readdir = λ p. some (codes "a.c" ∷ []);
  cwd = codes "/w";
  time = 0;
  http_date = λ t. codes "now";
  list_date = λ t. codes "now";
}

process-verdict_example :
    (text : Text) × (process host false true (some (codes "GET /d/ HTTP/1.0\r\n")) ≡ replied text)
    × Starts (verdict_line (verdict host (codes "GET") (codes "/w/d/"))) text
process-verdict_example =
    process-verdict host (codes "GET") (codes "/d/") (codes "HTTP/1.0") (b'\n' ∷ []) (ground arith)
      (ground arith) (ground arith) (omega arith)
      λ st e dir. (codes "a.c" ∷ [], refl, (omega arith, tt))

-- A path of 4050 bytes, behind a working directory of 50.
abbrev long_path : Text
long_path = replicate 4050 b'd'

abbrev deep : Host
deep = record host { cwd = replicate 50 b'd'; stat = λ p. none }

replicate-All : (n : ℕ) → All (λ (y : ℕ). (y == b' ') ≡ false) (replicate n b'd')
replicate-All zero = tt
replicate-All (suc n) = (refl, replicate-All n)

long_path-IsWord : IsWord b' ' long_path
long_path-IsWord = replicate-All 4050

nothing_there : (st : Stat) → none ≢ some st
nothing_there st e = cc

process-overrun_example :
    (process deep false true (some (codes "GET " ++ (long_path ++ codes " HTTP/1.0\r\n"))) ≡ fault)
    ↔ (path_max < length (replicate 50 b'd' ++ long_path))
process-overrun_example =
    process-overrun deep (codes "GET") long_path (codes "HTTP/1.0") (b'\n' ∷ []) (ground arith)
      long_path-IsWord (ground arith) λ st e dir. absurd (nothing_there st e)

send_file-content_example :
    send_file host (codes "/w/a.html") directory
    ≡ send_headers host 200 (codes "OK") none (get_mime_type (codes "/w/a.html")) none (some 0)
      ++ []
send_file-content_example = send_file-content host (codes "/w/a.html") directory [] refl

abbrev early : Timeval
early = record { tv_sec = 3; tv_usec = 900000 }

abbrev late : Timeval
late = record { tv_sec = 5; tv_usec = 100000 }

timeval_subtract-IsDifference_example : IsDifference late early (timeval_subtract late early)
timeval_subtract-IsDifference_example = timeval_subtract-IsDifference late early
