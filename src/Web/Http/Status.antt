-- ===== src/Web/Http/Status.antt =====
-- Which answer `process` of p2/net.c gives.
use csci4730_operating_syste.Base.{
  codes, ℕ, ◌+◌, ◌≤◌, ◌≡◌, refl, ap, ◌∙◌, Bool, true, false, Option, none, some, List, [], ◌∷◌,
  ◌++◌, arith, ltb, if◌then◌else◌, All, length, Bool-cases, inl, inr,
}
use mathlib.Core.List.{append_assoc}
use csci4730_operating_syste.Web.Text.{Text, same_ignoring_case, written}
use csci4730_operating_syste.Web.Http.{
  Stat, Host, status_line, send_headers, send_error, send_data, send_opened, send_file,
  header_lines, error_lines,
}
use csci4730_operating_syste.Web.Http.Process.{
  replied, path_max, ends_in, stat_over, index_line, index_lines, index_page, answer_index,
  answer_directory, answer_found, answer_request, answer_parsed, answer_line, process, index_path,
  page_lines,
}
use csci4730_operating_syste.Web.Http.Parse.{IsWord, parse_request-words}

-- `t` begins with `s`.
abbrev pub Starts : Text → Text → Type 0
Starts s t = (u : Text) × (t ≡ s ++ u)

Starts-more : (s t u : Text) → Starts s t → Starts s (t ++ u)
Starts-more s t u (v, e) = (v ++ u, ap (λ x. x ++ u) e ∙ append_assoc s v u)

headers-Starts :
    (host : Host) (status : ℕ) (title : Text) (extra mime : Option Text) (len date : Option ℕ)
    → Starts (status_line status title) (send_headers host status title extra mime len date)
unfolding send_headers
headers-Starts host status title extra mime len date =
    (written (header_lines host extra mime len date), refl)

error-Starts :
    (host : Host) (status : ℕ) (title : Text) (extra : Option Text) (text : Text)
    → Starts (status_line status title) (send_error host status title extra text)
unfolding send_error
error-Starts host status title extra text =
    Starts-more (status_line status title) _ (written (error_lines status title text))
      (headers-Starts host status title extra (some (codes "text/html")) none none)

-- Status and title of an answer.
abbrev pub Verdict : Type 0
Verdict = ℕ × Text

abbrev pub verdict_line : Verdict → Text
verdict_line (status, title) = status_line status title

abbrev pub sent : {A : Type 0} → Option A → Verdict
sent none = (403, codes "Forbidden")
sent (some file) = (200, codes "OK")

opened-Starts :
    (host : Host) (path : Text) (statbuf : Stat) (o : Option Text)
    → Starts (verdict_line (sent o)) (send_opened host path statbuf o)
unfolding send_opened
opened-Starts host path statbuf none =
    error-Starts host 403 (codes "Forbidden") none (codes "Access denied.")
opened-Starts host path statbuf (some file) =
    Starts-more (status_line 200 (codes "OK")) _ (send_data (length file + 1) file)
      (headers-Starts host 200 (codes "OK") none _ _ _)

file-Starts :
    (host : Host) (path : Text) (statbuf : Stat)
    → Starts (verdict_line (sent (host.fopen path))) (send_file host path statbuf)
unfolding send_file
file-Starts host path statbuf = opened-Starts host path statbuf (host.fopen path)

index_lines-some :
    (host : Host) (path : Text) (statbuf : Stat) (names : List Text)
    → All (λ (n : Text). length path + length n ≤ path_max) names
    → (lines : Text) × (index_lines host path statbuf names ≡ some lines)
unfolding index_lines
index_lines-some host path statbuf [] fits = ([], refl)
index_lines-some host path statbuf (name ∷ names) fits =
    let st = stat_over (host.stat (path ++ name)) statbuf in
    let (lines, e) = index_lines-some host path st names fits.1 in
    let short : ltb path_max (length path + length name) ≡ false = ground (arith, fits.0) in
    (index_line host name st ++ lines, rw (short, e) refl)

-- The directory can be read, and the paths of its entries fit the buffer.
abbrev pub Listable : Host → Text → Type 0
Listable host path =
    (names : List Text) × (host.readdir path ≡ some names)
    × All (λ (n : Text). length path + length n ≤ path_max) names

abbrev pub indexed : Host → Text → Option Stat → Verdict
indexed host path none = (200, codes "OK")
indexed host path (some st) = sent (host.fopen (index_path host path))

abbrev pub verdict_found : Host → Text → Option Stat → Verdict
verdict_found host path none = (404, codes "Not Found")
verdict_found host path (some st) =
    if st.is_dir
    then if ends_in b'/' path
      then indexed host path (host.stat (index_path host path))
      else (302, codes "Found")
    else sent (host.fopen path)

-- The status of the answer to a request for the file `path`.
abbrev pub verdict : Host → (method path : Text) → Verdict
verdict host method path =
    if same_ignoring_case method (codes "GET")
    then verdict_found host path (host.stat path)
    else (501, codes "Not supported")

Answers : Option Text → Verdict → Type 0
Answers o v = (text : Text) × (o ≡ some text) × Starts (verdict_line v) text

if-Answers :
    (b : Bool) (o p : Option Text) (v w : Verdict)
    → (b ≡ true → Answers o v)
    → (b ≡ false → Answers p w)
    → Answers (if b then o else p) (if b then v else w)
if-Answers true o p v w first second = first refl
if-Answers false o p v w first second = second refl

page-Answers :
    (host : Host) (path : Text) (statbuf : Stat)
    → Listable host path
    → Answers (index_page host path statbuf) (200, codes "OK")
unfolding Answers index_page
page-Answers host path statbuf (names, e, fits) =
    let (lines, e₂) = index_lines-some host path statbuf names fits in
    let head =
      send_headers host 200 (codes "OK") none (some (codes "text/html")) none
        (some statbuf.st_mtime) in
    (
      head ++ written (page_lines path lines),
      rw (e, e₂) refl,
      Starts-more (status_line 200 (codes "OK")) head (written (page_lines path lines)) (
          headers-Starts host 200 (codes "OK") none (some (codes "text/html")) none
            (some statbuf.st_mtime)),
    )

index-Answers :
    (host : Host) (path : Text) (statbuf : Stat) (o : Option Stat)
    → Listable host path
    → Answers (answer_index host path (index_path host path) statbuf o) (indexed host path o)
unfolding Answers answer_index
index-Answers host path statbuf none listable = page-Answers host path statbuf listable
index-Answers host path statbuf (some st) listable =
    (send_file host (index_path host path) st, refl, file-Starts host (index_path host path) st)

directory-Answers :
    (host : Host) (path : Text) (statbuf : Stat)
    → Listable host path
    → Answers (answer_directory host path statbuf) (
        if ends_in b'/' path
        then indexed host path (host.stat (index_path host path))
        else (302, codes "Found"))
unfolding Answers answer_directory
directory-Answers host path statbuf listable = elim (Bool-cases (ends_in b'/' path)) [
  | inl slash ↦
      rw slash (index-Answers host path statbuf (host.stat (index_path host path)) listable)
  | inr bare ↦ rw bare (
    _,
    refl,
    error-Starts host 302 (codes "Found") _ (codes "Directories must end with a slash."),
  )
]

found-Answers :
    (host : Host) (path : Text) (o : Option Stat)
    → ((st : Stat) → o ≡ some st → st.is_dir ≡ true → Listable host path)
    → Answers (answer_found host path o) (verdict_found host path o)
unfolding Answers answer_found
found-Answers host path none listable =
    (_, refl, error-Starts host 404 (codes "Not Found") none (codes "File not found."))
found-Answers host path (some st) listable =
    if-Answers st.is_dir _ _ _ _ (λ dir. directory-Answers host path st (listable st refl dir))
      λ other. (send_file host path st, refl, file-Starts host path st)

request-Answers :
    (host : Host) (method file : Text)
    → length (host.cwd ++ file) ≤ path_max
    → ((st : Stat)
        → host.stat (host.cwd ++ file) ≡ some st
        → st.is_dir ≡ true
        → Listable host (host.cwd ++ file))
    → Answers (answer_request host method file) (verdict host method (host.cwd ++ file))
unfolding Answers answer_request
request-Answers host method file fits listable =
    let path = host.cwd ++ file in
    let short : ltb path_max (length path) ≡ false = ground (arith, fits) in
    elim (Bool-cases (same_ignoring_case method (codes "GET"))) [
      | inl get ↦ rw (short, get) (found-Answers host path (host.stat path) listable)
      | inr other ↦
          rw (short, other)
            (
              _,
              refl,
              error-Starts host 501 (codes "Not supported") none (codes "Method is not supported."),
            )
    ]

-- For a request line of a method, a path and a protocol, each a word, with the path behind the working
-- directory not longer than the buffer, and, where it is a directory, one that can be read and whose
-- entries fit the buffer: `process` replies, and the reply begins with the status line of the verdict. It
-- is 501 if the method is not GET, then 404 if there is no such file; for a directory 302 without a
-- slash at the end, else 200 for the listing or what sending the index file gives; for a file 200, or
-- 403 if it cannot be opened.
pub process-verdict :
    (host : Host) (method file protocol rest : Text)
    → IsWord b' ' method
    → IsWord b' ' file
    → IsWord b'\r' protocol
    → length (host.cwd ++ file) ≤ path_max
    → ((st : Stat)
        → host.stat (host.cwd ++ file) ≡ some st
        → st.is_dir ≡ true
        → Listable host (host.cwd ++ file))
    → (text : Text) × (process host false true
          (some (method ++ b' ' ∷ (file ++ b' ' ∷ (protocol ++ b'\r' ∷ rest))))
        ≡ replied text)
      × Starts (verdict_line (verdict host method (host.cwd ++ file))) text
unfolding process answer_line answer_parsed Answers
process-verdict host method file protocol rest m f p fits listable =
    let (text, e, starts) = request-Answers host method file fits listable in
    (text, rw (parse_request-words method file protocol rest m f p, e) refl, starts)
