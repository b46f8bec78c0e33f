-- ===== src/Web/Http/Process.antt =====
-- p2/net.c: `process`, which answers one request.
use csci4730_operating_syste.Base.{
  codes, ℕ, ◌+◌, ◌-◌, Bool, false, not, Option, none, some, List, [], ◌∷◌, ◌++◌, ltb, ◌==◌,
  if◌then◌else◌, length, take,
}
use csci4730_operating_syste.Web.Text.{
  Text, crlf, ◌>>=◌, same_ignoring_case, strtok, decimal, padded, written,
}
use csci4730_operating_syste.Web.Http.{Stat, Host, send_headers, send_error, send_file}

-- What becomes of the request: `failed` is -1, `replied` is 0 with all that was written to the socket.
pub data Processed : Type 0 where
  thread_exit : Processed
  failed : Processed
  fault : Processed
  replied : Text → Processed

-- The words of the request line: method, path and protocol.
unfoldable pub parse_request : Text → Option (Text × Text × Text)
parse_request buf = do
  (method, s) ← strtok b' ' buf
  (path, t) ← strtok b' ' s
  (protocol, u) ← strtok b'\r' t
  some (method, path, protocol)

-- The bytes that the arrays hold, less the zero at the end.
abbrev pub path_max : ℕ
path_max = 4095

-- A `stat` that fails leaves the buffer as it was.
abbrev pub stat_over : Option Stat → Stat → Stat
stat_over none old = old
stat_over (some new) old = new

-- A line of the index, from the name and its `statbuf`.
unfoldable pub index_line : Host → Text → Stat → Text
index_line host name st = written (
    codes "<A HREF=\""
    ∷ name
    ∷ (if st.is_dir then codes "/" else [])
    ∷ codes "\">"
    ∷ name
    ∷ (if st.is_dir then codes "/</A>" else codes "</A> ")
    ∷ (if ltb (length name) 32 then padded (32 - length name) [] else [])
    ∷ host.list_date st.st_mtime
    ∷ (if st.is_dir then [] else b' ' ∷ padded 10 (decimal st.st_size))
    ∷ crlf
    ∷ [])

-- The loop over the directory: `none` writes behind the end of `pathbuf`.
unfoldable pub index_lines : Host → Text → Stat → List Text → Option Text
index_lines host path statbuf [] = some []
index_lines host path statbuf (name ∷ names) =
    let st = stat_over (host.stat (path ++ name)) statbuf in
    let rest = index_lines host path st names in
    if ltb path_max (length path + length name)
    then none
    else (do lines ← rest; some (index_line host name st ++ lines))

abbrev pub page_lines : Text → Text → List Text
page_lines path lines =
    codes "<HTML><HEAD><TITLE>Index of "
    ∷ path
    ∷ codes "</TITLE></HEAD>"
    ∷ crlf
    ∷ codes "<BODY>"
    ∷ codes "<H4>Index of "
    ∷ path
    ∷ codes "</H4>"
    ∷ crlf
    ∷ codes "<PRE>\n"
    ∷ codes "Name                             Last Modified              Size"
    ∷ crlf
    ∷ codes "<HR>"
    ∷ crlf
    ∷ (if ltb 1 (length path) then codes "<A HREF=\"..\">..</A>" ++ crlf else [])
    ∷ lines
    ∷ codes "</PRE>"
    ∷ crlf
    ∷ codes "<HR>"
    ∷ crlf
    ∷ codes "<ADDRESS>webserver/1.0</ADDRESS>"
    ∷ crlf
    ∷ codes "</BODY></HTML>"
    ∷ crlf
    ∷ []

unfoldable pub index_page : Host → Text → Stat → Option Text
index_page host path statbuf = do
  names ← host.readdir path
  lines ← index_lines host path statbuf names
  some (
      written (
        send_headers host 200 (codes "OK") none (some (codes "text/html")) none
          (some statbuf.st_mtime)
        ∷ page_lines path lines))

abbrev pub ends_in : ℕ → Text → Bool
ends_in c [] = false
ends_in c (x ∷ []) = x == c
ends_in c (x ∷ y ∷ s) = ends_in c (y ∷ s)

-- The answer for a path that ends in a slash; the argument is the `stat` of its index.html.
unfoldable pub answer_index : Host → Text → Text → Stat → Option Stat → Option Text
answer_index host path pathbuf statbuf none = index_page host path statbuf
answer_index host path pathbuf statbuf (some st) = some (send_file host pathbuf st)

abbrev pub index_path : Host → Text → Text
index_path host path = take path_max (host.cwd ++ path ++ codes "index.html")

unfoldable pub answer_directory : Host → Text → Stat → Option Text
answer_directory host path statbuf =
    let location = take path_max (codes "Location: " ++ path ++ codes "/") in
    let pathbuf = index_path host path in
    if not (ends_in b'/' path)
    then some (
        send_error host 302 (codes "Found") (some location)
          (codes "Directories must end with a slash."))
    else answer_index host path pathbuf statbuf (host.stat pathbuf)

unfoldable pub answer_found : Host → Text → Option Stat → Option Text
answer_found host path none =
    some (send_error host 404 (codes "Not Found") none (codes "File not found."))
answer_found host path (some statbuf) =
    if statbuf.is_dir
    then answer_directory host path statbuf
    else some (send_file host path statbuf)

-- The answer to a request: `none` writes behind the end of a buffer, or reads an `opendir` that failed.
unfoldable pub answer_request : Host → Text → Text → Option Text
answer_request host method file =
    let path = host.cwd ++ file in
    if ltb path_max (length path)
    then none
    else if not (same_ignoring_case method (codes "GET"))
    then some (send_error host 501 (codes "Not supported") none (codes "Method is not supported."))
    else answer_found host path (host.stat path)

abbrev pub outcome_of : Option Text → Processed
outcome_of none = fault
outcome_of (some text) = replied text

unfoldable pub answer_parsed : Host → Option (Text × Text × Text) → Processed
answer_parsed host none = failed
answer_parsed host (some (method, path, protocol)) = outcome_of (answer_request host method path)

unfoldable pub answer_line : Host → Option Text → Processed
answer_line host none = failed
answer_line host (some buf) = answer_parsed host (parse_request buf)

-- `crashes` is the drawing against CRASH, `opened` says if `fdopen` did, and the line is what `fgets` read.
-- Without `fdopen` the code prints the number `fd` as a string.
unfoldable pub process : Host → (crashes opened : Bool) → Option Text → Processed
process host crashes opened line =
    if crashes then thread_exit else if not opened then fault else answer_line host line
