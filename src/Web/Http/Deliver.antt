-- ===== src/Web/Http/Deliver.antt =====
-- `send_file` of p2/net.c sends the whole file.
use csci4730_operating_syste.Base.{
  codes, ℕ, zero, suc, ◌+◌, ◌<◌, ◌≡◌, refl, ap, ◌∙◌, none, some, [], ◌∷◌, ◌++◌, arith,
  if◌then◌else◌, length, drop, length-drop, take-drop,
}
use csci4730_operating_syste.Web.Text.{Text}
use csci4730_operating_syste.Web.Http.{
  Stat, Host, send_headers, send_data, send_opened, send_file, get_mime_type,
}

send_data-file : (k : ℕ) (file : Text) → length file < k → send_data k file ≡ file
unfolding send_data
send_data-file zero file enough = elim enough [ ]
send_data-file (suc k) [] enough = refl
send_data-file (suc k) (x ∷ file) enough =
    let shorter : length (drop 4095 file) < k = omega (arith, length-drop 4095 file, enough) in
    rw (send_data-file k (drop 4095 file) shorter)
      (ground (arith, ap (λ ys. x ∷ ys) (take-drop 4095 file)))

-- If the file can be opened, `send_file` writes the headers of status 200, with its type, its size if it is
-- a regular file, and its date, and then the whole file, read in blocks of 4096 bytes.
pub send_file-content :
    (host : Host) (path : Text) (statbuf : Stat) (file : Text)
    → host.fopen path ≡ some file
    → send_file host path statbuf
      ≡ send_headers host 200
          (codes "OK")
          none
          (get_mime_type path)
          (if statbuf.is_reg then some statbuf.st_size else none)
          (some statbuf.st_mtime)
        ++ file
unfolding send_file send_opened
send_file-content host path statbuf file opened =
    let len = if statbuf.is_reg then some statbuf.st_size else none in
    let head =
      send_headers host 200 (codes "OK") none (get_mime_type path) len (some statbuf.st_mtime) in
    ap (send_opened host path statbuf) opened
    ∙ ap (λ d. head ++ d) (send_data-file (length file + 1) file (omega arith))
