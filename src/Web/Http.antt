-- ===== src/Web/Http.antt =====
-- p2/net.c: the answers of the web server. What `stat`, `fopen`, `opendir`, `time`, `getcwd` and `strftime`
-- give is the parameter `Host`; what is printed to the terminal is left out.
pub mod Process
pub mod Parse
pub mod Mime
pub mod Overrun
pub mod Status
pub mod Deliver
mod Tests
use csci4730_operating_syste.Base.{
  codes, ℕ, zero, suc, ◌+◌, ◌-◌, Bool, true, false, ◌||◌, not, Option, none, some, List, [], ◌∷◌,
  ◌++◌, ltb, ◌==◌, if◌then◌else◌, length, take, drop,
}
use csci4730_operating_syste.Web.Text.{Text, crlf, same_text, strrchr, decimal, written}

-- `struct stat`
pub record Stat : Type 0 where
  pub is_dir : Bool
  pub is_reg : Bool
  pub st_size : ℕ
  pub st_mtime : ℕ

-- `none` is a call that fails, and for `readdir` an `opendir` that does.
pub record Host : Type 0 where
  pub stat : Text → Option Stat
  pub fopen : Text → Option Text
  pub readdir : Text → Option (List Text)
  pub cwd : Text
  pub time : ℕ
  pub http_date : ℕ → Text
  pub list_date : ℕ → Text

-- The extension as `strrchr` has found it.
unfoldable pub mime_of : Option Text → Option Text
unfolding same_text
mime_of none = none
mime_of (some ext) =
    if same_text ext (codes ".html") || same_text ext (codes ".htm")
    then some (codes "text/html")
    else if same_text ext (codes ".jpg") || same_text ext (codes ".jpeg")
    then some (codes "image/jpeg")
    else if same_text ext (codes ".gif")
    then some (codes "image/gif")
    else if same_text ext (codes ".png")
    then some (codes "image/png")
    else if same_text ext (codes ".css")
    then some (codes "text/css")
    else if same_text ext (codes ".au")
    then some (codes "audio/basic")
    else if same_text ext (codes ".wav")
    then some (codes "audio/wav")
    else if same_text ext (codes ".avi")
    then some (codes "video/x-msvideo")
    else if same_text ext (codes ".mpeg") || same_text ext (codes ".mpg")
    then some (codes "video/mpeg")
    else if same_text ext (codes ".mp3")
    then some (codes "audio/mpeg")
    else none

unfoldable pub get_mime_type : Text → Option Text
get_mime_type name = mime_of (strrchr name b'.')

-- A line that is left out when its value is NULL or negative.
abbrev pub line_if : {A : Type 0} → Option A → (A → Text) → Text
line_if none print = []
line_if (some a) print = print a ++ crlf

abbrev pub status_line : ℕ → Text → Text
status_line status title = written (codes "HTTP/1.0 " ∷ decimal status ∷ (b' ' ∷ title) ∷ crlf ∷ [])

-- `len` and `date` are `none` for -1.
abbrev pub header_lines : Host → (extra mime : Option Text) (len date : Option ℕ) → List Text
header_lines host extra mime len date =
    codes "Server: webserver/1.0"
    ∷ crlf
    ∷ codes "Date: "
    ∷ host.http_date host.time
    ∷ crlf
    ∷ line_if extra (λ e. e)
    ∷ line_if mime (λ m. codes "Content-Type: " ++ m)
    ∷ line_if len (λ n. codes "Content-Length: " ++ decimal n)
    ∷ line_if date (λ t. codes "Last-Modified: " ++ host.http_date t)
    ∷ codes "Connection: close"
    ∷ crlf
    ∷ crlf
    ∷ []

unfoldable pub send_headers :
    Host → (status : ℕ) (title : Text) (extra mime : Option Text) (len date : Option ℕ) → Text
send_headers host status title extra mime len date =
    written (status_line status title ∷ header_lines host extra mime len date)

abbrev pub error_lines : (status : ℕ) (title text : Text) → List Text
error_lines status title text =
    codes "<HTML><HEAD><TITLE>"
    ∷ decimal status
    ∷ (b' ' ∷ title)
    ∷ codes "</TITLE></HEAD>"
    ∷ crlf
    ∷ codes "<BODY><H4>"
    ∷ decimal status
    ∷ (b' ' ∷ title)
    ∷ codes "</H4>"
    ∷ crlf
    ∷ text
    ∷ crlf
    ∷ codes "</BODY></HTML>"
    ∷ crlf
    ∷ []

unfoldable pub send_error :
    Host → (status : ℕ) (title : Text) (extra : Option Text) (text : Text) → Text
send_error host status title extra text = written (
    send_headers host status title extra (some (codes "text/html")) none none
    ∷ error_lines status title text)

-- The loop of `fread` and `fwrite` over 4096 bytes; the file is what is left to read.
unfoldable pub send_data : ℕ → Text → Text
send_data zero file = []
send_data (suc k) file =
    let rest = send_data k (drop 4096 file) in
    if length (take 4096 file) == 0 then [] else take 4096 file ++ rest

unfoldable pub send_opened : Host → Text → Stat → Option Text → Text
send_opened host path statbuf none =
    send_error host 403 (codes "Forbidden") none (codes "Access denied.")
send_opened host path statbuf (some file) =
    let len = if statbuf.is_reg then some statbuf.st_size else none in
    send_headers host 200 (codes "OK") none (get_mime_type path) len (some statbuf.st_mtime)
    ++ send_data (length file + 1) file

unfoldable pub send_file : Host → Text → Stat → Text
send_file host path statbuf = send_opened host path statbuf (host.fopen path)
