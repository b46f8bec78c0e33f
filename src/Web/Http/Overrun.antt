-- ===== src/Web/Http/Overrun.antt =====
-- Where `process` of p2/net.c writes behind the end of a buffer.
use native.Mathlib.Decide.{dec_lt}
use csci4730_operating_syste.Base.{
  ◌<◌, ◌≡◌, ◌≢◌, ◌↔◌, refl, sym, ◌∙◌, true, false, some, ◌∷◌, ◌++◌, arith, ltb, length,
}
use csci4730_operating_syste.Web.Text.{Text}
use csci4730_operating_syste.Web.Http.{Stat, Host}
use csci4730_operating_syste.Web.Http.Process.{
  replied, fault, path_max, answer_request, answer_parsed, answer_line, process,
}
use csci4730_operating_syste.Web.Http.Parse.{IsWord, parse_request-words}
use csci4730_operating_syste.Web.Http.Status.{Listable, process-verdict}

replied_not_fault : (text : Text) → replied text ≢ fault
replied_not_fault text e = cc

process-long :
    (host : Host) (method file protocol rest : Text)
    → IsWord b' ' method
    → IsWord b' ' file
    → IsWord b'\r' protocol
    → path_max < length (host.cwd ++ file)
    → process host false true (some (method ++ b' ' ∷ (file ++ b' ' ∷ (protocol ++ b'\r' ∷ rest))))
      ≡ fault
unfolding process answer_line answer_parsed answer_request
process-long host method file protocol rest m f p long =
    let over : ltb path_max (length (host.cwd ++ file)) ≡ true = ground (arith, long) in
    rw (parse_request-words method file protocol rest m f p, over) refl

-- For a request line of a method, a path and a protocol, each a word, and a path behind the working
-- directory that, where it is a directory, can be read and has entries that fit the buffer:
-- `process` writes behind the end of a buffer exactly if the path behind the working directory is
-- longer than the buffer, whatever the method and whether the file is there.
pub process-overrun :
    (host : Host) (method file protocol rest : Text)
    → IsWord b' ' method
    → IsWord b' ' file
    → IsWord b'\r' protocol
    → ((st : Stat)
        → host.stat (host.cwd ++ file) ≡ some st
        → st.is_dir ≡ true
        → Listable host (host.cwd ++ file))
    → (process host false true (some (method ++ b' ' ∷ (file ++ b' ' ∷ (protocol ++ b'\r' ∷ rest))))
        ≡ fault)
      ↔ (path_max < length (host.cwd ++ file))
process-overrun host method file protocol rest m f p listable = (
  λ faults. elim (dec_lt path_max (length (host.cwd ++ file))) [
    | yes long ↦ long
    | no short ↦
        let (text, e, _) =
          process-verdict host method file protocol rest m f p (omega (arith, short)) listable in
        absurd (replied_not_fault text (sym e ∙ faults))
  ],
  λ long. process-long host method file protocol rest m f p long,
)
