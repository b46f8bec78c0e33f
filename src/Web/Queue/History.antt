-- ===== src/Web/Queue/History.antt =====
-- What the listener and the threads of p2/webserver_multi.c have done in a run, the last first.
use csci4730_operating_syste.Base.{ℕ, List, [], ◌∷◌, ◌++◌}
use csci4730_operating_syste.Web.Queue.{
  Shared, Producer, Consumer, Produce, Consume, System, Step, listen, work, Reach, here, next,
}

-- The socket that a step of the listener accepts.
abbrev pub accepts : {m m' : Shared} {p p' : Producer} → Produce m p m' p' → List ℕ
accepts (Produce.accept s) = s ∷ []
accepts (Produce.wait_empty room) = []
accepts (Produce.lock free) = []
accepts Produce.get_value = []
accepts Produce.write = []
accepts Produce.unlock = []
accepts Produce.post_full = []

-- The socket that a thread calls `process` with behind its step.
abbrev pub serves : {m m' : Shared} {c c' : Consumer} → Consume m c m' c' → List ℕ
serves (Consume.wait_full some_left) = []
serves (Consume.lock free) = []
serves Consume.get_value = []
serves Consume.read = []
serves Consume.unlock = []
serves (Consume.post_empty {req}) = req ∷ []
serves Consume.finish = []
serves Consume.crash = []

abbrev pub accepts_in : {n : ℕ} {s t : System} → Step n s t → List ℕ
accepts_in (listen mv) = accepts mv
accepts_in (work i lt mv) = []

abbrev pub serves_in : {n : ℕ} {s t : System} → Step n s t → List ℕ
serves_in (listen mv) = []
serves_in (work i lt mv) = serves mv

-- The sockets that `accept` has returned in the run.
abbrev pub accepted : {n : ℕ} {s t : System} → Reach n s t → List ℕ
accepted here = []
accepted (next r st) = accepts_in st ++ accepted r

-- The sockets that a thread has taken up for `process` in the run.
abbrev pub served : {n : ℕ} {s t : System} → Reach n s t → List ℕ
served here = []
served (next r st) = serves_in st ++ served r
