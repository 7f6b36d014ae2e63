-- ===== src/ProverServer/System.antt =====
-- cmd/prover-server/cmd.go and proof.go. A request for a proof is a handler, which starts a
-- goroutine that runs the prover under the mutex; threads are interleaved one access to the shared
-- state at a time. Reading and writing JSON is a parameter, and so are the commands of the prover, and whether a file can be
-- written.
use ovote_node.Base.{
  ℕ, ◌+◌, ◌++◌, [], ◌∷◌, List, Bytes, Bool, true, false, not, some, ◌≡◌, ok, err, panic, Result,
  set, get_elem?, if◌then◌else◌, Option, none, ◌==◌,
}

-- Where the handler genProof stands, with the local variables that are live there.
pub data Handler : Type 0 where
  received : Bytes → Handler
  read_id : Bytes → ℕ → Handler  -- inside `a.lastID++`
  counted : Bytes → Handler
  checked : Bytes → (busy_sent : Bool) → Handler
  bound : (file : Bytes) (busy_sent : Bool) → Handler
  named : (file : Bytes) (busy_sent : Bool) → ℕ → Handler  -- inside the call of WriteFile
  stored : (busy_sent : Bool) → Handler
  started : (busy_sent : Bool) → Handler
  replied : (busy_sent : Bool) → ℕ → Handler
  failed : (busy_sent : Bool) → Handler

-- Where the goroutine genWitnessAndProof stands.
pub data Goroutine : Type 0 where
  waiting : ℕ → Goroutine
  locked : ℕ → Goroutine
  witnessed : ℕ → Goroutine
  proved : ℕ → Goroutine
  finished : Goroutine

pub data Thread : Type 0 where
  handler : Handler → Thread
  goroutine : Goroutine → Thread

-- `api`, with the directory: the files "zkinputs<id>.json", "witness<id>.wtns", and
-- "proof<id>.json" with "public<id>.json", each kind with the newest first.
pub record Shared : Type 0 where
  pub last_id : ℕ
  pub mutex : Bool
  pub inputs : List (ℕ × Bytes)
  pub witnesses : List (ℕ × Bytes)
  pub proofs : List (ℕ × (Bytes × Bytes))

-- `isBusy`: whether the mutex is locked.
abbrev pub is_busy : Shared → Bool
is_busy a = a.mutex

-- The binding of a body to ZKInputs with its MarshalIndent, and the commands of genWitness and
-- genProof, where `none` is a failure, which leaves the files as they were.
pub record Tools : Type 0 where
  pub bind : Bytes → Result Bytes
  pub generate_witness : Bytes → Option Bytes
  pub prove : Bytes → Option (Bytes × Bytes)

-- The file of an id, which a later one of the same id replaces.
abbrev pub read_file {ℓ} : {A : Type ℓ} → ℕ → List (ℕ × A) → Option A
read_file n [] = none
read_file n ((m, file) ∷ files) = let rest = read_file n files in if m == n then some file else rest

abbrev pub write {ℓ} : {A : Type ℓ} → ℕ → Option A → List (ℕ × A) → List (ℕ × A)
write n none files = files
write n (some file) files = (n, file) ∷ files

-- A command on a file, which fails if the file is not there.
abbrev pub run_on {ℓ κ} : {A : Type ℓ} {B : Type κ} → (A → Option B) → Option A → Option B
run_on command none = none
run_on command (some file) = command file

-- The errors of both commands are only logged.
abbrev pub gen_witness : Tools → ℕ → Shared → Shared
gen_witness tools n a = record a {
  witnesses = write n (run_on tools.generate_witness (read_file n a.inputs)) a.witnesses;
}

abbrev pub gen_proof : Tools → ℕ → Shared → Shared
gen_proof tools n a = record a {
  proofs = write n (run_on tools.prove (read_file n a.witnesses)) a.proofs;
}

abbrev pub after_bind : Result Bytes → Bool → Handler
after_bind (ok file) b = bound file b
after_bind (err e) b = failed b
after_bind panic b = failed b

-- One access of the handler: the shared state and the handler after it, and the goroutines that it
-- starts.
pub data HandlerMove (tools : Tools) (a : Shared)
    : Handler → Shared → Handler → List Thread → Type 0 where
  load_id : {z : Bytes} → HandlerMove tools a (received z) a (read_id z a.last_id) []
  store_id :
      {z : Bytes} {n : ℕ}
      → HandlerMove tools a (read_id z n) (record a { last_id = n + 1 }) (counted z) []
  -- `if !a.isBusy()`, which does not return
  check : {z : Bytes} → HandlerMove tools a (counted z) a (checked z (not (is_busy a))) []
  bind_body :
      {z : Bytes} {b : Bool} → HandlerMove tools a (checked z b) a (after_bind (tools.bind z) b) []
  name_file :
      {file : Bytes} {b : Bool} → HandlerMove tools a (bound file b) a (named file b a.last_id) []
  write_file :
      {file : Bytes} {b : Bool} {n : ℕ}
      → HandlerMove tools a
          (named file b n)
          (record a { inputs = (n, file) ∷ a.inputs })
          (stored b)
          []
  write_fails :
      {file : Bytes} {b : Bool} {n : ℕ} → HandlerMove tools a (named file b n) a (failed b) []
  start :
      {b : Bool}
      → HandlerMove tools a (stored b) a (started b) (Thread.goroutine (waiting a.last_id) ∷ [])
  reply : {b : Bool} → HandlerMove tools a (started b) a (replied b a.last_id) []

-- One access of the goroutine.
pub data GoroutineMove (tools : Tools) (a : Shared) : Goroutine → Shared → Goroutine → Type 0 where
  lock :
      {n : ℕ}
      → a.mutex ≡ false
      → GoroutineMove tools a (waiting n) (record a { mutex = true }) (locked n)
  make_witness : {n : ℕ} → GoroutineMove tools a (locked n) (gen_witness tools n a) (witnessed n)
  make_proof : {n : ℕ} → GoroutineMove tools a (witnessed n) (gen_proof tools n a) (proved n)
  unlock : {n : ℕ} → GoroutineMove tools a (proved n) (record a { mutex = false }) finished

pub data Move (tools : Tools) (a : Shared) : Thread → Shared → Thread → List Thread → Type 0 where
  of_handler :
      {h h' : Handler} {a' : Shared} {new : List Thread}
      → HandlerMove tools a h a' h' new
      → Move tools a (Thread.handler h) a' (Thread.handler h') new
  of_goroutine :
      {g g' : Goroutine} {a' : Shared}
      → GoroutineMove tools a g a' g'
      → Move tools a (Thread.goroutine g) a' (Thread.goroutine g') []

pub record System : Type 0 where
  pub shared : Shared
  pub threads : List Thread

pub data Step (tools : Tools) (s : System) : System → Type 0 where
  pick :
      (i : ℕ) {p p' : Thread} {a : Shared} {new : List Thread}
      → get_elem? s.threads i ≡ some p
      → Move tools s.shared p a p' new
      → Step tools s (record { shared = a; threads = set s.threads i p' ++ new })

-- `main` in an empty directory.
abbrev pub init : System
init = record {
  shared = record { last_id = 0; mutex = false; inputs = []; witnesses = []; proofs = [] };
  threads = [];
}

-- `main` in the directory that an earlier run has left.
abbrev pub restart : System → System
restart s = record { shared = record s.shared { last_id = 0; mutex = false }; threads = [] }

-- What the server can come to: requests arrive, and the process restarts, at any
-- time.
pub data Reach (tools : Tools) : System → Type 0 where
  begun : Reach tools init
  arrives :
      {s : System} (body : Bytes)
      → Reach tools s
      → Reach tools (record s { threads = s.threads ++ Thread.handler (received body) ∷ [] })
  restarted : {s : System} → Reach tools s → Reach tools (restart s)
  later : {s t : System} → Step tools s t → Reach tools s → Reach tools t

-- getStatus writes a second body after the first: the status is that of the first.
unfoldable pub get_status : Shared → ℕ
get_status a = if not (is_busy a) then 423 else 200
