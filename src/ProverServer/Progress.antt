-- ===== src/ProverServer/Progress.antt =====
-- The work that is left in the prover's server.
use native.Mathlib.Decide.{dec_lt}
use ovote_node.Base.{
  ℕ, zero, suc, ◌+◌, ◌≤◌, ◌<◌, ◌≡◌, List, Bool, true, false, some, ◌⊎◌, inl, inr, set, get_elem?,
  refl, arith, ok, err, panic, Result, Bytes,
}
use ovote_node.ProverServer.System.{
  Thread, Handler, Goroutine, of_handler, of_goroutine, Shared, Tools, Move, System, Step, Reach,
  pick, later, after_bind, load_id, store_id, check, bind_body, name_file, write_file, write_fails,
  start, reply, lock, make_witness, make_proof, unlock,
}
use ovote_node.ProverServer.Totals.{total, total-append, total-set, member_of_total}
use ovote_node.ProverServer.Locking.{running, Held, Reach-Held, one_if}

-- The number of accesses that a thread still makes, with those of the goroutine that it starts.
abbrev pub work : Thread → ℕ
work (Thread.handler (Handler.received z)) = 12
work (Thread.handler (Handler.read_id z n)) = 11
work (Thread.handler (Handler.counted z)) = 10
work (Thread.handler (Handler.checked z b)) = 9
work (Thread.handler (Handler.bound file b)) = 8
work (Thread.handler (Handler.named file b n)) = 7
work (Thread.handler (Handler.stored b)) = 6
work (Thread.handler (Handler.started b)) = 1
work (Thread.handler (Handler.replied b n)) = 0
work (Thread.handler (Handler.failed b)) = 0
work (Thread.goroutine (Goroutine.waiting n)) = 4
work (Thread.goroutine (Goroutine.locked n)) = 3
work (Thread.goroutine (Goroutine.witnessed n)) = 2
work (Thread.goroutine (Goroutine.proved n)) = 1
work (Thread.goroutine Goroutine.finished) = 0

work-after_bind : (r : Result Bytes) (b : Bool) → work (Thread.handler (after_bind r b)) < 9
work-after_bind (ok file) b = omega arith
work-after_bind (err e) b = omega arith
work-after_bind panic b = omega arith

Move-work :
    {tools : Tools} {a a' : Shared} {p p' : Thread} {new : List Thread}
    → Move tools a p a' p' new
    → work p' + total work new < work p
Move-work (of_handler load_id) = omega arith
Move-work (of_handler store_id) = omega arith
Move-work (of_handler check) = omega arith
Move-work {tools} (of_handler (bind_body {z} {b})) = omega (arith, work-after_bind (tools.bind z) b)
Move-work (of_handler name_file) = omega arith
Move-work (of_handler write_file) = omega arith
Move-work (of_handler write_fails) = omega arith
Move-work (of_handler start) = omega arith
Move-work (of_handler reply) = omega arith
Move-work (of_goroutine (lock free)) = omega arith
Move-work (of_goroutine make_witness) = omega arith
Move-work (of_goroutine make_proof) = omega arith
Move-work (of_goroutine unlock) = omega arith

-- Every step takes work off: while no request arrives, a schedule of the threads has at most as
-- many steps as there is work.
pub Step-work :
    {tools : Tools} {s t : System} → Step tools s t → total work t.threads < total work s.threads
Step-work {s = s} (pick i {p} {p'} {a} {new} at mv) = omega (
  arith,
  Move-work mv,
  total-append work (set s.threads i p') new,
  total-set work s.threads i p p' at,
)

-- `k` steps of the threads, with no request arriving.
pub data Steps (tools : Tools) : ℕ → System → System → Type 0 where
  done : {s : System} → Steps tools 0 s s
  more : {k : ℕ} {s t u : System} → Step tools s t → Steps tools k t u → Steps tools (suc k) s u

-- A schedule of the threads makes at most as many steps as there was work, less what is left: no
-- handler and no goroutine runs for ever.
pub Steps_bound :
    {tools : Tools} {k : ℕ} {s t : System}
    → Steps tools k s t
    → k + total work t.threads ≤ total work s.threads
Steps_bound done = omega arith
Steps_bound (more st rest) = omega (arith, Step-work st, Steps_bound rest)

-- What a thread needs to move.
Ready : Shared → Thread → Type 0
Ready a p = (a.mutex ≡ false) ⊎ (0 < running p)

Moves : Tools → Shared → Thread → Type 0
Moves tools a p = (a' : Shared) × (p' : Thread) × (new : List Thread) × Move tools a p a' p' new

can_move : (tools : Tools) (a : Shared) (p : Thread) → 0 < work p → Ready a p → Moves tools a p
unfolding Ready Moves
can_move tools a (Thread.handler (Handler.received z)) h r = (_, _, _, of_handler load_id)
can_move tools a (Thread.handler (Handler.read_id z n)) h r = (_, _, _, of_handler store_id)
can_move tools a (Thread.handler (Handler.counted z)) h r = (_, _, _, of_handler check)
can_move tools a (Thread.handler (Handler.checked z b)) h r = (_, _, _, of_handler bind_body)
can_move tools a (Thread.handler (Handler.bound file b)) h r = (_, _, _, of_handler name_file)
can_move tools a (Thread.handler (Handler.named file b n)) h r = (_, _, _, of_handler write_file)
can_move tools a (Thread.handler (Handler.stored b)) h r = (_, _, _, of_handler start)
can_move tools a (Thread.handler (Handler.started b)) h r = (_, _, _, of_handler reply)
can_move tools a (Thread.handler (Handler.replied b n)) h r = elim h [ ]
can_move tools a (Thread.handler (Handler.failed b)) h r = elim h [ ]
can_move tools a (Thread.goroutine (Goroutine.waiting n)) h (inl free) =
    (_, _, _, of_goroutine (lock free))
can_move tools a (Thread.goroutine (Goroutine.waiting n)) h (inr on) = elim on [ ]
can_move tools a (Thread.goroutine (Goroutine.locked n)) h r = (_, _, _, of_goroutine make_witness)
can_move tools a (Thread.goroutine (Goroutine.witnessed n)) h r = (_, _, _, of_goroutine make_proof)
can_move tools a (Thread.goroutine (Goroutine.proved n)) h r = (_, _, _, of_goroutine unlock)
can_move tools a (Thread.goroutine Goroutine.finished) h r = elim h [ ]

work_of_running : (p : Thread) → 0 < running p → 0 < work p
work_of_running p h = ground arith

turn_of :
    (tools : Tools) (s : System) (i : ℕ) (p : Thread)
    → get_elem? s.threads i ≡ some p
    → 0 < work p
    → Ready s.shared p
    → (t : System) × Step tools s t
unfolding Moves
turn_of tools s i p at h r =
    let (a, p', new, mv) = can_move tools s.shared p h r in (_, pick i at mv)

-- While there is work, some thread can move: a goroutine that waits for the mutex waits for one
-- that runs.
progress :
    (tools : Tools) (s : System) (b : Bool)
    → s.shared.mutex ≡ b
    → Held s
    → 0 < total work s.threads
    → (t : System) × Step tools s t
unfolding Ready
progress tools s false free held h =
    let (i, p, at, some_work) = member_of_total work s.threads h in
    turn_of tools s i p at some_work (inl free)
progress tools s true busy held h =
    let (i, p, at, runs) =
      member_of_total running s.threads (running_positive s.shared.mutex held busy) in
    turn_of tools s i p at (work_of_running p runs) (inr runs)
  where
    running_positive : {n : ℕ} (b : Bool) → n ≡ one_if b → b ≡ true → 0 < n
    running_positive true e on = omega arith
    running_positive false e on = cc

finishes :
    (tools : Tools) (fuel : ℕ) (s : System)
    → total work s.threads ≤ fuel
    → Reach tools s
    → (k : ℕ) × (t : System) × Steps tools k s t × (total work t.threads ≡ 0)
finishes tools zero s fits r = (0, s, done, omega arith)
finishes tools (suc fuel) s fits r = elim (dec_lt 0 (total work s.threads)) [
  | yes some_work ↦
      (let (t, st) = progress tools s s.shared.mutex refl (Reach-Held r) some_work in
        let (k, u, rest, idle) = finishes tools fuel t (omega (arith, Step-work st)) (later st r) in
        (suc k, u, more st rest, idle))
  | no nothing ↦ (0, s, done, omega arith)
]

-- From every state that the server can come to, the threads can run until every request is
-- answered and every goroutine that was started has finished.
pub Reach-finishes :
    {tools : Tools} {s : System}
    → Reach tools s
    → (k : ℕ) × (t : System) × Steps tools k s t × (total work t.threads ≡ 0)
Reach-finishes {tools} {s} r = finishes tools (total work s.threads) s (omega arith) r
