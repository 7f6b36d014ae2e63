-- ===== src/ProverServer/Locking.antt =====
-- The goroutines of the prover's server and its mutex.
use ovote_node.Base.{
  ℕ, ◌+◌, ◌-◌, ◌≤◌, ◌≡◌, [], ◌∷◌, List, Bool, true, false, some, ◌↔◌, inl, inr, set, get_elem?,
  refl, arith,
}
use ovote_node.ProverServer.System.{
  Thread, Goroutine, of_handler, of_goroutine, Shared, Tools, Move, System, Step, Reach, pick,
  begun, arrives, restarted, later, get_status, load_id, store_id, check, bind_body, name_file,
  write_file, write_fails, start, reply, lock, make_witness, make_proof, unlock, received,
}
use ovote_node.ProverServer.Totals.{total, total-append, total-set, le-total, two_le-total}

-- Whether a thread stands between the Lock and the Unlock of genWitnessAndProof.
abbrev pub running : Thread → ℕ
running (Thread.handler h) = 0
running (Thread.goroutine (Goroutine.waiting n)) = 0
running (Thread.goroutine (Goroutine.locked n)) = 1
running (Thread.goroutine (Goroutine.witnessed n)) = 1
running (Thread.goroutine (Goroutine.proved n)) = 1
running (Thread.goroutine Goroutine.finished) = 0

abbrev pub one_if : Bool → ℕ
one_if true = 1
one_if false = 0

-- A move keeps the count of running goroutines equal to the state of the mutex.
Move-Held :
    {tools : Tools} {a a' : Shared} {p p' : Thread} {new : List Thread}
    → (n : ℕ) → Move tools a p a' p' new
    → n + running p ≡ one_if a.mutex
    → n + running p' + total running new ≡ one_if a'.mutex
Move-Held n (of_handler load_id) h = omega arith
Move-Held n (of_handler store_id) h = omega arith
Move-Held n (of_handler check) h = omega arith
Move-Held n (of_handler bind_body) h = omega arith
Move-Held n (of_handler name_file) h = omega arith
Move-Held n (of_handler write_file) h = omega arith
Move-Held n (of_handler write_fails) h = omega arith
Move-Held n (of_handler start) h = omega arith
Move-Held n (of_handler reply) h = omega arith
Move-Held {a = a} n (of_goroutine (lock free)) h = ground arith
Move-Held n (of_goroutine make_witness) h = omega arith
Move-Held n (of_goroutine make_proof) h = omega arith
Move-Held {a = a} n (of_goroutine unlock) h = ground arith

abbrev pub Held : System → Type 0
Held s = total running s.threads ≡ one_if s.shared.mutex

Step-Held : {tools : Tools} {s t : System} → Step tools s t → Held s → Held t
Step-Held {s = s} (pick i {p} {p'} {a} {new} at mv) h =
    let rest = total running s.threads - running p in
    let fits = le-total running s.threads i p at in
    let moved = Move-Held rest mv (omega arith) in
    omega
      (arith, total-append running (set s.threads i p') new, total-set running s.threads i p p' at)

pub Reach-Held : {tools : Tools} {s : System} → Reach tools s → Held s
Reach-Held begun = refl
Reach-Held (arrives {s} body r) =
    omega
      (arith, Reach-Held r, total-append running s.threads (Thread.handler (received body) ∷ []))
Reach-Held (restarted r) = refl
Reach-Held (later st r) = Step-Held st (Reach-Held r)

-- However requests arrive and threads interleave, at most one goroutine is between its Lock and
-- its Unlock, and so runs the prover's commands.
pub mutual_exclusion :
    {tools : Tools} {s : System}
    → Reach tools s
    → (i j : ℕ) (p q : Thread) → get_elem? s.threads i ≡ some p
    → get_elem? s.threads j ≡ some q
    → running p ≡ 1
    → running q ≡ 1
    → i ≡ j
mutual_exclusion {s = s} r i j p q at_i at_j on_i on_j =
    elim (two_le-total running s.threads i j p q at_i at_j) [
      | inl same ↦ same
      | inr both ↦ absurd (too_many s.shared.mutex (Reach-Held r) (omega arith))
    ]
  where
    too_many : {n : ℕ} (b : Bool) → n ≡ one_if b → 2 ≤ n → ⊥
    too_many true e two = omega arith
    too_many false e two = omega arith

answers :
    {n : ℕ} (a : Shared)
    → n ≡ one_if a.mutex
    → ((get_status a ≡ 423) ↔ (n ≡ 0)) × ((get_status a ≡ 200) ↔ (n ≡ 1))
unfolding get_status
answers a h = ground arith

-- In every state that the server can come to, the status request is answered with 423, "prover
-- busy", exactly when no goroutine runs the prover, and with 200 exactly when one does.
pub get_status-inverted :
    {tools : Tools} {s : System}
    → Reach tools s
    → ((get_status s.shared ≡ 423) ↔ (total running s.threads ≡ 0))
      × ((get_status s.shared ≡ 200) ↔ (total running s.threads ≡ 1))
get_status-inverted {s = s} r = answers s.shared (Reach-Held r)
