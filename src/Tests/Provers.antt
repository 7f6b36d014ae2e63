-- ===== src/Tests/Provers.antt =====
-- A run of the prover's server: a request, whose goroutine holds the mutex, and a second request.
use ovote_node.Base.{ℕ, ◌+◌, ◌≤◌, ◌≡◌, [], ◌∷◌, refl, true, Bytes, ok, some, ◌↔◌}
use ovote_node.ProverServer.System.{
  Thread, Handler, Goroutine, of_handler, of_goroutine, Shared, Tools, System, Reach, pick, begun,
  arrives, later, get_status, load_id, store_id, check, bind_body, name_file, write_file, start,
  reply, lock, make_witness,
}
use ovote_node.ProverServer.Totals.{total}
use ovote_node.ProverServer.Locking.{running, mutual_exclusion, get_status-inverted}
use ovote_node.ProverServer.Progress.{work, Steps, done, more, Steps_bound, Reach-finishes}

-- A prover whose witness is the file, and whose proof comes with it.
abbrev pub copying : Tools
copying = record {
  bind = λ body. ok body;
  generate_witness = λ file. some file;
  prove = λ witness. some (witness, witness);
}

abbrev pub body : Bytes
body = 1 ∷ []

abbrev pub shared : Shared
shared = record { last_id = 1; mutex = true; inputs = (1, body) ∷ []; witnesses = []; proofs = [] }

-- The first goroutine runs, and a second request has arrived.
abbrev pub busy : System
busy = record {
  shared = shared;
  threads =
      Thread.handler (Handler.started true)
      ∷ Thread.goroutine (Goroutine.locked 1)
      ∷ Thread.handler (Handler.received body)
      ∷ [];
}

pub reaches : Reach copying busy
reaches = arrives body (
    later (pick 1 refl (of_goroutine (lock refl))) (
      later (pick 0 refl (of_handler start)) (
        later (pick 0 refl (of_handler write_file)) (
          later (pick 0 refl (of_handler name_file)) (
            later (pick 0 refl (of_handler bind_body)) (
              later (pick 0 refl (of_handler check)) (
                later (pick 0 refl (of_handler store_id))
                  (later (pick 0 refl (of_handler load_id)) (arrives body begun)))))))))

mutual_exclusion_example : ◌≡◌ {A = ℕ} 1 1
mutual_exclusion_example =
    mutual_exclusion reaches 1 1 (Thread.goroutine (Goroutine.locked 1))
      (Thread.goroutine (Goroutine.locked 1)) refl refl refl refl

get_status-inverted_example :
    ((get_status shared ≡ 423) ↔ (total running busy.threads ≡ 0))
    × ((get_status shared ≡ 200) ↔ (total running busy.threads ≡ 1))
get_status-inverted_example = get_status-inverted reaches

-- The first request is answered, and the goroutine makes its witness.
abbrev pub further : System
further = record {
  shared = record shared { witnesses = (1, body) ∷ [] };
  threads =
      Thread.handler (Handler.replied true 1)
      ∷ Thread.goroutine (Goroutine.witnessed 1)
      ∷ Thread.handler (Handler.received body)
      ∷ [];
}

steps : Steps copying 2 busy further
steps = more (pick 0 refl (of_handler reply)) (more (pick 1 refl (of_goroutine make_witness)) done)

Steps_bound_example : 2 + total work further.threads ≤ total work busy.threads
Steps_bound_example = Steps_bound steps

Reach-finishes_example :
    (k : ℕ) × (t : System) × Steps copying k busy t × (total work t.threads ≡ 0)
Reach-finishes_example = Reach-finishes reaches
