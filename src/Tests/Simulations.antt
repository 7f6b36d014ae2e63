-- ===== src/Tests/Simulations.antt =====
-- The simulated chain over a block in which a process is created and another is frozen.
use ovote_node.Base.{
  ℕ, ◌≤◌, ◌≡◌, subst, ◌∷◌, [], refl, List, Option, none, some, ok, All, arith, inl, ◌==◌,
  if◌then◌else◌,
}
use ovote_node.Types.Process.{Process}
use ovote_node.Db.Schema.{Sqlite}
use ovote_node.Db.Invariant.{IsValid}
use ovote_node.Db.Processes.{
  new_process, scan_process, froze_processes_by_current_block_num, store_process,
  update_process_status, read_processes_by_res_pub_start_block,
}
use ovote_node.Db.FreezingById.{IsPending}
use ovote_node.Eth.TestClient.{TestEthClient, store_events_of, advance_block}
use ovote_node.Eth.Simulation.{advance_block-freezes}
use ovote_node.Tests.Toy.{db, first_process, second_process}

abbrev created : Process
created = scan_process (new_process 0 3 (6 ∷ []) 12 0 400 50 20 60 1)

abbrev before : TestEthClient
before = record {
  db = db;
  current_block = 199;
  blocks_with_event = λ block. if block == 200 then some (created ∷ []) else none;
}

abbrev after : ℕ → Sqlite
after status = record db {
  processes =
      record first_process { status = status }
      ∷ second_process
      ∷ new_process 1002 3 (6 ∷ []) 12 200 400 50 20 60 1
      ∷ [];
}

abbrev events_of : Option (List Process) → List Process
events_of none = []
events_of (some es) = es

db-IsValid : IsValid db
db-IsValid = record {
  ids = (refl, (refl, tt));
  small_ids = (omega arith, (omega arith, tt));
  votes = tt;
  voted = tt;
  proof_ids = tt;
  proved = tt;
  meta_ids = (refl, tt);
  seq = (omega arith, tt);
}

created_later :
    (es : List Process)
    → before.blocks_with_event 200 ≡ some es
    → All (λ (p : Process). 200 ≤ p.res_pub_start_block) es
created_later es h =
    subst
      (λ (o : Option (List Process)).
        All (λ (p : Process). 200 ≤ p.res_pub_start_block) (events_of o))
      h (omega arith, tt)

advance_block-freezes_example :
    (stored : Sqlite) × (store_events_of 1002 200 (some (created ∷ [])) db ≡ (stored, ok tt))
    × (froze_processes_by_current_block_num 200 stored ≡ ok (after 1))
    × (◌≡◌ {A = ℕ} 200 200)
    × IsValid (after 1)
    × All (IsPending 201) (after 1).processes
unfolding advance_block store_process read_processes_by_res_pub_start_block update_process_status
advance_block-freezes_example =
    advance_block-freezes 1002 before {e' = record before { db = after 1; current_block = 200 }}
      db-IsValid (inl (refl, omega arith), (inl (refl, omega arith), tt)) created_later refl
