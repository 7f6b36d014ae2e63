-- ===== src/Eth/TestClient.antt =====
-- eth/tester.go: the client that simulates the chain. An error leaves what was written before it,
-- so the client stands beside the result.
use ovote_node.Base.{ℕ, [], ◌∷◌, List, Option, none, some, Result, ok, err, panic, add64}
use ovote_node.Types.Process.{Process, process_status_frozen}
use ovote_node.Db.Schema.{Sqlite}
use ovote_node.Db.Processes.{
  store_process, update_process_status, read_processes_by_res_pub_start_block,
}

-- A TestEvent is a Process; `blocks_with_event` is the map from blocks to their events.
pub record TestEthClient : Type 0 where
  pub db : Sqlite
  pub current_block : ℕ
  pub blocks_with_event : ℕ → Option (List Process)

abbrev pub Outcome : Type 0
Outcome = Sqlite × Result (Unit {0})

-- `if err != nil { return err }` with the database passed along.
abbrev pub and_then : Outcome → (Sqlite → Outcome) → Outcome
and_then (s, ok done) k = k s
and_then (s, err e) k = (s, err e)
and_then (s, panic) k = (s, panic)

-- A statement that fails leaves the database as it was.
abbrev pub run : Sqlite → Result Sqlite → Outcome
run s (ok s') = (s', ok tt)
run s (err e) = (s, err e)
run s panic = (s, panic)

unfoldable pub store_events : (now block : ℕ) → List Process → Sqlite → Outcome
store_events now block [] s = (s, ok tt)
store_events now block (e ∷ events) s =
    and_then
      (run s (
        store_process now e.id e.census_root e.census_size block e.res_pub_start_block
          e.res_pub_window e.min_participation e.min_positive_votes e.typ s))
      (store_events now block events)

unfoldable pub store_events_of : (now block : ℕ) → Option (List Process) → Sqlite → Outcome
unfolding store_events
store_events_of now block none s = (s, ok tt)
store_events_of now block (some events) s = store_events now block events s

unfoldable pub freeze_each : List Process → Sqlite → Outcome
freeze_each [] s = (s, ok tt)
freeze_each (p ∷ processes) s =
    and_then (run s (update_process_status p.id process_status_frozen s)) (freeze_each processes)

unfoldable pub freeze_read : Result (List Process) → Sqlite → Outcome
unfolding freeze_each
freeze_read (ok processes) s = freeze_each processes s
freeze_read (err e) s = (s, err e)
freeze_read panic s = (s, panic)

unfoldable pub advance_to : (now block : ℕ) → Option (List Process) → Sqlite → Outcome
unfolding store_events_of freeze_read
advance_to now block events s =
    and_then (store_events_of now block events s)
      (λ s'. freeze_read (read_processes_by_res_pub_start_block block s') s')

unfoldable pub advance_block : (now : ℕ) → TestEthClient → TestEthClient × Result (Unit {0})
unfolding advance_to
advance_block now e =
    let block = add64 e.current_block 1 in
    let after = advance_to now block (e.blocks_with_event block) e.db in
    (record e { db = after.0; current_block = block }, after.1)
