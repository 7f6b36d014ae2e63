-- ===== src/VotesAggregator/SyncProcesses.antt =====
-- VotesAggregator.SyncProcesses, a goroutine that looks for Frozen processes and, so far, does
-- nothing with them.
use ovote_node.Base.{[], ◌∷◌, List, Option, none, some, Result, ok, err, panic}
use ovote_node.Types.Process.{Process, process_status_frozen}
use ovote_node.Db.Schema.{Sqlite}
use ovote_node.Db.Processes.{read_processes_by_status}

-- `processes[0]`, if the read gave any; its error is only logged.
abbrev pub first_process : Result (List Process) → Option Process
first_process (ok []) = none
first_process (ok (p ∷ processes)) = some p
first_process (err e) = none
first_process panic = none

-- A round of the loop: the database after it, and the process that it has found.
unfoldable pub sync_processes_round : Sqlite → Sqlite × Option Process
sync_processes_round s = (s, first_process (read_processes_by_status process_status_frozen s))
