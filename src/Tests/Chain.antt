-- ===== src/Tests/Chain.antt =====
-- Events and synchronisation at work.
use ovote_node.Base.{
  ℕ, ◌<◌, ◌≡◌, ◌≢◌, ◌⊎◌, refl, [], ◌∷◌, List, Bytes, Result, Error, ok, err, arith, All, replicate,
  length, int64, true,
}
use ovote_node.Db.Schema.{Sqlite}
use ovote_node.Db.Processes.{read_process_by_id, scan_process, new_process}
use ovote_node.Db.Freezing.{NotReached}
use ovote_node.Eth.Events.{EventNewProcess, parse_event_new_process, byte_at}
use ovote_node.Eth.Words.{words, uint64_word}
use ovote_node.Eth.Layouts.{created_words, commented_words}
use ovote_node.Eth.Parsing.{parse-created, parse-created_as_commented}
use ovote_node.Eth.Sync.{Log, EthNode, Arrival, sync_history, live}
use ovote_node.Eth.SyncedState.{sync_history-NotReached, Live, started, arrived, Live-read}
use ovote_node.Tests.Toy.{toy, toy_geth, db, first_process, second_process}

abbrev address : Bytes
address = replicate 20 7

abbrev pub word : ℕ → Bytes
word b = b ∷ replicate 31 0

abbrev creation : List Bytes
creation = created_words address 3 (word 1) (word 2) 1000 400 50 10 60 1

abbrev created_event : EventNewProcess Bytes
created_event = record {
  creator = address;
  process_id = 3;
  tx_hash = word 1;
  census_root = toy.swap_endianness (word 2);
  census_size = 1000;
  res_pub_start_block = 400;
  res_pub_window = 50;
  min_participation = 10;
  min_positive_votes = 60;
  typ = 1;
}

parse-created_example : parse_event_new_process toy toy_geth (words creation) ≡ ok created_event
parse-created_example =
    parse-created toy toy_geth address 3 (word 1) (word 2) 1000 400 50 10 60 1 refl refl refl
      (omega arith) (omega arith) (omega arith) (omega arith)

parse-created_as_commented_example :
    parse_event_new_process toy toy_geth
      (words (commented_words address 3 (word 1) (word 2) 1000 400 50 10 60 1))
    ≡ ok (record created_event {
      census_size = 1;
      res_pub_start_block = 1000;
      res_pub_window = 400;
      min_participation = byte_at 31 (uint64_word 50);
      min_positive_votes = 10;
      typ = 60;
    })
parse-created_as_commented_example =
    parse-created_as_commented toy toy_geth address 3 (word 1) (word 2) 1000 400 50 10 60 1 refl
      refl refl (omega arith) (omega arith) (omega arith) (omega arith)

-- The creation as a log of block 120, and the database with the process in it.
abbrev pub creation_log : Log
creation_log = record { block_number = 120; payload = words creation }

abbrev with_third : ℕ → ℕ → Sqlite
with_third first now = record db {
  processes =
      record first_process { status = first }
      ∷ second_process
      ∷ new_process now 3 (toy.swap_endianness (word 2)) 1000 120 400 50 10 60 1
      ∷ [];
}

abbrev node : EthNode
node = record { header_by_number = ok 250; filter_logs = λ from to. ok (creation_log ∷ []) }

sync_history-NotReached_example : All (NotReached 250) (with_third 1 7).processes
unfolding sync_history uint64_word ovote_node.Base.be_bytes parse_event_new_process
    ovote_node.Db.Processes.store_process ovote_node.Base.be_value
    ovote_node.Db.Processes.froze_processes_by_current_block_num int64
sync_history-NotReached_example =
    sync_history-NotReached toy toy_geth node 7 100 250 db {s' = with_third 1 7} refl (omega arith)
      refl

-- A header beyond the start of the first process arrives, then an error.
abbrev after_header : Sqlite
after_header = record db {
  meta = record { id = 1; chain_id = 5; last_sync_block_num = int64 260; last_update = 1000 } ∷ [];
}

header_then_error : Live toy toy_geth db after_header
unfolding live ovote_node.Db.Meta.update_last_sync_block_num ovote_node.Db.Query.update_where
header_then_error =
    arrived {t = after_header} 8 Arrival.subscription_error refl
      (arrived {t = db} 7 (Arrival.header 260) refl started)

Live-read_example : read_process_by_id 1 after_header ≡ ok (scan_process first_process)
unfolding read_process_by_id
Live-read_example = Live-read toy toy_geth 1 {s = db} refl header_then_error
