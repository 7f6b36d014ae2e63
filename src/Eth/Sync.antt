-- ===== src/Eth/Sync.antt =====
-- eth/eth.go: what the client does with logs and block headers. The Ethereum node is a parameter;
-- each error that the source only logs leaves the database as it was.
use ovote_node.Base.{
  ℕ, ◌%◌, [], ◌∷◌, List, Bytes, ℤ, int64, two64, Result, Error, ok, err, panic, ◌>>=◌, ◌==◌,
  if◌then◌else◌, length,
}
use ovote_node.External.{Crypto}
use ovote_node.Eth.Events.{
  Geth, EventNewProcess, parse_event_new_process, parse_event_result_published,
  parse_event_process_closed, event_new_process_len, event_result_published_len,
  event_process_closed_len,
}
use ovote_node.Db.Schema.{Sqlite}
use ovote_node.Db.Processes.{store_process, froze_processes_by_current_block_num}
use ovote_node.Db.Meta.{get_last_sync_block_num, update_last_sync_block_num}

-- types.Log
pub record Log : Type 0 where
  pub block_number : ℕ
  pub payload : Bytes

-- An error with the text that is put before it.
abbrev pub wrap {ℓ} : {A : Type ℓ} → (Error → Error) → Result A → Result A
wrap f (ok a) = ok a
wrap f (err e) = err (f e)
wrap f panic = panic

-- `if err != nil { log.Error(err) }`
abbrev pub logged : Sqlite → Result Sqlite → Result Sqlite
logged s (ok s') = ok s'
logged s (err e) = ok s
logged s panic = panic

-- The ethclient: the number of the newest header, and the logs of a range of blocks.
pub record EthNode : Type 0 where
  pub header_by_number : Result ℕ
  pub filter_logs : (from : ℤ) (to : ℕ) → Result (List Log)

-- A round of one of the two live loops, which run concurrently: a log of `syncEventsLive`, or a
-- header of `syncBlocksLive`. A subscription error changes nothing.
pub data Arrival : Type 0 where
  event_log : Log → Arrival
  header : ℕ → Arrival
  subscription_error : Arrival

module _ (c : Crypto) (g : Geth) where
  open g use {Address}

  unfoldable pub store_new_process :
      (now : ℕ) → Log → EventNewProcess Address → Sqlite → Result Sqlite
  store_new_process now l e s = wrap Error.storing_new_process (
      store_process now e.process_id e.census_root e.census_size l.block_number
        e.res_pub_start_block e.res_pub_window e.min_participation e.min_positive_votes e.typ s)

  -- The `switch` on the length of the data.
  unfoldable pub process_event_log : (now : ℕ) → Log → Sqlite → Result Sqlite
  unfolding store_new_process
  process_event_log now l s =
      if length l.payload == event_new_process_len
      then (do
        e ← wrap (Error.parsing_event l.block_number) (parse_event_new_process c g l.payload)
        store_new_process now l e s)
      else if length l.payload == event_result_published_len
      then (do
        e ← wrap (Error.parsing_event l.block_number) (parse_event_result_published c g l.payload)
        ok s)
      else if length l.payload == event_process_closed_len
      then (do
        e ← wrap (Error.parsing_event l.block_number) (parse_event_process_closed c g l.payload)
        ok s)
      else err (Error.unrecognized_event (length l.payload))

  -- The loop over the logs of a range.
  unfoldable pub process_logs : (now : ℕ) → List Log → Sqlite → Result Sqlite
  unfolding process_event_log
  process_logs now [] s = ok s
  process_logs now (l ∷ ls) s = logged s (process_event_log now l s) >>= process_logs now ls

  unfoldable pub sync_events_history :
      EthNode → (now : ℕ) (start : ℤ) (end : ℕ) → Sqlite → Result Sqlite
  unfolding process_logs
  sync_events_history node now start end s = do
    logs ← node.filter_logs start end
    process_logs now logs s

  -- `currBlockNum.Uint64()` keeps the low 64 bits.
  unfoldable pub sync_history : EthNode → (now start_block : ℕ) → Sqlite → Result Sqlite
  unfolding sync_events_history
  sync_history node now start_block s = do
    curr ← node.header_by_number
    s' ← sync_events_history node now (int64 start_block) curr s
    froze_processes_by_current_block_num (curr % two64) s'

  -- `Sync` up to the start of the live loops.
  unfoldable pub sync : EthNode → (now : ℕ) → Sqlite → Result Sqlite
  unfolding sync_history
  sync node now s = do last ← get_last_sync_block_num s; sync_history node now last s

  -- `syncEventsLive` and `syncBlocksLive`, one round.
  unfoldable pub live : (now : ℕ) → Arrival → Sqlite → Result Sqlite
  unfolding process_event_log
  live now (Arrival.event_log l) s = logged s (process_event_log now l s)
  live now (Arrival.header n) s = logged s (update_last_sync_block_num n s)
  live now Arrival.subscription_error s = ok s
