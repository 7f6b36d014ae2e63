-- ===== src/Db/Processes.antt =====
-- db/processes.go
use ovote_node.Base.{
  ℕ, ◌++◌, [], ◌∷◌, List, map, Bool, ◌&&◌, Bytes, ℤ, Result, Error, ok, some_or, fail_if, ◌>>=◌,
  ◌>>◌, ◌==◌, leb, leb_ℤ, int64, find, any, select,
}
use ovote_node.Types.Process.{Process, ProcessStatus, process_status_on, process_status_frozen}
use ovote_node.Db.Schema.{Sqlite, ProcessRow, bind_uint64}
use ovote_node.Db.Query.{update_where, order_by}

abbrev pub has_id : ℕ → ProcessRow → Bool
has_id id r = r.id == id

-- The VALUES of the INSERT.
abbrev pub new_process :
    (now id : ℕ) → Bytes → (size block start window participation positive typ : ℕ) → ProcessRow
new_process now id root size block start window participation positive typ = record {
  id = id;
  status = process_status_on;
  census_root = root;
  census_size = size;
  eth_block_num = block;
  res_pub_start_block = start;
  res_pub_window = window;
  min_participation = participation;
  min_positive_votes = positive;
  typ = typ;
  inserted_datetime = now;
}

-- INSERT INTO processes: the id is the primary key.
unfoldable pub store_process :
    (now id : ℕ)
    → Bytes
    → (census_size eth_block_num res_pub_start_block res_pub_window : ℕ)
    → (min_participation min_positive_votes typ : ℕ) → Sqlite
    → Result Sqlite
unfolding bind_uint64
store_process now id root size block start window participation positive typ s = do
  id ← bind_uint64 id
  size ← bind_uint64 size
  block ← bind_uint64 block
  start ← bind_uint64 start
  window ← bind_uint64 window
  fail_if (any (has_id id) s.processes) Error.unique_constraint
  let row = new_process now id root size block start window participation positive typ
  ok (record s { processes = s.processes ++ row ∷ [] })

-- UPDATE processes SET status=? WHERE id=?
unfoldable pub update_process_status : ℕ → ProcessStatus → Sqlite → Result Sqlite
unfolding bind_uint64 update_where
update_process_status id status s = do
  id ← bind_uint64 id
  ok (record s {
    processes = update_where (has_id id) (λ r. record r { status = status }) s.processes;
  })

-- SELECT status FROM processes WHERE id = ?
unfoldable pub get_process_status : ℕ → Sqlite → Result ProcessStatus
unfolding bind_uint64
get_process_status id s = do
  key ← bind_uint64 id
  row ← some_or (find (has_id key) s.processes) (Error.process_not_in_db id)
  ok row.status

-- `Scan` of a row of `processes`, which has no column for the proof id.
abbrev pub scan_process : ProcessRow → Process
scan_process r = record {
  id = r.id;
  proof_id = 0;
  census_root = r.census_root;
  census_size = r.census_size;
  eth_block_num = r.eth_block_num;
  res_pub_start_block = r.res_pub_start_block;
  res_pub_window = r.res_pub_window;
  min_participation = r.min_participation;
  min_positive_votes = r.min_positive_votes;
  typ = r.typ;
  inserted_datetime = r.inserted_datetime;
  status = r.status;
}

unfoldable pub read_process_by_id : ℕ → Sqlite → Result Process
unfolding bind_uint64
read_process_by_id id s = do
  key ← bind_uint64 id
  row ← some_or (find (has_id key) s.processes) (Error.process_not_in_db id)
  ok (scan_process row)

-- ORDER BY datetime(insertedDatetime) DESC
abbrev pub newest_first : ProcessRow → ProcessRow → Bool
newest_first a b = leb b.inserted_datetime a.inserted_datetime

unfoldable pub read_processes : Sqlite → Result (List Process)
read_processes s = ok (map scan_process (order_by newest_first s.processes))

-- WHERE (resPubStartBlock <= ? AND status = ?)
abbrev pub is_due : ℤ → ProcessRow → Bool
is_due block r = leb_ℤ (ℤ.pos r.res_pub_start_block) block && r.status == process_status_on

abbrev pub froze : ProcessRow → ProcessRow
froze r = record r { status = process_status_frozen }

unfoldable pub froze_processes_by_current_block_num : ℕ → Sqlite → Result Sqlite
unfolding update_where
froze_processes_by_current_block_num block s =
    ok (record s { processes = update_where (is_due (int64 block)) froze s.processes })

-- WHERE resPubStartBlock = ?; the key of its ORDER BY is the same in all these rows.
unfoldable pub read_processes_by_res_pub_start_block : ℕ → Sqlite → Result (List Process)
unfolding bind_uint64
read_processes_by_res_pub_start_block block s = do
  block ← bind_uint64 block
  ok (map scan_process (select (λ (r : ProcessRow). r.res_pub_start_block == block) s.processes))

unfoldable pub read_processes_by_status : ProcessStatus → Sqlite → Result (List Process)
read_processes_by_status status s = ok (
    map scan_process
      (order_by newest_first (select (λ (r : ProcessRow). r.status == status) s.processes)))
