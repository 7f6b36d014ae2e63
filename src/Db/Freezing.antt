-- ===== src/Db/Freezing.antt =====
-- FrozeProcessesByCurrentBlockNum.
use ovote_node.Base.{
  ℕ, ◌<◌, ◌≡◌, refl, [], ◌∷◌, List, ◌&&◌, ok, ◌>>=◌, ◌==◌, leb_ℤ, ℤ, if◌then◌else◌, int64,
  int64-small, find, All, arith, two63, none, some,
}
use ovote_node.Types.Process.{Process, process_status_on, process_status_frozen}
use ovote_node.Db.Schema.{Sqlite, ProcessRow}
use ovote_node.Db.Processes.{
  has_id, read_process_by_id, froze_processes_by_current_block_num, is_due, froze,
}
use ovote_node.Db.Query.{update_where}
use ovote_node.Db.Writes.{froze-eq_ok}

-- What freezing at a block does to one process.
abbrev pub frozen_at : ℕ → Process → Process
frozen_at block p =
    if leb_ℤ (ℤ.pos p.res_pub_start_block) (int64 block) && p.status == process_status_on
    then record p { status = process_status_frozen }
    else p

abbrev row_after : ℤ → ProcessRow → ProcessRow
row_after block r = if is_due block r then froze r else r

find-update_where :
    (id : ℕ) (block : ℤ) (rs : List ProcessRow)
    → find (has_id id) (update_where (is_due block) froze rs)
      ≡ elim (find (has_id id) rs) [ none ↦ none | some r ↦ some (row_after block r) ]
unfolding update_where
find-update_where id block [] = refl
find-update_where id block (r ∷ rs) = ground (arith, find-update_where id block rs)

-- Freezing at a block changes, of every process that can be read, exactly the status of those
-- that are On and whose ResPubStartBlock is at most the block, read as an int64; what cannot be
-- read before cannot be read after, with the same error.
pub froze-read :
    (block id : ℕ) (s : Sqlite) {s' : Sqlite}
    → froze_processes_by_current_block_num block s ≡ ok s'
    → read_process_by_id id s' ≡ (read_process_by_id id s >>= λ p. ok (frozen_at block p))
unfolding read_process_by_id
froze-read block id s e =
    ground (arith, froze-eq_ok block s e, find-update_where id (int64 block) s.processes)

-- A row that is On has not reached its ResPubStartBlock at the block.
abbrev pub NotReached : ℕ → ProcessRow → Type 0
NotReached block r = r.status ≡ process_status_on → block < r.res_pub_start_block

NotReached-update_where :
    (block : ℕ) (rs : List ProcessRow)
    → All (NotReached block) (update_where (is_due (ℤ.pos block)) froze rs)
unfolding update_where
NotReached-update_where block [] = tt
NotReached-update_where block (r ∷ rs) = (λ on. ground arith, NotReached-update_where block rs)

-- After freezing at a block below 2 ^ 63, every process that still accepts votes has its
-- ResPubStartBlock after that block.
pub froze-NotReached :
    (block : ℕ) (s : Sqlite) {s' : Sqlite}
    → block < two63
    → froze_processes_by_current_block_num block s ≡ ok s'
    → All (NotReached block) s'.processes
froze-NotReached block s {s'} small e =
    let rows : s'.processes ≡ update_where (is_due (int64 block)) froze s.processes =
      ground (arith, froze-eq_ok block s e) in
    rw (rows, int64-small block small) (NotReached-update_where block s.processes)
