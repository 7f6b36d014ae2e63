-- ===== src/Db/Meta.antt =====
-- db/db.go: the row of `meta`.
use ovote_node.Base.{
  ℕ, ◌+◌, ◌++◌, [], ◌∷◌, ℤ, Result, Error, ok, some_or, ◌>>=◌, ◌==◌, int64, uint64, find,
}
use ovote_node.Db.Schema.{Sqlite, MetaRow, bind_uint64}
use ovote_node.Db.Query.{update_where}

-- INSERT INTO meta; the id is one more than the last.
unfoldable pub init_meta : (now chain_id last_sync_block_num : ℕ) → Sqlite → Result Sqlite
init_meta now chain_id last_sync_block_num s = do
  chain ← bind_uint64 chain_id
  block ← bind_uint64 last_sync_block_num
  let row : MetaRow = record {
    id = s.meta_seq + 1;
    chain_id = chain;
    last_sync_block_num = ℤ.pos block;
    last_update = now;
  }
  ok (record s { meta = s.meta ++ row ∷ []; meta_seq = s.meta_seq + 1 })

-- UPDATE meta SET lastSyncBlockNum=int(…) WHERE id=1
unfoldable pub update_last_sync_block_num : ℕ → Sqlite → Result Sqlite
update_last_sync_block_num n s = ok (record s {
  meta = update_where (λ r. r.id == 1) (λ r. record r { last_sync_block_num = int64 n }) s.meta;
})

-- SELECT lastSyncBlockNum FROM meta WHERE id = 1
unfoldable pub get_last_sync_block_num : Sqlite → Result ℕ
get_last_sync_block_num s = do
  row ← some_or (find (λ (r : MetaRow). r.id == 1) s.meta) Error.meta_not_in_db
  ok (uint64 row.last_sync_block_num)
