-- ===== src/Db/SyncBlock.antt =====
-- The last synchronised block in `meta`.
use ovote_node.Base.{
  ℕ, ◌<◌, ◌≡◌, refl, [], ◌∷◌, List, ok, ◌>>=◌, ◌==◌, find, arith, two64, int64, uint64-int64, none,
  some,
}
use ovote_node.Db.Schema.{Sqlite, MetaRow}
use ovote_node.Db.Meta.{update_last_sync_block_num, get_last_sync_block_num}
use ovote_node.Db.Query.{update_where}
use ovote_node.Db.Writes.{update_last_sync_block_num-eq_ok}

find-update_meta :
    (n : ℕ) (rs : List MetaRow)
    → find
        (λ (r : MetaRow). r.id == 1)
        (update_where (λ r. r.id == 1) (λ r. record r { last_sync_block_num = int64 n }) rs)
      ≡ elim (find (λ (r : MetaRow). r.id == 1) rs) [
        | none ↦ none
        | some r ↦ some (record r { last_sync_block_num = int64 n })
      ]
unfolding update_where
find-update_meta n [] = refl
find-update_meta n (r ∷ rs) = ground (arith, find-update_meta n rs)

-- Every uint64 block number, also one of 2 ^ 63 or more, is read back as it was written if the
-- meta row exists; with no meta row the update succeeds and the read still fails.
pub update-get :
    (n : ℕ) (s : Sqlite) {s' : Sqlite}
    → n < two64
    → update_last_sync_block_num n s ≡ ok s'
    → get_last_sync_block_num s' ≡ (get_last_sync_block_num s >>= λ old. ok n)
unfolding get_last_sync_block_num
update-get n s b e =
    ground
      (arith, update_last_sync_block_num-eq_ok n s e, find-update_meta n s.meta, uint64-int64 n b)
