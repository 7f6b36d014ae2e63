-- ===== src/Node/Resume.antt =====
-- The block from which the node synchronises when it starts again.
use ovote_node.Base.{
  ok_injective, inl, inr, ◌⊎◌, ℕ, ◌<◌, ◌≡◌, [], refl, sym, ap, ◌∙◌, ◌==◌, Error, ok, err, ◌>>=◌,
  bind_eq_ok, fail_if_passed, arith, two64, uint64,
}
use ovote_node.Db.Schema.{Sqlite, bind_uint64}
use ovote_node.Db.Meta.{init_meta, get_last_sync_block_num, update_last_sync_block_num}
use ovote_node.Db.SyncBlock.{update-get}
use ovote_node.Node.Start.{meta_or_init, prepare_meta}

-- The meta row is there, or none has ever been inserted.
abbrev pub MetaIsUsable : Sqlite → Type 0
MetaIsUsable s = ((m : ℕ) × (get_last_sync_block_num s ≡ ok m)) ⊎ ((s.meta ≡ []) × (s.meta_seq ≡ 0))

init_meta-get :
    (now chain_id block : ℕ) (s : Sqlite) {s' : Sqlite}
    → s.meta ≡ []
    → s.meta_seq ≡ 0
    → init_meta now chain_id block s ≡ ok s'
    → get_last_sync_block_num s' ≡ ok block
unfolding init_meta get_last_sync_block_num bind_uint64 uint64
init_meta-get now chain_id block s empty seq e = ground arith

get-empty : (s : Sqlite) → s.meta ≡ [] → get_last_sync_block_num s ≡ err Error.meta_not_in_db
unfolding get_last_sync_block_num
get-empty s empty = rw empty refl

-- The block that was prepared is that of the database from then on.
prepare_meta-get :
    (now chain_id start : ℕ) (s : Sqlite) {n : ℕ} {s' : Sqlite}
    → MetaIsUsable s
    → prepare_meta now chain_id start s ≡ ok (n, s')
    → get_last_sync_block_num s' ≡ ok n
unfolding prepare_meta
prepare_meta-get now chain_id start s {n} {s'} (inl (m, read)) e =
    let same = ok_injective (sym (ap (λ r. meta_or_init now chain_id start r s) read) ∙ e) in
    ap get_last_sync_block_num (sym (ap (λ x. x.1) same)) ∙ read ∙ ap (λ x. ok x.0) same
prepare_meta-get now chain_id start s {n} {s'} (inr (empty, seq)) e =
    let chain = sym (ap (λ r. meta_or_init now chain_id start r s) (get-empty s empty)) ∙ e in
    let (positive, rest) = fail_if_passed (start == 0) Error.start_block_is_zero _ chain in
    let (t, written, last) = bind_eq_ok (init_meta now chain_id start s) _ rest in
    let same = ok_injective last in
    ap get_last_sync_block_num (sym (ap (λ x. x.1) same))
    ∙ init_meta-get now chain_id start s empty seq written
    ∙ ap (λ x. ok x.0) same

-- A node that was prepared once, and whose live loop has then stored a block number, resumes from
-- that number when it starts again, whatever its flags, its chain and the time are, and leaves the
-- database as it is.
pub prepare_meta_resumes :
    (now chain_id start now' chain_id' start' m n : ℕ) (s : Sqlite) {s' s'' : Sqlite}
    → MetaIsUsable s
    → m < two64
    → prepare_meta now chain_id start s ≡ ok (n, s')
    → update_last_sync_block_num m s' ≡ ok s''
    → prepare_meta now' chain_id' start' s'' ≡ ok (m, s'')
unfolding prepare_meta
prepare_meta_resumes now chain_id start now' chain_id' start' m n s {s'} {s''} usable small e
      updated =
    let before = prepare_meta-get now chain_id start s usable e in
    let stored : get_last_sync_block_num s'' ≡ ok m =
      update-get m s' small updated ∙ ap (λ r. r >>= λ (old : ℕ). ok m) before in
    ap (λ r. meta_or_init now' chain_id' start' r s'') stored
