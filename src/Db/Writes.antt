-- ===== src/Db/Writes.antt =====
-- What each successful write of the package has tested, and the tables that it leaves.
use ovote_node.Base.{
  ℕ, ◌<◌, ◌+◌, ◌≡◌, ◌++◌, [], ◌∷◌, false, ok, any, arith, two63, Bytes, ℤ, int64, ◌==◌,
}
use ovote_node.Types.Process.{ProcessStatus}
use ovote_node.Db.Schema.{Sqlite, VoteRow, ProofRow, bind_uint64}
use ovote_node.Db.Processes.{
  has_id, new_process, store_process, update_process_status, froze_processes_by_current_block_num,
  is_due, froze,
}
use ovote_node.Db.VotePackages.{collides, insert_vote}
use ovote_node.Db.Proofs.{store_proof_id, add_proof_to_proof_id, is_proof}
use ovote_node.Db.Meta.{init_meta, update_last_sync_block_num}
use ovote_node.Db.Query.{update_where}
use ovote_node.Db.Invariant.{KnownProcess}

-- What a successful insertion has tested, and the table that it leaves.
pub insert_vote-eq_ok :
    (row : VoteRow) (s : Sqlite) {s' : Sqlite}
    → insert_vote row s ≡ ok s'
    → (any (collides row) s.votepackages ≡ false)
      × KnownProcess s.processes row.process_id
      × (s' ≡ record s { votepackages = s.votepackages ++ row ∷ [] })
unfolding insert_vote
insert_vote-eq_ok row s e = ground arith

pub store_process-eq_ok :
    (now id : ℕ) (root : Bytes) (size block start window participation positive typ : ℕ)
    (s : Sqlite) {s' : Sqlite}
    → store_process now id root size block start window participation positive typ s ≡ ok s'
    → (any (has_id id) s.processes ≡ false)
      × (id < two63)
      × (start < two63)
      × (s' ≡ record s {
        processes =
            s.processes
            ++ new_process now id root size block start window participation positive typ ∷ [];
      })
unfolding store_process
store_process-eq_ok now id root size block start window participation positive typ s e =
    ground arith

-- What the other writes leave.
pub update_process_status-eq_ok :
    (id : ℕ) (status : ProcessStatus) (s : Sqlite) {s' : Sqlite}
    → update_process_status id status s ≡ ok s'
    → s' ≡ record s {
      processes = update_where (has_id id) (λ r. record r { status = status }) s.processes;
    }
unfolding update_process_status
update_process_status-eq_ok id status s e = ground arith

pub froze-eq_ok :
    (block : ℕ) (s : Sqlite) {s' : Sqlite}
    → froze_processes_by_current_block_num block s ≡ ok s'
    → s' ≡ record s { processes = update_where (is_due (int64 block)) froze s.processes }
unfolding froze_processes_by_current_block_num
froze-eq_ok block s e = ground arith

pub add_proof_to_proof_id-eq_ok :
    (now process_id proof_id : ℕ) (proof public_inputs : Bytes) (s : Sqlite) {s' : Sqlite}
    → add_proof_to_proof_id now process_id proof_id proof public_inputs s ≡ ok s'
    → s' ≡ record s {
      proofs =
          update_where
            (is_proof process_id proof_id)
            (λ r. record r {
              proof = proof;
              public_inputs = public_inputs;
              proof_added_datetime = now;
            })
            s.proofs;
    }
unfolding add_proof_to_proof_id
add_proof_to_proof_id-eq_ok now process_id proof_id proof public_inputs s e = ground arith

pub init_meta-eq_ok :
    (now chain_id block : ℕ) (s : Sqlite) {s' : Sqlite}
    → init_meta now chain_id block s ≡ ok s'
    → s' ≡ record s {
      meta =
          s.meta
          ++ record {
            id = s.meta_seq + 1;
            chain_id = chain_id;
            last_sync_block_num = ℤ.pos block;
            last_update = now;
          }
            ∷ [];
      meta_seq = s.meta_seq + 1;
    }
unfolding init_meta bind_uint64
init_meta-eq_ok now chain_id block s e = ground arith

pub update_last_sync_block_num-eq_ok :
    (n : ℕ) (s : Sqlite) {s' : Sqlite}
    → update_last_sync_block_num n s ≡ ok s'
    → s' ≡ record s {
      meta = update_where (λ r. r.id == 1) (λ r. record r { last_sync_block_num = int64 n }) s.meta;
    }
unfolding update_last_sync_block_num
update_last_sync_block_num-eq_ok n s e = ground arith

pub store_proof_id-eq_ok :
    (now process_id proof_id : ℕ) (s : Sqlite) {s' : Sqlite}
    → store_proof_id now process_id proof_id s ≡ ok s'
    → (any (λ (r : ProofRow). r.proofid == proof_id) s.proofs ≡ false)
      × KnownProcess s.processes process_id
      × (s' ≡ record s {
        proofs =
            s.proofs
            ++ record {
              proofid = proof_id;
              proof = [];
              public_inputs = [];
              inserted_datetime = now;
              proof_added_datetime = 0;
              process_id = process_id;
            }
              ∷ [];
      })
unfolding store_proof_id
store_proof_id-eq_ok now process_id proof_id s e = ground arith
