-- ===== src/Db/History.antt =====
-- The writes of the package in any order, each with any arguments; a refused write leaves the
-- tables as they were.
use ovote_node.Base.{ℕ, ◌≡◌, refl, [], ◌∷◌, List, Bytes, Result, ok, err, panic, arith}
use ovote_node.External.{Crypto}
use ovote_node.Types.VotePackage.{VotePackage}
use ovote_node.Types.Process.{ProcessStatus}
use ovote_node.Db.Schema.{Sqlite, migrate}
use ovote_node.Db.Processes.{
  store_process, update_process_status, froze_processes_by_current_block_num,
}
use ovote_node.Db.VotePackages.{store_vote_package, insert_vote, vote_row}
use ovote_node.Db.Proofs.{store_proof_id, add_proof_to_proof_id}
use ovote_node.Db.Meta.{init_meta, update_last_sync_block_num}
use ovote_node.Db.Invariant.{IsValid}
use ovote_node.Db.Integrity.{
  migrate-IsValid, insert_vote-IsValid, store_process-IsValid, update_process_status-IsValid,
  froze-IsValid, store_proof_id-IsValid, add_proof_to_proof_id-IsValid, init_meta-IsValid,
  update_last_sync_block_num-IsValid,
}

pub data Write (K : Type 0) : Type 0 where
  process :
      (now id : ℕ) → Bytes → (size block start window participation positive typ : ℕ) → Write K
  status : ℕ → ProcessStatus → Write K
  froze : ℕ → Write K
  vote : (now process_id : ℕ) → VotePackage K → Write K
  proof_id : (now process_id proof_id : ℕ) → Write K
  add_proof : (now process_id proof_id : ℕ) → Bytes → Bytes → Write K
  meta : (now chain_id block : ℕ) → Write K
  sync_block : ℕ → Write K

abbrev pub after : Sqlite → Result Sqlite → Sqlite
after s (ok s') = s'
after s (err e) = s
after s panic = s

module _ (c : Crypto) where
  open c use {PublicKey}

  unfoldable pub write : Write PublicKey → Sqlite → Result Sqlite
  write (Write.process now id root size block start window participation positive typ) =
      store_process now id root size block start window participation positive typ
  write (Write.status id st) = update_process_status id st
  write (Write.froze block) = froze_processes_by_current_block_num block
  write (Write.vote now process_id v) = store_vote_package c now process_id v
  write (Write.proof_id now process_id pid) = store_proof_id now process_id pid
  write (Write.add_proof now process_id pid proof public_inputs) =
      add_proof_to_proof_id now process_id pid proof public_inputs
  write (Write.meta now chain_id block) = init_meta now chain_id block
  write (Write.sync_block n) = update_last_sync_block_num n

  unfoldable pub run : List (Write PublicKey) → Sqlite → Sqlite
  unfolding write
  run [] s = s
  run (w ∷ ws) s = run ws (after s (write w s))

  store_vote_package-insert :
      (now process_id : ℕ) (v : VotePackage PublicKey) (s : Sqlite) {s' : Sqlite}
      → store_vote_package c now process_id v s ≡ ok s'
      → insert_vote (vote_row c now process_id v) s ≡ ok s'
  unfolding store_vote_package
  store_vote_package-insert now process_id v s e = ground arith

  -- One write keeps the integrity of the tables.
  pub write-IsValid :
      (w : Write PublicKey) (s : Sqlite) {s' : Sqlite} → write w s ≡ ok s' → IsValid s → IsValid s'
  unfolding write
  write-IsValid (Write.process now id root size block start window participation positive typ) s =
      store_process-IsValid now id root size block start window participation positive typ s
  write-IsValid (Write.status id st) s = update_process_status-IsValid id st s
  write-IsValid (Write.froze block) s = froze-IsValid block s
  write-IsValid (Write.vote now process_id v) s = λ e.
      insert_vote-IsValid (vote_row c now process_id v) s
        (store_vote_package-insert now process_id v s e)
  write-IsValid (Write.proof_id now process_id pid) s = store_proof_id-IsValid now process_id pid s
  write-IsValid (Write.add_proof now process_id pid proof public_inputs) s =
      add_proof_to_proof_id-IsValid now process_id pid proof public_inputs s
  write-IsValid (Write.meta now chain_id block) s = init_meta-IsValid now chain_id block s
  write-IsValid (Write.sync_block n) s = update_last_sync_block_num-IsValid n s

  after-IsValid : (w : Write PublicKey) (s : Sqlite) → IsValid s → IsValid (after s (write w s))
  after-IsValid w s v = go (write w s) refl
    where
      go : (r : Result Sqlite) → write w s ≡ r → IsValid (after s r)
      go (ok s') e = write-IsValid w s e v
      go (err _) e = v
      go panic e = v

  pub run-keeps : (ws : List (Write PublicKey)) (s : Sqlite) → IsValid s → IsValid (run ws s)
  unfolding run
  run-keeps [] s v = v
  run-keeps (w ∷ ws) s v = run-keeps ws (after s (write w s)) (after-IsValid w s v)

  -- Whatever is written to a migrated database, in whatever order and with refused writes among
  -- them, the ids of processes, the proof ids, the ids of meta rows, and the indexes, public
  -- keys and Merkle proofs of votes stay unique, the ids of processes are below 2 ^ 63 and those of meta rows at most the last
  -- id that was given, and every vote and every proof belongs to a process that is stored.
  pub run-IsValid : (ws : List (Write PublicKey)) → IsValid (run ws migrate)
  run-IsValid ws = run-keeps ws migrate migrate-IsValid
