-- ===== src/Db/Schema.antt =====
-- db/db.go: the tables that `Migrate` creates, and what database/sql does with an argument. The
-- state is that of a migrated database on one connection, with foreign keys enforced. A datetime
-- is a number of seconds, and CURRENT_TIMESTAMP an argument `now` of the statements that read it.
use ovote_node.Base.{ℕ, List, [], Bytes, ℤ, Result, Error, ok, err, ltb, two63, if◌then◌else◌}

-- processes(id PRIMARY KEY, …)
pub record ProcessRow : Type 0 where
  pub id : ℕ
  pub status : ℕ
  pub census_root : Bytes
  pub census_size : ℕ
  pub eth_block_num : ℕ
  pub res_pub_start_block : ℕ
  pub res_pub_window : ℕ
  pub min_participation : ℕ
  pub min_positive_votes : ℕ
  pub typ : ℕ
  pub inserted_datetime : ℕ

-- votepackages(indx PRIMARY KEY, publicKey UNIQUE, merkleproof UNIQUE, …, processID REFERENCES
-- processes(id))
pub record VoteRow : Type 0 where
  pub indx : ℕ
  pub public_key : Bytes
  pub weight : Bytes
  pub merkleproof : Bytes
  pub signature : Bytes
  pub vote : Bytes
  pub inserted_datetime : ℕ
  pub process_id : ℕ

-- proofs(proofid PRIMARY KEY, …, processID REFERENCES processes(id))
pub record ProofRow : Type 0 where
  pub proofid : ℕ
  pub proof : Bytes
  pub public_inputs : Bytes
  pub inserted_datetime : ℕ
  pub proof_added_datetime : ℕ
  pub process_id : ℕ

-- meta(id PRIMARY KEY AUTOINCREMENT, …)
pub record MetaRow : Type 0 where
  pub id : ℕ
  pub chain_id : ℕ
  pub last_sync_block_num : ℤ
  pub last_update : ℕ

-- The tables, in the order of insertion, and the last id that AUTOINCREMENT gave.
pub record Sqlite : Type 0 where
  pub processes : List ProcessRow
  pub votepackages : List VoteRow
  pub proofs : List ProofRow
  pub meta : List MetaRow
  pub meta_seq : ℕ

-- `Migrate` on an empty database.
unfoldable pub migrate : Sqlite
migrate = record { processes = []; votepackages = []; proofs = []; meta = []; meta_seq = 0 }

-- database/sql refuses a uint64 argument that does not fit an int64.
unfoldable pub bind_uint64 : ℕ → Result ℕ
bind_uint64 n = if ltb n two63 then ok n else err Error.high_bit_set
