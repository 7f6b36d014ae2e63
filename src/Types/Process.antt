-- ===== src/Types/Process.antt =====
-- types/types.go: the process and its status, and types/proof.go: a stored proof.
use ovote_node.Base.{ℕ, Bytes}

-- Go's `ProcessStatus` is an int; the program only writes the four constants.
abbrev pub ProcessStatus : Type 0
ProcessStatus = ℕ

abbrev pub process_status_on : ProcessStatus
process_status_on = 0

abbrev pub process_status_frozen : ProcessStatus
process_status_frozen = 1

abbrev pub process_status_proof_generating : ProcessStatus
process_status_proof_generating = 2

abbrev pub process_status_proof_generated : ProcessStatus
process_status_proof_generated = 3

pub record Process : Type 0 where
  pub id : ℕ
  pub proof_id : ℕ
  pub census_root : Bytes
  pub census_size : ℕ
  pub eth_block_num : ℕ
  pub res_pub_start_block : ℕ
  pub res_pub_window : ℕ
  pub min_participation : ℕ
  pub min_positive_votes : ℕ
  pub typ : ℕ
  pub inserted_datetime : ℕ
  pub status : ProcessStatus

pub record ProofInDb : Type 0 where
  pub proof_id : ℕ
  pub proof : Bytes
  pub public_inputs : Bytes
  pub inserted_datetime : ℕ
  pub proof_added_datetime : ℕ
  pub process_id : ℕ
