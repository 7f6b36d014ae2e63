-- ===== src/VotesAggregator/Proofs.antt =====
-- VotesAggregator.GenerateProof and GetProof.
use ovote_node.Base.{
  ℕ, Bool, ◌||◌, [], Bytes, Result, Error, ok, err, panic, fail_if, ◌>>=◌, ◌>>◌, ltb, bytes_equal,
  if◌then◌else◌,
}
use ovote_node.External.{Crypto}
use ovote_node.Types.Process.{ProofInDb}
use ovote_node.Types.ZkInputs.{ZkInputs, ReceiptTrees}
use ovote_node.Db.Schema.{Sqlite}
use ovote_node.Db.Processes.{read_process_by_id}
use ovote_node.Db.Meta.{get_last_sync_block_num}
use ovote_node.Db.Proofs.{get_proof_by_process_id, store_proof_id, add_proof_to_proof_id}
use ovote_node.VotesAggregator.ZkInputs.{generate_zk_inputs}

-- The two requests of prover.Client.
pub record Prover : Type 0 where
  pub gen_proof : (process_id : ℕ) → ZkInputs → Result ℕ
  pub get_proof : (proof_id : ℕ) → Result (Bytes × Bytes)

-- The circuit that is used: 128 votes and 7 levels.
abbrev pub n_max_votes : ℕ
n_max_votes = 128

abbrev pub n_levels : ℕ
n_levels = 7

module _ (c : Crypto) (t : ReceiptTrees) (prover : Prover) (chain_id : ℕ) where
  -- The request to the prover, and the row of its proof id.
  unfoldable pub request_proof : (now process_id : ℕ) → Sqlite → Result Sqlite
  request_proof now process_id s = do
    zki ← generate_zk_inputs c t chain_id process_id n_max_votes n_levels s
    proof_id ← prover.gen_proof process_id zki
    store_proof_id now process_id proof_id s

  -- A proof in the database ends the call; the error that there is none lets it go on.
  unfoldable pub unless_stored : (now process_id : ℕ) → Result ProofInDb → Sqlite → Result Sqlite
  unfolding request_proof
  unless_stored now process_id (ok proof) s = ok s
  unless_stored now process_id (err (Error.proof_not_in_db id)) s = request_proof now process_id s
  unless_stored now process_id (err e) s = err e
  unless_stored now process_id panic s = panic

  unfoldable pub generate_proof : (now process_id : ℕ) → Sqlite → Result Sqlite
  unfolding unless_stored
  generate_proof now process_id s = do
    process ← read_process_by_id process_id s
    last ← get_last_sync_block_num s
    fail_if (ltb process.res_pub_start_block last)
        (Error.res_pub_start_block process.res_pub_start_block last)
    unless_stored now process_id (get_proof_by_process_id process_id s) s

  abbrev pub is_missing : ProofInDb → Bool
  is_missing p = bytes_equal p.proof [] || bytes_equal p.public_inputs []

  -- A proof without bytes is asked for from the prover, and stored.
  unfoldable pub fetch_proof :
      (now process_id : ℕ) → ProofInDb → Sqlite → Result (ProofInDb × Sqlite)
  fetch_proof now process_id p s = do
    (proof, public_inputs) ← prover.get_proof p.proof_id
    s' ← add_proof_to_proof_id now process_id p.proof_id proof public_inputs s
    ok (record p { proof = proof; public_inputs = public_inputs }, s')

  unfoldable pub get_proof : (now process_id : ℕ) → Sqlite → Result (ProofInDb × Sqlite)
  unfolding fetch_proof
  get_proof now process_id s = do
    p ← get_proof_by_process_id process_id s
    if is_missing p then fetch_proof now process_id p s else ok (p, s)
