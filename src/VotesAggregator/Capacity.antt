-- ===== src/VotesAggregator/Capacity.antt =====
-- GenerateProof for a process with more votes than the circuit has slots.
use ovote_node.Base.{
  ℕ, ◌<◌, ◌≤◌, ◌≡◌, ◌≢◌, List, Error, ok, err, length, arith, ap, sym, ◌∙◌, bind_eq_ok, inl, inr,
  ok_injective,
}
use ovote_node.External.{Crypto}
use ovote_node.Types.VotePackage.{VotePackage}
use ovote_node.Types.ZkInputs.{ReceiptTrees}
use ovote_node.Db.Schema.{Sqlite}
use ovote_node.Db.VotePackages.{read_vote_packages_by_process_id}
use ovote_node.Db.Proofs.{get_proof_by_process_id}
use ovote_node.VotesAggregator.ZkInputs.{generate_zk_inputs}
use ovote_node.VotesAggregator.Proofs.{Prover, generate_proof, request_proof, n_max_votes, n_levels}
use ovote_node.VotesAggregator.Result.{generate_zk_inputs-Represents}
use ovote_node.VotesAggregator.ProofRequests.{generate_proof-eq_ok, unless_stored-cases}

module _ (c : Crypto) (t : ReceiptTrees) (prover : Prover) (chain_id : ℕ) where
  requested-fits :
      (now id : ℕ) (s : Sqlite) {s' : Sqlite} {vs : List (VotePackage c.PublicKey)}
      → read_vote_packages_by_process_id c id s ≡ ok vs
      → request_proof c t prover chain_id now id s ≡ ok s'
      → length vs ≤ n_max_votes
  unfolding request_proof
  requested-fits now id s read e =
      let (z, generated, _) =
        bind_eq_ok (generate_zk_inputs c t chain_id id n_max_votes n_levels s) _ e in
      let (ws, read', means, _, _, _, _) =
        generate_zk_inputs-Represents c t chain_id id n_max_votes n_levels s generated in
      let same = ok_injective (sym read ∙ read') in omega (arith, ap length same, means.fits)

  -- Once more than 128 votes are stored for a process that has no proof id, GenerateProof never
  -- succeeds for it, with any prover and at any time.
  pub generate_proof-full :
      (now id k : ℕ) (s s' : Sqlite) {vs : List (VotePackage c.PublicKey)}
      → read_vote_packages_by_process_id c id s ≡ ok vs
      → n_max_votes < length vs
      → get_proof_by_process_id id s ≡ err (Error.proof_not_in_db k)
      → generate_proof c t prover chain_id now id s ≢ ok s'
  generate_proof-full now id k s s' read many missing e =
      let (_, _, _, _, _, last) = generate_proof-eq_ok c t prover chain_id now id s e in
      elim (unless_stored-cases c t prover chain_id now id (get_proof_by_process_id id s) s last) [
        | inl (_, there, _) ↦ (let both = sym missing ∙ there in cc)
        | inr asked ↦ let fits = requested-fits now id s read asked in absurd (omega arith)
      ]
