-- ===== src/VotesAggregator/Ballots.antt =====
-- When AddVote accepts a vote.
use ovote_node.Base.{
  ℕ, ◌<◌, ◌≤◌, ◌≡◌, ◌++◌, [], ◌∷◌, false, Error, ok, err, arith, two63, any, int64-small,
  bind_eq_ok,
}
use ovote_node.External.{Crypto}
use ovote_node.Types.Process.{Process, process_status_on}
use ovote_node.Types.VotePackage.{VotePackage}
use ovote_node.Types.Encoding.{verify}
use ovote_node.Db.Schema.{Sqlite}
use ovote_node.Db.Processes.{read_process_by_id, froze_processes_by_current_block_num}
use ovote_node.Db.VotePackages.{collides, store_vote_package, insert_vote, vote_row}
use ovote_node.Db.Freezing.{froze-read}
use ovote_node.Db.ProcessLookup.{read-KnownProcess}
use ovote_node.Db.VoteCollision.{SharesKey, store_vote_package-once}
use ovote_node.VotesAggregator.AddVote.{add_vote}

module _ (c : Crypto) (chain_id : ℕ) where
  open c use {PublicKey}

  pub add_vote-steps :
      (now p : ℕ) (v : VotePackage PublicKey) (s : Sqlite) {s' : Sqlite}
      → add_vote c chain_id now p v s ≡ ok s'
      → (process : Process) × (read_process_by_id p s ≡ ok process)
        × (process.status ≡ process_status_on)
        × (verify c chain_id p process.census_root v ≡ ok tt)
        × (store_vote_package c now p v s ≡ ok s')
  unfolding add_vote
  add_vote-steps now p v s e =
      let (process, e0, e1) = bind_eq_ok (read_process_by_id p s) _ e in
      (process, e0, ground arith, ground arith, ground arith)

  -- A vote that is accepted was sent for a stored process that is On, its signature and its
  -- Merkle proof verify against the census root of that process, and of the database only the
  -- votes change, by the row of this vote at their end.
  pub add_vote-eq_ok :
      (now p : ℕ) (v : VotePackage PublicKey) (s : Sqlite) {s' : Sqlite}
      → add_vote c chain_id now p v s ≡ ok s'
      → (process : Process) × (read_process_by_id p s ≡ ok process)
        × (process.status ≡ process_status_on)
        × (verify c chain_id p process.census_root v ≡ ok tt)
        × (s' ≡ record s { votepackages = s.votepackages ++ vote_row c now p v ∷ [] })
  unfolding store_vote_package insert_vote
  add_vote-eq_ok now p v s e =
      let (process, e0, on, valid, e1) = add_vote-steps now p v s e in
      (process, e0, on, valid, ground arith)

  -- A vote that verifies for a stored process that is On is accepted, if it collides with no
  -- stored vote in a unique column and its index fits an int64.
  pub add_vote_accepts :
      (now p : ℕ) (v : VotePackage PublicKey) (s : Sqlite) (process : Process)
      → read_process_by_id p s ≡ ok process
      → process.status ≡ process_status_on
      → verify c chain_id p process.census_root v ≡ ok tt
      → any (collides (vote_row c now p v)) s.votepackages ≡ false
      → v.census_proof.index < two63
      → add_vote c chain_id now p v s
        ≡ ok (record s { votepackages = s.votepackages ++ vote_row c now p v ∷ [] })
  unfolding add_vote store_vote_package insert_vote
  add_vote_accepts now p v s process r on valid fresh small =
      ground (arith, read-KnownProcess p s r)

  -- Once the processes are frozen at a block, a vote for a process whose ResPubStartBlock is at
  -- most that block is refused, whatever the vote and whatever the status was.
  pub add_vote-froze :
      (now p block : ℕ) (v : VotePackage PublicKey) (s : Sqlite) (process : Process) {s' : Sqlite}
      → read_process_by_id p s ≡ ok process
      → process.res_pub_start_block ≤ block
      → block < two63
      → froze_processes_by_current_block_num block s ≡ ok s'
      → add_vote c chain_id now p v s'
        ≡ err (Error.votes_can_not_be_added process.res_pub_start_block)
  unfolding add_vote
  add_vote-froze now p block v s process r due small e =
      ground (arith, froze-read block p s e, int64-small block small)

  store-small :
      (now p : ℕ) (v : VotePackage PublicKey) (s : Sqlite) {s' : Sqlite}
      → store_vote_package c now p v s ≡ ok s'
      → (v.census_proof.index < two63) × (p < two63)
  unfolding store_vote_package
  store-small now p v s e = ground arith

  -- After an accepted vote no vote with the same index, public key or Merkle proof is accepted,
  -- for this process or any other.
  pub add_vote-once :
      (now now' p q : ℕ) (v w : VotePackage PublicKey) (s : Sqlite) {s' s'' : Sqlite}
      → add_vote c chain_id now p v s ≡ ok s'
      → SharesKey c v w
      → ¬ (add_vote c chain_id now' q w s' ≡ ok s'')
  add_vote-once now now' p q v w s {s'} e shares again =
      let (_, _, _, _, first) = add_vote-steps now p v s e in
      let (_, _, _, _, second) = add_vote-steps now' q w s' again in
      let (small, known) = store-small now' q w s' second in
      let refused = store_vote_package-once c now now' p q v w s first shares small known in cc
