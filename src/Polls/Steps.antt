-- ===== src/Polls/Steps.antt =====
-- What the node does to its database: the start, the synchronisation and the two live loops of
-- eth/eth.go, and the requests to the votes aggregator, in any order and at any time; the
-- prover may answer each request as it likes. A call that
-- fails leaves the tables as they were; a history that ends early has processed some of its logs.
use ovote_node.Base.{ℕ, ◌≡◌, List, ok}
use ovote_node.External.{Crypto}
use ovote_node.Types.Process.{ProofInDb}
use ovote_node.Types.VotePackage.{VotePackage}
use ovote_node.Types.ZkInputs.{ReceiptTrees}
use ovote_node.Db.Schema.{Sqlite}
use ovote_node.Eth.Events.{Geth}
use ovote_node.Eth.Sync.{Log, EthNode, Arrival, process_logs, sync, live}
use ovote_node.VotesAggregator.AddVote.{add_vote}
use ovote_node.VotesAggregator.Proofs.{Prover, generate_proof, get_proof}
use ovote_node.VotesAggregator.SyncProcesses.{sync_processes_round}
use ovote_node.Node.Start.{prepare_meta}

module _ (c : Crypto) (g : Geth) (t : ReceiptTrees) (chain_id : ℕ) where
  pub data NodeStep (s : Sqlite) : Sqlite → Type 0 where
    prepared :
        {s' : Sqlite} (now start : ℕ) {n : ℕ}
        → prepare_meta now chain_id start s ≡ ok (n, s')
        → NodeStep s s'
    history :
        {s' : Sqlite} (now : ℕ) (logs : List Log)
        → process_logs c g now logs s ≡ ok s'
        → NodeStep s s'
    synced : {s' : Sqlite} (node : EthNode) (now : ℕ) → sync c g node now s ≡ ok s' → NodeStep s s'
    arrived : {s' : Sqlite} (now : ℕ) (a : Arrival) → live c g now a s ≡ ok s' → NodeStep s s'
    vote_posted :
        {s' : Sqlite} (now id : ℕ) (v : VotePackage c.PublicKey)
        → add_vote c chain_id now id v s ≡ ok s'
        → NodeStep s s'
    proof_requested :
        {s' : Sqlite} (prover : Prover) (now id : ℕ)
        → generate_proof c t prover chain_id now id s ≡ ok s'
        → NodeStep s s'
    proof_read :
        {s' : Sqlite} (prover : Prover) (now id : ℕ) {p : ProofInDb}
        → get_proof c t prover chain_id now id s ≡ ok (p, s')
        → NodeStep s s'
    processes_looked_up : NodeStep s (sync_processes_round s).0

  -- Any number of these steps.
  pub data NodeSteps (s : Sqlite) : Sqlite → Type 0 where
    begun : NodeSteps s s
    stepped : {t u : Sqlite} → NodeSteps s t → NodeStep t u → NodeSteps s u
