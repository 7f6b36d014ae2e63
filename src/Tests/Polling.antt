-- ===== src/Tests/Polling.antt =====
-- Polls at work.
use mathlib.Core.Quot
use ovote_node.Base.{
  ℕ, ◌<◌, ◌≡◌, ◌≢◌, refl, [], ◌∷◌, ◌++◌, List, Bytes, Error, ok, err, pos, arith, replicate,
  bytes_equal, length,
}
use ovote_node.Types.Process.{Process}
use ovote_node.Types.ZkInputs.{ZkInputs}
use ovote_node.Db.Schema.{Sqlite, VoteRow, migrate}
use ovote_node.Db.Invariant.{IsValid}
use ovote_node.Db.Processes.{read_process_by_id, scan_process, new_process}
use ovote_node.Db.VotePackages.{vote_row, read_vote_packages_by_process_id}
use ovote_node.Eth.Sync.{Log, EthNode, Arrival}
use ovote_node.VotesAggregator.Proofs.{generate_proof}
use ovote_node.VotesAggregator.ZkInputs.{generate_zk_inputs}
use ovote_node.Db.Proofs.{get_proof_by_process_id}
use ovote_node.VotesAggregator.Capacity.{generate_proof-full}
use ovote_node.Polls.Spec.{Bag, PollSteps, no_polls}
use ovote_node.Polls.View.{view, ballots_in}
use ovote_node.Polls.Steps.{NodeStep, begun, stepped}
use ovote_node.Polls.Refinement.{NodeSteps-PollSteps}
use ovote_node.Polls.Closing.{NodeSteps-closed}
use ovote_node.Polls.Results.{in_favour, turnout, generate_zk_inputs-totals, result_is_settled}
use ovote_node.Tests.Toy.{
  toy, toy_trees, toy_prover, toy_geth, db, ballot, first_process, second_process,
}
use ovote_node.Tests.Chain.{creation_log, word}
use ovote_node.Tests.Votes.{voted_twice, inputs, read_ballot}

-- The life of one poll: the first start, the log of process 3, a vote, and a second start after
-- its ResPubStartBlock.
abbrev prepared : Sqlite
prepared = record {
  processes = [];
  votepackages = [];
  proofs = [];
  meta = record { id = 1; chain_id = 5; last_sync_block_num = pos 100; last_update = 1000 } ∷ [];
  meta_seq = 1;
}

abbrev opened : Sqlite
opened = record prepared {
  processes = new_process 1001 3 (toy.swap_endianness (word 2)) 1000 120 400 50 10 60 1 ∷ [];
}

abbrev voted : Sqlite
voted = record opened { votepackages = vote_row toy 1002 3 ballot ∷ [] }

abbrev closed : Sqlite
closed = record voted {
  processes =
      record (new_process 1001 3 (toy.swap_endianness (word 2)) 1000 120 400 50 10 60 1) {
        status = 1;
      }
      ∷ [];
}

abbrev late_node : EthNode
late_node = record { header_by_number = ok 450; filter_logs = λ from to. ok [] }

prepares : NodeStep toy toy_geth toy_trees 5 migrate prepared
unfolding ovote_node.Node.Start.prepare_meta ovote_node.Db.Meta.get_last_sync_block_num migrate
    ovote_node.Db.Meta.init_meta ovote_node.Db.Schema.bind_uint64
prepares = NodeStep.prepared 1000 100 {n = 100} refl

opens : NodeStep toy toy_geth toy_trees 5 prepared opened
unfolding ovote_node.Eth.Sync.process_logs ovote_node.Eth.Words.uint64_word ovote_node.Base.be_bytes
    ovote_node.Eth.Events.parse_event_new_process ovote_node.Db.Processes.store_process
    ovote_node.Base.be_value
opens = NodeStep.history 1001 (creation_log ∷ []) refl

votes : NodeStep toy toy_geth toy_trees 5 opened voted
unfolding ovote_node.VotesAggregator.AddVote.add_vote read_process_by_id
    ovote_node.Types.Encoding.verify ovote_node.Db.VotePackages.store_vote_package
votes = NodeStep.vote_posted 1002 3 ballot refl

closes : NodeStep toy toy_geth toy_trees 5 voted closed
unfolding ovote_node.Eth.Sync.sync ovote_node.Db.Meta.get_last_sync_block_num
    ovote_node.Db.Processes.froze_processes_by_current_block_num ovote_node.Base.int64
closes = NodeStep.synced late_node 1003 refl

NodeSteps-PollSteps_example : PollSteps toy 5 no_polls (view closed)
NodeSteps-PollSteps_example =
    NodeSteps-PollSteps toy toy_geth toy_trees 5
      (stepped (stepped (stepped (stepped begun prepares) opens) votes) closes)

-- The first process frozen, with two votes; then a header arrives.
abbrev frozen_twice : Sqlite
frozen_twice = record voted_twice {
  processes = record first_process { status = 1 } ∷ second_process ∷ [];
}

abbrev later : Sqlite
later = record frozen_twice {
  meta = record { id = 1; chain_id = 5; last_sync_block_num = pos 260; last_update = 1000 } ∷ [];
}

frozen_twice-IsValid : IsValid frozen_twice
unfolding bytes_equal
frozen_twice-IsValid = record {
  ids = (refl, (refl, tt));
  small_ids = (omega arith, (omega arith, tt));
  votes = (refl, (refl, tt));
  voted = (refl, (refl, tt));
  proof_ids = tt;
  proved = tt;
  meta_ids = (refl, tt);
  seq = (omega arith, tt);
}

arrives : NodeStep toy toy_geth toy_trees 5 frozen_twice later
unfolding ovote_node.Eth.Sync.live ovote_node.Db.Meta.update_last_sync_block_num
    ovote_node.Db.Query.update_where ovote_node.Base.int64
arrives = NodeStep.arrived 1200 (Arrival.header 260) refl

abbrev frozen_process : Process
frozen_process = scan_process (record first_process { status = 1 })

reads_frozen : read_process_by_id 1 frozen_twice ≡ ok frozen_process
unfolding read_process_by_id
reads_frozen = refl

frozen_is_not_on : ◌≢◌ {A = ℕ} 1 0
frozen_is_not_on e = omega arith

NodeSteps-closed_example :
    (read_process_by_id 1 later ≡ ok frozen_process)
    × (◌≡◌ {A = Bag}
        (Quot.mk (ballots_in 1 later.votepackages))
        (Quot.mk (ballots_in 1 frozen_twice.votepackages)))
NodeSteps-closed_example =
    NodeSteps-closed toy toy_geth toy_trees 5 1 frozen_process frozen_twice-IsValid reads_frozen
      frozen_is_not_on (stepped begun arrives)

generates : generate_zk_inputs toy toy_trees 5 1 3 2 frozen_twice ≡ ok inputs
unfolding generate_zk_inputs read_process_by_id read_vote_packages_by_process_id
    ovote_node.Db.Query.order_by ovote_node.Base.le_value ovote_node.Types.ZkInputs.assign
    ovote_node.Types.ZkInputs.merkle_proof_to_zk_inputs_format
    ovote_node.Types.Encoding.uint64_to_index ovote_node.Base.int64 ovote_node.Base.le_bytes
    ovote_node.Types.Encoding.hash_pubk_bytes ovote_node.Types.ZkInputs.compute_receipts
    ovote_node.Base.◌+ℤ◌ ovote_node.Base.set_bytes ovote_node.Base.◌*ℤ◌ ovote_node.Base.big_bytes
generates = refl

generates_later : generate_zk_inputs toy toy_trees 5 1 3 2 later ≡ ok inputs
unfolding generate_zk_inputs read_process_by_id read_vote_packages_by_process_id
    ovote_node.Db.Query.order_by ovote_node.Base.le_value ovote_node.Types.ZkInputs.assign
    ovote_node.Types.ZkInputs.merkle_proof_to_zk_inputs_format
    ovote_node.Types.Encoding.uint64_to_index ovote_node.Base.int64 ovote_node.Base.le_bytes
    ovote_node.Types.Encoding.hash_pubk_bytes ovote_node.Types.ZkInputs.compute_receipts
    ovote_node.Base.◌+ℤ◌ ovote_node.Base.set_bytes ovote_node.Base.◌*ℤ◌ ovote_node.Base.big_bytes
generates_later = refl

generate_zk_inputs-totals_example :
    (inputs.result ≡ pos (in_favour toy (Quot.mk (ballots_in 1 frozen_twice.votepackages))))
    × (inputs.n_votes ≡ turnout (Quot.mk (ballots_in 1 frozen_twice.votepackages)))
generate_zk_inputs-totals_example =
    generate_zk_inputs-totals toy toy_trees 5 1 3 2 frozen_twice {z = inputs} generates

result_is_settled_example : (inputs.result ≡ inputs.result) × (inputs.n_votes ≡ inputs.n_votes)
result_is_settled_example =
    result_is_settled toy toy_geth toy_trees 5 1 3 3 2 2 frozen_process {z = inputs} {z' = inputs}
      frozen_twice-IsValid reads_frozen frozen_is_not_on (stepped begun arrives) generates
      generates_later

-- One vote more than the circuit takes.
abbrev overfull : Sqlite
overfull = record db { votepackages = replicate 129 (vote_row toy 1100 1 ballot) }

reads_overfull : read_vote_packages_by_process_id toy 1 overfull ≡ ok (replicate 129 read_ballot)
unfolding read_vote_packages_by_process_id ovote_node.Db.Query.order_by ovote_node.Base.set_bytes
    ovote_node.Base.big_bytes
reads_overfull = refl

has_no_proof : get_proof_by_process_id 1 overfull ≡ err (Error.proof_not_in_db 1)
unfolding get_proof_by_process_id ovote_node.Db.Query.order_by
has_no_proof = refl

generate_proof-full_example :
    generate_proof toy toy_trees toy_prover 5 1300 1 overfull ≢ ok overfull
generate_proof-full_example =
    generate_proof-full toy toy_trees toy_prover 5 1300 1 1 overfull overfull reads_overfull
      (omega arith) has_no_proof
