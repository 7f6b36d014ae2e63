-- ===== src/Tests/Votes.antt =====
-- Votes and proofs at work.
use mathlib.Core.List.{Perm}
use ovote_node.Base.{
  ℕ, ◌<◌, ◌+◌, ◌≡◌, refl, ◌++◌, [], ◌∷◌, List, Result, Error, ok, err, arith, inl, inr, All, two63,
  pos, some, if◌then◌else◌, ◌>>=◌, int64, bytes_equal, select, ◌==◌, map, replicate, length, false,
  set_bytes, big_bytes, Bytes,
}
use ovote_node.Types.Process.{Process}
use ovote_node.Types.VotePackage.{VotePackage}
use ovote_node.Types.ZkInputs.{ZkInputs}
use ovote_node.Types.Encoding.{verify}
use ovote_node.Db.Schema.{Sqlite, VoteRow}
use ovote_node.Db.Invariant.{IsValid}
use ovote_node.Db.Processes.{scan_process, read_process_by_id, froze_processes_by_current_block_num}
use ovote_node.Db.Proofs.{store_proof_id, get_proof_by_process_id}
use ovote_node.Db.VotePackages.{
  store_vote_package, vote_row, read_vote_packages_by_process_id, scan_votes,
}
use ovote_node.Db.Query.{order_by}
use ovote_node.Db.Meta.{get_last_sync_block_num}
use ovote_node.Db.VoteOrder.{read_vote_packages_sorted, Increasing, index_of}
use ovote_node.VotesAggregator.AddVote.{add_vote}
use ovote_node.VotesAggregator.Ballots.{
  add_vote-eq_ok, add_vote_accepts, add_vote-froze, add_vote-once,
}
use ovote_node.VotesAggregator.Slots.{tally}
use ovote_node.VotesAggregator.Counting.{add_vote-tally, worth}
use ovote_node.VotesAggregator.ZkInputs.{generate_zk_inputs}
use ovote_node.VotesAggregator.Result.{generate_zk_inputs-Represents, IsAbout}
use ovote_node.VotesAggregator.Represents.{Represents, HasReceipts}
use ovote_node.VotesAggregator.Proofs.{generate_proof}
use ovote_node.VotesAggregator.ProofRequests.{generate_proof-again}
use ovote_node.Tests.Toy.{
  toy, toy_trees, toy_prover, db, ballot, unweighted, first_process, second_process,
}

-- After `ballot` for process 1, and after `unweighted` for process 1 too.
abbrev voted : Sqlite
voted = record db { votepackages = vote_row toy 1100 1 ballot ∷ [] }

abbrev pub voted_twice : Sqlite
voted_twice = record db {
  votepackages = vote_row toy 1100 1 ballot ∷ vote_row toy 1101 1 unweighted ∷ [];
}

abbrev process_of_db : Process
process_of_db = scan_process first_process

add_vote_accepts_example : add_vote toy 5 1100 1 ballot db ≡ ok voted
unfolding read_process_by_id verify bytes_equal
add_vote_accepts_example =
    add_vote_accepts toy 5 1100 1 ballot db process_of_db refl refl refl refl (omega arith)

add_vote-eq_ok_example :
    (process : Process) × (read_process_by_id 1 voted ≡ ok process)
    × (process.status ≡ 0)
    × (verify toy 5 1 process.census_root unweighted ≡ ok tt)
    × (voted_twice ≡ voted_twice)
unfolding add_vote store_vote_package read_process_by_id verify bytes_equal
add_vote-eq_ok_example = add_vote-eq_ok toy 5 1101 1 unweighted voted {s' = voted_twice} refl

-- The first process frozen.
abbrev frozen : Sqlite
frozen = record db { processes = record first_process { status = 1 } ∷ second_process ∷ [] }

add_vote-froze_example :
    add_vote toy 5 1100 1 ballot frozen ≡ err (Error.votes_can_not_be_added 200)
unfolding read_process_by_id froze_processes_by_current_block_num int64
add_vote-froze_example =
    add_vote-froze toy 5 1100 1 250 ballot db process_of_db {s' = frozen} refl (omega arith)
      (omega arith) refl

add_vote-once_example : ¬ (add_vote toy 5 1200 2 ballot voted ≡ ok voted_twice)
unfolding add_vote store_vote_package read_process_by_id verify bytes_equal
add_vote-once_example =
    add_vote-once toy 5 1100 1200 1 2 ballot ballot db {s' = voted} {s'' = voted_twice} refl
      (inl refl)

-- The packages as they are read back.
abbrev signature64 : ℕ → Bytes
signature64 b = b ∷ replicate 63 0

abbrev pub read_ballot : VotePackage ℕ
read_ballot = record ballot { signature = signature64 3 }

abbrev read_unweighted : VotePackage ℕ
read_unweighted = record {
  signature = signature64 4;
  census_proof = record {
    index = 2;
    public_key = 12;
    weight = some (pos 0);
    merkle_proof = 2 ∷ [];
  };
  vote = 1 ∷ [];
}

-- The vote without a weight adds nothing.
add_vote-tally_example :
    tally toy (read_unweighted ∷ read_ballot ∷ [])
    ≡ tally toy (read_ballot ∷ []) + worth toy unweighted
unfolding add_vote store_vote_package read_process_by_id verify bytes_equal
    read_vote_packages_by_process_id order_by set_bytes big_bytes
add_vote-tally_example =
    add_vote-tally toy 5 1101 1 1 unweighted voted {s' = voted_twice} {vs = read_ballot ∷ []}
      {vs' = read_unweighted ∷ read_ballot ∷ []} refl refl refl

voted_twice-IsValid : IsValid voted_twice
unfolding bytes_equal
voted_twice-IsValid = record {
  ids = (refl, (refl, tt));
  small_ids = (omega arith, (omega arith, tt));
  votes = (refl, (refl, tt));
  voted = (refl, (refl, tt));
  proof_ids = tt;
  proved = tt;
  meta_ids = (refl, tt);
  seq = (omega arith, tt);
}

read_vote_packages_sorted_example :
    (rows : List VoteRow) × Perm rows
      (select (λ (r : VoteRow). r.process_id == 1) voted_twice.votepackages)
    × (scan_votes toy rows ≡ ok (read_unweighted ∷ read_ballot ∷ []))
    × Increasing (map (index_of toy) (read_unweighted ∷ read_ballot ∷ []))
unfolding read_vote_packages_by_process_id order_by set_bytes big_bytes
read_vote_packages_sorted_example =
    read_vote_packages_sorted toy 1 voted_twice {vs = read_unweighted ∷ read_ballot ∷ []}
      voted_twice-IsValid refl

-- The inputs for three slots and two levels.
abbrev pub inputs : ZkInputs
inputs = record {
  n_max_votes = 3;
  n_levels = 2;
  chain_id = pos 5;
  process_id = pos 1;
  census_root = 9;
  receipts_root = 8;
  n_votes = 2;
  result = pos 2;
  with_receipts = 1;
  vote = 1 ∷ 1 ∷ 0 ∷ [];
  index = pos 2 ∷ pos 3 ∷ pos 0 ∷ [];
  pk_x = 12 ∷ 11 ∷ 0 ∷ [];
  pk_y = 13 ∷ 12 ∷ 0 ∷ [];
  weight = pos 0 ∷ pos 2 ∷ pos 0 ∷ [];
  s = 4 ∷ 4 ∷ 0 ∷ [];
  r8x = 5 ∷ 5 ∷ 0 ∷ [];
  r8y = 6 ∷ 6 ∷ 0 ∷ [];
  siblings = (2 ∷ 0 ∷ 0 ∷ []) ∷ (1 ∷ 0 ∷ 0 ∷ []) ∷ (0 ∷ 0 ∷ 0 ∷ []) ∷ [];
  receipts_siblings = (2 ∷ 0 ∷ 0 ∷ []) ∷ (3 ∷ 0 ∷ 0 ∷ []) ∷ (0 ∷ 0 ∷ 0 ∷ []) ∷ [];
}

generate_zk_inputs-Represents_example :
    (vs : List (VotePackage ℕ)) × (read_vote_packages_by_process_id toy 1 voted_twice ≡ ok vs)
    × Represents toy 3 2 vs inputs
    × HasReceipts toy toy_trees 3 2 vs inputs
    × (process : Process) × (read_process_by_id 1 voted_twice ≡ ok process)
    × IsAbout toy 5 1 process inputs
unfolding generate_zk_inputs read_process_by_id read_vote_packages_by_process_id order_by
    ovote_node.Base.le_value ovote_node.Types.ZkInputs.assign
    ovote_node.Types.ZkInputs.merkle_proof_to_zk_inputs_format
    ovote_node.Types.Encoding.uint64_to_index int64 ovote_node.Base.le_bytes
    ovote_node.Types.Encoding.hash_pubk_bytes ovote_node.Types.ZkInputs.compute_receipts
    ovote_node.Base.◌+ℤ◌ set_bytes ovote_node.Base.◌*ℤ◌ big_bytes
generate_zk_inputs-Represents_example =
    generate_zk_inputs-Represents toy toy_trees 5 1 3 2 voted_twice {z = inputs} refl

-- The proof id 5 of the prover, stored for process 1.
abbrev pub requested : Sqlite
requested = record voted {
  proofs =
      record {
        proofid = 5;
        proof = [];
        public_inputs = [];
        inserted_datetime = 1300;
        proof_added_datetime = 0;
        process_id = 1;
      }
      ∷ [];
}

generate_proof-again_example :
    generate_proof toy toy_trees toy_prover 5 1400 1 requested ≡ ok requested
unfolding generate_proof generate_zk_inputs read_process_by_id get_last_sync_block_num
    read_vote_packages_by_process_id ovote_node.Base.uint64 get_proof_by_process_id order_by
    ovote_node.Base.le_value ovote_node.Types.ZkInputs.assign
    ovote_node.Types.ZkInputs.merkle_proof_to_zk_inputs_format
    ovote_node.Types.Encoding.uint64_to_index int64 ovote_node.Base.le_bytes
    ovote_node.Types.Encoding.hash_pubk_bytes ovote_node.Types.ZkInputs.compute_receipts
    store_proof_id
generate_proof-again_example =
    generate_proof-again toy toy_trees 5 toy_prover toy_prover 1300 1400 1 voted {s' = requested}
      refl
