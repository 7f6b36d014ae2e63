-- ===== src/VotesAggregator/AddVote.antt =====
-- VotesAggregator.AddVote and ProcessInfo.
use ovote_node.Base.{ℕ, not, ◌==◌, Result, Error, fail_if, ◌>>=◌, ◌>>◌}
use ovote_node.External.{Crypto}
use ovote_node.Types.Process.{Process, process_status_on}
use ovote_node.Types.VotePackage.{VotePackage}
use ovote_node.Types.Encoding.{verify}
use ovote_node.Db.Schema.{Sqlite}
use ovote_node.Db.Processes.{read_process_by_id}
use ovote_node.Db.VotePackages.{store_vote_package}

unfoldable pub process_info : ℕ → Sqlite → Result Process
process_info process_id s = read_process_by_id process_id s

-- The process must be On and the package must verify against its census root; then it is stored.
unfoldable pub add_vote :
    (c : Crypto) (chain_id now process_id : ℕ) → VotePackage c.PublicKey → Sqlite → Result Sqlite
add_vote c chain_id now process_id vp s = do
  process ← read_process_by_id process_id s
  fail_if (not (process.status == process_status_on))
      (Error.votes_can_not_be_added process.res_pub_start_block)
  verify c chain_id process_id process.census_root vp
  store_vote_package c now process_id vp s
