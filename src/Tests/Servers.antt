-- ===== src/Tests/Servers.antt =====
-- Requests to the HTTP API.
use ovote_node.Base.{
  ℕ, ◌≡◌, [], ◌∷◌, refl, replicate, none, some, Bytes, Error, ok, err, ◌⊎◌, le_bytes, bytes_equal,
  uint64, int64, le_value,
}
use ovote_node.Types.Hex.{hex_to_public_key}
use ovote_node.Db.VotePackages.{vote_row, store_vote_package}
use ovote_node.Db.Processes.{read_process_by_id}
use ovote_node.VotesAggregator.AddVote.{add_vote}
use ovote_node.Types.Encoding.{verify, entry_bytes}
use ovote_node.Census.Operations.{root, get_proof}
use ovote_node.CensusBuilder.Operations.{Builder, census_root, builder_get_proof}
use ovote_node.Api.Atoi.{id_param}
use ovote_node.Api.Handlers.{Binding, Server, Request, Answer, handle_vote, handle_get_merkle_proof}
use ovote_node.Api.Routes.{serve}
use ovote_node.Api.Votes.{Accepted, Refused, post_vote_cases}
use ovote_node.Api.MerkleProofs.{Verifies, get_merkle_proof-Verifies}
use ovote_node.Tests.Toy.{toy, toy_trees, toy_prover, db, ballot}
use ovote_node.Tests.ToyCensus.{long_keys, toy_census_db, toy-IsCensusDb}
use ovote_node.Tests.Censuses.{finished}
use ovote_node.Tests.Builders.{toy_disk, with_three}

-- Every body is a vote.
abbrev toy_binding : Binding toy
toy_binding = record { bind_census = λ b. err (Error.external 3); bind_vote = λ b. ok ballot }

abbrev pub long_binding : Binding long_keys
long_binding = record { bind_census = λ b. err (Error.external 3); bind_vote = λ b. ok ballot }

abbrev votes_only : Server toy toy_census_db
votes_only = record { builder = none; database = some db; jobs = [] }

post_vote_cases_example :
    Accepted toy toy_census_db toy_disk toy_trees toy_prover 5 toy_binding 1100
      (49 ∷ [])
      []
      votes_only
      db
    ⊎ Refused toy toy_census_db toy_disk toy_trees toy_prover 5 toy_binding 1100
        (49 ∷ [])
        []
        votes_only
post_vote_cases_example =
    post_vote_cases toy toy_census_db toy_disk toy_trees toy_prover 5 toy_binding 1100 (49 ∷ []) []
      votes_only db refl

accepts :
    serve toy toy_census_db toy_disk toy_trees toy_prover 5 toy_binding 1100
      (Request.post_vote (49 ∷ []) [])
      votes_only
    ≡ (
      record { status = 200; answer = Answer.nothing },
      record votes_only {
        database = some (record db { votepackages = vote_row toy 1100 1 ballot ∷ [] });
      },
    )
unfolding serve handle_vote id_param add_vote read_process_by_id uint64 verify store_vote_package
accepts = refl

-- The text of key 11.
abbrev key_text : Bytes
key_text = 48 ∷ 98 ∷ replicate 62 48

abbrev censuses_only : Server long_keys toy_census_db
censuses_only = record { builder = some (with_three finished); database = none; jobs = [] }

proves :
    serve long_keys toy_census_db toy_disk toy_trees toy_prover 5 long_binding 1100
      (Request.get_merkle_proof (51 ∷ []) key_text)
      censuses_only
    ≡ (record { status = 200; answer = Answer.merkle_proof 0 (5 ∷ []) }, censuses_only)
unfolding serve handle_get_merkle_proof id_param hex_to_public_key census_root uint64 root
    bytes_equal builder_get_proof get_proof entry_bytes int64 le_bytes le_value
proves = refl

get_merkle_proof-Verifies_example :
    (id : ℕ) × (b' : Builder toy_census_db) × (id_param (51 ∷ []) ≡ ok id)
    × (censuses_only.builder ≡ some b')
    × Verifies long_keys toy_census_db toy_disk long_binding toy-IsCensusDb
        (3 ∷ [])
        (1 ∷ [])
        key_text
        0
        (5 ∷ [])
        id
        b'
get_merkle_proof-Verifies_example =
    get_merkle_proof-Verifies long_keys toy_census_db toy_disk toy_trees toy_prover 5 long_binding
      toy-IsCensusDb (3 ∷ []) (1 ∷ []) (51 ∷ []) key_text 1100 censuses_only (with_three finished)
      {srv' = censuses_only} refl proves
