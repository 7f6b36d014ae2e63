-- ===== src/Tests/Nodes.antt =====
-- Starts of the node.
use ovote_node.Base.{
  ◌≡◌, [], ◌∷◌, refl, true, false, none, some, pos, inr, ok, err, Error, arith, int64, bytes_equal,
  le_bytes,
}
use ovote_node.Db.Schema.{Sqlite, bind_uint64}
use ovote_node.Db.Query.{update_where}
use ovote_node.CensusBuilder.Operations.{new_builder}
use ovote_node.Db.Meta.{update_last_sync_block_num, get_last_sync_block_num, init_meta}
use ovote_node.Api.Handlers.{Server}
use ovote_node.Api.Routes.{new_api}
use ovote_node.Node.Start.{Config, Dial, NodeProcess, prepare_meta, main}
use ovote_node.Node.Serving.{CensusesOnly, main-CensusesOnly}
use ovote_node.Node.Resume.{prepare_meta_resumes}
use ovote_node.Tests.Toy.{toy_geth, db}
use ovote_node.Tests.ToyCensus.{long_keys, toy_census_db}
use ovote_node.Tests.Censuses.{finished}
use ovote_node.Tests.Builders.{toy_disk, own, restarted}

-- The census builder alone, and a chain that can not be reached.
abbrev censuses : Config
censuses = record { start_scan_block = 0; census_builder = true; votes_aggregator = false }

abbrev no_chain : Dial
no_chain = record { dial = err (Error.external 4); network_chain_id = err (Error.external 4) }

abbrev server : Server long_keys toy_census_db
server = record { builder = some restarted; database = none; jobs = [] }

serves :
    main long_keys toy_geth toy_census_db toy_disk censuses no_chain 1100 []
      ((3, finished) ∷ [])
      (own 4)
      db
    ≡ NodeProcess.serving server
unfolding main new_builder bytes_equal le_bytes new_api
serves = refl

main-CensusesOnly_example : CensusesOnly long_keys toy_geth toy_census_db toy_disk censuses server
main-CensusesOnly_example =
    main-CensusesOnly long_keys toy_geth toy_census_db toy_disk censuses no_chain 1100 []
      ((3, finished) ∷ []) (own 4) db {srv = server} serves

-- A migrated database, after the first start, and after the header of block 160.
abbrev empty : Sqlite
empty = record { processes = []; votepackages = []; proofs = []; meta = []; meta_seq = 0 }

abbrev started : Sqlite
started = record empty {
  meta = record { id = 1; chain_id = 5; last_sync_block_num = pos 150; last_update = 1000 } ∷ [];
  meta_seq = 1;
}

abbrev advanced : Sqlite
advanced = record empty {
  meta = record { id = 1; chain_id = 5; last_sync_block_num = pos 160; last_update = 1000 } ∷ [];
  meta_seq = 1;
}

prepares : prepare_meta 1000 5 150 empty ≡ ok (150, started)
unfolding prepare_meta get_last_sync_block_num init_meta bind_uint64
prepares = refl

advances : update_last_sync_block_num 160 started ≡ ok advanced
unfolding update_last_sync_block_num update_where int64
advances = refl

-- The second start has no flag for the block.
prepare_meta_resumes_example : prepare_meta 2000 5 0 advanced ≡ ok (160, advanced)
prepare_meta_resumes_example =
    prepare_meta_resumes 1000 5 150 2000 5 0 160 150 empty {s' = started} {s'' = advanced}
      (inr (refl, refl)) (omega arith) prepares advances
