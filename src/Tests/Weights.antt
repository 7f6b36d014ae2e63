-- ===== src/Tests/Weights.antt =====
-- A request that gives no weight to its second key.
use ovote_node.Base.{[], ◌∷◌, none, some, pos, ok}
use ovote_node.Api.Handlers.{Binding, NewCensusReq, Request, Reply, Server}
use ovote_node.Api.Routes.{serve}
use ovote_node.Tests.Toy.{toy_trees, toy_prover}
use ovote_node.Tests.ToyCensus.{long_keys, toy_census_db}
use ovote_node.Tests.Censuses.{keys, reopened}
use ovote_node.Tests.Builders.{toy_disk, with_three}
use ovote_node.Tests.Servers.{long_binding}

abbrev without_weight : NewCensusReq long_keys
without_weight = record { public_keys = keys; weights = some (pos 2) ∷ none ∷ [] }

abbrev reads_it : Binding long_keys
reads_it = record long_binding { bind_census = λ b. ok without_weight }

-- Census 3 is loaded and open.
abbrev open_three : Server long_keys toy_census_db
open_three = record { builder = some (with_three reopened); database = none; jobs = [] }

abbrev replied : Reply × Server long_keys toy_census_db
replied =
    serve long_keys toy_census_db toy_disk toy_trees toy_prover 5 reads_it 1100
      (Request.post_add_keys (51 ∷ []) []) open_three
