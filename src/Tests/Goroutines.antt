-- ===== src/Tests/Goroutines.antt =====
-- A goroutine that runs after its census was closed.
use ovote_node.Base.{◌≡◌, [], ◌∷◌, refl, true, none, some, ok, bytes_equal}
use ovote_node.Census.Operations.{is_closed, set_err_msg, get_err_msg}
use ovote_node.Census.Lifecycle.{LooksAs}
use ovote_node.CensusBuilder.Operations.{lookup}
use ovote_node.Api.Handlers.{Server, Job}
use ovote_node.Api.Routes.{run_goroutine}
use ovote_node.Api.Goroutines.{run_goroutine-closed}
use ovote_node.Tests.Toy.{toy_trees, toy_prover}
use ovote_node.Tests.ToyCensus.{long_keys, toy_census_db, toy-IsCensusDb}
use ovote_node.Tests.Censuses.{keys, weights, finished}
use ovote_node.Tests.Builders.{toy_disk, with_three, noted}
use ovote_node.Tests.Servers.{long_binding}

abbrev late : Job long_keys
late = record { census_id = 3; request = record { public_keys = keys; weights = weights } }

-- The server when census 3 is closed and keys for it still wait.
abbrev closed_early : Server long_keys toy_census_db
closed_early = record { builder = some (with_three finished); database = none; jobs = late ∷ [] }

abbrev afterwards : Server long_keys toy_census_db
afterwards = record { builder = some (with_three noted); database = none; jobs = [] }

is_finished : is_closed long_keys toy_census_db finished ≡ ok true
unfolding is_closed bytes_equal
is_finished = refl

notes : set_err_msg long_keys toy_census_db (101 ∷ []) finished ≡ ok noted
unfolding set_err_msg bytes_equal
notes = refl

run_goroutine-closed_example :
    (run_goroutine long_keys toy_census_db toy_disk toy_trees toy_prover 5 long_binding 0
        closed_early
      ≡ ok afterwards)
    × (lookup toy_census_db 3 (with_three noted).sub_dbs ≡ some noted)
    × (get_err_msg long_keys toy_census_db noted ≡ ok (101 ∷ []))
    × LooksAs long_keys toy_census_db toy-IsCensusDb finished noted
run_goroutine-closed_example =
    run_goroutine-closed long_keys toy_census_db toy_disk toy_trees toy_prover 5 long_binding
      toy-IsCensusDb 0 closed_early (with_three finished) late finished noted refl refl refl refl
      is_finished notes
