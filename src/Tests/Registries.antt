-- ===== src/Tests/Registries.antt =====
-- A builder that makes a census, fills and closes it, restarts and is asked for a proof.
use ovote_node.Base.{
  ◌∷◌, Bytes, some, pos, arith, true, false, ◌==◌, [], ◌≡◌, refl, sym, subst, ok, le_bytes,
  bytes_equal, ok_injective, le_value, int64,
}
use ovote_node.Census.Operations.{root, census_check_proof, new, add_public_keys, close}
use ovote_node.CensusBuilder.RegisteredProofs.{builder_get_proof-ShowsAll}
use ovote_node.CensusBuilder.Operations.{census_root, builder_get_proof, Builder, new_builder}
use ovote_node.CensusBuilder.Registry.{put, Registry, RegistrySteps, no_censuses}
use ovote_node.CensusBuilder.Registered.{IsFresh, ShowsAll, load-ShowsAll}
use ovote_node.CensusBuilder.RegisteredCalls.{IsDisk}
use ovote_node.CensusBuilder.RegistryRefinement.{
  Call, BuilderReach, after_call, BuilderReach-RegistrySteps,
}
use ovote_node.Tests.ToyCensus.{
  long-IsLittleEndian, long_keys, toy_census_db, toy-IsCensusDb, toy-IsCensusTree,
}
use ovote_node.Tests.Censuses.{keys, weights, finished}
use ovote_node.Tests.Builders.{toy_disk, own, with_three}
use ovote_node.Tests.Rolls.{lossless, two_keys, Shows-two}

toy-IsDisk : IsDisk long_keys toy_census_db toy_disk
toy-IsDisk = record {
  create_fresh =
      λ id s e. subst (IsFresh long_keys toy_census_db) (ok_injective e) (refl, λ k. refl);
  open_keeps = λ id s s' e. sym (ok_injective e);
}

abbrev empty_builder : Builder toy_census_db
empty_builder = record { sub_dbs = []; own_db = own 0; censuses = [] }

starts : new_builder long_keys toy_census_db toy_disk [] (own 0) ≡ ok empty_builder
unfolding new_builder le_bytes bytes_equal
starts = refl

abbrev run : Call long_keys → Builder toy_census_db → Builder toy_census_db
run = after_call long_keys toy_census_db toy_disk

abbrev closed : Builder toy_census_db
closed =
    run (Call.closing 0)
      (run (Call.adding_and_storing 0 keys weights) (run Call.making empty_builder))

abbrev started_again : Builder toy_census_db
started_again = record closed { censuses = [] }

starts_again :
    new_builder long_keys toy_census_db toy_disk closed.sub_dbs closed.own_db ≡ ok started_again
unfolding new_builder after_call le_bytes bytes_equal new le_value add_public_keys int64 close
starts_again = refl

reaches : BuilderReach long_keys toy_census_db toy_disk (run (Call.asking_proof 0 11) started_again)
reaches = BuilderReach.called (Call.asking_proof 0 11) (
    BuilderReach.restarted
      (BuilderReach.called (Call.closing 0) (
        BuilderReach.called (Call.adding_and_storing 0 keys weights)
          (BuilderReach.called Call.making (BuilderReach.started (own 0) starts))))
      starts_again)

BuilderReach-RegistrySteps_example :
    (registry : Registry long_keys) × RegistrySteps long_keys (no_censuses long_keys) registry
    × ShowsAll long_keys toy_census_db (run (Call.asking_proof 0 11) started_again) registry
BuilderReach-RegistrySteps_example =
    BuilderReach-RegistrySteps long_keys toy_census_db toy_disk toy-IsCensusDb toy-IsCensusTree
      toy-IsDisk lossless {b = run (Call.asking_proof 0 11) started_again} reaches

-- Census 3, closed and loaded, with nothing else registered.
ShowsAll-three :
    ShowsAll long_keys toy_census_db
      (with_three finished)
      (put long_keys 3 two_keys (no_censuses long_keys))
ShowsAll-three =
    load-ShowsAll long_keys toy_census_db 3 finished two_keys empty_builder (with_three finished)
      (no_censuses long_keys) refl
      (λ j ne. let other : (3 == j) ≡ false = ground arith in rw other refl) Shows-two refl
      (record { shown = λ j. tt; registered = λ j. tt })

root_of_three :
    census_root long_keys toy_census_db toy_disk 3 (with_three finished)
    ≡ (with_three finished, ok (2 ∷ []))
unfolding census_root bytes_equal root
root_of_three = refl

builder_get_proof-ShowsAll_example :
    (siblings : Bytes) × (builder_get_proof long_keys toy_census_db toy_disk 3 11
        (with_three finished)
      ≡ (with_three finished, ok (0, siblings)))
    × (census_check_proof long_keys (2 ∷ []) siblings 0 11 (some (pos 2)) ≡ ok true)
unfolding bytes_equal
builder_get_proof-ShowsAll_example =
    builder_get_proof-ShowsAll long_keys toy_census_db toy_disk toy-IsCensusDb toy-IsCensusTree
      long-IsLittleEndian (with_three finished) (put long_keys 3 two_keys (no_censuses long_keys)) 3
      two_keys 11 0 2 {r = 2 ∷ []} ShowsAll-three refl refl refl refl (omega arith) (omega arith)
      root_of_three
