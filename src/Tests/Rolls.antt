-- ===== src/Tests/Rolls.antt =====
-- The roll of a census of two keys.
use ovote_node.Base.{ℕ, [], ◌≡◌, refl, true, false, none, ok}
use ovote_node.Census.Actions.{perform_all}
use ovote_node.Census.Beginning.{new-Shows}
use ovote_node.Census.Roll.{Roll, RollSteps, empty_roll, enroll}
use ovote_node.Census.RollWrites.{Shows, add_public_keys-Shows, close-Shows}
use ovote_node.Census.RollRefinement.{perform_all-RollSteps}
use ovote_node.Tests.ToyCensus.{Kv, long_keys, toy_census_db, toy-IsCensusDb, toy-IsCensusTree}
use ovote_node.Tests.Censuses.{loaded, filled, finished, keys, weights, calls, loads, fills, closes}

abbrev new_dir : Kv
new_dir = record { entries = []; leaves = [] }

pub lossless : (k : ℕ) → long_keys.decompress (long_keys.compress k) ≡ ok k
lossless k = refl

perform_all-RollSteps_example :
    (roll : Roll long_keys) × RollSteps long_keys (empty_roll long_keys) roll
    × Shows long_keys toy_census_db (perform_all long_keys toy_census_db calls loaded) roll
perform_all-RollSteps_example =
    perform_all-RollSteps long_keys toy_census_db toy-IsCensusDb toy-IsCensusTree lossless new_dir
      calls {s = loaded} refl (λ k. refl) loads

-- The roll of the two keys, closed.
abbrev pub two_keys : Roll long_keys
two_keys = record { size = 2; closed = true; entry = enroll long_keys 0 keys weights (λ k. none) }

pub Shows-two : Shows long_keys toy_census_db finished two_keys
Shows-two =
    (close-Shows long_keys toy_census_db toy-IsCensusDb toy-IsCensusTree filled
      (record two_keys { closed = false }) closes
      (add_public_keys-Shows long_keys toy_census_db toy-IsCensusDb toy-IsCensusTree lossless keys
        weights loaded (empty_roll long_keys) fills
        (new-Shows long_keys toy_census_db toy-IsCensusDb toy-IsCensusTree new_dir refl (λ k. refl)
          loads)).2).1
