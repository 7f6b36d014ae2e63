-- ===== src/Tests/Censuses.antt =====
-- The census's theorems at a census of two keys.
use ovote_node.Base.{
  ℕ, ◌∷◌, [], ◌≡◌, refl, le_bytes, le_value, int64, true, List, Option, none, some, ℤ, pos, ok,
  panic, replicate, bytes_equal,
}
use ovote_node.Census.Store.{db_key_next_index, db_key_census_closed}
use ovote_node.Types.Encoding.{entry_bytes}
use ovote_node.Census.Operations.{new, add_public_keys, close, get_proof, root, is_closed, size}
use ovote_node.Census.Actions.{Action, perform_all}
use ovote_node.Census.Lifecycle.{perform_all-closed, LooksAs}
use ovote_node.Tests.ToyCensus.{Kv, long_keys, toy_census_db, toy-IsCensusDb}

-- A new census, which is given two keys and then closed.
abbrev pub loaded : Kv
loaded = record {
  entries = (db_key_census_closed, 0 ∷ []) ∷ (db_key_next_index, le_bytes 8 0) ∷ [];
  leaves = [];
}

abbrev pub keys : List ℕ
keys = 11 ∷ 12 ∷ []

abbrev pub weights : List (Option ℤ)
weights = some (pos 2) ∷ some (pos 3) ∷ []

abbrev pub filled : Kv
filled = record {
  entries =
      (db_key_next_index, le_bytes 8 2)
      ∷ (12 ∷ replicate 31 0, entry_bytes long_keys 1 (pos 3))
      ∷ (11 ∷ replicate 31 0, entry_bytes long_keys 0 (pos 2))
      ∷ loaded.entries;
  leaves = (le_bytes 8 0, le_bytes 2 7) ∷ (le_bytes 8 1, le_bytes 2 7) ∷ [];
}

abbrev pub finished : Kv
finished = record filled { entries = (db_key_census_closed, 1 ∷ []) ∷ filled.entries }

pub loads : new long_keys toy_census_db (record { entries = []; leaves = [] }) ≡ ok loaded
unfolding new le_bytes bytes_equal
loads = refl

pub fills : add_public_keys long_keys toy_census_db keys weights loaded ≡ ok filled
unfolding add_public_keys le_bytes bytes_equal le_value int64
fills = refl

-- A weight that is nil ends the batch with a panic.
nil_weight : add_public_keys long_keys toy_census_db keys (some (pos 2) ∷ none ∷ []) loaded ≡ panic
unfolding add_public_keys le_bytes bytes_equal le_value int64
nil_weight = refl

pub closes : close long_keys toy_census_db filled ≡ ok finished
unfolding close le_bytes bytes_equal
closes = refl

proves : get_proof long_keys toy_census_db 11 finished ≡ ok (0, 5 ∷ [])
unfolding get_proof le_bytes bytes_equal entry_bytes int64 le_value
proves = refl

pub rooted : root long_keys toy_census_db finished ≡ ok (2 ∷ [])
unfolding root le_bytes bytes_equal
rooted = refl

-- More keys, a second Close, and an error message.
abbrev pub calls : List (Action long_keys)
calls = Action.add_batch_of keys weights ∷ Action.closing ∷ Action.message (33 ∷ []) ∷ []

is_finished : is_closed long_keys toy_census_db finished ≡ ok true
unfolding is_closed bytes_equal
is_finished = refl

perform_all-closed_example :
    LooksAs long_keys toy_census_db toy-IsCensusDb finished
      (perform_all long_keys toy_census_db calls finished)
perform_all-closed_example =
    perform_all-closed long_keys toy_census_db toy-IsCensusDb calls finished is_finished

abbrev pub reopened : Kv
reopened = record finished { entries = (db_key_census_closed, 0 ∷ []) ∷ finished.entries }

counts : size long_keys toy_census_db loaded ≡ ok 0
unfolding size bytes_equal le_bytes le_value
counts = refl
