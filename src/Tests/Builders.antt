-- ===== src/Tests/Builders.antt =====
-- Concrete values of the theorems on several censuses.
use ovote_node.Base.{ℕ, ◌∷◌, [], ◌≡◌, ◌≢◌, refl, false, some, ok, le_bytes, arith, bytes_equal}
use ovote_node.Census.Operations.{new, is_closed}
use ovote_node.CensusBuilder.Operations.{
  Disk, Builder, lookup, new_builder, load_census_if_not_yet, close_census, builder_add_public_keys,
  add_public_keys_and_store_error, census_root, census_info, builder_get_proof,
  db_key_next_census_id,
}
use ovote_node.CensusBuilder.Directory.{Same, calls-others}
use ovote_node.CensusBuilder.Messages.{restart-opens}
use ovote_node.Census.Store.{db_key_err_msg}
use ovote_node.Tests.ToyCensus.{Kv, long_keys, toy_census_db, toy-IsCensusDb}
use ovote_node.Tests.Censuses.{loaded, keys, weights, finished, reopened}

abbrev pub toy_disk : Disk toy_census_db
toy_disk = record {
  create_db = λ id. ok (record { entries = []; leaves = [] });
  open_db = λ id s. ok s;
  error_text = λ e. 101 ∷ [];
}

abbrev pub own : ℕ → Kv
own n = record { entries = (db_key_next_census_id, le_bytes 8 n) ∷ []; leaves = [] }

-- Census 3 is closed and is not loaded.
abbrev pub restarted : Builder toy_census_db
restarted = record { sub_dbs = (3, finished) ∷ []; own_db = own 4; censuses = [] }

three_ne_four : ◌≢◌ {A = ℕ} 3 4
three_ne_four e = omega arith

calls-others_example :
    Same long_keys toy_census_db toy_disk 3 restarted
      (close_census long_keys toy_census_db toy_disk 4 restarted).0
    × Same long_keys toy_census_db toy_disk 3 restarted
        (builder_add_public_keys long_keys toy_census_db toy_disk 4 keys weights restarted).0
    × Same long_keys toy_census_db toy_disk 3 restarted
        (add_public_keys_and_store_error long_keys toy_census_db toy_disk 4 keys weights
          restarted).0
    × Same long_keys toy_census_db toy_disk 3 restarted
        (census_root long_keys toy_census_db toy_disk 4 restarted).0
    × Same long_keys toy_census_db toy_disk 3 restarted
        (census_info long_keys toy_census_db toy_disk 4 restarted).0
    × Same long_keys toy_census_db toy_disk 3 restarted
        (builder_get_proof long_keys toy_census_db toy_disk 4 11 restarted).0
calls-others_example =
    calls-others long_keys toy_census_db toy_disk 3 4 keys weights 11 restarted three_ne_four

abbrev created : Builder toy_census_db
created = record {
  sub_dbs = (3, finished) ∷ (4, loaded) ∷ [];
  own_db = record {
    entries = (db_key_next_census_id, le_bytes 8 5) ∷ (own 4).entries;
    leaves = [];
  };
  censuses = 4 ∷ [];
}

restarts : new_builder long_keys toy_census_db toy_disk ((3, finished) ∷ []) (own 4) ≡ ok restarted
unfolding new_builder le_bytes bytes_equal
restarts = refl

abbrev pub with_three : Kv → Builder toy_census_db
with_three s = record { sub_dbs = (3, s) ∷ []; own_db = own 4; censuses = 3 ∷ [] }

loads_three :
    load_census_if_not_yet long_keys toy_census_db toy_disk 3 restarted
    ≡ (with_three reopened, ok tt)
unfolding load_census_if_not_yet le_bytes bytes_equal new
loads_three = refl

restart-opens_example :
    (s : Kv) × (lookup toy_census_db 3 (with_three reopened).sub_dbs ≡ some s)
    × (is_closed long_keys toy_census_db s ≡ ok false)
restart-opens_example =
    restart-opens long_keys toy_census_db toy_disk toy-IsCensusDb ((3, finished) ∷ []) (own 4) 3
      {b = restarted} {b' = with_three reopened} restarts loads_three

abbrev pub noted : Kv
noted = record finished { entries = (db_key_err_msg, 101 ∷ []) ∷ finished.entries }
