-- ===== src/Tests/Voters.antt =====
-- Two users, their census and their votes.
use ovote_node.Base.{
  ℕ, ◌∷◌, [], ◌+◌, ◌/◌, ◌*◌, ◌≡◌, ◌≢◌, refl, List, pos, ok, All, length, le_bytes, replicate, arith,
  bytes_equal, le_value, int64,
}
use ovote_node.Types.VotePackage.{VotePackage}
use ovote_node.Types.Encoding.{verify, entry_bytes}
use ovote_node.Census.Store.{db_key_next_index, db_key_census_closed}
use ovote_node.Census.Operations.{close, root}
use ovote_node.VotesGen.Generate.{Signer, gen_user_keys, gen_census, gen_votes}
use ovote_node.VotesGen.Verified.{IsSigner, gen_votes-verify}
use ovote_node.Tests.ToyCensus.{
  Kv, long_keys, toy_census_db, toy-IsCensusDb, toy-IsCensusTree, long-IsLittleEndian,
}
use ovote_node.Tests.Censuses.{loaded}

-- A private key is its public key, and every signature is the same.
abbrev toy_signer : Signer long_keys
toy_signer = record {
  PrivateKey = ℕ;
  public = λ sk. sk;
  sign_poseidon = λ sk msg. tt;
  compress_signature = λ sig. 3 ∷ [];
}

toy-IsSigner : IsSigner long_keys toy_signer
toy-IsSigner = record { decompress_compressed = λ sig. refl; verifies = λ sk msg. refl }

abbrev drawn : List ℕ
drawn = 11 ∷ 12 ∷ []

abbrev empty_dir : Kv
empty_dir = record { entries = []; leaves = [] }

abbrev enrolled : Kv
enrolled = record {
  entries =
      (db_key_next_index, le_bytes 8 2)
      ∷ (12 ∷ replicate 31 0, entry_bytes long_keys 1 (pos 1))
      ∷ (11 ∷ replicate 31 0, entry_bytes long_keys 0 (pos 1))
      ∷ loaded.entries;
  leaves = (le_bytes 8 0, le_bytes 2 7) ∷ (le_bytes 8 1, le_bytes 2 7) ∷ [];
}

abbrev closed : Kv
closed = record enrolled { entries = (db_key_census_closed, 1 ∷ []) ∷ enrolled.entries }

makes :
    gen_census long_keys toy_signer toy_census_db
      (gen_user_keys long_keys toy_signer drawn)
      empty_dir
    ≡ ok enrolled
unfolding gen_census gen_user_keys le_bytes bytes_equal le_value int64
    ovote_node.Census.Operations.new ovote_node.Census.Operations.add_public_keys
makes = refl

closes : close long_keys toy_census_db enrolled ≡ ok closed
unfolding close le_bytes bytes_equal
closes = refl

rooted : root long_keys toy_census_db closed ≡ ok (2 ∷ [])
unfolding root bytes_equal
rooted = refl

different : long_keys.compress 11 ≢ long_keys.compress 12
different e = let heads : ◌≡◌ {A = ℕ} 11 12 = cc in omega arith

gen_votes-verify_example :
    (votes : List (VotePackage ℕ)) × (gen_votes long_keys toy_signer toy_census_db
        (λ n ratio. (n * ratio + 99) / 100)
        (gen_user_keys long_keys toy_signer drawn)
        5
        1
        60
        closed
      ≡ ok votes)
    × (length votes ≡ 2)
    × All (λ v. verify long_keys 5 1 (2 ∷ []) v ≡ ok tt) votes
unfolding ovote_node.Types.Encoding.hash_vote
gen_votes-verify_example =
    gen_votes-verify long_keys toy_signer toy_census_db toy-IsCensusDb toy-IsCensusTree
      long-IsLittleEndian toy-IsSigner (λ n ratio. (n * ratio + 99) / 100) drawn 5 1 60 empty_dir
      {s₁ = enrolled} {s₂ = closed} {r = 2 ∷ []} {yea = 7} {nay = 7} ((different, tt), (tt, tt))
      (omega arith) (omega arith) refl makes closes rooted refl refl
