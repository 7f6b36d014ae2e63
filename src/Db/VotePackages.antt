-- ===== src/Db/VotePackages.antt =====
-- db/votepackages.go
use ovote_node.Base.{
  ℕ, ◌++◌, [], ◌∷◌, List, Bool, ◌||◌, Bytes, ℤ, Result, Error, ok, fail_if, ◌>>=◌, ◌>>◌, ◌==◌, leb,
  any, select, bytes_equal, nat_abs, big_bytes, set_bytes, Option, none, some, take, replicate, not,
}
use ovote_node.External.{Crypto}
use ovote_node.Types.VotePackage.{VotePackage}
use ovote_node.Db.Schema.{Sqlite, VoteRow, bind_uint64}
use ovote_node.Db.Processes.{has_id}
use ovote_node.Db.Query.{order_by}

-- A weight that was left out is stored as 0; `Bytes` drops the sign.
abbrev pub weight_bytes : Option ℤ → Bytes
weight_bytes none = big_bytes 0
weight_bytes (some w) = big_bytes (nat_abs w)

-- The row collides with a stored one in a column that is UNIQUE, whatever its process.
abbrev pub collides : VoteRow → VoteRow → Bool
collides new old =
    old.indx == new.indx
    || (bytes_equal old.public_key new.public_key || bytes_equal old.merkleproof new.merkleproof)

-- INSERT INTO votepackages; SQLite reports a foreign key after the unique columns.
unfoldable pub insert_vote : VoteRow → Sqlite → Result Sqlite
insert_vote row s = do
  fail_if (any (collides row) s.votepackages) Error.unique_constraint
  fail_if (not (any (has_id row.process_id) s.processes))
      (Error.vote_process_missing row.process_id)
  ok (record s { votepackages = s.votepackages ++ row ∷ [] })

-- `copy` into the 64 bytes of a signature.
abbrev pub copy64 : Bytes → Bytes
copy64 b = take 64 (b ++ replicate 64 0)

abbrev pub by_index : VoteRow → VoteRow → Bool
by_index a b = leb a.indx b.indx

module _ (c : Crypto) where
  open c use {PublicKey, compress, decompress}

  abbrev pub vote_row : (now process_id : ℕ) → VotePackage PublicKey → VoteRow
  vote_row now process_id v = record {
    indx = v.census_proof.index;
    public_key = compress v.census_proof.public_key;
    weight = weight_bytes v.census_proof.weight;
    merkleproof = v.census_proof.merkle_proof;
    signature = v.signature;
    vote = v.vote;
    inserted_datetime = now;
    process_id = process_id;
  }

  unfoldable pub store_vote_package :
      (now process_id : ℕ) → VotePackage PublicKey → Sqlite → Result Sqlite
  unfolding bind_uint64 insert_vote
  store_vote_package now process_id v s = do
    index ← bind_uint64 v.census_proof.index
    process ← bind_uint64 process_id
    insert_vote (vote_row now process_id v) s

  -- `Scan` of a row
  unfoldable pub scan_vote : VoteRow → Result (VotePackage PublicKey)
  scan_vote r = do
    key ← decompress r.public_key
    ok (record {
      signature = copy64 r.signature;
      census_proof = record {
        index = r.indx;
        public_key = key;
        weight = some (ℤ.pos (set_bytes r.weight));
        merkle_proof = r.merkleproof;
      };
      vote = r.vote;
    })

  unfoldable pub scan_votes : List VoteRow → Result (List (VotePackage PublicKey))
  unfolding scan_vote
  scan_votes [] = ok []
  scan_votes (r ∷ rows) = do v ← scan_vote r; vs ← scan_votes rows; ok (v ∷ vs)

  -- WHERE processID = ? ORDER BY indx ASC
  unfoldable pub read_vote_packages_by_process_id :
      ℕ → Sqlite → Result (List (VotePackage PublicKey))
  unfolding bind_uint64 scan_votes
  read_vote_packages_by_process_id process_id s = do
    id ← bind_uint64 process_id
    scan_votes (order_by by_index (select (λ (r : VoteRow). r.process_id == id) s.votepackages))
