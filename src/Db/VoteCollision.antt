-- ===== src/Db/VoteCollision.antt =====
-- StoreVotePackage against the unique columns of `votepackages`.
use ovote_node.Base.{
  ℕ, ◌<◌, ◌≡◌, ◌⊎◌, ◌++◌, [], ◌∷◌, true, Error, ok, err, arith, any, any-append, two63,
  bytes_equal_refl,
}
use ovote_node.External.{Crypto}
use ovote_node.Types.VotePackage.{VotePackage}
use ovote_node.Db.Schema.{Sqlite}
use ovote_node.Db.VotePackages.{collides, insert_vote, store_vote_package, vote_row}

module _ (c : Crypto) where
  open c use {PublicKey, compress}

  -- The two packages agree in a column that is unique.
  abbrev pub SharesKey : VotePackage PublicKey → VotePackage PublicKey → Type 0
  SharesKey v w =
      (w.census_proof.index ≡ v.census_proof.index)
      ⊎ (compress w.census_proof.public_key ≡ compress v.census_proof.public_key)
      ⊎ (w.census_proof.merkle_proof ≡ v.census_proof.merkle_proof)

  SharesKey-collides :
      (now now' p q : ℕ) (v w : VotePackage PublicKey)
      → SharesKey v w
      → collides (vote_row c now' q w) (vote_row c now p v) ≡ true
  SharesKey-collides now now' p q v w h = ground (
    arith,
    bytes_equal_refl (compress v.census_proof.public_key),
    bytes_equal_refl v.census_proof.merkle_proof,
  )

  stored_row :
      (now p : ℕ) (v : VotePackage PublicKey) (s : Sqlite) {s' : Sqlite}
      → store_vote_package c now p v s ≡ ok s'
      → s'.votepackages ≡ s.votepackages ++ vote_row c now p v ∷ []
  unfolding store_vote_package insert_vote
  stored_row now p v s e = ground arith

  refused :
      (now q : ℕ) (w : VotePackage PublicKey) (s : Sqlite)
      → any (collides (vote_row c now q w)) s.votepackages ≡ true
      → w.census_proof.index < two63
      → q < two63
      → store_vote_package c now q w s ≡ err Error.unique_constraint
  unfolding store_vote_package insert_vote
  refused now q w s h i b = ground arith

  -- Once a vote is stored, no vote with its index, its public key or its Merkle proof can be
  -- stored again, for this or for any other process: it is refused with the UNIQUE error, if its
  -- index and process id fit an int64.
  pub store_vote_package-once :
      (now now' p q : ℕ) (v w : VotePackage PublicKey) (s : Sqlite) {s' : Sqlite}
      → store_vote_package c now p v s ≡ ok s'
      → SharesKey v w
      → w.census_proof.index < two63
      → q < two63
      → store_vote_package c now' q w s' ≡ err Error.unique_constraint
  store_vote_package-once now now' p q v w s {s'} e h i b =
      refused now' q w s'
        (ground (
          arith,
          stored_row now p v s e,
          any-append (collides (vote_row c now' q w)) s.votepackages (vote_row c now p v ∷ []),
          SharesKey-collides now now' p q v w h,
        ))
        i b
