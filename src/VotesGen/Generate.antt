-- ===== src/VotesGen/Generate.antt =====
-- GenUserKeys, GenCensus and GenVotes. An assertion that fails ends them with the error that it
-- found. Private keys and signing are babyjub's, outside of the repository; the random keys are a
-- list, and the share of the votes in favour, which is computed on floats, is a parameter.
use ovote_node.Base.{
  suc, ℕ, [], ◌∷◌, List, Bytes, ℤ, pos, Option, some, Result, ok, panic, ◌>>=◌, ◌>>◌, panic_unless,
  ltb, replicate, length, if◌then◌else◌,
}
use ovote_node.External.{Crypto}
use ovote_node.Types.VotePackage.{VotePackage}
use ovote_node.Types.Encoding.{hash_vote}
use ovote_node.Census.Store.{CensusDb}
use ovote_node.Census.Operations.{new, add_public_keys, get_proof}

-- babyjub.PrivateKey, with `Public` and `SignPoseidon`, and `Signature.Compress`.
pub record Signer (c : Crypto) : Type 1 where
  pub PrivateKey : Type 0
  pub public : PrivateKey → c.PublicKey
  pub sign_poseidon : PrivateKey → ℕ → c.Signature
  pub compress_signature : c.Signature → Bytes

module _ (c : Crypto) (signer : Signer c) where
  open c use {PublicKey, hash_len, big_int_to_bytes}
  open signer use {PrivateKey, public, sign_poseidon, compress_signature}

  pub record Keys : Type 0 where
    pub private_keys : List PrivateKey
    pub public_keys : List PublicKey
    pub weights : List (Option ℤ)

  -- The private keys that NewRandPrivKey draws, one for each user.
  unfoldable pub gen_user_keys : List PrivateKey → Keys
  gen_user_keys [] = record { private_keys = []; public_keys = []; weights = [] }
  gen_user_keys (sk ∷ drawn) =
      let keys = gen_user_keys drawn in
      record {
        private_keys = sk ∷ keys.private_keys;
        public_keys = public sk ∷ keys.public_keys;
        weights = some (pos 1) ∷ keys.weights;
      }

  -- arbo.BigIntToBytes of 1, or `make`d bytes.
  abbrev pub vote_bytes : (in_favour : ℕ) → ℕ → Bytes
  vote_bytes in_favour i =
      if ltb i in_favour then big_int_to_bytes hash_len (pos 1) else replicate hash_len 0

  module _ (d : CensusDb) where
    -- The database is that of a new directory.
    unfoldable pub gen_census : Keys → d.State → Result d.State
    gen_census keys fresh = do
      s ← new c d fresh
      add_public_keys c d keys.public_keys keys.weights s

    unfoldable pub gen_vote :
        (chain_id process_id : ℕ)
        → PrivateKey
        → PublicKey
        → Option ℤ
        → Bytes
        → d.State
        → Result (VotePackage PublicKey)
    gen_vote chain_id process_id sk k weight vote s = do
      msg ← hash_vote c chain_id process_id vote
      found ← get_proof c d k s
      ok (record {
        signature = compress_signature (sign_poseidon sk msg);
        census_proof = record {
          index = found.0;
          public_key = k;
          weight = weight;
          merkle_proof = found.1;
        };
        vote = vote;
      })

    -- The loop from an index on; the slices of keys and weights are indexed.
    unfoldable pub gen_votes_from :
        (chain_id process_id in_favour i : ℕ)
        → List PrivateKey
        → List PublicKey
        → List (Option ℤ)
        → d.State
        → Result (List (VotePackage PublicKey))
    unfolding gen_vote
    gen_votes_from chain_id process_id in_favour i [] ks ws s = ok []
    gen_votes_from chain_id process_id in_favour i (sk ∷ sks) [] ws s = panic
    gen_votes_from chain_id process_id in_favour i (sk ∷ sks) (k ∷ ks) [] s = panic
    gen_votes_from chain_id process_id in_favour i (sk ∷ sks) (k ∷ ks) (w ∷ ws) s = do
      vote ← gen_vote chain_id process_id sk k w (vote_bytes in_favour i) s
      votes ← gen_votes_from chain_id process_id in_favour (suc i) sks ks ws s
      ok (vote ∷ votes)

    -- `share n ratio` is `int(math.Ceil(float64(n) * (float64(ratio) / 100)))`.
    unfoldable pub gen_votes :
        (share : ℕ → ℕ → ℕ)
        → Keys
        → (chain_id process_id ratio : ℕ) → d.State
        → Result (List (VotePackage PublicKey))
    unfolding gen_votes_from
    gen_votes share keys chain_id process_id ratio s = do
      panic_unless (ltb ratio 100)
      let in_favour = share (length keys.private_keys) ratio
      gen_votes_from chain_id process_id in_favour 0 keys.private_keys keys.public_keys keys.weights
          s
