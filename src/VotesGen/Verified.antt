-- ===== src/VotesGen/Verified.antt =====
-- The votes of GenVotes against the checks of a vote package.
use ovote_node.Base.{
  ℕ, suc, ◌≤◌, ◌<◌, ◌≡◌, [], ◌∷◌, List, Bytes, pos, Bool, some, none, ok, true, false, All, All-map,
  length, two63, arith, refl, ap, bind_eq_ok, ltb, lt→ltb, replicate, if◌then◌else◌,
}
use ovote_node.External.{Crypto, IsLittleEndian}
use ovote_node.Types.VotePackage.{VotePackage}
use ovote_node.Types.Encoding.{hash_vote, hash_pubk_bytes, verify}
use ovote_node.Census.Store.{CensusDb, IsCensusDb, db_key_next_index}
use ovote_node.Census.Operations.{new, close, root, get_proof, census_check_proof}
use ovote_node.Census.Proofs.{IsCensusTree, get_proof-Member}
use ovote_node.Census.Beginning.{new-empty}
use ovote_node.VotesGen.Generate.{
  Signer, gen_user_keys, vote_bytes, gen_census, gen_vote, gen_votes_from, gen_votes,
}
use ovote_node.VotesGen.Voters.{AllDiffer, Enrolled, all_Enrolled, private_keys-gen_user_keys}

-- What babyjub documents: a signature survives its compression, and verifies for the public key
-- of the key that made it.
pub record IsSigner (c : Crypto) (signer : Signer c) : Type 0 where
  pub decompress_compressed :
      (sig : c.Signature) → c.decompress_signature (signer.compress_signature sig) ≡ ok sig
  pub verifies :
      (sk : signer.PrivateKey) (msg : ℕ)
      → c.verify_poseidon (signer.public sk) msg (signer.sign_poseidon sk msg) ≡ true

module _ (c : Crypto) (signer : Signer c) (d : CensusDb) where
  open c use {PublicKey, hash_len, big_int_to_bytes}
  open signer use {PrivateKey, public}

  -- A key gets a proof from the census that checks against a root, with weight 1.
  abbrev CanProve : Bytes → d.State → PrivateKey → Type 0
  CanProve r s sk =
      (j : ℕ) × (siblings : Bytes) × (get_proof c d (public sk) s ≡ ok (j, siblings))
      × (census_check_proof c r siblings j (public sk) (some (pos 1)) ≡ ok true)

  gen_vote-verify :
      (chain_id process_id msg : ℕ) (sk : PrivateKey) (vote r : Bytes) (s : d.State)
      → IsSigner c signer
      → hash_vote c chain_id process_id vote ≡ ok msg
      → CanProve r s sk
      → (v : VotePackage PublicKey) × (gen_vote c signer d chain_id process_id sk
            (public sk)
            (some (pos 1))
            vote
            s
          ≡ ok v)
        × (verify c chain_id process_id r v ≡ ok tt)
  unfolding gen_vote verify census_check_proof
  gen_vote-verify chain_id process_id msg sk vote r s signs hashed (j, siblings, proof, checks) =
      let (leaf, hashed_leaf, checked) =
        bind_eq_ok (hash_pubk_bytes c (public sk) (some (pos 1))) _ checks in
      (
        record {
          signature = signer.compress_signature (signer.sign_poseidon sk msg);
          census_proof = record {
            index = j;
            public_key = public sk;
            weight = some (pos 1);
            merkle_proof = siblings;
          };
          vote = vote;
        },
        rw (hashed, proof) refl,
        rw
            (
              hashed,
              signs.decompress_compressed (signer.sign_poseidon sk msg),
              signs.verifies sk msg,
              hashed_leaf,
              checked,
            )
            refl,
      )

  -- Both texts that a vote can have are hashed.
  abbrev Hashed : ℕ → ℕ → Bytes → Type 0
  Hashed chain_id process_id vote = (msg : ℕ) × (hash_vote c chain_id process_id vote ≡ ok msg)

  Hashed-bytes :
      (chain_id process_id : ℕ)
      → Hashed chain_id process_id (big_int_to_bytes hash_len (pos 1))
      → Hashed chain_id process_id (replicate hash_len 0)
      → (b : Bool)
      → Hashed chain_id process_id
          (if b then big_int_to_bytes hash_len (pos 1) else replicate hash_len 0)
  Hashed-bytes chain_id process_id yea nay true = yea
  Hashed-bytes chain_id process_id yea nay false = nay

  gen_votes_from-verify :
      (chain_id process_id in_favour i : ℕ) (sks : List PrivateKey) (r : Bytes) (s : d.State)
      → IsSigner c signer
      → Hashed chain_id process_id (big_int_to_bytes hash_len (pos 1))
      → Hashed chain_id process_id (replicate hash_len 0)
      → All (CanProve r s) sks
      → (votes : List (VotePackage PublicKey)) × (gen_votes_from c signer d chain_id process_id
            in_favour i sks
            (gen_user_keys c signer sks).public_keys
            (gen_user_keys c signer sks).weights
            s
          ≡ ok votes)
        × (length votes ≡ length sks)
        × All (λ v. verify c chain_id process_id r v ≡ ok tt) votes
  unfolding gen_votes_from gen_user_keys
  gen_votes_from-verify chain_id process_id in_favour i [] r s signs yea nay can =
      ([], refl, refl, tt)
  gen_votes_from-verify chain_id process_id in_favour i (sk ∷ sks) r s signs yea nay (here, rest) =
      let (msg, hashed) = Hashed-bytes chain_id process_id yea nay (ltb i in_favour) in
      let (v, made, verifies) =
        gen_vote-verify chain_id process_id msg sk (vote_bytes c signer in_favour i) r s signs
          hashed here in
      let (votes, looped, count, all) =
        gen_votes_from-verify chain_id process_id in_favour (suc i) sks r s signs yea nay rest in
      (v ∷ votes, rw (made, looped) refl, ap suc count, (verifies, all))

  -- In a census that was made of the drawn keys in a new directory and closed, every key can prove
  -- its place.
  all_CanProve :
      IsCensusDb c d
      → IsCensusTree c d
      → IsLittleEndian c
      → (drawn : List PrivateKey) (fresh : d.State) {s₁ s₂ : d.State} {r : Bytes}
      → AllDiffer c signer d drawn
      → length drawn ≤ two63
      → d.get db_key_next_index fresh ≡ ok none
      → gen_census c signer d (gen_user_keys c signer drawn) fresh ≡ ok s₁
      → close c d s₁ ≡ ok s₂
      → root c d s₂ ≡ ok r
      → All (CanProve r s₂) drawn
  unfolding gen_census
  all_CanProve laws tree little drawn fresh {s₁} {s₂} {r} differ fits missing made closed rooted =
      let keys = gen_user_keys c signer drawn in
      let (s₀, started, added) = bind_eq_ok (new c d fresh) _ made in
      let empty = new-empty c d laws fresh missing started in
      All-map (Enrolled c signer d 0 drawn) (CanProve r s₂)
        (λ sk enrolled.
          let (siblings, proof, checks) =
            get_proof-Member c d laws tree little keys.public_keys keys.weights (public sk) 1 0
              enrolled.0 s₀ empty enrolled.2 enrolled.1 (omega arith) added closed rooted in
          (enrolled.0, siblings, proof, checks))
        drawn (all_Enrolled c signer d 0 drawn differ (omega arith))

  -- When GenCensus has made a census of at most 2 ^ 63 drawn keys with different public keys in a
  -- new directory, and the census is closed and has a root, then GenVotes with a ratio below 100
  -- makes one vote for each key, if the hashes of the two vote texts can be computed, and every one
  -- of the votes passes the signature check and the Merkle proof check for its process and that
  -- root.
  pub gen_votes-verify :
      IsCensusDb c d
      → IsCensusTree c d
      → IsLittleEndian c
      → IsSigner c signer
      → (share : ℕ → ℕ → ℕ) (drawn : List PrivateKey) (chain_id process_id ratio : ℕ)
        (fresh : d.State) {s₁ s₂ : d.State} {r : Bytes} {yea nay : ℕ}
      → AllDiffer c signer d drawn
      → length drawn ≤ two63
      → ratio < 100
      → d.get db_key_next_index fresh ≡ ok none
      → gen_census c signer d (gen_user_keys c signer drawn) fresh ≡ ok s₁
      → close c d s₁ ≡ ok s₂
      → root c d s₂ ≡ ok r
      → hash_vote c chain_id process_id (big_int_to_bytes hash_len (pos 1)) ≡ ok yea
      → hash_vote c chain_id process_id (replicate hash_len 0) ≡ ok nay
      → (votes : List (VotePackage PublicKey)) × (gen_votes c signer d share
            (gen_user_keys c signer drawn)
            chain_id
            process_id
            ratio
            s₂
          ≡ ok votes)
        × (length votes ≡ length drawn)
        × All (λ v. verify c chain_id process_id r v ≡ ok tt) votes
  unfolding gen_votes
  gen_votes-verify laws tree little signs share drawn chain_id process_id ratio fresh {s₁} {s₂} {r}
        differ fits low missing made closed rooted yea nay =
      let can = all_CanProve laws tree little drawn fresh differ fits missing made closed rooted in
      let all_drawn : (gen_user_keys c signer drawn).private_keys ≡ drawn =
        private_keys-gen_user_keys c signer d drawn in
      let in_favour = share (length drawn) ratio in
      let (votes, looped, count, verified) =
        gen_votes_from-verify chain_id process_id in_favour 0 drawn r s₂ signs (_, yea) (_, nay)
          can in
      (votes, rw (lt→ltb ratio 100 low, all_drawn) looped, count, verified)
