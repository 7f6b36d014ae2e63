-- ===== src/VotesAggregator/ZkInputs.antt =====
-- VotesAggregator.generateZKInputs.
use ovote_node.Base.{
  ℕ, suc, ◌+◌, ◌/◌, ◌++◌, [], ◌∷◌, List, Bytes, ℤ, pos, ◌+ℤ◌, ◌*ℤ◌, int64, Result, Error, ok, panic,
  fail_if, panic_unless, ◌>>=◌, ◌>>◌, ltb, leb, length, take, Option, none, some,
}
use ovote_node.External.{Crypto}
use ovote_node.Types.VotePackage.{VotePackage}
use ovote_node.Types.Encoding.{uint64_to_index, hash_pubk_bytes}
use ovote_node.Types.ZkInputs.{
  ZkInputs, ReceiptTrees, new_zk_inputs, assign, merkle_proof_to_zk_inputs_format, compute_receipts,
}
use ovote_node.Db.Schema.{Sqlite}
use ovote_node.Db.Processes.{read_process_by_id}
use ovote_node.Db.VotePackages.{read_vote_packages_by_process_id}

-- A nil weight is dereferenced.
abbrev pub deref : Option ℤ → Result ℤ
deref none = panic
deref (some w) = ok w

-- ⌈nLevels / 8⌉
abbrev pub receipt_key_len : ℕ → ℕ
receipt_key_len n_levels = (n_levels + 7) / 8

-- What the loop over the votes carries: the inputs, the result so far, and the receipts.
pub record Fill : Type 0 where
  pub z : ZkInputs
  pub r : ℤ
  pub keys : List Bytes
  pub values : List Bytes

module _ (c : Crypto) where
  open c use {
    PublicKey, key_x, key_y, decompress_signature, sig_s, sig_r8x, sig_r8y, bytes_to_big_int,
  }

  -- The body of the loop over the votes.
  unfoldable pub fill_vote : (n_levels i : ℕ) → VotePackage PublicKey → Fill → Result Fill
  fill_vote n_levels i v f = do
    let vote_bi = bytes_to_big_int v.vote
    fail_if (ltb 1 vote_bi) Error.invalid_vote_value
    w ← deref v.census_proof.weight
    vote ← assign f.z.vote i vote_bi
    index ← assign f.z.index i (int64 v.census_proof.index)
    pk_x ← assign f.z.pk_x i (key_x v.census_proof.public_key)
    pk_y ← assign f.z.pk_y i (key_y v.census_proof.public_key)
    weight ← assign f.z.weight i w
    sig ← decompress_signature v.signature
    s ← assign f.z.s i (sig_s sig)
    r8x ← assign f.z.r8x i (sig_r8x sig)
    r8y ← assign f.z.r8y i (sig_r8y sig)
    row ← merkle_proof_to_zk_inputs_format c f.z v.census_proof.merkle_proof
    siblings ← assign f.z.siblings i row
    let key = uint64_to_index c v.census_proof.index
    panic_unless (leb (receipt_key_len n_levels) (length key))
    leaf ← hash_pubk_bytes c v.census_proof.public_key v.census_proof.weight
    let z = record f.z {
      vote = vote;
      index = index;
      pk_x = pk_x;
      pk_y = pk_y;
      weight = weight;
      s = s;
      r8x = r8x;
      r8y = r8y;
      siblings = siblings;
    }
    ok (record {
      z = z;
      r = f.r +ℤ pos vote_bi *ℤ w;
      keys = f.keys ++ take (receipt_key_len n_levels) key ∷ [];
      values = f.values ++ leaf ∷ [];
    })

  unfoldable pub fill_votes : (n_levels i : ℕ) → List (VotePackage PublicKey) → Fill → Result Fill
  unfolding fill_vote
  fill_votes n_levels i [] f = ok f
  fill_votes n_levels i (v ∷ vs) f = do
    f' ← fill_vote n_levels i v f
    fill_votes n_levels (suc i) vs f'

  -- The inputs before the loop: the ids and the census root.
  unfoldable pub start_inputs : (chain_id process_id : ℕ) → Bytes → (n_max n_levels : ℕ) → ZkInputs
  unfolding new_zk_inputs
  start_inputs chain_id process_id root n_max n_levels =
      let z = new_zk_inputs n_max n_levels in
      record z {
        chain_id = int64 chain_id;
        process_id = int64 process_id;
        census_root = bytes_to_big_int root;
      }

  unfoldable pub generate_zk_inputs :
      ReceiptTrees → (chain_id process_id n_max n_levels : ℕ) → Sqlite → Result ZkInputs
  unfolding start_inputs fill_votes
  generate_zk_inputs t chain_id process_id n_max n_levels db = do
    process ← read_process_by_id process_id db
    votes ← read_vote_packages_by_process_id c process_id db
    f ← fill_votes n_levels 0 votes (record {
      z = start_inputs chain_id process_id process.census_root n_max n_levels;
      r = pos 0;
      keys = [];
      values = [];
    })
    let z = f.z
    compute_receipts c t f.keys f.values
        (record z { result = f.r; n_votes = length votes; with_receipts = 1 })
