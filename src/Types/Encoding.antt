-- ===== src/Types/Encoding.antt =====
-- types/types.go and types/constants.go: the byte forms of indexes, weights and keys, and the
-- checks of a vote package.
use ovote_node.Base.{
  ℕ, ◌++◌, [], ◌∷◌, not, Bytes, ℤ, pos, int64, Result, Error, ok, panic, fail_if, ◌>>=◌, ◌>>◌, ◌==◌,
  length, take, drop, replicate, le_value, Option, none, some,
}
use ovote_node.External.{Crypto}
use ovote_node.Types.VotePackage.{VotePackage}

-- ceil(MaxLevels / 8)
abbrev pub max_levels : ℕ
max_levels = 64

abbrev pub max_key_len : ℕ
max_key_len = 8

-- `copy(b[:n], src)` into a zeroed array
abbrev pub copy_into : ℕ → Bytes → Bytes
copy_into n src = take n (src ++ replicate n 0)

module _ (c : Crypto) where
  open c use {
    PublicKey, key_x, key_y, Signature, decompress_signature, verify_poseidon, poseidon_hash,
    big_int_to_bytes, bytes_to_big_int, hash_len, check_proof,
  }

  unfoldable pub uint64_to_index : ℕ → Bytes
  uint64_to_index u = big_int_to_bytes max_key_len (int64 u)

  -- No weight counts as 1.
  abbrev pub weight_or_one : Option ℤ → ℤ
  weight_or_one none = pos 1
  weight_or_one (some w) = w

  unfoldable pub hash_pubk_bytes : PublicKey → Option ℤ → Result Bytes
  hash_pubk_bytes pubk weight = do
    hash ← poseidon_hash (pos (key_x pubk) ∷ pos (key_y pubk) ∷ weight_or_one weight ∷ [])
    ok (big_int_to_bytes hash_len (pos hash))

  unfoldable pub hash_vote : (chain_id process_id : ℕ) → Bytes → Result ℕ
  hash_vote chain_id process_id vote =
      poseidon_hash (int64 chain_id ∷ int64 process_id ∷ pos (bytes_to_big_int vote) ∷ [])

  unfoldable pub verify_signature :
      (chain_id process_id : ℕ) → VotePackage PublicKey → Result (Unit {0})
  unfolding hash_vote
  verify_signature chain_id process_id vp = do
    msg ← hash_vote chain_id process_id vp.vote
    sig ← decompress_signature vp.signature
    fail_if (not (verify_poseidon vp.census_proof.public_key msg sig))
        Error.signature_verification_failed

  unfoldable pub verify_merkle_proof : Bytes → VotePackage PublicKey → Result (Unit {0})
  unfolding hash_pubk_bytes uint64_to_index
  verify_merkle_proof root vp = do
    leaf ← hash_pubk_bytes vp.census_proof.public_key vp.census_proof.weight
    v ← check_proof (uint64_to_index vp.census_proof.index) leaf root vp.census_proof.merkle_proof
    fail_if (not v) Error.merkleproof_verification_failed

  unfoldable pub verify :
      (chain_id process_id : ℕ) → Bytes → VotePackage PublicKey → Result (Unit {0})
  unfolding verify_signature verify_merkle_proof
  verify chain_id process_id root vp = do
    verify_signature chain_id process_id vp
    verify_merkle_proof root vp

  -- [ 8 bytes of index | 32 bytes of weight ]
  unfoldable pub entry_bytes : ℕ → ℤ → Bytes
  unfolding uint64_to_index
  entry_bytes index weight =
      copy_into 8 (uint64_to_index index) ++ copy_into 32 (big_int_to_bytes 32 weight)

  -- arbo.BigIntToBytes calls a method of the weight, which panics when the weight is nil.
  unfoldable pub index_and_weight_to_bytes : ℕ → Option ℤ → Result Bytes
  unfolding entry_bytes
  index_and_weight_to_bytes index none = panic
  index_and_weight_to_bytes index (some weight) = ok (entry_bytes index weight)

  unfoldable pub bytes_to_index_and_weight : Bytes → Result (ℕ × ℕ)
  bytes_to_index_and_weight b = do
    fail_if (not (length b == 40)) Error.index_weight_length
    ok (le_value (take 8 b), bytes_to_big_int (drop 8 b))
