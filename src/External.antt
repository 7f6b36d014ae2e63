-- ===== src/External.antt =====
-- What the node takes from go-iden3-crypto (babyjub, poseidon) and from arbo: the types of keys
-- and signatures, hashing, Merkle proofs, and arbo's byte order. None of it is under the
-- repository, so it is a parameter; what the theorems need of it are the laws below.
use ovote_node.Base.{ℕ, ◌^◌, ◌<◌, ◌≡◌, Bool, List, Bytes, ℤ, pos, Result, length, le_value}

pub record Crypto : Type 1 where
  -- babyjub.PublicKey, with its coordinates, `Compress` and `PublicKeyComp.Decompress`; its
  -- sql.Scanner and driver.Valuer are these two.
  pub PublicKey : Type 0
  pub key_x : PublicKey → ℕ
  pub key_y : PublicKey → ℕ
  pub compress : PublicKey → Bytes
  pub decompress : Bytes → Result PublicKey
  -- babyjub.Signature, from `SignatureComp.Decompress`.
  pub Signature : Type 0
  pub decompress_signature : Bytes → Result Signature
  pub sig_s : Signature → ℕ
  pub sig_r8x : Signature → ℕ
  pub sig_r8y : Signature → ℕ
  pub verify_poseidon : PublicKey → ℕ → Signature → Bool
  pub poseidon_hash : List ℤ → Result ℕ
  -- arbo.BigIntToBytes of a `*big.Int` that is not nil, arbo.BytesToBigInt, arbo.SwapEndianness.
  pub big_int_to_bytes : ℕ → ℤ → Bytes
  pub bytes_to_big_int : Bytes → ℕ
  pub swap_endianness : Bytes → Bytes
  pub hash_len : ℕ
  -- arbo.CheckProof, on key, value, root and packed siblings; arbo.UnpackSiblings.
  pub check_proof : Bytes → Bytes → Bytes → Bytes → Result Bool
  pub unpack_siblings : Bytes → Result (List Bytes)

-- The documented byte order of arbo: little-endian, in a given number of bytes.
pub record IsLittleEndian (c : Crypto) : Type 0 where
  pub big_int_to_bytes_length :
      (len n : ℕ) → n < 256 ^ len → length (c.big_int_to_bytes len (pos n)) ≡ len
  pub big_int_to_bytes_value :
      (len n : ℕ) → n < 256 ^ len → le_value (c.big_int_to_bytes len (pos n)) ≡ n
  pub bytes_to_big_int_value : (b : Bytes) → c.bytes_to_big_int b ≡ le_value b
