-- ===== src/Types/VotePackage.antt =====
-- types/types.go: the vote that a user sends. A byte field is never nil here, and the public key
-- is always given.
use ovote_node.Base.{ℕ, Bytes, ℤ, Option}

pub record CensusProof (PublicKey : Type 0) : Type 0 where
  pub index : ℕ
  pub public_key : PublicKey
  -- a `*big.Int`, which the sender may leave out
  pub weight : Option ℤ
  pub merkle_proof : Bytes

pub record VotePackage (PublicKey : Type 0) : Type 0 where
  pub signature : Bytes
  pub census_proof : CensusProof PublicKey
  pub vote : Bytes
