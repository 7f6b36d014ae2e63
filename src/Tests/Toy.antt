-- ===== src/Tests/Toy.antt =====
-- Concrete values for the external parts, and a small database.
use ovote_node.Base.{
  ℕ, ◌+◌, refl, true, [], ◌∷◌, Bytes, none, some, ℤ, pos, negsuc, Result, Error, ok, err, le_bytes,
  le_value, le_value-le_bytes, length-le_bytes, reverse,
}
use ovote_node.External.{Crypto, IsLittleEndian}
use ovote_node.Types.VotePackage.{VotePackage}
use ovote_node.Types.ZkInputs.{ReceiptTrees}
use ovote_node.Db.Schema.{Sqlite, ProcessRow}
use ovote_node.Db.Processes.{new_process}
use ovote_node.VotesAggregator.Proofs.{Prover}
use ovote_node.Eth.Events.{Geth}

abbrev pub toy_decompress : Bytes → Result ℕ
toy_decompress [] = err (Error.external 1)
toy_decompress (k ∷ ks) = ok k

abbrev pub toy_big_int : ℕ → ℤ → Bytes
toy_big_int len (pos n) = le_bytes len n
toy_big_int len (negsuc n) = le_bytes len (n + 1)

-- A key is a number, every hash is 7, and every signature and proof verifies.
abbrev pub toy : Crypto
toy = record {
  PublicKey = ℕ;
  key_x = λ k. k;
  key_y = λ k. k + 1;
  compress = λ k. k ∷ [];
  decompress = toy_decompress;
  Signature = Unit {0};
  decompress_signature = λ b. ok tt;
  sig_s = λ s. 4;
  sig_r8x = λ s. 5;
  sig_r8y = λ s. 6;
  verify_poseidon = λ k m s. true;
  poseidon_hash = λ xs. ok 7;
  big_int_to_bytes = toy_big_int;
  bytes_to_big_int = le_value;
  swap_endianness = reverse;
  hash_len = 2;
  check_proof = λ i l r p. ok true;
  unpack_siblings = λ p. ok (p ∷ []);
}

pub toy-IsLittleEndian : IsLittleEndian toy
toy-IsLittleEndian = record {
  big_int_to_bytes_length = λ len n h. length-le_bytes len n;
  big_int_to_bytes_value = λ len n h. le_value-le_bytes len n h;
  bytes_to_big_int_value = λ b. refl;
}

abbrev pub toy_trees : ReceiptTrees
toy_trees = record {
  Tree = Unit {0};
  new_tree = λ n. ok tt;
  add_batch = λ t ks vs. ok (tt, 0);
  commit = λ t. ok tt;
  root = λ t. ok (8 ∷ []);
  gen_proof = λ t k. ok (k, true);
}

abbrev pub toy_prover : Prover
toy_prover = record { gen_proof = λ p z. ok 5; get_proof = λ p. ok (1 ∷ [], 2 ∷ []) }

abbrev pub toy_geth : Geth
toy_geth = record { Address = Bytes; bytes_to_address = λ b. b }

-- Two processes, which start to publish at blocks 200 and 300, and a meta row at block 150.
abbrev pub first_process : ProcessRow
first_process = new_process 1000 1 (9 ∷ []) 10 100 200 50 20 60 1

abbrev pub second_process : ProcessRow
second_process = new_process 1001 2 (9 ∷ []) 10 101 300 50 20 60 1

abbrev pub db : Sqlite
db = record {
  processes = first_process ∷ second_process ∷ [];
  votepackages = [];
  proofs = [];
  meta = record { id = 1; chain_id = 5; last_sync_block_num = pos 150; last_update = 1000 } ∷ [];
  meta_seq = 1;
}

abbrev pub ballot : VotePackage ℕ
ballot = record {
  signature = 3 ∷ [];
  census_proof = record {
    index = 3;
    public_key = 11;
    weight = some (pos 2);
    merkle_proof = 1 ∷ [];
  };
  vote = 1 ∷ [];
}

-- A vote in favour from another voter, with no weight.
abbrev pub unweighted : VotePackage ℕ
unweighted = record {
  signature = 4 ∷ [];
  census_proof = record { index = 2; public_key = 12; weight = none; merkle_proof = 2 ∷ [] };
  vote = 1 ∷ [];
}
