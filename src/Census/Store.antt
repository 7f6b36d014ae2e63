-- ===== src/Census/Store.antt =====
-- The database of a census (go.vocdoni.io/dvote/db) and the arbo tree that is kept in it: both are
-- outside of the repository, so a state of the database and what can be done with it are an
-- interface. A write transaction is a state that `commit` makes the database's; one that is
-- discarded is a state that nothing returns.
use ovote_node.Base.{
  ℕ, ◌∷◌, [], ◌≡◌, ◌≢◌, ◌⊎◌, true, List, Bytes, Bool, Option, some, Result, ok, length,
}
use ovote_node.External.{Crypto}

-- What arbo's GenProof returns.
pub record LeafProof : Type 0 where
  pub value : Bytes
  pub siblings : Bytes
  pub existence : Bool

pub record CensusDb : Type 1 where
  pub State : Type 0
  -- ReadTx.Get, where `none` is ErrKeyNotFound; WriteTx.Set and WriteTx.Commit.
  pub get : Bytes → State → Result (Option Bytes)
  pub set : Bytes → Bytes → State → Result State
  pub commit : State → Result State
  -- arbo: NewTreeWithTx, AddBatchWithTx with the number of invalid leaves, Root, GenProof.
  pub new_tree : State → Result State
  pub add_batch : (indexes values : List Bytes) → State → Result (State × ℕ)
  pub tree_root : State → Result Bytes
  pub gen_proof : Bytes → State → Result LeafProof

-- "nextIndex", "censusClosed" and "errmsg"
abbrev pub db_key_next_index : Bytes
db_key_next_index = 110 ∷ 101 ∷ 120 ∷ 116 ∷ 73 ∷ 110 ∷ 100 ∷ 101 ∷ 120 ∷ []

abbrev pub db_key_census_closed : Bytes
db_key_census_closed = 99 ∷ 101 ∷ 110 ∷ 115 ∷ 117 ∷ 115 ∷ 67 ∷ 108 ∷ 111 ∷ 115 ∷ 101 ∷ 100 ∷ []

abbrev pub db_key_err_msg : Bytes
db_key_err_msg = 101 ∷ 114 ∷ 114 ∷ 109 ∷ 115 ∷ 103 ∷ []

-- The keys under which the census keeps its own values.
abbrev pub IsOwn : Bytes → Type 0
IsOwn k = (k ≡ db_key_next_index) ⊎ ((k ≡ db_key_census_closed) ⊎ (k ≡ db_key_err_msg))

-- The database returns what was last set, a commit changes nothing more, the tree and the census's
-- own keys are kept apart, and a proof that arbo generates checks against the root.
pub record IsCensusDb (c : Crypto) (d : CensusDb) : Type 0 where
  pub get_of_set : (k v : Bytes) (s s' : d.State) → d.set k v s ≡ ok s' → d.get k s' ≡ ok (some v)
  pub get_of_set_ne :
      (j k v : Bytes) (s s' : d.State) → d.set k v s ≡ ok s' → j ≢ k → d.get j s' ≡ d.get j s
  pub commit_keeps : (s s' : d.State) → d.commit s ≡ ok s' → s' ≡ s
  pub new_tree_keeps :
      (j : Bytes) (s s' : d.State) → IsOwn j → d.new_tree s ≡ ok s' → d.get j s' ≡ d.get j s
  pub add_batch_keeps :
      (j : Bytes) (ks vs : List Bytes) (s s' : d.State) (n : ℕ)
      → IsOwn j
      → d.add_batch ks vs s ≡ ok (s', n)
      → d.get j s' ≡ d.get j s
  pub root_keeps :
      (k v : Bytes) (s s' : d.State)
      → IsOwn k
      → d.set k v s ≡ ok s'
      → d.tree_root s' ≡ d.tree_root s
  pub proof_keeps :
      (k v i : Bytes) (s s' : d.State)
      → IsOwn k
      → d.set k v s ≡ ok s'
      → d.gen_proof i s' ≡ d.gen_proof i s
  pub proof_checks :
      (i r : Bytes) (p : LeafProof) (s : d.State)
      → d.gen_proof i s ≡ ok p
      → p.existence ≡ true
      → d.tree_root s ≡ ok r
      → c.check_proof i p.value r p.siblings ≡ ok true
  -- A PublicKeyComp is an array of 32 bytes.
  pub compress_length : (k : c.PublicKey) → length (c.compress k) ≡ 32
