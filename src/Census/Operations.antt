-- ===== src/Census/Operations.antt =====
-- census/census.go: the methods of Census. A method that fails leaves the database as it was.
use ovote_node.Base.{
  ℕ, ◌++◌, [], ◌∷◌, List, Bytes, Bool, not, ℤ, pos, Option, none, some, Result, Error, ok, err,
  panic, ◌>>=◌, ◌>>◌, fail_if, panic_unless, some_or, if◌then◌else◌, ltb, leb, ◌==◌, length, take,
  replicate, le_bytes, le_value, bytes_equal, add64, two64, ◌-◌,
}
use ovote_node.External.{Crypto}
use ovote_node.Types.Encoding.{
  uint64_to_index, hash_pubk_bytes, index_and_weight_to_bytes, bytes_to_index_and_weight,
}
use ovote_node.Census.Store.{CensusDb, db_key_next_index, db_key_census_closed, db_key_err_msg}

-- math.MaxUint64
abbrev pub max_n_leafs : ℕ
max_n_leafs = two64 - 1

-- census.Info
pub record Info : Type 0 where
  pub err_msg : Bytes
  pub size : ℕ
  pub closed : Bool
  pub root : Bytes

-- binary.LittleEndian.Uint64, which panics on fewer than 8 bytes.
abbrev pub read_uint64 : Bytes → Result ℕ
read_uint64 b = do panic_unless (leb 8 (length b)); ok (le_value (take 8 b))

-- The test on the number of keys, whose sum wraps around.
unfoldable pub size_guard : (next_index n_keys : ℕ) → Result (Unit {0})
size_guard next_index n_keys =
    fail_if (ltb max_n_leafs (add64 next_index n_keys))
      (Error.max_n_leafs_reached next_index n_keys)

-- What the loop over the keys hands to the tree.
pub record Batch (c : Crypto) (d : CensusDb) : Type 0 where
  pub state : d.State
  pub indexes : List Bytes
  pub values : List Bytes

module _ (c : Crypto) (d : CensusDb) where
  open c use {PublicKey, compress, hash_len}
  open d use {State, get, set, commit, new_tree, add_batch, tree_root, gen_proof}

  -- A `Get` whose missing key is an error.
  abbrev pub get_key : Bytes → State → Result Bytes
  get_key k s = do found ← get k s; some_or found Error.key_not_found

  unfoldable pub set_next_index : ℕ → State → Result State
  set_next_index n s = set db_key_next_index (le_bytes 8 n) s

  unfoldable pub get_next_index : State → Result ℕ
  get_next_index s = do b ← get_key db_key_next_index s; read_uint64 b

  -- Any error of the read sets the index to 0.
  abbrev pub init_next_index : Result ℕ → State → Result State
  init_next_index (ok n) s = ok s
  init_next_index (err e) s = set_next_index 0 s
  init_next_index panic s = panic

  unfoldable pub new : State → Result State
  unfolding get_next_index set_next_index
  new s = do
    s₁ ← new_tree s
    s₂ ← init_next_index (get_next_index s₁) s₁
    s₃ ← set db_key_census_closed (0 ∷ []) s₂
    commit s₃

  unfoldable pub size : State → Result ℕ
  unfolding get_next_index
  size s = get_next_index s

  unfoldable pub set_err_msg : Bytes → State → Result State
  set_err_msg status s = do s' ← set db_key_err_msg status s; commit s'

  -- A missing key is the empty message.
  abbrev pub message_of : Option Bytes → Bytes
  message_of none = []
  message_of (some b) = b

  unfoldable pub get_err_msg : State → Result Bytes
  get_err_msg s = do found ← get db_key_err_msg s; ok (message_of found)

  unfoldable pub is_closed : State → Result Bool
  is_closed s = do b ← get_key db_key_census_closed s; ok (bytes_equal b (1 ∷ []))

  unfoldable pub close : State → Result State
  unfolding is_closed
  close s = do
    closed ← is_closed s
    fail_if closed Error.census_already_closed
    s' ← set db_key_census_closed (1 ∷ []) s
    commit s'

  unfoldable pub root : State → Result Bytes
  unfolding is_closed
  root s = do closed ← is_closed s; fail_if (not closed) Error.census_not_closed; tree_root s

  unfoldable pub info : State → Result Info
  unfolding size get_err_msg is_closed root
  info s = do
    n ← size s
    message ← get_err_msg s
    closed ← is_closed s
    r ← if closed then root s else ok (replicate hash_len 0)
    ok (record { err_msg = message; size = n; closed = closed; root = r })

  -- The loop over the keys: `weights[i]` panics when there are fewer weights, and a nil weight
  -- panics in IndexAndWeightToBytes.
  unfoldable pub add_keys : ℕ → List PublicKey → List (Option ℤ) → Batch c d → Result (Batch c d)
  unfolding index_and_weight_to_bytes uint64_to_index hash_pubk_bytes
  add_keys index [] ws b = ok b
  add_keys index (k ∷ ks) [] b = panic
  add_keys index (k ∷ ks) (w ∷ ws) b = do
    entry ← index_and_weight_to_bytes c index w
    s ← set (compress k) entry b.state
    leaf ← hash_pubk_bytes c k w
    add_keys (add64 index 1) ks ws (record {
      state = s;
      indexes = b.indexes ++ uint64_to_index c index ∷ [];
      values = b.values ++ leaf ∷ [];
    })

  unfoldable pub add_public_keys : List PublicKey → List (Option ℤ) → State → Result State
  unfolding is_closed get_next_index size_guard add_keys set_next_index
  add_public_keys pubks weights s = do
    closed ← is_closed s
    fail_if closed Error.census_closed
    next ← get_next_index s
    size_guard next (length pubks)
    b ← add_keys next pubks weights (record { state = s; indexes = []; values = [] })
    added ← add_batch b.indexes b.values b.state
    fail_if (not (added.1 == 0)) (Error.can_not_add added.1)
    s' ← set_next_index (add64 next (length pubks)) added.0
    commit s'

  unfoldable pub get_proof : PublicKey → State → Result (ℕ × Bytes)
  unfolding is_closed bytes_to_index_and_weight uint64_to_index hash_pubk_bytes
  get_proof k s = do
    closed ← is_closed s
    fail_if (not closed) Error.census_not_closed
    entry ← get_key (compress k) s
    iw ← bytes_to_index_and_weight c entry
    p ← gen_proof (uint64_to_index c iw.0) s
    fail_if (not p.existence) (Error.pubk_not_in_census (compress k))
    leaf ← hash_pubk_bytes c k (some (pos iw.1))
    fail_if (not (bytes_equal p.value leaf)) Error.leaf_value_differs
    ok (iw.0, p.siblings)

-- CheckProof
unfoldable pub census_check_proof :
    (c : Crypto) (root proof : Bytes) → ℕ → c.PublicKey → Option ℤ → Result Bool
unfolding uint64_to_index hash_pubk_bytes
census_check_proof c r proof index k weight = do
  leaf ← hash_pubk_bytes c k weight
  c.check_proof (uint64_to_index c index) leaf r proof
