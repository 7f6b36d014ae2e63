-- ===== src/Census/Fields.antt =====
-- What the parts of a census's operations do to the values under its own keys.
use ovote_node.Base.{
  none, some, ◌∷◌, [], ◌≡◌, ◌≢◌, sym, ap, ◌∙◌, inl, inr, true, false, Bytes, ok, ◌>>=◌, Error,
  fail_if_passed, ℕ, List, Option, ℤ, add64, ◌<◌, le_bytes, two64, le_value-le_bytes, bind_eq_ok,
  arith, length, bytes_equal,
}
use ovote_node.External.{Crypto}
use ovote_node.Types.Encoding.{entry_bytes, index_and_weight_to_bytes, hash_pubk_bytes}
use ovote_node.Census.Store.{
  CensusDb, IsCensusDb, IsOwn, db_key_next_index, db_key_census_closed, db_key_err_msg,
}
use ovote_node.Census.Roll.{IsWeighted}
use ovote_node.Census.Operations.{
  is_closed, get_next_index, set_next_index, read_uint64, set_err_msg, close, root, Batch, add_keys,
}

pub own_ne_compressed :
    (c : Crypto) (d : CensusDb)
    → IsCensusDb c d
    → (j : Bytes) (k : c.PublicKey) → IsOwn j
    → j ≢ c.compress k
own_ne_compressed c d laws j k own e =
    let long : length j ≡ 32 = ap length e ∙ laws.compress_length k in
    elim own [
      | inl f ↦ (let short : length j ≡ 9 = ap length f in omega arith)
      | inr (inl f) ↦ (let short : length j ≡ 12 = ap length f in omega arith)
      | inr (inr f) ↦ (let short : length j ≡ 6 = ap length f in omega arith)
    ]

pub read_uint64-le_bytes : (n : ℕ) → n < two64 → read_uint64 (le_bytes 8 n) ≡ ok n
unfolding le_bytes
read_uint64-le_bytes n small = ap ok (le_value-le_bytes 8 n (omega arith))

pub different_own_keys : db_key_census_closed ≢ db_key_next_index
different_own_keys e = let lengths : length db_key_census_closed ≡ 9 = ap length e in omega arith

pub message_ne_closed : db_key_census_closed ≢ db_key_err_msg
message_ne_closed e = let lengths : length db_key_census_closed ≡ 6 = ap length e in omega arith

pub message_ne_index : db_key_next_index ≢ db_key_err_msg
message_ne_index e = let lengths : length db_key_next_index ≡ 6 = ap length e in omega arith

module _ (c : Crypto) (d : CensusDb) (laws : IsCensusDb c d) where
  open d use {State, get, set, commit}

  pub set_then_commit :
      (k v : Bytes) (s : State) {s' : State} → (set k v s >>= commit) ≡ ok s' → set k v s ≡ ok s'
  set_then_commit k v s {s'} e =
      let (t, written, done) = bind_eq_ok (set k v s) commit e in
      written ∙ ap ok (sym (laws.commit_keeps t s' done))

  -- The flag alone decides whether a census is closed.
  pub is_closed-same :
      (s s' : State)
      → get db_key_census_closed s' ≡ get db_key_census_closed s
      → is_closed c d s' ≡ is_closed c d s
  unfolding is_closed
  is_closed-same s s' e = rw e

  pub is_closed-of_set :
      (b : Bytes) (s s' : State)
      → set db_key_census_closed b s ≡ ok s'
      → is_closed c d s' ≡ ok (bytes_equal b (1 ∷ []))
  unfolding is_closed
  is_closed-of_set b s s' e = rw (laws.get_of_set db_key_census_closed b s s' e)

  pub get_next_index-same :
      (s s' : State)
      → get db_key_next_index s' ≡ get db_key_next_index s
      → get_next_index c d s' ≡ get_next_index c d s
  unfolding get_next_index
  get_next_index-same s s' e = rw e

  pub set_next_index-eq_ok :
      (n : ℕ) (s : State) {s' : State}
      → (set_next_index c d n s >>= commit) ≡ ok s'
      → set db_key_next_index (le_bytes 8 n) s ≡ ok s'
  unfolding set_next_index
  set_next_index-eq_ok n s e = set_then_commit db_key_next_index (le_bytes 8 n) s e

  pub get_next_index-of_set :
      (n : ℕ) (s s' : State)
      → n < two64
      → set db_key_next_index (le_bytes 8 n) s ≡ ok s'
      → get_next_index c d s' ≡ ok n
  unfolding get_next_index
  get_next_index-of_set n s s' small e =
      rw (laws.get_of_set db_key_next_index (le_bytes 8 n) s s' e) (read_uint64-le_bytes n small)

  pub close-eq_ok :
      (s : State) {s' : State}
      → close c d s ≡ ok s'
      → (is_closed c d s ≡ ok false) × (set db_key_census_closed (1 ∷ []) s ≡ ok s')
  unfolding close
  close-eq_ok s e =
      let (b, flag, rest) = bind_eq_ok (is_closed c d s) _ e in
      let (open', written) = fail_if_passed b Error.census_already_closed _ rest in
      (flag ∙ ap ok open', set_then_commit db_key_census_closed (1 ∷ []) s written)

  pub set_err_msg-eq_ok :
      (m : Bytes) (s : State) {s' : State}
      → set_err_msg c d m s ≡ ok s'
      → set db_key_err_msg m s ≡ ok s'
  unfolding set_err_msg
  set_err_msg-eq_ok m s e = set_then_commit db_key_err_msg m s e

  pub root-of_closed : (s : State) → is_closed c d s ≡ ok true → root c d s ≡ d.tree_root s
  unfolding root
  root-of_closed s e = rw e

  -- The loop over the keys writes under compressed keys only.
  pub add_keys-own :
      (j : Bytes)
      → IsOwn j
      → (n : ℕ) (ks : List c.PublicKey) (ws : List (Option ℤ)) (b : Batch c d) {b' : Batch c d}
      → add_keys c d n ks ws b ≡ ok b'
      → get j b'.state ≡ get j b.state
  unfolding add_keys index_and_weight_to_bytes
  add_keys-own j own n [] ws b {b'} e = let same : b ≡ b' = cc in ap (λ x. get j x.state) (sym same)
  add_keys-own j own n (k ∷ ks) [] b e = cc
  add_keys-own j own n (k ∷ ks) (none ∷ ws) b e = absurd cc
  add_keys-own j own n (k ∷ ks) (some w ∷ ws) b e =
      let (s, written, e₁) = bind_eq_ok (set (c.compress k) (entry_bytes c n w) b.state) _ e in
      let (leaf, hashed, e₂) = bind_eq_ok (hash_pubk_bytes c k (some w)) _ e₁ in
      add_keys-own j own (add64 n 1) ks ws _ e₂
      ∙ laws.get_of_set_ne j (c.compress k) _ b.state s written (own_ne_compressed c d laws j k own)

  -- Every key of the batch had a weight.
  pub add_keys-weights :
      (n : ℕ) (ks : List c.PublicKey) (ws : List (Option ℤ)) (b : Batch c d) {b' : Batch c d}
      → add_keys c d n ks ws b ≡ ok b'
      → IsWeighted ks ws
  unfolding add_keys index_and_weight_to_bytes
  add_keys-weights n [] ws b e = tt
  add_keys-weights n (k ∷ ks) [] b e = cc
  add_keys-weights n (k ∷ ks) (none ∷ ws) b e = absurd cc
  add_keys-weights n (k ∷ ks) (some w ∷ ws) b e =
      let (s, written, e₁) = bind_eq_ok (set (c.compress k) (entry_bytes c n w) b.state) _ e in
      let (leaf, hashed, e₂) = bind_eq_ok (hash_pubk_bytes c k (some w)) _ e₁ in
      add_keys-weights (add64 n 1) ks ws _ e₂
