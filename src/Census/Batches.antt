-- ===== src/Census/Batches.antt =====
-- census/census.go: the loop of AddPublicKeys, key by key.
use ovote_node.Base.{
  ℕ, ◌≡◌, ◌≢◌, ◌++◌, sym, ap, ◌∙◌, [], ◌∷◌, List, Bytes, Option, none, some, ℤ, ok, bind_eq_ok,
  add64, All, append_assoc, append-nil,
}
use ovote_node.External.{Crypto}
use ovote_node.Types.Encoding.{
  uint64_to_index, hash_pubk_bytes, entry_bytes, index_and_weight_to_bytes,
}
use ovote_node.Census.Store.{CensusDb, IsCensusDb}
use ovote_node.Census.Operations.{Batch, add_keys}

-- A value stands at an index in the two lists of a batch.
pub data Paired (i v : Bytes) : List Bytes → List Bytes → Type 0 where
  first : {is vs : List Bytes} → Paired i v (i ∷ is) (v ∷ vs)
  next : {i' v' : Bytes} {is vs : List Bytes} → Paired i v is vs → Paired i v (i' ∷ is) (v' ∷ vs)

module _ (c : Crypto) (d : CensusDb) where
  open c use {PublicKey, compress}
  open d use {State, get, set, gen_proof}

  -- A key of a batch that starts at an index, with its own index and its weight; no later key of
  -- the batch is the same.
  pub data Member (k : PublicKey) (w : ℤ) (j : ℕ)
      : ℕ → List PublicKey → List (Option ℤ) → Type 0 where
    here :
        {ks : List PublicKey} {ws : List (Option ℤ)}
        → All (λ other. compress k ≢ compress other) ks
        → Member k w j j (k ∷ ks) (some w ∷ ws)
    there :
        {n : ℕ} {k' : PublicKey} {w' : Option ℤ} {ks : List PublicKey} {ws : List (Option ℤ)}
        → Member k w j (add64 n 1) ks ws
        → Member k w j n (k' ∷ ks) (w' ∷ ws)

  -- The lists of a batch grow at their ends.
  abbrev Grows : Batch c d → Batch c d → Type 0
  Grows b b' =
      (is : List Bytes) × (vs : List Bytes) × (b'.indexes ≡ b.indexes ++ is)
      × (b'.values ≡ b.values ++ vs)

  module _ (laws : IsCensusDb c d) where
    add_keys-others :
        (k : PublicKey) (n : ℕ) (ks : List PublicKey) (ws : List (Option ℤ)) (b : Batch c d)
        {b' : Batch c d}
        → All (λ other. compress k ≢ compress other) ks
        → add_keys c d n ks ws b ≡ ok b'
        → get (compress k) b'.state ≡ get (compress k) b.state
    unfolding add_keys index_and_weight_to_bytes
    add_keys-others k n [] ws b {b'} fresh e =
        let same : b ≡ b' = cc in ap (λ x. get (compress k) x.state) (sym same)
    add_keys-others k n (k' ∷ ks) [] b fresh e = cc
    add_keys-others k n (k' ∷ ks) (none ∷ ws) b (other, fresh) e = absurd cc
    add_keys-others k n (k' ∷ ks) (some w ∷ ws) b (other, fresh) e =
        let (s, written, e₁) = bind_eq_ok (set (compress k') (entry_bytes c n w) b.state) _ e in
        let (leaf, hashed, e₂) = bind_eq_ok (hash_pubk_bytes c k' (some w)) _ e₁ in
        add_keys-others k (add64 n 1) ks ws _ fresh e₂
        ∙ laws.get_of_set_ne (compress k) (compress k') _ b.state s written other

    add_keys-Grows :
        (n : ℕ) (ks : List PublicKey) (ws : List (Option ℤ)) (b : Batch c d) {b' : Batch c d}
        → add_keys c d n ks ws b ≡ ok b'
        → Grows b b'
    unfolding add_keys index_and_weight_to_bytes
    add_keys-Grows n [] ws b {b'} e =
        let same : b' ≡ b = cc in
        (
          [],
          [],
          ap (λ (x : Batch c d). x.indexes) same ∙ sym (append-nil b.indexes),
          ap (λ (x : Batch c d). x.values) same ∙ sym (append-nil b.values),
        )
    add_keys-Grows n (k ∷ ks) [] b e = absurd cc
    add_keys-Grows n (k ∷ ks) (none ∷ ws) b e = absurd cc
    add_keys-Grows n (k ∷ ks) (some w ∷ ws) b e =
        let (s, written, e₁) = bind_eq_ok (set (compress k) (entry_bytes c n w) b.state) _ e in
        let (leaf, hashed, e₂) = bind_eq_ok (hash_pubk_bytes c k (some w)) _ e₁ in
        let (is, vs, indexes, values) = add_keys-Grows (add64 n 1) ks ws _ e₂ in
        (
          uint64_to_index c n ∷ is,
          leaf ∷ vs,
          indexes ∙ append_assoc b.indexes (uint64_to_index c n ∷ []) is,
          values ∙ append_assoc b.values (leaf ∷ []) vs,
        )

    -- The entry of a member of the batch, and its leaf.
    pub add_keys-Member :
        (k : PublicKey) (w : ℤ) (j n : ℕ) (ks : List PublicKey) (ws : List (Option ℤ))
        (b : Batch c d) {b' : Batch c d}
        → Member k w j n ks ws
        → add_keys c d n ks ws b ≡ ok b'
        → (leaf : Bytes) × (is : List Bytes) × (vs : List Bytes) × (hash_pubk_bytes c k (some w)
            ≡ ok leaf)
          × (get (compress k) b'.state ≡ ok (some (entry_bytes c j w)))
          × (b'.indexes ≡ b.indexes ++ is)
          × (b'.values ≡ b.values ++ vs)
          × Paired (uint64_to_index c j) leaf is vs
    unfolding add_keys index_and_weight_to_bytes
    add_keys-Member k w j n [] ws b m e = elim m [ ]
    add_keys-Member k w j n (k' ∷ ks) [] b m e = elim m [ ]
    add_keys-Member k w j n (k' ∷ ks) (some w' ∷ ws) b (here fresh) e =
        let (s, written, e₁) = bind_eq_ok (set (compress k) (entry_bytes c j w) b.state) _ e in
        let (leaf, hashed, e₂) = bind_eq_ok (hash_pubk_bytes c k (some w)) _ e₁ in
        let (is, vs, indexes, values) = add_keys-Grows (add64 j 1) ks ws _ e₂ in
        (
          leaf,
          uint64_to_index c j ∷ is,
          leaf ∷ vs,
          hashed,
          add_keys-others k (add64 j 1) ks ws _ fresh e₂
              ∙ laws.get_of_set (compress k) _ b.state s written,
          indexes ∙ append_assoc b.indexes (uint64_to_index c j ∷ []) is,
          values ∙ append_assoc b.values (leaf ∷ []) vs,
          Paired.first,
        )
    add_keys-Member k w j n (k' ∷ ks) (none ∷ ws) b (there m) e = absurd cc
    add_keys-Member k w j n (k' ∷ ks) (some w' ∷ ws) b (there m) e =
        let (s, written, e₁) = bind_eq_ok (set (compress k') (entry_bytes c n w') b.state) _ e in
        let (leaf', hashed', e₂) = bind_eq_ok (hash_pubk_bytes c k' (some w')) _ e₁ in
        let (leaf, is, vs, hashed, entry, indexes, values, paired) =
          add_keys-Member k w j (add64 n 1) ks ws _ m e₂ in
        (
          leaf,
          uint64_to_index c n ∷ is,
          leaf' ∷ vs,
          hashed,
          entry,
          indexes ∙ append_assoc b.indexes (uint64_to_index c n ∷ []) is,
          values ∙ append_assoc b.values (leaf' ∷ []) vs,
          Paired.next paired,
        )
