-- ===== src/Census/RollEntries.antt =====
-- The loop of AddPublicKeys against the entries of a roll.
use ovote_node.Base.{
  ℕ, ◌≡◌, ◌≢◌, ◌⊎◌, ◌++◌, refl, sym, ap, ◌∙◌, inl, inr, true, false, [], ◌∷◌, List, Bytes, Option,
  none, some, ℤ, ok, bind_eq_ok, ok_injective, add64, append_assoc, append-nil, Bool-cases,
  bytes_equal, bytes_equal_eq, bytes_equal_refl, if◌then◌else◌,
}
use ovote_node.External.{Crypto}
use ovote_node.Types.Encoding.{
  uint64_to_index, hash_pubk_bytes, entry_bytes, index_and_weight_to_bytes,
}
use ovote_node.Census.Store.{CensusDb, IsCensusDb}
use ovote_node.Census.Operations.{Batch, add_keys}
use ovote_node.Census.Batches.{Paired}
use ovote_node.Census.Proofs.{IsCensusTree}
use ovote_node.Census.Roll.{Entry, enroll, with_entry}

module _ (c : Crypto) (d : CensusDb) where
  open c use {PublicKey, compress}
  open d use {State, get, set, gen_proof}

  -- What the database has for an entry.
  abbrev pub stored : Option (Entry c) → Option Bytes
  stored none = none
  stored (some e) = some (entry_bytes c e.0 e.1)

  abbrev pub ShowsEntries : State → (PublicKey → Option (Entry c)) → Type 0
  ShowsEntries s entry = (k : PublicKey) → get (compress k) s ≡ ok (stored (entry k))

  -- A key's place in the lists of a batch, unless the batch leaves its entry.
  abbrev pub IsPlaced :
      PublicKey → List Bytes → List Bytes → (before after : Option (Entry c)) → Type 0
  IsPlaced k is vs before after =
      (after ≡ before)
      ⊎ ((e : Entry c) × (leaf : Bytes) × (after ≡ some e)
          × (hash_pubk_bytes c k (some e.1) ≡ ok leaf)
          × Paired (uint64_to_index c e.0) leaf is vs)

  module _ (laws : IsCensusDb c d)
      (lossless : (k : PublicKey) → c.decompress (compress k) ≡ ok k) where
    same_key : (k k' : PublicKey) → bytes_equal (compress k) (compress k') ≡ true → k ≡ k'
    same_key k k' h =
        ok_injective (sym (lossless k) ∙ ap c.decompress (bytes_equal_eq _ _ h) ∙ lossless k')

    compress_differ :
        (k k' : PublicKey)
        → bytes_equal (compress k) (compress k') ≡ false
        → compress k ≢ compress k'
    compress_differ k k' differ eq =
        let equal : bytes_equal (compress k) (compress k') ≡ true =
          ap (bytes_equal (compress k)) (sym eq) ∙ bytes_equal_refl (compress k) in
        cc

    set-ShowsEntries :
        (k : PublicKey) (n : ℕ) (w : ℤ) (s s' : State) (entry : PublicKey → Option (Entry c))
        → set (compress k) (entry_bytes c n w) s ≡ ok s'
        → ShowsEntries s entry
        → ShowsEntries s' (with_entry c k (n, w) entry)
    set-ShowsEntries k n w s s' entry e shows other =
        elim (Bool-cases (bytes_equal (compress other) (compress k))) [
          | inl same ↦ rw same (
              ap (λ x. get x s') (bytes_equal_eq _ _ same)
              ∙ laws.get_of_set (compress k) (entry_bytes c n w) s s' e)
          | inr differ ↦ rw differ (
              laws.get_of_set_ne (compress other) (compress k) _ s s' e
                (λ eq. compress_differ other k differ eq)
              ∙ shows other)
        ]

    pub add_keys-ShowsEntries :
        (n : ℕ) (ks : List PublicKey) (ws : List (Option ℤ)) (b : Batch c d) {b' : Batch c d}
        (entry : PublicKey → Option (Entry c))
        → add_keys c d n ks ws b ≡ ok b'
        → ShowsEntries b.state entry
        → ShowsEntries b'.state (enroll c n ks ws entry)
    unfolding add_keys index_and_weight_to_bytes
    add_keys-ShowsEntries n [] ws b {b'} entry e shows k =
        let same : b' ≡ b = cc in ap (λ (x : Batch c d). get (compress k) x.state) same ∙ shows k
    add_keys-ShowsEntries n (k₀ ∷ ks) [] b entry e shows k = absurd cc
    add_keys-ShowsEntries n (k₀ ∷ ks) (none ∷ ws) b entry e shows k = absurd cc
    add_keys-ShowsEntries n (k₀ ∷ ks) (some w ∷ ws) b entry e shows k =
        let (s, written, e₁) = bind_eq_ok (set (compress k₀) (entry_bytes c n w) b.state) _ e in
        let (leaf, hashed, e₂) = bind_eq_ok (hash_pubk_bytes c k₀ (some w)) _ e₁ in
        add_keys-ShowsEntries (add64 n 1) ks ws _ (with_entry c k₀ (n, w) entry) e₂
          (set-ShowsEntries k₀ n w b.state s entry written shows) k

    head-IsPlaced :
        (k₀ k : PublicKey) (n : ℕ) (w : ℤ) (leaf : Bytes) (is vs : List Bytes)
        (entry : PublicKey → Option (Entry c)) (after : Option (Entry c))
        → hash_pubk_bytes c k₀ (some w) ≡ ok leaf
        → after ≡ with_entry c k₀ (n, w) entry k
        → IsPlaced k (uint64_to_index c n ∷ is) (leaf ∷ vs) (entry k) after
    head-IsPlaced k₀ k n w leaf is vs entry after hashed kept =
        elim (Bool-cases (bytes_equal (compress k) (compress k₀))) [
          | inl same ↦ inr (
            (n, w),
            leaf,
            kept ∙ ap (λ b. if b then some (n, w) else entry k) same,
            ap (λ x. hash_pubk_bytes c x (some w)) (same_key k k₀ same) ∙ hashed,
            Paired.first,
          )
          | inr differ ↦ inl (kept ∙ ap (λ b. if b then some (n, w) else entry k) differ)
        ]

    pub add_keys-IsPlaced :
        (n : ℕ) (ks : List PublicKey) (ws : List (Option ℤ)) (b : Batch c d) {b' : Batch c d}
        (entry : PublicKey → Option (Entry c)) (k : PublicKey)
        → add_keys c d n ks ws b ≡ ok b'
        → (is : List Bytes) × (vs : List Bytes) × (b'.indexes ≡ b.indexes ++ is)
          × (b'.values ≡ b.values ++ vs)
          × IsPlaced k is vs (entry k) (enroll c n ks ws entry k)
    unfolding add_keys index_and_weight_to_bytes
    add_keys-IsPlaced n [] ws b {b'} entry k e =
        let same : b' ≡ b = cc in
        (
          [],
          [],
          ap (λ (x : Batch c d). x.indexes) same ∙ sym (append-nil b.indexes),
          ap (λ (x : Batch c d). x.values) same ∙ sym (append-nil b.values),
          inl refl,
        )
    add_keys-IsPlaced n (k₀ ∷ ks) [] b entry k e = absurd cc
    add_keys-IsPlaced n (k₀ ∷ ks) (none ∷ ws) b entry k e = absurd cc
    add_keys-IsPlaced n (k₀ ∷ ks) (some w ∷ ws) b entry k e =
        let (s, written, e₁) = bind_eq_ok (set (compress k₀) (entry_bytes c n w) b.state) _ e in
        let (leaf, hashed, e₂) = bind_eq_ok (hash_pubk_bytes c k₀ (some w)) _ e₁ in
        let (is, vs, indexes, values, placed) =
          add_keys-IsPlaced (add64 n 1) ks ws _ (with_entry c k₀ (n, w) entry) k e₂ in
        (
          uint64_to_index c n ∷ is,
          leaf ∷ vs,
          indexes ∙ append_assoc b.indexes (uint64_to_index c n ∷ []) is,
          values ∙ append_assoc b.values (leaf ∷ []) vs,
          elim placed [
            | inl kept ↦ head-IsPlaced k₀ k n w leaf is vs entry _ hashed kept
            | inr (x, l, at, hash, there) ↦ inr (x, l, at, hash, Paired.next there)
          ],
        )

    -- The loop leaves the tree.
    pub add_keys-proofs :
        IsCensusTree c d
        → (n : ℕ) (ks : List PublicKey) (ws : List (Option ℤ)) (b : Batch c d) {b' : Batch c d}
          (i : Bytes)
        → add_keys c d n ks ws b ≡ ok b'
        → gen_proof i b'.state ≡ gen_proof i b.state
    unfolding add_keys index_and_weight_to_bytes
    add_keys-proofs tree n [] ws b {b'} i e =
        let same : b' ≡ b = cc in ap (λ (x : Batch c d). gen_proof i x.state) same
    add_keys-proofs tree n (k₀ ∷ ks) [] b i e = absurd cc
    add_keys-proofs tree n (k₀ ∷ ks) (none ∷ ws) b i e = absurd cc
    add_keys-proofs tree n (k₀ ∷ ks) (some w ∷ ws) b i e =
        let (s, written, e₁) = bind_eq_ok (set (compress k₀) (entry_bytes c n w) b.state) _ e in
        let (leaf, hashed, e₂) = bind_eq_ok (hash_pubk_bytes c k₀ (some w)) _ e₁ in
        add_keys-proofs tree (add64 n 1) ks ws _ i e₂
        ∙ tree.entry_keeps_proof k₀ (entry_bytes c n w) i b.state s written
