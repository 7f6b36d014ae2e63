-- ===== src/Census/RollWrites.antt =====
-- A census's database against its roll.
use ovote_node.Base.{
  ◌≡◌, refl, sym, ap, ◌∙◌, subst, inl, inr, true, false, [], ◌∷◌, List, Bytes, Option, none, some,
  ℤ, ok, ok_injective, add64, length, bytes_equal,
}
use ovote_node.External.{Crypto}
use ovote_node.Types.Encoding.{uint64_to_index, hash_pubk_bytes}
use ovote_node.Census.Store.{
  CensusDb, IsCensusDb, IsOwn, LeafProof, db_key_next_index, db_key_census_closed, db_key_err_msg,
}
use ovote_node.Census.Operations.{Batch, add_public_keys, close, is_closed, size, set_err_msg}
use ovote_node.Census.Fields.{
  own_ne_compressed, close-eq_ok, is_closed-of_set, get_next_index-same, different_own_keys,
  set_err_msg-eq_ok, message_ne_index,
}
use ovote_node.Census.Lifecycle.{kept_closed}
use ovote_node.Census.Growth.{add_public_keys-eq_ok}
use ovote_node.Census.Proofs.{IsCensusTree, add_public_keys-steps}
use ovote_node.Census.Roll.{Entry, Roll, IsWeighted, enroll}
use ovote_node.Census.RollEntries.{
  ShowsEntries, IsPlaced, add_keys-ShowsEntries, add_keys-IsPlaced, add_keys-proofs,
}

module _ (c : Crypto) (d : CensusDb) where
  open c use {PublicKey, compress}
  open d use {State, get, set, gen_proof}

  -- The leaf of an entry is in the tree.
  abbrev pub LeafOf : State → PublicKey → Option (Entry c) → Type 0
  LeafOf s k none = Unit
  LeafOf s k (some e) =
      (leaf : Bytes) × (p : LeafProof) × (hash_pubk_bytes c k (some e.1) ≡ ok leaf)
      × (gen_proof (uint64_to_index c e.0) s ≡ ok p)
      × (p.existence ≡ true)
      × (p.value ≡ leaf)

  -- The database of a census shows a roll.
  pub record Shows (s : State) (roll : Roll c) : Type 0 where
    pub size_is : size c d s ≡ ok roll.size
    pub flag : is_closed c d s ≡ ok roll.closed
    pub entries : ShowsEntries c d s roll.entry
    pub leaves : (k : PublicKey) → LeafOf s k (roll.entry k)

  LeafOf-same :
      (k : PublicKey) (s s' : State) (o : Option (Entry c))
      → ((i : Bytes) → gen_proof i s' ≡ gen_proof i s)
      → LeafOf s k o
      → LeafOf s' k o
  LeafOf-same k s s' none same h = tt
  LeafOf-same k s s' (some e) same (leaf, p, hashed, generated, exists, value) =
      (leaf, p, hashed, same (uint64_to_index c e.0) ∙ generated, exists, value)

  module _ (laws : IsCensusDb c d) (tree : IsCensusTree c d) where
    LeafOf-batch :
        (k : PublicKey) (s s' : State) (o : Option (Entry c)) (is vs : List Bytes)
        → d.add_batch is vs s ≡ ok (s', 0)
        → LeafOf s k o
        → LeafOf s' k o
    LeafOf-batch k s s' none is vs added h = tt
    LeafOf-batch k s s' (some e) is vs added (leaf, p, hashed, generated, exists, value) =
        let (p', generated', exists', same) =
          tree.proof_of_earlier (uint64_to_index c e.0) p is vs s s' added generated exists in
        (leaf, p', hashed, generated', exists', same ∙ value)

    LeafOf-placed :
        (k : PublicKey) (s s' : State) (before after : Option (Entry c)) (is vs : List Bytes)
        → d.add_batch is vs s ≡ ok (s', 0)
        → IsPlaced c d k is vs before after
        → LeafOf s k before
        → LeafOf s' k after
    LeafOf-placed k s s' before after is vs added (inl kept) h =
        subst (LeafOf s' k) (sym kept) (LeafOf-batch k s s' before is vs added h)
    LeafOf-placed k s s' before after is vs added (inr (e, leaf, at, hashed, there)) h =
        let (p, generated, exists, value) =
          tree.proof_of_added (uint64_to_index c e.0) leaf is vs s s' added there in
        subst (LeafOf s' k) (sym at) (leaf, p, hashed, generated, exists, value)

    -- A write under one of the census's own keys.
    pub own-ShowsEntries :
        (j v : Bytes) (s s' : State) (entry : PublicKey → Option (Entry c))
        → IsOwn j
        → set j v s ≡ ok s'
        → ShowsEntries c d s entry
        → ShowsEntries c d s' entry
    own-ShowsEntries j v s s' entry own written shows k =
        laws.get_of_set_ne (compress k) j v s s' written
          (λ same. own_ne_compressed c d laws j k own (sym same))
        ∙ shows k

    pub own-leaves :
        (j v : Bytes) (s s' : State) (entry : PublicKey → Option (Entry c))
        → IsOwn j
        → set j v s ≡ ok s'
        → ((k : PublicKey) → LeafOf s k (entry k))
        → (k : PublicKey) → LeafOf s' k (entry k)
    own-leaves j v s s' entry own written leaves k =
        LeafOf-same k s s' (entry k) (λ i. laws.proof_keeps j v i s s' own written) (leaves k)

    pub close-Shows :
        (s : State) {s' : State} (roll : Roll c)
        → close c d s ≡ ok s'
        → Shows s roll
        → (roll.closed ≡ false) × Shows s' (record roll { closed = true })
    unfolding size bytes_equal
    close-Shows s {s'} roll e shows =
        let (was_open, written) = close-eq_ok c d laws s e in
        let own : IsOwn db_key_census_closed = inr (inl refl) in
        (
          ok_injective (sym shows.flag ∙ was_open),
          record {
            size_is =
                get_next_index-same c d laws s s' (
                  laws.get_of_set_ne db_key_next_index db_key_census_closed (1 ∷ []) s s' written
                    (λ same. different_own_keys (sym same)))
                ∙ shows.size_is;
            flag = is_closed-of_set c d laws (1 ∷ []) s s' written;
            entries =
                own-ShowsEntries db_key_census_closed (1 ∷ []) s s' roll.entry own written
                  shows.entries;
            leaves =
                own-leaves db_key_census_closed (1 ∷ []) s s' roll.entry own written shows.leaves;
          },
        )

    pub message-Shows :
        (m : Bytes) (s : State) {s' : State} (roll : Roll c)
        → set_err_msg c d m s ≡ ok s'
        → Shows s roll
        → Shows s' roll
    unfolding size
    message-Shows m s {s'} roll e shows =
        let written = set_err_msg-eq_ok c d laws m s e in
        let own : IsOwn db_key_err_msg = inr (inr refl) in
        record {
          size_is =
              get_next_index-same c d laws s s' (
                laws.get_of_set_ne db_key_next_index db_key_err_msg m s s' written message_ne_index)
              ∙ shows.size_is;
          flag = (kept_closed c d laws m s s' written).0 ∙ shows.flag;
          entries = own-ShowsEntries db_key_err_msg m s s' roll.entry own written shows.entries;
          leaves = own-leaves db_key_err_msg m s s' roll.entry own written shows.leaves;
        }

    -- AddPublicKeys enrolls its batch.
    pub add_public_keys-Shows :
        ((k : PublicKey) → c.decompress (compress k) ≡ ok k)
        → (ks : List PublicKey) (ws : List (Option ℤ)) (s : State) {s' : State} (roll : Roll c)
        → add_public_keys c d ks ws s ≡ ok s'
        → Shows s roll
        → (roll.closed ≡ false)
          × IsWeighted ks ws
          × Shows s' (record roll {
            size = add64 roll.size (length ks);
            entry = enroll c roll.size ks ws roll.entry;
          })
    add_public_keys-Shows lossless ks ws s {s'} roll e shows =
        let (was_open, still_open, weighted, n, count, count') =
          add_public_keys-eq_ok c d laws ks ws s e in
        let (b, t, looped, added, written) =
          add_public_keys-steps c d laws ks ws roll.size s shows.size_is e in
        let same : n ≡ roll.size = ok_injective (sym count ∙ shows.size_is) in
        let open_flag : roll.closed ≡ false = ok_injective (sym shows.flag ∙ was_open) in
        let empty : Batch c d = record { state = s; indexes = []; values = [] } in
        let after = enroll c roll.size ks ws roll.entry in
        let own : IsOwn db_key_next_index = inl refl in
        (
          open_flag,
          weighted,
          record {
            size_is = count' ∙ ap (λ i. ok (add64 i (length ks))) same;
            flag = still_open ∙ ap ok (sym open_flag);
            entries = own-ShowsEntries db_key_next_index _ t s' after own written λ k.
                tree.add_batch_keeps_entry k b.indexes b.values b.state t 0 added
                ∙ add_keys-ShowsEntries c d laws lossless roll.size ks ws empty roll.entry looped
                    shows.entries k;
            leaves = own-leaves db_key_next_index _ t s' after own written λ k.
                let (is, vs, indexes, values, placed) =
                  add_keys-IsPlaced c d laws lossless roll.size ks ws empty roll.entry k looped in
                LeafOf-placed k b.state t (roll.entry k) (after k) is vs
                  (subst (λ i. d.add_batch i vs b.state ≡ ok (t, 0)) indexes
                    (subst (λ v. d.add_batch b.indexes v b.state ≡ ok (t, 0)) values added))
                  placed
                  (LeafOf-same k s b.state (roll.entry k)
                    (λ i. add_keys-proofs c d laws lossless tree roll.size ks ws empty i looped)
                    (shows.leaves k));
          },
        )
