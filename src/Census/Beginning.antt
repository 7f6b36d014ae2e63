-- ===== src/Census/Beginning.antt =====
-- A census in a database that had none.
use ovote_node.Base.{
  ap, false, Option, some, ok_injective, ◌≡◌, refl, sym, ◌∙◌, subst, inl, inr, none, [], ◌∷◌, Error,
  ok, err, bind_eq_ok, le_bytes, arith,
}
use ovote_node.External.{Crypto}
use ovote_node.Types.Encoding.{uint64_to_index}
use ovote_node.Census.Store.{CensusDb, IsCensusDb, IsOwn, db_key_next_index, db_key_census_closed}
use ovote_node.Census.Operations.{new, size, get_next_index, set_next_index, init_next_index}
use ovote_node.Census.Fields.{
  set_then_commit, get_next_index-same, get_next_index-of_set, different_own_keys,
  own_ne_compressed,
}
use ovote_node.Census.Growth.{new_flag, new-is_open}
use ovote_node.Census.Proofs.{IsCensusTree}
use ovote_node.Census.Roll.{Entry, Roll, empty_roll}
use ovote_node.Census.RollWrites.{Shows, LeafOf, own-ShowsEntries, own-leaves}

module _ (c : Crypto) (d : CensusDb) (laws : IsCensusDb c d) where
  open d use {State, get, set}

  reads_nothing :
      (s : State)
      → get db_key_next_index s ≡ ok none
      → get_next_index c d s ≡ err Error.key_not_found
  unfolding get_next_index
  reads_nothing s h = rw h refl

  -- The three writes.
  new-steps :
      (fresh : State) {s : State}
      → get db_key_next_index fresh ≡ ok none
      → new c d fresh ≡ ok s
      → (t u : State) × (d.new_tree fresh ≡ ok t)
        × (set db_key_next_index (le_bytes 8 0) t ≡ ok u)
        × (set db_key_census_closed (0 ∷ []) u ≡ ok s)
  unfolding new set_next_index
  new-steps fresh missing e =
      let (t, treed, e₁) = bind_eq_ok (d.new_tree fresh) _ e in
      let unset : get_next_index c d t ≡ err Error.key_not_found =
        reads_nothing t
          (laws.new_tree_keeps db_key_next_index fresh t (inl refl) treed ∙ missing) in
      let (u, started, e₂) = bind_eq_ok (init_next_index c d (get_next_index c d t) t) _ e₁ in
      (
        t,
        u,
        treed,
        subst (λ r. init_next_index c d r t ≡ ok u) unset started,
        set_then_commit c d laws db_key_census_closed (0 ∷ []) u e₂,
      )

  -- It is empty.
  pub new-empty :
      (fresh : State) {s : State}
      → get db_key_next_index fresh ≡ ok none
      → new c d fresh ≡ ok s
      → size c d s ≡ ok 0
  unfolding size
  new-empty fresh {s} missing e =
      let (t, u, treed, counted, flagged) = new-steps fresh missing e in
      get_next_index-same c d laws u s (
        laws.get_of_set_ne db_key_next_index db_key_census_closed (0 ∷ []) u s flagged
          (λ same. different_own_keys (sym same)))
      ∙ get_next_index-of_set c d laws 0 t u (omega arith) counted

  -- It shows the empty roll.
  pub new-Shows :
      IsCensusTree c d
      → (fresh : State) {s : State} → get db_key_next_index fresh ≡ ok none
      → ((k : c.PublicKey) → get (c.compress k) fresh ≡ ok none)
      → new c d fresh ≡ ok s
      → Shows c d s (empty_roll c)
  new-Shows tree fresh {s} missing no_entries e =
      let (t, u, treed, counted, flagged) = new-steps fresh missing e in
      record {
        size_is = new-empty fresh missing e;
        flag = new_flag c d laws fresh e;
        entries = λ k.
            laws.get_of_set_ne (c.compress k) db_key_census_closed (0 ∷ []) u s flagged (λ same.
              own_ne_compressed c d laws db_key_census_closed k (inr (inl refl)) (sym same))
            ∙ laws.get_of_set_ne (c.compress k) db_key_next_index (le_bytes 8 0) t u counted
                (λ same. own_ne_compressed c d laws db_key_next_index k (inl refl) (sym same))
            ∙ tree.new_tree_keeps_entry k fresh t treed
            ∙ no_entries k;
        leaves = λ k. tt;
      }

  kept_index :
      IsCensusTree c d
      → (s t : State) (roll : Roll c) (u : State) → Shows c d s roll
      → d.new_tree s ≡ ok t
      → init_next_index c d (get_next_index c d t) t ≡ ok u
      → t ≡ u
  unfolding size
  kept_index tree s t roll u shows treed counted =
      let there : get_next_index c d t ≡ ok roll.size =
        get_next_index-same c d laws s t
          (laws.new_tree_keeps db_key_next_index s t (inl refl) treed)
        ∙ shows.size_is in
      ok_injective (subst (λ r. init_next_index c d r t ≡ ok u) there counted)

  LeafOf-tree :
      (k : c.PublicKey) (s t : State) (o : Option (Entry c))
      → IsCensusTree c d
      → d.new_tree s ≡ ok t
      → LeafOf c d s k o
      → LeafOf c d t k o
  LeafOf-tree k s t none tree treed h = tt
  LeafOf-tree k s t (some e) tree treed (leaf, p, hashed, generated, exists, value) = (
    leaf,
    p,
    hashed,
    tree.new_tree_keeps_proof (uint64_to_index c e.0) p s t treed generated exists,
    exists,
    value,
  )

  -- Making the census of a database that shows a roll opens the roll again.
  pub new-reopens :
      IsCensusTree c d
      → (s : State) (roll : Roll c) {s' : State} → Shows c d s roll
      → new c d s ≡ ok s'
      → Shows c d s' (record roll { closed = false })
  unfolding new
  new-reopens tree s roll {s'} shows e =
      let (t, treed, e₁) = bind_eq_ok (d.new_tree s) _ e in
      let (u, counted, e₂) = bind_eq_ok (init_next_index c d (get_next_index c d t) t) _ e₁ in
      let flagged = set_then_commit c d laws db_key_census_closed (0 ∷ []) u e₂ in
      let untouched : t ≡ u = kept_index tree s t roll u shows treed counted in
      let own : IsOwn db_key_census_closed = inr (inl refl) in
      let on_t : d.set db_key_census_closed (0 ∷ []) t ≡ ok s' =
        ap (d.set db_key_census_closed (0 ∷ [])) untouched ∙ flagged in
      let (opened, counts) = new-is_open c d laws s shows.size_is e in
      record {
        size_is = counts;
        flag = opened;
        entries =
            own-ShowsEntries c d laws tree db_key_census_closed (0 ∷ []) t s' roll.entry own on_t
              λ k. tree.new_tree_keeps_entry k s t treed ∙ shows.entries k;
        leaves =
            own-leaves c d laws tree db_key_census_closed (0 ∷ []) t s' roll.entry own on_t
              λ k. LeafOf-tree k s t (roll.entry k) tree treed (shows.leaves k);
      }
