-- ===== src/VotesAggregator/Columns.antt =====
-- Filling the columns of the circuit's inputs, slot by slot.
use ovote_node.Base.{
  ok, ℕ, suc, ◌+◌, ◌≤◌, ◌≡◌, ap, sym, ◌∙◌, ◌++◌, [], ◌∷◌, List, map, pos, ◌+ℤ◌, ◌*ℤ◌, int64, arith,
  length, append_assoc, append-nil, length-map, length-append, All, All-snoc, pos-add_mul, subst,
  bind_eq_ok,
}
use mathlib.Core.List.{map-append}
use ovote_node.External.{Crypto}
use ovote_node.Types.VotePackage.{VotePackage}
use ovote_node.Types.ZkInputs.{assign, zeros}
use ovote_node.VotesAggregator.ZkInputs.{Fill, fill_vote, fill_votes}
use ovote_node.VotesAggregator.Slots.{
  FilledTo, assign-FilledTo, fill_vote-eq_ok, fill_vote-IsReadable, IsReadable, signature_part,
  sibling_row, receipt_key, receipt_leaf, vote_of, weight_of, tally, tally-append, HasWeight,
}

module _ (c : Crypto) where
  open c use {
    PublicKey, Signature, key_x, key_y, bytes_to_big_int, decompress_signature, sig_s, sig_r8x,
    sig_r8y, unpack_siblings,
  }

  -- The inputs after the votes in `done`, with n slots.
  pub record Filled (n n_levels : ℕ) (done : List (VotePackage PublicKey)) (f : Fill) : Type 0 where
    pub vote_column : FilledTo n 0 (map (vote_of c) done) f.z.vote
    pub weight_column : FilledTo n (pos 0) (map (λ v. pos (weight_of c v)) done) f.z.weight
    pub index_column : FilledTo n (pos 0) (map (λ v. int64 v.census_proof.index) done) f.z.index
    pub pk_x_column : FilledTo n 0 (map (λ v. key_x v.census_proof.public_key) done) f.z.pk_x
    pub pk_y_column : FilledTo n 0 (map (λ v. key_y v.census_proof.public_key) done) f.z.pk_y
    pub s_column : FilledTo n 0 (map (signature_part c sig_s) done) f.z.s
    pub r8x_column : FilledTo n 0 (map (signature_part c sig_r8x) done) f.z.r8x
    pub r8y_column : FilledTo n 0 (map (signature_part c sig_r8y) done) f.z.r8y
    pub siblings_column :
        FilledTo n (zeros (n_levels + 1)) (map (sibling_row c n_levels) done) f.z.siblings
    pub levels : f.z.n_levels ≡ n_levels
    pub keys : f.keys ≡ map (receipt_key c n_levels) done
    pub values : f.values ≡ map (receipt_leaf c) done
    pub readable : All (IsReadable c) done
    pub result : f.r ≡ pos (tally c done)
    pub binary : All (λ v. vote_of c v ≤ 1) done

  next_column :
      {B : Type 0} (n : ℕ) (z : B) (xs : List B) {xs' : List B} (g : VotePackage PublicKey → B)
      (done : List (VotePackage PublicKey)) (v : VotePackage PublicKey)
      → FilledTo n z (map g done) xs
      → assign xs (length done) (g v) ≡ ok xs'
      → FilledTo n z (map g (done ++ v ∷ [])) xs'
  next_column n z xs {xs'} g done v h e =
      subst (λ l. FilledTo n z l xs') (sym (map-append g done (v ∷ [])))
        (assign-FilledTo n z (map g done) xs (length done) (g v) (sym (length-map done g)) h e)

  next_item :
      {B : Type 0} (g : VotePackage PublicKey → B) (done : List (VotePackage PublicKey))
      (v : VotePackage PublicKey) {xs xs' : List B}
      → xs ≡ map g done
      → xs' ≡ xs ++ g v ∷ []
      → xs' ≡ map g (done ++ v ∷ [])
  next_item g done v h e = e ∙ ap (λ l. l ++ g v ∷ []) h ∙ sym (map-append g done (v ∷ []))

  fill_vote-Filled :
      (n n_levels : ℕ) (done : List (VotePackage PublicKey)) (v : VotePackage PublicKey) (f : Fill)
      {f' : Fill}
      → HasWeight c v
      → Filled n n_levels done f
      → fill_vote c n_levels (length done) v f ≡ ok f'
      → Filled n n_levels (done ++ v ∷ []) f'
  fill_vote-Filled n n_levels done v f {f'} hw h e =
      let (bit, vote, weight, index, pk_x, pk_y, s, r8x, r8y, siblings, levels, keys, values, r) =
        fill_vote-eq_ok c n_levels (length done) v f (pos (weight_of c v)) hw e in
      record {
        vote_column = next_column n 0 f.z.vote (vote_of c) done v h.vote_column vote;
        weight_column =
            next_column n (pos 0) f.z.weight (λ v. pos (weight_of c v)) done v h.weight_column
              weight;
        index_column =
            next_column n (pos 0) f.z.index (λ v. int64 v.census_proof.index) done v h.index_column
              index;
        pk_x_column =
            next_column n 0 f.z.pk_x (λ v. key_x v.census_proof.public_key) done v h.pk_x_column
              pk_x;
        pk_y_column =
            next_column n 0 f.z.pk_y (λ v. key_y v.census_proof.public_key) done v h.pk_y_column
              pk_y;
        s_column = next_column n 0 f.z.s (signature_part c sig_s) done v h.s_column s;
        r8x_column = next_column n 0 f.z.r8x (signature_part c sig_r8x) done v h.r8x_column r8x;
        r8y_column = next_column n 0 f.z.r8y (signature_part c sig_r8y) done v h.r8y_column r8y;
        siblings_column =
            next_column n (zeros (n_levels + 1)) f.z.siblings (sibling_row c n_levels) done v
              h.siblings_column
              (subst (λ l. assign f.z.siblings (length done) (sibling_row c l v) ≡ ok f'.z.siblings)
                h.levels siblings);
        levels = levels ∙ h.levels;
        keys = next_item (receipt_key c n_levels) done v h.keys keys;
        values = next_item (receipt_leaf c) done v h.values values;
        readable =
            All-snoc (IsReadable c) (fill_vote-IsReadable c n_levels (length done) v f e) done
              h.readable;
        result =
            r
            ∙ ap (λ x. x +ℤ pos (vote_of c v) *ℤ pos (weight_of c v)) h.result
            ∙ pos-add_mul (tally c done) (vote_of c v) (weight_of c v)
            ∙ ap pos (omega (arith, tally-append c done (v ∷ [])));
        binary = All-snoc (λ v. vote_of c v ≤ 1) bit done h.binary;
      }

  pub fill_votes-Filled :
      (n n_levels : ℕ) (done vs : List (VotePackage PublicKey)) (f : Fill) {f' : Fill}
      → All (HasWeight c) vs
      → Filled n n_levels done f
      → fill_votes c n_levels (length done) vs f ≡ ok f'
      → Filled n n_levels (done ++ vs) f'
  unfolding fill_votes
  fill_votes-Filled n n_levels done [] f {f'} hw h e =
      let same : f ≡ f' = cc in
      subst (λ l. Filled n n_levels l f') (sym (append-nil done))
        (subst (Filled n n_levels done) same h)
  fill_votes-Filled n n_levels done (v ∷ vs) f {f'} hw h e =
      let (g, e1, e2) = bind_eq_ok (fill_vote c n_levels (length done) v f) _ e in
      let count : suc (length done) ≡ length (done ++ v ∷ []) =
        omega (arith, length-append done (v ∷ [])) in
      subst (λ l. Filled n n_levels l f') (append_assoc done (v ∷ []) vs)
        (fill_votes-Filled n n_levels (done ++ v ∷ []) vs g hw.1
          (fill_vote-Filled n n_levels done v f hw.0 h e1)
          (subst (λ k. fill_votes c n_levels k vs g ≡ ok f') count e2))
