-- ===== src/Census/Growth.antt =====
-- How a census grows, and what loading it does.
use ovote_node.Base.{
  ℕ, ◌∷◌, [], ◌≡◌, ap, ◌∙◌, sym, inl, inr, refl, false, List, Option, ℤ, Error, ok, bind_eq_ok,
  ok_injective, fail_if_passed, length, add64, arith, bytes_equal, not, ◌==◌, le→not_ltb,
}
use ovote_node.External.{Crypto}
use ovote_node.Census.Store.{CensusDb, IsCensusDb, db_key_next_index, db_key_census_closed}
use ovote_node.Census.Roll.{IsWeighted}
use ovote_node.Census.Operations.{
  new, init_next_index, is_closed, get_next_index, size, add_public_keys, add_keys, size_guard,
  max_n_leafs,
}
use ovote_node.Census.Fields.{
  different_own_keys, set_next_index-eq_ok, get_next_index-of_set, set_then_commit, is_closed-same,
  is_closed-of_set, get_next_index-same, add_keys-own, add_keys-weights,
}

-- The test on the maximal number of keys never fails: the sum wraps around before the test, and
-- the maximum is the greatest 64-bit number.
pub size_guard_passes : (n k : ℕ) → size_guard n k ≡ ok tt
unfolding size_guard
size_guard_passes n k = rw (le→not_ltb max_n_leafs (add64 n k) (omega arith)) refl

module _ (c : Crypto) (d : CensusDb) (laws : IsCensusDb c d) where
  open d use {State, get, set, commit, gen_proof}

  -- What AddPublicKeys does when it succeeds: the census was open and is open, every key had a
  -- weight, and the number of keys grows by that of the batch, modulo 2 ^ 64.
  pub add_public_keys-eq_ok :
      (ks : List c.PublicKey) (ws : List (Option ℤ)) (s : State) {s' : State}
      → add_public_keys c d ks ws s ≡ ok s'
      → (is_closed c d s ≡ ok false)
        × (is_closed c d s' ≡ ok false)
        × IsWeighted ks ws
        × (n : ℕ) × (size c d s ≡ ok n)
        × (size c d s' ≡ ok (add64 n (length ks)))
  unfolding add_public_keys size
  add_public_keys-eq_ok ks ws s {s'} e =
      let (b, flag, e₁) = bind_eq_ok (is_closed c d s) _ e in
      let (was_open, e₂) = fail_if_passed b Error.census_closed _ e₁ in
      let (n, count, e₃) = bind_eq_ok (get_next_index c d s) _ e₂ in
      let (u, small, e₄) = bind_eq_ok (size_guard n (length ks)) _ e₃ in
      let (batch, looped, e₅) = bind_eq_ok (add_keys c d n ks ws _) _ e₄ in
      let ((t, bad), added, e₆) =
        bind_eq_ok (d.add_batch batch.indexes batch.values batch.state) _ e₅ in
      let (none_bad, e₇) = fail_if_passed (not (bad == 0)) (Error.can_not_add bad) _ e₆ in
      let written = set_next_index-eq_ok c d laws (add64 n (length ks)) t e₇ in
      let still_open : is_closed c d s' ≡ is_closed c d s = is_closed-same c d laws s s' (
        laws.get_of_set_ne db_key_census_closed db_key_next_index _ t s' written different_own_keys
        ∙ laws.add_batch_keeps db_key_census_closed _ _ batch.state t bad (inr (inl refl)) added
        ∙ add_keys-own c d laws db_key_census_closed (inr (inl refl)) n ks ws _ looped) in
      (
        flag ∙ ap ok was_open,
        still_open ∙ flag ∙ ap ok was_open,
        add_keys-weights c d laws n ks ws _ looped,
        n,
        count,
        get_next_index-of_set c d laws (add64 n (length ks)) t s' (omega arith) written,
      )

  pub new_flag : (s : State) {s' : State} → new c d s ≡ ok s' → is_closed c d s' ≡ ok false
  unfolding new bytes_equal
  new_flag s {s'} e =
      let (t, treed, e₁) = bind_eq_ok (d.new_tree s) _ e in
      let (u, counted, e₂) = bind_eq_ok (init_next_index c d (get_next_index c d t) t) _ e₁ in
      is_closed-of_set c d laws (0 ∷ []) u s'
        (set_then_commit c d laws db_key_census_closed (0 ∷ []) u e₂)

  -- Loading a census that is in the database, a closed one too, makes it an open census with the
  -- same number of keys.
  pub new-is_open :
      (s : State) {s' : State} {n : ℕ}
      → size c d s ≡ ok n
      → new c d s ≡ ok s'
      → (is_closed c d s' ≡ ok false) × (size c d s' ≡ ok n)
  unfolding new size
  new-is_open s {s'} {n} known e =
      let (t, treed, e₁) = bind_eq_ok (d.new_tree s) _ e in
      let (u, counted, e₂) = bind_eq_ok (init_next_index c d (get_next_index c d t) t) _ e₁ in
      let written = set_then_commit c d laws db_key_census_closed (0 ∷ []) u e₂ in
      let index_kept : get db_key_next_index s' ≡ get db_key_next_index u =
        laws.get_of_set_ne db_key_next_index db_key_census_closed (0 ∷ []) u s' written
          (λ same. different_own_keys (sym same)) in
      let before : get_next_index c d t ≡ ok n =
        get_next_index-same c d laws s t
          (laws.new_tree_keeps db_key_next_index s t (inl refl) treed)
        ∙ known in
      let untouched : t ≡ u =
        ok_injective (sym (ap (λ r. init_next_index c d r t) before) ∙ counted) in
      (
        new_flag s e,
        get_next_index-same c d laws u s' index_kept
            ∙ ap (get_next_index c d) (sym untouched)
            ∙ before,
      )
