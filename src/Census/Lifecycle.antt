-- ===== src/Census/Lifecycle.antt =====
-- How a census goes from open to closed, and what stays after that.
use ovote_node.Base.{
  ◌∷◌, [], ◌≡◌, ◌∙◌, sym, inl, inr, refl, true, false, List, Bytes, Option, ℤ, Result, Error, ok,
  err, panic, bind_same, fail_if, bytes_equal, not,
}
use ovote_node.External.{Crypto}
use ovote_node.Types.Encoding.{bytes_to_index_and_weight, uint64_to_index}
use ovote_node.Census.Store.{CensusDb, IsCensusDb, IsOwn, db_key_census_closed, db_key_err_msg}
use ovote_node.Census.Operations.{
  is_closed, set_err_msg, close, root, add_public_keys, get_proof, get_key,
}
use ovote_node.Census.Fields.{
  message_ne_closed, own_ne_compressed, is_closed-same, is_closed-of_set, close-eq_ok,
  set_err_msg-eq_ok, root-of_closed,
}
use ovote_node.Census.Actions.{Action, perform, perform_all, kept_or}

module _ (c : Crypto) (d : CensusDb) (laws : IsCensusDb c d) where
  open d use {State, get, set, commit, gen_proof}

  -- A census that Close accepts was open and is closed from then on: its root is the tree's, a
  -- second Close fails, and no keys can be added.
  pub close-lifecycle :
      (s : State) {s' : State}
      → close c d s ≡ ok s'
      → (is_closed c d s ≡ ok false)
        × (is_closed c d s' ≡ ok true)
        × (root c d s' ≡ d.tree_root s)
        × (close c d s' ≡ err Error.census_already_closed)
        × ((ks : List c.PublicKey) (ws : List (Option ℤ))
            → add_public_keys c d ks ws s' ≡ err Error.census_closed)
  unfolding close add_public_keys bytes_equal
  close-lifecycle s {s'} e =
      let (was_open, written) = close-eq_ok c d laws s e in
      let closed = is_closed-of_set c d laws (1 ∷ []) s s' written in
      (
        was_open,
        closed,
        root-of_closed c d laws s' closed
            ∙ laws.root_keeps db_key_census_closed (1 ∷ []) s s' (inr (inl refl)) written,
        rw closed refl,
        λ ks ws. rw closed refl,
      )

  -- A stored error message keeps whether the census is closed, its root and its proofs.
  pub kept_closed :
      (m : Bytes) (s s' : State)
      → set db_key_err_msg m s ≡ ok s'
      → (is_closed c d s' ≡ is_closed c d s)
        × (root c d s' ≡ root c d s)
        × ((k : c.PublicKey) → get_proof c d k s' ≡ get_proof c d k s)
  unfolding root get_proof
  kept_closed m s s' e =
      let own : IsOwn db_key_err_msg = inr (inr refl) in
      let flag =
        is_closed-same c d laws s s'
          (laws.get_of_set_ne db_key_census_closed db_key_err_msg m s s' e message_ne_closed) in
      (
        flag,
        rw (flag, laws.root_keeps db_key_err_msg m s s' own e) refl,
        λ k.
            rw
              (
                flag,
                laws.get_of_set_ne (c.compress k) db_key_err_msg m s s' e
                    (λ same. own_ne_compressed c d laws db_key_err_msg k own (sym same)),
              )
              (bind_same (is_closed c d s) λ closed.
                bind_same (fail_if (not closed) Error.census_not_closed) λ passed.
                  bind_same (get_key c d (c.compress k) s) λ entry.
                    bind_same (bytes_to_index_and_weight c entry) λ iw.
                      rw (laws.proof_keeps db_key_err_msg m (uint64_to_index c iw.0) s s' own e)
                        refl),
      )

  -- What a closed census shows, and keeps.
  abbrev pub LooksAs : State → State → Type 0
  LooksAs s s' =
      (is_closed c d s' ≡ ok true)
      × (root c d s' ≡ root c d s)
      × ((k : c.PublicKey) → get_proof c d k s' ≡ get_proof c d k s)

  message_kept :
      (m : Bytes) (s : State)
      → is_closed c d s ≡ ok true
      → (r : Result State) → set_err_msg c d m s ≡ r
      → LooksAs s (kept_or c d s r)
  message_kept m s closed (ok s') e =
      let (flag, same_root, proofs) = kept_closed m s s' (set_err_msg-eq_ok c d laws m s e) in
      (flag ∙ closed, same_root, proofs)
  message_kept m s closed (err failure) e = (closed, refl, λ k. refl)
  message_kept m s closed panic e = (closed, refl, λ k. refl)

  action_kept :
      (a : Action c) (s : State)
      → is_closed c d s ≡ ok true
      → LooksAs s (kept_or c d s (perform c d a s))
  unfolding perform add_public_keys close
  action_kept (Action.add_batch_of ks ws) s closed = rw closed (closed, refl, λ k. refl)
  action_kept Action.closing s closed = rw closed (closed, refl, λ k. refl)
  action_kept (Action.message m) s closed = message_kept m s closed (set_err_msg c d m s) refl

  -- A closed census stays closed through every sequence of calls, failing ones included: its root
  -- and the answer to every proof request stay what they were.
  pub perform_all-closed :
      (actions : List (Action c)) (s : State)
      → is_closed c d s ≡ ok true
      → LooksAs s (perform_all c d actions s)
  unfolding perform_all
  perform_all-closed [] s closed = (closed, refl, λ k. refl)
  perform_all-closed (a ∷ as') s closed =
      let (flag, same_root, proofs) = action_kept a s closed in
      let (flag', same_root', proofs') = perform_all-closed as' _ flag in
      (flag', same_root' ∙ same_root, λ k. proofs' k ∙ proofs k)
