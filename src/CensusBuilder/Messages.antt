-- ===== src/CensusBuilder/Messages.antt =====
-- What a restart does to the censuses, and where the error of a failed batch of keys goes.
use ovote_node.Base.{
  ℕ, [], List, Bytes, ◌≡◌, refl, sym, ap, ◌∙◌, false, Option, none, some, ℤ, Result, Error, ok, err,
  ◌>>=◌, bind_eq_ok, if◌then◌else◌,
}
use ovote_node.External.{Crypto}
use ovote_node.Census.Store.{CensusDb, IsCensusDb, db_key_err_msg}
use ovote_node.Census.Operations.{new, is_closed, get_err_msg, set_err_msg}
use ovote_node.Census.Fields.{set_err_msg-eq_ok}
use ovote_node.Census.Growth.{new_flag}
use ovote_node.CensusBuilder.Operations.{
  Disk, Builder, lookup, is_loaded, call, done, new_builder, init_next_census_id,
  get_next_census_id, load_at, load_census_if_not_yet, write_to, write_census, store_error,
  builder_add_public_keys, builder_set_err_msg, add_public_keys_and_store_error,
}
use ovote_node.CensusBuilder.Directory.{and_then-eq_ok, lookup-replace_self}
use ovote_node.CensusBuilder.Creation.{call-eq_ok}

module _ (c : Crypto) (d : CensusDb) (disk : Disk d) (laws : IsCensusDb c d) where
  open d use {State, get, set, commit}

  load_at-opens :
      (id : ℕ) (b : Builder d) (found : Option State) {b' : Builder d} {u : Unit {0}}
      → lookup d id b.sub_dbs ≡ found
      → load_at c d disk id found b ≡ (b', ok u)
      → (s : State) × (lookup d id b'.sub_dbs ≡ some s) × (is_closed c d s ≡ ok false)
  load_at-opens id b none at e = cc
  load_at-opens id b (some old) at e =
      let (b₁, s, called, e₁) = and_then-eq_ok d (call d (disk.open_db id old >>= new c d) b) _ e in
      let (same, loaded) = call-eq_ok d (disk.open_db id old >>= new c d) b called in
      let (opened, read, made) = bind_eq_ok (disk.open_db id old) (new c d) loaded in
      (
        s,
        ap (λ o. lookup d id o.0.sub_dbs) (sym e₁)
            ∙ lookup-replace_self d id s old b₁.sub_dbs
                (ap (λ (x : Builder d). lookup d id x.sub_dbs) (sym same) ∙ at),
        new_flag c d laws opened made,
      )

  new_builder-none_loaded :
      (dbs : List (ℕ × State)) (s : State) (id : ℕ) {b : Builder d}
      → new_builder c d disk dbs s ≡ ok b
      → is_loaded d id b ≡ false
  unfolding new_builder
  new_builder-none_loaded dbs s id {b} e =
      let (s₁, counted, e₁) =
        bind_eq_ok (init_next_census_id c d disk (get_next_census_id c d disk s) s) _ e in
      let (s₂, committed, e₂) = bind_eq_ok (commit s₁) _ e₁ in
      let shape : record { sub_dbs = dbs; own_db = s₂; censuses = [] } ≡ b = cc in
      ap (is_loaded d id) (sym shape)

  -- The first load of a census by a builder that was made from the databases on disk leaves that
  -- census open, whether it had been closed or not.
  pub restart-opens :
      (dbs : List (ℕ × State)) (own : State) (id : ℕ) {b b' : Builder d}
      → new_builder c d disk dbs own ≡ ok b
      → load_census_if_not_yet c d disk id b ≡ (b', ok tt)
      → (s : State) × (lookup d id b'.sub_dbs ≡ some s) × (is_closed c d s ≡ ok false)
  unfolding load_census_if_not_yet
  restart-opens dbs own id {b} made e =
      let absent = new_builder-none_loaded dbs own id made in
      load_at-opens id b (lookup d id b.sub_dbs) refl (
        sym (ap (λ t. if t then done d b else load_at c d disk id (lookup d id b.sub_dbs) b) absent)
        ∙ e)

  write_to-eq_ok :
      (id : ℕ) (op : State → Result State) (b : Builder d) (found : Option State) {b' : Builder d}
      {u : Unit {0}}
      → lookup d id b.sub_dbs ≡ found
      → write_to c d disk id op found b ≡ (b', ok u)
      → (s s' : State) × (op s ≡ ok s') × (lookup d id b'.sub_dbs ≡ some s')
  write_to-eq_ok id op b none at e = cc
  write_to-eq_ok id op b (some s) at e =
      let (b₁, s', called, e₁) = and_then-eq_ok d (call d (op s) b) _ e in
      let (same, written) = call-eq_ok d (op s) b called in
      (
        s,
        s',
        written,
        ap (λ o. lookup d id o.0.sub_dbs) (sym e₁)
            ∙ lookup-replace_self d id s' s b₁.sub_dbs
                (ap (λ (x : Builder d). lookup d id x.sub_dbs) (sym same) ∙ at),
      )

  stored_message :
      (id : ℕ) (m : Bytes) (b : Builder d) {b' : Builder d}
      → builder_set_err_msg c d disk id m b ≡ (b', ok tt)
      → (s : State) × (lookup d id b'.sub_dbs ≡ some s) × (get_err_msg c d s ≡ ok m)
  unfolding builder_set_err_msg write_census get_err_msg
  stored_message id m b e =
      let (b₁, u, there, e₁) = and_then-eq_ok d (load_census_if_not_yet c d disk id b) _ e in
      let (s, s', written, found) =
        write_to-eq_ok id (set_err_msg c d m) b₁ (lookup d id b₁.sub_dbs) refl e₁ in
      let set = set_err_msg-eq_ok c d laws m s written in
      (s', found, rw (laws.get_of_set db_key_err_msg m s s' set) refl)

  -- When a batch of keys fails with an error, and the census can store the error's text,
  -- AddPublicKeysAndStoreError ends well, and GetErrMsg of the census returns that text.
  pub error_is_stored :
      (id : ℕ) (ks : List c.PublicKey) (ws : List (Option ℤ)) (b : Builder d) {b₁ b₂ : Builder d}
      {e : Error}
      → builder_add_public_keys c d disk id ks ws b ≡ (b₁, err e)
      → builder_set_err_msg c d disk id (disk.error_text e) b₁ ≡ (b₂, ok tt)
      → (add_public_keys_and_store_error c d disk id ks ws b ≡ (b₂, ok tt))
        × (s : State) × (lookup d id b₂.sub_dbs ≡ some s)
        × (get_err_msg c d s ≡ ok (disk.error_text e))
  unfolding add_public_keys_and_store_error store_error
  error_is_stored id ks ws b {b₁} {e = e} failed stored =
      let (s, found, read) = stored_message id (disk.error_text e) b₁ stored in
      (rw (failed, stored) refl, s, found, read)
