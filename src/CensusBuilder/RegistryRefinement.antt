-- ===== src/CensusBuilder/RegistryRefinement.antt =====
-- A builder that any calls and restarts lead to refines the registry of rolls.
use ovote_node.Base.{ℕ, [], List, ◌≡◌, subst, Option, ℤ, ok, err, panic, bind_eq_ok}
use ovote_node.External.{Crypto}
use ovote_node.Census.Store.{CensusDb, IsCensusDb}
use ovote_node.Census.Operations.{root, info, get_proof}
use ovote_node.Census.Actions.{Action, perform}
use ovote_node.Census.Proofs.{IsCensusTree}
use ovote_node.CensusBuilder.Operations.{
  Disk, Builder, Outcome, logged, new_builder, init_next_census_id, get_next_census_id, new_census,
  close_census, builder_add_public_keys, builder_set_err_msg, store_error,
  add_public_keys_and_store_error, census_root, census_info, builder_get_proof, root_error,
}
use ovote_node.CensusBuilder.Registry.{Registry, RegistrySteps, no_censuses}
use ovote_node.CensusBuilder.Registered.{ShowsAll, Reached}
use ovote_node.CensusBuilder.RegisteredCalls.{
  IsDisk, Reached-then, stays, ask-Reached, write-Reached,
}
use ovote_node.CensusBuilder.RegisteredCreation.{new_census-Reached}

-- A call of a method of CensusBuilder.
pub data Call (c : Crypto) : Type 0 where
  making : Call c
  closing : ℕ → Call c
  adding : ℕ → List c.PublicKey → List (Option ℤ) → Call c
  adding_and_storing : ℕ → List c.PublicKey → List (Option ℤ) → Call c
  asking_root : ℕ → Call c
  asking_info : ℕ → Call c
  asking_proof : ℕ → c.PublicKey → Call c

module _ (c : Crypto) (d : CensusDb) (disk : Disk d) where
  open d use {State}

  -- The builder that a call leaves, whether it succeeds or not.
  unfoldable pub after_call : Call c → Builder d → Builder d
  unfolding new_census close_census builder_add_public_keys add_public_keys_and_store_error
      census_root census_info builder_get_proof
  after_call Call.making b = (new_census c d disk b).0
  after_call (Call.closing id) b = (close_census c d disk id b).0
  after_call (Call.adding id ks ws) b = (builder_add_public_keys c d disk id ks ws b).0
  after_call (Call.adding_and_storing id ks ws) b =
      (add_public_keys_and_store_error c d disk id ks ws b).0
  after_call (Call.asking_root id) b = (census_root c d disk id b).0
  after_call (Call.asking_info id) b = (census_info c d disk id b).0
  after_call (Call.asking_proof id k) b = (builder_get_proof c d disk id k b).0

  -- The builders that calls and restarts lead to, from a directory without censuses.
  pub data BuilderReach : Builder d → Type 0 where
    started : (own : State) {b : Builder d} → new_builder c d disk [] own ≡ ok b → BuilderReach b
    called : (call : Call c) {b : Builder d} → BuilderReach b → BuilderReach (after_call call b)
    restarted :
        {b b' : Builder d}
        → BuilderReach b
        → new_builder c d disk b.sub_dbs b.own_db ≡ ok b'
        → BuilderReach b'

  new_builder-ShowsAll :
      (dbs : List (ℕ × State)) (own : State) {b : Builder d} (registry : Registry c)
      → new_builder c d disk dbs own ≡ ok b
      → ((s : State) → ShowsAll c d (record { sub_dbs = dbs; own_db = s; censuses = [] }) registry)
      → ShowsAll c d b registry
  unfolding new_builder
  new_builder-ShowsAll dbs own {b} registry e all =
      let (s₁, counted, e₁) =
        bind_eq_ok (init_next_census_id c d disk (get_next_census_id c d disk own) own) _ e in
      let (s₂, committed, e₂) = bind_eq_ok (d.commit s₁) _ e₁ in
      let shape : record { sub_dbs = dbs; own_db = s₂; censuses = [] } ≡ b = cc in
      subst (λ x. ShowsAll c d x registry) shape (all s₂)

module _ (c : Crypto) (d : CensusDb) (disk : Disk d) (laws : IsCensusDb c d)
    (tree : IsCensusTree c d) (on_disk : IsDisk c d disk)
    (lossless : (k : c.PublicKey) → c.decompress (c.compress k) ≡ ok k) where
  open d use {State}

  logged-Reached :
      (o : Outcome d (Unit {0})) {registry : Registry c}
      → Reached c d registry o.0
      → Reached c d registry (logged d o).0
  logged-Reached (b, ok u) h = h
  logged-Reached (b, err e) h = h
  logged-Reached (b, panic) h = h

  store_error-Reached :
      (id : ℕ) (o : Outcome d (Unit {0})) {registry : Registry c}
      → Reached c d registry o.0
      → Reached c d registry (store_error c d disk id o).0
  unfolding store_error builder_set_err_msg perform
  store_error-Reached id (b, ok u) h = h
  store_error-Reached id (b, panic) h = h
  store_error-Reached id (b, err e) h =
      logged-Reached (builder_set_err_msg c d disk id (disk.error_text e) b) (
        Reached-then c d h λ middle shows.
          write-Reached c d disk laws tree on_disk lossless id (Action.message (disk.error_text e))
            b middle shows)

  call-Reached :
      (call : Call c) (b : Builder d) (registry : Registry c)
      → ShowsAll c d b registry
      → Reached c d registry (after_call c d disk call b)
  unfolding after_call close_census builder_add_public_keys add_public_keys_and_store_error
      census_root census_info builder_get_proof perform
  call-Reached Call.making b registry all =
      new_census-Reached c d disk laws tree on_disk b registry all
  call-Reached (Call.closing id) b registry all =
      write-Reached c d disk laws tree on_disk lossless id Action.closing b registry all
  call-Reached (Call.adding id ks ws) b registry all =
      write-Reached c d disk laws tree on_disk lossless id (Action.add_batch_of ks ws) b registry
        all
  call-Reached (Call.adding_and_storing id ks ws) b registry all =
      store_error-Reached id (builder_add_public_keys c d disk id ks ws b) (
        write-Reached c d disk laws tree on_disk lossless id (Action.add_batch_of ks ws) b registry
          all)
  call-Reached (Call.asking_root id) b registry all =
      ask-Reached c d disk laws tree on_disk id (λ s. root_error c d disk (root c d s)) b registry
        all
  call-Reached (Call.asking_info id) b registry all =
      ask-Reached c d disk laws tree on_disk id (info c d) b registry all
  call-Reached (Call.asking_proof id k) b registry all =
      ask-Reached c d disk laws tree on_disk id (get_proof c d k) b registry all

  -- Whatever is called on a builder that was made in a directory without censuses, failing calls
  -- and restarts included, in any order, its databases show a registry that steps of the
  -- specification lead to: under each id a database shows the roll that is registered, or is one in
  -- which no census could be made.
  pub BuilderReach-RegistrySteps :
      {b : Builder d}
      → BuilderReach c d disk b
      → (registry : Registry c) × RegistrySteps c (no_censuses c) registry × ShowsAll c d b registry
  BuilderReach-RegistrySteps (started own e) = stays c d (
      new_builder-ShowsAll c d disk [] own (no_censuses c) e
        λ s. record { shown = λ j. tt; registered = λ j. tt })
  BuilderReach-RegistrySteps (called call {b} reach) =
      Reached-then c d (BuilderReach-RegistrySteps reach) (call-Reached call b)
  BuilderReach-RegistrySteps (restarted {b} {b'} reach e) =
      Reached-then c d (BuilderReach-RegistrySteps reach) λ middle shows. stays c d (
        new_builder-ShowsAll c d disk b.sub_dbs b.own_db middle e
          λ s. record { shown = shows.shown; registered = λ j. tt })
