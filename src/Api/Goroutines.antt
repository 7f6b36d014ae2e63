-- ===== src/Api/Goroutines.antt =====
-- api/api.go: the goroutines that add keys, when the census is closed before they run.
use ovote_node.Base.{
  ℕ, ◌≡◌, ◌++◌, refl, ap, ◌∙◌, true, Bytes, List, Option, some, ℤ, Error, ok, err, suc, get_elem?,
  take, drop,
}
use ovote_node.External.{Crypto}
use ovote_node.Types.ZkInputs.{ReceiptTrees}
use ovote_node.VotesAggregator.Proofs.{Prover}
use ovote_node.Census.Store.{CensusDb, IsCensusDb, db_key_err_msg}
use ovote_node.Census.Operations.{is_closed, get_err_msg, add_public_keys, set_err_msg}
use ovote_node.Census.Lifecycle.{LooksAs, kept_closed}
use ovote_node.CensusBuilder.Operations.{
  Disk, Builder, lookup, is_loaded, with_db, add_public_keys_and_store_error,
  builder_add_public_keys, builder_set_err_msg,
}
use ovote_node.Census.Fields.{set_err_msg-eq_ok}
use ovote_node.CensusBuilder.Directory.{lookup-replace_self}
use ovote_node.CensusBuilder.Messages.{error_is_stored}
use ovote_node.Api.Handlers.{Binding, Server, Job}
use ovote_node.Api.Routes.{after_job, run_job, run_picked, run_goroutine}

module _ (c : Crypto) (d : CensusDb) (disk : Disk d) (trees : ReceiptTrees) (prover : Prover)
    (chain_id : ℕ) (json : Binding c) (laws : IsCensusDb c d) where
  open d use {State}

  refused :
      (id : ℕ) (ks : List c.PublicKey) (ws : List (Option ℤ)) (b : Builder d) (s : State)
      → is_loaded d id b ≡ true
      → lookup d id b.sub_dbs ≡ some s
      → is_closed c d s ≡ ok true
      → builder_add_public_keys c d disk id ks ws b ≡ (b, err Error.census_closed)
  unfolding builder_add_public_keys add_public_keys
  refused id ks ws b s loaded found closed = rw (loaded, found, closed) refl

  noted :
      (id : ℕ) (m : Bytes) (b : Builder d) (s s' : State)
      → is_loaded d id b ≡ true
      → lookup d id b.sub_dbs ≡ some s
      → set_err_msg c d m s ≡ ok s'
      → builder_set_err_msg c d disk id m b ≡ (with_db d id s' b, ok tt)
  unfolding builder_set_err_msg
  noted id m b s s' loaded found set = rw (loaded, found, set) refl

  run_closed :
      (id : ℕ) (ks : List c.PublicKey) (ws : List (Option ℤ)) (b : Builder d) (s s' : State)
      → is_loaded d id b ≡ true
      → lookup d id b.sub_dbs ≡ some s
      → is_closed c d s ≡ ok true
      → set_err_msg c d (disk.error_text Error.census_closed) s ≡ ok s'
      → add_public_keys_and_store_error c d disk id ks ws b ≡ (with_db d id s' b, ok tt)
  run_closed id ks ws b s s' loaded found closed set =
      (error_is_stored c d disk laws id ks ws b (refused id ks ws b s loaded found closed)
        (noted id (disk.error_text Error.census_closed) b s s' loaded found set)).0

  -- A goroutine that was started for a census that is loaded and is closed before it runs adds no
  -- key: when the census can store an error message, all that changes is the message, which says that the census
  -- is closed; the census stays closed, with its root and the answers to all proof requests.
  pub run_goroutine-closed :
      (i : ℕ) (srv : Server c d) (b : Builder d) (job : Job c) (s s' : State)
      → srv.builder ≡ some b
      → get_elem? srv.jobs i ≡ some job
      → is_loaded d job.census_id b ≡ true
      → lookup d job.census_id b.sub_dbs ≡ some s
      → is_closed c d s ≡ ok true
      → set_err_msg c d (disk.error_text Error.census_closed) s ≡ ok s'
      → (run_goroutine c d disk trees prover chain_id json i srv
          ≡ ok (record srv {
            builder = some (with_db d job.census_id s' b);
            jobs = take i srv.jobs ++ drop (suc i) srv.jobs;
          }))
        × (lookup d job.census_id (with_db d job.census_id s' b).sub_dbs ≡ some s')
        × (get_err_msg c d s' ≡ ok (disk.error_text Error.census_closed))
        × LooksAs c d laws s s'
  unfolding run_goroutine get_err_msg
  run_goroutine-closed i srv b job s s' on picked loaded found closed set =
      let written = set_err_msg-eq_ok c d laws (disk.error_text Error.census_closed) s set in
      let (flag, same_root, proofs) =
        kept_closed c d laws (disk.error_text Error.census_closed) s s' written in
      let ran =
        run_closed job.census_id job.request.public_keys job.request.weights b s s' loaded found
          closed set in
      let rest = take i srv.jobs ++ drop (suc i) srv.jobs in
      let picked_path = ap (λ o. run_picked c d disk trees prover chain_id json i o srv) picked in
      let left : Server c d = record srv { jobs = rest } in
      let built_path = ap (run_job c d disk trees prover chain_id json job left) on in
      let ran_path = ap (after_job c d disk trees prover chain_id json left) ran in
      (
        picked_path ∙ built_path ∙ ran_path,
        lookup-replace_self d job.census_id s' s b.sub_dbs found,
        rw (laws.get_of_set db_key_err_msg (disk.error_text Error.census_closed) s s' written) refl,
        (flag ∙ closed, same_root, proofs),
      )
