-- ===== src/Api/Routes.antt =====
-- api/api.go: New, the routes, and the goroutines that the handlers start.
use ovote_node.Base.{
  ℕ, ◌++◌, [], List, Option, none, some, Result, Error, ok, err, panic, get_elem?, drop, take, suc,
}
use ovote_node.External.{Crypto}
use ovote_node.Types.ZkInputs.{ReceiptTrees}
use ovote_node.Db.Schema.{Sqlite}
use ovote_node.VotesAggregator.Proofs.{Prover}
use ovote_node.Census.Store.{CensusDb}
use ovote_node.CensusBuilder.Operations.{Disk, Builder, Outcome, add_public_keys_and_store_error}
use ovote_node.Api.Handlers.{
  Binding, Job, Answer, Reply, Request, Server, reply_of, no_route, handle_new_census,
  handle_add_keys, handle_close_census, handle_get_census, handle_get_merkle_proof, handle_vote,
  handle_get_process, handle_gen_proof, handle_get_proof,
}

module _ (c : Crypto) (d : CensusDb) where
  -- The reply to a request for an active part, and the server that is left.
  abbrev pub builder_reply : Server c d → Outcome d (Answer × List (Job c)) → Reply × Server c d
  builder_reply srv (b, ok (a, started)) =
      (reply_of (ok a), record srv { builder = some b; jobs = srv.jobs ++ started })
  builder_reply srv (b, err e) = (reply_of (err e), record srv { builder = some b })
  builder_reply srv (b, panic) = (reply_of panic, record srv { builder = some b })

  abbrev pub database_reply : Server c d → Result (Answer × Sqlite) → Reply × Server c d
  database_reply srv (ok (a, s)) = (reply_of (ok a), record srv { database = some s })
  database_reply srv (err e) = (reply_of (err e), srv)
  database_reply srv panic = (reply_of panic, srv)

  abbrev pub with_builder :
      (Builder d → Outcome d (Answer × List (Job c)))
      → Server c d
      → Option (Builder d)
      → Reply × Server c d
  with_builder handle srv none = (no_route, srv)
  with_builder handle srv (some b) = builder_reply srv (handle b)

  abbrev pub with_database :
      (Sqlite → Result (Answer × Sqlite)) → Server c d → Option Sqlite → Reply × Server c d
  with_database handle srv none = (no_route, srv)
  with_database handle srv (some s) = database_reply srv (handle s)

  -- api.New: without any part there is nothing to serve.
  unfoldable pub new_api : Option (Builder d) → Option Sqlite → Result (Server c d)
  new_api none none = err Error.no_active_part
  new_api (some b) database = ok (record { builder = some b; database = database; jobs = [] })
  new_api none (some s) = ok (record { builder = none; database = some s; jobs = [] })

module _ (c : Crypto) (d : CensusDb) (disk : Disk d) (t : ReceiptTrees) (prover : Prover)
    (chain_id : ℕ) (json : Binding c) where
  unfoldable pub serve : (now : ℕ) → Request → Server c d → Reply × Server c d
  serve now (Request.post_new_census body) srv =
      with_builder c d (handle_new_census c d disk json body) srv srv.builder
  serve now (Request.get_census param) srv =
      with_builder c d (handle_get_census c d disk json param) srv srv.builder
  serve now (Request.post_add_keys param body) srv =
      with_builder c d (handle_add_keys c d disk json param body) srv srv.builder
  serve now (Request.post_close_census param) srv =
      with_builder c d (handle_close_census c d disk json param) srv srv.builder
  serve now (Request.get_merkle_proof param key) srv =
      with_builder c d (handle_get_merkle_proof c d disk json param key) srv srv.builder
  serve now (Request.post_vote param body) srv =
      with_database c d (handle_vote c t prover chain_id json now param body) srv srv.database
  serve now (Request.get_process param) srv =
      with_database c d (handle_get_process c t prover chain_id json param) srv srv.database
  serve now (Request.post_gen_proof param) srv =
      with_database c d (handle_gen_proof c t prover chain_id json now param) srv srv.database
  serve now (Request.get_proof_of param) srv =
      with_database c d (handle_get_proof c t prover chain_id json now param) srv srv.database

  -- Nothing recovers a panic of a goroutine, so it ends the process.
  abbrev pub after_job : Server c d → Outcome d (Unit {0}) → Result (Server c d)
  after_job srv (b, ok u) = ok (record srv { builder = some b })
  after_job srv (b, err e) = ok (record srv { builder = some b })
  after_job srv (b, panic) = panic

  -- A goroutine that was started runs; the scheduler picks which.
  abbrev pub run_job : Job c → Server c d → Option (Builder d) → Result (Server c d)
  run_job job srv none = ok srv
  run_job job srv (some b) = after_job srv (
      add_public_keys_and_store_error c d disk job.census_id job.request.public_keys
        job.request.weights b)

  abbrev pub run_picked : ℕ → Option (Job c) → Server c d → Result (Server c d)
  run_picked i none srv = ok srv
  run_picked i (some job) srv =
      run_job job (record srv { jobs = take i srv.jobs ++ drop (suc i) srv.jobs }) srv.builder

  unfoldable pub run_goroutine : ℕ → Server c d → Result (Server c d)
  run_goroutine i srv = run_picked i (get_elem? srv.jobs i) srv
