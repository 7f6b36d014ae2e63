-- ===== src/Polls/Refinement.antt =====
-- Every step of the node is a sequence of steps of its polls.
use mathlib.Core.Quot
use ovote_node.Base.{
  ℕ, ◌≡◌, inl, inr, refl, sym, ap, [], ◌∷◌, ◌%◌, List, Result, Error, ok, err, panic, ◌==◌,
  bind_eq_ok, ok_injective, fail_if_passed, int64, two64, Bool-cases,
}
use ovote_node.External.{Crypto}
use ovote_node.Types.Process.{ProofInDb}
use ovote_node.Types.ZkInputs.{ReceiptTrees}
use ovote_node.Db.Schema.{Sqlite, migrate}
use ovote_node.Db.Proofs.{add_proof_to_proof_id, get_proof_by_process_id}
use ovote_node.Db.Meta.{init_meta, update_last_sync_block_num, get_last_sync_block_num}
use ovote_node.Db.Invariant.{IsValid}
use ovote_node.Db.Integrity.{migrate-IsValid}
use ovote_node.Eth.Events.{Geth, EventNewProcess}
use ovote_node.Eth.Sync.{
  Log, EthNode, Arrival, logged, store_new_process, process_event_log, process_logs,
  sync_events_history, sync_history, sync, live,
}
use ovote_node.Eth.SyncedState.{wrap-eq_ok, logged-cases, process_event_log-cases}
use ovote_node.VotesAggregator.Proofs.{Prover, generate_proof, get_proof, fetch_proof, is_missing}
use ovote_node.VotesAggregator.ProofRequests.{
  generate_proof-eq_ok, unless_stored-cases, request-proofs,
}
use ovote_node.VotesAggregator.SyncProcesses.{sync_processes_round}
use ovote_node.Node.Start.{prepare_meta, meta_or_init}
use ovote_node.Polls.Spec.{no_polls, PollSteps, PollSteps-trans}
use ovote_node.Polls.View.{view, unknown_read}
use ovote_node.Polls.Steps.{NodeStep, NodeSteps, begun, stepped}
use ovote_node.Polls.Writes.{
  Refines, Refines-self, Refines-trans, store_process-Refines, froze-Refines, add_vote-Refines,
  store_proof_id-Refines, add_proof-Refines, init_meta-Refines, update_block-Refines,
}

module _ (c : Crypto) (g : Geth) (t : ReceiptTrees) (chain_id : ℕ) where
  -- The synchronisation.
  store_new_process-Refines :
      (now : ℕ) (l : Log) (e : EventNewProcess g.Address) (s : Sqlite) {s' : Sqlite}
      → store_new_process c g now l e s ≡ ok s'
      → Refines c chain_id s s'
  unfolding store_new_process
  store_new_process-Refines now l e s h =
      store_process-Refines c chain_id now e.process_id e.census_root e.census_size l.block_number
        e.res_pub_start_block e.res_pub_window e.min_participation e.min_positive_votes e.typ s
        (wrap-eq_ok Error.storing_new_process _ h)

  logged_event-Refines :
      (now : ℕ) (l : Log) (s : Sqlite) {s' : Sqlite}
      → logged s (process_event_log c g now l s) ≡ ok s'
      → Refines c chain_id s s'
  logged_event-Refines now l s h = elim (logged-cases s (process_event_log c g now l s) h) [
    | inr same ↦ Refines-self c chain_id same
    | inl done ↦ elim (process_event_log-cases c g now l s done) [
      | inl (_, (e, _, stored)) ↦ store_new_process-Refines now l e s stored
      | inr (_, same) ↦ Refines-self c chain_id same
    ]
  ]

  process_logs-Refines :
      (now : ℕ) (logs : List Log) (s : Sqlite) {s' : Sqlite}
      → process_logs c g now logs s ≡ ok s'
      → Refines c chain_id s s'
  unfolding process_logs
  process_logs-Refines now [] s h = Refines-self c chain_id (sym (ok_injective h))
  process_logs-Refines now (l ∷ logs) s h =
      let (middle, first, rest) = bind_eq_ok (logged s (process_event_log c g now l s)) _ h in
      Refines-trans c chain_id (logged_event-Refines now l s first)
        (process_logs-Refines now logs middle rest)

  sync-Refines :
      (node : EthNode) (now : ℕ) (s : Sqlite) {s' : Sqlite}
      → sync c g node now s ≡ ok s'
      → Refines c chain_id s s'
  unfolding sync sync_history sync_events_history
  sync-Refines node now s h =
      let (last, _, h₁) = bind_eq_ok (get_last_sync_block_num s) _ h in
      let (curr, _, h₂) = bind_eq_ok node.header_by_number _ h₁ in
      let (middle, events, frozen) =
        bind_eq_ok (sync_events_history c g node now (int64 last) curr s) _ h₂ in
      let (logs, _, processed) = bind_eq_ok (node.filter_logs (int64 last) curr) _ events in
      Refines-trans c chain_id (process_logs-Refines now logs s processed)
        (froze-Refines c chain_id (curr % two64) middle frozen)

  live-Refines :
      (now : ℕ) (a : Arrival) (s : Sqlite) {s' : Sqlite}
      → live c g now a s ≡ ok s'
      → Refines c chain_id s s'
  unfolding live
  live-Refines now (Arrival.event_log l) s h = logged_event-Refines now l s h
  live-Refines now (Arrival.header n) s h =
      elim (logged-cases s (update_last_sync_block_num n s) h) [
        | inl done ↦ update_block-Refines c chain_id n s done
        | inr same ↦ Refines-self c chain_id same
      ]
  live-Refines now Arrival.subscription_error s h = Refines-self c chain_id (sym (ok_injective h))

  -- The start.
  meta_or_init-Refines :
      (now start : ℕ) (r : Result ℕ) (s : Sqlite) {n : ℕ} {s' : Sqlite}
      → meta_or_init now chain_id start r s ≡ ok (n, s')
      → Refines c chain_id s s'
  meta_or_init-Refines now start (ok m) s h =
      Refines-self c chain_id (ap (λ x. x.1) (sym (ok_injective h)))
  meta_or_init-Refines now start (err Error.meta_not_in_db) s h =
      let (_, rest) = fail_if_passed (start == 0) Error.start_block_is_zero _ h in
      let (middle, written, last) = bind_eq_ok (init_meta now chain_id start s) _ rest in
      Refines-trans c chain_id (init_meta-Refines c chain_id now chain_id start s written)
        (Refines-self c chain_id (ap (λ x. x.1) (sym (ok_injective last))))
  meta_or_init-Refines now start (err _) s h = absurd cc
  meta_or_init-Refines now start panic s h = absurd cc

  -- The requests.
  generate_proof-Refines :
      (prover : Prover) (now id : ℕ) (s : Sqlite) {s' : Sqlite}
      → generate_proof c t prover chain_id now id s ≡ ok s'
      → Refines c chain_id s s'
  generate_proof-Refines prover now id s h =
      let (_, _, _, _, _, last) = generate_proof-eq_ok c t prover chain_id now id s h in
      elim (unless_stored-cases c t prover chain_id now id (get_proof_by_process_id id s) s last) [
        | inl (_, _, same) ↦ Refines-self c chain_id same
        | inr asked ↦
            let (proof_id, stored) = request-proofs c t prover chain_id now id s asked in
            store_proof_id-Refines c chain_id now id proof_id s stored
      ]

  fetch_proof-Refines :
      (prover : Prover) (now id : ℕ) (p : ProofInDb) (s : Sqlite) {q : ProofInDb} {s' : Sqlite}
      → fetch_proof c t prover chain_id now id p s ≡ ok (q, s')
      → Refines c chain_id s s'
  unfolding fetch_proof
  fetch_proof-Refines prover now id p s h =
      let (replies, _, h₁) = bind_eq_ok (prover.get_proof p.proof_id) _ h in
      let (middle, stored, last) =
        bind_eq_ok (add_proof_to_proof_id now id p.proof_id replies.0 replies.1 s) _ h₁ in
      Refines-trans c chain_id
        (add_proof-Refines c chain_id now id p.proof_id replies.0 replies.1 s stored)
        (Refines-self c chain_id (ap (λ x. x.1) (sym (ok_injective last))))

  get_proof-Refines :
      (prover : Prover) (now id : ℕ) (s : Sqlite) {p : ProofInDb} {s' : Sqlite}
      → get_proof c t prover chain_id now id s ≡ ok (p, s')
      → Refines c chain_id s s'
  unfolding get_proof
  get_proof-Refines prover now id s h =
      let (q, _, h₁) = bind_eq_ok (get_proof_by_process_id id s) _ h in
      elim (Bool-cases (is_missing c t prover chain_id q)) [
        | inl missing ↦ fetch_proof-Refines prover now id q s (rw missing at h₁)
        | inr there ↦ Refines-self c chain_id (ap (λ x. x.1) (sym (ok_injective (rw there at h₁))))
      ]

  NodeStep-Refines : {s s' : Sqlite} → NodeStep c g t chain_id s s' → Refines c chain_id s s'
  unfolding prepare_meta sync_processes_round
  NodeStep-Refines {s} (NodeStep.prepared now start h) =
      meta_or_init-Refines now start (get_last_sync_block_num s) s h
  NodeStep-Refines {s} (NodeStep.history now logs h) = process_logs-Refines now logs s h
  NodeStep-Refines {s} (NodeStep.synced node now h) = sync-Refines node now s h
  NodeStep-Refines {s} (NodeStep.arrived now a h) = live-Refines now a s h
  NodeStep-Refines {s} (NodeStep.vote_posted now id v h) = add_vote-Refines c chain_id now id v s h
  NodeStep-Refines {s} (NodeStep.proof_requested prover now id h) =
      generate_proof-Refines prover now id s h
  NodeStep-Refines {s} (NodeStep.proof_read prover now id h) = get_proof-Refines prover now id s h
  NodeStep-Refines NodeStep.processes_looked_up = Refines-self c chain_id refl

  pub NodeSteps-kept :
      {s s' : Sqlite}
      → IsValid s
      → NodeSteps c g t chain_id s s'
      → IsValid s' × PollSteps c chain_id (view s) (view s')
  NodeSteps-kept valid begun = (valid, PollSteps.unchanged refl)
  NodeSteps-kept valid (stepped before step) =
      let (valid', steps) = NodeSteps-kept valid before in
      let refines = NodeStep-Refines step in
      (refines.keeps valid', PollSteps-trans c chain_id steps (refines.steps valid'))

  view-migrate : view migrate ≡ no_polls
  unfolding migrate
  view-migrate = λ i id. unknown_read id migrate (Quot.mk []) refl i

  -- Whatever the node does from a migrated database on, restarts included, its tables show polls
  -- that the specification can come to from no polls at all, by steps that each open a poll that
  -- was not there as On, put a ballot that verifies into a poll that is On, or freeze the polls
  -- that have reached a block.
  pub NodeSteps-PollSteps :
      {s : Sqlite} → NodeSteps c g t chain_id migrate s → PollSteps c chain_id no_polls (view s)
  NodeSteps-PollSteps steps =
      PollSteps-trans c chain_id (PollSteps.unchanged view-migrate)
        (NodeSteps-kept migrate-IsValid steps).1
