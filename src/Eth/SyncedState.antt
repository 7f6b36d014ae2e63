-- ===== src/Eth/SyncedState.antt =====
-- The database after the history has been synchronised.
use ovote_node.Base.{
  ℕ, ◌%◌, ◌<◌, ◌≡◌, ◌⊎◌, inl, inr, Result, Error, ok, err, panic, arith, All, two63, two64, int64,
  length, bind_eq_ok, ◌==◌, ◌≢◌, Bool-cases, subst,
}
use ovote_node.External.{Crypto}
use ovote_node.Types.Process.{Process}
use ovote_node.Eth.Events.{Geth, EventNewProcess, parse_event_new_process, event_new_process_len}
use ovote_node.Eth.Sync.{
  Log, EthNode, wrap, logged, store_new_process, process_event_log, sync_events_history,
  sync_history, Arrival, live,
}
use ovote_node.Db.Schema.{Sqlite}
use ovote_node.Db.Processes.{read_process_by_id, froze_processes_by_current_block_num}
use ovote_node.Db.Meta.{update_last_sync_block_num}
use ovote_node.Db.Freezing.{NotReached, froze-NotReached}
use ovote_node.Db.ProcessLookup.{store_process-keeps}
use ovote_node.Db.Writes.{update_last_sync_block_num-eq_ok}

pub wrap-eq_ok :
    {A : Type 0} (f : Error → Error) (r : Result A) {a : A} → wrap f r ≡ ok a → r ≡ ok a
wrap-eq_ok f (ok a) h = h
wrap-eq_ok f (err e) h = cc
wrap-eq_ok f panic h = cc

pub logged-cases :
    (s : Sqlite) (r : Result Sqlite) {s' : Sqlite} → logged s r ≡ ok s' → (r ≡ ok s') ⊎ (s' ≡ s)
logged-cases s (ok t) h = inl h
logged-cases s (err e) h = inr cc
logged-cases s panic h = inl h

header_read :
    (n j : ℕ) (s : Sqlite) {s' : Sqlite} {p : Process}
    → read_process_by_id j s ≡ ok p
    → update_last_sync_block_num n s ≡ ok s'
    → read_process_by_id j s' ≡ ok p
unfolding read_process_by_id
header_read n j s r h = ground (arith, update_last_sync_block_num-eq_ok n s h)

module _ (c : Crypto) (g : Geth) where
  -- After a successful synchronisation up to the newest header, whose number is below 2 ^ 63,
  -- every process that still accepts votes has its ResPubStartBlock after that header.
  pub sync_history-NotReached :
      (node : EthNode) (now start curr : ℕ) (s : Sqlite) {s' : Sqlite}
      → node.header_by_number ≡ ok curr
      → curr < two63
      → sync_history c g node now start s ≡ ok s'
      → All (NotReached curr) s'.processes
  unfolding sync_history
  sync_history-NotReached node now start curr s {s'} hc small e =
      let (n, hn, e1) = bind_eq_ok node.header_by_number _ e in
      let same : curr ≡ n = cc in
      let (mid, _, e2) = bind_eq_ok (sync_events_history c g node now (int64 start) n s) _ e1 in
      let low : n % two64 ≡ curr = omega arith in
      froze-NotReached curr mid small
        (subst (λ k. froze_processes_by_current_block_num k mid ≡ ok s') low e2)

  store_new_process-read :
      (now j : ℕ) (l : Log) (e : EventNewProcess g.Address) (s : Sqlite) {s' : Sqlite} {p : Process}
      → read_process_by_id j s ≡ ok p
      → store_new_process c g now l e s ≡ ok s'
      → read_process_by_id j s' ≡ ok p
  unfolding store_new_process
  store_new_process-read now j l e s r h =
      store_process-keeps now e.process_id e.census_root e.census_size l.block_number
        e.res_pub_start_block e.res_pub_window e.min_participation e.min_positive_votes e.typ j s r
        (wrap-eq_ok Error.storing_new_process _ h)

  -- A log that is processed without an error is that of a new process, which is stored, or it
  -- changes nothing.
  pub process_event_log-cases :
      (now : ℕ) (l : Log) (s : Sqlite) {s' : Sqlite}
      → process_event_log c g now l s ≡ ok s'
      → ((length l.payload ≡ event_new_process_len)
          × ((e : EventNewProcess g.Address) × (parse_event_new_process c g l.payload ≡ ok e)
              × (store_new_process c g now l e s ≡ ok s')))
        ⊎ ((length l.payload ≢ event_new_process_len) × (s' ≡ s))
  unfolding process_event_log
  process_event_log-cases now l s {s'} h =
      elim (Bool-cases (length l.payload == event_new_process_len)) [
        | inl new ↦
            let (e, he, h1) =
              bind_eq_ok
                (wrap (Error.parsing_event l.block_number) (parse_event_new_process c g l.payload))
                _ (rw new at h) in
            inl (ground arith, (e, wrap-eq_ok (Error.parsing_event l.block_number) _ he, h1))
        | inr other ↦ inr (ground arith, ground arith)
      ]

  process_event_log-read :
      (now j : ℕ) (l : Log) (s : Sqlite) {s' : Sqlite} {p : Process}
      → read_process_by_id j s ≡ ok p
      → process_event_log c g now l s ≡ ok s'
      → read_process_by_id j s' ≡ ok p
  process_event_log-read now j l s r h = elim (process_event_log-cases now l s h) [
    | inl (_, (e, _, stored)) ↦ store_new_process-read now j l e s r stored
    | inr (_, same) ↦ rw same r
  ]

  live-read :
      (now j : ℕ) (a : Arrival) (s : Sqlite) {s' : Sqlite} {p : Process}
      → read_process_by_id j s ≡ ok p
      → live c g now a s ≡ ok s'
      → read_process_by_id j s' ≡ ok p
  unfolding live
  live-read now j (Arrival.event_log l) s {s'} r h =
      elim (logged-cases s (process_event_log c g now l s) h) [
        | inl done ↦ process_event_log-read now j l s r done
        | inr same ↦ rw same r
      ]
  live-read now j (Arrival.header n) s {s'} r h =
      elim (logged-cases s (update_last_sync_block_num n s) h) [
        | inl done ↦ header_read n j s r done
        | inr same ↦ rw same r
      ]
  live-read now j Arrival.subscription_error s {s'} r h = let same : s ≡ s' = cc in rw (← same) r

  -- Any interleaving of the two live loops, each round at its own time.
  pub data Live (s : Sqlite) : Sqlite → Type 0 where
    started : Live s s
    arrived : {t u : Sqlite} (now : ℕ) (a : Arrival) → live c g now a t ≡ ok u → Live s t → Live s u

  -- Whatever arrives live, in any interleaving and however many blocks, a stored process reads as
  -- it did: no process is frozen by the live loops, so one that is On stays On.
  pub Live-read :
      (j : ℕ) {s s' : Sqlite} {p : Process}
      → read_process_by_id j s ≡ ok p
      → Live s s'
      → read_process_by_id j s' ≡ ok p
  Live-read j r started = r
  Live-read j r (arrived {t = t} now a step before) =
      live-read now j a t (Live-read j r before) step
