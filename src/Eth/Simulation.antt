-- ===== src/Eth/Simulation.antt =====
-- The simulated chain against the real one: AdvanceBlock freezes what FrozeProcessesByCurrentBlockNum
-- would freeze.
use ovote_node.Base.{
  ℕ, ◌+◌, ◌≤◌, ◌<◌, ◌≡◌, inl, inr, [], ◌∷◌, List, map, Option, none, some, Result, ok, err, panic,
  add64, All, All-snoc, two63, ℤ, arith, refl, sym, ap, ◌∙◌, subst, int64-small, ltb, Bool-cases,
}
use ovote_node.Types.Process.{Process, process_status_frozen}
use ovote_node.Db.Schema.{Sqlite, bind_uint64}
use ovote_node.Db.Query.{update_where}
use ovote_node.Db.Processes.{
  has_id, store_process, update_process_status, read_processes_by_res_pub_start_block,
  froze_processes_by_current_block_num, is_due, froze,
}
use ovote_node.Db.Invariant.{IsValid}
use ovote_node.Db.FreezingById.{
  IsPending, among, update_where-twice, update_where-none, pending_after, frozen_rows,
}
use ovote_node.Db.Integrity.{store_process-IsValid, froze-IsValid}
use ovote_node.Db.Writes.{store_process-eq_ok, update_process_status-eq_ok}
use ovote_node.Eth.TestClient.{
  TestEthClient, Outcome, and_then, run, store_events, store_events_of, freeze_each, freeze_read,
  advance_to, advance_block,
}

abbrev pub next_block : TestEthClient → ℕ
next_block e = add64 e.current_block 1

and_then-eq_ok :
    (o : Outcome) (k : Sqlite → Outcome) {s' : Sqlite}
    → and_then o k ≡ (s', ok tt)
    → (s : Sqlite) × (o ≡ (s, ok tt)) × (k s ≡ (s', ok tt))
and_then-eq_ok (s, ok tt) k e = (s, refl, e)
and_then-eq_ok (s, err x) k e = absurd cc
and_then-eq_ok (s, panic) k e = absurd cc

run-eq_ok : (s : Sqlite) (r : Result Sqlite) {s' : Sqlite} → run s r ≡ (s', ok tt) → r ≡ ok s'
run-eq_ok s (ok t) e = ap (λ x. ok x.0) e
run-eq_ok s (err x) e = absurd cc
run-eq_ok s panic e = absurd cc

-- The events of a block are stored as processes that are On.
store_events-kept :
    (now block : ℕ) (events : List Process) (s : Sqlite) {s' : Sqlite}
    → All (λ (e : Process). block ≤ e.res_pub_start_block) events
    → IsValid s
    → All (IsPending block) s.processes
    → store_events now block events s ≡ (s', ok tt)
    → IsValid s' × All (IsPending block) s'.processes
unfolding store_events
store_events-kept now block [] s later valid pending e =
    subst (λ (x : Outcome). IsValid x.0 × All (IsPending block) x.0.processes) e (valid, pending)
store_events-kept now block (p ∷ events) s (starts, later) valid pending e =
    let stored =
      store_process now p.id p.census_root p.census_size block p.res_pub_start_block
        p.res_pub_window p.min_participation p.min_positive_votes p.typ s in
    let (t, first, rest) = and_then-eq_ok (run s stored) (store_events now block events) e in
    let written : stored ≡ ok t = run-eq_ok s stored first in
    let (_, _, _, rows) =
      store_process-eq_ok now p.id p.census_root p.census_size block p.res_pub_start_block
        p.res_pub_window p.min_participation p.min_positive_votes p.typ s written in
    store_events-kept now block events t later
      (store_process-IsValid now p.id p.census_root p.census_size block p.res_pub_start_block
        p.res_pub_window p.min_participation p.min_positive_votes p.typ s written valid)
      (subst (λ (x : Sqlite). All (IsPending block) x.processes) (sym rows)
        (All-snoc (IsPending block) (inl (refl, starts)) s.processes pending))
      rest

freeze_each-eq_ok :
    (processes : List Process) (s : Sqlite) {s' : Sqlite}
    → freeze_each processes s ≡ (s', ok tt)
    → s'
      ≡ record s { processes = update_where (among (map (λ p. p.id) processes)) froze s.processes }
unfolding freeze_each
freeze_each-eq_ok [] s e =
    ap (λ x. x.0) (sym e)
    ∙ ap (λ rs. record s { processes = rs }) (sym (update_where-none s.processes))
freeze_each-eq_ok (p ∷ processes) s e =
    let updated = update_process_status p.id process_status_frozen s in
    let ids = map (λ (q : Process). q.id) processes in
    let (t, first, rest) = and_then-eq_ok (run s updated) (freeze_each processes) e in
    let one =
      update_process_status-eq_ok p.id process_status_frozen s (run-eq_ok s updated first) in
    freeze_each-eq_ok processes t rest
    ∙ ap (λ (x : Sqlite). record x { processes = update_where (among ids) froze x.processes }) one
    ∙ ap (λ rs. record s { processes = rs })
        (update_where-twice (has_id p.id) (among ids) (λ r. refl) s.processes)

freeze_read-eq_ok :
    (block : ℕ) (s : Sqlite) {s' : Sqlite}
    → IsValid s
    → All (IsPending block) s.processes
    → freeze_read (read_processes_by_res_pub_start_block block s) s ≡ (s', ok tt)
    → (block < two63)
      × (s' ≡ record s { processes = update_where (is_due (ℤ.pos block)) froze s.processes })
unfolding read_processes_by_res_pub_start_block bind_uint64 freeze_read
freeze_read-eq_ok block s valid pending e = elim (Bool-cases (ltb block two63)) [
  | inl small ↦ (
    ground arith,
    freeze_each-eq_ok _ s (rw small at e)
        ∙ ap (λ rs. record s { processes = rs }) (frozen_rows block s.processes valid.ids pending),
  )
  | inr large ↦ (let refused = rw large at e in absurd cc)
]

store_events_of-kept :
    (now block : ℕ) (events : Option (List Process)) (s : Sqlite) {s' : Sqlite}
    → ((es : List Process)
        → events ≡ some es
        → All (λ (e : Process). block ≤ e.res_pub_start_block) es)
    → IsValid s
    → All (IsPending block) s.processes
    → store_events_of now block events s ≡ (s', ok tt)
    → IsValid s' × All (IsPending block) s'.processes
unfolding store_events_of
store_events_of-kept now block none s later valid pending e =
    subst (λ (x : Outcome). IsValid x.0 × All (IsPending block) x.0.processes) e (valid, pending)
store_events_of-kept now block (some es) s later valid pending e =
    store_events-kept now block es s (later es refl) valid pending e

-- When AdvanceBlock succeeds on tables where every process is Frozen, or On and not to be
-- published before the next block, and no event of that block creates a process that is to be
-- published earlier, then it does what the real client does: the events are stored, and
-- FrozeProcessesByCurrentBlockNum at the next block then gives the very tables that it leaves. They
-- have the same property for the block after that.
pub advance_block-freezes :
    (now : ℕ) (e : TestEthClient) {e' : TestEthClient}
    → IsValid e.db
    → All (IsPending (next_block e)) e.db.processes
    → ((es : List Process)
        → e.blocks_with_event (next_block e) ≡ some es
        → All (λ (p : Process). next_block e ≤ p.res_pub_start_block) es)
    → advance_block now e ≡ (e', ok tt)
    → (stored : Sqlite) × (store_events_of now
          (next_block e)
          (e.blocks_with_event (next_block e))
          e.db
        ≡ (stored, ok tt))
      × (froze_processes_by_current_block_num (next_block e) stored ≡ ok e'.db)
      × (e'.current_block ≡ next_block e)
      × IsValid e'.db
      × All (IsPending (next_block e + 1)) e'.db.processes
unfolding advance_block advance_to froze_processes_by_current_block_num
advance_block-freezes now e {e'} valid pending later h =
    let block = next_block e in
    let db : (advance_to now block (e.blocks_with_event block) e.db).0 ≡ e'.db =
      ap (λ x. x.0.db) h in
    let done : (advance_to now block (e.blocks_with_event block) e.db).1 ≡ ok tt =
      ap (λ x. x.1) h in
    let (stored, first, rest) =
      and_then-eq_ok (store_events_of now block (e.blocks_with_event block) e.db)
        (λ t. freeze_read (read_processes_by_res_pub_start_block block t) t) {s' = e'.db}
        (λ i. (db i, done i)) in
    let (valid', pending') =
      store_events_of-kept now block (e.blocks_with_event block) e.db later valid pending first in
    let (small, left) = freeze_read-eq_ok block stored valid' pending' rest in
    let froze_real : froze_processes_by_current_block_num block stored ≡ ok e'.db =
      rw (int64-small block small) (ap ok (sym left)) in
    (
      stored,
      first,
      froze_real,
      ap (λ x. x.0.current_block) (sym h),
      froze-IsValid block stored froze_real valid',
      subst (λ (x : Sqlite). All (IsPending (block + 1)) x.processes) (sym left)
          (pending_after block stored.processes pending'),
    )
