-- ===== src/Node/Serving.antt =====
-- When the node comes to serve its API.
use ovote_node.Base.{
  ℕ, ◌≡◌, ◌≢◌, [], ◌∷◌, List, Bool, true, false, Option, none, some, Result, ok, err, panic, refl,
  ap, sym,
}
use ovote_node.External.{Crypto}
use ovote_node.Db.Schema.{Sqlite}
use ovote_node.Eth.Events.{Geth}
use ovote_node.Eth.Sync.{Arrival, live, sync}
use ovote_node.Census.Store.{CensusDb}
use ovote_node.CensusBuilder.Operations.{Disk, Builder}
use ovote_node.Api.Handlers.{Server}
use ovote_node.Api.Routes.{new_api}
use ovote_node.Node.Start.{
  next_round, Config, Chain, Synced, NodeProcess, follow, sync_blocks_live, after_live,
  after_history, sync_client, after_sync, after_meta, start_builder, start_rest, start_parts,
  prepare_meta, main, Dial, new_client, start_aggregator,
}

module _ (c : Crypto) (g : Geth) where
  next_round_endless :
      (loop : Sqlite → Synced) (r : Result Sqlite) {s' : Sqlite}
      → ((s : Sqlite) → loop s ≢ Synced.completed s')
      → next_round c g loop r ≢ Synced.completed s'
  next_round_endless loop (ok s) endless = endless s
  next_round_endless loop (err e) endless = λ h. cc
  next_round_endless loop panic endless = λ h. cc

  -- A live loop on what has arrived has not ended by itself.
  follow_endless :
      {s' : Sqlite} (arrivals : List (ℕ × Arrival)) (s : Sqlite)
      → follow c g arrivals s ≢ Synced.completed s'
  unfolding follow
  follow_endless [] s = λ h. cc
  follow_endless ((now, a) ∷ rest) s =
      next_round_endless (follow c g rest) (live c g now a s) (follow_endless rest)

  after_live_endless :
      (r : Synced) {s' : Sqlite} → r ≢ Synced.completed s' → after_live c g r ≢ Synced.completed s'
  after_live_endless (Synced.returned e) h = λ k. cc
  after_live_endless (Synced.completed s) h = h
  after_live_endless Synced.crashed h = λ k. cc
  after_live_endless (Synced.following s) h = λ k. cc

  blocks_endless :
      (subscribed : Result (Unit {0})) (arrivals : List (ℕ × Arrival)) (s : Sqlite) {s' : Sqlite}
      → sync_blocks_live c g subscribed arrivals s ≢ Synced.completed s'
  blocks_endless (ok u) arrivals s = follow_endless arrivals s
  blocks_endless (err e) arrivals s = λ h. cc
  blocks_endless panic arrivals s = λ h. cc

  history_endless :
      (chain : Chain) (arrivals : List (ℕ × Arrival)) (r : Result Sqlite) {s' : Sqlite}
      → after_history c g chain arrivals r ≢ Synced.completed s'
  history_endless chain arrivals (ok s) =
      after_live_endless (sync_blocks_live c g chain.subscribe_new_head arrivals s)
        (blocks_endless chain.subscribe_new_head arrivals s)
  history_endless chain arrivals (err e) = λ h. cc
  history_endless chain arrivals panic = λ h. cc

  sync_client_endless :
      (chain : Chain) (now : ℕ) (arrivals : List (ℕ × Arrival)) (s : Sqlite) {s' : Sqlite}
      → sync_client c g chain now arrivals s ≢ Synced.completed s'
  unfolding sync_client
  sync_client_endless chain now arrivals s =
      history_endless chain arrivals (sync c g chain.node now s)

  module _ (d : CensusDb) (disk : Disk d) where
    open d use {State}

    after_sync_not_serving :
        (b : Option (Builder d)) (r : Synced) {srv : Server c d}
        → ((s : Sqlite) → r ≢ Synced.completed s)
        → after_sync c g d disk b r ≢ NodeProcess.serving srv
    after_sync_not_serving b (Synced.returned e) h = λ k. cc
    after_sync_not_serving b (Synced.completed s) h = λ k. absurd (h s refl)
    after_sync_not_serving b Synced.crashed h = λ k. cc
    after_sync_not_serving b (Synced.following s) h = λ k. cc

    after_meta_not_serving :
        (b : Option (Builder d)) (chain : Chain) (now : ℕ) (arrivals : List (ℕ × Arrival))
        (r : Result (ℕ × Sqlite)) {srv : Server c d}
        → after_meta c g d disk b chain now arrivals r ≢ NodeProcess.serving srv
    after_meta_not_serving b chain now arrivals (ok (n, s)) =
        after_sync_not_serving b (sync_client c g chain now arrivals s)
          (λ s'. sync_client_endless chain now arrivals s)
    after_meta_not_serving b chain now arrivals (err e) = λ k. cc
    after_meta_not_serving b chain now arrivals panic = λ k. cc

    -- What a node that serves has been started as.
    abbrev pub CensusesOnly : Config → Server c d → Type 0
    CensusesOnly config srv =
        (config.votes_aggregator ≡ false)
        × (srv.database ≡ none)
        × (b : Builder d) × (srv.builder ≡ some b)

    serving_injective :
        {srv srv' : Server c d} → NodeProcess.serving srv ≡ NodeProcess.serving srv' → srv ≡ srv'
    serving_injective h = cc

    aggregator_not_serving :
        (b : Option (Builder d)) (now start : ℕ) (arrivals : List (ℕ × Arrival)) (s : Sqlite)
        (client : Result (Chain × ℕ)) {srv : Server c d}
        → start_aggregator c g d disk b now start arrivals s client ≢ NodeProcess.serving srv
    aggregator_not_serving b now start arrivals s (ok (chain, chain_id)) =
        after_meta_not_serving b chain now arrivals (prepare_meta now chain_id start s)
    aggregator_not_serving b now start arrivals s (err e) = λ k. cc
    aggregator_not_serving b now start arrivals s panic = λ k. cc

    rest_serving :
        (config : Config) (on : Bool) (b : Option (Builder d)) (url : Dial) (now start : ℕ)
        (arrivals : List (ℕ × Arrival)) (s : Sqlite) {srv : Server c d}
        → config.votes_aggregator ≡ on
        → start_rest c g d disk on b url now start arrivals s ≡ NodeProcess.serving srv
        → CensusesOnly config srv
    unfolding new_api
    rest_serving config true b url now start arrivals s on e =
        absurd (aggregator_not_serving b now start arrivals s (new_client url) e)
    rest_serving config false none url now start arrivals s off e = cc
    rest_serving config false (some b) url now start arrivals s off e =
        let same = serving_injective e in
        (off, ap (λ x. x.database) (sym same), b, ap (λ x. x.builder) (sym same))

    parts_serving :
        (config : Config) (url : Dial) (now : ℕ) (arrivals : List (ℕ × Arrival)) (s : Sqlite)
        (r : Result (Option (Builder d))) {srv : Server c d}
        → start_parts c g d disk config url now arrivals s r ≡ NodeProcess.serving srv
        → CensusesOnly config srv
    parts_serving config url now arrivals s (ok b) e =
        rest_serving config config.votes_aggregator b url now config.start_scan_block arrivals s
          refl e
    parts_serving config url now arrivals s (err x) e = cc
    parts_serving config url now arrivals s panic e = cc

    -- When the node comes to serve its API, whatever has arrived from the chain until then, it was
    -- started without the votes aggregator: it serves the census builder alone. With the votes
    -- aggregator the start waits for a synchronisation that does not end.
    pub main-CensusesOnly :
        (config : Config) (url : Dial) (now : ℕ) (arrivals : List (ℕ × Arrival))
        (sub_dbs : List (ℕ × State)) (own : State) (s : Sqlite) {srv : Server c d}
        → main c g d disk config url now arrivals sub_dbs own s ≡ NodeProcess.serving srv
        → CensusesOnly config srv
    unfolding main
    main-CensusesOnly config url now arrivals sub_dbs own s e =
        parts_serving config url now arrivals s
          (start_builder c g d disk config.census_builder sub_dbs own) e
