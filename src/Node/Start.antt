-- ===== src/Node/Start.antt =====
-- main of cmd/ovote-node/cmd.go, and the whole of Client.Sync of eth/eth.go. Flags, paths and what
-- opens databases and connections are parameters; log.Fatal ends the process.
use ovote_node.Base.{
  ℕ, [], ◌∷◌, List, Bool, true, false, Option, none, some, Result, Error, ok, err, panic, ◌>>=◌,
  ◌>>◌, fail_if, ◌==◌, ◌%◌, two64,
}
use ovote_node.External.{Crypto}
use ovote_node.Db.Schema.{Sqlite}
use ovote_node.Db.Meta.{init_meta, get_last_sync_block_num}
use ovote_node.Eth.Events.{Geth}
use ovote_node.Eth.Sync.{EthNode, Arrival, sync, live}
use ovote_node.Census.Store.{CensusDb}
use ovote_node.CensusBuilder.Operations.{Disk, Builder, new_builder}
use ovote_node.Api.Handlers.{Server}
use ovote_node.Api.Routes.{new_api}

-- The flags that the start depends on.
pub record Config : Type 0 where
  pub start_scan_block : ℕ
  pub census_builder : Bool
  pub votes_aggregator : Bool

-- lastSyncBlockNum: that of the database, or the flag, which is stored then and must not be 0.
abbrev pub meta_or_init : (now chain_id start : ℕ) → Result ℕ → Sqlite → Result (ℕ × Sqlite)
meta_or_init now chain_id start (ok n) s = ok (n, s)
meta_or_init now chain_id start (err Error.meta_not_in_db) s = do
  fail_if (start == 0) Error.start_block_is_zero
  s' ← init_meta now chain_id start s
  ok (start, s')
meta_or_init now chain_id start (err e) s = err e
meta_or_init now chain_id start panic s = panic

unfoldable pub prepare_meta : (now chain_id start : ℕ) → Sqlite → Result (ℕ × Sqlite)
prepare_meta now chain_id start s = meta_or_init now chain_id start (get_last_sync_block_num s) s

-- Where a call of Sync is: it has returned an error or nil, a goroutine has panicked, or it is still
-- following the chain.
pub data Synced : Type 0 where
  returned : Error → Synced
  completed : Sqlite → Synced
  crashed : Synced
  following : Sqlite → Synced

-- What `Sync` needs of the Ethereum client beside the history.
pub record Chain : Type 0 where
  pub node : EthNode
  pub subscribe_new_head : Result (Unit {0})

-- The url of an Ethereum node: what dialling it gives, and the answer to the request for its chain
-- id, a `*big.Int`.
pub record Dial : Type 0 where
  pub dial : Result Chain
  pub network_chain_id : Result ℕ

-- `New` of eth, with the chain id of the client, which is `Uint64` of the answer.
unfoldable pub new_client : Dial → Result (Chain × ℕ)
new_client url = do chain ← url.dial; id ← url.network_chain_id; ok (chain, id % two64)

-- Where the process is.
pub data NodeProcess (c : Crypto) (d : CensusDb) : Type 0 where
  exited : Error → NodeProcess c d
  died : NodeProcess c d
  syncing : Sqlite → NodeProcess c d
  serving : Server c d → NodeProcess c d

module _ (c : Crypto) (g : Geth) where
  abbrev pub next_round : (Sqlite → Synced) → Result Sqlite → Synced
  next_round loop (ok s) = loop s
  next_round loop (err e) = Synced.returned e
  next_round loop panic = Synced.crashed

  -- The two live loops, on what has arrived, each at its time. Their loops have no end.
  unfoldable pub follow : List (ℕ × Arrival) → Sqlite → Synced
  follow [] s = Synced.following s
  follow ((now, a) ∷ rest) s = next_round (follow rest) (live c g now a s)

  -- syncBlocksLive, with the goroutine of syncEventsLive beside it.
  abbrev pub sync_blocks_live : Result (Unit {0}) → List (ℕ × Arrival) → Sqlite → Synced
  sync_blocks_live (ok u) arrivals s = follow arrivals s
  sync_blocks_live (err e) arrivals s = Synced.returned e
  sync_blocks_live panic arrivals s = Synced.crashed

  -- The end of Sync: an error of the live loop is returned, and otherwise nil.
  abbrev pub after_live : Synced → Synced
  after_live (Synced.returned e) = Synced.returned e
  after_live (Synced.completed s) = Synced.completed s
  after_live Synced.crashed = Synced.crashed
  after_live (Synced.following s) = Synced.following s

  abbrev pub after_history : Chain → List (ℕ × Arrival) → Result Sqlite → Synced
  after_history chain arrivals (ok s) =
      after_live (sync_blocks_live chain.subscribe_new_head arrivals s)
  after_history chain arrivals (err e) = Synced.returned e
  after_history chain arrivals panic = Synced.crashed

  -- Client.Sync
  unfoldable pub sync_client : Chain → (now : ℕ) → List (ℕ × Arrival) → Sqlite → Synced
  sync_client chain now arrivals s = after_history chain arrivals (sync c g chain.node now s)

  module _ (d : CensusDb) (disk : Disk d) where
    open d use {State}

    abbrev pub served : Result (Server c d) → NodeProcess c d
    served (ok srv) = NodeProcess.serving srv
    served (err e) = NodeProcess.exited e
    served panic = NodeProcess.died

    abbrev pub start_api : Option (Builder d) → Option Sqlite → NodeProcess c d
    start_api b s = served (new_api c d b s)

    -- `main` waits for Sync, and starts the API when it returns nil.
    abbrev pub after_sync : Option (Builder d) → Synced → NodeProcess c d
    after_sync b (Synced.returned e) = NodeProcess.exited e
    after_sync b (Synced.completed s) = start_api b (some s)
    after_sync b Synced.crashed = NodeProcess.died
    after_sync b (Synced.following s) = NodeProcess.syncing s

    abbrev pub after_meta :
        Option (Builder d)
        → Chain
        → (now : ℕ) → List (ℕ × Arrival)
        → Result (ℕ × Sqlite)
        → NodeProcess c d
    after_meta b chain now arrivals (ok (n, s)) = after_sync b (sync_client chain now arrivals s)
    after_meta b chain now arrivals (err e) = NodeProcess.exited e
    after_meta b chain now arrivals panic = NodeProcess.died

    -- The part of `main` for the votes aggregator, whose database is migrated.
    abbrev pub start_aggregator :
        Option (Builder d)
        → (now start : ℕ) → List (ℕ × Arrival)
        → Sqlite
        → Result (Chain × ℕ)
        → NodeProcess c d
    start_aggregator b now start arrivals s (ok (chain, chain_id)) =
        after_meta b chain now arrivals (prepare_meta now chain_id start s)
    start_aggregator b now start arrivals s (err e) = NodeProcess.exited e
    start_aggregator b now start arrivals s panic = NodeProcess.died

    abbrev pub start_builder : Bool → List (ℕ × State) → State → Result (Option (Builder d))
    start_builder false sub_dbs own = ok none
    start_builder true sub_dbs own = do b ← new_builder c d disk sub_dbs own; ok (some b)

    abbrev pub start_rest :
        Bool
        → Option (Builder d)
        → Dial
        → (now start : ℕ) → List (ℕ × Arrival)
        → Sqlite
        → NodeProcess c d
    start_rest false b url now start arrivals s = start_api b none
    start_rest true b url now start arrivals s =
        start_aggregator b now start arrivals s (new_client url)

    abbrev pub start_parts :
        Config
        → Dial
        → (now : ℕ) → List (ℕ × Arrival)
        → Sqlite
        → Result (Option (Builder d))
        → NodeProcess c d
    start_parts config url now arrivals s (ok b) =
        start_rest config.votes_aggregator b url now config.start_scan_block arrivals s
    start_parts config url now arrivals s (err e) = NodeProcess.exited e
    start_parts config url now arrivals s panic = NodeProcess.died

    unfoldable pub main :
        Config
        → Dial
        → (now : ℕ) → List (ℕ × Arrival)
        → List (ℕ × State)
        → State
        → Sqlite
        → NodeProcess c d
    unfolding new_client
    main config url now arrivals sub_dbs own s =
        start_parts config url now arrivals s (start_builder config.census_builder sub_dbs own)
