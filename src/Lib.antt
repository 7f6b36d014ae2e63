-- ===== src/Lib.antt =====
-- ovote-node: off-chain voting with a zero-knowledge proof of the result.
--
-- The node reads the processes of the OVOTE contract from Ethereum (eth), keeps them in SQLite (db),
-- takes the users' signed votes for a process while it is On (votesaggregator.AddVote), and, when the
-- process may publish its result, builds the inputs of the circuit from the stored votes
-- (generateZKInputs) and asks a prover for the proof (GenerateProof, GetProof). A census (census)
-- collects the voters' keys in a Merkle tree; its proofs are what a vote package carries;
-- censusbuilder keeps several.
--
-- Which file models what:
--
-- - Base: Go's values. A result is a value, an error or a panic; a uint64 is a number below 2 ^
--   64, an int64 an integer, with the conversions written out; encoding/binary, bytes.Equal and
--   the bytes of math/big are functions on lists of numbers.
-- - External: go-iden3-crypto and arbo, which are not in the repository, as a record of
--   operations (`Crypto`); the laws that some theorems need of it are `IsLittleEndian`, and
--   `IsCompression` in Types/HexRoundTrip.antt.
-- - Types: types/types.go (Process, VotePackage, the encodings of Encoding.antt, Verify) and
--   types/zkinputs.go (ZkInputs.antt, with arbo's temporary tree of receipts as `ReceiptTrees`,
--   and ZkJson.antt for MarshalJSON); Hex.antt has the texts of byte arrays and keys.
-- - Db: db/*.go. `Schema` holds the tables of Migrate, `Query` the UPDATE and ORDER BY of SQL,
--   and Processes, VotePackages, Proofs and Meta one function for each method: it takes the
--   tables, and returns the new ones or an error, which changes nothing. Insertions test the
--   primary keys, the unique columns and the foreign keys of the schema. CURRENT_TIMESTAMP is
--   the argument `now`.
-- - Eth: eth/eth.go. `Events` has the parsers, `Sync` processEventLog, the history and the two
--   live loops as single rounds; the Ethereum node is the record `EthNode`. `SyncedState.Live`
--   is any interleaving of rounds of the two loops. `TestClient` is eth/tester.go.
-- - Census: census/census.go. `Store` is the key-value database with the arbo tree kept in it
--   (`CensusDb`, laws `IsCensusDb`, and `IsCensusTree` for the proofs of added leaves),
--   `Operations` the methods, `Actions` sequences of calls on a loaded census. An error or a
--   panic discards the write transaction, so nothing is returned. `Roll` is an abstract
--   specification of a census, without a database.
-- - CensusBuilder: censusbuilder/censusbuilder.go, the censuses by id. A method returns the
--   builder beside its result, since a database that was made on disk stays when the method
--   fails. A loaded census works on the database on disk, so the map of loaded censuses is a
--   list of ids. `Registry` is an abstract specification of several censuses by id, over the
--   rolls of Census, and `BuilderReach` any calls and restarts.
-- - VotesAggregator: votesaggregator/votesaggregator.go. The prover's client is the record
--   `Prover`.
-- - Prover: prover/client.go, which fills that record; HTTP and JSON are the record `Http`.
-- - Api: api/api.go and api/types.go. `Handlers` has a function for each handler, and `serve` of
--   `Routes` is for the routes, from a request and the server to a reply and the server; `Atoi`
--   is strconv.Atoi.
--   The goroutines that postNewCensus and postAddKeys start are the `jobs` of the server, and
--   `run_goroutine` runs one of them, between any two requests. A panic there ends the process.
-- - ProverServer: cmd/prover-server. Requests and goroutines are threads; `HandlerMove` and
--   `GoroutineMove` are one access of a thread to the shared state, so `a.lastID++` is two of
--   them, and `Reach` is any interleaving, with restarts. The shared state has the files of the
--   directory; the commands that make them are the record `Tools`. `Downloads` has getProof and
--   getPublicInputs, and `Delivery` puts the server behind the prover's client.
-- - Node: cmd/ovote-node/cmd.go. `Start` follows main from the flags to `Serve`; a run of the
--   live loops is a list of what has arrived.
-- - Polls: the parts of the votes aggregator together. `Spec` is an abstract specification in
--   which a poll is a process and a bag of ballots (a quotient, without order), `View` reads the
--   polls off the tables, and `Steps` is anything that the node does to its database.
-- - VotesGen: test/votesgen.go, over a record `Signer` of babyjub's private keys.
-- - Tests: a toy instance of the external parts, and the theorems at concrete inputs.
--
-- Loops over slices are recursions on lists, so no fuel is needed but for the bytes of a big
-- integer, whose fuel is the number itself (`Base.Binary.set_bytes-big_bytes`: it is enough), and for
-- its decimal digits, whose fuel is one more (`Types.ZkJsonRoundTrip.digits_value-decimal_digits`).
--
-- Not modelled: the String methods, json.Marshal and mapstructure, gin and HTTP, logging, flags and
-- paths, dialling the node, what the commands of the prover do, the driver's errors other than those
-- of the schema and of a uint64 that does not fit, nil byte slices, tables on a connection where
-- foreign keys are off, and the floats in GenVotes. SQLite leaves the order of rows with equal sort
-- keys open; here it is that of the table.
pub mod Base
pub mod External
pub mod Types
pub mod Db
pub mod Eth
pub mod Census
pub mod CensusBuilder
pub mod VotesAggregator
pub mod Prover
pub mod Api
pub mod ProverServer
pub mod Node
pub mod Polls
pub mod VotesGen
mod Tests
