-- ===== src/Lib.antt =====
-- The bridge relayer, the token indexer, the JSON-RPC facade, the token service, the
-- transfers and the whitelist of the Canton middleware.
--
-- The middleware joins an Ethereum chain and a Canton ledger. Three of its programs carry the state that must
-- not go wrong. The relayer (pkg/relayer) reads deposits from Ethereum and withdrawals from Canton and
-- submits each to the other side, through a table of transfers. The indexer (pkg/indexer) reads the
-- transactions of the ledger and keeps the balances, the supply and the transfers of tokens. The facade
-- (pkg/ethrpc) takes the transactions of Ethereum wallets into a mempool; a submitter has the token service
-- (pkg/token) make the transfers on the ledger, and a miner puts what came of them into synthetic blocks. The
-- API server (pkg/transfer) prepares transfers that the users sign themselves. All
-- talk to Postgres, and all must survive a restart, a failing statement and an event that is delivered twice.
--
-- Exec: methods that change a state and may fail (`Exec`), what they preserve (`Exec/Keeps`), and which of the
--   coming statements of a database fail (`Exec/Faults`).
-- Failure: pkg/app/errors/errors.go.
-- Prelude: Boolean tests, integers, association lists as tables, and the number texts of Go's strconv.
--
-- Relayer/Types: pkg/relayer/types.go and config.go. A pointer is an `Option`, a time a number.
-- Relayer/World: what the goroutines share, that is the two tables, the engine's fields, `lastSavedOffset` of
--   each processor, and the chains (`D`) behind the clients. `faults` says which of the coming statements
--   fail; when it is used up none does.
-- Relayer/Store: pkg/relayer/store/pg.go, with one function per statement; Store/Rows has the statements on
--   lists of rows, Store/Effects and Store/Distinct their laws.
-- Relayer/Clients: the Canton bridge client, the Ethereum client and the conversions of third-party packages,
--   as a record that every definition which calls them takes.
-- Relayer/Source, Relayer/Destination, Relayer/Processor: pkg/relayer/engine/source.go, destination.go
--   (`SubmitTransfer` of both destinations) and processor.go (`processEvent`, `persistOffset`, `Start` on the
--   events that a stream delivers).
-- Relayer/Engine: pkg/relayer/engine/engine.go. Engine/Offsets has the offsets that are loaded and saved,
--   Engine/Readiness the readiness checks. Engine/Steps makes the processors, the reconciliation loop, the
--   chains, the clock and restarts a step relation; the other children prove.
-- Ledger/Values, Ledger/Encode, Ledger/Event: pkg/cantonsdk/values (decode.go, values.go; encode.go, meta.go)
--   and pkg/cantonsdk/streaming/types.go. Ledger/RoundTrip proves.
-- Indexer/Types, Indexer/Store, Indexer/Processor, Indexer/Decoder: pkg/indexer/types.go, store/pg.go,
--   engine/processor.go and engine/decoder.go. The decoders turn an event of the ledger into an item, the
--   processor writes the items of a batch in one transaction. Indexer/Effects, Indexer/Batches,
--   Indexer/Decoded, Indexer/Credit and Indexer/Resume prove.
-- Rpc/Types, Rpc/Store, Rpc/Miner, Rpc/Submitter, Rpc/Service: pkg/ethrpc/types.go, store/pg.go,
--   miner/miner.go, submitter/submitter.go and service/service.go. Store/Queries, Service/Reads and
--   Service/Calls have the reads. `before` in the database is what a rollback goes back to. Rpc/Runs
--   and Rpc/Block, with Block/Fills, relate a tick of the miner to an account of a block; Rpc/Ids,
--   Rpc/Lifecycle and Rpc/Reach are about every history of the mempool, Rpc/Composed puts service,
--   submitter and miner together, Rpc/Drained, Rpc/Receipts and Rpc/Confirmed about what the miner
--   leaves, Rpc/Outcomes and Rpc/Order about the submitter, and Rpc/Sent about what comes in.
-- Token/Service, Token/Pages: pkg/token (service.go, erc20.go, config.go, native.go), which fills the interface
--   `TokenService` of the submitter. Token/Walk proves.
-- Transfers/Types, Transfers/Cache, Transfers/Checks, Transfers/Service, Transfers/Lists: pkg/transfer
--   (types.go, cache.go, service.go). The clients of the ledger, the users and the indexer are an
--   interface. Transfers/Once, Transfers/Bounded and Transfers/Claims prove.
-- Whitelist, Whitelist/Address: pkg/user/whitelist/whitelist.go with its statements in pkg/userstore/pg.go, and
--   the validation of addresses in pkg/auth/evm.go. Whitelist/Gate proves.
-- The Examples of each part: the theorems at concrete inputs.
--
-- Loops that end by themselves are recursions on lists. `processBatchWithRetry` tries for ever: the model
-- takes the number of tries as an argument. `restart_backoff` counts the restarts of
-- the Canton processor. A number of 64 bits has at most 20 digits, so `format_uint` writes at most 20.
-- Block numbers and ledger offsets stay what they are, with the bounds of uint64 and int64 where texts are
-- read.
--
-- Not modelled: metrics, logs and tracing; channels and goroutines below a whole turn of a loop, so that two
-- handlers inside their critical sections at once do not occur; contexts and cancellation; the list queries
-- of the relayer's and the indexer's stores; and the other programs (the rest of the API server,
-- authentication, keys).
pub mod Prelude
pub mod Exec
pub mod Failure
pub mod Relayer
pub mod Ledger
pub mod Indexer
pub mod Rpc
pub mod Token
pub mod Transfers
pub mod Whitelist
