-- ===== src/Lib.antt =====
-- polkadot-worker: fetches blocks of a Polkadot node over a websocket, has them decoded by
-- polkadothub-proxy over gRPC, and maps the answers to the common format of the indexing engine.
--
-- The parts and how they interact. A task of the indexer takes a channel for responses from a
-- pool (`indexer/pool.go`), sends JSON-RPC requests with it to the websocket connections
-- (`api/api.go`) and reads the hashes of a block and of its two ancestors, its data and the
-- metadata of its runtime from what arrives (`indexer/getBlock.go`, `api/scale`). What the node
-- returned goes to polkadothub-proxy (`proxy/client.go`), over connections that take turns
-- (`proxy/conns.go`); the decoded block goes through the mappers (`mapper/*.go`), its
-- transactions are paired with the node's extrinsics, and the whole is stored
-- (`indexer/client.go`). The same file answers the tasks of a stream; accounts are read from the
-- node for HTTP requests (`indexer/account.go`, `transport/http/http.go`). The programs under
-- `cmd` read a configuration, set up the logger, dial the proxy and build the client of the
-- indexer.
--
-- The files and what they model:
--
-- - Base, Channel: shared lists, texts, integers over the native numbers, the outcome of a Go
--   call (a value, an error, a panic, an endless wait) and buffered channels.
-- - Stdlib/Numbers, Stdlib/Strings: what the code uses of `math/big`, `strconv`, `strings` and
--   `regexp`, on ASCII texts; a regular expression is a function that finds its leftmost match.
-- - Api/Session: `run`, `recv` and `timeoutChecker` of `api/api.go`. A state holds the map of
--   pending requests and logs of what was written and delivered; an event is one turn of one of
--   the three goroutines, which take turns under the lock of the map.
-- - Api/Conn, Api/Health: `Send`, `getStatus`, the status and the loop of `run` for each node's
--   connection, and the pauses of `Run`; `HealthCheck` with the two functions that
--   `cmd/polkadot-worker/main.go` hands to it.
-- - Indexer/Pool: `indexer/pool.go`. Indexer/Pool/Ownership has the users of a pool as a step
--   relation, and Indexer/Pool/Service what their calls return.
-- - Indexer/Hashes: `GetBlockHashes` of `indexer/getBlock.go`. Indexer/Others: `getOthers` of
--   that file. Indexer/Latest: its `getLatestHeight`, `GetMetadata` and
--   `GetTransactionsForHeight`. Indexer/Pairing: the loop of `blockAndTx` that pairs transactions
--   with extrinsics. Indexer/Block: `blockAndTx` itself, composed of the others.
-- - Indexer/Storing: `BlockAndTx` of `indexer/client.go`. Indexer/Tasks: the handlers of tasks
--   there, with what they send as a list. Indexer/Run: `Run`, `RegisterStream` and `CloseStream`.
--   Indexer/Range: `getLatestBlockHeightRange`. Indexer/Client: `NewClient`.
-- - Indexer/AccountData, Indexer/Account: `indexer/account.go`, with what becomes of the channel
--   as a value.
-- - Scale/Storage: `DecodeStorage` of `api/scale/scale.go`. Scale/Address, Scale/Xxhash,
--   Scale/Requests: `api/scale/address/address.go` with `api/scale/blake128/blake128.go`,
--   `api/scale/xxhash/xxhash.go` and `api/scale/requests.go`.
-- - Transport/Http: the handler of `transport/http/http.go`, as a list of what it does with its
--   writer.
-- - Proxy/Conns, Proxy/Client: `proxy/conns.go` and `proxy/client.go`; Proxy/Client/Turns has
--   rows of calls.
-- - Mapper/Amount, Mapper/Event, Mapper/Subset, Mapper/Transaction, Mapper/Balance: the mappers
--   of `mapper/`, with the messages in Mapper/Proto.
-- - Migration, Migration/Rows: `getTransactions` and `getTransaction` of
--   `cmd/data-migration/0001-migration-ext-id/0001-migration-ext-id.go`, with the updates that
--   are tried as a list.
-- - Programs/Logging: `cmd/polkadot-worker/logger/logger.go`. Programs/Configuration,
--   Programs/Version: `config/config.go` and `config/version.go` of both programs, and their
--   `getConfig`. Programs/Start: what the `main` functions share. Programs/Worker, Programs/Live:
--   `cmd/polkadot-worker/main.go` and `cmd/polkadot-live/main.go`; Programs/Migrate: `main` of
--   the data migration. A start gives the program as it is when its servers begin, or how it
--   stops.
-- - Examples: tests, and the theorems at concrete inputs.
--
-- Parameters. Binary floats of `math/big` are the record `Floats` of Mapper/Amount: `SetString`
-- reads what `big.Int` reads, and a quotient by a divisor other than zero is no panic. The cache
-- of `golang-lru` is the record `Lru` of Indexer/Hashes: a look-up after `Add` gives the value
-- that was added or one that was there before. The services of polkadothub-proxy, the rate
-- limiter, the JSON codec, the SCALE decoders, base58, the hashes, the requester of ranges, the
-- search store and the sockets appear as arguments or as events. The query, the updates and
-- `sort.Slice` of the data migration are arguments as well. Zap, rollbar, `envconfig`, the
-- connections that are dialled and the servers' ends are arguments of the programs. The functions
-- of the indexer wait on one channel; what arrives on it during a call is an argument of the
-- call.
--
-- Fuel. `drain_loop` of Channel has a round for each value and one more, which is enough for an
-- open channel and never for a closed one; `digits` of Base/Text and `hex_digits` of
-- Indexer/Latest/Header have n + 1 rounds, enough for every number n; `reverse_loop` of
-- Scale/Xxhash has a round for each byte and needs half as many.
--
-- Not modelled: the metrics and profiles, the flags of the programs under `cmd` and their
-- deferred calls, the logs of all but these programs, and the test helpers; of a context only its
-- end as seen by `Run`; what a call that fails has put into the cache of hashes before. Map order
-- in Go is not fixed; a map is here the list of its entries.
pub mod Base
pub mod Api
pub mod Channel
pub mod Indexer
pub mod Mapper
pub mod Migration
pub mod Programs
pub mod Proxy
pub mod Scale
pub mod Stdlib
pub mod Transport
pub mod Examples
