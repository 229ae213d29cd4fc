-- ===== src/Lib.antt =====
-- The staking API service: messages of the staking indexer come in over queues, delegations and their
-- statistics are kept in MongoDB, and an HTTP API answers questions about them and takes unbonding
-- requests. This library models internal/v1 (queue handlers, services and the database client) with
-- what they use of internal/shared, the reads of lists page by page, the v2 statistics, and the backfill script.
--
-- Parts, and how they act together:
--   Base, Base/*         shared names, Boolean tests on ℕ, and the exception monad of Go functions that
--                        change a world and return `(A, error)`.
--   Types, Types/*       internal/shared/types, internal/shared/utils/state_transition.go and
--                        internal/shared/db/error.go; Types/Lifecycle has the arrows between states,
--                        and Types/V2States the flattened states of internal/v2/types.
--   Model                the documents of internal/v1/db/model and internal/shared/db/model. Uint64 and
--                        Int64 are bit patterns below 2^64 with wrapping addition.
--   Driver, Driver/*     the MongoDB driver and the queues, which are not part of the repository: collections
--                        with a unique key, transactions, and a network that may lose a call or its
--                        answer, as an interface with their documented behaviour. Driver/Keeps and
--                        Driver/Leads put relations between before and after together along a program.
--   Store, Store/*       internal/v1/db/client and internal/shared/db/client, one file per file there;
--                        Store/Stats/Shards and its neighbours have the sum over the shards, and
--                        Store/V2Stats, Store/V2Stats/* internal/v2/db/client/stats.go.
--   Reads, Reads/*       internal/shared/db/pagination.go and the reads that use it. A collection as a
--                        read finds it is a Source: its documents, and what the server answers to a
--                        filter and a sort. Reads/Order and Reads/Pages have the theory of lists in
--                        a strict order that are read page by page.
--   Scripts, Scripts/*   cmd/staking-api-service/scripts: the backfill of address mappings, and the
--                        replay of unprocessable messages.
--   Api, Api/*           the parsing of query parameters in internal/shared/api/handlers/handler, and
--                        some handlers of internal/v1/api/handlers.
--   Utils, Utils/*       internal/shared/utils/btc.go over an interface to the Bitcoin libraries.
--   Service, Service/*   internal/v1/service: each operation with the errors it makes; Service/Views
--                        has the public views, Service/FinalityProviders the finality providers, and
--                        Service/PublicKeys the lookup of public keys by addresses.
--   Queue, Queue/*       internal/v1/queue/handler, and the message loop of internal/shared/queue/client.
--   Tasks, Tasks/*       what the service is asked to do: a list of messages and requests, each with
--                        the fate of every call it makes. `perform` runs one by its handler. Tasks/Keeps
--                        lifts a relation from the operations of the store to lists of tasks.
--   Lifecycle, Lifecycle/*  the states of delegations over lists of tasks.
--   Ledger, Ledger/*     the statistics as books on which entries are posted.
--   History, History/*   the records that are kept: unbonding documents, address mappings, time locks,
--                        dumped messages and sent events.
--   Tests, Tests/*       concrete instances of the interfaces and the theorems at concrete inputs.
--
-- A handler of internal/v1/queue/handler calls services, a service calls the store, and the store calls the
-- driver; each of these is a function here with the name in antt's spelling (`handle_active_staking`,
-- `save_active_staking`, `save_active_staking_delegation`). The world has the database, the events
-- sent to the stats queue (newest first), the fates of the coming calls and the random numbers of
-- the coming draws. A transaction is what the driver documents: its work is undone, or one run of it
-- that succeeded from the same data is kept. `IncrementOverallStats` reads the staker's document outside its
-- transaction, which does not change that collection, so the read is part of the callback here.
-- The interfaces of the collections have the unique indexes that internal/shared/db/model/setup.go
-- declares: an unbonding document is kept by the hash of its transaction, and an address mapping
-- has its key and three addresses. The loop of the backfill has fuel, a bound on the number of
-- pages; one page more than there are delegations is enough. The other loops are over lists.
--
-- Tasks run one after another, and each may stop at any call; interleavings of two handlers between
-- their calls are not modelled. Not modelled either: logs, metrics, traces, timeouts, routing, most HTTP
-- handlers, the v2 services, the indexer database, and changes of a collection while its pages are read. The parsing of
-- JSON, and the Bitcoin libraries, are parameters.
pub mod Base
pub mod Types
pub mod Model
pub mod Driver
pub mod Store
pub mod Utils
pub mod Service
pub mod Queue
pub mod Lifecycle
pub mod Tasks
mod Tests
pub mod Ledger
pub mod History
pub mod Reads
pub mod Scripts
pub mod Api
