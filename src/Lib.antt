-- ===== src/Lib.antt =====
-- Verification of the audit logger: MySQL row changes are read from the binlog, attributed to a
-- user, put in signed Merkle batches, stored and archived.
--
-- Parts, and the files of the repository that they model:
--   Source         internal/source/source.go: the data that a change source yields.
--   Binlog         internal/binlog/client.go: the events (Binlog), readLoop (Binlog/Reader),
--                  and where the stream starts (Binlog/Start).
--   Config         internal/config/config.go: which tables are audited, and how.
--   Attribution    internal/attribution/attribution.go: CorrelateTransaction.
--   Alerting       internal/alerting/alerting.go: sinks, rate limit, dispatcher.
--   Batch          internal/batch/batcher.go: the buffer and CloseCurrentBatch.
--   Merkle         internal/merkle/tree.go, and verifier.go in Merkle/Verifier.
--   Signing        internal/signing/signing.go: LocalKeyManager and its key file.
--   Store          internal/store/models.go and MemoryStore of internal/store/store.go.
--   Postgres       PostgresStore of internal/store/store.go, over the tables of migrations/postgres.
--   Archive        internal/archive/archive.go: the write-once directory.
--   Tiering        internal/tiering/tiering.go: RunOnce.
--   Snapshot       internal/snapshot/snapshot.go: BuildRecord.
--   Pipeline       internal/pipeline/pipeline.go: ProcessTransaction and Run.
--   Bootstrap      internal/bootstrap/bootstrap.go: BootstrapTable.
--   Api            internal/api/rbac.go, and internal/api/handlers.go: here
--                  PublicVerifyProofHandler, in Api/Detail GetRecordDetailHandler, in
--                  Api/Handlers the others. Api/Server is internal/api/server.go.
--   Commands       the programs of cmd: keygen/main.go (Commands/Keygen), verify/main.go
--                  (Commands/Verify), apiserver/main.go (Commands/ApiServer),
--                  daemon/main.go (Commands/Daemon), tiering/main.go (Commands/Tiering).
--   Errors         the errors that these files return, and the results that carry them.
--   Prelude        names, tests, lists and maps that the parts share.
--   Examples       runs at small inputs.
-- Binlog sends transactions to Pipeline; Attribution reads them with the configuration that Config
-- keeps; Snapshot builds the records of audited changes; Batch numbers the records, and closes a
-- batch by Merkle, then a signature, then the store, then the archive, then the alerts.
-- Merkle/Verifier checks a record of the store against its batch.
--
-- Correspondence: a Go struct is a record with its fields in snake case, a method a function of
-- the same name that takes the state and returns it with the result, an error a value of GoError,
-- a map an association list (so `range` has that list's order), a slice a list, []byte a list of
-- numbers. Functions return where the code returns, on every branch. Mutexes are not modelled:
-- each method is one step. Times are nanoseconds; what a method reads of the clock, of uuid.New
-- and of random sources is an argument. The batcher's timer may run out before
-- each change that Pipeline handles. Parameters, since their code is not in the repository:
-- SHA-256, Ed25519, AES-GCM, Argon2id, base64, JSON, time formats, strings.ToUpper with
-- TrimSpace, filepath.Clean, hexadecimal decoding, system calls, the answers
-- of MySQL, the replication library's events. Sign, the stores,
-- the dispatcher and the callback are an interface of the batcher (Batch.Services);
-- Batch/InMemory fills it with MemoryStore and Postgres/Session with PostgresStore. The tiering job
-- has an interface too (Tiering.Deps), filled in Tiering/InMemory. A rotate event's position wraps
-- at 32 bits.
--
-- Loops: building the tree recurses on fuel, the number of leaves less one, and a level is at most
-- half of the one below, rounded up, which is proved enough (Merkle/Root, Merkle/Height). All other
-- loops recurse on a list.
--
-- Order: a query of PostgreSQL visits the rows of a table in the order of its list, and
-- Postgres/Rearranged relates the lists with the same rows; Store/Order and Store/Latest do so for
-- the maps of MemoryStore. JSONB and TIMESTAMPTZ are functions of the values that are written
-- (Postgres.Columns), of which nothing is assumed.
--
-- Not modelled: the panic of Ed25519 on a key of the wrong length, the webhook sink (calls of another system), the portal's HTML, and in cmd
-- the parsing of flags and environment variables, signals and what is printed.
pub mod Prelude
pub mod Errors
pub mod Source
pub mod Merkle
pub mod Commands
pub mod Config
pub mod Attribution
pub mod Binlog
pub mod Alerting
pub mod Store
pub mod Postgres
pub mod Signing
pub mod Archive
pub mod Batch
pub mod Tiering
pub mod Snapshot
pub mod Pipeline
pub mod Bootstrap
pub mod Api
pub mod Examples
