-- ===== src/Lib.antt =====
-- Verification of ReadSync: the service that keeps the reading progress of books in step between
-- Calibre, KOReader, Moon+ Reader and Goodreads.
--
-- Parts and how they interact. An adapter hands an event to the pipeline (internal/core), which in one
-- transaction finds or creates the book by the evidence of the event (internal/resolver gives the
-- confidence), stores the event, compares it with the canonical progress of the book
-- (internal/conflicts), and either replaces that progress and queues jobs for the other adapters, or
-- records a conflict and jobs that it blocks. The workers of internal/outbox claim and execute the
-- jobs, one worker per adapter, with retries. The user settles conflicts and retries or drops jobs by
-- the handlers of internal/api. The WebDAV server archives what Moon+ uploads and calls the Moon+
-- adapter, whose parser makes the event. The Goodreads bridge and the setup wizard stand beside them.
--
-- Files.
--   Base: shared names, lists, texts, times, tables, float64 as a record of operations.
--   Model: internal/model, the enumerations and entities.
--   Resolver: internal/resolver/resolver.go. Bands has Evidence, Band, WritebackEnabled and
--     EvidenceQuality; Normalize has normalize; Jaro has jaro and jaroWinkler; Score has Score.
--   Conflicts: internal/conflicts/engine.go, DetectSuspiciousJump, CanAutoResolve and ChooseWinner.
--   Core: internal/core. Event has validateEvent and normalizeEvent; Db the tables of
--     internal/db/migrations.go and the INSERT statements; Tx a transaction of statements; Resolve has
--     resolveBook with findBookByEvidence, createBook and insertBookAliases; Pipeline has process.
--     Pipeline.Effect and Pipeline.Refinement say what its statements do, and Pipeline.Contents
--     specifies the tables that it leaves, with every row written out.
--   Outbox: internal/outbox/worker.go. ClaimJob, MarkSucceeded, MarkFailed, processOne, NextRetry,
--     Enqueue; Scheduler has FairScheduler, whose workers interleave, as a step relation.
--   Api: internal/api/conflicts_outbox.go, the four handlers; Routes with the CSRF check of routes.go and the
--     routing of handlers_writes.go; History with what happens to the outbox from all sides.
--   Koreader: internal/adapters/koreader, translate.go, handlePush and handlePull of handlers.go, the
--     devices of users.go; Users has handleRegister, createUser and authMiddleware.
--   Goodreads: internal/adapters/goodreads_bridge, modes.go, goodreads.go, stale.go and
--     identifier.go (Identifiers).
--   Setup: internal/setup, the wizard (wizard.go, pages.go) and the policy (policy.go).
--   Webdav: internal/adapters/webdav. The names (safeName, safeRelPath, scopedName), Archive with
--     archiveUpload and LatestVersion, Files with versionedFS and capturingFile over any inner file
--     system, Users with CreateUser and authenticate.
--   Moon: internal/adapters/moon. Parse and ToAdapterEvent of parser.go, Serializer with writeback.go,
--     Upload with onUpload, which the archive calls and which submits to the pipeline.
--   Calibre: internal/adapters/calibre. Columns of columns.go, Writer with applyWrite and WriteProgress,
--     Opf with ParseOPFEvent of opf/opf.go, Poll with doPoll and readAllProgress.
--   Logging: internal/logging/redact.go, IsSecretKey and RedactField.
--   Fake: internal/adapters/fake, the replay of a script as a history of the pipeline.
--   Repair: internal/repair, the checks of paths (Paths), the custom columns and the backup (Columns),
--     RetryOnBusy (Retry), and the other actions (Actions).
--   The modules named Tests run the definitions on concrete input.
--
-- Waiting. `Submit` ends with the answer of process, or with its context before the writer takes the event,
-- or with its context while the writer has it: the type Koreader.Wait, for the pushes of KOReader. In the
-- last case the tables are those after the writer has come to the event. The Submit of Moon+ and of the
-- fake adapter is taken to be answered in time.
--
-- State and errors. A table is its rows in the order of their ids and the AUTOINCREMENT sequence. Each
-- statement of the pipeline may be refused by the database: the list `faults` says which of the
-- statements to come are, and the transaction then ends with an error and is rolled back. A statement
-- of the workers and of the handlers has a Boolean of its own. A time is a count of nanoseconds; the
-- clock is an argument, read once for an event or a round. The comparison of stored times is that of
-- their RFC 3339 texts, which Base.Stamp writes out. The random number of the jitter is k / 2^53, and
-- the jitter is computed exactly, where the code rounds to float64.
--
-- Bounds and fuel. No definition uses fuel: loops are structural. Ids and counts are natural numbers:
-- int64 does not overflow at one row per event. page numbers are ℤ and only compared.
--
-- Assumptions. float64 is any carrier with the operations that the code uses; one theorem needs facts of
-- IEEE 754 comparison, which Base.Double.IsOrdered names, and which a carrier of thousandths meets. The
-- tables of package unicode are a parameter, and so is what SQLite makes of a text in a column of integer
-- affinity, `strconv` on float64, SHA-256, bcrypt, the program calibredb, the
-- decoders of XML and JSON, and the in-memory file system of
-- golang.org/x/net/webdav. A UNIQUE index is kept by refusing the row that would break it.
--
-- Not modelled: the text of messages and logs, the tickers and channels that only order events and
-- rounds, the JSON file of the wizard and the data of its pages, detection of the Goodreads plugin in the
-- file system, the rate limit of KOReader, discovery of Calibre, capture mode and setup texts of Moon+, HTTP and the handler of
-- golang.org/x/net/webdav, manifests of the archive, log files and the patterns of secret values, the firewall rule
-- and the restart of the service,
-- diagnostics, secrets, the HTML interface, the commands and the tools.
pub mod Base
pub mod Model
pub mod Resolver
pub mod Conflicts
pub mod Outbox
pub mod Core
pub mod Goodreads
pub mod Setup
pub mod Api
pub mod Koreader
pub mod Logging
pub mod Moon
pub mod Webdav
pub mod Calibre
pub mod Repair
pub mod Fake
