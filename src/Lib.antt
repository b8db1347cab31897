-- ===== src/Lib.antt =====
-- Verification library for basecheck-agent, an agent that runs database
-- security checks and reports the findings to a SIEM.
--
-- One large part that is modelled is the SIEM output path, pkg/siem. A finding
-- becomes an Event (converter.go, event.go). The Deduplicator (dedup.go) decides
-- whether it is new within a window of hours, in a file that several agent
-- processes share under a lock. The events it lets through go to the Queue
-- (queue.go), which delivers a batch to a destination with retries
-- (destination.go, webhook.go), keeps what is not delivered in a file of JSON
-- lines under another lock, and hands what it gives up on to a dead-letter file.
-- When queueing fails, or delivery is given up, the coordinator (output.go)
-- releases the reservations that the deduplicator made for the batch.
--
-- Beside it stands pkg/entitlement: a signed manifest says which control packs
-- the agent may run. It is loaded from a local file, the cache or the server,
-- checked, and asked for access to each pack by its ID and tier.
-- pkg/database/query_guard.go decides which SQL the agent may send to a
-- database at all: comments and literals are blanked, then words are looked for.
-- The other large part, pkg/controlset, fetches control sets from files or from the
-- backend with a cache behind it, checks a set from a file (loader.go) and runs its
-- controls (executor.go): each procedure fetches rows, its criteria are
-- conditions on these or on their number, and the matches become findings,
-- whose statuses make up that of the control.
-- A set runs only on agents and databases of the versions it names
-- (compatibility.go), and that the entitlement allows (fetcher.go). Evidence is
-- captured under a lease from the backend, from where the last run stopped, by a
-- watermark that the backend keeps.
-- A set is signed in a canonical form (fetcher.go, signing.go), which trims its
-- texts and sorts its lists. The settings of all parts and their validation are in
-- pkg/config, from which the SIEM output opens its destination. pkg/logs collects
-- the rows of a PostgreSQL CSV log, with a state that says where the last run
-- stopped, and gathers the lines of Oracle's alert log into entries.
-- pkg/output sends the results of a run to the backend, or keeps them as pending
-- files with limits on their number and size, which a later run uploads.
--
-- Files, and the code they are about:
--   Prelude               shared names: tests, lists, results, integers, Dict
--   Siem/Fault            error chains: pkg/siem/destination.go (RetryableError,
--                         IsRetryable) and pkg/siem/webhook.go (classifyResponse)
--   Siem/Event            pkg/siem/event.go: the record and its constants
--   Siem/Event/Identity   pkg/siem/event.go: ComputeFingerprint
--   Siem/Event/Validation pkg/siem/event.go: Validate
--   Siem/Context          pkg/siem/converter.go: FindingContext
--   Siem/Queue            pkg/siem/queue.go: the state and its configuration
--   Siem/Queue/Store      pkg/siem/queue.go: persist, loadPersistedEvents
--   Siem/Queue/Deliver    pkg/siem/queue.go: deliverWithRetry, sendToDeadLetter
--   Siem/Queue/Enqueue    pkg/siem/queue.go: Enqueue
--   Siem/Queue/Flush      pkg/siem/queue.go: Flush, Close
--   Siem/Queue/Open       pkg/siem/queue.go: NewQueue
--   Siem/Dedup            pkg/siem/dedup.go: the cache and its decisions
--   Siem/Dedup/Store      pkg/siem/dedup.go: NewDeduplicator, Filter, Release,
--                         RecordDelivered, Persist and the shared file
--   Siem/Dedup/Lifecycle  pkg/siem/dedup.go: DetermineLifecycle and
--                         DetectRemediations
--   Siem/Converter        pkg/siem/converter.go, and the results of controls of
--                         pkg/controlset/types.go
--   Siem/Output           pkg/siem/output.go: EmitFindings, Flush
--   Siem/Output/Open      pkg/siem/output.go: NewOutput
--   Siem/Output/Ticker    pkg/siem/output.go: runPeriodicFlush, as steps
--   Siem/Output/Close     pkg/siem/output.go: Close
--   Siem/Examples         concrete runs of all of these
--   Entitlement           pkg/entitlement/types.go, and the tiers of
--                         pkg/controlset/types.go
--   Entitlement/Verify    pkg/entitlement/verify.go
--   Entitlement/Pack      pkg/controlset/fetcher.go: checkEntitlement
--   Entitlement/Loader    pkg/entitlement/loader.go, and ValidateHTTPS of
--                         pkg/security/validate.go
--   Entitlement/Examples  concrete runs of these
--   Guard                 pkg/database/query_guard.go: validateReadOnlyQuery,
--                         requireSingleStatement, validateSQLiteReadOnlyQuery
--   Guard/Sanitize        pkg/database/query_guard.go: sanitizeSQL
--   Guard/Words           pkg/database/query_guard.go: the patterns
--   Guard/Examples        concrete runs of these
--   Text                  byte strings, as Go's package strings works on ASCII
--   Text/Numbers          integers in decimal, as strconv and fmt read them
--   Control               pkg/controlset: the values of a row
--   Control/Condition     pkg/controlset/executor.go: validateConditionSyntax,
--                         evaluateCondition
--   Control/Condition/Leaf  pkg/controlset/executor.go: the conditions without
--                         AND and OR, and those on the number of rows
--   Control/Title         pkg/controlset/executor.go: buildFallbackTitle,
--                         interpolateTitle
--   Control/Procedure     pkg/controlset/executor.go: ExecuteControl,
--                         executeProcedure, applyProcedureRows;
--                         pkg/controlset/loader.go: validateControlSet
--   Control/Watermark     pkg/controlset/executor.go:
--                         buildIncrementalEvidenceSQL,
--                         calculateEvidenceWatermark
--   Control/Watermark/Conditions  pkg/controlset/executor.go: the conditions
--                         and the values in them
--   Control/Capture       pkg/controlset/executor.go:
--                         executeEvidenceCapture, acquireEvidenceLease
--   Control/Canonical     pkg/controlset/fetcher.go: canonicalControlSet
--   Control/Convert       pkg/controlset/fetcher.go: convertBackendResponse
--   Control/Canonical/Verify  pkg/controlset/fetcher.go, signing.go: the payload
--                         and its signature
--   Control/Fetch         pkg/controlset/fetcher.go: FetchControlSet, fetchFromHTTP
--   Control/Access        pkg/controlset/executor.go:
--                         authorizeActiveValidationPath
--   Control/Compatibility pkg/controlset/compatibility.go: CheckCompatibility
--   Control/Examples      concrete runs of these
--   Text/Order            the order of strings, and Go's stable sort by a key
--   Config                pkg/config/config.go
--   Config/Named          pkg/config/config.go: the loops of Validate over names
--   Config/Database       pkg/config/config.go: databases and log sources
--   Config/Validation     pkg/config/config.go: active validation
--   Config/Siem           pkg/config/config.go: the SIEM output
--   Config/Defaults       pkg/config/config.go: the other settings
--   Config/Check          pkg/config/config.go: Config and Validate
--   Siem/Syslog           pkg/siem/syslog.go
--   Siem/Destination      pkg/siem/webhook.go: NewWebhookDestination;
--                         pkg/siem/output.go: NewOutput, NewOutputFromConfig
--   Logs/Csv              pkg/logs/postgres/csvlog.go: Collect
--   Logs/Csv/Event        pkg/logs/postgres/csvlog.go: MapEvent
--   Logs/Examples, Config/Examples  concrete runs of these
--   Logs/Oracle           pkg/logs/oracle/parser.go: Parse
--   Logs/Oracle/Patterns  pkg/logs/oracle/parser.go: the regular expressions
--   Siem/Lock             pkg/siem/filelock.go, as steps of several processes
--   Output/Pending        pkg/output/output.go: writeToHTTP, QueueResult,
--                         UploadPending
--   Siem/DeadLetter       pkg/siem/deadletter.go
-- The modules Laws, Fingerprint, Conserve, Arrivals, Filter, Contract, Decision,
-- Grants, Cache, Split, Order, Termination, Accepted, Coverage, Outcome, Draining,
-- Restart, Repeat, Pieces, Statements and Progress below a component
-- hold its theorems.
--
-- How the code is read. A method with a pointer receiver takes the state and
-- returns the new one; the file on disk is part of that state. Every call that
-- can fail by itself (a lock, a read, a write, a send) is answered by an input,
-- so a theorem for all inputs covers every pattern of failures. Another process
-- that writes the queue's file between the two critical sections of Flush is an
-- input as well. Instants are numbers of nanoseconds since the zero time, and
-- a time ago that would be negative counts as 0. JSON encoding, the hash, UUIDs,
-- the cleaning and parsing of paths, and in pkg/siem and pkg/entitlement the
-- string functions of Go's library are parameters with named hypotheses.
--
-- Fuel. The retry loop is recursion on the attempts that are left, max_retries
-- plus one of them, which is exactly the bound of the source's loop: no fuel is
-- added, and the theorems on delivery state that it returns. The recursion over
-- the parts of a condition has the length of the text and one as its fuel, and is
-- shown not to run out of it. The digits of a printed integer have 20 rounds, and
-- 64 bits need at most 19. All other loops are structural recursion over a list.
--
-- Not modelled: the MSSQL branch of the guard, with its own allow-lists; text
-- outside ASCII in a query, a condition, a title or a version; how the rows of a
-- procedure are fetched (SQL drivers, HTTP, requests of active validation, scans
-- of files), which are inputs of the model; the drivers of the databases, the
-- discovery of databases, the registration and the fingerprint of the host, the
-- cursors of log sources, the mode file of the agent, the self-test of the SIEM and
-- the command line programs, which call external systems, read and write files, or
-- print; the reading of the configuration file. Of the SIEM path, risk scores
-- (floating point) and the log context of an event are left out, and so are the
-- HTTP client and the file system themselves, whose errors are inputs, and the
-- writing of results to a file or to the console.
pub mod Config
pub mod Control
pub mod Entitlement
pub mod Guard
pub mod Logs
pub mod Output
pub mod Prelude
pub mod Siem
pub mod Text
