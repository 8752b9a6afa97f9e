-- ===== src/Lib.antt =====
-- cc-otel: a daemon that receives the OpenTelemetry logs of coding assistants, prices their token
-- usage and shows it on a live dashboard. This library models the parts that carry its logic and
-- proves what they promise.
--
-- The parts and how they interact. The receiver (internal/receiver) takes exports of logs and of
-- traces, routes each record by its resource to the handler of its client, and tells the exporter
-- how many records it could not store. It stores each request in SQLite: a client that
-- reports its input with the cached tokens in it has them folded out (internal/db/tokens.go), and a
-- request without a cost is priced by the registry (internal/pricing), which resolves a messy model
-- name against the configuration's overrides and the table model_pricing. After each write the
-- broker (internal/api/broker.go) wakes the dashboards that are connected. A
-- database file of another machine is uploaded, inspected and merged by the import manager
-- (internal/api/import_jobs.go), which keeps one job at a time; its merge engine
-- (internal/dbmerge) reads the rows in bounded batches.
--
-- Which file models which part:
--   Tokens              internal/db/tokens.go: satAdd, satSub, UncachedInput
--     Tokens/Int64      Go's int64: an integer in range, operations that wrap around
--   Broker              internal/api/broker.go: Subscribe, Unsubscribe, NotifySource, Notify
--     Broker/Channels   its channels of capacity 1 and the loop over the clients
--     Broker/Traces     every interleaving of its operations, as a list of steps
--   Pricing/Name        Normalize, IsClaudeModel, IsUpstreamAuthoritative, stripVariants
--   Pricing/Price       Entry, Calc, SourceRank, DisplayRank
--   Pricing/Match       matchKey
--   Pricing/Basename    basenameCandidates, pickBasenameWinner, basenameCandidateLess
--   Pricing/Registry    sqlRegistry: NewRegistry, Reload, rebuildIndexLocked, Lookup, Calc,
--                       recordMiss; Registry/Writes: Upsert and Delete; Registry/Stats:
--                       Snapshot
--   Pricing/Suggest     internal/pricing/suggest.go: the official providers, and their order
--   Pricing/Admin       List: the merged view, the filters, the representative of a group, the
--                       order and the page, with the clamps of
--                       PricingCollection (internal/api/handler.go)
--   Imports             internal/api/import_jobs.go, one database import at a time
--     Imports/Job       importJob and the types of internal/dbmerge/types.go
--     Imports/Manager   reserveUpload, completeUpload, progressCallback, start, abortUpload, status,
--                       sweep (of the job), close; Imports/Orphans: sweep (of the files)
--     Imports/Finish    the ends of runInspection and runMerge; Imports/Errors: publicImportError
--     Imports/Traces    every interleaving of them, as a list of steps
--   Merge/Batches       internal/dbmerge/batch.go: scanBatches, which cuts the rows into batches
--   Merge/Identity      internal/dbmerge/identity.go: the text of which IdentityFor takes the digest
--   Receiver/Attrs      internal/receiver: attribute values and the string map read from them
--   Receiver/Event      receiver.go: parseEventFromOTLP, apiRequestFromEvent
--   Receiver/Logs       receiver.go and dsh.go: Export of logs, the routes, exportResult
--   Receiver/Dsh        dsh.go: dshStepTracker, dshAPIRequest, dshRequestID
--   Receiver/Codex      codex_parser.go: Codex/Tracker: codexSpanTracker; Codex/Dispatch:
--                       dispatchCodexLog; Codex/Records: what it reads and the rows it builds;
--                       Codex/Rows: the types of internal/db/codex_types.go
--   Receiver/AiSdk      opencode.go: mapAISDKSpan; Receiver/Traces: traces.go: Export of traces
--   Receiver/Services   what these call: the statements of internal/db, the pricer, the broker, the
--                       clock and the decoder of JSON bodies, as fields of a record over any store
--   Receiver/Decimal    strconv.FormatInt and ParseInt, which the receiver relies on
--   Prelude             texts, tables, integers and lists that the parts share
--
-- Conventions. A text is the list of its bytes, and letters are the ASCII ones. A Go map is an
-- association list in the order of a visit; where Go's order could matter, a theorem quantifies
-- over it. A float64 is a value of a parameter, the record Floats of the operations used. A method
-- that holds a mutex throughout is one step. A panic is `none`. The rows of model_pricing are a
-- list; whether a statement or a query succeeds is an input of the operation, as is the time. The
-- JSON column of aliases is the list it encodes. Loops are structural recursion; the one with fuel
-- prints a number in at most 20 rounds, which is enough below 2^64.
--
-- In the receiver a time is its nanoseconds of the epoch and a handler reads the clock once for a
-- record. A nil resource is an empty list of attributes, and a nil notifier a notification without
-- an effect. Log lines are left out. A span id is its text in base64 or hexadecimal. Where Go's
-- sort.Slice may order equal keys in any way, the model keeps one of these orders.
--
-- An abort of an import is three steps, as it unlocks before it calls cancel and before it removes
-- the files; other steps may come between. Where Unsubscribe closes a channel, or a sweep removes the
-- files of an expired job, behind the unlock, that belongs to the step. Whether os.Remove succeeds
-- on a staged file is a property of the file. The broker's count of notifications has no bound.
--
-- The tasks of the import manager are its goroutines: each has the identifier of its job and a flag
-- for its own context. What the merge engine returns, and the random identifiers, are inputs of the
-- steps; an identifier that a running task bears is not drawn again.
--
-- Not modelled: the SQL of internal/db and internal/dbmerge, the SHA-256 of an identity, the decoding
-- of OTLP messages and of JSON bodies, the export of metrics (which stores nothing), HTTP and SSE
-- encoding, the fetches of OpenRouter's catalog, processes and files, the front end, and the
-- maintenance tools.
pub mod Prelude
pub mod Tokens
pub mod Broker
pub mod Pricing
pub mod Imports
pub mod Merge
pub mod Receiver
