-- ===== src/Lib.antt =====
-- A model of the synchronisation hub: the notes of the Bear application are kept in the hub's
-- database, consumers write to them through a queue, and a bridge beside Bear pushes what changed
-- there, leases queue items, applies them to Bear and acknowledges them.
--
-- Models: internal/models, one file per type. Store: internal/store/sqlite.go. A table is the list
-- of its rows and a transaction is a function from tables to a `Result` of tables: an error stands
-- for the rollback. `Store.Queue.Enqueue` is EnqueueWrite and what it calls, `Store.Queue.Lease`
-- LeaseQueueItems, `Store.Ack` AckQueueItems, `Store.Push` ProcessSyncPush with a child module per
-- kind of entity, `Store.NoteTable` the statements on one note, and `Store.Reads` the reads of
-- lists. The other children of these modules hold proofs. Api: the writing handlers of
-- internal/api/notes_handler.go (`Api.Create`, `Api.Notes`, with `Api.Title` for the title of a
-- body) and tags_handler.go (`Api.TagHandlers`), as functions from the database and a request to
-- the database and the answer, one request at a time; `Api.SyncHandlers` is
-- internal/api/sync_handler.go, and `Api.Tokens` the authorisation of token_parser.go and
-- server.go. `Api.ReadHandlers` is what consumers read, and `Api.AddFile` and `Api.AttachmentFiles`
-- the handlers on files, with the directory of attachments as a list of files and a fault that may
-- befall one of the calls of the file system. Ipc: the tracker of internal/ipc/stats.go. `Tests`
-- runs the functions.
--
-- Hub: these transactions in any order, as a step relation on databases that starts at the empty
-- one. The queue items that a handler enqueues are the requests of `enqueue_write`; the bridge is
-- the caller of `lease_queue_items`, `ack_queue_items` and `process_sync_push`.
--
-- Mapper: internal/mapper/mapper.go, from Bear's rows to the models. Bridge: cmd/bridge. What it
-- calls of Bear is a parameter: `Bridge.Bear` for queue.go, with the state of Bear unknown, and
-- `Bridge.Reads` for sync.go, as the reads at one moment. `Bridge.Actions`, `Bridge.TagActions` and
-- `Bridge.Queue` are queue.go, `Bridge.Cycle` a turn of the queue between the hub and Bear,
-- `Bridge.Junction`, `Bridge.Delta` and `Bridge.Initial` sync.go, and `Bridge.Cycles` its `Run`.
-- `Store.Scan` is internal/store/scan.go. BearDb: internal/beardb/sqlite.go, its queries as
-- functions of the tables of Bear, which fill the reads of the sync. HubClient:
-- internal/hubclient/client.go, `HubClient.Retry` and `HubClient.Calls` over an unknown link, and
-- `HubClient.Hub` the hub behind a link that loses requests and answers; its three attempts are a
-- recursion on their number. XCallback: internal/xcallback/xcallback.go on an unknown bear-xcall,
-- with `XCallback.RealBear` the Bear that the queue meets through it and through BearDb. The laws
-- that the bridge relies on in Bear are hypotheses, which `Tests.MemoryBear` shows to hold of a
-- Bear in memory.
--
-- Calls from outside: the ids that crypto/rand draws are a parameter, the clock is an argument of
-- each operation. The functions recurse on lists, but for the batches of an initial sync, whose
-- fuel is the number of rows. Every SQL statement is taken to run: the errors of a statement are
-- those of the constraints in the schema, and errors of the disk or of a cancelled context are left
-- out, but for `EnqueueWrite`, which may fail for a handler (`enqueue_fails`), and the files. What
-- SQLite orders by, what its full-text index finds, JSON and the functions of paths are parameters.
--
-- Not modelled: the migrations of old databases, which are statements that SQLite runs; how
-- bear-xcall is found and started, and the tools in Swift; the masking of the token for the log; the
-- MCP server; the routes of the HTTP server and of the IPC socket; configuration, signals and logs.
pub mod Prelude
pub mod Models
pub mod Store
pub mod Api
pub mod Ipc
pub mod Hub
pub mod Mapper
pub mod XCallback
pub mod HubClient
pub mod BearDb
pub mod Bridge
pub mod Tests
