-- ===== src/Lib.antt =====
-- localaz is a local emulator of Azure services, written in Go. Each service is a store
-- (internal/stores) behind an HTTP or AMQP server (internal/servers); cmd/localaz starts them.
-- This library models the stores and the codecs and parsers of the servers as functions on
-- explicit states.
--
-- Conventions. A Go string or byte slice is a list of byte values (Common.ByteStrings); a map
-- keyed by strings is an association list (Common.Dict), whose order stands for Go's
-- unspecified order of iteration; a `(value, error)` result is a `Result`, with the sentinel
-- errors as constructors. Every store holds a mutex for the whole of each call, so a call is
-- one function from the state to the state and the result. The clock, random identifiers and
-- the success of a disk write are arguments (`Env`).
--
-- The parts:
-- - Common: shared types and lemmas; `sort.Strings` and `sort.Slice` (Common.Sort,
--   Common.Listing); `persistLocked` and `load` of the JSON-backed stores, over a codec that
--   stands for encoding/json (Common.Snapshot).
-- - Queue: internal/stores/queuestore. Queue.Types is types.go; Queue.Messages has the loops
--   over a queue's messages; Queue.Store has the operations, `enqueue` for `Store.Enqueue` and
--   so on. The proofs are in Queue.Delivery, Receipts, Metadata, Durability, Restart and
--   Listing.
-- - Amqp: internal/servers/sbserver, the codec. Amqp.Types is amqptypes.go, Amqp.Decode is
--   decode.go, Amqp.Encode is encode.go and Amqp.Frame is frame.go. A decoder is the bytes that
--   remain, and recursion of `readValue` runs on fuel, one more than the bytes given, which is
--   enough since each value takes a byte. The panics of Go are outcomes of the model: `none` of
--   the encoder on a type it does not know, `panicked` of the decoder on a map key without a
--   hash. Amqp.Wire, Fits, Scalars, RoundTrip and Framing have the round trips, Amqp.Bounds and
--   Limits what holds on any input, Amqp.Crash the panic.
-- - Broker: internal/stores/sbstore. Broker.Store is broker.go: the maps of `Broker`, with
--   channels as numbers and the list of those closed, so that a second `close` of one channel
--   is a panic of the model; `run` is a sequence of calls of any links. Broker.Channels counts
--   channels, Broker.Sound has the invariant, Broker.Steps and Broker.Run the calls and their
--   sequences.
-- - Table: internal/stores/tablestore. Table.Types is types.go and helpers.go, Table.Store is
--   store.go, tables.go and entities.go; `insert_entity_at` is `InsertEntity`. Table.Entities
--   has what is found after a change, Table.Concurrency the If-Match conditions, Table.Merge
--   the properties of a stored entity.
-- - Vault: internal/stores/keyvaultstore. Vault.Store is types.go and store.go; reading a nil
--   pointer is the outcome `panicked`. Vault.Versions has what is read after Set Secret,
--   Vault.History the versions in order.
-- - Filter: internal/servers/tableserver, the $filter language. Filter.Lexer is
--   filter_lexer.go, on fuel of one more than the bytes, which is enough since each turn of the
--   loop takes one (Filter.Tokens). Filter.Parser is filter_parser.go and parseFilter: the
--   position is the tokens that remain, the recursion of parsePrimary runs on the levels of
--   parentheses left of maxFilterDepth, and the loops of parseAnd and parseOr on fuel of one
--   more than the tokens, which is enough since each turn takes one (Filter.Chains).
--   Filter.Compare is the rest of odata.go that a filter calls; float64, strconv.ParseFloat and
--   encoding/json are parameters. Filter.Grammar is the grammar on its own, Filter.Accepts the
--   parser against it.
-- - Azerr: internal/utils/azerr, the errors of the storage services with their status.
-- - TableServer: internal/servers/tableserver, over Table and Filter. TableServer.Keys is the
--   key parsing of odata.go and `escapeKey`, TableServer.Http the requests, the responses and
--   the helpers, TableServer.Handlers the handlers of tables.go and the loop of `listEntities`,
--   TableServer.Entities the handlers of entities.go, TableServer.Routes the routing of
--   server.go: `serve_http` is `ServeHTTP`, from the request and the store to the store and the
--   response. A JSON body is the value that is marshalled. The proofs are in
--   TableServer.Located, Follow and Inserted (the location of an entity), Listed (filter, $top
--   and $select) and Answers (errors).
-- - Httpx: internal/utils/httpx, the error envelope of the JSON services.
-- - Monitor: internal/stores/monitorstore and internal/servers/monitorserver. Monitor.Store is
--   the store, Monitor.Values is literal.go, Monitor.Predicate is predicate.go and
--   comparison.go, Monitor.Kql is kql.go, Monitor.Wire the tables of query.go, and
--   Monitor.Server the handlers of ingestion.go, query.go and server.go. All loops are over
--   lists. The proofs are in Monitor.Ingested (the store), Queries (`sort by`) and Where.
-- - SbServer: internal/servers/sbserver, the connections, over Amqp and Broker.
--   SbServer.Helpers is helpers.go and cbs.go, SbServer.Link is link.go, SbServer.Conn the
--   state of conn.go (a link is its place in a heap, as Go's pointer is), SbServer.Attach and
--   Transfers the handlers and `dispatch`, SbServer.Loop one turn of `deliverLoop`.
--   parseMessageID runs on fuel of one more than the bytes, since each value takes one. The
--   proofs are in SbServer.Crash, Chunks and Delivery.
-- - QueueServer: internal/servers/queueserver, over Queue. QueueServer.Names is
--   `validQueueName`, QueueServer.Http the requests, the responses, the helpers and xml.go,
--   QueueServer.Handlers the handlers of queues.go and messages.go, QueueServer.Routes the
--   routing of server.go: `serve_http` is `ServeHTTP`. An XML body is the value that is
--   marshalled; a duration is an int64, whose product with a second wraps. The proofs are in
--   QueueServer.Names (names), Unseen and Answers (errors), Paths (routes) and Receipts (Get
--   Messages, then Delete Message).
--
--
-- Not modelled: the HTTP handlers of the servers other than those of the Table, Queue and
-- Monitor services, goroutines, sockets and WebSockets, cryptography, and the directory tree of
-- the Blob store; encoding/json and the disk are parameters.
pub mod Common
pub mod Azerr
pub mod Httpx
pub mod Monitor
pub mod Queue
pub mod QueueServer
pub mod Broker
pub mod Table
pub mod Vault
pub mod Filter
pub mod SbServer
pub mod TableServer
pub mod Amqp
