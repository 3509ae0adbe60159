-- ===== src/Lib.antt =====
-- The GPS data receiver takes reports of vehicle trackers over TCP (Teltonika's binary AVL
-- protocol) and HTTP, queues them, removes redundant stoppages, and delivers what is left to
-- destination servers, with a mirror to a second system.
--
-- How the parts interact: a device's session (internal/teltonika/tcp/session.go) reads an IMEI and
-- then frames, decodes each frame (internal/teltonika/codec), converts the records
-- (internal/parser/teltonika.go), writes the ACK, and submits a job to the pipeline (pipeline.go),
-- which enqueues the parsed records and gives the frame to the mirror (internal/hooshnics). The
-- HTTP handler (internal/api) queues the body of a report, or the envelope of a binary packet. The
-- workers behind the queue parse the message (internal/parser), filter the records
-- (internal/filter) and send them (internal/sender). The tracker (internal/tracking) records
-- requests for monitoring.
--
-- Files:
-- - Prelude: lists, tests, bits, bytes of big-endian fields, results and maps with string keys.
-- - Codec.Crc, Codec.Record, Codec.Packet, Codec.Detect: `CRC16IBM`, `decodeRecord` and its
--   helpers, `ParsePacket`, `DetectFormat`. A Go slice is its visible length with the bytes up to
--   its capacity, because a slice expression may go past the length; a panic is a value.
--   Codec.Encode is an independent encoder of the protocol, to state round trips against.
-- - Parser.Hooshnic: internal/parser/parser.go. The clean-up of JSON texts, `extractDataItems`
--   with `readJSONStringValue`, and in Parser.Hooshnic.Items `processDataItem`, `processDataItems`
--   and `parseHooshnicJSON`. A position in a text is the text from there on; the two regular
--   expressions are functions from a position to the end of a match. Parser.Routing: `ParseWithIMEI`
--   and the queue envelope, with a panic of the packet parser as a value.
-- - Parser.Data, Parser.Teltonika: the parsed record and its making from a decoded one. Go's time
--   formatting and the rounding of coordinates are parameters, and F stands for float64; a decoded
--   coordinate stays the 32-bit integer that the protocol has.
-- - Tcp.Session, Tcp.Pipeline: the session as a function of the bytes that the device sends, the
--   number of loop rounds before the context is cancelled, and the number of writes before one
--   fails; its result is the events that others see and how it ends. The JSON encoder is a
--   parameter. The rounds are the program's own, so no more fuel is needed: a stream of n reports is
--   served whole in n rounds.
-- - Filter: `FilterData` over the array of shards, and in Filter.Persistence its state in Redis.
--   The hash of Go's library is a parameter, and every function will do for it.
-- - Sender.Balancer, Sender.Reply, Sender.Http: `NextServer`, `sendToServer` with
--   `parseRetryAfter`, and `Send`. Clock, replies and cancellation are arguments. The loop runs on
--   the attempts that are left; `max_attempts` of them are the loop's own bound.
-- - Tracking: the operations of `RequestTracker`. Go's order of a map is the order of the list,
--   which the theorems leave open.
-- - Mirror: `deliver` and `enqueue` of the forwarder, with replies, shutdown and whether the disk
--   takes a write as arguments. Mirror.Encoding: `buildRawRequest`, `ForwardHTTPBody` and
--   `looksLikeHex`, over Go's functions on texts as parameters.
-- - Queue.Handler: `messageHandler` of cmd/server/main.go. The parser, the sanitizer and the JSON
--   library are parameters; its result is what it did, in order, and what it answers to the queue.
--   Queue.Consumer: `handleMessage`, the batches and the reclaimer of internal/queue/consumer.go, up
--   to the commands for Redis.
-- - Api.Ingest: `ReceiveGPSData` of internal/api/handler.go with the tracker, the backpressure and
--   `prepareBodyForQueue`; what Redis replies is an argument. Api.RateLimiter: the sharded limiters
--   of internal/api/middleware.go, in the steps between which requests interleave; the token bucket
--   is the library's. Api.Middleware: the chain of middleware before the endpoint, in the order of
--   cmd/server/main.go, without the recovery from panics and the deadline. Api.Queries: the
--   endpoints of internal/api/path.go, analysis.go, failed.go and invalid.go; the calendar of Tehran
--   is a parameter. Api.Monitoring: the endpoints that read from the tracker, and those for health.
-- - Storage.Rows, Storage.Invalid: the rows and INSERT statements of internal/storage/postgres.go
--   with the meaning of numbered placeholders, and the pages of `QueryInvalidRecords` over the rows
--   that its query selects. Storage.Path, Storage.Select: the other queries of that file, their SQL
--   over a list of rows in the order of the query. Storage.Writer: the writer of
--   internal/storage/async_writer.go as a run of steps, with the choices of a select and the turns
--   of the goroutines as arguments.
-- - Config: `Load` of internal/config/config.go; the environment is a function.
-- - A module Tests of a component holds concrete runs.
--
-- Not modelled: sockets, HTTP, Redis and SQL themselves, logging and metrics, the scheduling of
-- goroutines, the delay between attempts of `Send` (floating point and random); and of the rest
-- the JSON library, the broadcaster of events, the sanitizer and the raw log.
pub mod Prelude
pub mod Codec
pub mod Parser
pub mod Tcp
pub mod Filter
pub mod Sender
pub mod Mirror
pub mod Tracking
pub mod Queue
pub mod Api
pub mod Storage
pub mod Config
