-- ===== src/Lib.antt =====
-- hooklens receives webhooks for inboxes, stores them, and forwards them through a tunnel to an app on
-- a developer's machine. A request comes in at internal/server, where routing.go sends it to the app
-- or to an inbox. internal/ingest resolves the inbox through a cache, asks internal/ratelimit, reads
-- the request with internal/capture, stores it with internal/store, announces it to the browsers on
-- internal/broker, and hands it to the client that internal/tunnel has for the inbox. The client at
-- the other end, in the same package, reconnects with a growing delay.
--
-- How the files stand to the source:
-- Base and its children: the conditional and the tests on numbers, lists measured by native numbers,
--   Go's maps as association lists with one entry for each key, Go's strings as lists of bytes with
--   the functions of package strings that the program calls, decimal numbers, and the outcome of a
--   call that may panic.
-- Broker (internal/broker/broker.go): Subscribe, Unsubscribe, Publish, Dropped, Subscribers, as
--   functions on the hub's state. The mutex makes every call one step, so a run is a list of calls; a
--   receive by a subscriber is a call too. A send on a closed channel and a second close panic.
-- Tunnel.Protocol (internal/tunnel/protocol.go): the frames' payloads and the close codes.
-- Tunnel.Sends (internal/tunnel/hub.go, semaphore.go): one client's requests in flight. Each call of
--   send is a goroutine with a phase; the reader's deliver and any number of closes interleave with
--   the calls, and what happens under the mutex is one event. A schedule is any list of events.
-- Tunnel.Hub (internal/tunnel/hub.go): the registry of clients by inbox.
-- Tunnel.Backoff (internal/tunnel/backoff.go, client.go): the delays, and the loop Run over a script
--   of what the connection attempts come to. The random draw is a parameter.
-- Tunnel.Local (internal/tunnel/client.go): callLocal, from a frame to the call of the app and from the
--   app's answer to the response. The sending by net/http and the text of a URL are parameters.
-- Tunnel.Serve (internal/tunnel/server.go): one connection of a client as the calls made for it, over a
--   script of what the socket delivers. What the goroutine of readLoop still takes beside and behind the
--   deferred calls is a second script. Tunnel.Serve.Phases is the order they keep; the deferred calls
--   run last in, first out, so the client is removed and then closed, other than the comment there says.
-- Tunnel.Client (internal/tunnel/client.go): connectOnce with its handshake, its read loop and the calls
--   in flight, over a script of what the socket and the app deliver.
-- Server.Routing, Server.Net (internal/server/routing.go): Resolve and all it calls.
-- Server.Events (internal/server/sse.go): the text of the event stream, and a reader of it.
-- Store (internal/store): the records passed to the database and from it, and the checks of the table
--   on the row that RecordForward writes. A table is a list of rows, and a statement does to it what
--   its clauses say. Store.Cursors (cursor.go): a position in the list of captures, and its text.
--   Store.Requests (requests.go): ListRequests. Store.Access (endpoints.go, internal/secret): the two
--   authentications. Store.Retention (requests.go, endpoints.go): the statements that write, each of
--   which leaves the tables alone when it fails. The transaction of SetRetention is one step, though
--   it is READ COMMITTED, so an insertion between its two statements is not modelled.
-- Sweeper (internal/sweeper/sweeper.go): one tick, over the deletions of Store.Retention.
-- Server.Listing (internal/server/server.go): handleListRequests and handleGetRequest, as what their
--   replies show. Server.Listing.Steps has a client that follows the cursors.
-- Diff (internal/diff): Bodies and Headers. A document is what encoding/json, a parameter, decodes. It
--   is walked by what is to be done at each of its parts, which makes the walk a recursion.
-- Replay, Replay.Addresses (internal/replay): blocked, CheckURL, the hook of the dialer and ToURL, as the
--   connections and the request that a replay makes. The resolver and the sockets are what they answer.
-- Server.Resending (internal/server/replay.go): handleReplay with both destinations.
-- Server.Comparing (internal/server/diff.go): handleDiff, from the request's parts to the reply.
-- Metrics, Metrics.Labels, Metrics.Counters (internal/metrics/metrics.go): histograms, the text of labels,
--   and a counter whose calls of Add interleave by their looks, their write and their addition.
-- Capture (internal/capture/request.go): FromHTTP, readBody, headersOf, sourceIP.
-- Ingest.Cache (internal/ingest/cache.go): the endpoint cache. The clock is an argument of each
--   operation. Ingest.Cache.Staleness is about histories of all goroutines' operations.
-- Ingest.Types, Ingest.Replies, Ingest.Handler (internal/ingest/ingest.go): the capture handler. What
--   the database, the tunnel and the clock answer during one request is an input, and the calls made
--   on them are the effects, a list in their order. The limiter and the cache are those modelled here.
-- Ratelimit (internal/ratelimit/ratelimit.go): the token buckets.
-- Signature, Signature.Stripe, Signature.Providers, Signature.Detect (internal/signature): every
--   verifier, Detect and Verify. HMAC and the two encodings of a tag are parameters. A problem is a
--   value, its text and the hints are left out. The age of a timestamp is exact, where the source
--   saturates it beyond 292 years.
--
-- Choices and bounds. Instants and durations are natural numbers of nanoseconds, so a clock does not
-- go below its epoch. The limiter's floats are exact numbers: a token is `whole` units, and a
-- nanosecond earns `rate` of them, which makes the refill a whole number; rounding is not modelled. The
-- seconds of a histogram are exact too, in a unit that makes them whole. Ids, counters and the
-- counts of a histogram wrap at 2^64. The only fuel is in trim_space, where the text's length is enough, since every
-- round takes a byte; the 20 batches of a sweep are the source's own bound. Loops over slices and maps
-- are recursion on lists.
--
-- Parameters. Functions of Go's library whose tables or formats are not modelled are arguments: the
-- case mappings outside ASCII, http.CanonicalHeaderKey, base64, the format of times, HMAC, SHA-256,
-- netip.ParseAddr, url.Parse and the text of a URL, encoding/json, and which texts Postgres takes as an
-- id. Outside Store, Postgres appears by what it answers, and the sockets appear so everywhere.
--
-- Not modelled: log lines, the JSON text of frames, replies and events (their fields are), gauges, the
-- recovery of panics, configuration, the load generator, the server's other handlers, the command line,
-- the migrations but for the checks and constraints named in Store, and the browser client.
pub mod Base
pub mod Broker
pub mod Tunnel
pub mod Server
pub mod Store
pub mod Metrics
pub mod Sweeper
pub mod Capture
pub mod Ingest
pub mod Ratelimit
pub mod Signature
pub mod Diff
pub mod Replay
