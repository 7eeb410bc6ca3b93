-- ===== src/Lib.antt =====
-- NetConduit, a Python library for messages and RPC between a server and its clients: models of
-- its parts under conduit/, with theorems.
--
-- How the parts interact. The server keeps a pool of connections: a client connects, logs in by
-- password or by session token, and then its messages pass the rate limiter and go to the RPC
-- dispatcher or to the message router; the client logs in again when it has lost its connection. A
-- connection moves through the states of the state machine and is
-- authenticated by the session handler. What it sends is framed by the protocol encoder and read
-- back by the protocol decoder from the stream's reads; a decoded message goes through a message
-- queue and the router to the handlers; the flow controller watches the fill ratio of a queue and
-- tells the other side to pause and to resume; the rate limiter admits or refuses a message before
-- it is sent.
--
-- Files.
--   Base: names passed on, Boolean tests, lists over the native numbers, Python's dict (Base/Dict,
--   in insertion order) and integers with a sign (Base/Int).
--   Transport/ConnectionState: ConnectionStateMachine of conduit/transport/connection_state.py.
--   transition_to, reset and the convenience methods (`Method`, `call`) are functions on the record
--   of its fields; the calls of callbacks are recorded.
--   Transport/Auth: conduit/transport/auth.py, AuthHandler and Session; Auth/Login is about
--   challenges, Auth/Lifetime about the life of a session, Auth/Cleanup about
--   cleanup_expired_sessions.
--   Protocol/Format: conduit/protocol/format.py: message types, flags (Format/Flags), byte orders,
--   the 32-byte legacy header (Format/Header). Protocol/Bytes is `struct` and int.to_bytes.
--   Protocol/Runtime: what protobuf, JSON, UTF-8 and zlib do, as parameters with their documented
--   laws, and whether the compression extension is there. Protocol/Compression is the extension's
--   compression in netconduit_core/src/core.rs, over the crates lz4_flex and zstd.
--   Protocol/Encoder, Protocol/Decoder: conduit/protocol/encoder.py and decoder.py;
--   Decoder/Stream and Decoder/Reads are about frames and reads, Decoder/Failure about packets
--   that cannot be decoded, Roundtrip about both sides, Encoder/Counter about correlation ids.
--   Messages/Queue: MessageQueue of conduit/messages/queue.py, over asyncio.Queue; a call that
--   waits takes what happens meanwhile as an argument. Queue/Fifo and Queue/Pause are about it, and
--   Queue/Priority is PriorityMessageQueue, with its promise in Queue/ByPriority.
--   Messages/Router: MessageRouter of conduit/messages/router.py; what a call of a handler comes to
--   is an argument. Router/Order is about registration, Router/Auth about route.
--   RateLimit: conduit/ratelimit/limiter.py. Time is in ticks and a token is `hz` parts.
--   RateLimit/Bound and RateLimit/Oversize are about what is let through.
--   Backpressure: FlowController of conduit/backpressure/flow_control.py, its consistency in
--   Backpressure/Invariant and its signals in Backpressure/Signals.
--   Streaming: BidirectionalStream of conduit/streaming/stream.py, and in Streaming/Manager the
--   StreamManager with the RPCs that it registers on a server. Streaming/Delivery and
--   Streaming/Order are about push, Streaming/Closing about the end of a stream.
--   Rpc/Registry, Rpc/Dispatcher: conduit/rpc/registry.py and dispatcher.py. What the type hints and
--   signatures of handlers are, what Pydantic makes of parameters and what a call comes to are
--   arguments. Rpc/Safety, Rpc/Binding and Rpc/Registration are about them.
--   Pool: ClientPool of conduit/pool/client_pool.py; Pool/RoundRobin and Pool/Latency are about its
--   strategies.
--   Heartbeat: HeartbeatManager of conduit/heartbeat/manager.py; Heartbeat/After
--   and Heartbeat/Turn follow one target through the loop of _tick, with the callback of
--   conduit/server.py, and Heartbeat/Stale is about when that callback is called. Heartbeat/Monitor: HeartbeatMonitor of conduit/heartbeat/monitor.py.
--   Response: the builders of conduit/response/response.py and error.py over a type of Python values;
--   Response/Pages is about pagination.
--   Rpc/Path: the way of a handler's result to the caller of an RPC, through dispatcher.py, server.py,
--   encoder.py, decoder.py and the end of RPC.call in conduit/rpc/rpc_class.py.
--   Transfer: FileTransferHandler of conduit/transfer/file_transfer.py. Transfer/Chunks is about a
--   file in chunks, Transfer/Receive about uploads as the server takes them, Transfer/Escape about
--   file names (that open and os.rename may fail is a parameter), Transfer/Upload is send_to_server against a server behind RPC.
--   Connection: conduit/connection/connection.py; Connection/Pending is about requests and
--   responses, Connection/Pool is ConnectionPool of conduit/connection/pool.py.
--   Server: conduit/server.py. Server/Login, Server/Mesh and Server/Dispatch are the parts of
--   _process_message, Server/Events the events of the transport, Server/Credentials
--   conduit/auth/credentials.py. Server/Guard is about who is served, Server/Tokens about logins,
--   Server/Bypass about the mesh, Server/Hooks about disconnections.
--   Client: conduit/client.py, as far as it connects, logs in and reconnects; Client/Login and
--   Client/Reconnect are about these.
--   The files named Examples apply the theorems to concrete inputs.
--
-- Bounds and fuel. decode_all's loop runs on fuel, one more than the length of the buffer; each
-- message that it decodes takes at least the four bytes of its length from the buffer, so the fuel
-- is not used up. read_chunks, the loop that reads a file, runs on fuel, one more than the length of the
-- file, and each round takes a byte at least; reconnect_loop runs on fuel, one more than the attempts
-- that are left. Words of the header are 32 and 64 bits with struct's refusal of what does not fit;
-- stream ids wrap at 2^64. Correlation ids and counters are Python's integers, without a bound.
--
-- Not modelled. Generated code (conduit/protocol/protocol_pb2.py), the Rust transport
-- (netconduit_core), TLS tunnels and third-party packages are parameters or are left out.
-- The accessors of DecodedMessage, encode_rpc_list, the client side of
-- StreamManager, the sending of a file to a client, discover and call_no_wait of the
-- RPC client class, the server's start and stop, and the client's messages, mesh and P2P connections
-- have no model. Sockets, TLS, mDNS, threads, logging and the pydantic descriptors are input and
-- output around these parts. A handler of the server or of the client that waits for the
-- application's code is one step. Floats are replaced by exact numbers or by a type with a test, and
-- their rounding is not modelled.
pub mod Base
pub mod Transport
pub mod Protocol
pub mod Messages
pub mod Response
pub mod Rpc
pub mod RateLimit
pub mod Backpressure
pub mod Streaming
pub mod Pool
pub mod Heartbeat
pub mod Transfer
pub mod Connection
pub mod Server
pub mod Client
