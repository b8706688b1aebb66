-- ===== src/Lib.antt =====
-- OmniBinder: runtimes that register services with a service manager, find each other there, and call
-- each other over TCP or over rings in shared memory.
--
-- A message (src/core/message.cpp) is serialized into a buffer (src/core/buffer.cpp) and travels over
-- a stream or, as one frame, over a ring (src/transport/shm_ring.cpp). The receiver extracts frames and
-- reads their payloads with bounded reads (src/core/buffer_read_utils.h). A caller waits for the reply
-- in a table by sequence number (src/core/pending_reply_table.cpp). The service manager keeps the
-- registered instances by name and by control connection (service_manager/service_registry.cpp), the
-- publishers and subscribers of topics (service_manager/topic_manager.cpp) and the connections that
-- watch services (service_manager/service_watch_notifier.cpp); a connection that closes goes from all.
--
-- Prelude: the shared names, Boolean tests, lists and little-endian words. Memory: memcpy on lists of
--   bytes. OrderedMap: std::map as an association list in the order of its keys.
-- Ring: shmRingSendFrame is `send_frame`, shmRingRecvFrame is `recv_frame`, shmInspectFrame is
--   `inspect_frame`; the header and its data area are one record. Ring/Window and Ring/Bytes have the
--   wrapped copies, Ring/Send and Ring/Receive the two sides, Ring/Queue the queue that a channel
--   promises and Ring/Fifo the refinement. Ring/Layout is the memory of a channel, calculateShmSize,
--   shmInitLayout and shmValidateMappedLayout.
-- Registry: ServiceRegistry, a function per method, on a record with its two maps and its counter.
--   Registry/Entries is about one entry, Registry/Takeover about an
--   instance that is registered again, Registry/Index and Registry/Closing about the index by
--   connection, Registry/History about sequences of calls.
-- Topics: TopicManager, its state and the steps that its operations share; Topics/Publishers,
--   Topics/Subscribers, Topics/Closing and Topics/Queries are its operations. Its loops over the map of
--   entries go over the keys that the map has at their start, since a round erases at most its own
--   entry. Topics/Counted and Topics/Tallied are about the counters, Topics/Indexed about the indices,
--   Topics/Consistent, Topics/Operations, Topics/Subscriptions, Topics/Hashes and Topics/History about
--   both through the operations, Topics/Cleared, Topics/Closed, Topics/Gone and Topics/Removal about a
--   closed connection, Topics/EntryKeys about the keys of the entries, and Topics/Offers, Topics/Filed
--   and Topics/Matched about what stands under them and how it is matched.
-- Watches: ServiceWatchNotifier. Watches/Indices is about its indices, Watches/Leaving
--   about removeSubscriber, Watches/Matching about `matching`.
-- Manager: the service manager's connections and how it sends (service_manager/service_manager_app.cpp).
--   Manager/Ending is closeClient with what it calls in service_manager/sm_registry.cpp and sm_diag.cpp,
--   Manager/Hello handleRuntimeHello, Manager/Registering and Manager/Watching the handlers of
--   sm_registry.cpp, Manager/Topical those of sm_topic.cpp, Manager/Querying the queries of both,
--   Manager/Serving dispatchMessage and the events. `close` in the handlers is closeClient, which a
--   failed send calls. A connection's transport is the list of its answers to the sends. Manager/Alive,
--   Manager/Closed and Manager/Gone are about closeClient, Manager/Agreeing and Manager/Fuel about its fuel,
--   Manager/Parts, Manager/Unlisted, Manager/Handled, Manager/Served, Manager/Met, Manager/Queried
--   and Manager/History about the handlers and events.
-- Replies: PendingReplyTable. Replies/Life is the state machine of one request.
-- Buffer: the writes, the growth and the cursors of Buffer. Buffer/Growth is about grow and
--   ensureCapacity, Buffer/Appends about what the writes add, Buffer/Cursors about the other operations.
-- Reader: the reads. Reader/Decodes is about what they make of encoded values.
-- Message: the header, serialize and tryExtractFrame, with Message/Frames about them; Message/Session,
--   Message/Service, Message/Runtime and Message/Topic are the payloads, Message/Items their lists.
--   Message/InPlace is serializeInPlace. Message/Stream is readNextMessage, of
--   src/core/message_reader.cpp, on a stream, and Message/Stream/Buffered is about the messages that are
--   buffered.
-- Types and Session: include/omnibinder/types.h, and the keys of src/core/runtime_connection.cpp.
--
-- Numbers are natural numbers. The arithmetic of 32 and 64 bits is written with its wrap-around where
-- the code can come to it. The allocator is a parameter: it gives a block of the size asked for, with
-- any contents, or none. The loop of Buffer::grow runs on fuel, 65 rounds: a size that doubles 64 times
-- from 1 passes any 64-bit size. The decimal digits of a size take the size as fuel, more than they
-- are. All other loops are by recursion on what they go through.
-- closeClient calls itself through the sends that fail: its fuel is the number of connections, each
-- nested call closes one of them, and Manager/Fuel shows that more fuel changes nothing. Where the
-- handlers read a connection that a failed send has deleted, the model takes it as closed. There is
-- always memory for a connection's send buffer: sendMessage ignores that an append to it can fail.
-- Producer and consumer of a ring run in turn, call by call; `later` in `send_frame` is the read
-- position that the consumer may have moved to before the sender looks again.
--
-- Not modelled: sockets, threads, clocks, logs, the event loop and the operating system's calls; the
-- runtime's dispatch and the connection manager; the service manager's timers, the list of
-- runtimes, and the handlers that set log levels or start and stop a diagnostic watch;
-- the interface compiler and the command-line tools; moves of buffers, and the signed and floating
-- codecs, which cast to the unsigned ones.
pub mod Prelude
pub mod Memory
pub mod OrderedMap
pub mod Buffer
pub mod Reader
pub mod Message
pub mod Replies
pub mod Types
pub mod Registry
pub mod Ring
pub mod Session
pub mod Topics
pub mod Watches
pub mod Manager
