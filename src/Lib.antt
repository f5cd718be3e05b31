-- ===== src/Lib.antt =====
-- The chat server on epoll, and the memory pool that its buffers use.
--
-- A client sends packets: a length, a type and a body. `handleRead` appends what it received to the
-- connection's ring buffer and takes the complete packets from it; a body is a small protobuf message, which
-- `decodeProtoToJson` turns into JSON text for the handlers. An answer is JSON text again, which
-- `encodeJsonToProto` turns into a body; `sendPacket` queues the packet in the connection's pending buffer,
-- and `handleWrite` sends from the active buffer, which it exchanges for the pending one when it is empty.
-- Handlers run on thread pools, message ids come from a snowflake generator, and contexts are found by
-- descriptor and by account. A message to one account is stored in Redis until the receiver acknowledges it,
-- and sent again meanwhile; accounts, friends and the chat log are in MySQL.
--
-- Base: shared names, lemmas on lists and on bits. A byte string is a list of numbers below 256; a size_t or
--   uint64_t is a number below 2 ^ 64 with its wrap-around written out.
-- Wire: namespace `pb` of EpollChatServer.cpp. Decimal: parseUint64Safe and std::to_string.
-- Proto: decodeProtoToJson. Its loop runs on fuel, since it need not end: one round for each byte and one
--   more are enough where no length wraps. Json: the JSON readers and encodeJsonToProto. Proto/Objects: the
--   requests that are made of names, from JSON to a body and back.
-- RecvBuffer, SendBuffer: PoolRecvBuffer and PoolSendBuffer of EpollChatServer.h, on lists of bytes. The
--   doubling loop of the send buffer has fuel 64, enough for a request of up to 2 ^ 63 bytes.
-- Framing: the unpacking loop of handleRead, with fuel above the number of packets, and with the decoder of
--   bodies as a parameter; the packet that sendPacket writes.
-- Connection: sendPacket and handleWrite with the two send buffers, the byte count and the EPOLLOUT flag.
--   Each runs without interruption; the answers of the kernel to `send` are a list. Connection/Threads has the
--   same functions, and addFd, as steps of any number of threads: a section under sendMutex is a step, and so is
--   a call of the kernel.
-- Reading: handleRead, from the answers of `recv`, which are a list, to the thread pool.
-- Snowflake: SnowflakeIdGenerator, with the readings of the clock as arguments.
-- Tasks: ThreadPool.cpp and the queues enqueueDbTask and enqueueRedisTask, as a step relation.
-- Registry: the sharded maps of clients and online users, their snapshots, and handleDisconnect. The hash is a
--   parameter. A weak pointer finds its context until that is destroyed, which the registry records by serial.
--   Registry/Directory is what they promise: two plain maps and the contexts that are destroyed.
-- Pool: v2, with SizeClass of v2/include/Common.h, and PageCache, CentralCache and ThreadCache of v2/src. Each
--   function of a cache runs from start to end; a free list is the list of its blocks. Pool/PageCache/Live is the
--   page cache with the spans that were given out, as a step relation of its callers.
-- Texts: the JSON of chat messages and friend lists, and buildSessionId, with MD5 as a parameter.
-- Database: the functions that ask MySQL. Database/Mysql is what they use of it: a record of what a connection
--   and a prepared statement do. A truncated column ends the rows, as mysql_stmt_fetch documents.
-- Pending: storePendingMessage, ackPendingMessage, fetchPendingMessages, dispatchDueMessagesForUser and
--   retryLoop. Pending/Commands is what they use of Redis: a record of the commands, and laws that state the
--   documented effect of each. Pending/Toy is a store in memory for which the laws hold.
-- Friends: getFriendListJson and invalidateFriendListCache, on the text commands of Redis.
-- Dispatch: processPacket by message type. A closure that it queues is a constructor of Task in Dispatch/State,
--   with what it captures, and Dispatch/Run is what it does when a worker runs it. A call of sendPacket is an
--   entry of the list `sent`; what sendPacket does with it is Connection. Dispatch/Steps is the whole server as a
--   step relation: connections, packets, workers that finish in any order, disconnections, contexts that are
--   destroyed, rounds of the retry loop and of the chat log.
-- Reactor: handleAccept and addFd, with the contexts that accept4 leads to as a list. Reactor/Start is start with
--   initDB and initRedis, from what the system answers to each call; Reactor/Loop is a round of SubReactor::run.
-- ConnectionPool: DBConnectionPool.cpp and RedisConnectionPool.cpp, which do the same. ChatLog: enqueueChatLog
--   and chatLogFlushLoop, with fuel for the batches that is the number of entries; whether the INSERT of a batch is
--   executed, which flushChatLogsBatch does not report, is a parameter, and what it loses is recorded.
-- Tests: the theorems at concrete inputs.
--
-- Not modelled: sockets, the waiting for events and threads, which are the operating system's, and shutdown; Redis and
-- MySQL themselves, which are parameters; the interleaving of two tasks between their queries; the expiry of
-- keys in Redis; metrics, logs, test programs and scripts.
pub mod Base
pub mod Wire
pub mod Decimal
pub mod Proto
pub mod Json
pub mod RecvBuffer
pub mod SendBuffer
pub mod Framing
pub mod Connection
pub mod Reading
pub mod ConnectionPool
pub mod ChatLog
pub mod Snowflake
pub mod Tasks
pub mod Registry
pub mod Pool
pub mod Texts
pub mod Database
pub mod Pending
pub mod Friends
pub mod Dispatch
pub mod Reactor
mod Tests
