-- ===== src/Lib.antt =====
-- KVCache-Raft is a replicated key-value store: each server runs a Raft node (src/raft/raft.cc,
-- include/raft/raft.h) over a disk writer (src/persist/Persister.cc, include/persist/Persister.h) and
-- hands committed commands to the key-value server (src/kvserver/KvServer.cc) through a queue. The
-- nodes talk by the RPCs of proto/raftRPC.proto. This library models the Raft node, what it keeps on
-- disk, a cluster of nodes as far as elections go, the key-value server over its store, the skip list
-- that is the store, the frames and pending calls of the remote calls, and the client.
--
-- Files:
--   Common      names of the libraries passed on, Boolean tests, lists measured by native numbers,
--               and Outcome: what a C++ handler ends in, a value or a fault (a failed assert, a
--               vector read out of bounds, a call of exit, or, in a model, the end of its fuel)
--   Counting    sums over the peers
--   Proto       the messages of proto/raftRPC.proto, and ApplyMsg of include/common/ApplyMsg.h
--   Persister   NodeSnapshot, the snapshot file and the write-ahead log; Save, CompactWal and
--               (Persister/Replay) ReadPersistedLogs
--   Raft        the node. Types: the fields of the class raft and its readers of the log. Saving:
--               persistState, init. Election: doElection, RequestVote, handleRequestVoteResponse.
--               Append: AppendEntries. Replication: doHeartBeat, handleAppendEntries,
--               advanceCommitIndex. Snapshots: leaderSendSnapShot, leaderSendSnapShotHandler,
--               InstallSnapshot, Snapshot. Commands: Start, onLogStable, applierTicker, copyLogs.
--               Invariant, Matching, Terms, Heartbeat, Stable and Restart hold the theorems
--   Cluster     nodes and the vote requests between them, as a step relation
--   KvServer    the server. Types: its fields and maps. Apply: GetCommandFromRaft, the execution of a
--               command, snapshots. Calls: PutAppend and Get, each up to timeOutPop and from its
--               result on. Interfaces: the store (include/common/skipList.h) by its operations and
--               what the server relies on, and the boost archives. Refinement, Retries and Reads
--               hold the theorems
--   SkipList    include/common/skipList.h. Types: the nodes in a memory of addresses. Ops: the operations.
--               Order, Strings: the keys. Cells, Relink, Path, Writes, Rewiring, Unlinking, Allocate,
--               Free, Insert, Delete: the lemmas, from one pointer to one operation. Rep, Entries: the
--               list of elements that a skip list stands for. Search, AsMap, Load, Destroy and Store
--               hold the theorems, and Store fills the interface of KvServer/Interfaces
--   LockQueue   the queue of include/common/LockQueue.h
--   Clerk       the client, src/clerk/clerk.cc: Get, PutAppend and their loop. Retry and Get hold the theorems
--   Rpc         Varint: the length in front of a frame (include/rpc). Provider: OnMessage of
--               src/rpc/rpcprovider.cc. Socket and Pending: the reading of frames and the tables of calls
--               of src/rpc/MrpcchannelMultiReq.cc. Frames, Stream, RoundTrip, Arrival, Tables
--               and Answers hold
--               the theorems
--   Tests       concrete runs
--
-- Correspondence. A handler is a function from the node's state to the new state and the reply; what
-- the source holds the lock for is one function, and where a handler drops the lock in between
-- (AppendEntries, applierTicker) it is two, so that other handlers can come between. persistState
-- stands where the source calls it or where the DeferClass object that calls it goes out of scope; in
-- doElection this is after the lock is dropped and the requests are handed over, and is taken into the
-- same step. The time is an argument. Messages leave a handler as part of its result. The int
-- and int32 fields are natural numbers: they are counters that start at 0, and signed overflow, which
-- is undefined in C++, is not modelled; the sentinels -1 and -100 are `none`. The uint32 fields of
-- NodeSnapshot wrap, % 2 ^ 32. m_lastLogIndex and m_lastLogTerm are caches that are written before
-- they are read, and are left out, as are m_voteState, which nothing reads, the condition variables,
-- and the fields pid, ip and port. Vector accesses at a negative or too large offset are the
-- fault out_of_bounds. Loops are structural recursion on a list or on the number of rounds, except for
-- the client's loop, which never ends if no server answers and runs on a number of attempts, OnMessage,
-- below, and the walks along the pointers of the skip list, which run on fuel: one more than the number
-- of elements, which is enough since no walk meets an element twice.
--
-- The write-ahead log is the list of the records that ReadWalSegment finds valid, over all segments in
-- order; the segment files, the checksum field, the writer thread and the byte layout are not
-- modelled, and writes of CompactWal and of the snapshot are taken to succeed. Whether a batch of log
-- entries reaches the disk is an argument (`stable`, `written`).
--
-- The cluster has the calls of RequestVote as messages with a life: unsent, sent, answered, counted or
-- closed; every other message that a node handles is arbitrary. Nodes do not crash and restart in it.
--
-- The bytes of a connection are numbers below 256. OnMessage is a function of the buffer, whose loop runs
-- on fuel, one more than the number of bytes, which is enough since each round takes some off; what it leaves in the buffer is there for the next call,
-- also after conn->shutdown(), which closes only the writing side. What
-- recv() gives is a list of events. The writer of protobuf's CodedOutputStream is a parameter, of which
-- the theorems assume that it writes a number in groups of seven bits as appendVarint32 does; parsing
-- and serializing by the generated code are parameters without laws. Request ids wrap, % 2 ^ 64.
--
-- The server takes its store as a parameter, a record of operations and the two laws that it relies on,
-- and the skip list fills it. A node of the skip list is a record at an address; reading through a null
-- pointer, through a freed node or beyond the end of `forward` is the fault out_of_bounds. What rand()
-- will give is an argument, as a number of levels for each insertion. Each operation is one step: the
-- server calls them under its own lock. The archives are parameters without laws: a
-- theorem that reads a command names the operation that its text stands for. GetRaftStateSize is an
-- argument, and a message that is no archive, at which boost throws, gives `none`.
--
-- Not modelled: the client's configuration and its channel (src/rpc/mrpcchannel.cc), the sending of
-- frames and responses and the reconnecting, the timers' sleeping times, the generated protobuf code,
-- and the thread pool and coroutine libraries.
pub mod Common
pub mod Counting
pub mod Proto
pub mod Persister
pub mod Raft
pub mod Cluster
pub mod KvServer
pub mod LockQueue
pub mod Clerk
pub mod Rpc
pub mod SkipList
pub mod Tests
