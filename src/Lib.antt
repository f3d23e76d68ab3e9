-- ===== src/Lib.antt =====
-- KafScale: the broker, from its request handlers to its storage engine and its group coordinator
--
-- KafScale is a broker for the Kafka protocol that keeps no data of its own: the record batches
-- that producers send are buffered per partition, written as immutable segments to an object store
-- and read back from there through a cache. Groups of consumers are coordinated by the broker, which
-- persists their state in the metadata store. The model has seven parts, one folder each.
--
-- Cache (pkg/cache/segment_cache.go): the cache of segments, least recently used out first. The
--   list of the source is a list, front first; the map from keys to its elements is a search by key.
--   get_segment, set_segment and evict_if_needed are GetSegment, SetSegment and evictIfNeeded.
--
-- Storage (pkg/storage): what a partition writes and reads.
--   Types (types.go), RecordBatch (recordbatch.go), Index (index.go), Segment (segment.go) and
--   Buffer (buffer.go) hold one file of the source each. S3 is the interface of the object store
--   (s3client.go) as a record of operations on a state, with the client in memory (s3_memory.go) as
--   an instance. Log (log.go) is the partition log: append_batch, flush and flush_locked are
--   AppendBatch, Flush and flushLocked; Log/Reads has Read, the slicing of segments and the goroutines
--   of startPrefetch as steps; Log/Restore has RestoreFromS3; Lookup has computeSegmentRange and
--   findIndexEntry. Log/Restore/Recorded is about the bytes of a batch in the objects behind the log's
--   segments, Log/Restore/Survival about those behind a restored log's.
--
-- Group (pkg/broker/coordinator.go): consumer groups. State has the methods of groupState, Assign
--   the assignment of partitions, Persist the stored form of a group, Wire the bytes of the consumer
--   protocol. Coordinator has the handlers SyncGroup, Heartbeat, LeaveGroup and the cleanup, its
--   children Join, Offsets and Admin have JoinGroup, OffsetCommit and, in Admin, OffsetFetch,
--   DescribeGroups, ListGroups and DeleteGroups. The metadata store is a parameter, a record of the
--   operations that the coordinator calls.
--
-- Metadata (pkg/metadata/store.go, topicid.go): InMemoryStore, method by method. Memory has the
--   topics, its children Topics, Offsets and Groups the rest; memory_store in Groups is the store as
--   the coordinator is given it. Steps has a call as a relation between stores. SHA-1, from which
--   topic ids are cut, is a parameter.
--
-- Health (pkg/broker/s3_health.go): the monitor of the object store. record_operation, snapshot and
--   refresh are RecordOperation, Snapshot and State.
--
-- Broker (cmd/broker/main.go, pkg/broker/server.go): the handlers of requests, which join the other
--   parts, and the loop that serves a connection. Types has the
--   handler with its settings and its state, the metadata store as a record of the operations that
--   are called, and observe, the object store whose calls recordS3Op reports to the monitor. Handle
--   is the switch over the requests; Produce, Fetch with Wait, Offsets, Topics, Partitions, Configs
--   and Cluster have the handlers behind it, Groups the responses made of the coordinator's answers.
--   Logs has getPartitionLog with ensureTopic. Memory is InMemoryStore as the handlers are given it.
--   The other files are about these: Opening about getPartitionLog, Waiting about waitForFetchData,
--   Monitored about the log under observe, Durable about an acknowledged batch after a restart. Server
--   has handleConnection, Connection and Ending are about it, with Protocol/Received.
--
-- Protocol (pkg/protocol): the Kafka protocol as the broker reads it. Reader and Writer are
--   byteReader and byteWriter of encoding.go: a reader takes the bytes from its position on and
--   returns what it leaves. Frame is frame.go. Request is ParseRequest of request.go, with one
--   function for each case of its switch: Data has Produce, Fetch and ListOffsets, Topics, Groups and
--   Configs the others. Response has the encoders of response.go, put together from the pieces in
--   Output; Response/Correlation names all of them in one data type.
--
-- Base holds what these share: integers of a given width, big-endian bytes, maps, sorting, text. A
-- file below one of these parts is about the definitions of its parent. Tests runs the definitions.
--
-- How the code is read
--   An operation takes the state and returns the new one with its answer. The locks of the cache, the
--   buffer, the log and the coordinator are held across an operation, so an operation is one step.
--   Three operations are one step here though their lock is not held across them: Read holds the lock of
--   the log only while it looks for the segment, OffsetCommit releases the coordinator's before it commits
--   the offsets, and DeleteGroups holds it only in deleteGroupState.
--   Times are numbers of nanoseconds passed in as `now`, random numbers are arguments, and metrics,
--   traces and, but for the end of a fetch, contexts are left out. The errors of the storage package are values without their
--   text; a panic of the Go runtime is an error value of its own. Where such a panic arises in pkg/storage
--   (the slicing of a segment, make in ParseIndex), Produce and Fetch answer here with an error, while the
--   Go process would end. Integers wrap to their width where
--   the source computes with them. A number of ours stands for a length and for a duration, none of
--   which is negative. Go visits a map in any order: the object store in memory carries the order of the
--   visit as a function, of which only is asked that it gives the same entries (Base/Shuffle); the other
--   maps are visited in the order of their entries.
--   A request is handled in one step, but for a fetch: between the sleeps of waitForFetchData the state
--   may change, so each sleep comes with the time and the handler's state after it.
--
-- Bounds and fuel
--   Loops over lists are structural. evict_loop runs on as much fuel as there are entries, each round
--   dropping one. search_loop has one round more than there are entries, and each round shortens the
--   interval. count_loop passes at least 13 bytes in a round, parse_topics at least 2, and each has as
--   much fuel as there are bytes. skip_tags passes at least two bytes in a round and has as much fuel as
--   there are bytes; uvarint reads ten bytes at most. get_partition_log takes a number of rounds, since
--   the loop of getPartitionLog need not end; where it does, two are enough. wait_loop sleeps once for
--   each of the wakes it is given, and handle_connection reads as many frames as it is told to; one more
--   than the connection has bytes are enough. They return none when they are not done, and so do their
--   callers.
--
-- Not modelled
--   ListConsumerOffsets, the etcd store and the keys of codec.go. Of cmd/broker the reading of the
--   environment, the checks at the start, the metrics and the control server, which set the handler up
--   or look at it. The operator, the proxy, the console, the MCP server and the processors are separate
--   programs around the broker. Network connections, the AWS and etcd clients and generated code are
--   outside of what a model of this kind can say anything about.
pub mod Base
pub mod Broker
pub mod Cache
pub mod Storage
pub mod Group
pub mod Health
pub mod Metadata
pub mod Protocol
pub mod Tests
