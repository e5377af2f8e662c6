-- ===== src/Lib.antt =====
-- RoseDB: a Bitcask key/value store with batches, an ordered index and a watch queue.
--
-- The program keeps every write in an append-only log of chunks and, in memory, an ordered index from
-- a key to the position of its last record. A client changes the database through a batch (batch.go):
-- its methods collect pending records, and Commit encodes them (record.go), appends them and an end
-- record to the log in one write, updates the index (index/btree.go) and puts one event for each
-- record into the watch queue (watch.go). The methods of the database (db.go) are batches of one
-- operation.
--
-- Prelude      Boolean tests, lists, bytes and wrapping int64 over the native numbers.
-- Watch        watch.go: eventQueue, NewWatcher, putEvent, getEvent (Watch.antt); the bounded list
--              that they implement (Watch/Spec), the invariant of the ring (Watch/Ring), one
--              operation and a whole run against the list (Watch/Refine, Watch/Run).
-- Record       record.go: LogRecord, encodeLogRecord, decodeLogRecord, encodeHintRecord,
--              decodeHintRecord, encodeMergeFinRecord (Record.antt) over the variable-length
--              integers of encoding/binary (Record/Varint); Record/RoundTrip and Record/Hint.
-- Errors       errors.go.
-- Index        index/index.go and index/btree.go: the items (Index/Item), the interfaces of the
--              google/btree package and of the index (Index/Api), MemoryBTree (Index/Btree) with its
--              laws as a finite map (Index/Btree/Laws), the iterator newMemoryBTreeIterator, Rewind,
--              Seek, Next (Index/Btree/Iterator) and its walks (Index/Btree/Traverse).
-- Store        db.go (type DB) and batch.go (type Batch): the state of a database and of a batch, lock
--              and unlock; Store/Log is what the engine uses of the package github.com/rosedblabs/wal.
-- Batch        batch.go: Put, PutWithTTL, Delete (Batch.antt), Get, Exist, Expire, TTL, Persist
--              (Batch/Methods), Commit and Rollback (Batch/Commit). Batch/Pending and Batch/Lookup
--              are the invariant of the pending records and their hash map, Batch/Written and
--              Batch/View are what a Get sees of them, Batch/IndexLoop and Batch/Committed the loops
--              of Commit, Batch/Sound, Batch/Replies and Batch/Atomic what a Get reads of the log,
--              and Batch/AllOrNothing the whole of Commit; Batch/Ended is a batch that is ended
--              twice.
-- Database     db.go: Put, PutWithTTL, Get, Delete, Exist, Expire, TTL, Persist (Database.antt) as
--              batches of one operation, and the iterations Ascend to DescendKeysRange and checkValue
--              (Database/Iterate), and DeleteExpiredKeys (Database/Expiry): one pass of it, what Gets
--              see of it, and when it does not end (Expiry/Pass, Quiet, Stuck). Database/Held, Database/Writes and Database/Reads follow an
--              operation from the lock to the unlock; Database/Walk, Database/Scan and Database/Keys
--              are the walks.
-- Recovery     db.go: loadIndexFromWAL (Recovery.antt) over what the log package documents of its
--              reader (Recovery/Reader). Recovery/Replay and Recovery/History run it over the chunks of
--              whole and of torn batches, Recovery/Recovered over a history of them, and
--              Recovery/Segments over the segments of a log; Recovery/Expired is a torn batch whose
--              record has expired.
-- Merge        merge.go: doMerge, positionEquals, loadIndexFromHintFile (Merge.antt) over what it uses
--              of the log besides (Merge/Files). Merge/Rewrite and Merge/Loop are the loop of doMerge,
--              Merge/Hints that of loadIndexFromHintFile, Merge/Survivors the records that a quiet merge
--              keeps, Merge/Replies what a Get reads of them, Merge/Steps and Merge/Kept the whole of
--              doMerge, Merge/Negative a record that it drops. loadMergeFiles and getMergeFinSegmentId
--              (Merge/Startup) work on a file system (Merge/Disk): Merge/Moved, Merge/Replaced and
--              Merge/Opened. Merge/Restarted is loadIndex of db.go, the hint file and then the log.
-- Iterator     iterator.go: NewIterator, Rewind, Seek, Next, Valid, Item, Close, Err, skipToNext
--              (Iterator.antt) over the interface IndexIterator (Index/Api), which the iterator of the
--              index fills (Index/Btree/Walking); Iterator/Prefix is its test of a prefix and
--              Iterator/Walk a walk.
-- Sharding     sharding/consistent_hash.go: New, AddNode, RemoveNode, GetNode, IsEmpty (Sharding.antt);
--              Sharding/Clockwise is GetNode, Sharding/Adding AddNode, Sharding/Removal and
--              Sharding/Leaving RemoveNode; Sharding/Collision is two nodes at one position.
-- Server       server/server.go and server/replication.go: handlePut, handleDelete, handleGet,
--              handleSync, SyncPut, SyncDelete, broadcast (Server.antt) over the database;
--              Server/Serving are single requests, Server/Slave is a list of calls to a slave, and
--              Server/Sending the loop of a goroutine that broadcast starts.
-- Proxy        cmd/proxy/main.go: NewProxy, AddNode, GetNode, GetNodes, the handlers of /get, /put,
--              /delete and /add-node, and migrateData (Proxy.antt) over an HTTP client
--              (Proxy/Network); Proxy/Migration and Proxy/Moving are the migration of one key and of
--              all, Proxy/Joined the route /add-node for a new node, and Proxy/Confined and Proxy/Readded
--              that route for a node that the proxy has.
-- Failover     server/failover.go: StartHeartbeatWorker over the outcomes of its probes, which the HTTP
--              client gives; no other code sets the role while it runs.
-- Tests        the theorems at concrete inputs, over a list for the tree and a list for the log.
--
-- A result `none` of an operation is a panic, or the end of the process where a lock that is not held
-- is unlocked. Machine integers keep their wrap-around: uint64 indices and batch ids, the uint32 sums
-- of the decoder, the int64 sum of the clock and a time to live. The clock is an argument of each
-- operation that reads it.
--
-- Fuel: the loop of PutUvarint has 9 rounds and a last byte, which hold every uint64; the walk with
-- the iterator (`drain`) has as many rounds as its theorem asks for, one more than there are items.
-- The loop of loadIndexFromWAL takes one round for each segment that it skips and for each chunk
-- that it reads, and one more; those of doMerge and of loadIndexFromHintFile one for each chunk and one
-- more; that of loadMergeFiles one for each merged segment and one more; that of DeleteExpiredKeys one
-- for each scan, of which no number need be enough; that of skipToNext one for each item of the index,
-- and one more.
--
-- Not under this repository and so parameters, with what is documented of them as laws: the
-- google/btree tree (`BTree`), the log (`Wal`), the hash function of the Go runtime and the text of
-- a snowflake id (`Env`), the reader of the log (`WalReader`), the other operations of the log that
-- a merge uses (`MergeWal`), what opening the files of a merge answers (`MergeDirectory`), the file
-- system (`FileSystem`), that its Stat and Rename do not fail (`IsReliable`), regexp.Compile,
-- encoding/json on a sync request (`Json`), an HTTP client and the nodes behind it (`HttpClient`,
-- `Nodes`), what http.NewRequest says of an address (an argument of `send`), and what the ring
-- uses of fmt, sort and hash/crc32 (`Helpers`). Nothing is assumed of the hash functions: keys may
-- collide.
--
-- Not modelled: the goroutine and channel of Watch, the pools of records, buffers and batches (a
-- record of the pool has an arbitrary batch id until Commit assigns it: 0 here), opening and
-- closing a database and its files (db.go), Merge, which does so around doMerge (merge.go), the
-- pages of health, keys and administration of the server, the forwarding of requests by the proxy,
-- and the other programs under cmd, examples and benchmark. Handlers and operations run one after
-- the other: a call that would wait for the lock is `none`. Only doMerge runs without the lock: the
-- index that each of its lookups finds is an argument, and its theorem is about a merge while
-- nobody writes. The goroutines that broadcast starts are a list; what one does is `send`. The
-- capacity of the watch queue is one that the allocator can serve: NewWatcher panics else. What a
-- slave of a node holds is no part of `Nodes`.
pub mod Prelude
pub mod Watch
pub mod Record
pub mod Errors
pub mod Index
pub mod Store
pub mod Batch
pub mod Database
pub mod Recovery
pub mod Merge
pub mod Iterator
pub mod Failover
pub mod Sharding
pub mod Server
pub mod Proxy
pub mod Tests
