-- ===== src/Lib.antt =====
-- A model of the library wseternal/helper, and the theorems about it. The library is a set of Go
-- packages that stand side by side: a state machine with timed actions, byte streams through
-- filters, a queue that is flushed by count or by a ticker, counters over periods, a typed map,
-- calls of web services with retries, a download manager, key value stores, JSON values, statements
-- of SQL, a migration of a table into Redis, a logger, preferences, and small helpers. iohelper,
-- dlmgr and HttpAPI call each other's and the root package's functions, sqlimpl takes objects of
-- fastjson, boltdb and rocksdb implement the interface of kvdb, and the migration runs on sqlimpl;
-- the others are on their own.
--
-- The files, with the code that each is about:
--   StateMachine and its children: StateMachine/sm.go. `SmObject` is SMObject with a heap of state
--     objects, the two channels, the timers as due times and the log of handler calls.
--     on_state_message and on_add_action_message are onStateMessage and onAddActionMessage,
--     handle_message and fire_action the two cases of stateLoop. StateMachine/Loop is the step
--     relation of the loop, its callers and the timers; Monitor and Invariant are what is meant by
--     a sound history and a valid machine, Preserve and Reachable the proof that steps keep them;
--     Callers is SetState and AddAction; Actions and Adding describe the two message handlers;
--     Stopping is the protocol of ClearActions against ActionThread, with its lock and its
--     unbuffered channel. In Loop, a step in which the program would wait for good goes on.
--   IoHelper/Filter, Source, Sink and Pump: iohelper/filter/filter.go, iohelper/source/source.go,
--     iohelper/sink/sink.go and iohelper/pump/pump.go, under the names of the code in snake case.
--     Stream and Fresh have the shape of a pump over a source that is cut into reads; Copy, Hashing
--     and Stuck are what comes out of it without a filter, with each filter, and with a failing
--     reader.
--   IoHelper/Files and Download: HashsumFromFile, ValidFileSum, CopyFile and HttpDownload of
--     iohelper/iohelper.go, over the pump.
--   Queue and its children: queue/queue.go. Each critical section of the lock is one step, of which
--     StartFlushThread has two; Conservation and Bounds are about sequences of them, Stopping is
--     about the lock and channels of StopFlushThread and flushThread.
--   Stats and its children: stats/stats.go. Extremes is about Reset, Periods about the message
--     handler, Terms about NewCounter and AddTerm.
--   SyncMap and its children: syncmap/syncmap.go, with the abstract map in Refines.
--   StructType and StructType/Depth: ValidStructType of helper.go.
--   HttpApi/Context, Api and Registry: HttpAPI/context.go and HttpAPI/api.go; Attempt and Ongoing
--     are about OnGoingAPIs, Retries about the loop of Do.
--   DlMgr and its children: dlmgr/dlmgr.go, Order and Cancelling are about the path of a download
--     from the channel to its callback, Get about the body of get, over the pump.
--   Codec and its children: Process of the filters of codec/aescbc.go and codec/aescfb.go;
--     Streaming is about CFB, Padding about CBC.
--   Keys and its children: NextKey of bytes.go and CompactString of helper.go.
--   KvDb and its children: kvdb/kvdb.go, boltdb/kvdb.go and boltdb/boltdb.go. KeyValueImpl is the
--     interface, Bolt its implementation over bolt, which is a record of operations; Ranges,
--     Refines and Numbers say what bolt promises and what Range, Put, Delete, Get, PutInt64 and
--     GetInt64 then do. Order is bytes.Compare, Decimal is strconv, Memory a bolt in memory.
--   Rocks and its children: rocksdb/kvdb.go and the ranges of rocksdb/rocksdb.go over RocksDB, also
--     a record of operations. Ranges and Limits are about RangeForeach, and its agreement with
--     boltdb, Hijack about GenHijackTsInKeyByIndex, ByTime about RangeForeachByTS, Delete and Get about
--     DeleteRange and GetRange; Memory is a RocksDB in memory.
--   Preferences and Preferences/Latest: iohelper/shared_preference.go.
--   Logger and Logger/Safe: logger/logger.go; what a logger writes is a value.
--   FastJson and FastJson/Object: fastjson/json.go, fastjson/object.go and fastjson/array.go.
--   Sql and its children: sqlimpl/sqlimpl.go and sqlimpl/structscan.go. The calls of database/sql
--     are commands in a history, which a record answers. Bindings is about Insert and Update,
--     Tables about InitTables, Rows is FetchAll and FetchOne, Scan is StructScan and StructScanOne.
--   Migration and its children: redisw/cmd/migrate.go and redisw/cmd/scale.go. Order is about the
--     rows after an id, Advance and Outlasts about when the loop of main ends.
--   Base and its children: what the others share, which stands for Go itself. Go's maps are
--     association lists with one entry for a key (Base/Dict), int is an integer, int64 wraps where
--     counters are added up (Base/Int64).
-- The Tests modules apply the theorems to concrete inputs.
--
-- Bounds and fuel. pump.All and API.Do are loops on fuel whose end is `none`. The theorems about
-- them that promise a result give the fuel: All needs a round for each read of its source, and Do
-- one more than the retry count. The loops over a cursor and the loop of the migration need more
-- fuel than there are entries or rows, and RangeForeachByTS as much for each of its two loops.
-- HttpApi.Api counts attempts without the wrap at 2 ^ 63. The state machine's, the queue's and the
-- download manager's goroutines are steps in any order, so they need no fuel.
--
-- What is outside: readers, writers, the disk, the network, hashes, the clock and the callbacks are
-- parameters or lists of their outcomes. `HashLaws` (Hashing) is what a hash.Hash promises, and
-- `Cutting` (Files) that an *os.File returns its bytes in some pieces and then io.EOF; `StreamLaws`
-- and `BlockLaws` (Codec) say that a cipher goes on where it stopped. All have instances in the
-- Tests modules. `ReadLaws`, `WriteLaws`, `CursorLaws` and `DeleteLaws` say what bolt and RocksDB
-- document of buckets, transactions and cursors; KvDb/Memory and Rocks/Memory meet them. A response
-- check must keep the identifier of the request for do_api-Absent, as one that does not touch the
-- context does.
--
-- What is not modelled: logging and debug output; the packages that only call a library or the
-- system (conf, sys, lbs, jsonrpc), the encoders and the choice of keys of codec, the text and the
-- parsing of fastjson; in the modelled packages the parts of iohelper/iohelper.go that run a shell
-- or write with a rate, DoAPI and the request forms of HttpAPI, ConnectDB and GetTable of sqlimpl,
-- and what rocksdb does beside ranges: opening, backups, properties, its server and its command. A
-- nil callback of a range, maps that two objects share, and a negative field index are left out.
pub mod Base
pub mod Codec
pub mod DlMgr
pub mod FastJson
pub mod HttpApi
pub mod IoHelper
pub mod Keys
pub mod KvDb
pub mod Logger
pub mod Migration
pub mod Preferences
pub mod Queue
pub mod Rocks
pub mod Sql
pub mod StateMachine
pub mod Stats
pub mod StructType
pub mod SyncMap
