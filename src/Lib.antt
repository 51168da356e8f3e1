-- ===== src/Lib.antt =====
-- Verification library for the object store of Realm (Realm/ObjectStore).
--
-- The object store is the layer between the storage engine and the language bindings. This library
-- models the parts of it that hold logic of their own; the storage engine (the `realm` core library)
-- is no part of the repository, and what it hands over is an argument of the definitions.
--
-- Base: Boolean tests and size_t arithmetic (64 bits, wrapping), lists, and Base/Search, the
--   std::lower_bound that the code calls, on fuel of the length of the vector plus one, which is
--   proved to be enough.
-- IndexSet: Realm/ObjectStore/index_set.cpp. A vector of ranges; an iterator is the ranges before
--   it and those from it on. Ranges says what set the ranges stand for and when they are in order;
--   Add, InsertAt and AddShifted prove the three insertions.
-- ColumnInfo: BindingContext::ColumnInfo of Realm/ObjectStore/binding_context.hpp and the changes
--   that the link list handlers of Realm/ObjectStore/impl/transact_log_handler.cpp make to one.
--   Removals and Insertions relate its indices to the list; Kinds is about the kind of change.
-- TransactLog: the rest of Realm/ObjectStore/impl/transact_log_handler.cpp. Instr has the
--   instructions of a log; a handler returns an Outcome. Validator is TransactLogValidator, Observer
--   is TransactLogObserver, whose pointer to the active link list is a position and a column, or
--   dangling; Advance has the constructor and advance, begin, commit and cancel. The loop over the
--   log is the core library's, taken to hand over one instruction after the other and to stop at the
--   first that a handler refuses; where there is no log to be read, it calls no handler. Vectors are taken to be shorter than 2^64.
-- Schema: Realm/ObjectStore/schema.cpp, object_schema.cpp and property.hpp. A name is its bytes, and
--   the vector is sorted by insertion. Find is about the lookup, Consistency about validate, and
--   PrimaryKey about the constructor of ObjectSchema from properties.
-- ObjectStore: Realm/ObjectStore/object_store.cpp. verify_object_schema gives back the exceptions and
--   the properties of the target that the source changes in place: Verify says when there are
--   exceptions, Agree what that means for the properties, Columns which columns the properties take. Tables is the interface of the core
--   library's tables: operations, and a record of what is relied on, by which a table is a sequence of
--   columns with their values. Update has the three loops over the columns of one table in
--   create_tables, each a function from a table to a table, and the reading of a class from a table
--   (object_schema.cpp); below it Fates says what becomes of each column, Copy, Optional, Remove and
--   Add are about the loops, Places and Stands about the numbers that the properties get, Result about
--   all of them, and Verified about the comparison of the result with the target. Group is the
--   interface of the group with the tables of metadata, of which PrimaryKeys says that they are a map.
--   Migration has create_tables, verify_schema, needs_update, update_indexes and
--   update_realm_with_schema, as Outcomes; OneClass is about one class in the second
--   pass, Schemas about verify_schema.
-- AsyncQuery: the callbacks of Realm/ObjectStore/impl/async_query.cpp. What callbacks and other
--   threads do while they are called is a list of additions and removals for each call, since every
--   one of them holds m_callback_mutex. Cursor has the loop's position in the vector, Steps a single
--   addition or removal, Delivery the whole of call_callbacks, on fuel that is proved to be enough,
--   and Tokens the tokens. An assertion that fails is a result of its own.
-- Realm: the transactions of Realm/ObjectStore/shared_realm.cpp, over a record of the operations of
--   the core library's SharedGroup and what it documents of its stages. A call returns or throws, with
--   the Realm as it then is. Transactions has the state machine, Stays what no call changes, and
--   Histories the sequences of calls.
--   Update has update_schema, which joins those transactions with the update of ObjectStore; the
--   migration is an argument, a function of the Realm. Guarded is about the write transaction and its
--   guard, Begun about how it begins, Finish says how an update may end, Updating is about the whole.
-- LinkList: Realm/ObjectStore/list.cpp, over a record of the operations of the core library's LinkView
--   and a Realm. Bounds says what each operation does to the rows, or which exception it throws.
-- Coordinator: the asynchronous queries of Realm/ObjectStore/impl/realm_coordinator.cpp, and what it
--   calls of AsyncQuery. A query is its version, whether it is alive and what it is attached to; a
--   version is its number. A step between two locks of the query mutex is a function, `none` where
--   an assertion fails. SwapRemove is about the removal of dead queries, on as many rounds as there
--   are queries, which is proved to be enough; Import about the sort and the import; Pinned has the
--   invariant that the comments on the two shared groups state; Run and History are about one run and
--   any order of steps.
-- Module Results: Realm/ObjectStore/results.cpp, over a record of the operations of the core library's
--   tables, queries and table views, with a Realm for the guards and an AsyncQuery for the callbacks.
--   A call returns or throws, with the Results as they then are. Aggregates and Changes have the
--   operations besides the reads. Answers has the rows that Results stand for and, below it, what
--   each read says of them; Clearing is about clear, Updates and Uses about the wish for updates in the
--   background.
-- RealmCache: get_realm and unregister_realm of Realm/ObjectStore/impl/realm_coordinator.cpp, with the
--   settings of a Realm::Config that they compare and a key for each Realm. Again is about the
--   cache, Unregister about unregister_realm, on as many rounds as there are entries.
-- Tests: the theorems at concrete inputs, and runs of the definitions.
--
-- Not modelled: the opening of a file by a Realm, what a migration does to the Realm besides its group
-- and schema, the clearing of the cache, and the handover of query results between threads.
--
-- Not modelled: the language bindings (Objective-C and Swift), the operating system's notification
-- of commits, and the core library.
pub mod Base
pub mod IndexSet
pub mod ColumnInfo
pub mod TransactLog
pub mod Schema
pub mod ObjectStore
pub mod AsyncQuery
pub mod Realm
pub mod LinkList
pub mod Coordinator
pub mod Results
pub mod RealmCache
pub mod Tests
