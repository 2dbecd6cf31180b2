-- ===== src/Lib.antt =====
-- A verification library of this repository: the low-latency components under HFT, a C++20 library
-- for feed handling and order books.
--
-- Parts and how they interact. An order book (HFT/OrderBook.hpp) keeps its orders in a map from
-- order ids to pointers (HFT/HashMap.hpp), and two arrays of price levels with the index of the
-- best level of each side. Messages pass between threads through queues (HFT/Queue.hpp), and are
-- taken from and given back to pools (HFT/MemoryPool.hpp). The ticker server sends trades, and the
-- receiver queues what arrives in sequence and requests what is missing (HFT/TickerServer).
--
-- Files.
--   Common and below: the library's names passed on; tests and lists over the native numbers, the
--     C++ `int` as ℤ with `fits_int`, results with exceptions and undefined behaviour, masks and
--     powers of two.
--   Queue and below: HFT/Queue.hpp. Fifo is the contract of Queue<Q>; Ring is the masked storage;
--     Spsc is CustomSPSCLockFreeQueue, `new`, `enqueue` and `dequeue` being its constructor and
--     methods; Spsc/Refine relates it to the FIFO; Spsc/Threads cuts the two methods into the
--     steps that their atomics make visible (`produce`, `consume`), Claims and Race are about
--     their interleavings. Mpmc is CustomMPMCLockFreeQueue, whose loops run on a list that says in
--     which rounds the weak exchange fails without a reason; its calls run one after the other.
--     Locked is LockedQueue, whose threads take turns with the mutex.
--   HashMap and below: HFT/HashMap.hpp. Key is what the maps use of a key; Contract is the concept
--     MyHM with laws, a record that the order book takes as a parameter; Chaining is
--     ChainingHashMap, which fills it. A pointer or reference to a value is modelled by its key:
--     `read_at` and `assign_at` are operator[] on the right and the left of an assignment. Fixed
--     is FixedSizedChainingHashMap, whose Nodes is about the nodes of its pool. Open is
--     OpenAddressingHashMap: Probe has its slots and loops, with the walk of a search in Walk, the
--     effect of the writes in Writes and Lookup, the count of the elements in Room and Occurs;
--     Rehash is about reHash, Ready about the map that `insert` writes to behind its load test,
--     Inserts about `insert` and `erase`. operator[] is `slot_of`, the index
--     of the value. The load test in float is the record Load. Table, FixedTable and
--     OpenTable are the classes of c++20/HashTables.cpp, the files Agrees comparing the last two with
--     the maps above.
--   Pool and below: HFT/MemoryPool.hpp, a message being its index in the pool. Contract is the
--     concept MyPool with what a pool promises about its free messages, Owners is about who holds
--     them in any such pool. Locked is CustomLockedPool, LockFree is CustomLockFreePool, Tagged is
--     LockFreeThreadSafePool; `new`, `allocate` and `deallocate` are their constructors and
--     methods, for any number of messages, and their Owners fill the contract. In the two
--     lock-free pools a call runs with no other between its load and its compare_exchange;
--     LockFree/Race cuts `allocate` into its load and its exchange. BoostPool and
--     FollyIndexedMemPool forward to libraries and are left out.
--   Feed and below: HFT/ITCHMessages.hpp and HFT/TickerServer. Store is TradeMsgStore and the sending
--     loops of ITCHTickerServer.cpp, Sequencer is TradeDataSequencer, its recovery manager and the
--     loop of the multicast receiver of ITCHTradeReceiver.cpp, where what the network does is a
--     list of events, that of the recovery server its answer to the request, and a pointer to a
--     message is the message. Sequencer/Order and Gaps are about
--     the order of what is sent on, Replayed joins the receiver to the server, Faults has the
--     cases in which the order is lost.
--   OrderBook and below: HFT/OrderBook.hpp. `insert`, `update`, `cancel`, `best_bid` and
--     `best_ask` are the methods, with `update_price_level` and its two loops `scan_down` and
--     `scan_up`; the template parameter RequireStorage is an argument. Orders live in a memory of
--     addresses, which the caller and the pool share. Live is the specification, the list of the
--     resting orders; Levels, Tops and Sides are about one side of the book; Refine relates the
--     book to the list, with one file for each operation.
--   Study and below: Study/vector.cpp and weak_ptr_impl.cpp. Vector is zam::vector, Contents relates
--     its slots to the list of the elements, Methods and Copies are about the methods; an argument
--     of `push_back` may refer into the vector (Argument). SharedPtr has
--     SharedPtr and WeakPtr: Program runs their calls on variables, Cells, Counts and Releases are
--     about the control blocks, Uses and Sound about the variables. The destructor of the object is
--     taken to touch no pointer.
--   Leet and below: Tree is the class BST of Leet/leet1382_bst.cpp, with `balance` for
--     `__balance`; Search is about `insert`, Balance about `balance_tree`. Addition has
--     `addTwoNumbers` of Solution and (`add_two_numbers_in_loop`) of Solution2 of Leet/leetx.cpp.
--   Mock and below: c++20/MockOrderBook.cpp (Pooled) and MockOrderBook_ZeroCopy.cpp (ZeroCopy), two
--     earlier order books whose class is called OrderBook. Pooled/Storage is about the pool of
--     orders, ZeroCopy/Best about the best levels.
--
-- Bounds. `size_t` arithmetic is written modulo 2^64; `int` arithmetic that leaves the range of a
-- 32-bit int is undefined, and so is an access outside an array. The loops over price levels recur
-- on the levels left, and the sending loops on the increments that an `int` has left, so that no
-- fuel is needed; `balance` has the number of the nodes as its fuel, and the two additions have as
-- their fuel the lengths of both lists and 12, since a carry has at most ten digits. A sum in them
-- that no `int` can hold is undefined, and `balance_tree` casts the number of the nodes to
-- `int`. The loops of the open-addressing map have the number of the slots as their fuel, and its `insert`, which reHash calls, a depth of two calls.
--
-- Not modelled. `double` is a parameter of the order books (the record Prices), since the language
-- has no floating-point numbers; `std::hash` and `std::unordered_map` are parameters. Memory orders
-- weaker than sequential consistency are not modelled. Of the files above, the
-- interleaved steps of the MPMC queue and OrderBook::print, which writes to a stream, are left out, and
-- so are the other programs under c++20, Leet and Study. Sockets, logging, the vendored moodycamel
-- queue and the wrappers of Boost, Folly and Abseil are I/O or calls of libraries.
pub mod Common
pub mod Queue
pub mod Feed
pub mod HashMap
pub mod Pool
pub mod OrderBook
pub mod Study
pub mod Leet
pub mod Mock
