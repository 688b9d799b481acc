-- ===== src/Lib.antt =====
-- The exchange of 4_order_book_proj, its messages, block allocator, matching engine, queue and network
-- devices, the two books that the engine was measured against, and the allocators of the exercises
-- before it.
--
-- Clients send OUCH requests over the network; the network device puts them on a queue, the engine
-- takes them off, matches them against its book, and puts the responses on a second queue.
--
-- Shared holds tests, lists, machine words, results and maps. An operation that can go wrong returns
-- an Outcome: `ok`, `fault` for what C++ leaves undefined (a null pointer, a freed block, an index
-- out of range, an unreachable line), `thrown` for an exception, `stuck` for a loop out of fuel.
-- Words keep their wrap-around: `add64`, `sub64`, `sub32`.
--
-- Messages (4_order_book_proj/src/messages.hpp, message.cpp): Bytes is `namespace detail`, on lists of
-- bytes; each view and each builder has a module of its own, one function per accessor and setter;
-- RoundTrip puts the fields of a message together, Decode is `decode`, and Codec is all six kinds.
--
-- Allocator (4_order_book_proj/src/allocator.hpp): slots that hold a link of the free list or a value.
-- A pointer is the index of a slot. FreeList and Pool say what a valid pool is.
--
-- Engine (4_order_book_proj/src/engine.hpp): State is the data, OrderList is `unlink` and `append_list`
-- on the heap of blocks, Send the outgoing messages, Match the insertion of orders, Cancel is
-- `cancel_order`, Process is `process` and `run`. OrderList/Chain says which list of orders a level
-- stands for, Memory that all levels and the free list share the heap, Sides what the counters and
-- the best indices mean, Listed what the map of keys means, and Invariant puts these together. Fills is
-- matching by price and time on the lists of resting orders; Invariant/Loops sets the loops beside it,
-- and Invariant/Insert a whole insertion.
-- The queues are the lists of what was dequeued and enqueued. `clock_gettime` and whether `mmap`
-- succeeds are parameters.
--
-- Fuel: `scan_up` has one round for each level and `scan_down` one for each level below its start; a
-- matching loop has two rounds more than there are orders to match, and each round but the last
-- takes one of them out of the book.
--
-- VectorBook (4_order_book_proj/data_structure_bench/sorted_vector_str.cpp, base.hpp): the book of two
-- sorted vectors that the engine was measured against. Its loops have fuel for one round per order.
--
-- ListBook (4_order_book_proj/data_structure_bench/list_str.cpp, base.hpp): the book of two linked
-- lists on a heap. Chain and Links say which orders the links stand for, Sides adds the index, Leave
-- the orders that go; Priority is the order of the orders, and Agree, Loops, Calls, Erase, Answers,
-- Market and Run set it beside the vector book. Its fuel is a parameter: more than the calls made is
-- enough.
--
-- Queues (4_order_book_proj/src/queues.hpp, queues_impl.hpp): Slots is the ring of cells, Spsc is
-- `spsc_queue` as the steps of its two threads, one for each access of a cell or of an index, in any
-- order. The invariant says which values are in the ring and which sequence number each cell has.
--
-- Network (4_order_book_proj/src/network_device.hpp): Sockets is what both devices share, Uring the device
-- on io_uring, and Epoll the device on epoll. The system calls and liburing are outside: what they
-- return is an argument, and what they are asked is a list of calls. Uring/Completion is `receive_msg`.
-- Uring/World sets the device beside the kernel and the two threads, a step for each section under
-- the lock; Lists, Buffers, Leave, Receive and Run keep its invariant. Asked, Requests and Calls set
-- the requests in flight beside the calls that were made, and Safety is what follows.
-- Sends is two responses for one account, and Replies the way of a response from the engine.
-- Epoll/Watch is the descriptors that are watched.
--
-- Arenas (1_mem_allocator/bump_allocator, 1_mem_allocator/implicit_free_list,
-- 1_mem_allocator/implicit_free_list-improved and 2_cpp_basics/0_bump_allocator): Bump and Arena hand
-- out the next piece of a buffer, ImplicitList looks for a free block from header to header, MetaList
-- from entry to entry of a region beside the blocks. Pointers are numbers below 2 ^ 64, and `mmap` is a
-- parameter. The search has a round for every 16 bytes of the list, or for every entry.
--
-- Not modelled: `mpsc_queue`, `main`, the tick offset book, the allocators that coalesce or keep an
-- explicit free list, the destructors, the exercises on threads and networks, and the benchmarks and
-- measurements.
pub mod Messages
pub mod Network
pub mod Allocator
pub mod Engine
pub mod Shared
pub mod VectorBook
pub mod ListBook
pub mod Queues
pub mod Arenas
