-- ===== src/Lib.antt =====
-- Verification of Helens, a C++ framework for network servers.
--
-- The parts of the program that are modelled, and where:
--
-- * Helens/bytearray.cc, a chain of memory blocks that is written and read at a position.
--   ByteArray.antt has the array as a record with m_baseSize, m_position, m_capacity, m_size and
--   m_endian; the list of nodes from m_root is `before ++ here`, and m_cur is the first of `here`.
--   Its methods run in a small monad whose outcomes are a result, std::out_of_range, and a read
--   through a null m_cur. `gather` and `scatter` are the loops of read and write, `add_capacity` is
--   addCapacity. A Machine holds what the code is built on: HELENS_BYTE_ORDER and what stands in a
--   block that new returns. ByteArray/Valid has the invariant, the other files below ByteArray what
--   the loops and the methods do; ByteArray/Stream says what a codec takes from an array.
-- * The codecs of Helens/bytearray.cc and endian.h. Codec.antt has the integers of fixed width in
--   both byte orders, the zigzag codes, the varints of readUint32 and readUint64 and the strings,
--   all of them composed of `read` and `write` of the byte array. Values are bit patterns below 256
--   ^ w.
-- * Helens/ds/lru_cache.h and cache_status.h. Cache/Lru has LruCache: m_keys as a list with the
--   most recent entry first, beside the keys of m_cache. Cache/HashLru has HashLruCache, which runs
--   the operations of Cache/Lru in the shard of a key; the hash is a parameter.
-- * Helens/ds/timed_cache.h. Cache/Timed has TimedCache: m_timed as a list in the order of the
--   items, and m_cache with the time stamp by which its iterator's item is found in that list.
-- * Helens/timer.cc. Timer.antt has the timers as a sorted list in the order of Timer::Comparator,
--   and every method of Timer and TimerManager; the clock's reading is an argument. Timer/Reached
--   has the calls as a step relation (Timer/Distinct is about addresses), Timer/Laws is about single
--   calls, Timer/Due and Timer/Expire are about listExpiredCb.
-- * Helens/stream.cc. Stream.antt has readFixSize and writeFixSize over a connection that moves at
--   most `piece n` of `n` bytes in one call of read or write, which are virtual.
-- * Helens/http/ws_session.cc. WebSocket.antt has the frames of the WebSocket protocol, as
--   WSSendMessage and WSRecvMessage write and read them with the functions of Stream.antt.
-- * Helens/http/servlet.cc. Servlet.antt has ServletDispatch; fnmatch is a parameter.
-- * Helens/ns/ns_protocol.cc. NameServer has the nodes, NSNodeSet (Nodes), NSDomain (Commands) and
--   NSDomainSet (Domains). A set is reached through the one map that holds it.
-- * Helens/streams/load_balance.cc. LoadBalance.antt has the items of a balancer, the round robin
--   and the weighted choice. What isValid and getWeight answer are parameters of each call.
--
-- * Helens/fiber.cc and scheduler.cc. Fiber.antt has the states of a fiber. Scheduler.antt has the
--   queue and the loop of Scheduler::run, cut at its accesses to what threads share;
--   Scheduler/Steps has the steps of any number of threads, of their fibers and of callers from
--   outside as a relation. The files below it keep one invariant through all steps (Share is its
--   part for one fiber), and Safety draws the conclusions.
-- * Helens/iomanager.cc. Epoll.antt has the events and epoll_ctl, FdContext.antt the context of a
--   file descriptor, IoManager.antt the table of contexts and its operations, IoManager/Poll the
--   body of idle, IoManager/Race two calls of addEvent at once. IoManager/Views says which table of waiting tasks the contexts, the count of
--   pending events and epoll show; the theorems are about that table. A triggered task goes into
--   `scheduled`, which stands for the queues of Scheduler.antt.
-- * Helens/mutex.cc. FiberSemaphore.antt has the semaphore on which fibers wait; FiberSemaphore/Order
--   runs sequences of its calls.
-- * Helens/streams/async_socket_stream.cc. AsyncStream.antt has AsyncSocketStream: the contexts of
--   requests in a heap, m_ctxs as a list by sequence number, m_queue, the two semaphores, and as
--   lists what has been given to schedulers and which timers have been cancelled. AsyncStream/Answers
--   has doRsp as steps of any number of threads, AsyncStream/Wakeup the steps of enqueue,
--   innerClose and doWrite; Closing and Responses are about innerClose, responses and time-outs.
--   AsyncStream/Manager has AsyncSocketStreamManager, whose streams are ids. What doRecv returns and
--   whether doSend succeeds are arguments.
-- * Helens/ds/bitmap.cc. Bitmap.antt has a bitmap that is not compressed, in words of 16 bits;
--   Bitmap/Bits reads words bit by bit, Laws is about set, Growing about resize. Bitmap/Compressed has
--   compress, uncompress and the operators: `pieces` is the loop over the runs of a compressed bitmap
--   that uncompress, &= and |= share, and a Handler what each of them does with a run and a word.
--   Below it Decoding and Writing read back what compress writes, Operators says what a Handler does
--   to words, and RoundTrip and Inverted draw the conclusions. Bitmap/Crossing has cross, over words and
--   over the same pieces; Shared and Found are about it. Bitmap/Positions has listPosAsc and the
--   iterator, Bitmap/Foreach has foreach, which has the loops of listPosAsc with a call-back.
--
-- Prelude.antt passes on the names that all of these share; its children have lists over the native
-- numbers, families with sums over them (Family), turns round a list (Rounds), chains of steps that may fail (Maybe), ranges of
-- byte arrays, and the bit operations as arithmetic. Keyed.antt has maps as lists of entries, which
-- the caches, the servlets, the name server and the balancers use.
--
-- Numbers are natural numbers, with the wrap of 32 or 64 bits written out where the code's results
-- depend on it (the codecs, the times of timers, the lengths of frames, the
-- positions in a compressed bitmap). Sizes and counters of
-- containers do not wrap. Methods that hold a lock over their body are single steps; Scheduler::run,
-- doRsp and enqueue are many.
--
-- Fuel: the loop of LruCache::prune is given one round more than there are keys, readFixSize and
-- writeFixSize one round for each byte; each round takes a key or a byte away. The loop of
-- WSRecvMessage takes its fuel as an argument, one for each frame. A count of compress has five
-- pieces of 14 bits at most. A loop with the bitmap's iterator is given one round more than there
-- are bits. All other loops are by recursion
-- on the list or the number of rounds they go through.
--
-- Objects that the code shares by pointers are values in the models: a timer stands in the set as it
-- was when it was inserted, and the context that epoll gives back by a pointer is looked up by its
-- descriptor, which is the same as long as the table has not become shorter. NSDomain::del, which holds
-- no lock over its body, is one step.
--
-- What callers of the scheduler have to keep is `Orderly` in Scheduler/Steps: the code schedules a fiber
-- whenever it is asked to, and the theorems on the scheduler are about callers that keep the rule.
--
-- Not modelled: context switches, threads, locks and system calls (thread, mutex, hook, socket),
-- the start and the joins of Scheduler, the connecting of AsyncSocketStream, and the tickle pipe of
-- IOManager; the generated parsers and messages (uri.rl.cc, http11_parser.rl.cc,
-- httpclient_parser.rl.cc, ns_protobuf.pb.cc); the copy of CRoaring in ds/roaring.*; bindings of
-- databases, OpenSSL, zlib, YAML and ZooKeeper; printing and logging. The order in which listAll
-- and the foreach of a map go over it is left open.
pub mod Prelude
pub mod ByteArray
pub mod Codec
pub mod Cache
pub mod Timer
pub mod Stream
pub mod WebSocket
pub mod Keyed
pub mod Servlet
pub mod NameServer
pub mod LoadBalance
pub mod Fiber
pub mod FiberSemaphore
pub mod Bitmap
pub mod AsyncStream
pub mod Scheduler
pub mod Epoll
pub mod FdContext
pub mod IoManager
