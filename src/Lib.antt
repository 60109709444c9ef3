-- ===== src/Lib.antt =====
-- A verification library beside the code of masnail/algo.
--
-- The parts of the program, and the files that model them:
--
-- * tools/sync_file, SyncFile.antt: a client asks a server for a file over a TCP connection and
--   writes a copy. SyncFile/Socket.antt has RecvSocket and SendSocket, in SyncFile/Socket/Laws.antt
--   on any connection and in SyncFile/Socket/Live.antt on a live one, SyncFile/Frames.antt RecvBuff
--   and SendBuff (epoll_socket/epoll_socket.cpp), SyncFile/File.antt the streams and helpers of
--   SyncFileTool, SyncFile/Sending.antt SyncSendFile and SyncFile/Receiving.antt
--   SyncRecvFile (file_operation/sync_file.cpp). Each layer calls the one before it, in a monad
--   over the connection (SyncFile/Effects.antt): what the coming calls of send and recv meet (a
--   Turn), the bytes that wait to be received, and the bytes that were sent. A loop recurs on the
--   turns; when they are used up the run is `waiting`. `undefined` stands for undefined behaviour
--   of the C++ program, such as a write past a buffer. Integers are eight little-endian bytes on
--   both sides (SyncFile/Bytes.antt). The ceiling by doubles is taken as exact, which holds below
--   2^53 bytes.
-- * tools/sync_file, SyncFile/Server.antt: the event loop of the file server
--   (epoll_socket/server.cpp) pass by pass, over the thread pool below and the connections of its
--   clients. A pass is modelled up to its end and with it, since the task that it makes refers to
--   its variables; a worker may run a task at any point, with the descriptor that the task has
--   captured. SyncFile/Server/Serving.antt has the invariant, SyncFile/Server/Reuse.antt a
--   descriptor that is closed and used again, SyncFile/Server/Answers.antt the way of a
--   command. SyncFile/Client.antt is the client program behind its connection (client/main.cpp).
-- * timerfd, Timer.antt: Timer/Stamp.antt has time stamps (timer_stamp.h) and the conversion that
--   arms the timerfd, Timer/Stamp/Text.antt their text (timer_stamp.cpp), Timer/Containers.antt the
--   std::set and std::unordered_map that the queue uses, Timer/Queue.antt the TimerQueue and Timer
--   classes (timer_queue.cpp, timer.h, timer.cpp). Timers are objects on a heap that maps addresses
--   to them; an operation returns none where the program has undefined behaviour or an assertion
--   fails. A double of seconds is given by what the code observes of it (Seconds). A callback is
--   given by what it does to the queue (Action). The clock's value is an argument. Sums of time
--   stamps are taken to stay within an int64_t. Timer/Manager.antt has TimerEventMgr
--   (timer_loop_mgr.cpp): its ways to add a timer, and in Timer/Manager/Loop.antt its two channels,
--   TimerLoop with the callbacks that it runs, and the calls of other threads, each taken whole.
--   Timer/Manager/Armed.antt says what the timerfd is set to, Timer/Manager/Serving.antt and
--   Timer/Manager/Running.antt are about a pass and about any sequence of calls and passes. An
--   event carries the clock's value, the address that `new` returns, and what epoll_wait reports.
-- * tools/sync_file/epoll_socket/threadpool.h, ThreadPool.antt: the pool that the server gives its
--   work to. ThreadPool/Specification.antt has the queue of requests that it stands for,
--   ThreadPool/Index.antt and ThreadPool/Operations.antt the list and the map by descriptor,
--   ThreadPool/Workers.antt the worker threads, ThreadPool/Runs.antt all interleavings of the
--   callers and the workers, and ThreadPool/Stopping.antt the end. A worker is a state machine, and
--   what happens under the lock is one step. A wait is a step that is possible when its condition
--   holds; which thread a notification wakes, and one that is missed, are outside the model.
-- * timerfd, Channel.antt: the channels and the epoll wrapper (timer_channel.h, timer_channel.cpp,
--   timer_epoll.cpp) over the kernel's epoll, which is a record of operations with the laws of
--   epoll_ctl, and in Channel/Loop.antt a pass of TimerLoop (timer_loop_mgr.cpp) over what
--   epoll_wait has reported. Channel/Laws.antt is about the interest list, Channel/Tables.antt has
--   an epoll to run the programs on. An event mask is its named bits and a number for the others. A
--   callback is given by its name: callbacks leave the channels of the pass alone.
-- * sort_algo, Sort.antt: the sorts that swap in place, in Sort/Bubble.antt (bubble_sort.cc),
--   Sort/Choose.antt (choose_sort.cc) and Sort/Insert.antt (insert_sort.cc); Sort/Heap.antt
--   (heap_sort.cc), Sort/Quick.antt (quick_sort.cc) and Sort/Merge.antt (merge_sort.cc), with
--   Sort/Ranges.antt for sorting a range. An array is a list of integers, and `count`, or `hi` of a
--   range, stands for `end + 1`. A loop or a recursion that shrinks no argument by one is on fuel;
--   the range's length and one more is enough.
-- * test/146.cc, Lru.antt: LRUCache, a doubly linked list of nodes on a heap and a map from keys to
--   nodes. Lru/Chain.antt has the list that is linked both ways, Lru/Unlink.antt DeleteNode and
--   InsertHead on it, Lru/Cache.antt the keys, and Lru/Entries.antt the list of keys and values
--   that the cache stands for, with `put` as the code has it: a key that is there keeps its value,
--   contrary to the comment in test/146.cc. Against it Lru/Getting.antt and Lru/Putting.antt have the methods,
--   and Lru/Commands.antt any sequence of calls, with the behaviour that the comment describes
--   (put_doc) beside the code's. Lru/Addresses.antt says what is allocated. Lru/Ending.antt has the destructor. An operation returns none where the program
--   reads through a bad pointer. A key and the capacity are natural numbers.
-- * test/45.cc, Jump.antt: the fewest jumps to the end of a vector. Jump/Frontier.antt has ways of
--   single jumps and how far a number of them gets, Jump/Fewest.antt the loop against it.
-- * test/17.cc, Letters.antt: the words of a sequence of telephone keys. Letters/Words.antt has the
--   words that are meant. The loop over `n` recurs on the strings that are left.
-- * test/373.cc, Pairs.antt: the pairs with the smallest sums, by a std::priority_queue, which is a
--   record of operations that counts copies. Pairs/Front.antt has what the queue holds,
--   Pairs/Smallest.antt is about the two loops, Pairs/Result.antt about what is returned. The
--   second loop recurs on `k`.
-- * include/threadpool.h, SharedPool.antt: the pool of a whole program, without descriptors.
--   SharedPool/Order.antt has its runs, in which the callers and the workers interleave,
--   SharedPool/Stopping.antt what happens after Destory. Its steps are cut as those of the pool
--   above.
-- * tools/rate_limiter, RateLimiter.antt: TokenBucketRateLimiter (token_bucket_limiter.cc) and the
--   OrderController of main.cc. The arithmetic of double is a record of operations (Doubles), and
--   RateLimiter/Waiting.antt says when a request is granted, for any such arithmetic.
-- * socket/epoll, Echo.antt: the echo server (server.cpp) event by event, with a pool of the same
--   code as that above, and a round of its client (client.cpp). The classes that protoc generates
--   are a record of operations (Protobuf): a message whose name is ASCII is parsed from its
--   serialization, an int32 is its 32 bits, and of the bytes of an object only the number is known.
--   Echo/Rounds.antt has a message and its answer. A call on a socket is one `read` or `write`
--   (Sockets.antt), which may take less than it is asked to.
-- * socket/select, Chat.antt: a chat server of three threads (server.cc), a round of each, and the
--   passes of its client (client.cc). Chat/Broadcast.antt is about a line to every client,
--   Chat/Lines.antt about what is printed of a line.
--
-- Not modelled: system calls and console output, among them the opening of the sockets; the
-- generated protobuf classes; rounds of the chat server's threads that cut into each other, and
-- calls of the timer manager that cut into a pass of its loop; ToFormattedString, which is gmtime_r
-- of the library; and the other programs of test.
pub mod Prelude
pub mod SyncFile
pub mod Timer
pub mod ThreadPool
pub mod Channel
pub mod Sort
pub mod Lru
pub mod Jump
pub mod Letters
pub mod Pairs
pub mod SharedPool
pub mod RateLimiter
pub mod Sockets
pub mod Echo
pub mod Chat
