-- ===== src/Lib.antt =====
-- Components of a collection of C programs, each modelled from its own files and proved on its
-- own; Common has what they share: C arrays, blocks of bytes and linked lists as lists, over the
-- native numbers.
--
-- MinHeap: timer/min_heap/minheap_internal/min_heap.c and min_heap.h, timers in a binary min-heap.
--   The state is the heap's array of pointers with the memory of the nodes; time_heap_add_timer,
--   time_heap_del_timer, pop_timer, time_heap_tick and the others keep their names. Order is the
--   heap order, Down the sift in percolate_down, Invariant what holds between calls, Add, Pop and
--   Tick the operations. The sift loops have the index or the size as fuel and the tick one more
--   than the number of timers; the theorems show that it is enough. A callback is an argument, and
--   so is the time that gettime returns.
--
-- TimeWheel: timer/timewheel/itimer_pool/itimer_internal.c and itimer_internal.h, the timing wheel
--   of five levels that the timer manager stands on. A list of node numbers stands for each ring
--   of linked nodes. Place says which slot a time belongs to, Cascade and Tick follow
--   itimer_internal_cascade and one tick, Run is itimer_core_run, Nodes the calls on one node.
--   Jiffies wrap at 2^32. Manager is itimer_mgr, with its clock in milliseconds, and Manager/Drive
--   its itimer_mgr_run, which has a round for each interval as fuel and two; Manager/Event counts
--   the periods of an event, with the clock as fuel. The loop over the local list has its length
--   and one as fuel, the update loop the number of ticks that are due and two.
--
-- FlexBuffer and BufferArray: demo/C/flex_buffer/flex_buffer.h, a growing byte buffer that a
--   reader and a writer share, and the array of buffers. Holds relates a buffer to the queue of
--   bytes in it, Space has the calls that make room and append, Queue whole runs of appends and
--   reads. An assert that fails is the result `none`, also where a size is cut to a negative `int`.
--
-- ArBuffer and AsyncLog: demo/C/asynclog/arbuffer.h, asynclog.h and asynclog.c, the asynchronous
--   logger with two buffers on each side. ArBuffer uses BufferArray, whose source is the same text
--   for another type of buffer. Append is _log_append, Turn the exchange of buffers under the
--   mutex, and Refill a whole turn of asynclog_threadFunc. The mutex makes each of the two calls
--   one step. The size of a buffer is an argument.
--
-- DeadLock: tools/dead_lock_stub/dead_lock_stub.h and dead_lock_stub.c, the monitor of mutexes.
--   Tables has the hooks around pthread_mutex_lock and pthread_mutex_unlock, Graph the wait graph
--   and _check_dead_lock_stub: Build the edges, Kahn and Pop the loops, Check the search on a
--   graph and Report the search on the tables. The loop has the number of threads and one as fuel.
--   A text is what a char array holds, and the time is an argument.
--
-- EventLoop: framework/zebra_epoll/cl_thread.c and cl_thread.h, the event loop over epoll, on the
--   timers of MinHeap; min_heap.c beside it differs from that file in time_heap_del_timer and
--   cl_time_heap_tick, which are modelled here. The state is the master with its threads, sockets,
--   lists and heap, and the log of the calls of epoll_ctl. A thread is its address, and the six
--   lists are a function of the type of the threads in them. The tree of the sockets is a function
--   of the descriptor. EventLoop has the state and the calls that add a thread, Unregister those
--   that cancel one, Dispatch cl_thread_do_event, cl_thread_run and cl_thread_fetch. Below it,
--   Invariant says what holds between calls, with Filed for the lists and Log for epoll; the
--   modules from AddRead to Fetch take the calls one by one, Reach all of them in any order,
--   Locked is cl_thread_fetch_lock and Stop cl_thread_stop. What the world does in a round of the
--   loop, a time and an answer of epoll_wait, is an argument, so the loop is recursion on the
--   rounds; the tick of the heap has one more than the number of nodes as fuel.
--
-- SelectLoop: framework/zebra/cl_thread.c and cl_thread.h, the older event loop over select, with
--   the threads and the types of EventLoop. Two sets of descriptors stand for readfd and writefd,
--   and the nodes of the list of timers are their intervals, each with its list of threads.
--   Consistent is the invariant; Timely is the order of the timers, Reach the calls in any order
--   with a clock that does not go back, Locked is cl_thread_fetch_lock and Stop cl_thread_stop.
--
-- IniFile: framework/libco_pool/ini_file.c, reading and appending of `key=value` lines. Fgets has
--   the lines that fgets makes of the file, Line the line that ini_append_string writes, Read a
--   whole file, Name the function file_name. The file is its bytes, and a pointer into a line is an
--   offset.
--
-- LogFile: demo/C/asynclog/logfile.c and logfile.h, the log file that rolls by size and by day. The
--   state is logfile_t with what each file has and how much of it was flushed; a call that locks a
--   mutex which its caller holds is an ending of its own. Accept has the loop over
--   fwrite_unlocked, Branches the ways through logfile_append_unlocked, Append logfile_append. A
--   call of fwrite_unlocked or time is an argument, and the loop is recursion on the answers.
--
-- LeakChecker: demo/C/check_mem_leaks/check_mem_leaks/mem_leaks.c and mem_leaks.h, the checker that
--   replaces malloc, calloc, realloc and free. The hash table is a function from keys to lists of
--   notes; what libc's own call returns is an argument of the call. Table has the table, Replace
--   what each call does to it, Report the calls in any order beside what is in use. A call is one
--   step, and the calls that backtrace_symbols makes are not steps, since `pids` turns them away.
--
-- Everywhere a call of malloc or calloc succeeds unless an argument says otherwise, and freed
-- memory is not modelled but in MinHeap, where nodes carry whether they are alive, and in the Stop
-- of EventLoop and of SelectLoop, which logs what is freed. Not modelled
-- are the programs' threads, input and output, the rest of the timer events and their pool, the
-- coroutine pool, the asynchronous tasks, the copies of
-- the files above that stand elsewhere, and what is not the repository's own C.
pub mod ArBuffer
pub mod AsyncLog
pub mod BufferArray
pub mod Common
pub mod DeadLock
pub mod EventLoop
pub mod FlexBuffer
pub mod IniFile
pub mod LeakChecker
pub mod LogFile
pub mod MinHeap
pub mod SelectLoop
pub mod TimeWheel
