-- ===== src/Lib.antt =====
-- The recorder of fk-prof: a model of its C++ code, recorder/src/main/cpp, and what is proved of it.
--
-- The recorder is an agent in a JVM. A timer signal interrupts the threads of the JVM; the handler
-- takes a stack trace and pushes it, with the thread's bucket, into a ring of slots (CircularQueue).
-- One thread pops the traces (Processor::run) and hands each to the log writer, which writes bytes to
-- a file and asks JVMTI for lines and names. The buckets are kept in a lock-free map, whose old tables
-- are deleted by epochs (map::GC).
--
-- Files and code:
--
-- Prelude, Prelude/Tests, Prelude/Lists, Prelude/Int, Prelude/Word: shared names. Numbers are natural
--   numbers; an int is an integer (pos n, negsuc n for -n-1) or a bit pattern below 2 ^ 32 whose sums
--   wrap around, as each file says.
--
-- Queue: circular_queue.h, circular_queue.cpp and the structs of stacktraces.h. `push`, `write`, `pop`
--   and `advance` are the functions of these names; memory is a function from the slot to its
--   holder and to its array of frames. Queue/Fifo is what a client may rely on, Queue/Ring and
--   Queue/Frames the lemmas on indices and arrays, Queue/Refine the relation between the two.
--
-- Queue/Concurrent: the same two methods cut at every access to shared memory, for any number of
--   producers and one consumer. The accesses are sequentially consistent: the memory orders of the
--   C++ atomics are not modelled. The program bounds no wait of a producer between its read of
--   `input` and its compare-exchange; schedules where such a wait covers a whole turn of the ring are
--   set apart by `Orderly`.
--
-- Gc/Defs: map::GC of concurrent_map.h, with GCHelper::detach of thread_map.h. Each method holds the
--   mutex, or is one read and one update of an atomic, and is one step. Gc/Grace is the system of
--   attached threads; its runs are shorter than 2 ^ 32 calls, so that epochs do not wrap around.
--
-- LineTable: bci2line of log_writer.cpp. The fuel of the first loop is `half`, which halves in each
--   round; where fuel is used up the result is none.
--
-- LogWriter/Defs: the class LogWriter. The file is a list of bytes. JVMTI's line tables, the frame
--   lookup and the byte order of the machine are parameters. LogWriter/Format has the file as a
--   list of events, LogWriter/Decode a reader, whose fuel is the number of bytes and one, and
--   LogWriter/Announce whole runs.
--
-- ThreadMap: ThreadBucket and ThreadMapBase of thread_map.h, each call one step. The lock-free map behind
--   them is an association list here. ThreadMap/Counts has the effect of each call, ThreadMap/History any
--   sequence of them, with the references that the log writer has yet to let go; ThreadMap/Hasher is
--   PointerHasher::hash.
--
-- LockFreeMap/Defs: nearestPow2, HashTable, `find` and `insertOrUpdate` of concurrent_map.h. The fields of
--   the cells are functions of the index. A call runs without interruption, so every compare-and-swap
--   succeeds; where it would wait for another call the result is none. The fuel of `find` is a step for
--   each cell and one more: links go down in a rank that is at most the number of used cells.
--   LockFreeMap/Valid says what holds of a table between two calls; LockFreeMap/Chain, Linked, Walk, Search,
--   Store and Claim lead to LockFreeMap/Insert; LockFreeMap/Digits, Mask, Bits and Pow2 are about masks and
--   sizes, LockFreeMap/New about a new table. LockFreeMap/Chance has the one overlap of two insertions
--   that is treated.
--
-- LockFreeMap/Migration: migrateRange and, in Run, Migration::run by one thread. The fuel for a source is its
--   number of chunks and two. LockFreeMap/Live has what counts as a value, Migration/Moves, Cells,
--   Chunks and Sources follow the loops from the inside out, Migration/Restart has a whole run.
--
-- LockFreeMap/Provider: ConcurrentMapProvider. put goes in rounds, each an insertion or a run of the
--   migration; no bound on the rounds is stated, since hashes that agree in all their low bits overflow
--   tables of any size. Provider/Rounds is about put, Provider/Calls about get, remove and the counts in
--   one state, Provider/Client about whole sequences of calls from a new map on.
--
-- Agent: parseArguments and safe_copy_string of agent.cpp, with ConfigurationOptions of globals.h.
--   Agent/Decimal is atoi, which is unbounded here: beyond an int C leaves it undefined, and the
--   theorems are about numbers within one. Agent/Print has the settings as they are meant to be
--   written, Agent/Parsed what becomes of them, Agent/Missing keys without values. The fuel is a
--   step for each byte and one more. Agent/Lifecycle is Agent_OnLoad, Agent_OnUnload and the
--   callbacks of the JVM's events, over the profiler and the thread map; Agent/Events is about
--   whole lives.
--
-- Controller: controller.h and controller.cpp, the commands over the profiler, with Profiler's getters; what
--   the socket calls give is a list of moments. Controller/Input is the reading of words and numbers from
--   an istringstream, Controller/Replies is about the commands, Controller/Ends about the loop.
--   Another thread's stop is a moment of its own, or falls into a connection.
--
-- Handle: Profiler::handle of profiler.cpp, over the queue and the thread map; AsyncGetCallTrace is a
-- parameter.
--
-- SpinLock: SimpleSpinLockGuard of profiler.h, for any number of threads.
--
-- SignalHandler: signal_handler.h and signal_handler.cpp, the class of this name; what rand() returns
-- and whether setitimer succeeds are arguments. SignalHandler/Timing is what the timer then runs at.
--
-- Processor: Processor::run of processor.cpp. A moment is one call of CircularQueue::pop, with what the
-- other threads do before it, and what the signal handler still pushes between the last such call and
-- the end of the timer; so a run is as long as its list of moments. Processor/Steps has each step,
-- Processor/Run whole runs. Processor/Handshake is start, stop and the end of run at their accesses to
-- the flags isRunning_ and workerDone, for one caller, which holds the profiler's lock, and the threads that
-- it starts.
--
-- ProfileWriter: profile_writer.h, checksum.h and checksum.cpp. Messages are the bytes that they
-- serialize to; protobuf's varints and zlib's adler32 are parameters.
--
-- Profiler: profiler.h and profiler.cpp, with ConfigurationOptions of globals.h. The heap is a list of
-- live objects for each class; deleting or reading one that is not alive is an error, which a
-- result of none stands for. Profiler/Types has the fields, Profiler/Setters the setters,
-- Profiler/Rebuild `configure` by its three blocks, Profiler/Defs the constructor, `start`, `stop` and
-- the destructor. Profiler/Shape, Profiler/Configure, Profiler/Linked, Profiler/Life and Profiler/Running are
-- the steps to Profiler/History, which is about any sequence of calls.
--
-- Not modelled: calls of the map that overlap, but for the one above, and JobCoordinator::participate by
-- several threads; the thread of the controller; and what is nearly only calls of JVMTI, JNI and the
-- operating system, statistics, and the Java code of the repository.
pub mod Prelude
pub mod Queue
pub mod Gc
pub mod LineTable
pub mod LogWriter
pub mod ThreadMap
pub mod Handle
pub mod SpinLock
pub mod SignalHandler
pub mod Processor
pub mod ProfileWriter
pub mod Profiler
pub mod LockFreeMap
pub mod Agent
pub mod Controller
