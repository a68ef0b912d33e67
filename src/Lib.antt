-- ===== src/Lib.antt =====
-- jpipe: a command that reads lines from its standard input and writes each as a JSON record.
--
-- Parts of the program and the files that model them:
--   include/jp_config.h.in   Config: the limits
--   src/errno.c, include/jp_errno.h
--                            Errno: the error codes, the context of a thread (Context) and the row that
--                            it prints (Print, Lengths, Fits)
--   src/field.c              Field: the key=value fields of the command line (Field/Parse: one field;
--                            Field/Set: the set as a finite map; Field/Keys: its order)
--   src/json.c               Json/Escape: jp_json_value_encoder (Bounds, Decode, RoundTrip);
--                            Json/Literal: which values are written bare (Grammar, Quoting);
--                            Json/Prefix: jp_json_prefix_encoder and the postfix (Size, Scan, Quotes)
--   src/queue.c              Queue: the ring of blocks between reader and writer (Layout: the addresses;
--                            Pending, Inv: the contents; Threads: the interleavings, with
--                            Threads/Invariant and Threads/Safety; Fifo: what the queue promises;
--                            Refine: that it does; Objects: what it allocates)
--   src/writer.c             Writer: the blocks cut into lines (Split: one round of the loop; Lines: one
--                            block; Newlines: that none is written; Produce: all blocks; Text, Stream:
--                            independence of the cuts; Flush: a line as long as a chunk; Output: the
--                            encoder and the output behind it)
--   src/reader.c             Reader: the input read into blocks (Round: one round; Stream: all; Whole,
--                            Blocking: an input whose read waits)
--   src/poller/epoll.c, src/poller/kqueue.c
--                            Poller: its two back ends (Epoll, Kqueue), what the reader relies on
--                            (Contract), that both keep it (Backends), and the reader
--                            on top of it (Reading)
--   src/memory.c             Memory: allocations that end the program where they fail (Heap: which objects
--                            are allocated)
--   src/file.c               File: one record written in parts (Progress: the output; Caller: the array)
--   src/command.c, src/main.c, src/config.c
--                            Command: the choice of a command (Count, Dispatch), and the texts that
--                            help and version print (Texts); Program: main on the real handlers
--                            (Outcome)
--   src/worker.c             Worker: the arguments of `jpipe run` (Args, Limits; Fields: the options
--                            -f), its help text and summary (Texts), the output directory (Directory;
--                            Parents: what it makes on the way; Creates), the threads (Start,
--                            Threads; Shutdown: what the end of one means to the other; Cancel: one
--                            that is canceled in a wait, with Cancel/Hang), all of it (Run), and the
--                            objects that it allocates and frees
--                            (Heap: Paths, Slots, Options and Queue for its steps, Balance for all)
--   src/worker.c, the two threads
--                            Pipeline: reader, queue, writer, encoder and output together
--   bench/lib/bench.c, bench/json.c, bench/queue.c
--                            Bench: the timer (Timer), the file of records (Split), the benchmark of
--                            the encoder (Encode) and the two threads of the queue benchmark (Queue:
--                            Steady, Invariant, Transfer)
--   include/jp_common.h      Log: the macros that print to the standard output
-- Common holds the tests, lists and byte strings that all of them use.
--
-- The reader fills blocks of the queue and commits them, the writer takes them, cuts them into lines and
-- writes each line with the prefix that the encoder has made of the fields once. Functions keep their
-- names, less the prefix jp_. A byte string is a list of numbers, `size_t` is a number with its
-- wrap-around at 2^64 written out where a sum or a difference is not bounded by the sizes of objects, and
-- a function that fails returns its `Errno`; the error context that it sets is followed where src/poller
-- and the ends of the threads are modelled.
--
-- Threads share only the queue. Each stretch of src/queue.c that runs without a break (a read of an
-- atomic, a critical section) is one function, and `Step` interleaves them freely. A thread in a wait for
-- a condition is asleep until the condition is signalled, or wakes up by itself. The memory order of the
-- atomics is taken as sequentially consistent.
--
-- The inner loop of jp_writer_produce is a recursion on fuel, twice the block's length and two more:
-- each round but one for each line takes a byte away, so the fuel does not run out. jp_file_writev and
-- collect_cli_args are recursions on what their calls of `writev` and `getopt_long` come to.
--
-- Not modelled: freeing by the threads, the output of debug builds, what the operating system and the
-- C library do (where a result depends on them it is a parameter), the attributes of
-- include/jp_common.h, and an output path of JP_PATH_MAX bytes.
pub mod Bench
pub mod Command
pub mod Common
pub mod Config
pub mod Errno
pub mod Field
pub mod File
pub mod Json
pub mod Log
pub mod Memory
pub mod Pipeline
pub mod Poller
pub mod Program
pub mod Queue
pub mod Reader
pub mod Worker
pub mod Writer
