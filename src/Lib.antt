-- ===== src/Lib.antt =====
-- The C runtime that every compiled Prismio program links: runtime/lang_runtime.c, the language's own
-- half (memory, lists, strings, numbers), and runtime/program_support.c, the host's half (files,
-- processes, threads, channels); and the compiled modules that a build imports and links, of
-- runtime/build_driver.c. The compiler itself is written in Prismio and is not C; it calls the runtime
-- by name at the places that its ownership analysis chooses.
--
-- How the parts meet. All memory is asked for through a seam: `rt_base_alloc`, `rt_free` and
-- `rt_base_realloc` are the slab allocator, `arena_alloc` and `arena_alloc_at` serve the sites that the
-- analysis proved to die with a region. `RtList` takes its header and its element block from either, and
-- lets go of elements by the ownership mode that the compiler stamps on the list: it frees them, drops
-- their count, or calls the release function of their type. A slice and a Buffer are views of a list by
-- its handle. A channel moves messages between tasks under one lock and two conditions.
--
-- Which file models what.
--   Base: numbers, Boolean tests, lists, C's `int` as an integer. No code of its own.
--   Chan: `PrismioChan` of runtime/program_support.c. `send`, `recv`, `send_copy`, `recv_copy` are one
--     pass of the call of that name, from under the lock to the wait or the return; `fresh`, `close`.
--     Chan/Ring, Chan/Queue and Chan/Plain compare the rings with a bounded queue. Chan/Wake has the
--     threads that sleep on the two conditions and are woken by signals and broadcasts, as a step
--     relation in which any thread's pass may come next.
--   Slab: the small-object allocator of runtime/lang_runtime.c: `init`, `refill`, `base_alloc`, `free`,
--     `base_realloc`, `spill`, `thread_flush` are slab_init, slab_refill, rt_base_alloc, rt_free,
--     rt_base_realloc, slab_spill and slab_flush_tls. Slab/Stock counts the free blocks of a class.
--   Arena: the region stack of runtime/lang_runtime.c: `push`, `pop`, `alloc`, `alloc_at`,
--     `thread_cleanup` are arena_push, arena_pop, arena_alloc, arena_alloc_at and
--     prismio_memory_thread_cleanup.
--   RtList: `RtList` of runtime/lang_runtime.c. RtList/State has the header, the ownership modes and the
--     constructors; Grow, Release, Push, Replace and Remove have the operations, list_push as `push`,
--     list_set as `set_elem`, list_set_now as `set_now`, and so on. RtList/Script has sequences of calls
--     on a boxed list, an abstract sequence that they refine, and the ledger of what is released.
--     RtList/Slice has the slices, RtList/Bytes the Buffer (`mem_bytes_*`).
--   Quote: command_quote_arg, spawn_quote_into and spawn_command_line of runtime/program_support.c, with
--     the reading of a POSIX shell and of CommandLineToArgvW, as their documents describe it, beside them:
--     Quote/Line has the arguments, Quote/Program the program's name, which is read by a rule of its own.
--   Rc: the reference counts of runtime/lang_runtime.c, `rc_alloc` to `rc_release`, plain and atomic, with
--     the cold block of a split object.
--   Cyc: the cycle collector of runtime/lang_runtime.c, `cyc_alloc` to `cyc_final`. `sweep` is the walk of
--     cyc_mark_grey, `scan_black`, `scan`, `collect_white` and `collect` are cyc_scan_black, cyc_scan,
--     cyc_collect_white and cyc_collect. Cyc/Sweep is about walks that paint, Cyc/Mark about the counts
--     of the trial deletion, Cyc/Scan and Cyc/Seen about the scan, Cyc/White about what is freed,
--     Cyc/Roots about the roots whose count reached zero while they waited.
--   Verify: the ledger of a --verify build, `aif_verify_*` of runtime/lang_runtime.c. Verify/Chain compares
--     its hash buckets with one list, Verify/Script has runs of calls.
--   LineReader: `LineReader` and the `io_stdin_*` calls of runtime/program_support.c. `fill` is one pass of
--     line_reader_fill, on a source that is the sequence of what read answers.
--   Tasks: `PrismioTask` and `PrismioScope` of runtime/program_support.c. Tasks/Steps has a program's
--     threads as a step relation.
--   Plib: the PLIB v3 file of runtime/build_driver.c: `emit` is what emit_stdlib_plib writes,
--     `plib_interface` is compiler_plib_interface, `extract` extract_plib_bitcode.
--
-- Bounds and fuel. A machine's `int` index is an integer whose range is a hypothesis where it
-- matters, and its unsigned reading is written out. size_t sums of requests and uint32_t counters
-- wrap. The int sums and products that size a list's block or index a channel's ring wrap at 2^32,
-- where C leaves them undefined from 2^31 on; a bound that keeps them below that is a hypothesis
-- where it matters. Statistics and the number of parked elements are not bounded. Loops are
-- structural recursion on the list or the count that they go through, but for two. The line
-- reader's run on the reads and bytes that are still to come, which each round uses up, and its
-- doubling on the number to be reached. The collector's walks run on the number of objects ever
-- allocated: a walk goes deeper only where it changes a colour, and on less fuel than unpainted
-- objects the theorems would not hold.
--
-- What is a parameter. libc and the operating system: the addresses that malloc, realloc and mmap answer
-- are fields of `Os`, `Mem` and `Env`, or arguments, with 0 for NULL, and what read answers is `Source`.
-- The element's own release function, the reference counts and the cycle collector are what a list calls,
-- and stand in its trace. What the release function of a collected object does to the collector, and what
-- a freed header shows, is `reclaim`. What a task's function answers is `Answers`. A task's handle is a
-- number that is never used again; as the compiler's own code does it, a binding is released after its
-- join, or, for a spawn that is a statement, while a scope holds the task.
--
-- What is not modelled: strings and number formatting, the row and column views, profiling, files,
-- processes, time and the rest of the console, the build driver but for compiled modules, and the
-- LLVM back end, which calls a library that is not here. Locks are modelled as passes that are not
-- interrupted; the slab's shared lists likewise. The contents of freed blocks are not modelled
-- beyond the links of the allocator's own chains and the poison of the ledger.
pub mod Arena
pub mod Base
pub mod Chan
pub mod Cyc
pub mod LineReader
pub mod Plib
pub mod Quote
pub mod Rc
pub mod RtList
pub mod Slab
pub mod Tasks
pub mod Verify
