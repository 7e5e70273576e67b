-- ===== src/Lib.antt =====
-- A model of the dynamic storage allocators of this repository, of the simulated break they run on,
-- and of the driver that tests them.
--
-- The program. memlib.c keeps one mapping of 100 MB and a break in it. A malloc package (mm.h) asks
-- memlib.c for more heap and hands out payloads. mdriver.c resets the break, runs a trace of requests
-- on a package, and checks each payload; clock.c and fcyc.c measure the time.
--
-- Which file models which part:
--   Base                 library names passed on; Boolean tests on numbers, lists
--   Machine              the byte memory (a function from addresses to bytes) with words of 4 bytes in
--                        little-endian order, bit operations, and the state of an allocator: memory,
--                        statics of memlib.c, heap_listp and free_listp
--   Memlib               malloclab-handout/memlib.c: mem_init, mem_reset_brk, mem_sbrk, mem_heap_lo,
--                        mem_heap_hi, mem_heapsize
--   Blocks               the macros of mm-segregated list(97:100)/mm.c
--   Links                the doubly linked list in the payloads, common to both mm.c files: the bodies
--                        of freelist_insert and freelist_delete; Links/Chain describes such a list by
--                        the sequence of its blocks
--   Seg                  mm-segregated list(97:100)/mm.c: freelist_insert, freelist_delete, coalesce,
--                        place; Seg/Sizes the size classes, Seg/Fit find_block and find_fit, Seg/Package
--                        mm_init, mm_malloc, mm_free, mm_realloc, calloc and extend_heap, Seg/Check
--                        checkblock and mm_checkheap, Seg/Check/Verbose its listing, Seg/Check/Walk
--                        what it prints on a heap of blocks. Seg/Lists describes the 24 lists by sequences,
--                        Seg/Place and Seg/Coalesce are about place and coalesce on them, and Seg/Heap
--                        describes the whole heap by the row of its used and free blocks: Seg/Heap/Kept
--                        and Seg/Heap/Realloc follow the payloads, Seg/Heap/Refused is about a request
--                        that the system does not grant, Seg/Heap/Sequence about calls one after the
--                        other
--   Explicit             mm-explicit list(82:100)/mm.c with the same operations in Explicit/Package
--                        and Explicit/Check
--   Naive                malloclab-handout/mm-naive.c
--   Driver               malloclab-handout/mdriver.c: Driver/Ranges add_range, remove_range and
--                        clear_ranges, Driver/RandomData the loops of randomize_block and check_index,
--                        Driver/Trace and Driver/Stats the data types, Driver/Read read_trace;
--                        Driver/Valid eval_mm_valid, Driver/Util eval_mm_util and Driver/Speed
--                        eval_mm_speed over the interface Driver/Package of mm.h; Driver/Libc
--                        eval_libc_valid and eval_libc_speed; Driver/Run run_tests; Driver/Report
--                        printresults; Driver/Options, Driver/Score and Driver/Main the parts of main,
--                        with config.h; Machine/Doubles is the arithmetic of `double`
--   Stub                 malloclab-handout/mm.c, the stub that refuses every request
--   Timing               malloclab-handout/clock.c: Timing/Clock access_counter and get_counter,
--                        Timing/Clock/Exact how exact its `double` is,
--                        Timing/Compensated ovhd, mhz_full, callibrate and the compensated counters; the
--                        K-best scheme of malloclab-handout/fcyc.c (Timing/Fcyc) and its clearing of
--                        the cache (Timing/Cache); Timing/Seconds
--                        fsecs.c and Timing/Intervals ftimer.c of that directory
--
-- State. An operation of an allocator takes the memory, or the state of Machine/State, and returns it.
-- Pointers are natural numbers; NULL is 0. A word is written modulo 2 ^ 32; size_t arithmetic keeps its
-- `% 2 ^ 64`. The links of a free block are offsets from heap_listp.
--
-- Fuel. The walk along a free list (Seg/Fit) and the walk of mm_checkheap run on fuel, and `none` says
-- that it ran out. Fuel of the length of the longest list is enough for the search, and two more than
-- the number of blocks behind the prologue for the checker; mm_malloc takes the number of bytes of the heap and one.
--
-- fcyc has fuel for one round more than `maxsamples`, and clearing the cache needs one round more than
-- the words of its buffer; read_trace and callibrate take theirs as an argument.
--
-- New memory. Where the heap is extended, PUT_HD keeps the second bit of the last word of the new bytes
-- in the header of the epilogue. The results on extended heaps take that bit to be clear, as it is in
-- memory that mmap has just mapped. After mem_reset_brk the driver uses memory again in which it may be set.
--
-- Parameters. What sbrk answers, where mmap maps, the C library's malloc package, random() and its
-- table, the cycle counter and the timers of the system, fopen and fscanf, getopt, atoi, the alarm, and
-- the arithmetic and order of `double`s are arguments.
--
-- Not modelled: the text of the output, where a row of a table is the values in it; the code for
-- Alpha and for other machines in clock.c, NEXT_FIT in mm.c and ALT_GRADING in mdriver.c, which are not
-- compiled; headers, traces and build files.
pub mod Base
pub mod Machine
pub mod Memlib
pub mod Blocks
pub mod Links
pub mod Seg
pub mod Explicit
pub mod Naive
pub mod Stub
pub mod Driver
pub mod Timing
