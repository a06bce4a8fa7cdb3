-- ===== src/Lib.antt =====
-- chibi-scheme is a small Scheme interpreter in C. This library models parts of its C code that
-- carry data of their own, with theorems on what makes them correct. Every file names the C file
-- that it is about, and a definition has the name of the C function without its prefix `sexp_`; a
-- helper of another name stands for a loop or a branch of the function that its comment or its
-- user names.
--
-- The parts, and how they interact:
--
-- Bignum.antt and Bignum/ are bignum.c. A bignum is its sign and the list of its 64-bit digits,
-- least significant first, as in the C array; every digit operation keeps its wrap-around (`%
-- word`). The numeric tower calls these routines on operands that do not fit a fixnum. Digits has
-- the value of an array and of a bignum, Hi the zero test and the size in use, Compare the two
-- orders, Normalize the return to fixnums, Fixnum and its children the operations with one word,
-- Sum and its children the sums of two bignums, Product and its children the products and powers
-- (the recursion's fuel is the sum of the magnitudes, which gets smaller with each call), Text the digits that are read and written.
-- The buffer of a text is its characters and the number of free ones in front, and a write before
-- its start is an error. The destination argument of the C functions, which is reused where it is
-- large enough, is an optional bignum.
--
-- HashTable.antt and HashTable/ are lib/srfi/69/hash.c. A table is its vector of buckets, which
-- are association lists, its size, and its hash and equality functions. The objects of Scheme are
-- a type parameter with `Objects`: the tests, `equal?` and the hash functions, which the code
-- calls. The laws that it relies on, that equality is an equivalence and that equal keys have
-- equal hashes, are `IsLawful`. A failed allocation in growth is the argument `room`. Strings has
-- the hashes of strings.
--
-- Sort.antt and Sort/ are lib/srfi/95/qsort.c. Arrays are lists. The comparison of objects and the
-- procedures `less` and `key` are parameters; applications may raise, and then the result carries
-- the exception and the arrays as they are. The fuel is the number of items: each call passes on
-- one less, and its halves have fewer items. Segment and Puts have the lemmas on stretches of
-- arrays, Merge the merge loop, Small and Sorted the sort, Fallible the sort with applications,
-- Reversal the reversal in place, Entry `sort!`.
--
-- Utf8.antt and Utf8/ are the codec in sexp.c. A string is the list of its bytes. Codec has the
-- decoder, Strings lengths and steps back, Reader the decoder for character literals.
--
-- Threads.antt and Threads/ are lib/srfi/18/threads.c. Threads, mutexes and condition variables
-- are numbers; the run queue and the paused threads are lists, and the slots of a thread are a
-- record. The scheduler (Threads/Scheduler.antt) is the composition of the sections of the C
-- function. The clock and the answer of `poll` are arguments. Waking has the first thread that
-- waits for an event, Broadcast the condition variables, Locks the mutexes, Conserved the
-- scheduler's bookkeeping, and Signals the pending signals. The chain of children that
-- `thread-terminate!` goes down has its depth as an argument.
--
-- Gc.antt and Gc/ are gc.c, as a 64-bit build has it without the options for debugging. Memory is
-- addresses, a map from addresses to the headers of objects, and for each chunk its free list;
-- Layout has the tiling of a chunk by free blocks and objects, which the code never writes down but
-- keeps. Chunks has the sweep over the chain of chunks, growth and allocation; Freeing, Sweeping,
-- Collection and Heaps follow the sweep from one object to the chain. Mark is the mark phase, and
-- Pending, Marking, Tracing and Reaching what it marks. Survivors and Cycle are a whole collection.
-- Taking, Placing, Allocating, Allocation and Growth are allocation. The fuel of a chunk's scan is
-- its size in bytes, since a round passes at least one; the fuel of the mark phase is any number
-- above that of the objects. The operating system's allocator is an argument, and the references of
-- objects are a map that marking does not change.
--
-- Pairs.antt and Pairs/ are the list utilities of sexp.c. A pair is an address, and a store has its
-- fields; new pairs get the next address. Shapes has the chains of cdrs that end and those that come
-- to a circle, Cycles `list?` and `length`, Building what makes new pairs, InPlace the reversal in
-- place, Searching the two searches. The fuel is any number above that of the pairs.
--
-- Bits.antt and Bits/ are arithmetic-shift and integer-length of lib/srfi/151/bit.c, on the bignums
-- and fixnums of Bignum. Length has the table of logarithms, Loops the digit loops of the shifts,
-- which are products and quotients by a power of two, Shift the shifts of bignums, Arithmetic those
-- of any integer.
--
-- Sha2.antt and Sha2/ are lib/chibi/crypto/sha2.c. A context is a record, and words, bytes and the
-- buffer are numbers below their bounds and lists of them. Round has the round on one chunk. The
-- fuel of the loop over whole chunks is the number of bytes, and each round takes 64. Blocks has
-- what the loop leaves, Stream what a context stands for, Pieces the adding of data, Digest the
-- padding and the whole computation.
--
-- Prelude.antt and Prelude/ have the shared types, numbers and lists. Tests.antt and Tests/ have
-- runs of the models and instances of the theorems.
--
-- Not modelled: the bitwise operations of bit.c beside these; the evaluator, the virtual machine, the reader and printer, ports and system calls; the comparison of objects in qsort.c; the quotients of two bignums and
-- their negative powers, and what may follow the digits when one is read; the hash of any object in hash.c,
-- which is a function of the objects here; the creation of threads and the registration of
-- descriptors; weak references, finalizers and the list of preserved objects in gc.c; the exceptions for wrong types in sha2.c.
pub mod Prelude
pub mod Bignum
pub mod Bits
pub mod Gc
pub mod HashTable
pub mod Pairs
pub mod Sha2
pub mod Sort
pub mod Threads
pub mod Utf8
pub mod Tests
