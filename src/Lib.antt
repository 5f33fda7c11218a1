-- ===== src/Lib.antt =====
-- Laboratory programs of this repository, modelled and proved: the comment remover (SP_LAB1), the
-- heap manager (SP_LAB3), the front end of the shell (SP_LAB4) and the key-value store (SP_LAB5).
--
-- Decomment (SP_LAB1/decomment.c). Decomment.antt has the states, `transitionState` and
-- `executeAction`, each with one function per state, in snake case. Decomment/Main.antt has
-- `main`: its locals are the record `Loop`, one round of the loop is `body`, and standard input,
-- output and error are a list of characters, a list, and the line that the error message names.
-- Decomment/Emit describes the output by the automaton alone; Lines is about newlines, the
-- reported line and the exit status; the `int` of the current line is kept modulo 2 ^ 32, and C
-- leaves it undefined from 2 ^ 31 - 1 newlines on. Again is about a second run; Pieces describes
-- source texts as lists of pieces.
--
-- Heap (SP_LAB3/src). Heap/Chunk.antt is chunk.c: memory is a list of units of 16 bytes, a
-- pointer is the number of a unit, and a header and a footer are records of one layout.
-- Chunk/Adjacent is about the way from a chunk to its footer and to its neighbours.
-- Heap/Manager.antt and Heap/Malloc.antt are heapmgr1.c, with its global variables in the record
-- `Heap`: Manager has `split_chunk`, `merge_chunk`, `insert_chunk` and `remove_chunk_from_list`,
-- Malloc the checks, `heapmgr_malloc` and `heapmgr_free`. What `sbrk` answers is a parameter, and
-- a heap that is not initialised is `none`. The loops run on fuel, one more than the units of the
-- memory: a walk visits no chunk twice, and a chunk takes two units at least.
--
-- Heap/Blocks describes a memory as the list of its chunks, by address: Blocks/Cut is about
-- cutting and joining chunks, Blocks/Rep about what a memory holds of them, and Rep/Write and
-- Rep/Units about single writes. Heap/Links describes a doubly linked list by its two functions,
-- and Links/Change and Links/After change it. Heap/FreeList joins the two: `Listed` says that the
-- free list in the memory is a given list, and Insert, Remove, Split, Merge and State say what
-- each operation makes of it; Manager/Merge is about a merge alone. Malloc/Sound says when a heap
-- is sound: exactly the free chunks are listed, no chunk is empty, and no two free chunks touch.
-- Malloc/Take, New, Carve, Grow and Alloc are about `heapmgr_malloc`, Absorb, Neighbours, Before
-- and Free about `heapmgr_free`; Manages has the abstract view, a table of allocated chunks, and
-- Session (with Written) a program that calls the two, with an `sbrk` of its own at each request,
-- and writes to what it was given.
--
-- Heap/Bins.antt is about the bins of heapmgr2.c: `find_bin`, `find_best_fit_chunk`, and the
-- insertion and removal of a chunk, which are those of heapmgr1.c on the head of a bin.
-- Bins/Ranges is about the sizes of a bin, Bins/Search about the search, Bins/Lists about the
-- heads, and Bins/Sorted about all lists at once.
--
-- Shell (SP_LAB4). Shell/Token.antt and Shell/DynArray.antt are token.c and dynarray.c: an array
-- has its two lengths and its slots, a slot is an optional element, and a failed `assert` is
-- `none`. DynArray/Contents relates an array to the list it holds. Shell/Lexer.antt is `lex_line`
-- of lexsyn.c: `Lex` holds its locals, `step` is the `switch`, and an access out of bounds is
-- `stuck`. The line is the list of its characters before the NUL, so the loop is by recursion on
-- it, and needs no fuel. Lexer/Buffer is about the character buffer, Words is the automaton on
-- lists, Start, Moves, Refines and Loop relate the two, and Show and Long are about lines that
-- are printed and lines that are too long. Shell/Syntax.antt is `syntax_check`, with a round of
-- its loop for each token; Syntax/Grammar describes by lists what is wrong with a token.
-- Shell/Util.antt has the questions of util.c. What `malloc` answers is a parameter.
--
-- Store (SP_LAB5/src). Store/RwLock.antt is rwlock.c. A function is one turn of a thread up to
-- the place where it gives the mutex away: it returns, or it waits and is resumed by its `retry`.
-- What the thread library answers is a parameter, and so is what the memory of a new lock holds:
-- `rwlock_init` frees the ring pointer that it finds, which is undefined for a wild one.
-- RwLock/Threads has `n` threads that take turns in any order (`Step`, `Reach`), and a waiting
-- thread may go on at any time, since POSIX allows wake-ups without a signal; there the calls of
-- the library succeed. Exclusion and Arrival (with Turns) are invariants by induction on `Reach`,
-- and Queue reads the ring of waiting writers as a list. Store/Chain.antt and Store/Table.antt
-- are hashtable.c: a bucket is a list of nodes, an operation reads the head, takes the lock, runs
-- its critical section and gives the lock back. Machine arithmetic is written out: the hash is
-- modulo 2 ^ 32 and the counters are modulo 2 ^ 64. Table/Valid says when the fields of a table
-- agree, Free and Calls are about the lock around a section, Map has the abstract view, a
-- function from keys to values, Create, Change and Remove are about the operations that write,
-- Fresh is about a new table (from 2 ^ 31 buckets on, `hash_init` is taken as undefined), and
-- Stale is about an insertion that reads its head before another one (`hash_insert_between`).
-- Store/Parse.antt and Store/Serve.antt are skvslib.c, with the C library's `strtok`, `strstr`
-- and `toupper`; Parse/Requests and Serve/Protocol are about the requests that a client sends.
--
-- The files named Tests apply the theorems to concrete inputs. Base has the shared names: tests
-- on numbers, lists that are measured and indexed by native numbers, and integers.
--
-- Not modelled: the execution of commands in the shell (processes, pipes, signals), the sockets
-- of the key-value store, the splitting, allocation and release of heapmgr2.c, the directory
-- lister (SP_LAB2), everything that only prints or gives memory back to the system, and the
-- copies and older versions of the files above. The sizes of chunks are `int` in chunk.h and
-- natural numbers here: a sum in `merge_chunk` that is too large is `none`, and the other sizes
-- are those of requests, below 2 ^ 31 units by the bound on requests, or smaller than a size
-- before. Table operations are interleaved only in Table/Stale; elsewhere a call runs without
-- interruption. Which waiting thread a signal wakes is left open, so nothing is said about
-- liveness of the lock.
pub mod Base
pub mod Decomment
pub mod Shell
pub mod Store
pub mod Heap
