-- ===== src/Lib.antt =====
-- The core of BSPonMPI, a library of the bulk synchronous parallel model.
--
-- A program runs in supersteps on `nprocs` processors. During a superstep each processor only
-- writes to its own BspObject: bspx_put, bspx_send, bspx_push_reg, bspx_pop_reg and
-- bspx_set_tagsize append actions to its delivery table, which has one column for each
-- destination, and bspx_get appends requests to its request table. At the end of the superstep
-- the tables are exchanged. An address of one processor is translated to that of another through
-- the memory register, whose rows hold the addresses that were registered together.
--
-- The files and what they are about:
--   Base        C arrays as functions of the index, arithmetic of 32 bits, Boolean tests, and
--               the outcome of an operation: a value, an abort, or a fault (NULL is dereferenced)
--   Exptable    src/bsp_exptable.h, src/bsp_exptable.c: the table that all others are made of
--   Memreg      src/bsp_memreg.h, src/bsp_memreg.c: the memory register
--   Delivtable  src/bsp_delivtable.h: six linked lists in each column of a table
--   Mesgqueue   src/bsp_mesgqueue.h: the queue of received messages
--   Reqtable    src/bsp_reqtable.h, src/bsp_reqtable.c: the requests of bspx_get
--   Execute     src/bsp_delivtable.c: what a received table does to memory, register and queue
--   Private     src/bsp_private.h: the object of a processor
--   Bspx        src/bspx.c: its initialization, and the operations on registered memory
--   Bsmp        src/bspx.c: the operations on messages
--   Sync        src/bspx.c: the end of a superstep, with the communicators as parameters
--   CommSeq     src/bsp_comm_seq.c: the communicators of one processor
--   GlobalDrma  src/bsp_global_drma.c: arrays that are spread over the processors
--   Fold        include/bsp_fold.h: the reduction over the processors
-- and of the C++ layer, in which several processes run on one node:
--   HeaderQueue, Avector, MessageBuffer
--               src/bsp_cpp/HeaderQueue.h, include/bsp_tools/Avector.h and MessageBuffer.h: a queue in a
--               table of one column, a vector that grows, and copied blocks in such a vector
--   LocalDelivery
--               src/bsp_cpp/bsp_localdelivery.h: the puts and messages between processes of a node
--   RegChecks   src/bsp_cpp/bsp_contextimpl_memreg.cpp: the exchange of registrations between the
--               processes, and the checks that they agree
--   TaskMapper  include/bsp_cpp/TaskMapper.h: which process runs on which node
--   Context     src/bsp_cpp/bsp_contextimpl.h, src/bsp_cpp/bsp_contextimpl.cpp: a process of a node, and
--               how the messages that the node received are handed to its processes; the
--               children are about single operations, and Local about the loops over all processes
-- and of the thread safe build:
--   Threads     src/bsp_threadsafe.h, src/bsp_mutex.c: threads that share a state under a lock
--   Www         src/bsp_www.c: the calls of the C interface, which threads make
-- An operation has the name of its C function without the prefix of its table, so that
-- deliveryTable_push is Delivtable.push. A module below a file states what the operations of the
-- file do; Tests modules apply the theorems to concrete objects.
--
-- What the model takes over from C, and what it does not:
--   * counts of rows and slots, and the numbers of bytes that are computed from them, are
--     `unsigned int` and are reduced modulo 2 ^ 32 where the source computes them; an `int` is kept
--     as its pattern of 32 bits, is compared as a signed number (int_lt) and is extended with its
--     sign where it is converted to a wider type (widen); sizes are those of an LP64 machine;
--   * the theorems assume that a table, should it have to grow, stays below 2 ^ 31 bytes (CanGrow),
--     which is what the `int` offsets of an exchange can express; IsValid has that bound for the
--     table as it is, and a table in order (IsDelivery) has slots of 8 bytes;
--   * `fresh` is what an allocated block holds and `stale` what an unassigned local variable
--     holds; both are arguments, and the theorems hold for all of them. An allocation never fails;
--   * an index over a table is not checked by the operations;
--   * loops over columns recurse on the number of columns; the searches recurse on the number of
--     rows, which bounds them, except that the search of memoryRegister_memoized_find has no bound
--     in the source: the model faults where it would leave the block;
--   * the loops of LocalDelivery have as fuel the number of headers, of which each round takes one;
--     the transfers of GlobalDrma have the number of bytes, since a round that moves none is repeated
--     for ever in the source; the search for a handle has more rounds than there are handles;
--   * freeing memory, clocks, printing and the time of the start are left out;
--   * in Threads an operation loads the whole shared state in one step and stores it in another, and
--     any other thread may step between the two; in Context the lock TSLOCK is left out.
-- Not modelled: MPI itself, which is a parameter; the other collectives; and of the contexts of the C++
-- layer, the exchange between the nodes at the end of a superstep and what the registrations change.
pub mod Base
pub mod Exptable
pub mod Memreg
pub mod Delivtable
pub mod Mesgqueue
pub mod Reqtable
pub mod Execute
pub mod Private
pub mod Bspx
pub mod Bsmp
pub mod Sync
pub mod CommSeq
pub mod GlobalDrma
pub mod Fold
pub mod HeaderQueue
pub mod Avector
pub mod MessageBuffer
pub mod LocalDelivery
pub mod TaskMapper
pub mod RegChecks
pub mod Context
pub mod Threads
pub mod Www
