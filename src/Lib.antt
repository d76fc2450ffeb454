-- ===== src/Lib.antt =====
-- NetPIPE: a measurement sends messages of growing size to a neighbour and back. Python calls the
-- core (src/netpipe.c), which calls one protocol module through the functions that src/netpipe.h
-- declares.
--
-- Base has the shared names, Boolean tests, integers, lists and bits; Effect the state monad of C
-- code (a call returns, ends the process, is undefined, or waits for ever) with its rule for total
-- correctness, Returns; Memory the C heap as blocks of bytes, so that an access out of bounds or
-- to a freed block is undefined; Machine the state of a process: ArgStruct, the Netpipe object,
-- the globals, the heap, what was printed, the state of the module and that of the system.
--
-- Lfsr has lfsr32, lfsr58 and lfsr23; Pattern has lfsrset and lfsrcheck. Netpipe is the rest of
-- src/netpipe.c: Buffers (MyMalloc, FreeBuff, InitBufferData, CheckBufferData), Run
-- (netpipe_run_iters, When), Object (netpipe_object, Netpipe_get), Integrity (SetIntegrityData,
-- VerifyIntegrity), Pointers (AlignBuffer, AdvanceSendPtr, AdvanceRecvPtr, SaveRecvPtr,
-- ResetRecvPtr), Cache (mymemset, flushcache). Netpipe.Run.Protocol is the record of the functions
-- of a module, and Netpipe.Delivery.Delivers what the core relies on in them; Netpipe.Session
-- proves netpipe_run_iters from it. Sockets is the record of the system's calls, Sockets.Stream
-- says when a socket is a reliable stream. Tcp is src/tcp.c, and Tcp.Delivery fills Delivers from
-- its theorems. Mpi is src/mpi.c over a record of the MPI library, Pvm is src/pvm.c over one of
-- the PVM library, and Tcgmsg is src/tcgmsg.c over one of TCGMSG. Copy is src/MP_memcpy.c with the
-- two functions of src/memcpy.c that copy.
--
-- Verbs is the record of the InfiniBand verbs and the threads that src/ibv.c calls, and Ibv is
-- src/ibv.c over it: Device (initIB step by step, finalizeIB), Events (EventThread and
-- event_handler, one step at a time), Exchange (readFully, Sync, the times, the counts,
-- AfterAlignmentInit), Transfer (PrepareToReceive, SendData, RecvData, Reset), Buffers (MyMalloc,
-- FreeBuff) and Setup (Init, Setup, establish, CleanUp). Ib is src/ib.c over a record of the
-- Mellanox VAPI in the same parts, with its completion handler in Ib.Handler; Ib.Device.Stack says
-- which objects its adapter holds. Polling has the busy waits on memory that others write,
-- Polling.Arrival says when one ends, and Armci is src/armci.c over records of its libraries:
-- Nodes (the linked list of allocations), Hosts (set_armci_hostname) and Transfer (the operations
-- that netpipe.c calls). Armci.Chain reads the list as cells, Armci.Represents as a list of
-- allocations, and Armci.Simulation compares the operations, Armci.Simulation.Runs runs of them.
-- Shmem is src/shmem.c, Mpi2 src/mpi2.c and Atoa src/mpi_atoa.c, each over a record of its
-- library. Ibv.Device.Ledger says which objects an adapter holds for a process,
-- Ibv.Device.Greeting what the socket and the queue pair do while two sides connect, and
-- Ibv.Events.Counted how completions are taken, and Ibv.Transfer.Silent.Channels which queues
-- give events to a channel. Tests has a small system, small adapters and
-- libraries, and the theorems applied to them.
--
-- Bytes and words are native numbers below 2 ^ 8 and 2 ^ 32, and the wrap of unary minus is
-- written out. A pointer is a block with an offset. The loops of readFully, SendData and RecvData
-- run on one round more than there are bytes left: each round moves a byte or ends the loop. The
-- loop of establish takes the number of tries, since a neighbour may refuse for ever, and the busy
-- waits of src/ibv.c, src/ib.c, src/armci.c, src/shmem.c and src/mpi2.c take the number of looks:
-- between two looks the adapter writes into memory or the event thread or the completion handler
-- takes a step. mfind of src/armci.c takes rounds, more than there are nodes.
--
-- Not modelled: the Python type and its tables, the argument vector, debug output, the text of
-- messages before an exit, code under `#if 0`, floating point (the clock's numbers and their
-- operations are a parameter), the text of Python's errors (a reply says which one is set), the copy of long messages in src/MP_memcpy.c (its loop holds bytes
-- that are no C), the log files of src/ibv.c and src/ib.c, the clearing of the flag by
-- PrepareToReceive between two steps of the event thread, and src/lapi.c, src/gm.c and
-- src/gpshmem.c, the modules for three more networks.
pub mod Base
pub mod Effect
pub mod Memory
pub mod Lfsr
pub mod Machine
pub mod Pattern
pub mod Sockets
pub mod Verbs
pub mod Ibv
pub mod Tcp
pub mod Mpi
pub mod Pvm
pub mod Tcgmsg
pub mod Polling
pub mod Armci
pub mod Ib
pub mod Shmem
pub mod Mpi2
pub mod Atoa
pub mod Copy
pub mod Netpipe
pub mod Tests
