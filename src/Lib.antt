-- ===== src/Lib.antt =====
-- Verification of the programs of the operating systems laboratories. Each laboratory is a small
-- C program of its own over POSIX threads, semaphores, processes, files and sockets; the programs
-- share nothing but their habits: macros that end the process when a call fails, loops that go on
-- after EINTR, loops that repeat a partial read() or write().
--
-- How the code is modelled. A thread or a process is a machine that stops at its calls. A program
-- counter (`Pc`, `Client`, `Producer`, …) names the call it stands before and holds the locals that
-- are live there; a record holds the rest of its state. Two forms occur:
--   * a function `step` from the state, the program counter and the answer of the system to the
--     next ones (Copy, Chat, Logger, EchoFifo, the handlers of the servers); a run is a list of
--     answers or a relation over them;
--   * a step relation `Step`, an indexed data type with a constructor for each access to shared
--     memory or call on a semaphore, for programs with several threads or processes (ProdCons.Many,
--     Scheduler, Limited.Server, EchoLog, Accum, ChatFifo, PipeServer, TimeServer,
--     NamedSemaphore). `Reach` is its closure, so every interleaving is covered.
-- No function runs on fuel: a loop is as many steps as it takes.
-- What the operating system does is data of a step: an answer of Sys, with the documented bounds
-- as hypotheses (recv() gives at most what it is asked for, send() takes at most what it is given).
-- A counting semaphore is a number; a wait on it is a step that needs a positive value.
--
-- The files:
--   * Prelude: shared names, Boolean tests on numbers, lists over the native numbers, integers.
--     Threads: families indexed by thread. Ring: the circular buffer of 128 slots. Sys: errno and
--     the answers of calls.
--   * Timer: lab02-performance-thread/performance.c, the arithmetic on struct timespec.
--   * Accum: lab02-performance-thread/concurrent_threads.c (Racy) and sol-concurrent_threads.c
--     (Slots), which lab03's concurrent_threads_solution_timer.c only times.
--   * Scheduler: lab03-thread+scheduler/scheduler_solution.c, `client` and the driver of main().
--   * Recap: lab04-recap+named-semaphore/recap/riepilogo.c; System has main_process, child_process
--     and thread_function, Stats the search for the child with the most accesses.
--   * NamedSemaphore: lab04-recap+named-semaphore/named_semaphore, server.c and client.c.
--   * ProdCons: lab05-producer-consumer; Transaction is performRandomTransaction, which the four
--     programs share, Many is many_prod_many_cons.c (performTransactions, processTransactions),
--     Plain has the threads without a mutex, with OneOne, OneMany and ManyOne for the three other
--     programs.
--   * Copy: lab06-cpoy+timeserver/copy/copy.c, performCopyBetweenDescriptors and main().
--   * TimeServer: lab06-cpoy+timeserver/time_server, server.c and client.c.
--   * Servers: lab08-socket-process-thread; Handler is connection_handler, Base, Processes and
--     Threaded are the loops of main() in base.c, multiprocess.c and multithread.c.
--   * Logger: lab09-fifo-logger/Logger/server.c, startLogger. PipeServer: the whole of that file,
--     main() and connection_handler in the server process, and the Logger at the other end of the
--     pipe.
--   * EchoFifo: lab09-fifo-logger/EchoFIFO/echo.c, from its first write() on, with cleanFIFOs.
--   * Chat: lab10-chat-socket+fifo/chat-socket.c; Threads has receiveMessage and sendMessage, Args
--     the command line of main().
--   * ChatFifo: lab10-chat-socket+fifo/chat-fifo.c, listenOnFIFO() and connectOnFIFO() in two
--     processes, with the threads of Chat at the two FIFOs between them.
--   * Limited: lab11-echoserver-process-thread/ES-MP-LimitConn/multiprocess.c; Handler has
--     connection_handler, Server the loop of main() with its children and the semaphore. Threaded
--     is multithread.c beside it.
--   * EchoLog: lab11-echoserver-process-thread/ES-MT-Logger/echo_server_mt_logger.c, my_log and
--     logger; Handler is its connection_handler, and Server puts main() and the threads together.
-- In each directory, Tests has the runs at concrete inputs; the other modules have the proofs.
--
-- Types. A number of C is a natural number where the code keeps it in a range (counts of bytes,
-- indices of the buffer), and a byte is a number. An unsigned long has its wrap-around written out
-- (Accum). Signed numbers overflow without a defined result: get_nanoseconds() and the counters of
-- riepilogo.c have no result then, and the deposit of ProdCons wraps around as an `int` does on
-- usual machines, while the theorems about its sum ask that no sum on the way leaves the range.
--
-- Failures. riepilogo.c's runs go on after a call has failed; the field `broken` says that one has,
-- and the barrier and the mutual exclusion do not depend on it.
--
-- Not modelled: printf() and error texts, allocation but for the buffers of Servers.Threaded and
-- PipeServer, the set-up of sockets and signals, the time that sleep() and getchar() take, the
-- clients of the echo servers, and the programs of lab01, with reactivity.c of lab02, which keeps no
-- state.
pub mod Prelude
pub mod Threads
pub mod Sys
mod Ring
pub mod Timer
pub mod ProdCons
pub mod Copy
pub mod Logger
pub mod Servers
pub mod PipeServer
pub mod Recap
pub mod Limited
pub mod Chat
pub mod ChatFifo
pub mod Scheduler
pub mod EchoLog
pub mod EchoFifo
pub mod Accum
pub mod TimeServer
pub mod NamedSemaphore
