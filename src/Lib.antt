-- ===== src/Lib.antt =====
-- CCcloud: a file store over gRPC with a server, clients, a logger and lock-free queues.
--
-- Parts of the program and their modules
--
-- - `src/tools/RingBuffer.hpp`, `LockFreeMPMCQueue<T>`: module Ring. A ring is the record `Ring` of
--   the class's members; `try_enqueue`, `try_dequeue`, `enqueue`, `dequeue`, `is_empty` (`empty`) and
--   `size` are the methods as one thread runs them. Ring/Threads has `try_enqueue` and `try_dequeue`
--   one atomic access at a time, with any number of threads. Ring/Queue is the specification, a
--   bounded FIFO queue.
-- - `src/tools/EBRQueue.hpp`, `EBRManager`: module Epoch. `Manager` holds the global epoch, the
--   registry and the threads' local variables; `freed` lists what has been deleted. `enter`,
--   `leave`, `retire`, `bump_epoch` and `unregister_thread` are the methods of these names, and
--   `destroy` is the destructor.
-- - `src/tools/EBRQueue.hpp`, `MPMCQueue<T>`: module Mpmc. `step` is one shared access of `enqueue`,
--   `dequeue` or `empty` by one thread. A weak compare-exchange may fail for no reason. Mpmc/Trace
--   interleaves the threads and records when a value is linked and when it is claimed. The queue
--   calls Epoch where the source calls `EBRManager`. Mpmc/Solo follows one thread while the others
--   rest, Mpmc/Calls has whole calls, Mpmc/Reclaimed follows each node to the manager, and
--   Mpmc/Destroy has the exit of the program up to `~EBRManager`, which runs before `~MPMCQueue`.
-- - `src/tools/BaseQueue.hpp`: module Queue. `BaseQueue` is a record of the three methods and of the
--   laws that their callers rely on, for calls made one after the other; `mpmc_queue` in
--   Mpmc/Calls/Refines fills it. Queue.Client is a client of any such queue.
--   The ring does not fill it: its `enqueue` and `dequeue` spin where it is full or empty.
-- - `src/logger/async_logger.hpp`: module Logger has the log entry, Logger.Flush the queue of entries,
--   `append`, `stop` and the background thread, a turn of whose loop is one step (`flush_round` and
--   `end_turn`). Logger.Roll has the directories by date and the rolling of the files, and
--   Logger.Format the lines (`format_log_entry`), with `put_time` as a parameter;
--   Logger.Stored joins the three. Logger.Flush keeps the entries in a list; Logger.Queued is the
--   logger over any `BaseQueue`, as the template is: `background_flush` there is one step of the
--   background thread, with at most one call of the queue, and Logger.Queued.Books interleaves the
--   steps with `append` and `stop`. An `open_log_file` that throws terminates the program.
-- - `src/logger/AccessLogger.hpp`: module Access, on the strings of module Text. The clock, the
--   uuid and the peer's name are arguments; the entry that goes to the logger is the result.
-- - `src/server/AsyncUploadCall.hpp`, `AsyncDownloadCall.hpp` and `AsyncDeleteCall.hpp`: modules
--   Server.Upload, Server.Download and Server.Delete. `create` is the constructor, and
--   `on_read_done`, `on_write_done`, `on_done` and `on_cancel` are the callbacks of these names.
--   What a call asks of gRPC is a list of requests; what the disk does is an argument of each
--   callback. The calls log through Access.
-- - `src/server/server.cc`: the handler that makes a reactor for each upload is `new_calls` in
--   Server.Upload.Many, which has any number of uploads on one disk, their chunks interleaved.
-- - `src/server/FileServiceImpl.hpp`: module Service. `upload_file`, `download_file` and `delete_file`
--   are the handlers, each run to its end; a `Reply` is what a handler leaves.
-- - `src/client/CCcloud_client.hpp`: module Client.Simple. Client.Simple.Session joins its calls to
--   the handlers of Service. gRPC is the parameter `Transport`, and `IsReliable` says that every
--   message arrives once and in order and that an exception of a handler is an error.
-- - `src/client/naive_client.cc`: module Client.Command, the choice of a call.
-- - `src/client/async_client.cc`: module Client.Bench, with the command line in Client.Bench.Args and
--   the data of the uploads in Client.Bench.Dummy. Client.Tasks has `run_upload_only`,
--   `run_download_only` and `run_delete_only`; a completion queue is a parameter, the results of its
--   calls of `Next` in order, and a task is the list of what it has asked for.
--   Client.Tasks.Together joins the uploads of all tasks to the asynchronous server.
-- - What all of these use of `std::ifstream` is module Stream, with the reading loop in Stream.Loop, and
--   of `std::stoi`, `std::stoll` and `std::to_string` module Text.Numbers.
--
-- Bounds and fuel
--
-- `size_t` and `uint64_t` sums wrap (`u64`), and ports are taken modulo 2 ^ 32. The spinning
-- `enqueue` and `dequeue` of the ring take fuel, one unit per attempt: with no other thread
-- running, the second attempt sees what the first one saw, so one unit decides. The loops of
-- `MPMCQueue` are not on fuel, since each turn is a sequence of steps. `serve` in Server/Download
-- counts callbacks; a file of n bytes needs at most n + 1 of them. `background_flush` in
-- Logger.Flush counts turns; after `stop`, one more than there are entries is enough.
-- `flush_steps` in Logger.Queued.Ends counts steps of the background thread, of which ten for each
-- entry and eighteen more are enough. A call in Mpmc/Calls takes its number of steps as fuel, and
-- there is a number that ends it from every reachable state. The loops over a stream count reads;
-- one more than the file has bytes is enough, since a read after which the loop goes on has taken
-- a byte. `fill` counts pieces of the dummy data, of which there are no more than bytes, and
-- `to_string` digits. `drain` and `read_messages` count calls of `Next`; one more than the queue
-- has events left, or messages to deliver, is enough.
--
-- What is not modelled
--
-- Weak memory: shared accesses happen one after the other. An address is not used twice while a
-- queue lives. The destructor of `MPMCQueue` is left out: at the exit of the program it calls
-- `dequeue` on an epoch manager that has been destroyed. In Logger.Queued the calls of the queue
-- come one after the other, a call of `append` is one step, and what is given to an open file is
-- taken to be in it. `main` of `src/client/async_client.cc` and its three phases are left out
-- after the command line: `Next` of gRPC blocks until there is an event, so whether a phase ends
-- rests on the server; a completion queue of Client.Tasks is what the calls of `Next` return where
-- they return. `src/client/client_api.hpp`, which uses a namespace that no file declares, is left
-- out, as are terminal output, the start-up code of the servers and the protocol code that protoc
-- generates under `src/generated`.
pub mod Prelude
pub mod Ring
pub mod Epoch
pub mod Queue
pub mod Mpmc
pub mod Text
pub mod Stream
pub mod Logger
pub mod Access
pub mod Server
pub mod Service
pub mod Client
