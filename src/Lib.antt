-- ===== src/Lib.antt =====
-- A model of the erlxsl linked-in driver, the C code that lets Erlang programs run XSLT
-- transformations through a pluggable provider library.
--
-- The program. The driver (c_src/erlxsl.c) is called by the Erlang emulator: `start_driver` makes
-- its handle, `outputv` takes a request, and `ready_async` answers it when the asynchronous call is
-- done. A request is a header and two buffers, packed by src/erlxsl_marshall.erl. `outputv` builds a
-- command with its task, its two documents and an empty result out of it, with the functions of
-- c_src/erlxsl_internal.h, and hands the command to an asynchronous thread, where `apply_transform`
-- calls the provider. A provider (inttest/c_src/test_engine.c is one) sees the command only through
-- the macros of c_src/erlxsl.h: it reads its task's documents and writes its result's buffer.
-- `ready_async` sends a term made of the result (c_src/erlxsl_driver.h) and frees the command. By
-- `call` the Erlang side sets the provider up, which `load_library` and `init_provider` of
-- c_src/erlxsl_internal.h load, and sends it commands, which c_src/erlxsl_ei.h decodes into the items
-- of a command.
--
-- The files.
--   Prelude       names from the standard library, Boolean tests and list operations
--                 (Prelude/Tests, Prelude/Lists)
--   Types         the structs and enums of c_src/erlxsl.h and c_src/erlxsl_internal.h
--   Memory        the heap, `ALLOC`, `DRV_FREE`, and the monad of functions that use it
--                 (Memory/Steps: one access, Memory/Blocks: lists of blocks, Memory/WellFormed,
--                 and rules for all functions of the monad: Memory/Keeps for what memory keeps,
--                 Memory/Answers and Memory/Gives for results, Memory/Finishes for the end of fuel)
--   CString       strlen, strcpy and strcat over the bytes of a block (CString/Laws)
--   Internal      `init_iov`, `init_doc`, `init_task`, `init_command`, `free_iov`,
--                 `free_parameters`, `free_document`, `free_task`, `free_command` and
--                 `free_async_state` (Internal/Owned: the blocks that a structure owns,
--                 Internal/Init and Internal/InitTask: building, Internal/Free and
--                 Internal/FreeCommand: freeing, Internal/Cycle: both, Internal/Extends: in
--                 a larger memory)
--   Api           the provider's macros that read: `get_task`, `get_doc_buffer`, `get_doc_size`
--   ResultBuffer  the provider's macros that write: `make_result_buffer`, `ensure_buffer`,
--                 `write_result_buffer`, `clear_result_buffer` (ResultBuffer/Write: with room,
--                 ResultBuffer/Overflow: of a new command, ResultBuffer/Full: without room,
--                 ResultBuffer/Clear)
--   CommandData   `write_cmd_data`, `get_cmd_data` and `get_item`, the items of a command
--                 (CommandData/Append, CommandData/Pointers: `write_cmd_data2`)
--   Ei            `decode_ei_cmd`, over an ei library (Ei/Progress, Ei/Overflow)
--   Request       what `outputv` reads of an ErlIOVec: header, sources and copies
--                 (Request/Header: the Erlang side's packing, Request/Copy)
--   Driver        `try_driver_alloc`, `start_driver`, `outputv`, `ready_async`, `apply_transform`
--                 and the terms of a reply (Driver/Allocation, Driver/Prepared and Driver/Submit,
--                 Driver/Ignored, Driver/Refused,
--                 Driver/Returning, Driver/Reply, Driver/Formats, Driver/Unsent: `ready_async`;
--                 Driver/Contract: what a provider promises; Driver/Submitted, Driver/Finished,
--                 Driver/Session and Driver/Roundtrip: the whole way)
--   Traffic       a port that serves several processes, with its callbacks in any order
--                 (Traffic/System: the steps, Traffic/Held and Traffic/Apart: the blocks of a call,
--                 Traffic/Submits, Traffic/Transforms and Traffic/Answers: each step,
--                 Traffic/Served: a service's history, Traffic/Reached, Traffic/Runs and
--                 Traffic/Progress: all runs)
--   Loader        `load_library`, `init_provider`, `stop_driver` (Loader/Name, Loader/Stop,
--                 Loader/Refused)
--   Call          the `call` callback (Call/Commands)
--   Lifecycle     what every function keeps, and the callbacks of `driver_entry` in any order
--                 (Lifecycle/Trace; Lifecycle/Structures, Buffers, Decoding, Requests and Setup
--                 go through the functions)
--   TestEngine    the command table, the transform and `default_postHandle` of
--                 inttest/c_src/test_engine.c (TestEngine/Documents: what a provider
--                 is given, TestEngine/Transform, TestEngine/Commands: `default_command`)
--   Tests         runs and examples on small worlds (Tests/Cycle, Tests/Results, Tests/Requests,
--                 Tests/Replies, Tests/Formats, Tests/Sessions, Tests/Traffic, Tests/Decoding,
--                 Tests/Lifecycle)
--
-- The correspondence. A function keeps its C name. A function that touches memory is a `World → ...`
-- in the monad `M`: it returns a value and the new world, or meets a `Fault`, which is undefined
-- behaviour of the C code (an access to memory that is not allocated or has another type, a second
-- free, a string or a copy past the end of its block, a field read before it is written, a variadic
-- argument that was not passed) or, for loops, the end of the fuel. A `World` has the blocks by
-- address, the address of the next block, what the emulator was asked to do (`events`: failures,
-- asynchronous calls, terms sent) and an oracle `grants`, which says for each allocation request
-- whether it succeeds; a theorem about all oracles is a theorem about all ways to run out of memory.
-- A block is a struct or a sequence of bytes. The address of a block is the number of the request
-- that made it, so that no address is used twice, and a pointer that dangles is seen to dangle.
-- `malloc` on its own is not used by the code that is modelled; the one `free`, of an answer of the
-- test engine, is that of a block like the others. A struct's field that was not assigned is `none`.
-- Members of a union share a field.
--
-- Bounds. `Int32` is the low 32 bits of a number, and `to_size` and `to_int32` are the conversions
-- between it and `size_t`. The header's fields have 8 and 64 bits, and both byte orders of the
-- machine are covered. Fuel stands in the loop over a task's parameters (`free_parameters`, and
-- through it `free_task`, `free_command`, `free_async_state` and `ready_async`), where as many steps
-- as the command has blocks are enough, which is proved with the results on freeing; and in the
-- recursion of `decode_ei_cmd`, where more than the length of the buffer is enough.
--
-- Not modelled. The emulator (`driver_caller`, `driver_mk_port`, the binaries, the sending of
-- terms), the provider's entry points, the dynamic linker and the ei library are parameters
-- (`Emulator`, `Provider`, `DynamicLinker`, `Ei`). The asserts are compiled out, as they are without
-- DEBUG, and a line for the log is there only where it reads a string. Two callbacks do not overlap:
-- each runs to its end before the next, also the one on the asynchronous thread. Traffic takes one
-- process's request at a time from the emulator and lets any number wait; a result in another format,
-- a refused allocation and a request that is not in order are not among its steps. `make_pid_data` of
-- c_src/erlxsl.h, which no code uses and whose type `Uint` nothing declares, the port program's header
-- c_src/erlxsl_port.h, the stub and the harness under inttest/, and the Erlang code but for the
-- packing of a request's header are left out.
pub mod Prelude
pub mod Types
pub mod Memory
pub mod Internal
pub mod CString
pub mod Api
pub mod ResultBuffer
pub mod Request
pub mod Driver
pub mod Traffic
pub mod Loader
pub mod CommandData
pub mod Ei
pub mod Call
pub mod TestEngine
pub mod Lifecycle
pub mod Tests
