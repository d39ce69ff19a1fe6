-- ===== src/Lib.antt =====
-- rust-samp: a toolkit for SA-MP server plugins and open.mp components written in Rust.
--
-- A plugin is loaded by the server's single main thread, which calls its natives with cells of the
-- AMX virtual machine. The parts modelled here, each with its file:
--
-- - MainThread (crates/samp/src/mainthread.rs): worker threads post jobs, which the main thread runs
--   on its tick. `push`, `take_all` (Queue::take), `put_back`, `post`, `set_budget`, `budget` and
--   `run_pending` carry the source's names; the loop of `run_pending` is `drain`, and `execute`,
--   `past_deadline`, `start_deadline` and `finish` are its parts. What a job does and the clock are the
--   parameter `Env`. MainThread/Interleave takes the locked sections as atomic steps of a step relation.
-- - Debug/Types, Debug/Reader, Debug/Parse (crates/samp-sdk/src/debug/types.rs, parse.rs): the decoder
--   of the AMX debug block. The reader is a state monad over a buffer and a position; each loop of
--   `parse` is a `repeat` over its entry. The loop over the line table takes fuel, `max_lines + 2`
--   rounds, which is enough since every block of lines but the first adds a line or ends the loop.
-- - Debug/Query (crates/samp-sdk/src/debug/query.rs): addresses to lines, files and functions, and back.
-- - Debug/Stack (crates/samp-sdk/src/debug/stack.rs): the walk over call frames.
-- - Debug/Opcode (crates/samp-sdk/src/debug/opcode.rs): operand sizes and the handler table.
-- - Cell/Text (crates/samp-sdk/src/cell/string.rs): AMX strings. `find_cell` searches in `chunks` of
--   cells (as many rounds as cells, which is enough since a block holds a cell); `unpack` is the loop of
--   `to_bytes` over packed cells; `write_bytes` is `AmxString::new` over the cells of a buffer. A cell is
--   its bit pattern. Cell/Buffer (cell/buffer.rs): buffers clamped to the
--   data region, and `get_ref`, with `amx_GetAddr` as a parameter. Cell/Repr
--   (cell/repr.rs): conversions of cells. Cell/Args (args.rs): the arguments of a native. Cell/Error
--   (error.rs): the error codes.
-- - Amx (crates/samp-sdk/src/amx.rs): the AMX virtual machine wrapper. Amx/Memory has `read_cell`,
--   `write_cell`, `read_cells`, `read_bytes` and `read_code` over the machine's blocks of bytes, with the
--   checks of `data_ptr`; Amx/Scope has `Allocator` (its `drop` is `drop_allocator`), and Amx/Scope/Call
--   has `call_public` with the arguments that it pushes (call.rs), with the functions of the server's
--   table as the parameter `FnTable`; Amx/Natives has `call_native` with its parts.
-- - Logger (crates/samp/src/logger.rs). Backlog: the lines that wait for the server's log; each call of
--   `queue_for_server` and `flush_server_backlog` is one step of a run. Format: `apply_format` and
--   `render_placeholder`; a round of the loop takes a character at least, so the length of the template
--   is fuel enough. Config, Config/Builder: `LoggerConfig`, its setters, and `apply_env` with a part for
--   each variable. Rotation: the log file, `rotate`, `rotate_shift`, `reopen_active` and
--   `find_next_archive_index` on an explicit disk, with the failing calls as the argument `Faults`; the
--   loop of `rotate_shift` is `shift_from`, and `write_line` is what `log` does with the file. Log:
--   `LoggerImpl::log`, which joins the four.
-- - PawnInclude (crates/samp/src/pawn_include.rs). Types: the data. Scan: `without_comments`, as a
--   machine with a mode. Parse: `split_arguments`, `parse_argument` and `parse_declarations`, whose loop
--   is `rounds`; a round goes beyond a keyword, so the length of the text is fuel enough. Compare:
--   `compare_declarations`, `registered`, `missing_forwards`, and `compare_with` behind its templates. Document: `pawndoc`.
--   Template: `Template::render` with its parts; a round of its loop takes two braces at least, so the
--   length of the template is fuel enough; and `render_include` of plugin.rs.
-- - Plugin (crates/samp/src/runtime.rs, interlayer.rs, events.rs, amx.rs). Runtime: the state of the plugin.
--   Registry: the list of the scripts. Events: the tables of the handlers, `dispatch` and `exec_detour`,
--   with the handlers and the public itself as parameters that change a `World`; a panic is one of the
--   answers of a handler, which also gives back the arguments as it leaves them. Lifecycle: the server's calls; what they do outside of the runtime is a list of
--   effects, in order, and what the server answers is the argument `Server`. `omp_on_ready` and
--   `omp_cleanup` are composed of their parts. Lifecycle/Calls has any sequence of calls, with `step`.
--   Instance: `with_instance` and `NativeFrame` (plugin.rs), for any nesting of code on the main thread.
-- - Base: shared names; Base/Words has 32-bit integers as bit patterns, Base/Bits the digits of
--   `&`, Base/Search the iterator methods, Base/Slices `take` and `drop`, Base/Text the methods of
--   `str`, for texts as lists of code points.
--
-- The arguments of a native are cells, from which strings and buffers are made; a call of a native
-- from Rust builds the block that these are read from. The debug parser feeds the queries; the stack
-- walk reads cells through a function that it is given. A logged record passes the level, the templates,
-- the backlog and the rotation. A script that arrives goes through the registry to the tables of the
-- events, which the detour reads; the handlers get the arguments of the public as those of a native.
--
-- Not modelled: of the plugin lifecycle, the installation of the detour, the routing of logs and the
-- plugin's own callbacks, which are effects only; of the logger, installation, banner, sinks, clock and compressed
-- archives; of the Pawn includes, files and the environment; references to cells, and the calls of the
-- wrapper that only forward to the server; the text codecs, the open.mp component interface (foreign
-- vtables through raw pointers), the generated wrappers, the procedural macros, the repository's own
-- tools and the examples. A `Mutex` is modelled by atomic steps, and `Vec::with_capacity` only by the
-- bound that it is given.
pub mod Base
pub mod Amx
pub mod Logger
pub mod MainThread
pub mod PawnInclude
pub mod Cell
pub mod Debug
pub mod Plugin
