-- ===== src/Lib.antt =====
-- A model of parts of kotatsu, a C++ library for asynchronous programs, with theorems about it.
--
-- The parts and their sources:
--
-- Base: what the modules share: the library's names, Boolean tests on numbers, lists over the native
-- numbers, and `Expected`.
--
-- Support.Text: what the sources use of the standard library on text: searches, prefixes, decimal numbers
-- and `std::from_chars`. Support.Unicode: include/kotatsu/support/utf8.h and utf16.h, from
-- `detail::decode_sequence` to `from_utf16` and `to_utf16`.
--
-- Support.Glob: include/kotatsu/support/glob_pattern.h and src/support/glob_pattern.cpp. The parent has
-- the literal head, atoms, `escape` and `split_root`; `Bracket` the bracket expressions and their
-- classes, `Braces` the brace expressions and the arms they expand to, `Compile` `compile_arm`, with
-- `Compile.Plan` its second half, `Create` `create` and `match`, with `Create.Expand` its loop over the
-- arms and `Create.Arms` `match_arms`, `Execute` what matches an arm, with `Execute.Loop` `execute`, and
-- `Tokens` `match_tokens`. Tokens, segments and arms hold their own texts and lists, where the code keeps
-- ranges of the pools of the pattern.
--
-- Async.RingBuffer: src/async/io/ring_buffer.h and ring_buffer.cpp. `Ring` is the class, each operation
-- is the method of that name. `Stream` has what src/async/io/stream.cpp does to fill the buffer, with the
-- object of stream_self.h as far as that: a read is `on_alloc`, what libuv writes into the room it was
-- given, and `on_read`, and the reader may take bytes between the two, as any run in `Queue` may.
--
-- Async.Sync: include/kotatsu/async/runtime/sync.h and src/async/runtime/sync.cpp. `State` has the store
-- of primitives and waits, `Primitives` what a program calls on a mutex, semaphore, event or condition
-- variable and `wait_node::grant`, `WaitNode` the awaiting, the cancel, the abandonment and the
-- resumption of a wait, with `async_node::cancel` (src/async/runtime/node.cpp) and `drain_deferred`
-- (src/async/io/loop.cpp) as far as they concern a wait. A program is any sequence of these operations
-- (`Step` and `Reach`).
--
-- Async.Cancellation: include/kotatsu/async/runtime/cancellation.h and
-- src/async/runtime/cancellation.cpp. `State` has the nodes that `CancellationState` links by pointers,
-- and what was called, by `cancel` or by `on_cancel` at once, and what was deregistered, which the code
-- does not keep. `Machine` runs a program of the caller's one call at a time, callbacks included. The
-- programs are a parameter, and finite: that the caller's code ends is supposed.
--
-- Fs.Path: include/kotatsu/fs/path.h and src/fs/path.cpp. The parent has prefixes and roots, `Names` the
-- components and what is read of the last one, `Edit` what changes a path, `Within` `strip_prefix`,
-- `Ancestors` the view of the parents; `Join` and `Drive` are about `push` on POSIX and on a Windows
-- drive.
--
-- Ipc.Framing: include/kotatsu/ipc/framing.h and src/ipc/framing.cpp. `Header` has the reading and the
-- writing of a header block, the parent has the phases of `FrameParser::feed`, one function for each.
--
-- Ipc.Lsp: src/ipc/lsp/uri.cpp and include/kotatsu/ipc/lsp/uri.h. `Percent` is its percent-encoding,
-- `Uri` has URIs of one text and the segments in it, read from text and from file paths. `Text` is
-- src/ipc/lsp/text.cpp, and `Position` src/ipc/lsp/position.cpp with include/kotatsu/ipc/lsp/position.h:
-- the templates over line tables, with what they share as one record, `Source`, and a text of fewer than
-- 2^32 bytes.
--
-- Sys.Cmd: include/kotatsu/sys/cmd.h and src/sys/cmd.cpp. `Join` writes command lines, `Split` is
-- `split_view::iterator`, where an index into the line is the text from there on.
--
-- How the model stands to the code. A text is the list of its bytes. Sizes are natural numbers, with the
-- wrap-around of `size_t` written out where the code subtracts or counts down. Objects that the code
-- shares by pointer are entries of one store. An `assert` of the code is a premise of the theorems that
-- need it.
--
-- Fuel. `content_length`, `replace_invalid_utf8` and `to_utf16` run on fuel: each round of the loop takes
-- a byte at least, so that the length of the text is enough. `wake_all` has the length of the queue, as
-- each round takes one wait off it. The loops of `split` that go over a run of backslashes at a time, and
-- the sequence of its arguments, have fuel as long as the line, and one more for an empty program. The
-- names of a path and its ancestors have its length, the loops of `locate` and `encoded_length` have the
-- length of the text. The steps of a `Machine` are a number of steps, of which `size` of the program is
-- enough. The binary search of a character class has the number of its ranges. `match_tokens` and
-- `execute` have the length of the input times the number of tokens or segments, one or two more of each;
-- the search of a set of extensions has the number of arms, and `create` compiles at most as many arms as
-- it counts. The loop of `feed` has no fuel: it goes round once at most, from the header to the payload,
-- and that round is written out.
--
-- Not modelled: allocation, exceptions out of allocation, threads (the primitives belong to one event
-- loop), and the parts of the library that are wrappers of libuv, libcurl, system calls or third-party
-- parsers. Of command lines, response files are left out; of URIs, what a Windows build does otherwise;
-- of positions, the bitmap of lines that are not ASCII, which is a predicate here; of cancellation, the
-- wait of a token, which is a wait of its event; of paths, that `normalize` writes over the text it
-- reads.
pub mod Base
pub mod Support
pub mod Async
pub mod Fs
pub mod Ipc
pub mod Sys
