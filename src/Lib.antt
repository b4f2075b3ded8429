-- ===== src/Lib.antt =====
-- A verification library for libcore, a server runtime in C: reference-counted objects, collections
-- and buffers over them, and the wire formats and game rules of the servers built on them.
--
-- The parts and how they interact. Every heap object of the runtime starts with the `Object` of
-- include/object.h: a class, a reference count and a lock. Containers hold objects by retaining them
-- and give them up by releasing them, and an object dies at the release that brings its count to
-- zero. `Stack` and `Queue` are thin layers on `ArrayList`, with locks of their own. Sockets fill a
-- `ByteBuffer`, and the WebSocket servers cut frames out of what has come in with the functions of
-- src/ws_protocol.c. Worker threads hand objects to one another by a `RingBuffer`. The pixel game
-- keeps its state in a `PixelBoard`; the typing game runs a
-- `GameContext` for each room, and asks the judge for a verdict on each line.
--
-- The files. Base holds what the others share: Boolean tests on the native numbers, lists with native
-- indices, the integers and exclusive or on bits.
--   Object      include/object.h (RETAIN, RELEASE), src/object.c: a heap of counts with the list of
--               the objects freed. `finalize`, `equals` and the class of an object are parameters.
--   ArrayList   src/arraylist.c: the array is a list as long as the capacity. `ensure_capacity`,
--               `add`, `get`, `remove`, `removeResult`, `detach`, `find`, `forEach`, `clear`,
--               `trimToSize`, the iterator and the finalizer, under the names of the C functions
--               without `impl_`. Whether memory is given is a parameter, `Allocator`.
--   Stack       src/stack.c over ArrayList.
--   Queue       src/queue.c over ArrayList.
--   RingBuffer  src/ring_buffer.c: `rb_push`, `rb_pop`, `rb_pop_wait` and the others. What other
--               threads do to the ring while a wait has given the lock up is a parameter.
--   HashMap     src/hashmap.c: an array of chains, `impl_put`, `impl_get`, `impl_remove`,
--               `impl_detach`, `impl_clear`, `impl_iterate` and the others.
--   ByteBuffer  src/bytebuffer.c: array, capacity and two positions, all operations.
--   PixelBoard  src/pixel_board.c: `PixelBoard_paint`, `_get`, `_snapshot`, `_clear`.
--   WsProtocol  src/ws_protocol.c: the encoders `ws_build_text_frame` and `ws_build_frame`, and the
--               three decoders `ws_decode_frame`, `ws_decode_frame2`, `ws_decode_frame3`.
--   Judge       src/toos_type_judge.c: `ToosTypeJudge_submit` and `ToosTypeJudge_count_chars`.
--   ToosType    the typing game, src/toos_type_*.c, in three parts.
--               Room: the clock of a room, src/toos_type_room.c, all functions.
--               Spawn: src/toos_type_spawn.c, `bounded_rand`, `append_epoch`,
--               `ToosTypeSpawnEngine_ensure_cursor` and `_sentence_at`.
--               Context: src/toos_type_game_context.c, the players and the events sent to them:
--               Context itself has `ToosTypeGameContext_join` and what all calls share, Lobby the
--               calls before a game, Play `submit` and what it calls, Leave `disconnect`, Ranking
--               and Tick the two halves of `tick`. The context asks the room for times and states,
--               the engine for sentences and the judge for verdicts.
--   Asn1        src/asn1.c: `asn1_encode_length`, `asn1_decode_length` and the same for
--               strings and, in Asn1/Unsigned, for unsigned numbers of 32 bits.
--   Tree        src/tree.c: `_insertRec`, `_deleteRec`, `_findMin`, `_foreachRec`, `_getHeightRec`,
--               `_freeNodesRecursive`, the iterator and `impl_traverseBFS`; the comparison is a
--               parameter, of which IsOrder in Tree/Sorted says what it is expected to be.
--   PathValidator  src/path_validator.c: `PathValidator_validate` and `rule_02_check_utf8`. The bytes
--               written so far are a list with the last one first.
--   CronScheduler  src/cron_scheduler.c: `parse_field`, `parse_cron_expr`, `cron_matches`, `addCron`,
--               `removeCron` and the rounds of `cron_worker`. Text has what is used of the C library,
--               BitSet the sets that are bits of a word, Written the fields as they are written.
--   HttpResponse  src/http_response_parser.c: Number has `parse_content_length` and
--               `parse_chunk_size`, HttpResponse itself `HttpTransport_recv_line` of
--               src/http_transport.c and the reading of a body, Message the heads and the whole
--               parser.
--   TextEncoder src/text_encoder.c: `impl_escapeHtmlTo`, `impl_urlEncodeTo`, `impl_urlDecodeTo`,
--               `impl_base64EncodeTo`, `impl_base64DecodeTo`, and the wrappers that give a string or a buffer.
-- A component's own file has its state and its operations; the files below it have the proofs, named
-- for what they prove, and Tests has runs at concrete values.
--
-- How the code is read. State that a function changes is taken and given back. A function of C that
-- locks is one step, the body under its lock, and several threads are a sequence of such steps in
-- the order in which they got the lock. No pointer argument is NULL, except an object where the
-- code tests it: there NULL is `none`. Whether `malloc` and its kin give memory is a flag or a
-- parameter, so both outcomes are covered, but for TextEncoder, whose appends find memory up to the
-- limit of the buffer. A `size_t` or a 32-bit count keeps its wrap-around where
-- the code can reach it; an `int` that would overflow is undefined in C, and the theorems on lists
-- ask for capacities below 2^30, those on a map's size for one that can grow, and those on cron
-- fields for numbers below 2^31 - 60. Shifts and masks are written as division and remainder, and a `|`
-- of fields that do not overlap as a sum. A C string is the list of its bytes before the NUL.
--
-- Fuel. These loops run on a number of rounds. The doubling in `ensure_capacity` of src/bytebuffer.c
-- has 26, which are enough since a capacity of at least one passes half of the limit of 16 MB after
-- 24. The rejection loop of `bounded_rand` in src/toos_type_spawn.c has three, which are enough for
-- every bound up to 1024 (a deck has at most 1000 sentences). The loop of `ensure_cursor` that
-- appends epochs has as many rounds as there are epochs up to the cursor. The loops over a text or
-- a connection (`check_from`, `read_lines`, `read_trailers`, `read_chunks`) have as many rounds as
-- there are bytes, of which every round takes one at least; `read_status` has eleven, since the
-- eleventh informational response is refused; `set_every` has one for each value up to the last, and
-- `bfs_from` one for each node. Every other loop runs down a list or a count.
--
-- Not modelled: the building of a deck from the data base, which the context takes as a parameter;
-- `qsort` behind `ArrayList.sort`; OpenSSL behind `ws_compute_accept_key`; the virtual
-- tables that a constructor fills; `toString` texts; locks as such, which the steps stand for; and
-- the parts of the runtime that the operating system, a database server or a library does the work
-- of: sockets, event loop, threads, files, the HTTP server, database drivers, cryptography, logging.
pub mod Base
pub mod Object
pub mod ArrayList
pub mod HashMap
pub mod PixelBoard
pub mod Queue
pub mod RingBuffer
pub mod Stack
pub mod WsProtocol
pub mod Judge
pub mod ByteBuffer
pub mod TextEncoder
pub mod ToosType
pub mod Asn1
pub mod PathValidator
pub mod Tree
pub mod CronScheduler
pub mod HttpResponse
