-- ===== src/Lib.antt =====
-- A verification library for microdc2, a command-line client of the Direct Connect network.
--
-- A client talks to hubs, and to other users for transfers. For each user there is a process of
-- its own (src/user.c) that reads commands from a socket into a byte queue (src/common/byteq.c),
-- answers them, transfers file data, and exchanges messages with the main process by pipes. The
-- files here model, with paths from the repository's root:
--   Prelude    shared: tests, lists, heap blocks (Mem), texts (Text), integers (Int), and actions
--              that may return early (Exec) with their pre- and postconditions (Exec/Triple)
--   ByteQ      src/common/byteq.c: byteq_new, _enlarge, _assure, _append, _remove, _read, _write, ...
--   PtrV       src/common/ptrv.c: ptrv_append, _prepend_n, _remove, _remove_range, _insort, _find
--   IntParse   src/common/intutil.c: parse_uint8 to parse_uint64, parse_int8 to parse_int64
--   Range      src/common/range.c: foreach_in_range
--   Message    src/connection.c: decode_lock, unescape_message, escape_message
--   Fs         src/fs.c: the two translations of file names
--   BkSearch   src/common/bksearch.c: bksearch and bksearchrange
--   Quoting    src/common/quoting.c: quote_word_full and dequote_words_full; Chars has one byte
--   MsgQ       src/common/msgq.c: msgq_put, msgq_get, msgq_has_complete_msg; Codec has the bytes that
--              are written for an argument, Laws the layout of a message and what happens to the
--              queue, on the lemmas of ByteQ
--   Huffman    src/huffman.c: huffman_encode (Encode), huffman_decode (Decode), with the bits of a
--              block in Bits. Tree, Codes, Counting, Writing, Reading, Trie, Planting and Block are
--              the steps to RoundTrip, and Room is about the size of the block.
--   HMap       src/common/hmap.c: hmap_new, _get, _put, _remove, _clear, _contains_key, and in Walk
--              the iterator and _foreach_value (Complete has the result). Chain, Buckets, Rehash, Refine and Updates are the
--              steps to Operations; Text has the laws of strhash and strcmp.
--   User       src/user.c: State (the fields of DCUserConnLocal), Comm (terminate_process,
--              user_putf, the questions to the main process), Download, Upload, Handshake and
--              Command (user_handle_command), Tokens (strtok, strsep), Loop (user_input_available,
--              user_now_writable, the loop of user_main). Stable, Files, Requests, Sending,
--              Protocol, Receiving, Transfers and Commands are lemmas; Framing, Queue, Handshaking, Graph and Bounds the
--              results.
--   Tests      the theorems at concrete inputs
--
-- A heap block is a list as long as the allocation; an access outside it, or a failed assertion, is
-- `none`. Bytes are numbers below 256, and texts stand without their null. Machine integers wrap
-- around where the source's do. The fuel of Range is one round for each byte of the text
-- and one more, and that of Huffman.Encode one for each node; both are shown to be
-- enough. BkSearch has a round for each member between the bounds, and Quoting one for each byte of
-- the text; the results hold with this fuel. The handlers of User are actions on a
-- connection: an early return is `none`, and the state that it leaves comes back with it. What the
-- system, the main process and iconv answer is an argument, a function of the number of the
-- question. download_next_file recurs on the answers of the main process that are still to come;
-- behind the last one the pipe is closed. Where C is undefined or aborts, the model marks the
-- connection as faulted and stops. The loops of HMap.Walk have a test for each bucket and one more,
-- which is enough with fewer than 2 ^ 32 buckets; with more, their counters repeat. The build is the
-- one with libxml2.
--
-- Not modelled: the set-up of signals and sockets, timers, texts that are only shown, and the parts
-- of the program that are mainly I/O or user interface (src/main.c, src/command.c, src/screen.c,
-- src/variables.c). The hub session (src/hub.c), the tree map and
-- string buffers of src/common and the search of src/search.c are not modelled either. The copies of
-- gnulib, bzip2 and the tiger tree library are not part of the program.
pub mod Prelude
pub mod BkSearch
pub mod ByteQ
pub mod PtrV
pub mod IntParse
pub mod Message
pub mod MsgQ
pub mod Quoting
pub mod Range
pub mod Huffman
pub mod HMap
pub mod Fs
pub mod User
pub mod Tests
