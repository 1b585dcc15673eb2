-- ===== src/Lib.antt =====
-- The bridge between the browser (Zig) and html5ever (Rust): the C library under src/html5ever, and
-- the code of src/browser/parser that calls it and that it calls back.
--
-- A page is parsed as follows. The browser (src/browser/parser/Parser.zig) passes input, a handle
-- of the document, its own parser object as context, and fourteen callbacks to an entry point of
-- src/html5ever/lib.rs. That builds a sink (src/html5ever/sink.rs) and gives it to html5ever, whose
-- tree builder calls the methods of the sink; each packs its arguments in C structs
-- (src/html5ever/types.rs) and goes through a callback to the browser, which unpacks them
-- (src/browser/parser/html5ever.zig), reads attributes through an iterator with two more C
-- functions, and changes the page. Data of elements is kept in an arena on the Rust side; the
-- browser holds a pointer to it beside each node and returns it when it is asked. A streaming
-- parser is the same in a box whose pointer the browser holds. Apart from that, lib.rs passes on
-- the coders of encoding_rs.
--
-- Where each part is:
-- - Html5ever: the interface of html5ever and xml5ever, a parameter. What the crate does is a value
--   of Prog: it ends, panics, stores bytes of its own, or calls the sink and goes on with the
--   reply.
-- - EncodingRs: the interface of encoding_rs, a parameter; Encoding/Bounds has what is documented
--   of it as the record Documented, a hypothesis of the theorems that need it. A decoder whose
--   stream has ended panics when it is used again.
-- - Memory, Machine: byte memory, objects at addresses, the outcomes of Rust code (returned,
--   panicked, aborted, undefined). An address is not given out twice, so that a use after a free is
--   seen.
-- - Types, Code: src/html5ever/types.rs. A function pointer is a number, and Code is what stands at
--   the numbers: it may do anything to the machine, calls of the iterator included.
-- - Sink: the methods of src/html5ever/sink.rs under their names, `dispatch` from the calls of the
--   crate to them, and `run`, the crate's code over the sink.
-- - Iterator: html5ever_attribute_iterator_next and html5ever_attribute_iterator_count of lib.rs.
-- - Document: html5ever_parse_document, html5ever_parse_document_with_encoding,
--   html5ever_parse_fragment and xml5ever_parse_document of lib.rs. The literal of the sink, which
--   each repeats, is `sink_new`.
-- - Streaming: html5ever_streaming_parser_create, _feed, _finish and _destroy of lib.rs;
--   `catch_unwind` turns a panic to a status and undoes nothing. While a parser is lent out as
--   `&mut`, a marker stands in its place. Streaming/Reentry is about a callback that uses the
--   parser again.
-- - Utf8: std::str::from_utf8 of the standard library, which lib.rs calls on chunks and on text to
--   encode.
-- - Encoding: the encoding_ functions of lib.rs.
-- - TextDecoder: src/browser/webapi/encoding/TextDecoder.zig over those functions. Ideal is the
--   same with a decoder value and no handle, Holds the relation, Unfinished says that no decoder it
--   keeps has ended, and Coding, Pieces and Life compare the two; Errors is about failed calls.
-- - Percent: percentEncodeSegment, encodeQueryString and unescape of src/browser/URL.zig. Reference
--   is the decoding of the URL standard, RoundTrip compares the three, Query is the meaning of
--   encodeQueryString and Encoded shows it; Separators is about what becomes of a query's fields
--   and of the buffer that is freed.
-- - Client: the readers of src/browser/parser/html5ever.zig. Client/Marshal and Client/Drain are
--   about what they read.
-- - Embedder: the callbacks of src/browser/parser/Parser.zig. Each reads its arguments, finds its
--   nodes and hands both to the page, and what the page does is the parameter Dom. Embedder/Ideal
--   is the specification of sink and callbacks together: the calls of the crate on names, texts and
--   nodes, with no pointers, no arena and no iterator. Embedder/Related says how the machine stands
--   to an ideal state; Heaps, Growth, Slots and Answers carry that through changes of the heap,
--   Calls and Runs through calls and whole runs, and Documents, Entries, Streams, Created and
--   Chunks through the C functions. Allowed is about runs whose calls name nodes that there are,
--   and Lasting and Elements about what stays over a run.
-- - Session: `read` and `done` of the struct Streaming of src/browser/parser/Parser.zig, with its
--   handle, over the streaming functions; the flush of `done` is a parameter. Session/Strings says
--   that the strings of a parser are in memory, and Session/Reads is about a piece that is read.
--   DocumentWrite uses both.
-- - DocumentWrite: `open`, `write`, `writeln` and `close` of src/browser/webapi/Document.zig, which
--   keep a Streaming between the calls of scripts. What open and close do to the page besides is
--   the parameter Hooks. DocumentWrite/Ideal is the specification, DocumentWrite/Holds the
--   relation, and Steps, Calls, Commands and Sequences compare them, for one call and for any
--   sequence of calls.
-- - PendingText: `appendTextChunk` and `flushPendingText` of src/browser/parser/Parser.zig.
--   PendingText/Shown has what the page shows, a run that is pending included, and
--   PendingText/Chunks and PendingText/Runs compare chunks with insertions. PendingText/Callbacks
--   has the callbacks that change the tree, with the flush that each makes first and the effect of
--   src/browser/Frame.zig on lists of children, where a node's parent is the one whose list holds
--   it; Callbacks/Ideal is a page that has no pending text, and Callbacks/Flushes compares the two.
-- - Tests: a page, a parser and a coder that are concrete, and the theorems applied to them.
--
-- Numbers: a pointer, a length and a byte is a natural number, and null is 0. The lengths of
-- buffers that exist are below 2 ^ 63, so sums of them do not wrap;
-- `encoding_max_encode_buffer_length` is the one computation that can pass 2 ^ 64, and it saturates
-- or wraps there as the release build does. An i32 is its bit pattern. `collect`, the loop over an
-- attribute iterator, is on rounds, and one more round than the count is given. A run of the crate
-- is a well-founded tree: that html5ever ends is assumed of it. Where the crate passes a handle
-- that it was never given, or asks for the name of a node that is no element, the ideal run is not
-- defined, and nothing is said of the run; runs that do neither are those of Embedder/Allowed.
--
-- Not modelled: html5ever_get_memory_usage of lib.rs, which reads the counters of jemalloc in debug
-- builds; the downcast of the boxed parser, which always has the type that it was stored with; the
-- bodies of the callbacks behind Dom (the reactions of custom elements and the DOM, of which
-- PendingText/Callbacks has the lists of children alone), so that a callback which runs a script
-- that calls the streaming functions again is not among the runs of Embedder (Streaming/Reentry
-- shows one); and the rest of the browser, which is Zig.
pub mod Prelude
pub mod Utf8
pub mod Types
pub mod Html5ever
pub mod EncodingRs
pub mod Memory
pub mod Machine
pub mod Iterator
pub mod Code
pub mod Sink
pub mod Client
pub mod Document
pub mod Embedder
pub mod Streaming
pub mod Encoding
pub mod PendingText
pub mod Session
pub mod DocumentWrite
pub mod TextDecoder
pub mod Percent
pub mod Tests
