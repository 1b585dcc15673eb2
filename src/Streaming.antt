-- ===== src/Streaming.antt =====
-- The streaming parser of html5ever/lib.rs.
pub mod Reentry
use zenpanda.Prelude.{ℕ, ◌-◌, ◌^◌, Bool, true, false, ◌||◌, List, [], ◌==◌, if◌then◌else◌}
use zenpanda.Html5ever.{Ptr, null, Html5ever}
use zenpanda.Types.{Ref, StreamingParser}
use zenpanda.Utf8.{from_utf8_ok}
use zenpanda.Machine.{
  World, Machine, Outcome, arena, streaming_parser, borrowed, returned, panicked, aborted,
  undefined, Run, pure, panic, extern_c, ◌>>=◌, ◌>>◌, alloc, load_parser, store_object, free,
  drop_arena, from_raw_parts,
}
use zenpanda.Code.{Code}
use zenpanda.Sink.{Ending, normal, unwinding, run}
use zenpanda.Document.{Callbacks, sink_new, run_through}

-- An `i32` is its bit pattern.
abbrev pub minus_one : ℕ
minus_one = 2 ^ 32 - 1

abbrev pub ending_value : {A : Type 0} → Ending A → A
ending_value (normal a) = a
ending_value (unwinding a) = a

module _ {w : World} where
  abbrev caught : Outcome (Machine w) (Unit {0}) → Outcome (Machine w) Bool
  caught (returned a m) = returned true m
  caught (panicked m) = returned false m
  caught aborted = aborted
  caught undefined = undefined

  -- `std::panic::catch_unwind(…).is_ok()`: what the closure had done is not undone
  unfoldable pub catch_unwind : Run w (Unit {0}) → Run w Bool
  catch_unwind r m = caught (r m)

  unfoldable pub end_unwinding : {A : Type 0} → Ending A → Run w (Unit {0})
  end_unwinding (normal a) = pure tt
  end_unwinding (unwinding a) = panic

  -- `Box::from_raw`: the box is owned, and its pointer is of no further use
  unfoldable pub take_parser : Ptr → Run w (StreamingParser w.Parser)
  unfolding load_parser free
  take_parser p = do sp ← load_parser p; free p; pure sp

module _ {w : World} (code : Code w) (lib : Html5ever w.Parser) where
  unfoldable pub html5ever_streaming_parser_create : Ref → Ref → Callbacks → Run w Ptr
  html5ever_streaming_parser_create document ctx cb = extern_c (do
    a ← alloc (arena [])
    ps ← run_through code (sink_new ctx document a cb) (lib.parse_document lib.default_opts)
    alloc (streaming_parser (record { arena = a; parser = record { sink = ps.1; state = ps.0 } })))

  -- `parser.process(tendril)` through a `&mut`. The borrow is exclusive: until it ends, any other
  -- use of the pointer is undefined behaviour. A panic leaves the parser as it was at that point.
  unfoldable pub process_in_place : Ptr → List ℕ → Run w (Unit {0})
  process_in_place parser_ptr bytes = do
    sp ← load_parser parser_ptr
    store_object parser_ptr borrowed
    es ← run code sp.parser.sink (lib.process sp.parser.state bytes)
    store_object parser_ptr (
        streaming_parser
          (record { arena = sp.arena; parser = record { sink = es.1; state = ending_value es.0 } }))
    end_unwinding es.0

  -- the closure that `catch_unwind` is given
  unfoldable pub feed_chunk : Ptr → Ptr → ℕ → Run w (Unit {0})
  feed_chunk parser_ptr html len = do
    load_parser parser_ptr
    bytes ← from_raw_parts html len
    if from_utf8_ok bytes then process_in_place parser_ptr bytes else pure tt

  unfoldable pub html5ever_streaming_parser_feed : Ptr → Ptr → ℕ → Run w ℕ
  html5ever_streaming_parser_feed parser_ptr html len =
      if parser_ptr == null || html == null || len == 0
      then pure 0
      else extern_c (do
        result ← catch_unwind (feed_chunk parser_ptr html len)
        pure (if result then 0 else minus_one))

  unfoldable pub html5ever_streaming_parser_finish : Ptr → Run w (Unit {0})
  html5ever_streaming_parser_finish parser_ptr =
      if parser_ptr == null
      then pure tt
      else extern_c (do
        sp ← take_parser parser_ptr
        run_through code sp.parser.sink (lib.finish sp.parser.state)
        drop_arena sp.arena)

module _ {w : World} where
  unfoldable pub html5ever_streaming_parser_destroy : Ptr → Run w (Unit {0})
  html5ever_streaming_parser_destroy parser_ptr =
      if parser_ptr == null
      then pure tt
      else extern_c (do sp ← take_parser parser_ptr; drop_arena sp.arena)
