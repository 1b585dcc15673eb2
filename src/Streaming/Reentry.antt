-- ===== src/Streaming/Reentry.antt =====
-- A callback of the streaming parser of html5ever/lib.rs that uses the same parser again, as the
-- scripts can that browser/parser/Parser.zig runs when an element ends.
use zenpanda.Prelude.{ℕ, ◌≡◌, ◌≢◌, refl, some, true, ==_ne}
use zenpanda.Html5ever.{Ptr, null, Call, Prog, Html5ever}
use zenpanda.Utf8.{from_utf8_ok}
use zenpanda.Memory.{read_slice}
use zenpanda.Types.{Ref, StreamingParser}
use zenpanda.Machine.{
  World, streaming_parser, borrowed, Machine, Run, undefined, pure, ◌>>◌, update, load_parser,
  store_object,
}
use zenpanda.Machine.Slices.{from_raw_parts_lem}
use zenpanda.Code.{Code}
use zenpanda.Sink.{pop, dispatch, run}
use zenpanda.Client.Drain.{update_at}
use zenpanda.Streaming.{
  catch_unwind, take_parser, feed_chunk, process_in_place, html5ever_streaming_parser_feed,
  html5ever_streaming_parser_finish, html5ever_streaming_parser_destroy,
}

-- A use of the parser by a script: more text, the end of the text, or that it is dropped.
pub data Use : Type 0 where
  feeds : (html : Ptr) (len : ℕ) → html ≢ null → len ≢ 0 → Use
  finishes : Use
  destroys : Use

module _ {w : World} (code : Code w) (lib : Html5ever w.Parser) (p : Ptr) where
  abbrev pub use_parser : Use → Run w (Unit {0})
  use_parser (feeds html len html_ne_null len_ne_zero) = do
    html5ever_streaming_parser_feed code lib p html len
    pure tt
  use_parser finishes = html5ever_streaming_parser_finish code lib p
  use_parser destroys = html5ever_streaming_parser_destroy p

  -- no use of a parser that is lent out is defined
  lent_out :
      p ≢ null → (u : Use) (m : Machine w) → m.heap p ≡ some borrowed → use_parser u m ≡ undefined
  unfolding html5ever_streaming_parser_feed feed_chunk catch_unwind
      html5ever_streaming_parser_finish html5ever_streaming_parser_destroy take_parser load_parser
  lent_out ne (feeds html len hn ln) m lent =
      rw (==_ne p null ne, ==_ne html null hn, ==_ne len 0 ln) (rw lent refl)
  lent_out ne finishes m lent = rw (==_ne p null ne) (rw lent refl)
  lent_out ne destroys m lent = rw (==_ne p null ne) (rw lent refl)

module _ {w : World} (code code' : Code w) (lib : Html5ever w.Parser) (m : Machine w) (p html : Ptr)
    (len : ℕ) (sp : StreamingParser w.Parser) where
  -- A streaming parser that lives at `p` is fed a chunk of UTF-8 that is not empty: if the first
  -- thing that html5ever does with the chunk is to end an element, and the callback for that feeds
  -- the same parser more text, finishes or destroys it, as a script can that it runs, then the
  -- outer `feed` is undefined behaviour.
  pub feed-reentered :
      (u : Use) (r : Ref) (k : Unit {0} → Prog w.Parser)
      → p ≢ null
      → html ≢ null
      → len ≢ 0
      → m.heap p ≡ some (streaming_parser sp)
      → from_utf8_ok (read_slice m.bytes html len) ≡ true
      → lib.process sp.parser.state (read_slice m.bytes html len) ≡ Prog.call (Call.pop r) k
      → ((m' : Machine w)
          → code.pop sp.parser.sink.pop_callback sp.parser.sink.ctx r m'
            ≡ use_parser code' lib p u m')
      → html5ever_streaming_parser_feed code lib p html len m ≡ undefined
  unfolding html5ever_streaming_parser_feed feed_chunk catch_unwind process_in_place load_parser
      store_object run dispatch pop
  feed-reentered u r k ne hn ln here valid ends again =
      let lent : Machine w = record m { heap = update m.heap p (some borrowed) } in
      rw (==_ne p null ne, ==_ne html null hn, ==_ne len 0 ln)
        (rw here (
          rw (from_raw_parts_lem m html len hn) (
            rw valid (
              rw here (
                rw ends (
                  rw (again lent) (
                    rw (lent_out code' lib p ne u lent (update_at m.heap p (some borrowed)))
                      refl)))))))
