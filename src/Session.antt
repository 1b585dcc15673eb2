-- ===== src/Session.antt =====
-- `Streaming` of browser/parser/Parser.zig: a document that arrives in pieces is passed to the
-- streaming functions of html5ever/lib.rs. A handle that is null is 0.
pub mod Strings
pub mod Reads
use zenpanda.Prelude.{ℕ, Bool, true, false, ◌==◌, if◌then◌else◌}
use zenpanda.Html5ever.{Ptr, null, Html5ever}
use zenpanda.Machine.{World, Run, pure, undefined_behaviour, ◌>>=◌, ◌>>◌}
use zenpanda.Code.{Code}
use zenpanda.Streaming.{
  html5ever_streaming_parser_feed, html5ever_streaming_parser_finish,
  html5ever_streaming_parser_destroy,
}

module _ {w : World} (code : Code w) (lib : Html5ever w.Parser) where
  -- Whether it succeeded, and the handle afterwards. `self.handle.?` is for a handle only.
  unfoldable pub read : Ptr → Ptr → ℕ → Run w (Bool × Ptr)
  read handle data' len = if handle == null then undefined_behaviour else do
    result ← html5ever_streaming_parser_feed code lib handle data' len
    if result == 0
        then pure (true, handle)
        else do html5ever_streaming_parser_destroy handle; pure (false, null)

  -- The handle is null before the parser is finished. `flush_pending_text` is the flush of the
  -- parser's text, which may fail; the handle is null all the same.
  unfoldable pub done : Run w Bool → Ptr → Run w (Bool × Ptr)
  done flush_pending_text handle = if handle == null then undefined_behaviour else do
    html5ever_streaming_parser_finish code lib handle
    flushed ← flush_pending_text
    pure (flushed, null)
