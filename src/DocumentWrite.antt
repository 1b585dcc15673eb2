-- ===== src/DocumentWrite.antt =====
-- `open`, `write`, `writeln` and `close` of browser/webapi/Document.zig, which hold a `Streaming` of
-- browser/parser/Parser.zig between the calls of a script.
pub mod Ideal
pub mod Looks
pub mod Holds
pub mod Steps
pub mod Calls
pub mod Commands
pub mod Sequences
use zenpanda.Prelude.{
  ℕ, ◌+◌, ◌-◌, List, [], ◌∷◌, ◌++◌, length, Option, none, some, Bool, true, false, ◌&&◌, ◌||◌, ◌==◌,
  leb, ltb, if◌then◌else◌,
}
use zenpanda.Html5ever.{Ptr, null, Html5ever}
use zenpanda.Types.{Ref}
use zenpanda.Machine.{World, Machine, Run, returned, pure, ◌>>=◌, ◌>>◌, write_parts}
use zenpanda.Code.{Code}
use zenpanda.Document.{Callbacks}
use zenpanda.Streaming.{html5ever_streaming_parser_create}
use zenpanda.Session.{read, done}

-- `std.ascii.whitespace`, `std.mem.trimLeft` and `std.ascii.startsWithIgnoreCase`
abbrev is_whitespace : ℕ → Bool
is_whitespace c = c == 0x20 || leb 0x09 c && leb c 0x0d

abbrev to_lower : ℕ → ℕ
to_lower c = if leb 0x41 c && leb c 0x5a then c + 0x20 else c

unfoldable trim_left : List ℕ → List ℕ
trim_left [] = []
trim_left (c ∷ cs) = let rest = trim_left cs in if is_whitespace c then rest else c ∷ cs

unfoldable starts_with_ignore_case : List ℕ → List ℕ → Bool
starts_with_ignore_case cs [] = true
starts_with_ignore_case [] (n ∷ ns) = false
starts_with_ignore_case (c ∷ cs) (n ∷ ns) =
    to_lower c == to_lower n && starts_with_ignore_case cs ns

abbrev doctype : List ℕ
doctype = b'<' ∷ b'!' ∷ b'D' ∷ b'O' ∷ b'C' ∷ b'T' ∷ b'Y' ∷ b'P' ∷ b'E' ∷ []

abbrev html_tag : List ℕ
html_tag = b'<' ∷ b'h' ∷ b't' ∷ b'm' ∷ b'l' ∷ []

unfoldable pub looks_like_new_document : List ℕ → Bool
unfolding trim_left starts_with_ignore_case
looks_like_new_document html =
    let trimmed = trim_left html in
    starts_with_ignore_case trimmed doctype || starts_with_ignore_case trimmed html_tag

-- What the document and its frame tell of the moment: `_type`, the counter, whether there is a
-- `_current_script`, and whether the `_load_state` is `parsing`.
pub record Moment : Type 0 where
  pub is_xml : Bool
  pub throw_on_dynamic_markup_insertion_counter : ℕ
  pub has_current_script : Bool
  pub is_parsing : Bool

-- The document, with the handle of its streaming parser if it has one.
pub record Document : Type 0 where
  pub moment : Moment
  pub script_created_parser : Option Ptr

pub data Reply : Type 0 where
  success : Reply
  invalid_state_error : Reply
  parser_creation_failed : Reply
  -- an error of `flushPendingText`
  flush_failed : Reply

-- A call on a document, or a change of the moment by the rest of the browser.
pub data Command : Type 0 where
  opens : Command
  writes : List (List ℕ) → Bool → Command
  closes : Command
  changes : Moment → Command

-- What the rest of the browser does to the page: `open` clears the document, sets the container of
-- the new parser and the parse mode; a flush may fail; `close` runs what was deferred and fires the
-- load event.
pub record Hooks (C : Type 0) : Type 0 where
  pub clear : C → C
  pub init : C → C
  pub set_parse_mode : C → C
  pub flush_pending_text : C → Bool × C
  pub complete : C → C

abbrev pub refuses : Moment → Bool
refuses t = t.is_xml || ltb 0 t.throw_on_dynamic_markup_insertion_counter

-- `_current_script == null or frame._load_state != .parsing`
abbrev pub is_streamed : Moment → Bool
is_streamed t = if t.has_current_script then (if t.is_parsing then false else true) else true

unfoldable pub joined : List (List ℕ) → Bool → List ℕ
joined [] append_newline = if append_newline then 0x0a ∷ [] else []
joined (s ∷ ss) append_newline = s ++ joined ss append_newline

abbrev pub is_absent : Option Ptr → Bool
is_absent none = true
is_absent (some p) = false

module _ {w : World} (code : Code w) (lib : Html5ever w.Parser) (hooks : Hooks w.Client)
    (document ctx : Ref) (cb : Callbacks) (buffer : Ptr) where
  abbrev on_client : (w.Client → w.Client) → Run w (Unit {0})
  on_client f m = returned tt (record m { client = f m.client })

  abbrev flush : Run w Bool
  flush m = let r = hooks.flush_pending_text m.client in returned r.0 (record m { client = r.1 })

  -- A `Streaming` is made and started, once the document is cleared.
  unfoldable start_parser : Document → Run w (Reply × Document)
  start_parser d = do
    on_client hooks.clear
    on_client hooks.init
    handle ← html5ever_streaming_parser_create code lib document ctx cb
    (let d' = record d { script_created_parser = some handle } in
        if handle == null
        then pure (parser_creation_failed, d')
        else do on_client hooks.set_parse_mode; pure (success, d'))

  unfoldable pub open_document : Document → Run w (Reply × Document)
  unfolding start_parser
  open_document d =
      if refuses d.moment
      then pure (invalid_state_error, d)
      else if d.moment.is_parsing
      then pure (success, d)
      else if is_absent d.script_created_parser
      then start_parser d
      else pure (success, d)

  -- the markup is read, and a parser that fails is dropped after a last flush
  unfoldable read_markup : List ℕ → Document → Option Ptr → Run w (Reply × Document)
  read_markup html d none = pure (success, d)
  read_markup html d (some handle) = do
    write_parts buffer html
    r ← read code lib handle buffer (length html)
    if r.0
        then pure (success, record d { script_created_parser = some r.1 })
        else do flush; pure (success, record d { script_created_parser = none })

  abbrev written : List ℕ → Reply × Document → Run w (Reply × Document)
  written html (success, d) =
      if length html == 0 then pure (success, d) else read_markup html d d.script_created_parser
  written html (e, d) = pure (e, d)

  -- The branch of an inline script that writes while its document is being parsed is a parameter.
  unfoldable pub write_internal :
      (List ℕ → Document → Run w (Reply × Document))
      → List (List ℕ)
      → Bool
      → Document
      → Run w (Reply × Document)
  unfolding read_markup joined looks_like_new_document
  write_internal write_inline text append_newline d =
      if refuses d.moment
      then pure (invalid_state_error, d)
      else let html = joined text append_newline in
        if is_streamed d.moment
        then (do
          opened ←
              if is_absent d.script_created_parser || looks_like_new_document html
              then open_document d
              else pure (success, d)
          written html opened)
        else write_inline html d

  abbrev closed : Document → Bool → Run w (Reply × Document)
  closed d true = do on_client hooks.complete; pure (success, d)
  closed d false = pure (flush_failed, d)

  abbrev close_parser : Document → Option Ptr → Run w (Reply × Document)
  close_parser d none = pure (success, d)
  close_parser d (some handle) = do
    r ← done code lib flush handle
    closed (record d { script_created_parser = none }) r.0

  unfoldable pub close_document : Document → Run w (Reply × Document)
  close_document d =
      if refuses d.moment
      then pure (invalid_state_error, d)
      else close_parser d d.script_created_parser

  module _ (write_inline : List ℕ → Document → Run w (Reply × Document)) where
    unfoldable pub execute : Command → Document → Run w (Reply × Document)
    execute opens d = open_document d
    execute (writes text append_newline) d = write_internal write_inline text append_newline d
    execute closes d = close_document d
    execute (changes t) d = pure (success, record d { moment = t })

    -- commands one after another, with their replies
    unfoldable pub executes : List Command → Document → Run w (List Reply × Document)
    executes [] d = pure ([], d)
    executes (c ∷ cs) d = do r ← execute c d; rs ← executes cs r.1; pure (r.0 ∷ rs.0, rs.1)
