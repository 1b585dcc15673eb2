-- ===== src/Tests/Writes.antt =====
-- A document of browser/webapi/Document.zig that a script opens, writes to and closes.
use zenpanda.Prelude.{ℕ, List, [], ◌∷◌, none, some, true, false, ◌≡◌, ◌≢◌, refl, arith}
use zenpanda.Html5ever.{Ptr, null}
use zenpanda.Utf8.{from_utf8_ok}
use zenpanda.Types.{element_data_new}
use zenpanda.Machine.{Heap, Run, pure}
use zenpanda.Client.Marshal.{name_text}
use zenpanda.Embedder.{embedder, put, add_node}
use zenpanda.Embedder.Ideal.{Ideal, ideal_run, ideal_call}
use zenpanda.Session.Strings.{KeepsStrings}
use zenpanda.DocumentWrite.{
  Moment, Document, Reply, success, invalid_state_error, Command, opens, writes, closes, changes,
  joined, write_internal,
}
use zenpanda.DocumentWrite.Ideal.{PageHooks, hooks, ideal_execute, ideal_executes}
use zenpanda.DocumentWrite.Holds.{Idle}
use zenpanda.DocumentWrite.Steps.{with_parser, with_state}
use zenpanda.DocumentWrite.Looks.{write_unasked, write_internal-write_unasked}
use zenpanda.DocumentWrite.Sequences.{EndsWith, run_all, executes-ideal, Freed, executes-closes}
use zenpanda.Tests.Page.{page, document, self, callbacks, Here, input, start, ideal}
use zenpanda.Tests.Parser.{parser, made, read_all-Readable}

abbrev buffer : Ptr
buffer = 5000

buffer_ne_null : buffer ≢ null
buffer_ne_null e = omega (arith, e)

parser-KeepsStrings : KeepsStrings page parser document
parser-KeepsStrings = record {
  parse_document = λ i b. (tt, λ r j e. tt);
  process = λ st c i b. read_all-Readable b c i;
  finish = λ st i b. (tt, λ r j e. tt);
}

abbrev page_hooks : PageHooks page
page_hooks = record {
  document_node = 0;
  clear = λ s. [];
  set_parse_mode = λ s. s;
  flush_pending_text = λ s. (true, s);
  complete = λ s. (99 ∷ []) ∷ s;
}

-- an HTML document that nothing is being done to
abbrev quiet : Moment
quiet = record {
  is_xml = false;
  throw_on_dynamic_markup_insertion_counter = 0;
  has_current_script = false;
  is_parsing = false;
}

abbrev busy : Moment
busy = record quiet { throw_on_dynamic_markup_insertion_counter = 1 }

abbrev empty_heap : Heap Here
empty_heap = start.heap

start-Idle : Idle page parser self document callbacks empty_heap start ideal
start-Idle = record {
  dom_eq = refl;
  next_ref_eq = refl;
  heap_eq = refl;
  fresh = λ p l. refl;
  next_ne_null = omega arith;
}

abbrev write_inline : List ℕ → Document → Run Here (Reply × Document)
write_inline html d = pure (success, d)

-- a `write` that opens the document, one that is refused, and a `close`
abbrev commands : List Command
commands =
    writes (input ∷ []) false
    ∷ changes busy
    ∷ writes (input ∷ []) false
    ∷ changes quiet
    ∷ closes
    ∷ []

abbrev replies : List Reply
replies = success ∷ success ∷ invalid_state_error ∷ success ∷ success ∷ []

abbrev final : Ideal page
final = record {
  dom = (99 ∷ []) ∷ (0 ∷ []) ∷ (1 ∷ []) ∷ input ∷ [];
  nodes =
      put (put (λ r. none) document (record { element = none; node = 0 })) 6
        (record { element = some (made input); node = 1 });
  next_ref = 7;
}

executes-ideal_example :
    EndsWith page parser self document callbacks parser-KeepsStrings page_hooks buffer
      buffer_ne_null empty_heap write_inline
      (run_all page parser self document callbacks parser-KeepsStrings page_hooks buffer
        buffer_ne_null empty_heap write_inline commands
        (with_parser quiet none)
        start)
      replies
      (with_state page parser document page_hooks quiet none final)
unfolding ideal_executes ideal_execute ideal_run ideal_call put add_node name_text element_data_new
    joined from_utf8_ok
executes-ideal_example =
    executes-ideal page parser self document callbacks parser-KeepsStrings page_hooks buffer
      buffer_ne_null empty_heap write_inline commands quiet start ideal none none start-Idle

abbrev before_close : List Command
before_close = opens ∷ writes (input ∷ []) false ∷ []

executes-closes_example :
    Freed page parser self document callbacks parser-KeepsStrings page_hooks buffer buffer_ne_null
      empty_heap write_inline
      (run_all page parser self document callbacks parser-KeepsStrings page_hooks buffer
        buffer_ne_null empty_heap write_inline
        (opens ∷ writes (input ∷ []) false ∷ changes quiet ∷ closes ∷ [])
        (with_parser quiet none)
        start)
      (success ∷ success ∷ success ∷ success ∷ [])
      quiet
unfolding ideal_executes ideal_execute ideal_run ideal_call put add_node name_text element_data_new
    joined from_utf8_ok
executes-closes_example =
    executes-closes page parser self document callbacks parser-KeepsStrings page_hooks buffer
      buffer_ne_null empty_heap write_inline before_close quiet quiet start ideal none none
      (success ∷ success ∷ success ∷ success ∷ [])
      (with_state page parser document page_hooks quiet none final) start-Idle refl refl

-- `<HTML`, which looks like a new document, written where a parser is open
abbrev new_markup : List (List ℕ)
new_markup = (0x20 ∷ b'<' ∷ b'H' ∷ b'T' ∷ []) ∷ (b'M' ∷ b'L' ∷ []) ∷ []

abbrev with_one : Document
with_one = with_parser quiet (some 2)

write_internal-write_unasked_example :
    write_internal
      (embedder page (Unit {0}) ℕ self callbacks)
      parser
      (hooks page document page_hooks)
      document
      self
      callbacks
      buffer
      write_inline
      new_markup
      true
      with_one
      start
    ≡ write_unasked
        (embedder page (Unit {0}) ℕ self callbacks)
        parser
        (hooks page document page_hooks)
        document
        self
        callbacks
        buffer
        write_inline
        new_markup
        true
        with_one
        start
write_internal-write_unasked_example =
    write_internal-write_unasked (embedder page (Unit {0}) ℕ self callbacks) parser
      (hooks page document page_hooks) document self callbacks buffer write_inline new_markup true
      with_one start
