-- ===== src/DocumentWrite/Ideal.antt =====
-- What `open`, `write`, `writeln` and `close` of browser/webapi/Document.zig mean with no pointers in
-- between: the specification of the functions of html5ever/lib.rs as a document uses them.
use zenpanda.Prelude.{
  ℕ, List, [], ◌∷◌, length, Option, none, some, Bool, true, false, ◌==◌, if◌then◌else◌,
}
use zenpanda.Html5ever.{null, Html5ever}
use zenpanda.Utf8.{from_utf8_ok}
use zenpanda.Types.{Ref}
use zenpanda.Sink.{Ending, normal, unwinding}
use zenpanda.Embedder.{Dom, ClientState, ParsedNode, put}
use zenpanda.Embedder.Ideal.{Ideal, ideal_run}
use zenpanda.DocumentWrite.{
  Moment, Reply, success, invalid_state_error, flush_failed, Hooks, refuses, is_streamed, joined,
  Command, opens, writes, closes, changes,
}

-- What the rest of the browser does to the DOM, and the node of the document.
pub record PageHooks (dom : Dom) : Type 0 where
  pub document_node : dom.Node
  pub clear : dom.State → dom.State
  pub set_parse_mode : dom.State → dom.State
  pub flush_pending_text : dom.State → Bool × dom.State
  pub complete : dom.State → dom.State

module _ (dom : Dom) (document : Ref) (page : PageHooks dom) where
  module _ {N : Type 0} where
    abbrev pub on_dom : (dom.State → dom.State) → ClientState dom.State N → ClientState dom.State N
    on_dom f c = record c { dom = f c.dom }

    abbrev pub flushed : ClientState dom.State N → Bool × ClientState dom.State N
    flushed c = let r = page.flush_pending_text c.dom in (r.0, record c { dom = r.1 })

    -- A new parser knows the container alone.
    abbrev pub only : N → ClientState dom.State N → ClientState dom.State N
    only n c = record c { nodes = put (λ r. none) document n }

  abbrev pub hooks : Hooks (ClientState dom.State (ParsedNode dom.Node))
  hooks = record {
    clear = on_dom page.clear;
    init = only (record { data' = null; node = page.document_node });
    set_parse_mode = on_dom page.set_parse_mode;
    flush_pending_text = flushed;
    complete = on_dom page.complete;
  }

  module _ {P : Type 0} (lib : Html5ever P) where
    -- the document with the state of its parser
    pub record IdealDocument : Type 0 where
      pub moment : Moment
      pub parser : Option P
      pub ideal : Ideal dom

    -- A command is answered, or the process was aborted.
    pub data Answer : Type 0 where
      answered : Reply → IdealDocument → Answer
      stopped : Answer

    abbrev pub ideal_cleared : Ideal dom → Ideal dom
    ideal_cleared i =
        only (record { element = none; node = page.document_node }) (on_dom page.clear i)

    abbrev pub ideal_started : IdealDocument → Option (Ending P × Ideal dom) → Option Answer
    ideal_started d none = none
    ideal_started d (some (normal st, i)) =
        some
          (answered success (record d { parser = some st; ideal = on_dom page.set_parse_mode i }))
    ideal_started d (some (unwinding st, i)) = some stopped

    abbrev pub ideal_ready : IdealDocument → Option P → Option Answer
    ideal_ready d none =
        ideal_started d
          (ideal_run dom document (ideal_cleared d.ideal) (lib.parse_document lib.default_opts))
    ideal_ready d (some st) = some (answered success d)

    abbrev pub ideal_open : IdealDocument → Option Answer
    ideal_open d =
        if refuses d.moment
        then some (answered invalid_state_error d)
        else if d.moment.is_parsing
        then some (answered success d)
        else ideal_ready d d.parser

    abbrev pub ideal_fed : IdealDocument → Option (Ending P × Ideal dom) → Option Answer
    ideal_fed d none = none
    ideal_fed d (some (normal st, i)) =
        some (answered success (record d { parser = some st; ideal = i }))
    ideal_fed d (some (unwinding st, i)) =
        some (answered success (record d { parser = none; ideal = (flushed i).1 }))

    -- Markup that is not UTF-8 is dropped.
    abbrev pub ideal_read : List ℕ → IdealDocument → Option P → Option Answer
    ideal_read html d none = some (answered success d)
    ideal_read html d (some st) =
        if from_utf8_ok html
        then ideal_fed d (ideal_run dom document d.ideal (lib.process st html))
        else some (answered success d)

    abbrev pub ideal_written : List ℕ → Option Answer → Option Answer
    ideal_written html (some (answered success d)) =
        if length html == 0 then some (answered success d) else ideal_read html d d.parser
    ideal_written html o = o

    abbrev pub ideal_opened : IdealDocument → Option P → Option Answer
    ideal_opened d none = ideal_open d
    ideal_opened d (some st) = some (answered success d)

    -- `none` for an inline script that writes while its document is being parsed
    abbrev pub ideal_write : List (List ℕ) → Bool → IdealDocument → Option Answer
    ideal_write text append_newline d =
        if refuses d.moment
        then some (answered invalid_state_error d)
        else if is_streamed d.moment
        then ideal_written (joined text append_newline) (ideal_opened d d.parser)
        else none

    abbrev pub ideal_complete : IdealDocument → Bool × Ideal dom → Option Answer
    ideal_complete d (true, i) =
        some (answered success (record d { parser = none; ideal = on_dom page.complete i }))
    ideal_complete d (false, i) =
        some (answered flush_failed (record d { parser = none; ideal = i }))

    abbrev pub ideal_finished :
        IdealDocument → Option (Ending (Unit {0}) × Ideal dom) → Option Answer
    ideal_finished d none = none
    ideal_finished d (some (normal u, i)) = ideal_complete d (flushed i)
    ideal_finished d (some (unwinding u, i)) = some stopped

    abbrev pub ideal_closing : IdealDocument → Option P → Option Answer
    ideal_closing d none = some (answered success d)
    ideal_closing d (some st) = ideal_finished d (ideal_run dom document d.ideal (lib.finish st))

    abbrev pub ideal_close : IdealDocument → Option Answer
    ideal_close d =
        if refuses d.moment then some (answered invalid_state_error d) else ideal_closing d d.parser

    unfoldable pub ideal_execute : Command → IdealDocument → Option Answer
    unfolding joined
    ideal_execute opens d = ideal_open d
    ideal_execute (writes text append_newline) d = ideal_write text append_newline d
    ideal_execute closes d = ideal_close d
    ideal_execute (changes t) d = some (answered success (record d { moment = t }))

    -- All commands are answered, or the process was aborted on the way.
    pub data Ended : Type 0 where
      ended : List Reply → IdealDocument → Ended
      halted : Ended

    abbrev pub ideal_reply : Reply → Option Ended → Option Ended
    ideal_reply r none = none
    ideal_reply r (some (ended rs e)) = some (ended (r ∷ rs) e)
    ideal_reply r (some halted) = some halted

    abbrev pub ideal_after : Option Answer → (IdealDocument → Option Ended) → Option Ended
    ideal_after none k = none
    ideal_after (some (answered r e)) k = ideal_reply r (k e)
    ideal_after (some stopped) k = some halted

    unfoldable pub ideal_executes : List Command → IdealDocument → Option Ended
    ideal_executes [] d = some (ended [] d)
    ideal_executes (c ∷ cs) d = ideal_after (ideal_execute c d) λ e. ideal_executes cs e
