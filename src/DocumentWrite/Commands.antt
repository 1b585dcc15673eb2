-- ===== src/DocumentWrite/Commands.antt =====
-- Any sequence of `open`, `write`, `writeln` and `close` of browser/webapi/Document.zig, with changes
-- of the moment by the rest of the browser in between.
use zenpanda.Prelude.{
  ℕ, ◌≢◌, refl, List, Option, none, some, Bool, if◌then◌else◌, inl, inr, Bool-cases,
}
use zenpanda.Html5ever.{Ptr, null, Html5ever}
use zenpanda.Types.{Ref}
use zenpanda.Machine.{Heap, Machine, Outcome, Run, returned}
use zenpanda.Document.{Callbacks}
use zenpanda.Session.Strings.{KeepsStrings}
use zenpanda.Embedder.{Dom, embedded, embedder}
use zenpanda.Embedder.Ideal.{Ideal}
use zenpanda.DocumentWrite.{
  Moment, Document, Reply, success, invalid_state_error, refuses, is_streamed, joined,
  open_document, write_internal, is_absent, Command, opens, writes, closes, changes, execute,
}
use zenpanda.DocumentWrite.Ideal.{PageHooks, hooks, ideal_opened, ideal_write, ideal_execute}
use zenpanda.DocumentWrite.Holds.{Stands, RepliesAsIdeal}
use zenpanda.DocumentWrite.Looks.{write_unasked, write_internal-write_unasked}
use zenpanda.DocumentWrite.Steps.{with_parser, with_state}
use zenpanda.DocumentWrite.Calls.{unchanged, open-ideal, close-ideal, written_lem}

module _ (dom : Dom) {P D : Type 0} (lib : Html5ever P) (self document : Ref) (cb : Callbacks)
    (keeps : KeepsStrings dom lib document) (page : PageHooks dom) (buffer : Ptr)
    (buffer_ne_null : buffer ≢ null) (h : Heap (embedded dom P D))
    (write_inline : List ℕ → Document → Run (embedded dom P D) (Reply × Document)) where
  module _ (t : Moment) (m : Machine (embedded dom P D)) (i : Ideal dom) where
    opened_lem :
        (o : Option Ptr) (q : Option P)
        → Stands dom lib self document cb h m o q i
        → RepliesAsIdeal dom lib self document cb h page
            ((if is_absent o
                then open_document
                    (embedder dom P D self cb)
                    lib
                    (hooks dom document page)
                    document
                    self
                    cb
                    buffer
                    (with_parser t o)
                else λ m'. returned (success, with_parser t o) m')
              m)
            (ideal_opened dom document page lib (with_state dom lib document page t q i) q)
    opened_lem none none stands =
        open-ideal dom lib self document cb keeps page buffer buffer_ne_null h t m i none none
          stands
    opened_lem (some p) (some st) stands =
        unchanged dom lib self document cb keeps page buffer buffer_ne_null h t m i (some p)
          (some st) success _ refl stands
    opened_lem none (some st) stands = absurd stands
    opened_lem (some p) none stands = absurd stands

    module _ (text : List (List ℕ)) (append_newline : Bool) where
      unasked_lem :
          (o : Option Ptr) (q : Option P)
          → Stands dom lib self document cb h m o q i
          → RepliesAsIdeal dom lib self document cb h page
              (write_unasked
                (embedder dom P D self cb)
                lib
                (hooks dom document page)
                document
                self
                cb
                buffer
                write_inline
                text
                append_newline
                (with_parser t o)
                m)
              (ideal_write dom document page lib text append_newline
                (with_state dom lib document page t q i))
      unfolding write_unasked
      unasked_lem o q stands = elim (Bool-cases (refuses t)) [
        | inl a ↦ rw a (
            unchanged dom lib self document cb keeps page buffer buffer_ne_null h t m i o q
              invalid_state_error _ refl stands)
        | inr a ↦ elim (Bool-cases (is_streamed t)) [
          | inl s ↦ rw a (
              rw s (
                written_lem dom lib self document cb keeps page buffer buffer_ne_null h
                  (unfold joined in joined text append_newline) _ _ (opened_lem o q stands)))
          | inr s ↦ rw a (rw s tt)
        ]
      ]

      write-ideal :
          (o : Option Ptr) (q : Option P)
          → Stands dom lib self document cb h m o q i
          → RepliesAsIdeal dom lib self document cb h page
              (write_internal
                (embedder dom P D self cb)
                lib
                (hooks dom document page)
                document
                self
                cb
                buffer
                write_inline
                text
                append_newline
                (with_parser t o)
                m)
              (ideal_write dom document page lib text append_newline
                (with_state dom lib document page t q i))
      write-ideal o q stands =
          rw
            (write_internal-write_unasked (embedder dom P D self cb) lib (hooks dom document page)
              document self cb buffer write_inline text append_newline (with_parser t o) m)
            (unasked_lem o q stands)

  abbrev executed :
      Command
      → Document
      → Machine (embedded dom P D)
      → Outcome (Machine (embedded dom P D)) (Reply × Document)
  executed =
      execute (embedder dom P D self cb) lib (hooks dom document page) document self cb buffer
        write_inline

  pub execute-ideal :
      (c : Command) (t : Moment) (m : Machine (embedded dom P D)) (i : Ideal dom) (o : Option Ptr)
      (q : Option P)
      → Stands dom lib self document cb h m o q i
      → RepliesAsIdeal dom lib self document cb h page
          (executed c (with_parser t o) m)
          (ideal_execute dom document page lib c (with_state dom lib document page t q i))
  unfolding execute ideal_execute
  execute-ideal opens t m i o q stands =
      open-ideal dom lib self document cb keeps page buffer buffer_ne_null h t m i o q stands
  execute-ideal (writes text append_newline) t m i o q stands =
      write-ideal t m i text append_newline o q stands
  execute-ideal closes t m i o q stands =
      close-ideal dom lib self document cb keeps page buffer buffer_ne_null h t m i o q stands
  execute-ideal (changes t') t m i o q stands =
      unchanged dom lib self document cb keeps page buffer buffer_ne_null h t' m i o q success _
        refl stands
