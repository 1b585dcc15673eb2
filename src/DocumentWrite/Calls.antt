-- ===== src/DocumentWrite/Calls.antt =====
-- `open`, `write` and `close` of browser/webapi/Document.zig, against the ideal document.
use zenpanda.Prelude.{
  ℕ, ◌≡◌, ◌≢◌, refl, List, length, Option, none, some, false, ◌==◌, if◌then◌else◌, inl, inr,
  Bool-cases, if-related, arith,
}
use zenpanda.Html5ever.{Ptr, null, Html5ever}
use zenpanda.Types.{Ref}
use zenpanda.Machine.{Heap, Machine, Outcome, Run, returned, and_then, pure}
use zenpanda.Document.{Callbacks}
use zenpanda.Session.Strings.{KeepsStrings}
use zenpanda.Embedder.{Dom, embedded, embedder}
use zenpanda.Embedder.Ideal.{Ideal}
use zenpanda.DocumentWrite.{
  Moment, Document, Reply, success, invalid_state_error, parser_creation_failed, flush_failed,
  refuses, start_parser, read_markup, written, open_document, close_document, is_absent,
}
use zenpanda.DocumentWrite.Ideal.{
  PageHooks, hooks, Answer, answered, stopped, ideal_open, ideal_ready, ideal_read, ideal_written,
  ideal_close,
}
use zenpanda.DocumentWrite.Holds.{Stands, Replied, RepliesAsIdeal}
use zenpanda.DocumentWrite.Steps.{
  with_parser, with_state, start_parser_lem, read_markup_lem, close_parser_lem,
}

module _ (dom : Dom) {P D : Type 0} (lib : Html5ever P) (self document : Ref) (cb : Callbacks)
    (keeps : KeepsStrings dom lib document) (page : PageHooks dom) (buffer : Ptr)
    (buffer_ne_null : buffer ≢ null) (h : Heap (embedded dom P D)) where
  module _ (t : Moment) (m : Machine (embedded dom P D)) (i : Ideal dom) where
    abbrev RelatedAt :
        Run (embedded dom P D) (Reply × Document) → Option (Answer dom document page lib) → Type 0
    RelatedAt r a = RepliesAsIdeal dom lib self document cb h page (r m) a

    -- a reply with nothing done
    pub unchanged :
        (o : Option Ptr) (q : Option P) (r : Reply)
        (x : Outcome (Machine (embedded dom P D)) (Reply × Document))
        → x ≡ returned (r, with_parser t o) m
        → Stands dom lib self document cb h m o q i
        → Replied dom lib self document cb h page x r (with_state dom lib document page t q i)
    unchanged o q r x e stands = record { pointer = o; machine' = m; equation = e; stands = stands }

    abbrev opening : Option Ptr → Outcome (Machine (embedded dom P D)) (Reply × Document)
    opening o =
        open_document (embedder dom P D self cb) lib (hooks dom document page) document self cb
          buffer (with_parser t o) m

    open_allowed :
        (o : Option Ptr) (q : Option P)
        → Stands dom lib self document cb h m o q i
        → RepliesAsIdeal dom lib self document cb h page
            ((if is_absent o
                then start_parser
                    (embedder dom P D self cb)
                    lib
                    (hooks dom document page)
                    document
                    self
                    cb
                    buffer
                    (with_parser t o)
                else pure (success, with_parser t o))
              m)
            (ideal_ready dom document page lib (with_state dom lib document page t q i) q)
    open_allowed none none stands =
        start_parser_lem dom lib self document cb keeps page buffer buffer_ne_null t h m i stands
    open_allowed (some p) (some st) stands = unchanged (some p) (some st) success _ refl stands
    open_allowed none (some st) stands = absurd stands
    open_allowed (some p) none stands = absurd stands

    pub open-ideal :
        (o : Option Ptr) (q : Option P)
        → Stands dom lib self document cb h m o q i
        → RepliesAsIdeal dom lib self document cb h page
            (opening o)
            (ideal_open dom document page lib (with_state dom lib document page t q i))
    unfolding open_document
    open-ideal o q stands =
        if-related RelatedAt (refuses t) (λ a. unchanged o q invalid_state_error _ refl stands)
          λ a.
            if-related RelatedAt t.is_parsing (λ b. unchanged o q success _ refl stands)
              λ b. open_allowed o q stands

    markup_lem :
        (html : List ℕ) (ne : length html ≢ 0) (o : Option Ptr) (q : Option P)
        → Stands dom lib self document cb h m o q i
        → RepliesAsIdeal dom lib self document cb h page
            (read_markup
              (embedder dom P D self cb)
              lib
              (hooks dom document page)
              document
              self
              cb
              buffer
              html
              (with_parser t o)
              o
              m)
            (ideal_read dom document page lib html (with_state dom lib document page t q i) q)
    unfolding read_markup
    markup_lem html ne none none stands = unchanged none none success _ refl stands
    markup_lem html ne (some p) (some st) stands =
        read_markup_lem dom lib self document cb keeps page buffer buffer_ne_null t h p stands.0
          html ne m st i stands.1
    markup_lem html ne none (some st) stands = absurd stands
    markup_lem html ne (some p) none stands = absurd stands

    closed_allowed :
        (o : Option Ptr) (q : Option P)
        → Stands dom lib self document cb h m o q i
        → refuses t ≡ false
        → RepliesAsIdeal dom lib self document cb h page
            (close_document
              (embedder dom P D self cb)
              lib
              (hooks dom document page)
              document
              self
              cb
              buffer
              (with_parser t o)
              m)
            (ideal_close dom document page lib (with_state dom lib document page t q i))
    unfolding close_document
    closed_allowed none none stands a = rw a (unchanged none none success _ refl stands)
    closed_allowed (some p) (some st) stands a = rw a (
        close_parser_lem dom lib self document cb keeps page buffer buffer_ne_null t h p stands.0 m
          st i stands.1)
    closed_allowed none (some st) stands a = absurd stands
    closed_allowed (some p) none stands a = absurd stands

    pub close-ideal :
        (o : Option Ptr) (q : Option P)
        → Stands dom lib self document cb h m o q i
        → RepliesAsIdeal dom lib self document cb h page
            (close_document
              (embedder dom P D self cb)
              lib
              (hooks dom document page)
              document
              self
              cb
              buffer
              (with_parser t o)
              m)
            (ideal_close dom document page lib (with_state dom lib document page t q i))
    unfolding close_document
    close-ideal o q stands = elim (Bool-cases (refuses t)) [
      | inl a ↦ rw a (unchanged o q invalid_state_error _ refl stands)
      | inr a ↦ closed_allowed o q stands a
    ]

  module _ (html : List ℕ) where
    abbrev pub writing : Reply × Document → Run (embedded dom P D) (Reply × Document)
    writing =
        written (embedder dom P D self cb) lib (hooks dom document page) document self cb buffer
          html

    pub written_lem :
        (x : Outcome (Machine (embedded dom P D)) (Reply × Document))
        (a : Option (Answer dom document page lib))
        → RepliesAsIdeal dom lib self document cb h page x a
        → RepliesAsIdeal dom lib self document cb h page
            (and_then x writing)
            (ideal_written dom document page lib html a)
    written_lem x none r = tt
    written_lem x (some stopped) r = rw r refl
    written_lem x (some (answered invalid_state_error e)) r = rw r.equation (
        unchanged e.moment r.machine' e.ideal r.pointer e.parser invalid_state_error _ refl
          r.stands)
    written_lem x (some (answered parser_creation_failed e)) r = rw r.equation (
        unchanged e.moment r.machine' e.ideal r.pointer e.parser parser_creation_failed _ refl
          r.stands)
    written_lem x (some (answered flush_failed e)) r =
        rw r.equation
          (unchanged e.moment r.machine' e.ideal r.pointer e.parser flush_failed _ refl r.stands)
    written_lem x (some (answered success e)) r = elim (Bool-cases (length html == 0)) [
      | inl z ↦
          rw r.equation (
            rw z (unchanged e.moment r.machine' e.ideal r.pointer e.parser success _ refl r.stands))
      | inr z ↦ rw r.equation (
          rw z (
            markup_lem e.moment r.machine' e.ideal html (λ q. absurd (ground (arith, q, z)))
              r.pointer e.parser r.stands))
    ]
