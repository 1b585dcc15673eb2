-- ===== src/DocumentWrite/Steps.antt =====
-- The parts of `open`, `write` and `close` of browser/webapi/Document.zig that use the parser, against
-- the ideal document.
use zenpanda.Prelude.{
  ℕ, ◌≡◌, ◌≢◌, refl, ap, ◌∙◌, subst, List, length, Option, none, some, false, ==_ne, inl, inr,
  Bool-cases,
}
use zenpanda.Html5ever.{Ptr, null, Html5ever}
use zenpanda.Utf8.{from_utf8_ok}
use zenpanda.Memory.{read_slice-write_slice}
use zenpanda.Types.{Ref}
use zenpanda.Machine.{Heap, Machine, Outcome}
use zenpanda.Machine.Slices.{write_parts_lem}
use zenpanda.Sink.{Ending, normal, unwinding}
use zenpanda.Document.{Callbacks}
use zenpanda.Streaming.{html5ever_streaming_parser_finish, html5ever_streaming_parser_create}
use zenpanda.Session.{read, done}
use zenpanda.Session.Strings.{KeepsStrings}
use zenpanda.Session.Reads.{filled, fed, filled-Live, fed_lem}
use zenpanda.Embedder.{Dom, embedded, embedder}
use zenpanda.Embedder.Ideal.{Ideal, ideal_run}
use zenpanda.Embedder.Documents.{AsIdeal}
use zenpanda.Embedder.Streams.{Live, FedAsIdeal, feed_not_utf8, destroy_frees, finish-ideal}
use zenpanda.Embedder.Created.{CreatedAsIdeal, create-ideal}
use zenpanda.DocumentWrite.{
  Moment, Document, Reply, success, start_parser, read_markup, close_parser,
}
use zenpanda.DocumentWrite.Ideal.{
  PageHooks, hooks, IdealDocument, ideal_cleared, ideal_started, ideal_fed, ideal_read,
  ideal_finished,
}
use zenpanda.DocumentWrite.Holds.{
  Idle, Replied, RepliesAsIdeal, cleared, cleared-Ready, Live-dom, destroyed-Idle, Idle-dom,
}

abbrev pub with_parser : Moment → Option Ptr → Document
with_parser t o = record { moment = t; script_created_parser = o }

module _ (dom : Dom) {P : Type 0} (lib : Html5ever P) (document : Ref) (page : PageHooks dom) where
  abbrev pub with_state : Moment → Option P → Ideal dom → IdealDocument dom document page lib
  with_state t q i = record { moment = t; parser = q; ideal = i }

module _ (dom : Dom) {P D : Type 0} (lib : Html5ever P) (self document : Ref) (cb : Callbacks)
    (keeps : KeepsStrings dom lib document) (page : PageHooks dom) (buffer : Ptr)
    (buffer_ne_null : buffer ≢ null) (t : Moment) where
  abbrev start :
      Machine (embedded dom P D) → Outcome (Machine (embedded dom P D)) (Reply × Document)
  start m =
      start_parser (embedder dom P D self cb) lib (hooks dom document page) document self cb buffer
        (with_parser t none) m

  started_lem :
      (m : Machine (embedded dom P D)) (i : Ideal dom) (o : Option (Ending P × Ideal dom))
      → CreatedAsIdeal dom lib self document cb
          (cleared dom lib self document cb m.heap page m)
          (html5ever_streaming_parser_create
            (embedder dom P D self cb)
            lib
            document
            self
            cb
            (cleared dom lib self document cb m.heap page m))
          o
      → RepliesAsIdeal dom lib self document cb m.heap page
          (start m)
          (ideal_started dom document page lib (with_state dom lib document page t none i) o)
  unfolding start_parser
  started_lem m i none c = tt
  started_lem m i (some (normal st, j)) c = record {
    pointer = some c.pointer;
    machine' = _;
    equation = rw c.equation (rw (==_ne c.pointer null c.live.ne_null) refl);
    stands = (c.unused, Live-dom dom lib self document cb m.heap page.set_parse_mode c.live);
  }
  started_lem m i (some (unwinding st, j)) c = rw c refl

  module _ (h : Heap (embedded dom P D)) where
    pub start_parser_lem :
        (m : Machine (embedded dom P D)) (i : Ideal dom)
        → Idle dom lib self document cb h m i
        → RepliesAsIdeal dom lib self document cb h page (start m) (
            ideal_started dom document page lib (with_state dom lib document page t none i) (
              ideal_run dom document
                (ideal_cleared dom document page lib i)
                (lib.parse_document lib.default_opts)))
    start_parser_lem m i idle =
        subst
          (λ g. RepliesAsIdeal dom lib self document cb g page (start m) (
            ideal_started dom document page lib (with_state dom lib document page t none i) (
              ideal_run dom document (ideal_cleared dom document page lib i)
                (lib.parse_document lib.default_opts))))
          idle.heap_eq
          (started_lem m i _ (
            create-ideal dom lib self document cb _ (ideal_cleared dom document page lib i)
              (cleared-Ready dom lib self document cb h page idle) (keeps.parse_document _ _)))

    module _ (p : Ptr) (unused : h p ≡ none) (html : List ℕ) (ne : length html ≢ 0) where
      abbrev reading :
          Machine (embedded dom P D) → Outcome (Machine (embedded dom P D)) (Reply × Document)
      reading m =
          read_markup (embedder dom P D self cb) lib (hooks dom document page) document self cb
            buffer html (with_parser t (some p)) (some p) m

      fed_markup :
          (m : Machine (embedded dom P D)) (st : P) (i : Ideal dom) (ne_null : p ≢ null)
          (o : Option (Ending P × Ideal dom))
          → FedAsIdeal dom lib self document cb h p
              (fed dom lib self document cb keeps h p unused buffer buffer_ne_null m html)
              o
          → RepliesAsIdeal dom lib self document cb h page
              (reading m)
              (ideal_fed dom document page lib (with_state dom lib document page t (some st) i) o)
      unfolding read_markup read
      fed_markup m st i ne_null none f = tt
      fed_markup m st i ne_null (some (normal st', j)) f = record {
        pointer = some p;
        machine' = f.machine';
        equation =
            rw (write_parts_lem m buffer html buffer_ne_null)
              (rw (==_ne p null ne_null) (rw f.equation refl));
        stands = (unused, f.live);
      }
      fed_markup m st i ne_null (some (unwinding st', j)) f = record {
        pointer = none;
        machine' = _;
        equation = rw (write_parts_lem m buffer html buffer_ne_null) (
            rw (==_ne p null ne_null)
              (rw f.equation (rw (destroy_frees dom lib self document cb h p f.live unused) refl)));
        stands =
            Idle-dom dom lib self document cb h (λ s. (page.flush_pending_text s).1)
              (destroyed-Idle dom lib self document cb h unused f.live);
      }

      dropped_markup :
          (m : Machine (embedded dom P D)) (st : P) (i : Ideal dom)
          → Live dom lib self document cb h p m st i
          → from_utf8_ok html ≡ false
          → Replied dom lib self document cb h page
              (reading m)
              success
              (with_state dom lib document page t (some st) i)
      unfolding read_markup read
      dropped_markup m st i live bad =
          let l =
            filled-Live dom lib self document cb keeps h p unused buffer buffer_ne_null html live in
          record {
            pointer = some p;
            machine' =
                filled dom lib self document cb keeps h p unused buffer buffer_ne_null m html;
            equation = rw (write_parts_lem m buffer html buffer_ne_null) (
                rw (==_ne p null live.ne_null) (
                  rw
                    (feed_not_utf8 dom lib self document cb h p l buffer (length html)
                      buffer_ne_null ne
                      (ap from_utf8_ok (read_slice-write_slice m.bytes buffer html) ∙ bad))
                    refl));
            stands = (unused, l);
          }

      pub read_markup_lem :
          (m : Machine (embedded dom P D)) (st : P) (i : Ideal dom)
          → Live dom lib self document cb h p m st i
          → RepliesAsIdeal dom lib self document cb h page (reading m) (
              ideal_read dom document page lib html
                (with_state dom lib document page t (some st) i)
                (some st))
      read_markup_lem m st i live = elim (Bool-cases (from_utf8_ok html)) [
        | inl ok ↦ rw ok (
            fed_markup m st i live.ne_null _ (
              fed_lem dom lib self document cb keeps h p unused buffer buffer_ne_null html live ok
                ne))
        | inr bad ↦ rw bad (dropped_markup m st i live bad)
      ]

    module _ (p : Ptr) (unused : h p ≡ none) where
      abbrev closing :
          Machine (embedded dom P D) → Outcome (Machine (embedded dom P D)) (Reply × Document)
      closing m =
          close_parser (embedder dom P D self cb) lib (hooks dom document page) document self cb
            buffer (with_parser t (some p)) (some p) m

      finished_lem :
          (m : Machine (embedded dom P D)) (st : P) (i : Ideal dom) (ne_null : p ≢ null)
          (o : Option (Ending (Unit {0}) × Ideal dom))
          → AsIdeal dom self document cb
              (html5ever_streaming_parser_finish (embedder dom P D self cb) lib p m)
              (record m { heap = h })
              o
          → RepliesAsIdeal dom lib self document cb h page (closing m) (
              ideal_finished dom document page lib
                (with_state dom lib document page t (some st) i)
                o)
      unfolding done
      finished_lem m st i ne_null none f = tt
      finished_lem m st i ne_null (some (normal u, j)) f =
          let idle : Idle dom lib self document cb h f.machine' j = record {
            dom_eq = f.dom_eq;
            next_ref_eq = f.next_ref_eq;
            heap_eq = f.heap_eq;
            fresh = f.fresh;
            next_ne_null = f.next_ne_null;
          } in
          let same : (page.flush_pending_text f.machine'.client.dom).0
              ≡ (page.flush_pending_text j.dom).0 =
            ap (λ s. (page.flush_pending_text s).0) f.dom_eq in
          let flushed_Idle =
            Idle-dom dom lib self document cb h (λ s. (page.flush_pending_text s).1) idle in
          elim (Bool-cases (page.flush_pending_text j.dom).0) [
            | inl ok ↦ rw ok (record {
              pointer = none;
              machine' = _;
              equation = rw (==_ne p null ne_null) (rw f.equation (rw (same ∙ ok) refl));
              stands = Idle-dom dom lib self document cb h page.complete flushed_Idle;
            })
            | inr bad ↦ rw bad (record {
              pointer = none;
              machine' = _;
              equation = rw (==_ne p null ne_null) (rw f.equation (rw (same ∙ bad) refl));
              stands = flushed_Idle;
            })
          ]
      finished_lem m st i ne_null (some (unwinding u, j)) f = rw (==_ne p null ne_null) (rw f refl)

      pub close_parser_lem :
          (m : Machine (embedded dom P D)) (st : P) (i : Ideal dom)
          → Live dom lib self document cb h p m st i
          → RepliesAsIdeal dom lib self document cb h page (closing m) (
              ideal_finished dom document page lib
                (with_state dom lib document page t (some st) i)
                (ideal_run dom document i (lib.finish st)))
      close_parser_lem m st i live =
          finished_lem m st i live.ne_null _
            (finish-ideal dom lib self document cb h p live unused (keeps.finish st i _))
