-- ===== src/Session/Reads.antt =====
-- A piece of a document that `Streaming.read` of browser/parser/Parser.zig passes to
-- html5ever/lib.rs.
use zenpanda.Prelude.{ℕ, ◌≡◌, ◌≢◌, ap, ◌∙◌, subst, List, length, none, true}
use zenpanda.Html5ever.{Ptr, null, Html5ever}
use zenpanda.Utf8.{from_utf8_ok}
use zenpanda.Memory.{read_slice, write_slice, read_slice-write_slice}
use zenpanda.Types.{Ref}
use zenpanda.Machine.{Heap, Machine, Outcome}
use zenpanda.Document.{Callbacks}
use zenpanda.Streaming.{html5ever_streaming_parser_feed}
use zenpanda.Embedder.{Dom, embedded, embedder}
use zenpanda.Embedder.Ideal.{Ideal, ideal_run}
use zenpanda.Embedder.Runs.{Related-bytes}
use zenpanda.Embedder.Streams.{Live, FedAsIdeal, feed-ideal}
use zenpanda.Session.Strings.{KeepsStrings}

module _ (dom : Dom) {P D : Type 0} (lib : Html5ever P) (self document : Ref) (cb : Callbacks)
    (keeps : KeepsStrings dom lib document) (h : Heap (embedded dom P D)) (p : Ptr)
    (unused : h p ≡ none) (buffer : Ptr) (buffer_ne_null : buffer ≢ null) where
  -- with the piece in the buffer
  abbrev pub filled : Machine (embedded dom P D) → List ℕ → Machine (embedded dom P D)
  filled m c = record m { bytes = write_slice m.bytes buffer c }

  pub filled-Live :
      {m : Machine (embedded dom P D)} {st : P} {i : Ideal dom} (c : List ℕ)
      → Live dom lib self document cb h p m st i
      → Live dom lib self document cb h p (filled m c) st i
  filled-Live {m} {st} c live = record {
    arena' = live.arena';
    quirks = live.quirks;
    ne_null = live.ne_null;
    related =
        Related-bytes dom self document cb _ live.arena' (write_slice m.bytes buffer c)
          live.related;
  }

  abbrev pub fed : Machine (embedded dom P D) → List ℕ → Outcome (Machine (embedded dom P D)) ℕ
  fed m c =
      html5ever_streaming_parser_feed (embedder dom P D self cb) lib p buffer (length c)
        (filled m c)

  pub fed_lem :
      {m : Machine (embedded dom P D)} {st : P} {i : Ideal dom} (c : List ℕ)
      → Live dom lib self document cb h p m st i
      → from_utf8_ok c ≡ true
      → length c ≢ 0
      → FedAsIdeal dom lib self document cb h p
          (fed m c)
          (ideal_run dom document i (lib.process st c))
  fed_lem {m} {st} {i} c live ok ne =
      let there : read_slice (filled m c).bytes buffer (length c) ≡ c =
        read_slice-write_slice m.bytes buffer c in
      subst
        (λ x.
          FedAsIdeal dom lib self document cb h p (fed m c)
            (ideal_run dom document i (lib.process st x)))
        there
        (feed-ideal dom lib self document cb h p (filled-Live c live) buffer (length c)
          buffer_ne_null ne (ap from_utf8_ok there ∙ ok) (keeps.process st _ i _))
