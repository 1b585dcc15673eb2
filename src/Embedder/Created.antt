-- ===== src/Embedder/Created.antt =====
-- How a streaming parser of html5ever/lib.rs comes to life.
use zenpanda.Prelude.{◌≡◌, Option, none, some, arith}
use zenpanda.Html5ever.{Ptr, no_quirks, Html5ever}
use zenpanda.Types.{Ref}
use zenpanda.Machine.{Machine, Outcome, returned, aborted, alloc}
use zenpanda.Sink.{Ending, normal, unwinding}
use zenpanda.Document.{Callbacks, sink_new, run_through}
use zenpanda.Streaming.{html5ever_streaming_parser_create}
use zenpanda.Embedder.{Dom, embedded, embedder}
use zenpanda.Embedder.Ideal.{Ideal, ideal_run}
use zenpanda.Embedder.Related.{Readable}
use zenpanda.Embedder.Runs.{RunsAsIdeal, run-ideal_run}
use zenpanda.Embedder.Documents.{Ready, started, with_new_arena}
use zenpanda.Embedder.Slots.{Related-box}
use zenpanda.Embedder.Streams.{Live}
use zenpanda.Embedder.Heaps.{unused_behind}

module _ (dom : Dom) {P D : Type 0} (lib : Html5ever P) (self document : Ref) (cb : Callbacks)
    (m : Machine (embedded dom P D)) where
  -- An outcome of `create` with a parser in this state at an address that was not in use.
  pub record Created (o : Outcome (Machine (embedded dom P D)) Ptr) (st : P) (i' : Ideal dom)
      : Type 0 where
    pub pointer : Ptr
    pub machine' : Machine (embedded dom P D)
    pub equation : o ≡ returned pointer machine'
    pub unused : m.heap pointer ≡ none
    pub live : Live dom lib self document cb m.heap pointer machine' st i'

  abbrev pub CreatedAsIdeal :
      Outcome (Machine (embedded dom P D)) Ptr → Option (Ending P × Ideal dom) → Type 0
  CreatedAsIdeal o none = Unit {0}
  CreatedAsIdeal o (some (normal st, i')) = Created o st i'
  CreatedAsIdeal o (some (unwinding st, i')) = o ≡ aborted

  abbrev created : Outcome (Machine (embedded dom P D)) Ptr
  created = html5ever_streaming_parser_create (embedder dom P D self cb) lib document self cb m

  finished_create :
      (o : Option (Ending P × Ideal dom))
      → RunsAsIdeal dom self document cb m.heap m.next no_quirks
          (with_new_arena dom self document cb m)
          (lib.parse_document lib.default_opts)
          o
      → CreatedAsIdeal created o
  unfolding html5ever_streaming_parser_create run_through alloc sink_new
  finished_create none r = tt
  finished_create (some (normal st, i')) r = record {
    pointer = r.machine'.next;
    machine' = _;
    equation = rw r.equation;
    unused = unused_behind r.related.owned _ (omega arith);
    live = record {
      arena' = m.next;
      quirks = r.quirks';
      ne_null = λ e. absurd (omega (arith, e, r.related.owned.next_ne_null));
      related =
          Related-box dom m.heap m.next r.machine'.next _ r.related
            (unused_behind r.related.owned _ (omega arith));
    };
  }
  finished_create (some (unwinding st, i')) r = rw r.equation

  -- `html5ever_streaming_parser_create`, on a machine where a parser can be started and with the
  -- strings of the run that makes a document parser in memory when it passes them: where the ideal
  -- run completes, it returns an address that was not in use and is not null, at which the parser
  -- lives; where that run panics, the process is aborted.
  pub create-ideal :
      (i : Ideal dom)
      → Ready dom self document cb m i
      → Readable dom document i m.bytes (lib.parse_document lib.default_opts)
      → CreatedAsIdeal created (ideal_run dom document i (lib.parse_document lib.default_opts))
  create-ideal i ready readable =
      finished_create (ideal_run dom document i (lib.parse_document lib.default_opts)) (
        run-ideal_run dom self document cb m.heap m.next (lib.parse_document lib.default_opts)
          no_quirks (with_new_arena dom self document cb m) i
          (started dom self document cb m i ready) readable)
