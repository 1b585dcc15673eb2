-- ===== src/Embedder/Streams.antt =====
-- The streaming parser of html5ever/lib.rs with the embedder's callbacks, as Parser.Streaming of
-- browser/parser/Parser.zig uses it.
use zenpanda.Prelude.{
  ℕ, ◌≡◌, ◌≢◌, refl, ap, List, Option, none, some, true, false, ◌==◌, ==_ne, ◌||◌,
}
use zenpanda.Html5ever.{Ptr, null, QuirksMode, Html5ever}
use zenpanda.Utf8.{from_utf8_ok}
use zenpanda.Memory.{read_slice}
use zenpanda.Types.{Ref}
use zenpanda.Machine.{
  Object, streaming_parser, borrowed, Heap, Machine, Outcome, returned, update, load_parser,
  store_object, free,
}
use zenpanda.Sink.{Ending, normal, unwinding}
use zenpanda.Document.{Callbacks, run_through}
use zenpanda.Streaming.{
  minus_one, catch_unwind, end_unwinding, take_parser, process_in_place, feed_chunk,
  html5ever_streaming_parser_feed, html5ever_streaming_parser_finish,
  html5ever_streaming_parser_destroy,
}
use zenpanda.Client.Drain.{update_self}
use zenpanda.Embedder.{Dom, embedded, embedder}
use zenpanda.Embedder.Ideal.{Ideal, ideal_run}
use zenpanda.Embedder.Related.{Related, Readable}
use zenpanda.Embedder.Calls.{sink_in}
use zenpanda.Embedder.Runs.{RunsAsIdeal, run-ideal_run}
use zenpanda.Embedder.Documents.{AsIdeal, drop_arena_lem}
use zenpanda.Machine.Slices.{from_raw_parts_lem}
use zenpanda.Embedder.Slots.{at_p, Related-set}
use zenpanda.Embedder.Heaps.{unused_behind, behind_slot}

module _ (dom : Dom) {P D : Type 0} (lib : Html5ever P) (self document : Ref) (cb : Callbacks)
    (h : Heap (embedded dom P D)) (p : Ptr) where
  abbrev pub box : Ptr → QuirksMode → P → Object (embedded dom P D)
  box a q st = streaming_parser (record {
    arena = a;
    parser = record { sink = sink_in dom self document cb h a q; state = st };
  })

  -- A streaming parser lives at `p`, in the state `st`: apart from its box, its arena and what the
  -- arena owns, the heap is `h`, and the page is that of the ideal state.
  pub record Live (m : Machine (embedded dom P D)) (st : P) (i : Ideal dom) : Type 0 where
    pub arena' : Ptr
    pub quirks : QuirksMode
    pub ne_null : p ≢ null
    pub related : Related dom (update h p (some (box arena' quirks st))) arena' m i

  module _ {m : Machine (embedded dom P D)} {st : P} {i : Ideal dom} (live : Live m st i) where
    open live use {arena' as a, quirks as q}

    loads :
        load_parser p m
        ≡ returned
            (record {
              arena = a;
              parser = record { sink = sink_in dom self document cb h a q; state = st };
            })
            m
    unfolding load_parser
    loads = rw (at_p h a p (box a q st) live.related.owned)

    -- the machine while the parser is lent out
    abbrev pub lent : Machine (embedded dom P D)
    lent = record m { heap = update m.heap p (some borrowed) }

    lent-Related : Related dom (update h p (some borrowed)) a lent i
    lent-Related = Related-set dom h a p (box a q st) live.related (λ e z. cc) (some borrowed)

  -- An outcome of `feed` with this status, after which the parser lives on in the given state.
  pub record Fed (o : Outcome (Machine (embedded dom P D)) ℕ) (status : ℕ) (st : P) (i : Ideal dom)
      : Type 0 where
    pub machine' : Machine (embedded dom P D)
    pub equation : o ≡ returned status machine'
    pub live : Live machine' st i

  -- What the ideal run says of `feed`: the status tells a panic, and the parser stays in both cases.
  abbrev pub FedAsIdeal :
      Outcome (Machine (embedded dom P D)) ℕ → Option (Ending P × Ideal dom) → Type 0
  FedAsIdeal o none = Unit {0}
  FedAsIdeal o (some (normal st, i)) = Fed o 0 st i
  FedAsIdeal o (some (unwinding st, i)) = Fed o minus_one st i

  module _ {m : Machine (embedded dom P D)} {st : P} {i : Ideal dom} (live : Live m st i)
      (html : Ptr) (len : ℕ) (html_ne_null : html ≢ null) (len_ne_zero : len ≢ 0) where
    abbrev pub chunk : List ℕ
    chunk = read_slice m.bytes html len

    abbrev pub feed : Outcome (Machine (embedded dom P D)) ℕ
    feed = html5ever_streaming_parser_feed (embedder dom P D self cb) lib p html len m

    guard_false : (p == null || html == null || len == 0) ≡ false
    guard_false =
        rw (==_ne p null live.ne_null, ==_ne html null html_ne_null, ==_ne len 0 len_ne_zero)

    -- A chunk that is not UTF-8 is dropped whole, and the status is that of success.
    pub feed_not_utf8 : from_utf8_ok chunk ≡ false → feed ≡ returned 0 m
    unfolding html5ever_streaming_parser_feed feed_chunk catch_unwind
    feed_not_utf8 bad =
        rw guard_false (rw (loads live) (rw (from_raw_parts_lem m html len html_ne_null) (rw bad)))

    -- The box takes the parser back.
    still_live :
        {m' : Machine (embedded dom P D)} {st' : P} {i' : Ideal dom} (q' : QuirksMode)
        → Related dom (update h p (some borrowed)) live.arena' m' i'
        → Live (record m' { heap = update m'.heap p (some (box live.arena' q' st')) }) st' i'
    still_live {st'} q' rel = record {
      arena' = live.arena';
      quirks = q';
      ne_null = live.ne_null;
      related =
          Related-set dom h live.arena' p borrowed rel (λ e z. cc) (some (box live.arena' q' st'));
    }

    finished_feed :
        (valid : from_utf8_ok chunk ≡ true) (o : Option (Ending P × Ideal dom))
        → RunsAsIdeal dom self document cb
            (update h p (some borrowed))
            live.arena'
            live.quirks
            (lent live)
            (lib.process st chunk)
            o
        → FedAsIdeal feed o
    unfolding html5ever_streaming_parser_feed feed_chunk catch_unwind process_in_place store_object
        end_unwinding
    finished_feed valid none r = tt
    finished_feed valid (some (normal st', i')) r = record {
      machine' = record r.machine' {
        heap = update r.machine'.heap p (some (box live.arena' r.quirks' st'));
      };
      equation = rw guard_false (
          rw (loads live) (
            rw (from_raw_parts_lem m html len html_ne_null)
              (rw (valid, loads live) (rw r.equation))));
      live = still_live r.quirks' r.related;
    }
    finished_feed valid (some (unwinding st', i')) r = record {
      machine' = record r.machine' {
        heap = update r.machine'.heap p (some (box live.arena' r.quirks' st'));
      };
      equation = rw guard_false (
          rw (loads live) (
            rw (from_raw_parts_lem m html len html_ne_null)
              (rw (valid, loads live) (rw r.equation))));
      live = still_live r.quirks' r.related;
    }

    -- `html5ever_streaming_parser_feed` with a chunk of UTF-8 that is not empty, for a parser that
    -- lives and whose strings stand in memory when it passes them: where the ideal run of `process`
    -- completes, the status is 0, and where it panics, -1; in both cases the parser lives on at its
    -- address in the state that the run left, and the page is that of the run.
    pub feed-ideal :
        from_utf8_ok chunk ≡ true
        → Readable dom document i m.bytes (lib.process st chunk)
        → FedAsIdeal feed (ideal_run dom document i (lib.process st chunk))
    feed-ideal valid readable =
        finished_feed valid (ideal_run dom document i (lib.process st chunk)) (
          run-ideal_run dom self document cb (update h p (some borrowed)) live.arena'
            (lib.process st chunk) live.quirks (lent live) i (lent-Related live) readable)

  module _ {m : Machine (embedded dom P D)} {st : P} {i : Ideal dom} (live : Live m st i) where
    freed-Related :
        Related dom (update h p none) live.arena' (record m { heap = update m.heap p none }) i
    freed-Related =
        Related-set dom h live.arena' p (box live.arena' live.quirks st) live.related (λ e z. cc)
          none

    -- `html5ever_streaming_parser_destroy` for a parser that lives at an address which the caller's
    -- heap does not use returns, frees the parser, its arena and all elements of the arena and
    -- nothing else, and leaves the page alone.
    pub destroy_frees :
        h p ≡ none → html5ever_streaming_parser_destroy p m ≡ returned tt (record m { heap = h })
    unfolding html5ever_streaming_parser_destroy take_parser free
    destroy_frees unused = rw (==_ne p null live.ne_null) (
        rw (loads live) (
          rw (drop_arena_lem dom self document cb freed-Related.owned) (
            ap (λ (g : Heap (embedded dom P D)). returned tt (record m { heap = g }))
              (update_self h p none unused))))

    finished_finish :
        h p ≡ none
        → (o : Option (Ending (Unit {0}) × Ideal dom))
        → RunsAsIdeal dom self document cb
            (update h p none)
            live.arena'
            live.quirks
            (record m { heap = update m.heap p none })
            (lib.finish st)
            o
        → AsIdeal dom self document cb
            (html5ever_streaming_parser_finish (embedder dom P D self cb) lib p m)
            (record m { heap = h })
            o
    unfolding html5ever_streaming_parser_finish take_parser free run_through
    finished_finish unused none r = tt
    finished_finish unused (some (normal u, i')) r = record {
      machine' = record r.machine' { heap = h };
      equation = rw (==_ne p null live.ne_null) (
          rw (loads live) (
            rw r.equation (
              rw (drop_arena_lem dom self document cb r.related.owned) (
                ap (λ (g : Heap (embedded dom P D)). returned tt (record r.machine' { heap = g }))
                  (update_self h p none unused)))));
      dom_eq = r.related.dom_eq;
      next_ref_eq = r.related.next_ref_eq;
      heap_eq = refl;
      fresh = λ q l. behind_slot h p none unused (unused_behind r.related.owned q l);
      next_ne_null = r.related.owned.next_ne_null;
    }
    finished_finish unused (some (unwinding u, i')) r =
        rw (==_ne p null live.ne_null) (rw (loads live) (rw r.equation))

    -- `html5ever_streaming_parser_finish` for a parser that lives at an address which the caller's
    -- heap does not use and whose strings stand in memory when it passes them: where the ideal run
    -- of `finish` completes, the function returns, the page is that of the run, and the heap is the
    -- caller's again; where that run panics, the process is aborted.
    pub finish-ideal :
        h p ≡ none
        → Readable dom document i m.bytes (lib.finish st)
        → AsIdeal dom self document cb
            (html5ever_streaming_parser_finish (embedder dom P D self cb) lib p m)
            (record m { heap = h })
            (ideal_run dom document i (lib.finish st))
    finish-ideal unused readable =
        finished_finish unused (ideal_run dom document i (lib.finish st)) (
          run-ideal_run dom self document cb (update h p none) live.arena' (lib.finish st)
            live.quirks (record m { heap = update m.heap p none }) i freed-Related readable)
