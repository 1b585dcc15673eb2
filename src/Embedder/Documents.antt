-- ===== src/Embedder/Documents.antt =====
-- The entry points of html5ever/lib.rs that parse a whole input, with the embedder's callbacks.
use zenpanda.Prelude.{suc, ◌≤◌, ◌<◌, ◌≡◌, refl, ap, fun_ext, [], Option, none, some, arith}
use zenpanda.Html5ever.{Ptr, no_quirks, Prog}
use zenpanda.Memory.{write_slice}
use zenpanda.Types.{Ref, Sink}
use zenpanda.Machine.{
  World, Machine, Outcome, returned, panicked, aborted, undefined, and_then, Heap, arena, update,
  without, drop_arena, load_arena, abort_on_panic,
}
use zenpanda.Code.{Code}
use zenpanda.Sink.{Ending, normal, unwinding, run, dispatch}
use zenpanda.Document.{Callbacks, sink_new, unwound, run_through, parse_one, with_arena}
use zenpanda.Embedder.{Dom, embedded, embedder}
use zenpanda.Embedder.Ideal.{Ideal, ideal_run}
use zenpanda.Embedder.Related.{SameNode, Owned, Related, Readable}
use zenpanda.Embedder.Growth.{SameNode-kept}
use zenpanda.Embedder.Heaps.{unused_behind}
use zenpanda.Embedder.Runs.{RunsAsIdeal, run-ideal_run}

-- A parser is made, and then reads its input.
unfoldable pub followed_by : {P : Type 0} → Prog P → (P → Prog (Unit {0})) → Prog (Unit {0})
followed_by (Prog.done p) one = one p
followed_by (Prog.panic p) one = Prog.panic tt
followed_by (Prog.store at vs k) one = Prog.store at vs (followed_by k one)
followed_by (Prog.call c k) one = Prog.call c (λ r. followed_by (k r) one)

abbrev unwound_tt :
    {w : World} → Outcome (Machine w) (Ending (Unit {0}) × Sink) → Outcome (Machine w) (Unit {0})
unwound_tt o = and_then (and_then o λ es. unwound es.0 es.1) λ us. λ m. returned tt m

module _ {w : World} (code : Code w) {P : Type 0} (one : P → Prog (Unit {0})) where
  -- `parse_one` from an outcome of the first part on
  abbrev parsed_from : Outcome (Machine w) (Ending P × Sink) → Outcome (Machine w) (Unit {0})
  parsed_from o =
      and_then (and_then o λ es. unwound es.0 es.1)
        (λ ps m. and_then (run_through code ps.1 (one ps.0) m) (λ us m'. returned tt m'))

  parsed_from-call :
      {R : Type 0} (o : Outcome (Machine w) (R × Sink)) (k : R → Prog P)
      → ((r : R) (s : Sink) (m : Machine w)
          → parsed_from (run code s (k r) m) ≡ unwound_tt (run code s (followed_by (k r) one) m))
      → parsed_from (and_then o λ rs. run code rs.1 (k rs.0))
        ≡ unwound_tt (and_then o λ rs. run code rs.1 (followed_by (k rs.0) one))
  parsed_from-call (returned rs m) k rec = rec rs.0 rs.1 m
  parsed_from-call (panicked m) k rec = refl
  parsed_from-call aborted k rec = refl
  parsed_from-call undefined k rec = refl

  parsed_from-run :
      (make : Prog P) (s : Sink) (m : Machine w)
      → parsed_from (run code s make m) ≡ unwound_tt (run code s (followed_by make one) m)
  unfolding run run_through followed_by
  parsed_from-run (Prog.done p) s m = refl
  parsed_from-run (Prog.panic p) s m = refl
  parsed_from-run (Prog.store at vs k) s m =
      parsed_from-run k s (record m { bytes = write_slice m.bytes at vs })
  parsed_from-run (Prog.call c k) s m =
      parsed_from-call (dispatch code s c m) k λ r. parsed_from-run (k r)

  -- Making a parser and reading with it is one run.
  pub parse_one-followed_by :
      (make : Prog P) (s : Sink) (m : Machine w)
      → parse_one code s make one m ≡ unwound_tt (run code s (followed_by make one) m)
  unfolding parse_one
  parse_one-followed_by make s m = parsed_from-run make s m

module _ (dom : Dom) {P D : Type 0} (self document : Ref) (cb : Callbacks) where
  -- A machine on which a parser can be started: nothing stands at or behind the next address, and
  -- the embedder has the DOM and the handles of the ideal state.
  pub record Ready (m : Machine (embedded dom P D)) (i : Ideal dom) : Type 0 where
    pub dom_eq : m.client.dom ≡ i.dom
    pub next_ref_eq : m.client.next_ref ≡ i.next_ref
    pub nodes : (r : Ref) → SameNode m.heap (m.client.nodes r) (i.nodes r)
    pub fresh : (p : Ptr) → m.next ≤ p → m.heap p ≡ none
    pub next_ne_null : 0 < m.next

  -- An outcome in which the whole input has been read: the DOM is the ideal one, and the heap is
  -- what it was, with all that the parser had allocated freed.
  pub record Completes (o : Outcome (Machine (embedded dom P D)) (Unit {0}))
      (m : Machine (embedded dom P D)) (i' : Ideal dom) : Type 0 where
    pub machine' : Machine (embedded dom P D)
    pub equation : o ≡ returned tt machine'
    pub dom_eq : machine'.client.dom ≡ i'.dom
    pub next_ref_eq : machine'.client.next_ref ≡ i'.next_ref
    pub heap_eq : machine'.heap ≡ m.heap
    -- nothing stands at or behind the next address
    pub fresh : (p : Ptr) → machine'.next ≤ p → m.heap p ≡ none
    pub next_ne_null : 0 < machine'.next

  -- What the ideal run says of the outcome of an entry point: a panic of the crate aborts.
  abbrev pub AsIdeal :
      Outcome (Machine (embedded dom P D)) (Unit {0})
      → Machine (embedded dom P D)
      → Option (Ending (Unit {0}) × Ideal dom)
      → Type 0
  AsIdeal o m none = Unit {0}
  AsIdeal o m (some (normal u, i')) = Completes o m i'
  AsIdeal o m (some (unwinding u, i')) = o ≡ aborted

  -- the machine behind `Arena::new()`
  abbrev pub with_new_arena : Machine (embedded dom P D) → Machine (embedded dom P D)
  with_new_arena m = record m { heap = update m.heap m.next (some (arena [])); next = suc m.next }

  pub started :
      (m : Machine (embedded dom P D)) (i : Ideal dom)
      → Ready m i
      → Related dom m.heap m.next (with_new_arena m) i
  unfolding update
  started m i ready = record {
    dom_eq = ready.dom_eq;
    next_ref_eq = ready.next_ref_eq;
    nodes = λ r.
        SameNode-kept m.heap (with_new_arena m).heap (m.client.nodes r) (i.nodes r)
          (λ d e p. ground (arith, ready.fresh m.next (omega arith), p)) (ready.nodes r);
    owned = record {
      elements = [];
      at_arena = ground arith;
      fresh = λ p l. ground (arith, ready.fresh p (omega arith));
      next_ne_null = omega arith;
      unlisted = λ g p l. unfold without in refl;
      rest = λ p. unfold without in ground (arith, ready.fresh p);
    };
  }

  pub drop_arena_lem :
      {h : Heap (embedded dom P D)} {a : Ptr} {m : Machine (embedded dom P D)}
      → Owned h a m
      → drop_arena a m ≡ returned tt (record m { heap = h })
  unfolding drop_arena load_arena
  drop_arena_lem {m} own =
      rw (own.at_arena, load_arena)
        (ap (λ (g : Heap (embedded dom P D)). returned tt (record m { heap = g }))
          (fun_ext own.rest))

  module _ (m : Machine (embedded dom P D)) (prog : Prog (Unit {0})) where
    abbrev parsed : Outcome (Machine (embedded dom P D)) (Unit {0})
    parsed =
        unwound_tt (
          run (embedder dom P D self cb) (sink_new self document m.next cb) prog (with_new_arena m))

    -- from the end of the run to the end of the function
    finished :
        (o : Option (Ending (Unit {0}) × Ideal dom))
        → RunsAsIdeal dom self document cb m.heap m.next no_quirks (with_new_arena m) prog o
        → AsIdeal (abort_on_panic (and_then parsed λ u. drop_arena m.next)) m o
    unfolding sink_new
    finished none r = tt
    finished (some (normal u, i')) r = record {
      machine' = record r.machine' { heap = m.heap };
      equation = rw r.equation (rw (drop_arena_lem r.related.owned));
      dom_eq = r.related.dom_eq;
      next_ref_eq = r.related.next_ref_eq;
      heap_eq = refl;
      fresh = unused_behind r.related.owned;
      next_ne_null = r.related.owned.next_ne_null;
    }
    finished (some (unwinding u, i')) r = rw r.equation

  module _ (m : Machine (embedded dom P D)) (i : Ideal dom) (ready : Ready m i) {Q : Type 0}
      (make : Prog Q) (one : Q → Prog (Unit {0}))
      (readable : Readable dom document i m.bytes (followed_by make one)) where
    abbrev whole : Prog (Unit {0})
    whole = followed_by make one

    pub whole_parse :
        AsIdeal
          (abort_on_panic (
            with_arena
              (λ a. parse_one (embedder dom P D self cb) (sink_new self document a cb) make one)
              m))
          m
          (ideal_run dom document i whole)
    unfolding with_arena
    whole_parse =
        rw
          (parse_one-followed_by (embedder dom P D self cb) one make
            (sink_new self document m.next cb) (with_new_arena m))
          (finished m whole (ideal_run dom document i whole) (
            run-ideal_run dom self document cb m.heap m.next whole no_quirks (with_new_arena m) i
              (started m i ready) readable))
