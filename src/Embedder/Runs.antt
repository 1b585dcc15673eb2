-- ===== src/Embedder/Runs.antt =====
-- Whole runs of a parser over html5ever/sink.rs and the embedder, against ideal runs.
use zenpanda.Prelude.{ℕ, List, ◌≡◌, refl, Option, none, some}
use zenpanda.Html5ever.{Ptr, QuirksMode, Call, Reply, Prog}
use zenpanda.Memory.{Bytes, write_slice}
use zenpanda.Types.{Ref}
use zenpanda.Machine.{Heap, Machine, returned}
use zenpanda.Sink.{Ending, run}
use zenpanda.Document.{Callbacks}
use zenpanda.Embedder.{Dom, embedded, embedder}
use zenpanda.Embedder.Ideal.{Ideal, ideal_call, ideal_run, ◌>>=◌}
use zenpanda.Embedder.Related.{HoldsCall, Related, Readable}
use zenpanda.Embedder.Calls.{sink_in, Answered, Answers}
use zenpanda.Embedder.Calls.Creations
use zenpanda.Embedder.Calls.Insertions
use zenpanda.Embedder.Calls.Queries

module _ (dom : Dom) {P D : Type 0} (self document : Ref) (cb : Callbacks)
    (h : Heap (embedded dom P D)) (a : Ptr) where
  -- Each of the eighteen methods of the sink, from a machine that stands to an ideal state and with
  -- its strings in memory: where the ideal call is defined, the method returns what that call does,
  -- the machine afterwards stands to the ideal state after the call, and no byte of memory has
  -- changed.
  pub answers :
      (q : QuirksMode) {m : Machine (embedded dom P D)} {i : Ideal dom}
      → Related dom h a m i
      → (c : Call) → HoldsCall m.bytes c
      → Answers dom self document cb h a q m c (ideal_call dom document i c)
  answers q rel (Call.parse_error err) holds =
      Queries.answers-parse_error dom self document cb h a q rel err holds
  answers q rel Call.get_document holds =
      Queries.answers-get_document dom self document cb h a q rel
  answers q rel (Call.set_quirks_mode mode) holds =
      Queries.answers-set_quirks_mode dom self document cb h a q rel mode
  answers q rel (Call.same_node x y) holds =
      Queries.answers-same_node dom self document cb h a q rel x y
  answers q rel (Call.elem_name r) holds =
      Queries.answers-elem_name dom self document cb h a q rel r
  answers q rel (Call.get_template_contents r) holds =
      Creations.answers-get_template_contents dom self document cb h a q rel r
  answers q rel (Call.is_mathml_annotation_xml_integration_point r) holds =
      Queries.answers-is_mathml_annotation_xml_integration_point dom self document cb h a q rel r
  answers q rel (Call.pop r) holds = Insertions.answers-pop dom self document cb h a q rel r
  answers q rel (Call.create_element name attrs flags) holds =
      Creations.answers-create_element dom self document cb h a q rel name attrs flags holds
  answers q rel (Call.create_comment txt) holds =
      Creations.answers-create_comment dom self document cb h a q rel txt holds
  answers q rel (Call.create_pi target d) holds =
      Creations.answers-create_pi dom self document cb h a q rel target d holds
  answers q rel (Call.append r c) holds =
      Insertions.answers-append dom self document cb h a q rel r c holds
  answers q rel (Call.append_before_sibling r c) holds =
      Insertions.answers-append_before_sibling dom self document cb h a q rel r c holds
  answers q rel (Call.append_based_on_parent_node r r' c) holds =
      Insertions.answers-append_based_on_parent_node dom self document cb h a q rel r r' c holds
  answers q rel (Call.append_doctype_to_document n p s) holds =
      Insertions.answers-append_doctype_to_document dom self document cb h a q rel n p s holds
  answers q rel (Call.add_attrs_if_missing r attrs) holds =
      Insertions.answers-add_attrs_if_missing dom self document cb h a q rel r attrs holds
  answers q rel (Call.remove_from_parent r) holds =
      Insertions.answers-remove_from_parent dom self document cb h a q rel r
  answers q rel (Call.reparent_children r r') holds =
      Insertions.answers-reparent_children dom self document cb h a q rel r r'

  -- A run that ends as the ideal one does, with related states.
  pub record RunsAs {A : Type 0} (q : QuirksMode) (m : Machine (embedded dom P D)) (p : Prog A)
      (e : Ending A) (i' : Ideal dom) : Type 0 where
    pub quirks' : QuirksMode
    pub machine' : Machine (embedded dom P D)
    pub equation :
        run (embedder dom P D self cb) (sink_in dom self document cb h a q) p m
        ≡ returned (e, sink_in dom self document cb h a quirks') machine'
    pub related : Related dom h a machine' i'

  -- so, if the ideal run is defined
  abbrev pub RunsAsIdeal :
      {A : Type 0}
      → QuirksMode
      → Machine (embedded dom P D)
      → Prog A
      → Option (Ending A × Ideal dom)
      → Type 0
  RunsAsIdeal q m p none = Unit {0}
  RunsAsIdeal q m p (some (e, i')) = RunsAs q m p e i'

  pub Related-bytes :
      (b : Bytes) {m : Machine (embedded dom P D)} {i : Ideal dom}
      → Related dom h a m i
      → Related dom h a (record m { bytes = b }) i
  Related-bytes b rel = record {
    dom_eq = rel.dom_eq;
    next_ref_eq = rel.next_ref_eq;
    nodes = rel.nodes;
    owned = record {
      elements = rel.owned.elements;
      at_arena = rel.owned.at_arena;
      fresh = rel.owned.fresh;
      next_ne_null = rel.owned.next_ne_null;
      unlisted = rel.owned.unlisted;
      rest = rel.owned.rest;
    };
  }

  module _ {A : Type 0} where
    runs-store :
        (at : Ptr) (vs : List ℕ) (k : Prog A) (q : QuirksMode) (m : Machine (embedded dom P D))
        (o : Option (Ending A × Ideal dom))
        → RunsAsIdeal q (record m { bytes = write_slice m.bytes at vs }) k o
        → RunsAsIdeal q m (Prog.store at vs k) o
    unfolding run
    runs-store at vs k q m none r = tt
    runs-store at vs k q m (some (e, i')) r = record {
      quirks' = r.quirks';
      machine' = r.machine';
      equation = r.equation;
      related = r.related;
    }

    runs-call :
        (c : Call) (k : Reply c → Prog A) {q : QuirksMode} {m : Machine (embedded dom P D)}
        {r : Reply c} {j : Ideal dom} (an : Answered dom self document cb h a q m c r j)
        (o : Option (Ending A × Ideal dom))
        → RunsAsIdeal an.quirks' an.machine' (k r) o
        → RunsAsIdeal q m (Prog.call c k) o
    unfolding run
    runs-call c k an none r = tt
    runs-call c k an (some (e, i')) r = record {
      quirks' = r.quirks';
      machine' = r.machine';
      equation = rw an.equation r.equation;
      related = r.related;
    }

    runs-Answers :
        (c : Call) (k : Reply c → Prog A) (q : QuirksMode) (m : Machine (embedded dom P D))
        (i : Ideal dom) (o : Option (Reply c × Ideal dom))
        → ideal_call dom document i c ≡ o
        → Answers dom self document cb h a q m c o
        → Readable dom document i m.bytes (Prog.call c k)
        → ((r : Reply c) (q' : QuirksMode) (m' : Machine (embedded dom P D)) (j : Ideal dom)
            → Related dom h a m' j
            → Readable dom document j m'.bytes (k r)
            → RunsAsIdeal q' m' (k r) (ideal_run dom document j (k r)))
        → RunsAsIdeal q m (Prog.call c k) (o >>= λ rj. ideal_run dom document rj.1 (k rj.0))
    runs-Answers c k q m i none e an readable rec = tt
    runs-Answers c k q m i (some (r, j)) e an readable rec =
        runs-call c k an (ideal_run dom document j (k r))
          (rec r an.quirks' an.machine' j an.related (rw an.bytes (readable.1 r j e)))

  -- For a run of the parser over a sink, from a machine that stands to an ideal state, whose
  -- strings stand in memory when they are passed: where the run with no pointers in between
  -- (`ideal_run`) is defined, the run through the sink, the callbacks, the arena and the attribute
  -- iterator returns, ends the same way, and leaves a machine that stands to the ideal state at the
  -- end, with nothing else in the heap changed but the arena and its elements.
  pub run-ideal_run :
      {A : Type 0} (p : Prog A) (q : QuirksMode) (m : Machine (embedded dom P D)) (i : Ideal dom)
      → Related dom h a m i
      → Readable dom document i m.bytes p
      → RunsAsIdeal q m p (ideal_run dom document i p)
  unfolding run ideal_run
  run-ideal_run (Prog.done x) q m i rel readable = record {
    quirks' = q;
    machine' = m;
    equation = refl;
    related = rel;
  }
  run-ideal_run (Prog.panic x) q m i rel readable = record {
    quirks' = q;
    machine' = m;
    equation = refl;
    related = rel;
  }
  run-ideal_run (Prog.store at vs k) q m i rel readable =
      runs-store at vs k q m (ideal_run dom document i k) (
        run-ideal_run k q (record m { bytes = write_slice m.bytes at vs }) i (Related-bytes _ rel)
          readable)
  run-ideal_run (Prog.call c k) q m i rel readable =
      runs-Answers c k q m i (ideal_call dom document i c) refl (answers q rel c readable.0)
        readable (λ r q' m' j. run-ideal_run (k r) q' m' j)
