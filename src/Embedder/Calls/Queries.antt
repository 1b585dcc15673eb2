-- ===== src/Embedder/Calls/Queries.antt =====
-- The methods that ask, and those that leave the page alone.
use zenpanda.Prelude.{Option-cases, ◌≡◌, refl, inl, inr, some, ==_ne}
use zenpanda.Html5ever.{Ptr, null, Str, QuirksMode, Call}
use zenpanda.Types.{Ref, ElementData}
use zenpanda.Machine.{Heap, Machine, returned, load_element_data}
use zenpanda.Client.{slice}
use zenpanda.Sink
use zenpanda.Sink.{dispatch}
use zenpanda.Document.{Callbacks, sink_new}
use zenpanda.Embedder.{Dom, ParsedNode, embedded, embedder, change}
use zenpanda.Embedder.Ideal.{Ideal, ideal_call}
use zenpanda.Embedder.Related.{HoldsCall, Related, DataOf}
use zenpanda.Embedder.Growth.{Related-change}
use zenpanda.Embedder.Answers.{at_code_same, with_node-some, node_cases}
use zenpanda.Embedder.Calls.{Answers}

module _ (dom : Dom) {P D : Type 0} (self document : Ref) (cb : Callbacks)
    (h : Heap (embedded dom P D)) (a : Ptr) (q : QuirksMode) {m : Machine (embedded dom P D)}
    {i : Ideal dom} (rel : Related dom h a m i) where
  abbrev Answer : (c : Call) → Type 0
  Answer c = Answers dom self document cb h a q m c (ideal_call dom document i c)

  pub answers-parse_error :
      (err : Str) → HoldsCall m.bytes (Call.parse_error err) → Answer (Call.parse_error err)
  unfolding ideal_call dispatch Sink.parse_error embedder change sink_new slice
  answers-parse_error err holds = record {
    quirks' = q;
    machine' = _;
    equation = rw (at_code_same, at_code_same) (rw holds);
    related = Related-change dom rel (λ s. dom.parse_error s err.text);
    bytes = refl;
  }

  pub answers-get_document : Answer Call.get_document
  unfolding ideal_call dispatch sink_new
  answers-get_document = record {
    quirks' = q;
    machine' = m;
    equation = refl;
    related = rel;
    bytes = refl;
  }

  pub answers-set_quirks_mode : (mode : QuirksMode) → Answer (Call.set_quirks_mode mode)
  unfolding ideal_call dispatch sink_new
  answers-set_quirks_mode mode = record {
    quirks' = mode;
    machine' = m;
    equation = refl;
    related = rel;
    bytes = refl;
  }

  pub answers-same_node : (x y : Ref) → Answer (Call.same_node x y)
  unfolding ideal_call dispatch sink_new
  answers-same_node x y = record {
    quirks' = q;
    machine' = m;
    equation = refl;
    related = rel;
    bytes = refl;
  }

  element_loads :
      (r : Ref) {pn : ParsedNode dom.Node} (e : ElementData)
      → m.client.nodes r ≡ some pn
      → DataOf m.heap pn.data' (some e)
      → (embedder dom P D self cb).get_data cb.get_data_callback r m ≡ returned pn.data' m
  unfolding embedder
  element_loads r {pn} e ec d =
      rw (at_code_same, with_node-some dom r _ m ec) (rw (==_ne pn.data' null d.1))

  pub answers-elem_name : (r : Ref) → Answer (Call.elem_name r)
  unfolding ideal_call dispatch Sink.elem_name sink_new load_element_data
  answers-elem_name r = elim (node_cases dom rel r) [
    | inl e ↦ rw e tt
    | inr (n, pn, en, ec, same, d) ↦ elim (Option-cases n.element) [
      | inl z ↦ rw (en, z) tt
      | inr (e, z) ↦
          let d' : DataOf m.heap pn.data' (some e) = rw z at d in
          rw (en, z)
            (record {
              quirks' = q;
              machine' = m;
              equation = rw (element_loads r e ec d') (rw d'.0);
              related = rel;
              bytes = refl;
            })
    ]
  ]

  pub answers-is_mathml_annotation_xml_integration_point :
      (r : Ref) → Answer (Call.is_mathml_annotation_xml_integration_point r)
  unfolding ideal_call dispatch Sink.is_mathml_annotation_xml_integration_point sink_new
      load_element_data
  answers-is_mathml_annotation_xml_integration_point r = elim (node_cases dom rel r) [
    | inl e ↦ rw e tt
    | inr (n, pn, en, ec, same, d) ↦ elim (Option-cases n.element) [
      | inl z ↦ rw (en, z) tt
      | inr (e, z) ↦
          let d' : DataOf m.heap pn.data' (some e) = rw z at d in
          rw (en, z)
            (record {
              quirks' = q;
              machine' = m;
              equation = rw (element_loads r e ec d') (rw d'.0);
              related = rel;
              bytes = refl;
            })
    ]
  ]
