-- ===== src/Embedder/Calls/Insertions.antt =====
-- The methods that insert, move or remove nodes.
use zenpanda.Prelude.{suc, ◌≡◌, refl, inl, inr, List, map, some, arith}
use zenpanda.Html5ever.{Ptr, Str, Attribute, NodeOrText, QuirksMode, Call}
use zenpanda.Types.{Ref}
use zenpanda.Machine.{Heap, Machine, returned}
use zenpanda.Memory.{Bytes}
use zenpanda.Client.{slice, NamedValue}
use zenpanda.Client.Marshal.{HoldsAttributes, attribute_text}
use zenpanda.Sink
use zenpanda.Sink.{dispatch}
use zenpanda.Document.{Callbacks, sink_new}
use zenpanda.Embedder.{Dom, ParsedNode, ClientState, embedded, embedder, change}
use zenpanda.Embedder.Ideal.{Ideal, ideal_call}
use zenpanda.Embedder.Related.{HoldsCall, Related}
use zenpanda.Embedder.Growth.{Related-change, Related-next}
use zenpanda.Embedder.Answers.{
  at_code_same, with_node-some, node_cases, child_cases, with_iterator_lem, with_local,
}
use zenpanda.Embedder.Calls.{sink_in, Answers}

module _ (dom : Dom) {P D : Type 0} (self document : Ref) (cb : Callbacks)
    (h : Heap (embedded dom P D)) (a : Ptr) (q : QuirksMode) {m : Machine (embedded dom P D)}
    {i : Ideal dom} (rel : Related dom h a m i) where
  abbrev Client : Type 0
  Client = ClientState dom.State (ParsedNode dom.Node)

  abbrev Answer : (c : Call) → Type 0
  Answer c = Answers dom self document cb h a q m c (ideal_call dom document i c)

  pub answers-pop : (r : Ref) → Answer (Call.pop r)
  unfolding ideal_call dispatch Sink.pop embedder change sink_new
  answers-pop r = elim (node_cases dom rel r) [
    | inl e ↦ rw e tt
    | inr (n, pn, en, ec, same, d) ↦ rw en (record {
      quirks' = q;
      machine' = _;
      equation = rw (at_code_same, at_code_same, with_node-some dom r _ m ec) (rw same);
      related = Related-change dom rel (λ s. dom.pop s n.node);
      bytes = refl;
    })
  ]

  pub answers-remove_from_parent : (r : Ref) → Answer (Call.remove_from_parent r)
  unfolding ideal_call dispatch Sink.remove_from_parent embedder change sink_new
  answers-remove_from_parent r = elim (node_cases dom rel r) [
    | inl e ↦ rw e tt
    | inr (n, pn, en, ec, same, d) ↦ rw en (record {
      quirks' = q;
      machine' = _;
      equation = rw (at_code_same, at_code_same, with_node-some dom r _ m ec) (rw same);
      related = Related-change dom rel (λ s. dom.remove_from_parent s n.node);
      bytes = refl;
    })
  ]

  pub answers-reparent_children : (r r' : Ref) → Answer (Call.reparent_children r r')
  unfolding ideal_call dispatch Sink.reparent_children embedder change sink_new
  answers-reparent_children r r' = elim (node_cases dom rel r) [
    | inl e ↦ rw e tt
    | inr (n, pn, en, ec, same, d) ↦ elim (node_cases dom rel r') [
      | inl e ↦ rw (en, e) tt
      | inr (n', pn', en', ec', same', d') ↦
          rw (en, en')
            (record {
              quirks' = q;
              machine' = _;
              equation =
                  rw (at_code_same, at_code_same, with_node-some dom r _ m ec)
                    (rw (with_node-some dom r' _ m ec') (rw (same, same')));
              related = Related-change dom rel (λ s. dom.reparent_children s n.node n'.node);
              bytes = refl;
            })
    ]
  ]

  pub answers-append :
      (r : Ref) (c : NodeOrText) → HoldsCall m.bytes (Call.append r c) → Answer (Call.append r c)
  unfolding ideal_call dispatch Sink.append embedder change sink_new
  answers-append r c holds = elim (node_cases dom rel r) [
    | inl e ↦ rw e tt
    | inr (n, pn, en, ec, same, d) ↦
        elim (child_cases dom rel c (λ x. change dom P D λ s. dom.append s pn.node x) holds) [
          | inl e ↦ rw (en, e) tt
          | inr (x, ex, ew) ↦
              rw (en, ex)
                (record {
                  quirks' = q;
                  machine' = _;
                  equation =
                      rw (at_code_same, at_code_same, with_node-some dom r _ m ec) (rw (ew, same));
                  related = Related-change dom rel (λ s. dom.append s n.node x);
                  bytes = refl;
                })
        ]
  ]

  pub answers-append_before_sibling :
      (r : Ref) (c : NodeOrText)
      → HoldsCall m.bytes (Call.append_before_sibling r c)
      → Answer (Call.append_before_sibling r c)
  unfolding ideal_call dispatch Sink.append_before_sibling embedder change sink_new
  answers-append_before_sibling r c holds = elim (node_cases dom rel r) [
    | inl e ↦ rw e tt
    | inr (n, pn, en, ec, same, d) ↦
        elim (child_cases dom rel c (λ x. change dom P D λ s. dom.append_before_sibling s pn.node x)
          holds) [
            | inl e ↦ rw (en, e) tt
            | inr (x, ex, ew) ↦
                rw (en, ex)
                  (record {
                    quirks' = q;
                    machine' = _;
                    equation =
                        rw (at_code_same, at_code_same, with_node-some dom r _ m ec)
                          (rw (ew, same));
                    related = Related-change dom rel (λ s. dom.append_before_sibling s n.node x);
                    bytes = refl;
                  })
          ]
  ]

  pub answers-append_based_on_parent_node :
      (r r' : Ref) (c : NodeOrText)
      → HoldsCall m.bytes (Call.append_based_on_parent_node r r' c)
      → Answer (Call.append_based_on_parent_node r r' c)
  unfolding ideal_call dispatch Sink.append_based_on_parent_node embedder change sink_new
  answers-append_based_on_parent_node r r' c holds = elim (node_cases dom rel r) [
    | inl e ↦ rw e tt
    | inr (n, pn, en, ec, same, d) ↦ elim (node_cases dom rel r') [
      | inl e ↦ rw (en, e) tt
      | inr (n', pn', en', ec', same', d') ↦
          elim (child_cases dom rel c
            (λ x. change dom P D λ s. dom.append_based_on_parent_node s pn.node pn'.node x) holds) [
              | inl e ↦ rw (en, en', e) tt
              | inr (x, ex, ew) ↦
                  rw (en, en', ex)
                    (record {
                      quirks' = q;
                      machine' = _;
                      equation =
                          rw (at_code_same, at_code_same, with_node-some dom r _ m ec)
                            (rw (with_node-some dom r' _ m ec') (rw (ew, same, same')));
                      related =
                          Related-change dom rel
                            (λ s. dom.append_based_on_parent_node s n.node n'.node x);
                      bytes = refl;
                    })
            ]
    ]
  ]

  pub answers-append_doctype_to_document :
      (name public_id system_id : Str)
      → HoldsCall m.bytes (Call.append_doctype_to_document name public_id system_id)
      → Answer (Call.append_doctype_to_document name public_id system_id)
  unfolding ideal_call dispatch package.zenpanda.Sink.append_doctype_to_document embedder change
      sink_new slice
  answers-append_doctype_to_document name public_id system_id holds = record {
    quirks' = q;
    machine' = _;
    equation = rw (at_code_same, at_code_same) (rw (holds.0, holds.1, holds.2));
    related =
        Related-change dom rel
          (λ s. dom.append_doctype_to_document s name.text public_id.text system_id.text);
    bytes = refl;
  }

  -- what the callback does with its iterator
  add_attrs : dom.Node → List NamedValue → Bytes → Client → Unit {0} × Client
  add_attrs n as' b c = (tt, record c { dom = dom.add_attrs_if_missing c.dom n as' })

  add_attrs_callback :
      (r : Ref) (attrs : List Attribute) {pn : ParsedNode dom.Node}
      → m.client.nodes r ≡ some pn
      → HoldsAttributes m.bytes attrs
      → Sink.add_attrs_if_missing
          (embedder dom P D self cb)
          (sink_in dom self document cb h a q)
          r
          attrs
          m
        ≡ returned tt (record m {
          next = suc m.next;
          client = (add_attrs pn.node (map attribute_text attrs) m.bytes m.client).1;
        })
  unfolding Sink.add_attrs_if_missing embedder change sink_new add_attrs
  add_attrs_callback r attrs {pn} ec holds =
      with_iterator_lem m attrs
        ((embedder dom P D self cb).add_attrs_if_missing cb.add_attrs_if_missing_callback self r)
        (add_attrs pn.node)
        (rw (at_code_same, at_code_same, with_node-some dom r _ (with_local m attrs) ec))
        (rel.owned.fresh m.next (omega arith)) holds

  pub answers-add_attrs_if_missing :
      (r : Ref) (attrs : List Attribute)
      → HoldsCall m.bytes (Call.add_attrs_if_missing r attrs)
      → Answer (Call.add_attrs_if_missing r attrs)
  unfolding ideal_call dispatch sink_new add_attrs
  answers-add_attrs_if_missing r attrs holds = elim (node_cases dom rel r) [
    | inl e ↦ rw e tt
    | inr (n, pn, en, ec, same, d) ↦ rw en (record {
      quirks' = q;
      machine' = _;
      equation = rw (add_attrs_callback r attrs ec holds) (rw same);
      related = Related-next dom (
          Related-change dom rel
            (λ s. dom.add_attrs_if_missing s n.node (map attribute_text attrs)));
      bytes = refl;
    })
  ]
