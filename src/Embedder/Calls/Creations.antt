-- ===== src/Embedder/Calls/Creations.antt =====
-- The methods that make nodes.
use zenpanda.Prelude.{suc, ◌≡◌, ◌≢◌, refl, ◌∙◌, inl, inr, List, map, Option, none, some, arith}
use zenpanda.Html5ever.{Ptr, null, Str, QualName, Attribute, ElementFlags, QuirksMode, Call}
use zenpanda.Types.{Ref, element_data_new, qual_name_create}
use zenpanda.Machine.{Heap, Machine, returned}
use zenpanda.Memory.{Bytes}
use zenpanda.Client.{slice, NamedValue, read_name}
use zenpanda.Client.Marshal.{
  HoldsName, HoldsAttributes, attribute_text, name_text, read_name-create,
}
use zenpanda.Sink
use zenpanda.Sink.{dispatch, with_iterator}
use zenpanda.Document.{Callbacks, sink_new}
use zenpanda.Embedder.{
  Dom, ParsedNode, ClientState, embedded, embedder, create, add_node, with_data,
}
use zenpanda.Embedder.Ideal.{Ideal, ideal_call}
use zenpanda.Embedder.Related.{HoldsCall, Related, DataOf}
use zenpanda.Embedder.Heaps.{machine_with, arena_alloc_lem, element_at, Owned-alloc}
use zenpanda.Embedder.Growth.{Related-next, Related-alloc, Related-create, create-same, created}
use zenpanda.Embedder.Answers.{at_code_same, with_node-some, node_cases, with_iterator_lem}
use zenpanda.Embedder.Calls.{Answers}

module _ (dom : Dom) {P D : Type 0} (self document : Ref) (cb : Callbacks)
    (h : Heap (embedded dom P D)) (a : Ptr) (q : QuirksMode) {m : Machine (embedded dom P D)}
    {i : Ideal dom} (rel : Related dom h a m i) where
  abbrev Client : Type 0
  Client = ClientState dom.State (ParsedNode dom.Node)

  abbrev Answer : (c : Call) → Type 0
  Answer c = Answers dom self document cb h a q m c (ideal_call dom document i c)

  pub answers-create_comment :
      (txt : Str) → HoldsCall m.bytes (Call.create_comment txt) → Answer (Call.create_comment txt)
  unfolding ideal_call dispatch Sink.create_comment embedder create sink_new slice
  answers-create_comment txt holds =
      let f : dom.State → Option dom.Node × dom.State = λ s. dom.create_comment s txt.text in
      record {
        quirks' = q;
        machine' = created dom rel null none refl f;
        equation =
            rw (at_code_same, at_code_same) (rw holds (rw (create-same dom rel null none refl f)));
        related = Related-create dom rel null none refl f;
        bytes = refl;
      }

  pub answers-create_pi :
      (target d : Str)
      → HoldsCall m.bytes (Call.create_pi target d)
      → Answer (Call.create_pi target d)
  unfolding ideal_call dispatch Sink.create_pi embedder create sink_new slice
  answers-create_pi target d holds =
      let f : dom.State → Option dom.Node × dom.State =
        λ s. dom.create_processing_instruction s target.text d.text in
      record {
        quirks' = q;
        machine' = created dom rel null none refl f;
        equation =
            rw (at_code_same, at_code_same)
              (rw (holds.0, holds.1) (rw (create-same dom rel null none refl f)));
        related = Related-create dom rel null none refl f;
        bytes = refl;
      }

  pub answers-get_template_contents : (r : Ref) → Answer (Call.get_template_contents r)
  unfolding ideal_call dispatch Sink.get_template_contents embedder create sink_new
  answers-get_template_contents r = elim (node_cases dom rel r) [
    | inl e ↦ rw e tt
    | inr (n, pn, en, ec, same, d) ↦
        let f : dom.State → Option dom.Node × dom.State = λ s. dom.get_template_contents s n.node in
        rw en (record {
          quirks' = q;
          machine' = created dom rel null none refl f;
          equation =
              rw (at_code_same, at_code_same, with_node-some dom r _ m ec)
                (rw same (rw (create-same dom rel null none refl f)));
          related = Related-create dom rel null none refl f;
          bytes = refl;
        })
  ]

  -- what the callback does with its iterator
  add_element : Ptr → QualName → List NamedValue → Bytes → Client → Ref × Client
  add_element d name as' b c =
      let made = dom.create_element c.dom (read_name b (qual_name_create name)) as' in
      add_node (with_data d made.0) made.1 c

  element_callback :
      (d : Ptr) (name : QualName) (attrs : List Attribute) (n : Machine (embedded dom P D))
      → n.heap n.next ≡ none
      → HoldsName n.bytes name
      → HoldsAttributes n.bytes attrs
      → with_iterator attrs
          ((embedder dom P D self cb).create_element cb.create_element_callback self d
            (qual_name_create name))
          n
        ≡ (let made = dom.create_element n.client.dom (name_text name) (map attribute_text attrs) in
            let rc = add_node (with_data d made.0) made.1 n.client in
            returned rc.0 (record n { next = suc n.next; client = rc.1 }))
  unfolding embedder create add_element
  element_callback d name attrs n unused holds_name holds =
      with_iterator_lem n attrs
        ((embedder dom P D self cb).create_element cb.create_element_callback self d
          (qual_name_create name))
        (add_element d name) (rw (at_code_same, at_code_same)) unused holds
      ∙ rw (read_name-create n.bytes name holds_name)

  pub answers-create_element :
      (name : QualName) (attrs : List Attribute) (flags : ElementFlags)
      → HoldsCall m.bytes (Call.create_element name attrs flags)
      → Answer (Call.create_element name attrs flags)
  unfolding ideal_call dispatch Sink.create_element sink_new
  answers-create_element name attrs flags holds =
      let e = element_data_new name flags in
      let own = rel.owned in
      let rel' = Related-next dom (Related-alloc dom rel e) in
      let ne : m.next ≢ null = omega (arith, own.next_ne_null) in
      let leads : DataOf (machine_with own e).heap m.next (some e) = (element_at own e, ne) in
      let f : dom.State → Option dom.Node × dom.State =
        λ s. dom.create_element s (name_text name) (map attribute_text attrs) in
      record {
        quirks' = q;
        machine' = created dom rel' m.next (some e) leads f;
        equation = rw (arena_alloc_lem own e) (
            rw
              (element_callback m.next name attrs (machine_with own e)
                ((Owned-alloc own e).fresh (suc m.next) (omega arith)) holds.0 holds.1)
              (rw (create-same dom rel' m.next (some e) leads f)));
        related = Related-create dom rel' m.next (some e) leads f;
        bytes = refl;
      }
