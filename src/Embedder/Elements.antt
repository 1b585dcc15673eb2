-- ===== src/Embedder/Elements.antt =====
-- The data of elements, which html5ever/sink.rs keeps in the arena, over a run.
use zenpanda.Prelude.{◌≡◌, ◌≢◌, refl, sym, ap, subst, List, Option, none, some, arith, ==_refl}
use zenpanda.Html5ever.{Ptr, null, QualName, Attribute, ElementFlags, QuirksMode, Call}
use zenpanda.Types.{Ref, ElementData, element_data_new}
use zenpanda.Machine.{Heap, Machine}
use zenpanda.Document.{Callbacks}
use zenpanda.Embedder.{Dom, embedded, add_node, put}
use zenpanda.Embedder.Ideal.{IdealNode, Ideal, ideal_call, ideal_create, ideal_node}
use zenpanda.Embedder.Related.{Related}
use zenpanda.Embedder.Calls.{Answered, Answers}
use zenpanda.Embedder.Runs.{answers}
use zenpanda.Embedder.Lasting.{IsFresh, Reaches, Reaches-Keeps, step-Keeps}

abbrev from_some : {A : Type 0} → A → Option A → A
from_some a none = a
from_some a (some b) = b

some_inj : {A : Type 0} {a b : A} → some a ≡ some b → a ≡ b
some_inj {a} e = ap (from_some a) e

module _ (dom : Dom) where
  -- The handle that a creation gives out is new, and stands for the element.
  created :
      (i j : Ideal dom) (e : ElementData) (o : Option dom.Node) (s : dom.State) (r : Ref)
      → IsFresh dom i
      → add_node (ideal_node dom (some e) o) s i ≡ (r, j)
      → r ≢ null
      → (i.nodes r ≡ none) × (n : IdealNode dom.Node) × (j.nodes r ≡ some n) × (n.element ≡ some e)
  unfolding add_node put
  created i j e none s r f z ne = absurd (ne (sym (ap (λ rj. rj.0) z)))
  created i j e (some n) s r f z ne =
      let zr : i.next_ref ≡ r = ap (λ rj. rj.0) z in
      (
        subst (λ q. i.nodes q ≡ none) zr (f.unused i.next_ref (omega arith)),
        record { element = some e; node = n },
        subst (λ rj. rj.1.nodes rj.0 ≡ some (record { element = some e; node = n })) z
            (rw (==_refl i.next_ref)),
        refl,
      )

  created_call :
      (document : Ref) (i j : Ideal dom) (name : QualName) (attrs : List Attribute)
      (flags : ElementFlags) (r : Ref)
      → IsFresh dom i
      → ideal_call dom document i (Call.create_element name attrs flags) ≡ some (r, j)
      → r ≢ null
      → (i.nodes r ≡ none)
        × (n : IdealNode dom.Node) × (j.nodes r ≡ some n)
        × (n.element ≡ some (element_data_new name flags))
  unfolding ideal_call ideal_create
  created_call document i j name attrs flags r f e ne =
      created i j (element_data_new name flags) _ _ r f (some_inj e) ne

  module _ (document : Ref) (k : Ideal dom) (r : Ref) (n : IdealNode dom.Node) (name : QualName)
      (flags : ElementFlags) (there : k.nodes r ≡ some n)
      (element : n.element ≡ some (element_data_new name flags)) where
    elem_name_lem : ideal_call dom document k (Call.elem_name r) ≡ some (name, k)
    unfolding ideal_call element_data_new
    elem_name_lem = rw there (rw element refl)

    integration_point_lem :
        ideal_call dom document k (Call.is_mathml_annotation_xml_integration_point r)
        ≡ some (flags.mathml_annotation_xml_integration_point, k)
    unfolding ideal_call element_data_new
    integration_point_lem = rw there (rw element refl)

  module _ {P D : Type 0} (self document : Ref) (cb : Callbacks) (h : Heap (embedded dom P D))
      (a : Ptr) where
    -- Where no handle from the next one on is in use: the handle that the creation of an element
    -- gives out, if it is not null, was not in use, and whatever calls of the parser come after
    -- that, the questions of the sink for the name of this element and for whether it is an
    -- integration point are answered with the name and the flag that it was created with.
    pub elem_name-create_element :
        (i j k : Ideal dom) (name : QualName) (attrs : List Attribute) (flags : ElementFlags)
        (r : Ref) (q : QuirksMode) (m : Machine (embedded dom P D))
        → IsFresh dom i
        → ideal_call dom document i (Call.create_element name attrs flags) ≡ some (r, j)
        → r ≢ null
        → Reaches dom document j k
        → Related dom h a m k
        → (i.nodes r ≡ none)
          × Answered dom self document cb h a q m (Call.elem_name r) name k
          × Answered dom self document cb h a q m
              (Call.is_mathml_annotation_xml_integration_point r)
              flags.mathml_annotation_xml_integration_point
              k
    elem_name-create_element i j k name attrs flags r q m f e ne reach rel =
        let made = created_call document i j name attrs flags r f e ne in
        let keeps =
          Reaches-Keeps dom document
            (step-Keeps dom document i (Call.create_element name attrs flags) r j f e).fresh
            reach in
        let there : k.nodes r ≡ some made.1 = keeps.same r made.1 made.2 in
        (
          made.0,
          subst (λ o. Answers dom self document cb h a q m (Call.elem_name r) o)
              (elem_name_lem document k r made.1 name flags there made.3)
              (answers dom self document cb h a q rel (Call.elem_name r) tt),
          subst
              (λ o.
                Answers dom self document cb h a q m
                  (Call.is_mathml_annotation_xml_integration_point r) o)
              (integration_point_lem document k r made.1 name flags there made.3)
              (answers dom self document cb h a q rel
                (Call.is_mathml_annotation_xml_integration_point r) tt),
        )
