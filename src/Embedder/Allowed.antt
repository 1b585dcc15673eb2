-- ===== src/Embedder/Allowed.antt =====
-- Runs of the parser that keep to the handles which the embedder gave out, as html5ever does with the
-- sink of html5ever/sink.rs.
use zenpanda.Prelude.{ℕ, ◌≡◌, ◌≢◌, refl, Option, none, some, ◌⊎◌, inl, inr, sym, subst, arith}
use zenpanda.Html5ever.{
  Ptr, null, NodeOrText, append_node, append_text, Call, Reply, Prog, Html5ever,
}
use zenpanda.Types.{Ref, ElementData}
use zenpanda.Machine.{Machine, Outcome, aborted}
use zenpanda.Sink.{Ending, normal, unwinding}
use zenpanda.Document.{Callbacks, html5ever_parse_document}
use zenpanda.Embedder.{Dom, Child, embedded, embedder}
use zenpanda.Embedder.Ideal.{IdealNode, Ideal, ideal_call, ideal_run, ideal_child, ◌>>=◌}
use zenpanda.Embedder.Related.{Readable}
use zenpanda.Embedder.Documents.{Ready, Completes, AsIdeal}
use zenpanda.Embedder.Entries.{document_prog, html5ever_parse_document-ideal}

abbrev pub Defined : {A : Type 0} → Option A → Type 0
Defined {A} o = (a : A) × (o ≡ some a)

then-Defined :
    {A B : Type 0} (o : Option A) (a : A) (k : A → Option B)
    → o ≡ some a
    → Defined (k a)
    → Defined (o >>= k)
then-Defined o a k e d = subst (λ z. Defined (z >>= k)) (sym e) d

module _ (dom : Dom) where
  abbrev pub Known : Ideal dom → Ref → Type 0
  Known i r = (n : IdealNode dom.Node) × (i.nodes r ≡ some n)

  abbrev pub KnownElement : Ideal dom → Ref → Type 0
  KnownElement i r =
      (n : IdealNode dom.Node) × (e : ElementData) × (i.nodes r ≡ some n) × (n.element ≡ some e)

  abbrev pub KnownChild : Ideal dom → NodeOrText → Type 0
  KnownChild i (append_node r) = Known i r
  KnownChild i (append_text t) = Unit {0}

  -- The call names nodes that there are, and asks about elements only.
  abbrev pub Allowed : Ideal dom → Call → Type 0
  Allowed i (Call.elem_name r) = KnownElement i r
  Allowed i (Call.is_mathml_annotation_xml_integration_point r) = KnownElement i r
  Allowed i (Call.get_template_contents r) = Known i r
  Allowed i (Call.pop r) = Known i r
  Allowed i (Call.append r c) = Known i r × KnownChild i c
  Allowed i (Call.append_before_sibling r c) = Known i r × KnownChild i c
  Allowed i (Call.append_based_on_parent_node r s c) = Known i r × Known i s × KnownChild i c
  Allowed i (Call.add_attrs_if_missing r as') = Known i r
  Allowed i (Call.remove_from_parent r) = Known i r
  Allowed i (Call.reparent_children r s) = Known i r × Known i s
  Allowed i _ = Unit {0}

  child_known : (i : Ideal dom) (c : NodeOrText) → KnownChild i c → Defined (ideal_child dom i c)
  child_known i (append_text t) h = (_, refl)
  child_known i (append_node r) h = then-Defined (i.nodes r) h.0 _ h.1 (_, refl)

  -- what is defined behind a node, an element, or a child
  at_node :
      {B : Type 0} (i : Ideal dom) (r : Ref) (k : IdealNode dom.Node → Option B)
      → Known i r
      → ((n : IdealNode dom.Node) → Defined (k n))
      → Defined (i.nodes r >>= k)
  at_node i r k h d = then-Defined (i.nodes r) h.0 k h.1 (d h.0)

  at_element :
      {B : Type 0} (i : Ideal dom) (r : Ref) (k : ElementData → B)
      → KnownElement i r
      → Defined (i.nodes r >>= λ n. n.element >>= λ e. some (k e))
  at_element i r k h =
      then-Defined (i.nodes r) h.0 _ h.2 (then-Defined h.0.element h.1 _ h.3 (_, refl))

  at_child :
      {B : Type 0} (i : Ideal dom) (c : NodeOrText) (k : Child dom.Node → B)
      → KnownChild i c
      → Defined (ideal_child dom i c >>= λ x. some (k x))
  at_child i c k h =
      let d = child_known i c h in then-Defined (ideal_child dom i c) d.0 _ d.1 (_, refl)

  module _ (document : Ref) where
    Allowed-answer :
        (i : Ideal dom) (c : Call) → Allowed i c → Defined (ideal_call dom document i c)
    unfolding ideal_call
    Allowed-answer i (Call.parse_error err) h = (_, refl)
    Allowed-answer i Call.get_document h = (_, refl)
    Allowed-answer i (Call.set_quirks_mode mode) h = (_, refl)
    Allowed-answer i (Call.same_node x y) h = (_, refl)
    Allowed-answer i (Call.elem_name r) h = at_element i r _ h
    Allowed-answer i (Call.get_template_contents r) h = at_node i r _ h λ n. (_, refl)
    Allowed-answer i (Call.is_mathml_annotation_xml_integration_point r) h = at_element i r _ h
    Allowed-answer i (Call.pop r) h = at_node i r _ h λ n. (_, refl)
    Allowed-answer i (Call.create_element name attrs flags) h = (_, refl)
    Allowed-answer i (Call.create_comment txt) h = (_, refl)
    Allowed-answer i (Call.create_pi target d) h = (_, refl)
    Allowed-answer i (Call.append r c) h = at_node i r _ h.0 λ n. at_child i c _ h.1
    Allowed-answer i (Call.append_before_sibling r c) h = at_node i r _ h.0 λ n. at_child i c _ h.1
    Allowed-answer i (Call.append_based_on_parent_node r s c) h =
        at_node i r _ h.0 λ n. at_node i s _ h.1 λ p. at_child i c _ h.2
    Allowed-answer i (Call.append_doctype_to_document n p s) h = (_, refl)
    Allowed-answer i (Call.add_attrs_if_missing r as') h = at_node i r _ h λ n. (_, refl)
    Allowed-answer i (Call.remove_from_parent r) h = at_node i r _ h λ n. (_, refl)
    Allowed-answer i (Call.reparent_children r s) h =
        at_node i r _ h.0 λ n. at_node i s _ h.1 λ p. (_, refl)

    -- All calls of a run are allowed when they are made.
    abbrev pub AllowedRun : {A : Type 0} → Ideal dom → Prog A → Type 0
    AllowedRun i (Prog.done a) = Unit {0}
    AllowedRun i (Prog.panic a) = Unit {0}
    AllowedRun i (Prog.store p vs k) = AllowedRun i k
    AllowedRun i (Prog.call c k) =
        Allowed i c
        × ((r : Reply c) (i' : Ideal dom)
            → ideal_call dom document i c ≡ some (r, i')
            → AllowedRun i' (k r))

    AllowedRun-answer :
        {A : Type 0} (p : Prog A) (i : Ideal dom)
        → AllowedRun i p
        → Defined (ideal_run dom document i p)
    unfolding ideal_run
    AllowedRun-answer (Prog.done a) i h = (_, refl)
    AllowedRun-answer (Prog.panic a) i h = (_, refl)
    AllowedRun-answer (Prog.store p vs k) i h = AllowedRun-answer k i h
    AllowedRun-answer (Prog.call c k) i h =
        let d = Allowed-answer i c h.0 in
        then-Defined (ideal_call dom document i c) d.0 _ d.1
          (AllowedRun-answer (k d.0.0) d.0.1 (h.1 d.0.0 d.0.1 d.1))

module _ (dom : Dom) {P D : Type 0} (self document : Ref) (cb : Callbacks)
    (m : Machine (embedded dom P D)) where
  -- The function returns with the page of the run and the heap that it found, or the process is
  -- aborted because the run panics.
  abbrev pub Total :
      Outcome (Machine (embedded dom P D)) (Unit {0})
      → Option (Ending (Unit {0}) × Ideal dom)
      → Type 0
  Total o r =
      ((i' : Ideal dom) × (r ≡ some (normal tt, i')) × Completes dom self document cb o m i')
      ⊎ ((i' : Ideal dom) × (r ≡ some (unwinding tt, i')) × (o ≡ aborted))

  total :
      (o : Outcome (Machine (embedded dom P D)) (Unit {0}))
      (r : Option (Ending (Unit {0}) × Ideal dom))
      → AsIdeal dom self document cb o m r
      → Defined r
      → Total o r
  total o none a d = absurd (ground (arith, d.1))
  total o (some (normal tt, i')) a d = inl (i', refl, a)
  total o (some (unwinding tt, i')) a d = inr (i', refl, a)

  -- Under the conditions of `html5ever_parse_document-ideal`, and for a run whose calls name nodes
  -- that the embedder gave out and ask about elements only: `html5ever_parse_document` is never
  -- undefined. Either the run completes, and the function returns with the page of the run and the
  -- heap that it found, or the run panics, and the process is aborted.
  pub html5ever_parse_document-Total :
      (lib : Html5ever P) (i : Ideal dom) (html : Ptr) (len : ℕ)
      (ready : Ready dom self document cb m i) (html_ne_null : html ≢ null) (len_ne_zero : len ≢ 0)
      → let prog =
          document_prog dom lib self document cb m i html len ready html_ne_null len_ne_zero in
        Readable dom document i m.bytes prog
        → AllowedRun dom document i prog
        → Total
            (html5ever_parse_document (embedder dom P D self cb) lib html len document self cb m)
            (ideal_run dom document i prog)
  html5ever_parse_document-Total lib i html len ready hn ln readable allowed =
      total _ _
        (html5ever_parse_document-ideal dom lib self document cb m i html len ready hn ln readable)
        (AllowedRun-answer dom document _ i allowed)
