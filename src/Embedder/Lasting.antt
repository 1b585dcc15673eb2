-- ===== src/Embedder/Lasting.antt =====
-- What a run of the parser does to the handles that the embedder has given out: they stay, with the
-- nodes and the elements that they stand for.
use zenpanda.Prelude.{
  suc, ◌≤◌, ◌<◌, ◌≡◌, subst, Option, none, some, arith, ◌==◌, inl, inr, Bool-cases,
}
use zenpanda.Html5ever.{null, Call, Reply}
use zenpanda.Types.{Ref, ElementData}
use zenpanda.Embedder.{Dom, add_node, put}
use zenpanda.Embedder.Ideal.{
  IdealNode, Ideal, ideal_call, ideal_create, ideal_child, ideal_node, ◌>>=◌,
}

-- A predicate holds of a value if there is one.
abbrev pub Whenever : {A : Type 0} → (A → Type 0) → Option A → Type 0
Whenever Q none = Unit {0}
Whenever Q (some a) = Q a

Whenever-bind :
    {A B : Type 0} (Q : B → Type 0) (o : Option A) (k : A → Option B)
    → ((a : A) → Whenever Q (k a))
    → Whenever Q (o >>= k)
Whenever-bind Q none k h = tt
Whenever-bind Q (some a) k h = h a

module _ (dom : Dom) where
  -- No handle from the next one on is in use, and null is none.
  pub record IsFresh (i : Ideal dom) : Type 0 where
    pub unused : (r : Ref) → i.next_ref ≤ r → i.nodes r ≡ none
    pub null_unused : i.nodes null ≡ none
    pub next_ne_null : 0 < i.next_ref

  -- What was given out stays, and the next handle does not fall.
  pub record Keeps (i j : Ideal dom) : Type 0 where
    pub fresh : IsFresh j
    pub grows : i.next_ref ≤ j.next_ref
    pub same : (r : Ref) (n : IdealNode dom.Node) → i.nodes r ≡ some n → j.nodes r ≡ some n

  Keeps-change : (i : Ideal dom) (s : dom.State) → IsFresh i → Keeps i (record i { dom = s })
  Keeps-change i s f = record {
    fresh = record {
      unused = f.unused;
      null_unused = f.null_unused;
      next_ne_null = f.next_ne_null;
    };
    grows = omega arith;
    same = λ r n e. e;
  }

  put_new :
      (i : Ideal dom) (p : IdealNode dom.Node) (s : dom.State)
      → IsFresh i
      → Keeps i (record { dom = s; nodes = put i.nodes i.next_ref p; next_ref = suc i.next_ref })
  unfolding put
  put_new i p s f = record {
    fresh = record {
      unused = λ r l. ground (arith, f.unused r);
      null_unused = ground (arith, f.null_unused, f.next_ne_null);
      next_ne_null = omega arith;
    };
    grows = omega arith;
    same = λ r n e. elim (Bool-cases (i.next_ref == r)) [
      | inl z ↦ absurd (ground (arith, z, e, f.unused r))
      | inr z ↦ rw z e
    ];
  }

  Keeps-add_node :
      (i : Ideal dom) (e : Option ElementData) (o : Option dom.Node) (s : dom.State)
      → IsFresh i
      → Keeps i (add_node (ideal_node dom e o) s i).1
  unfolding add_node
  Keeps-add_node i e none s f = Keeps-change i s f
  Keeps-add_node i e (some n) s f = put_new i (record { element = e; node = n }) s f

  module _ (document : Ref) where
    ideal_call-Keeps :
        (i : Ideal dom) (c : Call)
        → IsFresh i
        → Whenever (λ rj. Keeps i rj.1) (ideal_call dom document i c)
    unfolding ideal_call ideal_create
    ideal_call-Keeps i (Call.parse_error err) f = Keeps-change i _ f
    ideal_call-Keeps i Call.get_document f = Keeps-change i i.dom f
    ideal_call-Keeps i (Call.set_quirks_mode mode) f = Keeps-change i i.dom f
    ideal_call-Keeps i (Call.same_node x y) f = Keeps-change i i.dom f
    ideal_call-Keeps i (Call.elem_name r) f =
        Whenever-bind _ (i.nodes r) _ λ n. Whenever-bind _ n.element _ λ e. Keeps-change i i.dom f
    ideal_call-Keeps i (Call.get_template_contents r) f =
        Whenever-bind _ (i.nodes r) _ λ n. Keeps-add_node i none _ _ f
    ideal_call-Keeps i (Call.is_mathml_annotation_xml_integration_point r) f =
        Whenever-bind _ (i.nodes r) _ λ n. Whenever-bind _ n.element _ λ e. Keeps-change i i.dom f
    ideal_call-Keeps i (Call.pop r) f = Whenever-bind _ (i.nodes r) _ λ n. Keeps-change i _ f
    ideal_call-Keeps i (Call.create_element name attrs flags) f = Keeps-add_node i _ _ _ f
    ideal_call-Keeps i (Call.create_comment txt) f = Keeps-add_node i none _ _ f
    ideal_call-Keeps i (Call.create_pi target d) f = Keeps-add_node i none _ _ f
    ideal_call-Keeps i (Call.append r c) f =
        Whenever-bind _ (i.nodes r) _
          λ n. Whenever-bind _ (ideal_child dom i c) _ λ x. Keeps-change i _ f
    ideal_call-Keeps i (Call.append_before_sibling r c) f =
        Whenever-bind _ (i.nodes r) _
          λ n. Whenever-bind _ (ideal_child dom i c) _ λ x. Keeps-change i _ f
    ideal_call-Keeps i (Call.append_based_on_parent_node r s c) f =
        Whenever-bind _ (i.nodes r) _ λ n.
          Whenever-bind _ (i.nodes s) _
            λ p. Whenever-bind _ (ideal_child dom i c) _ λ x. Keeps-change i _ f
    ideal_call-Keeps i (Call.append_doctype_to_document n p s) f = Keeps-change i _ f
    ideal_call-Keeps i (Call.add_attrs_if_missing r as') f =
        Whenever-bind _ (i.nodes r) _ λ n. Keeps-change i _ f
    ideal_call-Keeps i (Call.remove_from_parent r) f =
        Whenever-bind _ (i.nodes r) _ λ n. Keeps-change i _ f
    ideal_call-Keeps i (Call.reparent_children r s) f =
        Whenever-bind _ (i.nodes r) _ λ n. Whenever-bind _ (i.nodes s) _ λ p. Keeps-change i _ f

    pub step-Keeps :
        (i : Ideal dom) (c : Call) (r : Reply c) (j : Ideal dom)
        → IsFresh i
        → ideal_call dom document i c ≡ some (r, j)
        → Keeps i j
    step-Keeps i c r j f e = subst (Whenever (λ rj. Keeps i rj.1)) e (ideal_call-Keeps i c f)

    -- One call of a parser, and any number of them.
    pub data Step (i j : Ideal dom) : Type 0 where
      calls : (c : Call) (r : Reply c) → ideal_call dom document i c ≡ some (r, j) → Step i j

    pub data Reaches (i : Ideal dom) : Ideal dom → Type 0 where
      here : Reaches i i
      next : {j k : Ideal dom} → Reaches i j → Step j k → Reaches i k

    Step-Keeps : {i j : Ideal dom} → IsFresh i → Step i j → Keeps i j
    Step-Keeps {i} {j} f (calls c r e) = step-Keeps i c r j f e

    pub Reaches-Keeps : {i j : Ideal dom} → IsFresh i → Reaches i j → Keeps i j
    Reaches-Keeps {i} f here = Keeps-change i i.dom f
    Reaches-Keeps f (next r s) =
        let a = Reaches-Keeps f r in
        let b = Step-Keeps a.fresh s in
        record {
          fresh = b.fresh;
          grows = omega (arith, a.grows, b.grows);
          same = λ q n e. b.same q n (a.same q n e);
        }
