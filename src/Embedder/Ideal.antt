-- ===== src/Embedder/Ideal.antt =====
-- What the parser's calls mean with no pointers in between: the specification of html5ever/sink.rs
-- together with the callbacks. A name, a text or an attribute reaches the DOM as it is, and an
-- element is kept beside its node. `none` is a call with a handle that nobody has given out, or a
-- question about an element that is none.
use zenpanda.Prelude.{map, Option, none, some, ◌==◌}
use zenpanda.Html5ever.{NodeOrText, append_node, append_text, Call, Reply, Prog}
use zenpanda.Types.{Ref, ElementData, element_data_new}
use zenpanda.Sink.{Ending, normal, unwinding}
use zenpanda.Client.Marshal.{name_text, attribute_text}
use zenpanda.Embedder.{Dom, Child, node, text, ClientState, add_node}

pub record IdealNode (N : Type 0) : Type 0 where
  pub element : Option ElementData
  pub node : N

infixl 5 ◌>>=◌
abbrev pub ◌>>=◌ : {A B : Type 0} → Option A → (A → Option B) → Option B
none >>= k = none
some a >>= k = k a

module _ (dom : Dom) where
  abbrev pub Ideal : Type 0
  Ideal = ClientState dom.State (IdealNode dom.Node)

  abbrev pub ideal_change : (dom.State → dom.State) → Ideal → Unit {0} × Ideal
  ideal_change f i = (tt, record i { dom = f i.dom })

  abbrev pub ideal_node : Option ElementData → Option dom.Node → Option (IdealNode dom.Node)
  ideal_node e none = none
  ideal_node e (some n) = some (record { element = e; node = n })

  unfoldable pub ideal_create :
      Option ElementData → (dom.State → Option dom.Node × dom.State) → Ideal → Ref × Ideal
  ideal_create e f i = let made = f i.dom in add_node (ideal_node e made.0) made.1 i

  abbrev pub ideal_child : Ideal → NodeOrText → Option (Child dom.Node)
  ideal_child i (append_text t) = some (text t.text)
  ideal_child i (append_node r) = i.nodes r >>= λ n. some (node n.node)

  module _ (document : Ref) where
    unfoldable pub ideal_call : Ideal → (c : Call) → Option (Reply c × Ideal)
    unfolding ideal_create
    ideal_call i (Call.parse_error err) = some (ideal_change (λ s. dom.parse_error s err.text) i)
    ideal_call i Call.get_document = some (document, i)
    ideal_call i (Call.set_quirks_mode mode) = some (tt, i)
    ideal_call i (Call.same_node x y) = some (x == y, i)
    ideal_call i (Call.elem_name r) = i.nodes r >>= λ n. n.element >>= λ e. some (e.qname, i)
    ideal_call i (Call.get_template_contents r) =
        i.nodes r >>= λ n. some (ideal_create none (λ s. dom.get_template_contents s n.node) i)
    ideal_call i (Call.is_mathml_annotation_xml_integration_point r) =
        i.nodes r >>= λ n. n.element >>= λ e. some (e.mathml_annotation_xml_integration_point, i)
    ideal_call i (Call.pop r) = i.nodes r >>= λ n. some (ideal_change (λ s. dom.pop s n.node) i)
    ideal_call i (Call.create_element name attrs flags) = some (
        ideal_create (some (element_data_new name flags))
          (λ s. dom.create_element s (name_text name) (map attribute_text attrs)) i)
    ideal_call i (Call.create_comment txt) =
        some (ideal_create none (λ s. dom.create_comment s txt.text) i)
    ideal_call i (Call.create_pi target d) =
        some (ideal_create none (λ s. dom.create_processing_instruction s target.text d.text) i)
    ideal_call i (Call.append parent child) = i.nodes parent >>= λ n.
        ideal_child i child >>= λ c. some (ideal_change (λ s. dom.append s n.node c) i)
    ideal_call i (Call.append_before_sibling sibling child) = i.nodes sibling >>= λ n.
        ideal_child i child >>= λ c.
        some (ideal_change (λ s. dom.append_before_sibling s n.node c) i)
    ideal_call i (Call.append_based_on_parent_node element prev child) = i.nodes element >>= λ n.
        i.nodes prev >>= λ p. ideal_child i child >>= λ c.
        some (ideal_change (λ s. dom.append_based_on_parent_node s n.node p.node c) i)
    ideal_call i (Call.append_doctype_to_document name public_id system_id) = some (
        ideal_change (λ s. dom.append_doctype_to_document s name.text public_id.text system_id.text)
          i)
    ideal_call i (Call.add_attrs_if_missing r attrs) = i.nodes r >>= λ n.
        some (ideal_change (λ s. dom.add_attrs_if_missing s n.node (map attribute_text attrs)) i)
    ideal_call i (Call.remove_from_parent r) =
        i.nodes r >>= λ n. some (ideal_change (λ s. dom.remove_from_parent s n.node) i)
    ideal_call i (Call.reparent_children r new_parent) = i.nodes r >>= λ n.
        i.nodes new_parent >>= λ p.
        some (ideal_change (λ s. dom.reparent_children s n.node p.node) i)

    unfoldable pub ideal_run : {A : Type 0} → Ideal → Prog A → Option (Ending A × Ideal)
    ideal_run i (Prog.done a) = some (normal a, i)
    ideal_run i (Prog.panic a) = some (unwinding a, i)
    ideal_run i (Prog.store p vs k) = ideal_run i k
    ideal_run i (Prog.call c k) = ideal_call i c >>= λ ri. ideal_run ri.1 (k ri.0)
