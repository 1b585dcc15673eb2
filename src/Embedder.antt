-- ===== src/Embedder.antt =====
-- browser/parser/Parser.zig: the callbacks that the embedder passes to the library. A callback
-- reads its arguments, finds the nodes of its handles and hands both to the DOM; what the DOM then
-- does is a parameter.
pub mod Ideal
pub mod Related
pub mod Heaps
pub mod Answers
pub mod Growth
pub mod Calls
pub mod Runs
pub mod Documents
pub mod Entries
pub mod Slots
pub mod Streams
pub mod Created
pub mod Chunks
pub mod Allowed
pub mod Lasting
pub mod Elements
use zenpanda.Prelude.{ℕ, suc, List, map, Option, none, some, ◌==◌, if◌then◌else◌}
use zenpanda.Html5ever.{Ptr, null}
use zenpanda.Types.{Ref, CNodeOrText}
use zenpanda.Machine.{World, Run, pure, undefined_behaviour, returned, aborted, ◌>>=◌}
use zenpanda.Iterator.{html5ever_attribute_iterator_count}
use zenpanda.Client.{Name, NamedValue, slice, read_name, read_attribute, Union, to_union, collect}
use zenpanda.Code.{Code}
use zenpanda.Document.{Callbacks}

-- A child to insert, with its node found.
pub data Child (N : Type 0) : Type 0 where
  node : N → Child N
  text : List ℕ → Child N

-- What the bodies of the callbacks do to the page, errors that they record included. A creation
-- that fails has no node.
pub record Dom : Type 1 where
  pub State : Type 0
  pub Node : Type 0
  pub create_element : State → Name → List NamedValue → Option Node × State
  pub create_comment : State → List ℕ → Option Node × State
  pub create_processing_instruction : State → List ℕ → List ℕ → Option Node × State
  pub append_doctype_to_document : State → List ℕ → List ℕ → List ℕ → State
  pub add_attrs_if_missing : State → Node → List NamedValue → State
  pub get_template_contents : State → Node → Option Node × State
  pub append : State → Node → Child Node → State
  pub append_before_sibling : State → Node → Child Node → State
  pub append_based_on_parent_node : State → Node → Node → Child Node → State
  pub remove_from_parent : State → Node → State
  pub reparent_children : State → Node → Node → State
  pub pop : State → Node → State
  pub parse_error : State → List ℕ → State

-- `data` is null for a node that is no element.
pub record ParsedNode (N : Type 0) : Type 0 where
  pub data' : Ptr
  pub node : N

-- A table of the nodes at their handles. Handles count up from `next_ref`.
pub record ClientState (S : Type 0) (P : Type 0) : Type 0 where
  pub dom : S
  pub nodes : Ref → Option P
  pub next_ref : Ref

unfoldable pub put {ℓ} : {P : Type ℓ} → (Ref → Option P) → Ref → P → Ref → Option P
put f r p q = if r == q then some p else f q

-- `pn.* = …; return pn;`, and null where there is no node
unfoldable pub add_node : {S P : Type 0} → Option P → S → ClientState S P → Ref × ClientState S P
unfolding put
add_node none s c = (null, record c { dom = s })
add_node (some p) s c =
    (c.next_ref, record { dom = s; nodes = put c.nodes c.next_ref p; next_ref = suc c.next_ref })

-- Each pointer leads to the code that was passed for it, with the context that was passed.
unfoldable pub at_code : {w : World} {A : Type 0} → (passed given : ℕ) → Run w A → Run w A
at_code passed given r = if passed == given then r else undefined_behaviour

abbrev pub with_data : {N : Type 0} → Ptr → Option N → Option (ParsedNode N)
with_data d none = none
with_data d (some n) = some (record { data' = d; node = n })

-- the texts of the attributes that are left in an iterator
unfoldable pub read_attributes : {w : World} → Ptr → Run w (List NamedValue)
unfolding html5ever_attribute_iterator_count collect read_attribute
read_attributes iter = do
  c ← html5ever_attribute_iterator_count iter
  as' ← collect (suc c) iter
  λ m. returned (map (read_attribute m.bytes) as') m

abbrev pub embedded : Dom → Type 0 → Type 0 → World
embedded dom P D = record {
  Parser = P;
  Decoder = D;
  Client = ClientState dom.State (ParsedNode dom.Node);
}

module _ (dom : Dom) (P D : Type 0) where
  abbrev pub W : World
  W = embedded dom P D

  abbrev Parsed : Type 0
  Parsed = ParsedNode dom.Node

  unfoldable pub found : {A : Type 0} → Option Parsed → (Parsed → Run W A) → Run W A
  found none k = undefined_behaviour
  found (some pn) k = k pn

  -- `getNode`, through a handle that must be one of the embedder's
  unfoldable pub with_node : {A : Type 0} → Ref → (Parsed → Run W A) → Run W A
  unfolding found
  with_node r k m = found (m.client.nodes r) k m

  unfoldable pub change : (dom.State → dom.State) → Run W (Unit {0})
  change f m = returned tt (record m { client = record m.client { dom = f m.client.dom } })

  unfoldable pub create : Ptr → (dom.State → Option dom.Node × dom.State) → Run W Ref
  unfolding add_node
  create d f m =
      let made = f m.client.dom in
      let rc = add_node (with_data d made.0) made.1 m.client in
      returned rc.0 (record m { client = rc.1 })

  abbrev child_of : {A : Type 0} → Union → (Child dom.Node → Run W A) → Run W A
  child_of (Union.node r) k = with_node r (λ pn. k (node pn.node))
  child_of (Union.text t) k = k (text t)

  unfoldable pub with_child : {A : Type 0} → CNodeOrText → (Child dom.Node → Run W A) → Run W A
  unfolding to_union with_node
  with_child n k m = child_of (to_union m.bytes n) k m

  -- The functions that `parse` and its siblings pass, for a parser object at `self`.
  unfoldable pub embedder : Ref → Callbacks → Code W
  embedder self cb = record {
    create_element = λ f ctx d qname iter. at_code f cb.create_element_callback (
        at_code ctx self (do
          as' ← read_attributes iter
          λ m. create d (λ s. dom.create_element s (read_name m.bytes qname) as') m));
    create_comment = λ f ctx str.
        at_code f cb.create_comment_callback
          (at_code ctx self λ m. create null (λ s. dom.create_comment s (slice m.bytes str)) m);
    append_doctype_to_document = λ f ctx name public_id system_id.
        at_code f cb.append_doctype_to_document (
          at_code ctx self λ m.
            change
              (λ s.
                dom.append_doctype_to_document s (slice m.bytes name) (slice m.bytes public_id)
                  (slice m.bytes system_id))
              m);
    create_processing_instruction = λ f ctx target d. at_code f cb.create_processing_instruction (
        at_code ctx self λ m.
          create null
            (λ s. dom.create_processing_instruction s (slice m.bytes target) (slice m.bytes d)) m);
    get_data = λ f r.
        at_code f cb.get_data_callback
          (with_node r λ pn. if pn.data' == null then (λ m. aborted) else pure pn.data');
    append = λ f ctx parent child. at_code f cb.append_callback (
        at_code ctx self
          (with_node parent λ pn. with_child child λ c. change (λ s. dom.append s pn.node c)));
    parse_error = λ f ctx err.
        at_code f cb.parse_error_callback
          (at_code ctx self λ m. change (λ s. dom.parse_error s (slice m.bytes err)) m);
    pop = λ f ctx r.
        at_code f cb.pop_callback
          (at_code ctx self (with_node r λ pn. change (λ s. dom.pop s pn.node)));
    add_attrs_if_missing = λ f ctx r iter. at_code f cb.add_attrs_if_missing_callback (
        at_code ctx self (
          with_node r λ pn. do
            as' ← read_attributes iter
            change (λ s. dom.add_attrs_if_missing s pn.node as')));
    get_template_contents = λ f ctx r. at_code f cb.get_template_contents_callback (
        at_code ctx self
          (with_node r λ pn. create null (λ s. dom.get_template_contents s pn.node)));
    remove_from_parent = λ f ctx r.
        at_code f cb.remove_from_parent_callback
          (at_code ctx self (with_node r λ pn. change (λ s. dom.remove_from_parent s pn.node)));
    reparent_children = λ f ctx r new_parent. at_code f cb.reparent_children_callback (
        at_code ctx self (
          with_node r λ pn.
            with_node new_parent λ qn. change (λ s. dom.reparent_children s pn.node qn.node)));
    append_before_sibling = λ f ctx sibling child. at_code f cb.append_before_sibling_callback (
        at_code ctx self (
          with_node sibling
            λ pn. with_child child λ c. change (λ s. dom.append_before_sibling s pn.node c)));
    append_based_on_parent_node = λ f ctx element prev child.
        at_code f cb.append_based_on_parent_node_callback (
          at_code ctx self (
            with_node element λ pn. with_node prev λ qn.
              with_child child
                λ c. change (λ s. dom.append_based_on_parent_node s pn.node qn.node c)));
  }
