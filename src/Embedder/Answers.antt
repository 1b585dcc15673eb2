-- ===== src/Embedder/Answers.antt =====
-- The parts of a callback, under the relation between the machine and the ideal state.
use zenpanda.Prelude.{
  ℕ, suc, ◌≡◌, refl, ap, fun_ext, ◌⊎◌, inl, inr, List, map, length, Option, none, some, arith,
  ==_refl,
}
use zenpanda.Html5ever.{Ptr, Attribute, NodeOrText, append_node, append_text}
use zenpanda.Memory.{Bytes}
use zenpanda.Types.{Ref}
use zenpanda.Machine.{
  World, Object, attribute_iterator, Heap, Machine, returned, Run, ◌>>=◌, update, alloc, free,
}
use zenpanda.Client.{NamedValue}
use zenpanda.Client.Drain.{at_pos, moved, update_at, collect_lem, count_lem}
use zenpanda.Client.Marshal.{
  attribute_text, HoldsAttributes, read_attributes-create, HoldsChild, to_union-node_or_text,
  child_text,
}
use zenpanda.Sink.{with_iterator, node_or_text}
use zenpanda.Embedder.{
  Dom, Child, node, text, ParsedNode, embedded, at_code, read_attributes, with_child, with_node,
}
use zenpanda.Embedder.Ideal.{IdealNode, Ideal, ideal_child}
use zenpanda.Embedder.Related.{DataOf, SameNode, Related}

pub at_code_same : {w : World} {A : Type 0} (x : ℕ) (r : Run w A) → at_code x x r ≡ r
unfolding at_code
at_code_same x r = rw ==_refl

pub with_node-some :
    (dom : Dom) {P D A : Type 0} (r : Ref) (k : ParsedNode dom.Node → Run (embedded dom P D) A)
    (m : Machine (embedded dom P D)) {pn : ParsedNode dom.Node}
    → m.client.nodes r ≡ some pn
    → with_node dom P D r k m ≡ k pn m
unfolding with_node
with_node-some dom r k m e = rw e

-- The loop of a callback over the attributes that it is passed.
read_attributes_lem :
    {w : World} (m : Machine w) (p : Ptr) (v : List Attribute)
    → m.heap p ≡ some (attribute_iterator (at_pos v 0))
    → HoldsAttributes m.bytes v
    → read_attributes p m ≡ returned (map attribute_text v) (moved m p v (length v))
unfolding read_attributes
read_attributes_lem m p v here holds = rw (count_lem m p v 0 here) (
    rw (collect_lem p v (suc (length v)) 0 m here (omega arith) (omega arith))
      (rw (read_attributes-create m.bytes v holds)))

-- The machine with a local iterator over `v`.
abbrev pub with_local : {w : World} → Machine w → List Attribute → Machine w
with_local m v = record m {
  heap = update m.heap m.next (some (attribute_iterator (at_pos v 0)));
  next = suc m.next;
}

-- A callback that reads all attributes and then changes the embedder's state alone leaves no trace
-- of the iterator but the address that it used.
pub with_iterator_lem :
    {w : World} {A : Type 0} (m : Machine w) (v : List Attribute) (k : Ptr → Run w A)
    (f : List NamedValue → Bytes → w.Client → A × w.Client)
    → k m.next (with_local m v)
      ≡ (read_attributes m.next >>= λ as' n.
            returned (f as' n.bytes n.client).0 (record n { client = (f as' n.bytes n.client).1 }))
          (with_local m v)
    → m.heap m.next ≡ none
    → HoldsAttributes m.bytes v
    → with_iterator v k m
      ≡ returned
          (f (map attribute_text v) m.bytes m.client).0
          (record m { next = suc m.next; client = (f (map attribute_text v) m.bytes m.client).1 })
unfolding with_iterator alloc free
with_iterator_lem {w} m v k f body unused holds =
    let it : Option (Object w) = some (attribute_iterator (at_pos v 0)) in
    let fc = f (map attribute_text v) m.bytes m.client in
    rw body (
      rw (read_attributes_lem (with_local m v) m.next v (update_at m.heap m.next it) holds) (
        ap (λ (h : Heap w). returned fc.0 (record m { heap = h; next = suc m.next; client = fc.1 }))
          (fun_ext λ q. ground (arith, unused))))

module _ (dom : Dom) {P D : Type 0} {h : Heap (embedded dom P D)} {a : Ptr}
    {m : Machine (embedded dom P D)} {i : Ideal dom} (rel : Related dom h a m i) where
  -- A handle is known on both sides or on neither.
  pub node_cases :
      (r : Ref)
      → (i.nodes r ≡ none)
        ⊎ ((n : IdealNode dom.Node) × (pn : ParsedNode dom.Node) × (i.nodes r ≡ some n)
            × (m.client.nodes r ≡ some pn)
            × (pn.node ≡ n.node)
            × DataOf m.heap pn.data' n.element)
  node_cases r = split (m.client.nodes r) (i.nodes r) refl refl (rel.nodes r)
    where
      split :
          (c : Option (ParsedNode dom.Node)) (o : Option (IdealNode dom.Node))
          → m.client.nodes r ≡ c
          → i.nodes r ≡ o
          → SameNode m.heap c o
          → (i.nodes r ≡ none)
            ⊎ ((n : IdealNode dom.Node) × (pn : ParsedNode dom.Node) × (i.nodes r ≡ some n)
                × (m.client.nodes r ≡ some pn)
                × (pn.node ≡ n.node)
                × DataOf m.heap pn.data' n.element)
      split none none ec eo same = inl eo
      split (some pn) (some n) ec eo same = inr (n, pn, eo, ec, same.0, same.1)
      split none (some n) ec eo same = absurd same
      split (some pn) none ec eo same = absurd same

  -- The child of an `append` is the same on both sides.
  pub child_cases :
      {A : Type 0} (c : NodeOrText) (k : Child dom.Node → Run (embedded dom P D) A)
      → HoldsChild m.bytes c
      → (ideal_child dom i c ≡ none)
        ⊎ ((x : Child dom.Node) × (ideal_child dom i c ≡ some x)
            × (with_child dom P D (node_or_text c) k m ≡ k x m))
  unfolding with_child child_text
  child_cases (append_text t) k holds =
      inr (text t.text, refl, rw (to_union-node_or_text m.bytes (append_text t) holds))
  child_cases (append_node r) k holds = elim (node_cases r) [
    | inl e ↦ inl (rw e)
    | inr (n, pn, en, ec, same, d) ↦ inr (
      node n.node,
      rw en,
      rw (to_union-node_or_text m.bytes (append_node r) holds) (rw (ec, same)),
    )
  ]
