-- ===== src/Embedder/Growth.antt =====
-- The relation survives what a callback adds: a node at a new handle, an element in the arena, an
-- address that an iterator has used.
use zenpanda.Prelude.{
  suc, ◌≡◌, refl, ap, subst, ◌∙◌, inl, inr, Option, none, some, arith, ◌==◌, Bool-cases,
}
use zenpanda.Html5ever.{Ptr}
use zenpanda.Types.{Ref, ElementData}
use zenpanda.Machine.{World, Heap, Machine}
use zenpanda.Embedder.{Dom, ParsedNode, embedded, put, add_node, with_data}
use zenpanda.Embedder.Ideal.{IdealNode, Ideal, ideal_create, ideal_node}
use zenpanda.Embedder.Related.{DataOf, SameNode, Owned, Related}
use zenpanda.Embedder.Heaps.{Keeps, machine_with, Keeps-alloc, Owned-alloc}

module _ {w : World} where
  pub SameNode-kept :
      {N : Type 0} (h h' : Heap w) (o : Option (ParsedNode N)) (o' : Option (IdealNode N))
      → Keeps h h'
      → SameNode h o o'
      → SameNode h' o o'
  SameNode-kept h h' none none k s = tt
  SameNode-kept h h' none (some n) k s = s
  SameNode-kept h h' (some pn) none k s = s
  SameNode-kept h h' (some pn) (some n) k s = (s.0, data_keeps n.element s.1)
    where
      data_keeps : (e : Option ElementData) → DataOf h pn.data' e → DataOf h' pn.data' e
      data_keeps none d = d
      data_keeps (some e) d = (k pn.data' e d.0, d.1)

  SameNode-put :
      {N : Type 0} (h : Heap w) (f : Ref → Option (ParsedNode N)) (g : Ref → Option (IdealNode N))
      (x : Ref) (pn : ParsedNode N) (n : IdealNode N)
      → ((r : Ref) → SameNode h (f r) (g r))
      → SameNode h (some pn) (some n)
      → (r : Ref) → SameNode h (put f x pn r) (put g x n r)
  unfolding put
  SameNode-put h f g x pn n all new r = elim (Bool-cases (x == r)) [
    | inl e ↦ rw e new
    | inr e ↦ rw e (all r)
  ]

  Owned-next :
      {h : Heap w} {a : Ptr} {m : Machine w}
      → Owned h a m
      → Owned h a (record m { next = suc m.next })
  Owned-next own = record {
    elements = own.elements;
    at_arena = own.at_arena;
    fresh = λ p l. own.fresh p (omega arith);
    next_ne_null = omega arith;
    unlisted = λ g p l. own.unlisted g p (omega arith);
    rest = own.rest;
  }

  Owned-client :
      {h : Heap w} {a : Ptr} {m : Machine w}
      → Owned h a m
      → (c : w.Client) → Owned h a (record m { client = c })
  Owned-client own c = record {
    elements = own.elements;
    at_arena = own.at_arena;
    fresh = own.fresh;
    next_ne_null = own.next_ne_null;
    unlisted = own.unlisted;
    rest = own.rest;
  }

module _ (dom : Dom) {P D : Type 0} {h : Heap (embedded dom P D)} {a : Ptr}
    {m : Machine (embedded dom P D)} {i : Ideal dom} (rel : Related dom h a m i) where
  -- Only the state of the DOM changes.
  pub Related-change :
      (f : dom.State → dom.State)
      → Related dom h a
          (record m { client = record m.client { dom = f m.client.dom } })
          (record i { dom = f i.dom })
  Related-change f = record {
    dom_eq = ap f rel.dom_eq;
    next_ref_eq = rel.next_ref_eq;
    nodes = rel.nodes;
    owned = Owned-client rel.owned _;
  }

  pub Related-next : Related dom h a (record m { next = suc m.next }) i
  Related-next = record {
    dom_eq = rel.dom_eq;
    next_ref_eq = rel.next_ref_eq;
    nodes = rel.nodes;
    owned = Owned-next rel.owned;
  }

  pub Related-alloc : (e : ElementData) → Related dom h a (machine_with rel.owned e) i
  Related-alloc e = record {
    dom_eq = rel.dom_eq;
    next_ref_eq = rel.next_ref_eq;
    nodes = λ r.
        SameNode-kept m.heap (machine_with rel.owned e).heap (m.client.nodes r) (i.nodes r)
          (Keeps-alloc rel.owned e) (rel.nodes r);
    owned = Owned-alloc rel.owned e;
  }

  module _ (d : Ptr) (e : Option ElementData) (leads : DataOf m.heap d e) where
    -- A node is made on both sides from the same outcome of the DOM.
    Related-add :
        (o : Option dom.Node) (s : dom.State)
        → Related dom h a
            (record m { client = (add_node (with_data d o) s m.client).1 })
            (add_node (ideal_node dom e o) s i).1
    unfolding add_node
    Related-add none s = record {
      dom_eq = refl;
      next_ref_eq = rel.next_ref_eq;
      nodes = rel.nodes;
      owned = Owned-client rel.owned _;
    }
    Related-add (some n) s = record {
      dom_eq = refl;
      next_ref_eq = ap suc rel.next_ref_eq;
      nodes = rw rel.next_ref_eq (
          SameNode-put m.heap m.client.nodes i.nodes i.next_ref (record { data' = d; node = n })
            (record { element = e; node = n }) rel.nodes (refl, leads));
      owned = Owned-client rel.owned _;
    }

    add_node-same :
        (o : Option dom.Node) (s : dom.State)
        → (add_node (with_data d o) s m.client).0 ≡ (add_node (ideal_node dom e o) s i).0
    unfolding add_node
    add_node-same none s = refl
    add_node-same (some n) s = rel.next_ref_eq

    -- The machine after `create`.
    abbrev pub created : (dom.State → Option dom.Node × dom.State) → Machine (embedded dom P D)
    created f =
        let made = f m.client.dom in
        record m { client = (add_node (with_data d made.0) made.1 m.client).1 }

    pub Related-create :
        (f : dom.State → Option dom.Node × dom.State)
        → Related dom h a (created f) (ideal_create dom e f i).1
    unfolding ideal_create
    Related-create f =
        subst
          (λ (x : dom.State).
            Related dom h a (created f) (add_node (ideal_node dom e (f x).0) (f x).1 i).1)
          rel.dom_eq (Related-add (f m.client.dom).0 (f m.client.dom).1)

    pub create-same :
        (f : dom.State → Option dom.Node × dom.State)
        → (add_node (with_data d (f m.client.dom).0) (f m.client.dom).1 m.client).0
          ≡ (ideal_create dom e f i).0
    unfolding ideal_create
    create-same f =
        add_node-same (f m.client.dom).0 (f m.client.dom).1
        ∙ ap (λ (x : dom.State). (add_node (ideal_node dom e (f x).0) (f x).1 i).0) rel.dom_eq
