-- ===== src/Embedder/Related.antt =====
-- How the machine stands to the ideal state while a parser runs: the same DOM, the same handles,
-- the data pointer of each element leading to that element, and a heap that is the caller's but
-- for the arena and what it owns.
use zenpanda.Prelude.{◌≤◌, ◌<◌, ◌≡◌, ◌≢◌, List, ◌∷◌, Option, none, some}
use zenpanda.Html5ever.{Ptr, null, Call, Reply, Prog}
use zenpanda.Memory.{Bytes, Holds, write_slice}
use zenpanda.Types.{Ref, ElementData}
use zenpanda.Machine.{World, element_data, arena, Heap, Machine, without}
use zenpanda.Client.Marshal.{HoldsName, HoldsAttributes, HoldsChild}
use zenpanda.Embedder.{Dom, ParsedNode, embedded}
use zenpanda.Embedder.Ideal.{IdealNode, Ideal, ideal_call}

module _ {w : World} where
  -- the pointer of an element leads to it, and that of another node is null
  abbrev pub DataOf : Heap w → Ptr → Option ElementData → Type 0
  DataOf h d none = d ≡ null
  DataOf h d (some e) = (h d ≡ some (element_data e)) × (d ≢ null)

  abbrev pub SameNode :
      {N : Type 0} → Heap w → Option (ParsedNode N) → Option (IdealNode N) → Type 0
  SameNode h none none = Unit {0}
  SameNode h (some pn) (some n) = (pn.node ≡ n.node) × DataOf h pn.data' n.element
  SameNode h none (some n) = ⊥
  SameNode h (some pn) none = ⊥

  -- `without` the arena at `a` and its elements, the heap is `h`; nothing stands at or behind the
  -- next address.
  pub record Owned (h : Heap w) (a : Ptr) (m : Machine w) : Type 0 where
    pub elements : List Ptr
    pub at_arena : m.heap a ≡ some (arena elements)
    pub fresh : (p : Ptr) → m.next ≤ p → m.heap p ≡ none
    pub next_ne_null : 0 < m.next
    -- no element stands at or behind the next address
    pub unlisted : (g : Heap w) (p : Ptr) → m.next ≤ p → without g elements p ≡ g p
    pub rest : (p : Ptr) → without m.heap (a ∷ elements) p ≡ h p

module _ (dom : Dom) {P D : Type 0} where
  pub record Related (h : Heap (embedded dom P D)) (a : Ptr) (m : Machine (embedded dom P D))
      (i : Ideal dom) : Type 0 where
    pub dom_eq : m.client.dom ≡ i.dom
    pub next_ref_eq : m.client.next_ref ≡ i.next_ref
    pub nodes : (r : Ref) → SameNode m.heap (m.client.nodes r) (i.nodes r)
    pub owned : Owned h a m

-- The strings of a call stand in memory when it is made.
abbrev pub HoldsCall : Bytes → Call → Type 0
HoldsCall b (Call.parse_error err) = Holds b err
HoldsCall b Call.get_document = Unit {0}
HoldsCall b (Call.set_quirks_mode mode) = Unit {0}
HoldsCall b (Call.same_node x y) = Unit {0}
HoldsCall b (Call.elem_name r) = Unit {0}
HoldsCall b (Call.get_template_contents r) = Unit {0}
HoldsCall b (Call.is_mathml_annotation_xml_integration_point r) = Unit {0}
HoldsCall b (Call.pop r) = Unit {0}
HoldsCall b (Call.create_element name attrs flags) = HoldsName b name × HoldsAttributes b attrs
HoldsCall b (Call.create_comment txt) = Holds b txt
HoldsCall b (Call.create_pi target d) = Holds b target × Holds b d
HoldsCall b (Call.append parent child) = HoldsChild b child
HoldsCall b (Call.append_before_sibling sibling child) = HoldsChild b child
HoldsCall b (Call.append_based_on_parent_node element prev child) = HoldsChild b child
HoldsCall b (Call.append_doctype_to_document name public_id system_id) =
    Holds b name × Holds b public_id × Holds b system_id
HoldsCall b (Call.add_attrs_if_missing r attrs) = HoldsAttributes b attrs
HoldsCall b (Call.remove_from_parent r) = Unit {0}
HoldsCall b (Call.reparent_children r new_parent) = Unit {0}

-- So throughout a run: what Rust's borrows promise of a crate.
module _ (dom : Dom) (document : Ref) where
  abbrev pub Readable : {A : Type 0} → Ideal dom → Bytes → Prog A → Type 0
  Readable i b (Prog.done a) = Unit {0}
  Readable i b (Prog.panic a) = Unit {0}
  Readable i b (Prog.store p vs k) = Readable i (write_slice b p vs) k
  Readable i b (Prog.call c k) =
      HoldsCall b c
      × ((r : Reply c) (i' : Ideal dom)
          → ideal_call dom document i c ≡ some (r, i')
          → Readable i' b (k r))
