-- ===== src/Client/Marshal.antt =====
-- What the library packs, the embedder reads back.
use zenpanda.Prelude.{◌≡◌, refl, ap, List, [], ◌∷◌, map}
use zenpanda.Html5ever.{QualName, Attribute, NodeOrText, append_node, append_text}
use zenpanda.Memory.{Bytes, Holds}
use zenpanda.Types.{qual_name_create}
use zenpanda.Iterator.{attribute_create}
use zenpanda.Sink.{node_or_text}
use zenpanda.Client.{Name, NamedValue, read_name, read_attribute, Union, node, text, to_union}

-- The strings themselves, without where they stand.
unfoldable pub name_text : QualName → Name
name_text q = record { ns = q.ns.text; local = q.local.text }

unfoldable pub attribute_text : Attribute → NamedValue
attribute_text a = record { name = a.name.local.text; value = a.value.text }

unfoldable pub child_text : NodeOrText → Union
child_text (append_node n) = node n
child_text (append_text t) = text t.text

pub record HoldsName (b : Bytes) (q : QualName) : Type 0 where
  pub ns : Holds b q.ns
  pub local : Holds b q.local

pub record HoldsAttribute (b : Bytes) (a : Attribute) : Type 0 where
  pub name : HoldsName b a.name
  pub value : Holds b a.value

abbrev pub HoldsAttributes : Bytes → List Attribute → Type 0
HoldsAttributes b [] = Unit {0}
HoldsAttributes b (a ∷ as') = HoldsAttribute b a × HoldsAttributes b as'

abbrev pub HoldsChild : Bytes → NodeOrText → Type 0
HoldsChild b (append_node n) = Unit {0}
HoldsChild b (append_text t) = Holds b t

-- A name that is packed for C, and read back while its strings stand in memory, has the same
-- namespace and local name.
pub read_name-create :
    (b : Bytes) (q : QualName) → HoldsName b q → read_name b (qual_name_create q) ≡ name_text q
unfolding read_name qual_name_create name_text
read_name-create b q h = cc (h.ns, h.local)

read_attribute-create :
    (b : Bytes) (a : Attribute)
    → HoldsAttribute b a
    → read_attribute b (attribute_create a) ≡ attribute_text a
unfolding read_attribute attribute_create attribute_text qual_name_create
read_attribute-create b a h = cc (h.name.local, h.value)

-- Attributes that are packed for C, and read back by the callbacks through their pointers while
-- their strings stand in memory, have the local names and the values that they had, in order; a
-- prefix and a namespace are not read.
pub read_attributes-create :
    (b : Bytes) (as' : List Attribute)
    → HoldsAttributes b as'
    → map (read_attribute b) (map attribute_create as') ≡ map attribute_text as'
read_attributes-create b [] h = refl
read_attributes-create b (a ∷ as') h =
    cc (read_attribute-create b a h.0, read_attributes-create b as' h.1)

-- A node, or a text that stands in memory, which is packed for C is read back as that node or that
-- text.
pub to_union-node_or_text :
    (b : Bytes) (c : NodeOrText) → HoldsChild b c → to_union b (node_or_text c) ≡ child_text c
unfolding to_union node_or_text child_text
to_union-node_or_text b (append_node n) h = refl
to_union-node_or_text b (append_text t) h = ap text h
