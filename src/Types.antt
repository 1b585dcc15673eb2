-- ===== src/Types.antt =====
-- html5ever/types.rs: the C layout of names, attributes and nodes, and the data of sink.rs that a
-- pointer can lead to. A pointer is a number and 0 is null; a function pointer is the number of the
-- code that stands there.
use zenpanda.Prelude.{ℕ, Bool, List, length, Option, none, some}
use zenpanda.Html5ever.{Ptr, null, Str, QualName, Attribute, ElementFlags, QuirksMode}

abbrev pub Ref : Type 0
Ref = Ptr

-- A function pointer: which code stands there is the embedder's (`Machine.Code`).
abbrev pub FnPtr : Type 0
FnPtr = ℕ

pub record Default (A : Type 0) : Type 0 where
  pub default : A

pub record CNullable (A : Type 0) : Type 0 where
  pub tag : ℕ
  pub value : A

module _ {A : Type 0} ⦃d : Default A⦄ where
  unfoldable pub nullable_none : CNullable A
  nullable_none = record { tag = 0; value = d.default }

  unfoldable pub nullable_some : A → CNullable A
  nullable_some v = record { tag = 1; value = v }

-- `Slice<c_uchar>`, the one instance that the code uses.
pub record StringSlice : Type 0 where
  pub ptr : Ptr
  pub len : ℕ

instance abbrev pub slice_default : Default StringSlice
slice_default = record { default = record { ptr = null; len = 0 } }

-- `StringSlice { ptr: s.as_ptr(), len: s.len() }`
abbrev pub slice_of : Str → StringSlice
slice_of s = record { ptr = s.at; len = length s.text }

pub record CQualName : Type 0 where
  pub prefix : CNullable StringSlice
  pub ns : StringSlice
  pub local : StringSlice

prefix_create : Option Str → CNullable StringSlice
unfolding nullable_none nullable_some
prefix_create none = nullable_none
prefix_create (some prefix) = nullable_some (slice_of prefix)

unfoldable pub qual_name_create : QualName → CQualName
unfolding prefix_create
qual_name_create q = record {
  prefix = prefix_create q.prefix;
  ns = slice_of q.ns;
  local = slice_of q.local;
}

instance abbrev pub qual_name_default : Default CQualName
unfolding nullable_none
qual_name_default = record {
  default = record {
    prefix = nullable_none;
    ns = slice_default.default;
    local = slice_default.default;
  };
}

pub record CAttribute : Type 0 where
  pub name : CQualName
  pub value : StringSlice

instance abbrev pub attribute_default : Default CAttribute
unfolding nullable_none
attribute_default = record {
  default = record { name = qual_name_default.default; value = slice_default.default };
}

pub record CAttributeIterator : Type 0 where
  pub vec : List Attribute
  pub pos : ℕ

pub record CNodeOrText : Type 0 where
  pub tag : ℕ
  pub node : Ref
  pub text : StringSlice

pub record ElementData : Type 0 where
  pub qname : QualName
  pub mathml_annotation_xml_integration_point : Bool

unfoldable pub element_data_new : QualName → ElementFlags → ElementData
element_data_new qname flags = record {
  qname = qname;
  mathml_annotation_xml_integration_point = flags.mathml_annotation_xml_integration_point;
}

-- The `&'arena Arena<ElementData>` is the address of the arena.
pub record Sink : Type 0 where
  pub ctx : Ref
  pub document : Ref
  pub arena : Ptr
  pub quirks_mode : QuirksMode
  pub pop_callback : FnPtr
  pub append_callback : FnPtr
  pub get_data_callback : FnPtr
  pub parse_error_callback : FnPtr
  pub create_element_callback : FnPtr
  pub create_comment_callback : FnPtr
  pub create_processing_instruction : FnPtr
  pub append_doctype_to_document : FnPtr
  pub add_attrs_if_missing_callback : FnPtr
  pub get_template_contents_callback : FnPtr
  pub remove_from_parent_callback : FnPtr
  pub reparent_children_callback : FnPtr
  pub append_before_sibling_callback : FnPtr
  pub append_based_on_parent_node_callback : FnPtr

-- `Parser<Sink>` owns its sink; `P` is the rest of its state, which is html5ever's.
pub record SinkParser (P : Type 0) : Type 0 where
  pub sink : Sink
  pub state : P

pub record StreamingParser (P : Type 0) : Type 0 where
  pub arena : Ptr
  pub parser : SinkParser P
