-- ===== src/Html5ever.antt =====
-- The interface of the html5ever and xml5ever crates, which are not part of the repository: the
-- public data types of `html5ever::interface`, the calls that a parser makes of its `TreeSink`, and
-- the parsers themselves as a parameter.
use zenpanda.Prelude.{ℕ, Bool, List, Option}

abbrev pub Ptr : Type 0
Ptr = ℕ

abbrev pub null : Ptr
null = 0

-- A string that is borrowed: where its bytes stand, and the bytes.
pub record Str : Type 0 where
  pub at : Ptr
  pub text : List ℕ

pub record QualName : Type 0 where
  pub prefix : Option Str
  pub ns : Str
  pub local : Str

pub record Attribute : Type 0 where
  pub name : QualName
  pub value : Str

pub record ElementFlags : Type 0 where
  pub template : Bool
  pub mathml_annotation_xml_integration_point : Bool

pub data NodeOrText : Type 0 where
  append_node : Ptr → NodeOrText
  append_text : Str → NodeOrText

pub data QuirksMode : Type 0 where
  quirks limited_quirks no_quirks : QuirksMode

-- The required methods of `TreeSink` with their arguments.
pub data Call : Type 0 where
  parse_error : Str → Call
  get_document : Call
  set_quirks_mode : QuirksMode → Call
  same_node : Ptr → Ptr → Call
  elem_name : Ptr → Call
  get_template_contents : Ptr → Call
  is_mathml_annotation_xml_integration_point : Ptr → Call
  pop : Ptr → Call
  create_element : QualName → List Attribute → ElementFlags → Call
  create_comment : Str → Call
  create_pi : Str → Str → Call
  append : Ptr → NodeOrText → Call
  append_before_sibling : Ptr → NodeOrText → Call
  append_based_on_parent_node : Ptr → Ptr → NodeOrText → Call
  append_doctype_to_document : Str → Str → Str → Call
  add_attrs_if_missing : Ptr → List Attribute → Call
  remove_from_parent : Ptr → Call
  reparent_children : Ptr → Ptr → Call

-- What each call returns.
abbrev pub Reply : Call → Type 0
Reply (parse_error _) = Unit {0}
Reply get_document = Ptr
Reply (set_quirks_mode _) = Unit {0}
Reply (same_node _ _) = Bool
Reply (elem_name _) = QualName
Reply (get_template_contents _) = Ptr
Reply (is_mathml_annotation_xml_integration_point _) = Bool
Reply (pop _) = Unit {0}
Reply (create_element _ _ _) = Ptr
Reply (create_comment _) = Ptr
Reply (create_pi _ _) = Ptr
Reply (append _ _) = Unit {0}
Reply (append_before_sibling _ _) = Unit {0}
Reply (append_based_on_parent_node _ _ _) = Unit {0}
Reply (append_doctype_to_document _ _ _) = Unit {0}
Reply (add_attrs_if_missing _ _) = Unit {0}
Reply (remove_from_parent _) = Unit {0}
Reply (reparent_children _ _) = Unit {0}

-- What a run of the crate's code does: it ends, it panics and leaves the value behind, it stores
-- the bytes of a string of its own, or it calls the sink and goes on with the reply.
pub data Prog (A : Type 0) : Type 0 where
  done : A → Prog A
  panic : A → Prog A
  store : Ptr → List ℕ → Prog A → Prog A
  call : (c : Call) → (Reply c → Prog A) → Prog A

-- The crates, of which nothing is assumed here.
pub record Html5ever (P : Type 0) : Type 1 where
  pub XmlParser : Type 0
  pub Opts : Type 0
  pub default_opts : Opts
  pub ns_html : Str
  pub local_name : List ℕ → Str
  pub parse_document : Opts → Prog P
  pub parse_fragment : Opts → QualName → List Attribute → Bool → Prog P
  -- `TendrilSink::process` and `finish`
  pub process : P → List ℕ → Prog P
  pub finish : P → Prog (Unit {0})
  -- `.from_utf8().one(bytes)` and `.one(tendril)`
  pub from_utf8_one : P → List ℕ → Prog (Unit {0})
  pub one : P → List ℕ → Prog (Unit {0})
  pub XmlOpts : Type 0
  pub default_xml_opts : XmlOpts
  pub xml_parse_document : XmlOpts → Prog XmlParser
  pub xml_from_utf8_one : XmlParser → List ℕ → Prog (Unit {0})
