-- ===== src/Tests/Page.antt =====
-- A page that keeps a log, and a machine with two bytes of input, a character in two halves and a document node, for the
-- functions of html5ever/lib.rs to run on.
use zenpanda.Prelude.{ℕ, List, [], ◌∷◌, none, some, refl, arith, ◌==◌, Bool-cases, inl, inr}
use zenpanda.Html5ever.{Ptr, null}
use zenpanda.Memory.{write_slice}
use zenpanda.Types.{Ref}
use zenpanda.Machine.{World, Machine}
use zenpanda.Document.{Callbacks}
use zenpanda.Embedder.{Dom, Child, node, text, put, embedded}
use zenpanda.Embedder.Ideal.{Ideal}
use zenpanda.Embedder.Documents.{Ready}

-- what is written down of a child
abbrev entry : Child ℕ → List ℕ
entry (node n) = n ∷ []
entry (text t) = t

-- Nodes are numbers; each change is a line of the log, the latest first.
abbrev pub page : Dom
page = record {
  State = List (List ℕ);
  Node = ℕ;
  create_element = λ s name attrs. (some 1, name.local ∷ s);
  create_comment = λ s t. (some 2, t ∷ s);
  create_processing_instruction = λ s target d. (some 3, target ∷ d ∷ s);
  append_doctype_to_document = λ s name public_id system_id. name ∷ s;
  add_attrs_if_missing = λ s n attrs. s;
  get_template_contents = λ s n. (some 4, s);
  append = λ s n c. entry c ∷ s;
  append_before_sibling = λ s n c. entry c ∷ s;
  append_based_on_parent_node = λ s n p c. entry c ∷ s;
  remove_from_parent = λ s n. (n ∷ []) ∷ s;
  reparent_children = λ s n p. (n ∷ p ∷ []) ∷ s;
  pop = λ s n. (n ∷ []) ∷ s;
  parse_error = λ s t. t ∷ s;
}

-- the handle of the document
abbrev pub document : Ref
document = 5

-- the parser object of the embedder
abbrev pub self : Ref
self = 77

abbrev pub callbacks : Callbacks
callbacks = record {
  create_element_callback = 1;
  get_data_callback = 2;
  append_callback = 3;
  parse_error_callback = 4;
  pop_callback = 5;
  create_comment_callback = 6;
  create_processing_instruction = 7;
  append_doctype_to_document = 8;
  add_attrs_if_missing_callback = 9;
  get_template_contents_callback = 10;
  remove_from_parent_callback = 11;
  reparent_children_callback = 12;
  append_before_sibling_callback = 13;
  append_based_on_parent_node_callback = 14;
}

abbrev pub Here : World
Here = embedded page (Unit {0}) ℕ

-- where the input stands, and the input: `p`, `q`
abbrev pub html : Ptr
html = 100

abbrev pub input : List ℕ
input = b'p' ∷ b'q' ∷ []

-- where the two bytes of an e with an acute accent stand
abbrev pub head : Ptr
head = 200

abbrev pub tail : Ptr
tail = 300

abbrev pub start : Machine Here
start = record {
  bytes =
      write_slice (write_slice (write_slice (λ q. 0) html input) head (0xc3 ∷ [])) tail (0xa9 ∷ []);
  heap = λ q. none;
  next = 1;
  client = record {
    dom = [];
    nodes = put (λ r. none) document (record { data' = null; node = 0 });
    next_ref = 6;
  };
}

abbrev pub ideal : Ideal page
ideal = record {
  dom = [];
  nodes = put (λ r. none) document (record { element = none; node = 0 });
  next_ref = 6;
}

pub start-Ready : Ready page self document callbacks start ideal
unfolding put
start-Ready = record {
  dom_eq = refl;
  next_ref_eq = refl;
  nodes = λ r. elim (Bool-cases (document == r)) [ inl e ↦ rw e (refl, refl) | inr e ↦ rw e tt ];
  fresh = λ p l. refl;
  next_ne_null = omega arith;
}
