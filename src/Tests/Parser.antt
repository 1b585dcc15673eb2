-- ===== src/Tests/Parser.antt =====
-- A small parser in place of html5ever: for its input it makes an element of that name, with one
-- attribute, and appends it to the document.
use zenpanda.Prelude.{ℕ, List, [], ◌∷◌, some, true, false, refl}
use zenpanda.Html5ever.{
  Ptr, Str, QualName, Attribute, ElementFlags, quirks, append_node, Call, Prog, Html5ever,
}
use zenpanda.Memory.{Bytes, Holds, write_slice, read_slice, read_slice-write_slice}
use zenpanda.Types.{ElementData}
use zenpanda.Client.Marshal.{HoldsName}
use zenpanda.Embedder.Ideal.{Ideal}
use zenpanda.Embedder.Related.{Readable}
use zenpanda.Embedder.Documents.{followed_by}
use zenpanda.Tests.Page.{page, document}

-- where the parser keeps its string
abbrev pub own : Ptr
own = 1000

abbrev pub str : List ℕ → Str
str bytes = record { at = own; text = bytes }

abbrev pub no_str : Str
no_str = record { at = own; text = [] }

abbrev pub name : List ℕ → QualName
name bytes = record { prefix = some (str bytes); ns = no_str; local = str bytes }

abbrev pub attribute : List ℕ → Attribute
attribute bytes = record { name = name bytes; value = str bytes }

abbrev pub flags : ElementFlags
flags = record { template = false; mathml_annotation_xml_integration_point = true }

-- what the element is
abbrev pub made : List ℕ → ElementData
made bytes = record { qname = name bytes; mathml_annotation_xml_integration_point = true }

abbrev pub read_all : List ℕ → Prog (Unit {0})
read_all bytes = Prog.store own bytes (
    Prog.call (Call.create_element (name bytes) (attribute bytes ∷ []) flags)
      λ r. Prog.call (Call.append document (append_node r)) λ u. Prog.done tt)

abbrev pub set_up : Prog (Unit {0})
set_up = Prog.call (Call.set_quirks_mode quirks) λ u. Prog.done tt

abbrev pub end_up : Prog (Unit {0})
end_up = Prog.call (Call.pop document) λ u. Prog.done tt

abbrev pub parser : Html5ever (Unit {0})
parser = record {
  XmlParser = ℕ;
  Opts = Unit {0};
  default_opts = tt;
  ns_html = no_str;
  local_name = str;
  parse_document = λ o. set_up;
  parse_fragment = λ o q as' b. set_up;
  process = λ p bytes. read_all bytes;
  finish = λ p. end_up;
  from_utf8_one = λ p bytes. read_all bytes;
  one = λ p bytes. read_all bytes;
  XmlOpts = Unit {0};
  default_xml_opts = tt;
  xml_parse_document = λ o. Prog.done 3;
  xml_from_utf8_one = λ p bytes. read_all bytes;
}

module _ (b : Bytes) (bytes : List ℕ) where
  after : Bytes
  after = write_slice b own bytes

  Holds-str : Holds after (str bytes)
  unfolding after
  Holds-str = read_slice-write_slice b own bytes

  holds_name : HoldsName after (name bytes)
  holds_name = record { ns = unfold read_slice in refl; local = Holds-str }

  pub read_all-Readable : (i : Ideal page) → Readable page document i b (read_all bytes)
  unfolding after
  read_all-Readable i = (
    (holds_name, (record { name = holds_name; value = Holds-str }, tt)),
    λ r i' e. (tt, λ u j z. tt),
  )

  pub whole-Readable :
      (i : Ideal page) → Readable page document i b (followed_by set_up λ p. read_all bytes)
  unfolding followed_by
  whole-Readable i = (tt, λ r i' e. read_all-Readable i')
