-- ===== src/Sink.antt =====
-- html5ever/sink.rs: the methods of `TreeSink for Sink`, each through its callback, and the run of
-- a parser over a sink.
use zenpanda.Prelude.{Bool, List, ◌==◌}
use zenpanda.Html5ever.{
  Ptr, null, Str, QualName, Attribute, ElementFlags, NodeOrText, append_node, append_text,
  QuirksMode, Call, Reply, Prog,
}
use zenpanda.Memory.{write_slice}
use zenpanda.Types.{
  Ref, slice_of, slice_default, qual_name_create, CNodeOrText, element_data_new, Sink,
}
use zenpanda.Machine.{
  World, attribute_iterator, Run, pure, ◌>>=◌, ◌>>◌, alloc, free, arena_alloc, load_element_data,
  and_then,
}
use zenpanda.Code.{Code}

-- The struct that the three `append` methods build.
unfoldable pub node_or_text : NodeOrText → CNodeOrText
node_or_text (append_text t) = record { tag = 1; node = null; text = slice_of t }
node_or_text (append_node node) = record { tag = 0; node = node; text = slice_default.default }

abbrev pub get_document : Sink → Ptr
get_document s = s.document

abbrev pub set_quirks_mode : Sink → QuirksMode → Sink
set_quirks_mode s mode = record s { quirks_mode = mode }

abbrev pub same_node : Ref → Ref → Bool
same_node x y = x == y

module _ {w : World} where
  -- A pointer to a local iterator is passed for the length of a call.
  unfoldable pub with_iterator : {A : Type 0} → List Attribute → (Ptr → Run w A) → Run w A
  with_iterator attrs k = do
    iter ← alloc (attribute_iterator (record { vec = attrs; pos = 0 }))
    r ← k iter
    free iter
    pure r

module _ {w : World} (code : Code w) where
  unfoldable pub parse_error : Sink → Str → Run w (Unit {0})
  parse_error s err = code.parse_error s.parse_error_callback s.ctx (slice_of err)

  unfoldable pub elem_name : Sink → Ref → Run w QualName
  elem_name s target = do
    opaque ← code.get_data s.get_data_callback target
    data' ← load_element_data opaque
    pure data'.qname

  unfoldable pub get_template_contents : Sink → Ref → Run w Ref
  get_template_contents s target =
      code.get_template_contents s.get_template_contents_callback s.ctx target

  unfoldable pub is_mathml_annotation_xml_integration_point : Sink → Ref → Run w Bool
  is_mathml_annotation_xml_integration_point s target = do
    opaque ← code.get_data s.get_data_callback target
    data' ← load_element_data opaque
    pure data'.mathml_annotation_xml_integration_point

  unfoldable pub pop : Sink → Ref → Run w (Unit {0})
  pop s node = code.pop s.pop_callback s.ctx node

  unfoldable pub create_element : Sink → QualName → List Attribute → ElementFlags → Run w Ref
  unfolding element_data_new
  create_element s name attrs flags = do
    data' ← arena_alloc s.arena (element_data_new name flags)
    with_iterator attrs λ iter.
        code.create_element s.create_element_callback s.ctx data' (qual_name_create name) iter

  unfoldable pub create_comment : Sink → Str → Run w Ref
  create_comment s txt = code.create_comment s.create_comment_callback s.ctx (slice_of txt)

  unfoldable pub create_pi : Sink → Str → Str → Run w Ref
  create_pi s target data' =
      code.create_processing_instruction s.create_processing_instruction s.ctx (slice_of target)
        (slice_of data')

  unfoldable pub append : Sink → Ref → NodeOrText → Run w (Unit {0})
  append s parent child = code.append s.append_callback s.ctx parent (node_or_text child)

  unfoldable pub append_before_sibling : Sink → Ref → NodeOrText → Run w (Unit {0})
  append_before_sibling s sibling child =
      code.append_before_sibling s.append_before_sibling_callback s.ctx sibling (node_or_text child)

  unfoldable pub append_based_on_parent_node : Sink → Ref → Ref → NodeOrText → Run w (Unit {0})
  append_based_on_parent_node s element prev_element child =
      code.append_based_on_parent_node s.append_based_on_parent_node_callback s.ctx element
        prev_element (node_or_text child)

  unfoldable pub append_doctype_to_document : Sink → Str → Str → Str → Run w (Unit {0})
  append_doctype_to_document s name public_id system_id =
      code.append_doctype_to_document s.append_doctype_to_document s.ctx (slice_of name)
        (slice_of public_id) (slice_of system_id)

  unfoldable pub add_attrs_if_missing : Sink → Ref → List Attribute → Run w (Unit {0})
  add_attrs_if_missing s target attrs =
      with_iterator attrs
        λ iter. code.add_attrs_if_missing s.add_attrs_if_missing_callback s.ctx target iter

  unfoldable pub remove_from_parent : Sink → Ref → Run w (Unit {0})
  remove_from_parent s target = code.remove_from_parent s.remove_from_parent_callback s.ctx target

  unfoldable pub reparent_children : Sink → Ref → Ref → Run w (Unit {0})
  reparent_children s node new_parent =
      code.reparent_children s.reparent_children_callback s.ctx node new_parent

  -- The methods take `&self`, and only `set_quirks_mode` changes the sink.
  keep : {A : Type 0} → Sink → Run w A → Run w (A × Sink)
  keep s r = do a ← r; pure (a, s)

  unfoldable pub dispatch : Sink → (c : Call) → Run w (Reply c × Sink)
  unfolding keep
  dispatch s (Call.parse_error err) = keep s (parse_error s err)
  dispatch s Call.get_document = pure (get_document s, s)
  dispatch s (Call.set_quirks_mode mode) = pure (tt, set_quirks_mode s mode)
  dispatch s (Call.same_node x y) = pure (same_node x y, s)
  dispatch s (Call.elem_name t) = keep s (elem_name s t)
  dispatch s (Call.get_template_contents t) = keep s (get_template_contents s t)
  dispatch s (Call.is_mathml_annotation_xml_integration_point t) =
      keep s (is_mathml_annotation_xml_integration_point s t)
  dispatch s (Call.pop n) = keep s (pop s n)
  dispatch s (Call.create_element n as' fs) = keep s (create_element s n as' fs)
  dispatch s (Call.create_comment t) = keep s (create_comment s t)
  dispatch s (Call.create_pi t d) = keep s (create_pi s t d)
  dispatch s (Call.append p c) = keep s (append s p c)
  dispatch s (Call.append_before_sibling b c) = keep s (append_before_sibling s b c)
  dispatch s (Call.append_based_on_parent_node e p c) = keep s (append_based_on_parent_node s e p c)
  dispatch s (Call.append_doctype_to_document n p y) = keep s (append_doctype_to_document s n p y)
  dispatch s (Call.add_attrs_if_missing t as') = keep s (add_attrs_if_missing s t as')
  dispatch s (Call.remove_from_parent t) = keep s (remove_from_parent s t)
  dispatch s (Call.reparent_children n p) = keep s (reparent_children s n p)

-- How the crate's code ended: by itself, or with a panic that left a value behind.
pub data Ending (A : Type 0) : Type 0 where
  normal : A → Ending A
  unwinding : A → Ending A

module _ {w : World} (code : Code w) where
  -- The code of a crate with its calls of the sink.
  unfoldable pub run : {A : Type 0} → Sink → Prog A → Run w (Ending A × Sink)
  run s (Prog.done a) m = pure (normal a, s) m
  run s (Prog.panic a) m = pure (unwinding a, s) m
  run s (Prog.store p vs k) m = run s k (record m { bytes = write_slice m.bytes p vs })
  run s (Prog.call c k) m = and_then (dispatch code s c m) λ rs. run rs.1 (k rs.0)
