-- ===== src/Code.antt =====
-- The code behind the function pointers of html5ever/types.rs. The callbacks are arguments of the
-- C functions: what they do is the embedder's, and they may call back into the library.
use zenpanda.Html5ever.{Ptr}
use zenpanda.Types.{Ref, FnPtr, StringSlice, CQualName, CNodeOrText}
use zenpanda.Machine.{World, Run}

pub record Code (w : World) : Type 0 where
  -- ctx, data, name, attributes
  pub create_element : FnPtr → Ref → Ptr → CQualName → Ptr → Run w Ref
  pub create_comment : FnPtr → Ref → StringSlice → Run w Ref
  -- ctx, name, public_id, system_id
  pub append_doctype_to_document :
      FnPtr → Ref → StringSlice → StringSlice → StringSlice → Run w (Unit {0})
  -- ctx, target, data
  pub create_processing_instruction : FnPtr → Ref → StringSlice → StringSlice → Run w Ref
  pub get_data : FnPtr → Ref → Run w Ptr
  -- ctx, parent, node_or_text
  pub append : FnPtr → Ref → Ref → CNodeOrText → Run w (Unit {0})
  pub parse_error : FnPtr → Ref → StringSlice → Run w (Unit {0})
  pub pop : FnPtr → Ref → Ref → Run w (Unit {0})
  -- ctx, target, attributes
  pub add_attrs_if_missing : FnPtr → Ref → Ref → Ptr → Run w (Unit {0})
  pub get_template_contents : FnPtr → Ref → Ref → Run w Ref
  pub remove_from_parent : FnPtr → Ref → Ref → Run w (Unit {0})
  -- ctx, node, new_parent
  pub reparent_children : FnPtr → Ref → Ref → Ref → Run w (Unit {0})
  -- ctx, sibling, node_or_text
  pub append_before_sibling : FnPtr → Ref → Ref → CNodeOrText → Run w (Unit {0})
  -- ctx, element, prev_element, node_or_text
  pub append_based_on_parent_node : FnPtr → Ref → Ref → Ref → CNodeOrText → Run w (Unit {0})
