-- ===== src/Document.antt =====
-- The entry points of html5ever/lib.rs that parse a whole document or fragment. A `&[u8]` cannot
-- change while it is borrowed, so its content is read once, where the slice is made.
use zenpanda.Prelude.{ℕ, false, ◌||◌, List, [], ◌∷◌, none, some, ◌==◌, if◌then◌else◌}
use zenpanda.Html5ever.{Ptr, null, QualName, no_quirks, Prog, Html5ever}
use zenpanda.EncodingRs.{EncodingRs}
use zenpanda.Types.{Ref, FnPtr, Sink}
use zenpanda.Machine.{
  World, arena, Run, pure, panic, extern_c, ◌>>=◌, ◌>>◌, alloc, drop_arena, from_raw_parts,
}
use zenpanda.Code.{Code}
use zenpanda.Sink.{Ending, normal, unwinding, run}

-- The callback arguments that the parser entry points share, by their names.
pub record Callbacks : Type 0 where
  pub create_element_callback : FnPtr
  pub get_data_callback : FnPtr
  pub append_callback : FnPtr
  pub parse_error_callback : FnPtr
  pub pop_callback : FnPtr
  pub create_comment_callback : FnPtr
  pub create_processing_instruction : FnPtr
  pub append_doctype_to_document : FnPtr
  pub add_attrs_if_missing_callback : FnPtr
  pub get_template_contents_callback : FnPtr
  pub remove_from_parent_callback : FnPtr
  pub reparent_children_callback : FnPtr
  pub append_before_sibling_callback : FnPtr
  pub append_based_on_parent_node_callback : FnPtr

-- The literal `sink::Sink { … }`, which each entry point repeats.
unfoldable pub sink_new : Ref → Ref → Ptr → Callbacks → Sink
sink_new ctx document a cb = record {
  ctx = ctx;
  document = document;
  arena = a;
  quirks_mode = no_quirks;
  pop_callback = cb.pop_callback;
  append_callback = cb.append_callback;
  get_data_callback = cb.get_data_callback;
  parse_error_callback = cb.parse_error_callback;
  create_element_callback = cb.create_element_callback;
  create_comment_callback = cb.create_comment_callback;
  create_processing_instruction = cb.create_processing_instruction;
  append_doctype_to_document = cb.append_doctype_to_document;
  add_attrs_if_missing_callback = cb.add_attrs_if_missing_callback;
  get_template_contents_callback = cb.get_template_contents_callback;
  remove_from_parent_callback = cb.remove_from_parent_callback;
  reparent_children_callback = cb.reparent_children_callback;
  append_before_sibling_callback = cb.append_before_sibling_callback;
  append_based_on_parent_node_callback = cb.append_based_on_parent_node_callback;
}

-- `"body"`
abbrev pub body_name : List ℕ
body_name = b'b' ∷ b'o' ∷ b'd' ∷ b'y' ∷ []

module _ {w : World} where
  -- The arena of an entry point, and the sink over it; the arena goes at the end of the function.
  unfoldable pub with_arena : (Ptr → Run w (Unit {0})) → Run w (Unit {0})
  unfolding alloc drop_arena
  with_arena body = do a ← alloc (arena []); body a; drop_arena a

abbrev pub unwound : {w : World} {A : Type 0} → Ending A → Sink → Run w (A × Sink)
unwound (normal a) s = pure (a, s)
unwound (unwinding a) s = panic

module _ {w : World} (code : Code w) where
  -- A call of the crate from code that does not catch its panics.
  unfoldable pub run_through : {A : Type 0} → Sink → Prog A → Run w (A × Sink)
  run_through s p = run code s p >>= λ es. unwound es.0 es.1

  -- A parser is made for a sink and reads the whole input: `parse_…(sink, …).one(…)`
  unfoldable pub parse_one : {P : Type 0} → Sink → Prog P → (P → Prog (Unit {0})) → Run w (Unit {0})
  unfolding run_through
  parse_one s make one = do ps ← run_through s make; run_through ps.1 (one ps.0); pure tt

module _ {w : World} (code : Code w) (lib : Html5ever w.Parser) where
  unfoldable pub html5ever_parse_document : Ptr → ℕ → Ref → Ref → Callbacks → Run w (Unit {0})
  html5ever_parse_document html len document ctx cb =
      if html == null || len == 0
      then pure tt
      else extern_c (
          with_arena λ a. do
            bytes ← from_raw_parts html len
            parse_one code (sink_new ctx document a cb) (lib.parse_document lib.default_opts)
                (λ p. lib.from_utf8_one p bytes))

  unfoldable pub html5ever_parse_fragment : Ptr → ℕ → Ref → Ref → Callbacks → Run w (Unit {0})
  html5ever_parse_fragment html len document ctx cb =
      if html == null || len == 0
      then pure tt
      else extern_c (
          with_arena λ a. do
            bytes ← from_raw_parts html len
            let body : QualName = record {
              prefix = none;
              ns = lib.ns_html;
              local = lib.local_name body_name;
            }
            parse_one code (sink_new ctx document a cb)
                (lib.parse_fragment lib.default_opts body [] false)
                (λ p. lib.from_utf8_one p bytes))

  unfoldable pub xml5ever_parse_document : Ptr → ℕ → Ref → Ref → Callbacks → Run w (Unit {0})
  xml5ever_parse_document xml len document ctx cb =
      if xml == null || len == 0
      then pure tt
      else extern_c (
          with_arena λ a. do
            bytes ← from_raw_parts xml len
            parse_one code (sink_new ctx document a cb)
                (lib.xml_parse_document lib.default_xml_opts) (λ p. lib.xml_from_utf8_one p bytes))

module _ {D : Type 0} (enc : EncodingRs D) where
  -- `Encoding::for_label(charset_bytes).unwrap_or(encoding_rs::UTF_8)`
  unfoldable pub encoding_or_utf_8 : List ℕ → enc.Encoding
  encoding_or_utf_8 charset = elim (enc.for_label charset) [ none ↦ enc.utf_8 | some e ↦ e ]

module _ {w : World} (code : Code w) (lib : Html5ever w.Parser) (enc : EncodingRs w.Decoder) where
  unfoldable pub html5ever_parse_document_with_encoding :
      Ptr → ℕ → Ptr → ℕ → Ref → Ref → Callbacks → Run w (Unit {0})
  html5ever_parse_document_with_encoding html len charset charset_len document ctx cb =
      if html == null || len == 0
      then pure tt
      else extern_c (do
        input ← from_raw_parts html len
        charset_bytes ← if charset == null then pure [] else from_raw_parts charset charset_len
        let decoded = enc.decode (encoding_or_utf_8 enc charset_bytes) input
        with_arena λ a.
            parse_one code (sink_new ctx document a cb) (lib.parse_document lib.default_opts)
              (λ p. lib.one p decoded))
