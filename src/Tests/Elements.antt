-- ===== src/Tests/Elements.antt =====
-- An element that a small parser makes and then appends, and what the crate is told of it.
use zenpanda.Prelude.{[], ◌∷◌, none, some, true, ◌≡◌, refl, arith}
use zenpanda.Html5ever.{no_quirks, quirks, append_node, Call}
use zenpanda.Types.{element_data_new}
use zenpanda.Client.Marshal.{name_text}
use zenpanda.Embedder.{put, add_node}
use zenpanda.Embedder.Ideal.{Ideal, ideal_run, ideal_call, ideal_create}
use zenpanda.Embedder.Calls.{Answered}
use zenpanda.Embedder.Runs.{RunsAs, run-ideal_run}
use zenpanda.Embedder.Documents.{with_new_arena, started}
use zenpanda.Embedder.Lasting.{IsFresh, Reaches, here, next, calls}
use zenpanda.Embedder.Elements.{elem_name-create_element}
use zenpanda.Sink.{normal}
use zenpanda.Machine.{Heap}
use zenpanda.Tests.Page.{page, document, self, callbacks, Here, input, start, ideal, start-Ready}
use zenpanda.Tests.Parser.{name, attribute, flags, made, read_all, read_all-Readable}

abbrev empty_heap : Heap Here
empty_heap = start.heap

ideal-IsFresh : IsFresh page ideal
unfolding put
ideal-IsFresh = record {
  unused = λ r l. ground (arith, l);
  null_unused = refl;
  next_ne_null = omega arith;
}

-- the page with the element, and once it has been appended
abbrev created : Ideal page
created = record {
  dom = input ∷ [];
  nodes = put ideal.nodes 6 (record { element = some (made input); node = 1 });
  next_ref = 7;
}

abbrev appended : Ideal page
appended = record created { dom = (1 ∷ []) ∷ input ∷ [] }

appended-Reaches : Reaches page document created appended
unfolding ideal_call put
appended-Reaches = next here (calls (Call.append document (append_node 6)) tt refl)

after :
    RunsAs page self document callbacks empty_heap 1 no_quirks
      (with_new_arena page self document callbacks start)
      (read_all input)
      (normal tt)
      appended
unfolding ideal_run ideal_call ideal_create put add_node name_text element_data_new
after =
    run-ideal_run page self document callbacks empty_heap 1 (read_all input) no_quirks
      (with_new_arena page self document callbacks start) ideal
      (started page self document callbacks start ideal start-Ready) (read_all-Readable _ _ ideal)

elem_name-create_element_example :
    (ideal.nodes 6 ≡ none)
    × Answered page self document callbacks empty_heap 1 quirks after.machine'
        (Call.elem_name 6)
        (name input)
        appended
    × Answered page self document callbacks empty_heap 1 quirks after.machine'
        (Call.is_mathml_annotation_xml_integration_point 6)
        true
        appended
unfolding ideal_call ideal_create put add_node name_text element_data_new
elem_name-create_element_example =
    elem_name-create_element page self document callbacks empty_heap 1 ideal created appended
      (name input) (attribute input ∷ []) flags 6 quirks after.machine' ideal-IsFresh refl
      (λ e. omega (arith, e)) appended-Reaches after.related
