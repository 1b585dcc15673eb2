-- ===== src/Tests/Documents.antt =====
-- The entry points of html5ever/lib.rs on two bytes of input.
use zenpanda.Prelude.{ℕ, [], ◌∷◌, some, ◌≢◌, arith}
use zenpanda.Html5ever.{no_quirks, null, append_node, Call}
use zenpanda.Memory.{read_slice, write_slice}
use zenpanda.Types.{element_data_new}
use zenpanda.Client.Marshal.{name_text}
use zenpanda.Sink.{normal}
use zenpanda.Embedder.{embedder, put, add_node}
use zenpanda.Document.{
  html5ever_parse_document, html5ever_parse_fragment, xml5ever_parse_document,
  html5ever_parse_document_with_encoding,
}
use zenpanda.Embedder.Ideal.{Ideal, ideal_run, ideal_call}
use zenpanda.Embedder.Calls.{Answered}
use zenpanda.Embedder.Runs.{RunsAs, run-ideal_run, answers}
use zenpanda.Embedder.Documents.{Completes, with_new_arena, started, followed_by}
use zenpanda.Embedder.Entries.{
  html5ever_parse_document-ideal, html5ever_parse_fragment-ideal, xml5ever_parse_document-ideal,
  html5ever_parse_document_with_encoding-ideal,
}
use zenpanda.Tests.Page.{page, document, self, callbacks, html, input, start, ideal, start-Ready}
use zenpanda.Tests.Parser.{parser, made, read_all, read_all-Readable, whole-Readable}
use zenpanda.Tests.Coder.{coder}

-- the page with the element
abbrev final : Ideal page
final = record {
  dom = (1 ∷ []) ∷ input ∷ [];
  nodes = put ideal.nodes 6 (record { element = some (made input); node = 1 });
  next_ref = 7;
}

abbrev len : ℕ
len = 2

html_ne_null : html ≢ null
html_ne_null e = omega (arith, e)

two_ne_zero : len ≢ 0
two_ne_zero e = omega (arith, e)

html5ever_parse_document-ideal_example :
    Completes page self document callbacks
      (html5ever_parse_document
        (embedder page (Unit {0}) ℕ self callbacks)
        parser
        html
        len
        document
        self
        callbacks
        start)
      start
      final
unfolding ideal_run ideal_call followed_by add_node name_text element_data_new read_slice
    write_slice
html5ever_parse_document-ideal_example =
    html5ever_parse_document-ideal page parser self document callbacks start ideal html len
      start-Ready html_ne_null two_ne_zero (whole-Readable _ _ ideal)

html5ever_parse_fragment-ideal_example :
    Completes page self document callbacks
      (html5ever_parse_fragment
        (embedder page (Unit {0}) ℕ self callbacks)
        parser
        html
        len
        document
        self
        callbacks
        start)
      start
      final
unfolding ideal_run ideal_call followed_by add_node name_text element_data_new read_slice
    write_slice
html5ever_parse_fragment-ideal_example =
    html5ever_parse_fragment-ideal page parser self document callbacks start ideal html len
      start-Ready html_ne_null two_ne_zero (whole-Readable _ _ ideal)

xml5ever_parse_document-ideal_example :
    Completes page self document callbacks
      (xml5ever_parse_document
        (embedder page (Unit {0}) ℕ self callbacks)
        parser
        html
        len
        document
        self
        callbacks
        start)
      start
      final
unfolding ideal_run ideal_call followed_by add_node name_text element_data_new read_slice
    write_slice
xml5ever_parse_document-ideal_example =
    xml5ever_parse_document-ideal page parser self document callbacks start ideal html len
      start-Ready html_ne_null two_ne_zero (read_all-Readable _ _ ideal)

html5ever_parse_document_with_encoding-ideal_example :
    Completes page self document callbacks
      (html5ever_parse_document_with_encoding
        (embedder page (Unit {0}) ℕ self callbacks)
        parser
        coder
        html
        len
        html
        len
        document
        self
        callbacks
        start)
      start
      final
unfolding ideal_run ideal_call followed_by add_node name_text element_data_new read_slice
    write_slice
html5ever_parse_document_with_encoding-ideal_example =
    html5ever_parse_document_with_encoding-ideal page parser self document callbacks start ideal
      html len start-Ready html_ne_null two_ne_zero coder html len (whole-Readable _ _ ideal)

answers_example :
    Answered page self document callbacks start.heap 1 no_quirks
      (with_new_arena page self document callbacks start)
      (Call.append document (append_node document))
      tt
      (record ideal { dom = (0 ∷ []) ∷ [] })
unfolding ideal_call put
answers_example =
    answers page self document callbacks start.heap 1 no_quirks
      (started page self document callbacks start ideal start-Ready)
      (Call.append document (append_node document)) tt

run-ideal_run_example :
    RunsAs page self document callbacks start.heap 1 no_quirks
      (with_new_arena page self document callbacks start)
      (read_all input)
      (normal tt)
      final
unfolding ideal_run ideal_call followed_by add_node name_text element_data_new read_slice
    write_slice
run-ideal_run_example =
    run-ideal_run page self document callbacks start.heap 1 (read_all input) no_quirks
      (with_new_arena page self document callbacks start) ideal
      (started page self document callbacks start ideal start-Ready) (read_all-Readable _ _ ideal)
