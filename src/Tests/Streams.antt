-- ===== src/Tests/Streams.antt =====
-- A streaming parser of html5ever/lib.rs on two bytes of input, and on a character in two chunks.
use zenpanda.Prelude.{ℕ, suc, List, [], ◌∷◌, some, ◌≡◌, ◌≢◌, refl, arith}
use zenpanda.Html5ever.{Ptr, no_quirks, null, Call, Prog, Html5ever}
use zenpanda.Memory.{read_slice, write_slice}
use zenpanda.Utf8.{from_utf8_ok}
use zenpanda.Utf8.WellFormed.{two, empty}
use zenpanda.Types.{element_data_new, StreamingParser}
use zenpanda.Machine.{Machine, Heap, returned, undefined, update}
use zenpanda.Client.Marshal.{name_text}
use zenpanda.Embedder.{embedder, put, add_node}
use zenpanda.Streaming.{
  html5ever_streaming_parser_create, html5ever_streaming_parser_feed,
  html5ever_streaming_parser_finish, html5ever_streaming_parser_destroy,
}
use zenpanda.Code.{Code}
use zenpanda.Streaming.Reentry.{Use, feeds, use_parser, feed-reentered}
use zenpanda.Embedder.Calls.{sink_in}
use zenpanda.Embedder.Ideal.{ideal_run, ideal_call}
use zenpanda.Embedder.Documents.{Completes, with_new_arena, started}
use zenpanda.Embedder.Slots.{Related-box}
use zenpanda.Embedder.Streams.{Live, Fed, box, feed-ideal, finish-ideal, destroy_frees}
use zenpanda.Embedder.Created.{Created, create-ideal}
use zenpanda.Embedder.Chunks.{feed_cut}
use zenpanda.Tests.Page.{
  page, document, self, callbacks, Here, html, head, tail, input, start, ideal, start-Ready,
}
use zenpanda.Tests.Parser.{parser, made, read_all-Readable}

abbrev empty_heap : Heap Here
empty_heap = start.heap

abbrev p : Ptr
p = 2

-- the start, with an arena at 1 and a streaming parser in its box at 2
abbrev live_machine : Machine Here
live_machine =
    let m = with_new_arena page self document callbacks start in
    record m {
      heap =
          update m.heap m.next
            (some (box page parser self document callbacks empty_heap p 1 no_quirks tt));
      next = suc m.next;
    }

live : Live page parser self document callbacks empty_heap p live_machine tt ideal
live = record {
  arena' = 1;
  quirks = no_quirks;
  ne_null = λ e. omega (arith, e);
  related =
      Related-box page empty_heap 1 2 _
        (started page self document callbacks start ideal start-Ready) refl;
}

html_ne_null : html ≢ null
html_ne_null e = omega (arith, e)

abbrev len : ℕ
len = 2

len_ne_zero : len ≢ 0
len_ne_zero e = omega (arith, e)

create-ideal_example :
    Created page parser self document callbacks start
      (html5ever_streaming_parser_create
        (embedder page (Unit {0}) ℕ self callbacks)
        parser
        document
        self
        callbacks
        start)
      tt
      ideal
unfolding ideal_run ideal_call
create-ideal_example =
    create-ideal page parser self document callbacks start ideal start-Ready (tt, λ r i e. tt)

feed-ideal_example :
    Fed page parser self document callbacks empty_heap p
      (html5ever_streaming_parser_feed
        (embedder page (Unit {0}) ℕ self callbacks)
        parser
        p
        html
        len
        live_machine)
      0
      tt
      (record {
        dom = (1 ∷ []) ∷ input ∷ [];
        nodes = put ideal.nodes 6 (record { element = some (made input); node = 1 });
        next_ref = 7;
      })
unfolding ideal_run ideal_call add_node name_text element_data_new read_slice write_slice
feed-ideal_example =
    feed-ideal page parser self document callbacks empty_heap p live html len html_ne_null
      len_ne_zero (unfold from_utf8_ok in refl) (read_all-Readable _ _ ideal)

finish-ideal_example :
    Completes page self document callbacks
      (html5ever_streaming_parser_finish
        (embedder page (Unit {0}) ℕ self callbacks)
        parser
        p
        live_machine)
      (record live_machine { heap = empty_heap })
      (record ideal { dom = (0 ∷ []) ∷ [] })
unfolding ideal_run ideal_call put
finish-ideal_example =
    finish-ideal page parser self document callbacks empty_heap p live refl (tt, λ r i e. tt)

destroy_frees_example :
    html5ever_streaming_parser_destroy p live_machine
    ≡ returned tt (record live_machine { heap = empty_heap })
destroy_frees_example = destroy_frees page parser self document callbacks empty_heap p live refl

-- a parser that ends an element first, and callbacks of which that one feeds the same parser
abbrev ending : Html5ever (Unit {0})
ending = record parser { process = λ st c. Prog.call (Call.pop 1) (λ u. Prog.done tt) }

abbrev living : StreamingParser (Unit {0})
living = record {
  arena = 1;
  parser = record {
    sink = sink_in page self document callbacks empty_heap 1 no_quirks;
    state = tt;
  };
}

abbrev again : Use
again = feeds html len html_ne_null len_ne_zero

abbrev scripted : Code Here
scripted = record (embedder page (Unit {0}) ℕ self callbacks) {
  pop = λ f c r. use_parser (embedder page (Unit {0}) ℕ self callbacks) ending p again;
}

feed-reentered_example :
    html5ever_streaming_parser_feed scripted ending p html len live_machine ≡ undefined
unfolding update
feed-reentered_example =
    feed-reentered scripted (embedder page (Unit {0}) ℕ self callbacks) ending live_machine p html
      len living again 1 (λ u. Prog.done tt) live.ne_null html_ne_null len_ne_zero refl
      (unfold from_utf8_ok read_slice write_slice in refl) refl (λ m'. refl)

-- the bytes of the character
abbrev e_acute : List ℕ
e_acute = 0xc3 ∷ 0xa9 ∷ []

feed_cut_example :
    (html5ever_streaming_parser_feed
        (embedder page (Unit {0}) ℕ self callbacks)
        parser
        p
        head
        1
        live_machine
      ≡ returned 0 live_machine)
    × (html5ever_streaming_parser_feed
          (embedder page (Unit {0}) ℕ self callbacks)
          parser
          p
          tail
          1
          live_machine
        ≡ returned 0 live_machine)
feed_cut_example =
    feed_cut page parser self document callbacks empty_heap p live head tail 1 1 [] e_acute [] 1
      (λ e. omega (arith, e)) (λ e. omega (arith, e)) (λ e. omega (arith, e))
      (λ e. omega (arith, e)) empty
      (two 0xc3 0xa9 (omega arith, omega arith) (omega arith, omega arith)) (omega arith)
      (omega arith) (unfold read_slice write_slice in refl) (unfold read_slice write_slice in refl)
