-- ===== src/Embedder/Entries.antt =====
-- What the document entry points of html5ever/lib.rs do to the embedder's page.
use zenpanda.Prelude.{
  ℕ, suc, ◌≡◌, ◌≢◌, [], List, none, some, arith, ◌==◌, ==_ne, false, ◌||◌, if◌then◌else◌,
}
use zenpanda.Html5ever.{Ptr, null, QualName, Prog, Html5ever}
use zenpanda.EncodingRs.{EncodingRs}
use zenpanda.Memory.{read_slice}
use zenpanda.Types.{Ref}
use zenpanda.Machine.{World, Machine, returned, from_raw_parts, Run, ◌>>=◌, alloc, update, arena}
use zenpanda.Machine.Slices.{from_raw_parts_lem}
use zenpanda.Document.{
  Callbacks, sink_new, parse_one, with_arena, html5ever_parse_document, html5ever_parse_fragment,
  xml5ever_parse_document, html5ever_parse_document_with_encoding, encoding_or_utf_8, body_name,
}
use zenpanda.Embedder.{Dom, embedded, embedder}
use zenpanda.Embedder.Ideal.{Ideal, ideal_run}
use zenpanda.Embedder.Related.{Readable}
use zenpanda.Embedder.Documents.{followed_by, Ready, AsIdeal, whole_parse}

-- the guard of the entry points
guard-false : (p n : ℕ) → p ≢ null → n ≢ 0 → (p == null || n == 0) ≡ false
guard-false p n hp hn = rw (==_ne p null hp, ==_ne n 0 hn)

-- The arena has no part in what is read.
read_first :
    {w : World} (m : Machine w) (p : Ptr) (n : ℕ) (k : Ptr → List ℕ → Run w (Unit {0}))
    → p ≢ null
    → with_arena (λ a. from_raw_parts p n >>= λ bytes. k a bytes) m
      ≡ with_arena (λ a. k a (read_slice m.bytes p n)) m
unfolding with_arena alloc
read_first m p n k ne =
    let m1 = record m { heap = update m.heap m.next (some (arena [])); next = suc m.next } in
    rw (from_raw_parts_lem m1 p n ne)

module _ (dom : Dom) {P D : Type 0} (lib : Html5ever P) (self document : Ref) (cb : Callbacks)
    (m : Machine (embedded dom P D)) (i : Ideal dom) (html : Ptr) (len : ℕ)
    (ready : Ready dom self document cb m i) (html_ne_null : html ≢ null)
    (len_ne_zero : len ≢ 0) where
  -- the bytes at `html`
  abbrev pub input : List ℕ
  input = read_slice m.bytes html len

  -- the run of html5ever over a whole document
  abbrev pub document_prog : Prog (Unit {0})
  document_prog = followed_by (lib.parse_document lib.default_opts) λ p. lib.from_utf8_one p input

  -- On a machine where a parser can be started, for an input that is not empty, and a parser whose
  -- strings stand in memory when it passes them: where the parser's run with no pointers in between
  -- completes, `html5ever_parse_document` returns, the page is the one of that run, and the heap is
  -- as before, all that was allocated having been freed; where that run panics, the process is
  -- aborted.
  pub html5ever_parse_document-ideal :
      Readable dom document i m.bytes document_prog
      → AsIdeal dom self document cb
          (html5ever_parse_document (embedder dom P D self cb) lib html len document self cb m)
          m
          (ideal_run dom document i document_prog)
  unfolding html5ever_parse_document
  html5ever_parse_document-ideal readable = rw (guard-false html len html_ne_null len_ne_zero) (
      rw
        (read_first m html len
          (λ a bytes.
            parse_one (embedder dom P D self cb) (sink_new self document a cb)
              (lib.parse_document lib.default_opts) (λ p. lib.from_utf8_one p bytes))
          html_ne_null)
        (whole_parse dom self document cb m i ready (lib.parse_document lib.default_opts)
          (λ p. lib.from_utf8_one p input) readable))

  -- the run of html5ever over a fragment, in a body element
  abbrev pub fragment_prog : Prog (Unit {0})
  fragment_prog =
      followed_by
        (lib.parse_fragment lib.default_opts
          (record { prefix = none; ns = lib.ns_html; local = lib.local_name body_name }) [] false)
        λ p. lib.from_utf8_one p input

  -- What `html5ever_parse_document` does, `html5ever_parse_fragment` does for a run that starts in
  -- a body element of the HTML namespace without attributes.
  pub html5ever_parse_fragment-ideal :
      Readable dom document i m.bytes fragment_prog
      → AsIdeal dom self document cb
          (html5ever_parse_fragment (embedder dom P D self cb) lib html len document self cb m)
          m
          (ideal_run dom document i fragment_prog)
  unfolding html5ever_parse_fragment
  html5ever_parse_fragment-ideal readable =
      let body : QualName = record {
        prefix = none;
        ns = lib.ns_html;
        local = lib.local_name body_name;
      } in
      let make = lib.parse_fragment lib.default_opts body [] false in
      rw (guard-false html len html_ne_null len_ne_zero) (
        rw
          (read_first m html len
            (λ a bytes.
              parse_one (embedder dom P D self cb) (sink_new self document a cb) make
                (λ p. lib.from_utf8_one p bytes))
            html_ne_null)
          (whole_parse dom self document cb m i ready make (λ p. lib.from_utf8_one p input)
            readable))

  abbrev pub xml_prog : Prog (Unit {0})
  xml_prog =
      followed_by (lib.xml_parse_document lib.default_xml_opts) λ p. lib.xml_from_utf8_one p input

  -- What `html5ever_parse_document` does, `xml5ever_parse_document` does for a run of the XML
  -- parser.
  pub xml5ever_parse_document-ideal :
      Readable dom document i m.bytes xml_prog
      → AsIdeal dom self document cb
          (xml5ever_parse_document (embedder dom P D self cb) lib html len document self cb m)
          m
          (ideal_run dom document i xml_prog)
  unfolding xml5ever_parse_document
  xml5ever_parse_document-ideal readable = rw (guard-false html len html_ne_null len_ne_zero) (
      rw
        (read_first m html len
          (λ a bytes.
            parse_one (embedder dom P D self cb) (sink_new self document a cb)
              (lib.xml_parse_document lib.default_xml_opts) (λ p. lib.xml_from_utf8_one p bytes))
          html_ne_null)
        (whole_parse dom self document cb m i ready (lib.xml_parse_document lib.default_xml_opts)
          (λ p. lib.xml_from_utf8_one p input) readable))

  module _ (enc : EncodingRs D) (charset : Ptr) (charset_len : ℕ) where
    -- the label at `charset`, none for a null pointer
    abbrev pub charset_bytes : List ℕ
    charset_bytes = if charset == null then [] else read_slice m.bytes charset charset_len

    abbrev pub decoded_prog : Prog (Unit {0})
    decoded_prog =
        followed_by (lib.parse_document lib.default_opts)
          λ p. lib.one p (enc.decode (encoding_or_utf_8 enc charset_bytes) input)

    charset_lem :
        (if charset == null then (λ n. returned [] n) else from_raw_parts charset charset_len) m
        ≡ returned charset_bytes m
    unfolding from_raw_parts
    charset_lem = ground arith

    -- What `html5ever_parse_document` does, `html5ever_parse_document_with_encoding` does for a
    -- parser that reads the input decoded from the encoding that the label names, and from UTF-8
    -- where the label is null or unknown.
    pub html5ever_parse_document_with_encoding-ideal :
        Readable dom document i m.bytes decoded_prog
        → AsIdeal dom self document cb
            (html5ever_parse_document_with_encoding
              (embedder dom P D self cb)
              lib
              enc
              html
              len
              charset
              charset_len
              document
              self
              cb
              m)
            m
            (ideal_run dom document i decoded_prog)
    unfolding html5ever_parse_document_with_encoding
    html5ever_parse_document_with_encoding-ideal readable =
        rw (guard-false html len html_ne_null len_ne_zero) (
          rw (from_raw_parts_lem m html len html_ne_null) (
            rw charset_lem (
              whole_parse dom self document cb m i ready (lib.parse_document lib.default_opts)
                (λ p. lib.one p (enc.decode (encoding_or_utf_8 enc charset_bytes) input))
                readable)))
