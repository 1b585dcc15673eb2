-- ===== src/Embedder/Chunks.antt =====
-- A document that arrives in chunks at the streaming parser of html5ever/lib.rs.
use zenpanda.Prelude.{ℕ, ◌<◌, ◌≡◌, ◌≢◌, ap, ◌∙◌, List, ◌++◌, take, drop, length}
use zenpanda.Html5ever.{Ptr, null, Html5ever}
use zenpanda.Utf8.{from_utf8_ok}
use zenpanda.Utf8.WellFormed.{Char, WellFormed}
use zenpanda.Utf8.Accepts.{from_utf8_ok-cut}
use zenpanda.Memory.{read_slice}
use zenpanda.Types.{Ref}
use zenpanda.Machine.{Heap, Machine, returned}
use zenpanda.Document.{Callbacks}
use zenpanda.Streaming.{html5ever_streaming_parser_feed}
use zenpanda.Embedder.{Dom, embedded, embedder}
use zenpanda.Embedder.Ideal.{Ideal}
use zenpanda.Embedder.Streams.{Live, feed_not_utf8}

module _ (dom : Dom) {P D : Type 0} (lib : Html5ever P) (self document : Ref) (cb : Callbacks)
    (h : Heap (embedded dom P D)) (p : Ptr) where
  -- When a chunk of well-formed text ends within a character and another chunk starts with the rest
  -- of that character, `html5ever_streaming_parser_feed` drops either chunk whole: it returns 0,
  -- the status of success, and changes nothing.
  pub feed_cut :
      {m : Machine (embedded dom P D)} {st : P} {i : Ideal dom}
      → Live dom lib self document cb h p m st i
      → (first second first_len second_len : ℕ) (before c behind : List ℕ) (n : ℕ) → first ≢ null
      → second ≢ null
      → first_len ≢ 0
      → second_len ≢ 0
      → WellFormed before
      → Char c
      → 0 < n
      → n < length c
      → read_slice m.bytes first first_len ≡ before ++ take n c
      → read_slice m.bytes second second_len ≡ drop n c ++ behind
      → (html5ever_streaming_parser_feed (embedder dom P D self cb) lib p first first_len m
          ≡ returned 0 m)
        × (html5ever_streaming_parser_feed (embedder dom P D self cb) lib p second second_len m
            ≡ returned 0 m)
  feed_cut {m} live first second first_len second_len before c behind n hf hs lf ls w char l u ef
        es =
      let cut = from_utf8_ok-cut before c behind n w char l u in
      (
        feed_not_utf8 dom lib self document cb h p live first first_len hf lf
            (ap from_utf8_ok ef ∙ cut.0),
        feed_not_utf8 dom lib self document cb h p live second second_len hs ls
            (ap from_utf8_ok es ∙ cut.1),
      )
