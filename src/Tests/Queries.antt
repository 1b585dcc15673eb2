-- ===== src/Tests/Queries.antt =====
-- Percent encoding of browser/URL.zig over a coder that copies.
use zenpanda.Prelude.{
  ℕ, ◌<◌, List, [], ◌∷◌, Option, none, some, false, ◌≡◌, ◌≢◌, refl, ap, arith, length,
}
use zenpanda.Html5ever.{Ptr, null}
use zenpanda.Memory.{read_slice, write_slice}
use zenpanda.Utf8.{from_utf8_ok}
use zenpanda.Machine.{Machine, returned}
use zenpanda.TextDecoder.{eql}
use zenpanda.TextDecoder.Ideal.{blank}
use zenpanda.Percent.{
  path, query, percent_encode_segment, unescape, encode_query_string, should_percent_encode,
  needs_encoding, live, freed,
}
use zenpanda.Percent.Reference.{percent_decode, AllBytes}
use zenpanda.Percent.RoundTrip.{unescape-percent_encode_segment, percent_encode_segment_twice}
use zenpanda.Percent.Query.{max_length}
use zenpanda.Encoding.{saturating_mul}
use zenpanda.Percent.Separators.{
  has_separator, Legacy, encode_query_string-no_separator, encode_query_string-freed,
}
use zenpanda.Tests.Page.{Here, start}
use zenpanda.Tests.Coder.{coder, coder-Documented, coder-EncodesOnly, copy, fill}

-- `%+5 %41`
abbrev segment : List ℕ
segment = b'%' ∷ b'+' ∷ b'5' ∷ 0x20 ∷ b'%' ∷ b'4' ∷ b'1' ∷ []

segment-AllBytes : AllBytes segment
segment-AllBytes = (
  omega arith,
  (omega arith, (omega arith, (omega arith, (omega arith, (omega arith, (omega arith, tt)))))),
)

unescape-percent_encode_segment_example :
    unescape (percent_encode_segment query segment) ≡ b'%' ∷ b'+' ∷ b'5' ∷ 0x20 ∷ b'A' ∷ []
unfolding percent_decode
unescape-percent_encode_segment_example =
    unescape-percent_encode_segment query segment segment-AllBytes

percent_encode_segment_twice_example :
    percent_encode_segment path (percent_encode_segment path segment)
    ≡ percent_encode_segment path segment
percent_encode_segment_twice_example = percent_encode_segment_twice path segment segment-AllBytes

-- a label of two bytes, and `&=`, in memory
abbrev label : Ptr
label = 700

abbrev text : Ptr
text = 720

abbrev filled : Machine Here
filled = record start {
  bytes = write_slice (write_slice start.bytes label (b'x' ∷ b'p' ∷ [])) text (b'&' ∷ b'=' ∷ []);
}

not_null : (p : Ptr) → 0 < p → p ≢ null
not_null p l e = omega (arith, l, e)

abbrev pointer_or : Ptr → Option Ptr → Ptr
pointer_or p none = p
pointer_or p (some q) = q

buffer_not_null : some 900 ≢ some null
buffer_not_null e = not_null 900 (omega arith) (ap (pointer_or 900) e)

abbrev two : ℕ
two = 2

two_ne_zero : two ≢ 0
two_ne_zero e = omega (arith, e)

room : max_length coder 112 (length (read_slice filled.bytes text 2)) ≢ 0
unfolding saturating_mul read_slice
room e = omega (arith, e)

ampersand-Legacy :
    Legacy coder coder-Documented coder-EncodesOnly filled text
      (not_null text (omega arith))
      2
      label
      (not_null label (omega arith))
      2
      two_ne_zero
      900
      buffer_not_null
      112
unfolding eql from_utf8_ok copy fill blank read_slice write_slice saturating_mul
ampersand-Legacy = record {
  other = refl;
  known = refl;
  room = room;
  utf_8 = refl;
  not_utf_8 = λ e. omega (arith, e);
  fits = refl;
}

encode_query_string-no_separator_example :
    (q : List ℕ) × (m' : Machine Here) × (encode_query_string coder (some 900) text 2 label 2 filled
      ≡ returned (some (live q)) m')
    × (has_separator q ≡ false)
encode_query_string-no_separator_example =
    encode_query_string-no_separator coder coder-Documented coder-EncodesOnly filled text
      (not_null text (omega arith)) 2 label (not_null label (omega arith)) 2 two_ne_zero 900
      buffer_not_null 112 ampersand-Legacy
      (unfold needs_encoding should_percent_encode copy fill blank read_slice write_slice
          saturating_mul in
        refl)

-- with `a=` in place of `&=`
abbrev plain : Machine Here
plain = record start {
  bytes = write_slice (write_slice start.bytes label (b'x' ∷ b'p' ∷ [])) text (b'a' ∷ b'=' ∷ []);
}

plain_room : max_length coder 112 (length (read_slice plain.bytes text 2)) ≢ 0
unfolding saturating_mul read_slice
plain_room e = omega (arith, e)

plain-Legacy :
    Legacy coder coder-Documented coder-EncodesOnly plain text
      (not_null text (omega arith))
      2
      label
      (not_null label (omega arith))
      2
      two_ne_zero
      900
      buffer_not_null
      112
unfolding eql from_utf8_ok copy fill blank read_slice write_slice saturating_mul
plain-Legacy = record {
  other = refl;
  known = refl;
  room = plain_room;
  utf_8 = refl;
  not_utf_8 = λ e. omega (arith, e);
  fits = refl;
}

encode_query_string-freed_example :
    (m' : Machine Here) × (encode_query_string coder (some 900) text 2 label 2 plain
      ≡ returned (some (freed 2)) m')
unfolding copy fill blank read_slice write_slice saturating_mul
encode_query_string-freed_example =
    encode_query_string-freed coder coder-Documented coder-EncodesOnly plain text
      (not_null text (omega arith)) 2 label (not_null label (omega arith)) 2 two_ne_zero 900
      buffer_not_null 112 plain-Legacy (unfold needs_encoding should_percent_encode in refl)
