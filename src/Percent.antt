-- ===== src/Percent.antt =====
-- Percent encoding in browser/URL.zig: `percentEncodeSegment`, `encodeQueryString` over the encoding
-- functions of html5ever/lib.rs, and `unescape`.
pub mod Reference
pub mod RoundTrip
pub mod Query
pub mod Encoded
pub mod Separators
use zenpanda.Prelude.{
  ℕ, ◌+◌, ◌-◌, ◌*◌, ◌/◌, ◌%◌, List, [], ◌∷◌, length, Option, none, some, Bool, true, false, not,
  ◌&&◌, ◌||◌, ◌==◌, leb, ltb, if◌then◌else◌,
}
use zenpanda.Html5ever.{Ptr}
use zenpanda.EncodingRs.{EncodingRs}
use zenpanda.Machine.{World, Run, pure, ◌>>=◌, ◌>>◌, from_raw_parts}
use zenpanda.Encoding.{
  EncodeResult, encoding_for_label, encoding_max_encode_buffer_length, encoding_encode_with_ncr,
}
use zenpanda.TextDecoder.{eql}

pub data EncodeSet : Type 0 where
  path query query_legacy userinfo fragment : EncodeSet

abbrev is_userinfo : EncodeSet → Bool
is_userinfo userinfo = true
is_userinfo _ = false

abbrev is_fragment : EncodeSet → Bool
is_fragment fragment = true
is_fragment _ = false

abbrev is_legacy : EncodeSet → Bool
is_legacy query_legacy = true
is_legacy _ = false

abbrev is_query : EncodeSet → Bool
is_query query = true
is_query query_legacy = true
is_query _ = false

abbrev between : ℕ → ℕ → ℕ → Bool
between a b c = leb a c && leb c b

abbrev is_unreserved : ℕ → Bool
is_unreserved c =
    between 0x41 0x5a c
    || between 0x61 0x7a c
    || between 0x30 0x39 c
    || c == b'-'
    || c == b'.'
    || c == b'_'
    || c == b'~'

-- `!`, `$`, `'`, `(`, `)`, `*`, `+`, `,`
abbrev is_sub_delim : ℕ → Bool
is_sub_delim c = c == 0x21 || c == 0x24 || between 0x27 0x2c c

-- `&` and `;`, then `=`, then `/`, `:` and `@`, then `?` and `#`
unfoldable pub should_percent_encode : EncodeSet → ℕ → Bool
should_percent_encode s c =
    if is_unreserved c || is_sub_delim c
    then false
    else if c == 0x26 || c == 0x3b
    then is_userinfo s || is_legacy s
    else if c == 0x3d
    then is_userinfo s
    else if c == 0x2f || c == 0x3a || c == 0x40
    then is_userinfo s
    else if c == 0x3f
    then not (is_query s)
    else if c == 0x23
    then not (is_fragment s)
    else true

-- `std.ascii.isHex`
abbrev pub is_hex : ℕ → Bool
is_hex c = between 0x30 0x39 c || between 0x41 0x46 c || between 0x61 0x66 c

-- `{X:0>2}`
abbrev upper_hex : ℕ → ℕ
upper_hex d = if ltb d 10 then 0x30 + d else 0x37 + d

unfoldable pub hex_of : ℕ → List ℕ → List ℕ
hex_of c rest = b'%' ∷ upper_hex (c / 16) ∷ upper_hex (c % 16) ∷ rest

unfoldable pub put_encoded : EncodeSet → ℕ → List ℕ → List ℕ
unfolding should_percent_encode hex_of
put_encoded s c rest = if should_percent_encode s c then hex_of c rest else c ∷ rest

abbrev is_escape : ℕ → ℕ → ℕ → Bool
is_escape c h1 h2 = c == b'%' && is_hex h1 && is_hex h2

-- the loop: an escape that is there already is kept
unfoldable pub encode_from : EncodeSet → List ℕ → List ℕ
unfolding put_encoded
encode_from s [] = []
encode_from s (c ∷ []) = put_encoded s c []
encode_from s (c ∷ h1 ∷ []) = put_encoded s c (encode_from s (h1 ∷ []))
encode_from s (c ∷ h1 ∷ h2 ∷ rest) = elim (is_escape c h1 h2) [
  | true ↦ c ∷ h1 ∷ h2 ∷ encode_from s rest
  | false ↦ put_encoded s c (encode_from s (h1 ∷ h2 ∷ rest))
]

unfoldable pub needs_encoding : EncodeSet → List ℕ → Bool
unfolding should_percent_encode
needs_encoding s [] = false
needs_encoding s (c ∷ cs) = should_percent_encode s c || needs_encoding s cs

unfoldable pub percent_encode_segment : EncodeSet → List ℕ → List ℕ
unfolding encode_from needs_encoding
percent_encode_segment s segment =
    if needs_encoding s segment then encode_from s segment else segment

abbrev pub digit : ℕ → ℕ
digit c =
    if between 0x30 0x39 c then c - 0x30 else if between 0x41 0x46 c then c - 0x37 else c - 0x57

-- `std.fmt.parseInt(u8, hex, 16)` on two characters, which takes a sign too
unfoldable pub parse_int : ℕ → ℕ → Option ℕ
parse_int h1 h2 =
    if is_hex h1 && is_hex h2
    then some (digit h1 * 16 + digit h2)
    else if h1 == b'+' && is_hex h2
    then some (digit h2)
    else if h1 == b'-' && h2 == 0x30
    then some 0
    else none

unfoldable pub unescape_from : List ℕ → List ℕ
unfolding parse_int
unescape_from [] = []
unescape_from (c ∷ []) = c ∷ []
unescape_from (c ∷ h1 ∷ []) = c ∷ unescape_from (h1 ∷ [])
unescape_from (c ∷ h1 ∷ h2 ∷ rest) = elim (c == b'%') [
  | true ↦ elim (parse_int h1 h2) [
    | some b ↦ b ∷ unescape_from rest
    | none ↦ c ∷ unescape_from (h1 ∷ h2 ∷ rest)
  ]
  | false ↦ c ∷ unescape_from (h1 ∷ h2 ∷ rest)
]

unfoldable pub has_percent : List ℕ → Bool
has_percent [] = false
has_percent (c ∷ cs) = c == b'%' || has_percent cs

unfoldable pub unescape : List ℕ → List ℕ
unfolding unescape_from has_percent
unescape input = if has_percent input then unescape_from input else input

abbrev pub utf_8_label : List ℕ
utf_8_label = b'U' ∷ b'T' ∷ b'F' ∷ b'-' ∷ b'8' ∷ []

-- A slice that is returned: bytes that are there, or so many bytes of a buffer that has been freed.
pub data Slice : Type 0 where
  live : List ℕ → Slice
  freed : ℕ → Slice

-- What `percentEncodeSegment` gives of a buffer that is freed at the return: where it encodes
-- nothing, that is the buffer itself.
unfoldable pub percent_encode_freed : EncodeSet → List ℕ → Slice
unfolding percent_encode_segment needs_encoding
percent_encode_freed s segment =
    if needs_encoding s segment
    then live (percent_encode_segment s segment)
    else freed (length segment)

module _ {w : World} (enc : EncodingRs w.Decoder) where
  -- `none` where there is no memory. The `encode_buf` is freed at the return. A page that is not encoded as it says is encoded as UTF-8.
  unfoldable pub encode_query_string : Option Ptr → Ptr → ℕ → Ptr → ℕ → Run w (Option Slice)
  unfolding percent_encode_segment percent_encode_freed
  encode_query_string alloc_buf query_ptr query_len label label_len = do
    q ← from_raw_parts query_ptr query_len
    encoding ← from_raw_parts label label_len
    (let fallback = some (live (percent_encode_segment query q)) in
        if eql encoding utf_8_label then pure fallback else do
          enc_info ← encoding_for_label enc label label_len
          (if enc_info.found == 0 then pure fallback else do
            max_encoded_len ← encoding_max_encode_buffer_length enc enc_info.handle query_len
            (if max_encoded_len == 0 then pure fallback else elim alloc_buf [
              | none ↦ pure none
              | some encode_buf ↦ do
                result ←
                    encoding_encode_with_ncr enc enc_info.handle query_ptr query_len encode_buf
                      max_encoded_len
                (if not (result.status == 0) then pure fallback else do
                  encoded_bytes ← from_raw_parts encode_buf result.bytes_written
                  pure (some (percent_encode_freed query_legacy encoded_bytes)))
            ])))
