-- ===== src/Percent/Separators.antt =====
-- What becomes of the separators of a query in `encodeQueryString` of browser/URL.zig.
use zenpanda.Prelude.{
  ℕ, ◌/◌, ◌%◌, ==_ne, ◌≡◌, ◌≢◌, refl, ap, ◌∙◌, List, [], ◌∷◌, some, Bool, true, false, ◌||◌, ◌==◌,
  arith, Bool-cases, inl, inr, length, take,
}
use zenpanda.Html5ever.{Ptr, null}
use zenpanda.EncodingRs.{EncodingRs, input_empty}
use zenpanda.Utf8.{from_utf8_ok}
use zenpanda.Memory.{read_slice}
use zenpanda.Machine.{World, Machine, returned}
use zenpanda.Encoding.Bounds.{Documented}
use zenpanda.TextDecoder.{eql}
use zenpanda.TextDecoder.Ideal.{blank}
use zenpanda.Percent.{
  query_legacy, should_percent_encode, is_escape, upper_hex, hex_of, put_encoded, encode_from,
  percent_encode_segment, utf_8_label, encode_query_string, needs_encoding, Slice, live, freed,
  percent_encode_freed,
}
use zenpanda.Percent.RoundTrip.{percent_encode_segment_lem}
use zenpanda.Percent.Query.{EncodesOnly, max_length, ideal_query}
use zenpanda.Percent.Encoded.{encode_query_string-ideal}

-- `&` and `;`
abbrev is_separator : ℕ → Bool
is_separator c = c == 0x26 || c == 0x3b

unfoldable pub has_separator : List ℕ → Bool
has_separator [] = false
has_separator (c ∷ cs) = is_separator c || has_separator cs

hex-no_separator : (d : ℕ) → is_separator (upper_hex d) ≡ false
hex-no_separator d = ground arith

kept : (c : ℕ) → should_percent_encode query_legacy c ≡ false → is_separator c ≡ false
unfolding should_percent_encode
kept c e = ground (arith, e)

put_encoded-no_separator :
    (c : ℕ) (r : List ℕ)
    → has_separator r ≡ false
    → has_separator (put_encoded query_legacy c r) ≡ false
unfolding put_encoded hex_of has_separator
put_encoded-no_separator c r free = elim (Bool-cases (should_percent_encode query_legacy c)) [
  | inl e ↦ rw e (rw (hex-no_separator (c / 16), hex-no_separator (c % 16)) free)
  | inr e ↦ rw e (rw (kept c e) free)
]

escape-no_separator :
    (c h1 h2 : ℕ) (r : List ℕ)
    → is_escape c h1 h2 ≡ true
    → has_separator r ≡ false
    → has_separator (c ∷ h1 ∷ h2 ∷ r) ≡ false
unfolding has_separator
escape-no_separator c h1 h2 r e free = ground (arith, e, free)

encode_from-no_separator : (xs : List ℕ) → has_separator (encode_from query_legacy xs) ≡ false
unfolding encode_from has_separator
encode_from-no_separator [] = refl
encode_from-no_separator (c ∷ []) = put_encoded-no_separator c [] refl
encode_from-no_separator (c ∷ h1 ∷ []) =
    put_encoded-no_separator c (encode_from query_legacy (h1 ∷ []))
      (encode_from-no_separator (h1 ∷ []))
encode_from-no_separator (c ∷ h1 ∷ h2 ∷ r) = elim (Bool-cases (is_escape c h1 h2)) [
  | inl e ↦
      rw (e, encode_from)
        (escape-no_separator c h1 h2 (encode_from query_legacy r) e (encode_from-no_separator r))
  | inr e ↦
      rw (e, encode_from)
        (put_encoded-no_separator c (encode_from query_legacy (h1 ∷ h2 ∷ r))
          (encode_from-no_separator (h1 ∷ h2 ∷ r)))
]

module _ {w : World} (enc : EncodingRs w.Decoder) (law : Documented enc) (blind : EncodesOnly enc)
    (m : Machine w) (input : Ptr) (input_ne_null : input ≢ null) (len : ℕ) (label : Ptr)
    (label_ne_null : label ≢ null) (label_len : ℕ) (label_len_ne_zero : label_len ≢ 0) (buf : Ptr)
    (buf_ne_null : some buf ≢ some null) (e : enc.Encoding) where
  abbrev xs : List ℕ
  xs = read_slice m.bytes input len

  abbrev name : List ℕ
  name = read_slice m.bytes label label_len

  abbrev bytes : List ℕ
  bytes =
      let c =
        enc.encode_from_utf8 (enc.new_encoder e) xs (blank (max_length enc e (length xs))) true in
      take c.written c.output

  -- the label is of an encoding that is neither called `UTF-8` nor is it, and the query is UTF-8 and
  -- is encoded whole in the buffer
  pub record Legacy : Type 0 where
    pub other : eql name utf_8_label ≡ false
    pub known : enc.for_label name ≡ some e
    pub room : max_length enc e (length xs) ≢ 0
    pub utf_8 : from_utf8_ok xs ≡ true
    pub not_utf_8 : enc.address e ≢ enc.address enc.utf_8
    pub fits :
        (enc.encode_from_utf8
          (enc.new_encoder e)
          xs
          (blank (max_length enc e (length xs)))
          true).result
        ≡ input_empty

  ideal_legacy :
      Legacy → ideal_query enc true name xs ≡ some (percent_encode_freed query_legacy bytes)
  unfolding ideal_query
  ideal_legacy g = rw g.other (
      rw g.known (
        rw (==_ne (max_length enc e (length xs)) 0 g.room) (
          rw g.utf_8
            (rw (==_ne (enc.address e) (enc.address enc.utf_8) g.not_utf_8) (rw g.fits refl)))))

  abbrev Gives : Slice → Type 0
  Gives r =
      (m' : Machine w) × (encode_query_string enc (some buf) input len label label_len m
        ≡ returned (some r) m')

  gives : Legacy → Gives (percent_encode_freed query_legacy bytes)
  gives g =
      let f =
        encode_query_string-ideal enc law blind m input input_ne_null len label label_ne_null
          label_len label_len_ne_zero (some buf) buf_ne_null in
      (f.0, f.1 ∙ ap (λ o. returned o f.0) (ideal_legacy g))

  -- Given what encoding_rs documents, its encoders not reading the buffer that they write among it,
  -- pointers that are not null, a label of an encoding that is neither called `UTF-8` nor is it,
  -- and a query of UTF-8 that is encoded whole in the buffer: where a byte of the encoded query
  -- needs percent encoding, what `encodeQueryString` gives has no `&` and no `;`, those that
  -- separate the fields of the query included.
  pub encode_query_string-no_separator :
      Legacy
      → needs_encoding query_legacy bytes ≡ true
      → (q : List ℕ) × (m' : Machine w) × (encode_query_string enc
            (some buf)
            input
            len
            label
            label_len
            m
          ≡ returned (some (live q)) m')
        × (has_separator q ≡ false)
  unfolding percent_encode_freed
  encode_query_string-no_separator g some_byte =
      let r = gives g in
      (
        percent_encode_segment query_legacy bytes,
        r.0,
        r.1 ∙ rw some_byte refl,
        ap has_separator (percent_encode_segment_lem query_legacy bytes)
            ∙ encode_from-no_separator bytes,
      )

  -- Given what encoding_rs documents, its encoders not reading the buffer that they write among it,
  -- pointers that are not null, a label of an encoding that is neither called `UTF-8` nor is it,
  -- and a query of UTF-8 that is encoded whole in the buffer: where no byte of the encoded query
  -- needs percent encoding, what `encodeQueryString` gives is a slice of the buffer that it has
  -- freed, as long as the encoded query.
  pub encode_query_string-freed :
      Legacy
      → needs_encoding query_legacy bytes ≡ false
      → (m' : Machine w) × (encode_query_string enc (some buf) input len label label_len m
          ≡ returned (some (freed (length bytes))) m')
  unfolding percent_encode_freed
  encode_query_string-freed g no_byte = let r = gives g in (r.0, r.1 ∙ rw no_byte refl)
