-- ===== src/Encoding/Labels.antt =====
-- The handles that `encoding_for_label` of html5ever/lib.rs gives out, in the functions that take
-- them, and the size of the buffers that a caller asks for.
use zenpanda.Prelude.{
  ℕ, ◌+◌, ◌*◌, ◌%◌, ◌≤◌, ◌<◌, ◌≡◌, ◌≢◌, refl, Option, none, some, true, arith, ◌==◌, ==_ne, ◌||◌,
  ◌⊎◌, inl, inr, length, Bool-cases,
}
use zenpanda.Html5ever.{Ptr, null}
use zenpanda.EncodingRs.{EncodingRs}
use zenpanda.Memory.{read_slice}
use zenpanda.Utf8.{from_utf8_ok}
use zenpanda.Machine.{World, decoder, Machine, returned, alloc}
use zenpanda.Machine.Slices.{from_raw_parts_lem}
use zenpanda.Encoding.{
  EncodingInfo, not_found, decode_refused, encode_refused, usize_mod, saturating_mul,
  encoding_for_label, encoding_decoder_new, encoding_decode, encoding_decoder_decode,
  encoding_encode_with_ncr, encoding_max_utf8_buffer_length, encoding_max_encode_buffer_length,
  encoding_decoder_free,
}
use zenpanda.Encoding.Handles.{deref_lem}
use zenpanda.Encoding.Bounds.{Documented}
use zenpanda.Encoding.Encode.{encode_utf_8-copy}

saturating : (len : ℕ) → saturating_mul len 2 ≤ len * 2
unfolding saturating_mul
saturating len = omega arith

enough : (n len : ℕ) → n ≤ len → n < usize_mod → n ≤ saturating_mul len 2
unfolding saturating_mul
enough n len l u = omega arith

module _ {w : World} (enc : EncodingRs w.Decoder) (m : Machine w) where
  for_label_lem :
      (label : Ptr) (n : ℕ) (o : Option enc.Encoding)
      → label ≢ null
      → n ≢ 0
      → enc.for_label (read_slice m.bytes label n) ≡ o
      → encoding_for_label enc label n m
        ≡ returned
            (elim o [
              | some e ↦ record {
                found = 1;
                name_len = length (enc.name e).text;
                name_ptr = (enc.name e).at;
                handle = enc.address e;
              }
              | none ↦ not_found
            ])
            m
  unfolding encoding_for_label
  for_label_lem label n o hl hn eq =
      rw (==_ne label null hl, ==_ne n 0 hn) (rw (from_raw_parts_lem m label n hl) (rw eq refl))

  -- Given what encoding_rs documents: for a label that it knows, `encoding_for_label` reports that
  -- and the place and length of the encoding's name, and `encoding_decoder_new` on the handle that
  -- it gives makes a decoder of that encoding.
  pub for_label-decoder_new :
      (label : Ptr) (n : ℕ) (e : enc.Encoding)
      → Documented enc
      → label ≢ null
      → n ≢ 0
      → enc.for_label (read_slice m.bytes label n) ≡ some e
      → (i : EncodingInfo) × (encoding_for_label enc label n m ≡ returned i m)
        × (i.found ≡ 1)
        × (i.name_ptr ≡ (enc.name e).at)
        × (i.name_len ≡ length (enc.name e).text)
        × (encoding_decoder_new enc i.handle m ≡ alloc (decoder (enc.new_decoder e)) m)
  unfolding encoding_decoder_new
  for_label-decoder_new label n e law hl hn eq = (
    record {
      found = 1;
      name_len = length (enc.name e).text;
      name_ptr = (enc.name e).at;
      handle = enc.address e;
    },
    for_label_lem label n (some e) hl hn eq,
    refl,
    refl,
    refl,
    rw (==_ne (enc.address e) null (law.address_ne_null e))
        (rw (deref_lem enc m (enc.address e) e (law.at_address-address e))),
  )

  unknown_label :
      (label : Ptr) (n : ℕ)
      → (label ≡ null) ⊎ (n ≡ 0) ⊎ (enc.for_label (read_slice m.bytes label n) ≡ none)
      → encoding_for_label enc label n m ≡ returned not_found m
  unknown_label label n h = elim (Bool-cases (label == null || n == 0)) [
    | inl e ↦ unfold encoding_for_label in rw e refl
    | inr e ↦ elim h [
      | inl z ↦ absurd (ground (arith, z, e))
      | inr (inl z) ↦ absurd (ground (arith, z, e))
      | inr (inr z) ↦
          for_label_lem label n none (λ y. absurd (ground (arith, y, e)))
            (λ y. absurd (ground (arith, y, e))) z
    ]
  ]

  -- For a label that is null, empty or unknown, `encoding_for_label` reports that none was found,
  -- with a handle on which every other function of the encoding interface returns the result of a
  -- refusal and changes nothing.
  pub for_label-unknown :
      (label : Ptr) (n : ℕ) (input output : Ptr) (len cap last : ℕ)
      → (label ≡ null) ⊎ (n ≡ 0) ⊎ (enc.for_label (read_slice m.bytes label n) ≡ none)
      → (i : EncodingInfo) × (encoding_for_label enc label n m ≡ returned i m)
        × (i.found ≡ 0)
        × (encoding_decoder_new enc i.handle m ≡ returned null m)
        × (encoding_max_utf8_buffer_length enc i.handle n m ≡ returned 0 m)
        × (encoding_max_encode_buffer_length enc i.handle n m ≡ returned 0 m)
        × (encoding_decode enc i.handle input len output cap last m ≡ returned decode_refused m)
        × (encoding_encode_with_ncr enc i.handle input len output cap m ≡ returned encode_refused m)
        × (encoding_decoder_decode enc null input len output cap last m ≡ returned decode_refused m)
        × (encoding_decoder_free null m ≡ returned tt m)
  unfolding encoding_decoder_new encoding_max_utf8_buffer_length encoding_decode
      encoding_max_encode_buffer_length encoding_encode_with_ncr encoding_decoder_decode
      encoding_decoder_free
  for_label-unknown label n input output len cap last h =
      (not_found, unknown_label label n h, refl, refl, refl, refl, refl, refl, refl, refl)

module _ {w : World} (enc : EncodingRs w.Decoder) (law : Documented enc) (m : Machine w)
    (e : enc.Encoding) (n : ℕ) where
  pub max_lem :
      (o : Option ℕ)
      → enc.max_buffer_length_from_utf8_if_no_unmappables (enc.new_encoder e) n ≡ o
      → encoding_max_encode_buffer_length enc (enc.address e) n m
        ≡ returned (elim o [ some len ↦ saturating_mul len 2 | none ↦ (n * 10) % usize_mod ]) m
  unfolding encoding_max_encode_buffer_length
  max_lem o eq =
      rw (==_ne (enc.address e) null (law.address_ne_null e))
        (rw (deref_lem enc m (enc.address e) e (law.at_address-address e)) (rw eq refl))

  -- For an encoding whose bound without unmappable characters is ten above the length of the input,
  -- and an input of more than ten characters of two bytes, `encoding_max_encode_buffer_length`
  -- gives less than six bytes a character, which is the shortest numeric character reference of
  -- such a character.
  pub max_encode_buffer_length-too_small :
      (k : ℕ)
      → enc.max_buffer_length_from_utf8_if_no_unmappables (enc.new_encoder e) n ≡ some (n + 10)
      → n ≡ k * 2
      → 10 < k
      → (r : ℕ) × (encoding_max_encode_buffer_length enc (enc.address e) n m ≡ returned r m)
        × (r < k * 6)
  max_encode_buffer_length-too_small k eq two long =
      (saturating_mul (n + 10) 2, max_lem (some (n + 10)) eq, omega (arith, saturating (n + 10)))

module _ {w : World} (enc : EncodingRs w.Decoder) (law : Documented enc) (m : Machine w)
    (n : ℕ) where
  -- Given what encoding_rs documents: where its bound for UTF-8 is at least the length of the
  -- input, which is below 2 ^ 64, a buffer of the size that `encoding_max_encode_buffer_length`
  -- gives is enough: `encoding_encode_with_ncr` into it copies well-formed input whole with status
  -- 0.
  pub encode_in_max_buffer :
      (input output : Ptr) (len : ℕ)
      → enc.max_buffer_length_from_utf8_if_no_unmappables (enc.new_encoder enc.utf_8) n ≡ some len
      → n ≤ len
      → n < usize_mod
      → n ≢ 0
      → input ≢ null
      → output ≢ null
      → from_utf8_ok (read_slice m.bytes input n) ≡ true
      → (r : ℕ) × (m' : Machine w) × (encoding_max_encode_buffer_length enc
            (enc.address enc.utf_8)
            n
            m
          ≡ returned r m)
        × (encoding_encode_with_ncr enc (enc.address enc.utf_8) input n output r m
            ≡ returned (record { status = 0; bytes_read = n; bytes_written = n }) m')
        × (read_slice m'.bytes output n ≡ read_slice m.bytes input n)
  encode_in_max_buffer input output len eq l u hn hi ho ok =
      let r = saturating_mul len 2 in
      let done = encode_utf_8-copy enc law m input n output r ho hn hi ok (enough n len l u) in
      (r, done.0, max_lem enc law m enc.utf_8 n (some len) eq, done.1, done.2)
