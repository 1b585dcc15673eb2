-- ===== src/Percent/Query.antt =====
-- `encodeQueryString` of browser/URL.zig over the encoding functions of html5ever/lib.rs, against its
-- meaning with no handles and buffers.
use zenpanda.Prelude.{
  ℕ, ◌*◌, ◌%◌, ◌≡◌, List, length, take, Option, none, some, Bool, true, not, ◌==◌, ltb,
  if◌then◌else◌,
}
use zenpanda.EncodingRs.{EncodingRs, CoderResult, input_empty, output_full}
use zenpanda.Utf8.{from_utf8_ok}
use zenpanda.Encoding.{saturating_mul, usize_mod}
use zenpanda.TextDecoder.{eql}
use zenpanda.TextDecoder.Ideal.{blank}
use zenpanda.Percent.{
  query, query_legacy, percent_encode_segment, utf_8_label, Slice, live, percent_encode_freed,
}

-- An encoder does not read the buffer that it writes: this is documented of encoding_rs.
pub record EncodesOnly {D : Type 0} (enc : EncodingRs D) : Type 0 where
  pub status :
      (e : enc.Encoder) (xs out : List ℕ) (last : Bool)
      → (enc.encode_from_utf8 e xs (blank (length out)) last).result
        ≡ (enc.encode_from_utf8 e xs out last).result
  pub result :
      (e : enc.Encoder) (xs out : List ℕ) (last : Bool)
      → let c = enc.encode_from_utf8 e xs (blank (length out)) last in
        let c' = enc.encode_from_utf8 e xs out last in
        take c.written c.output ≡ take c'.written c'.output

module _ {D : Type 0} (enc : EncodingRs D) where
  abbrev pub max_length : enc.Encoding → ℕ → ℕ
  max_length e n = elim (enc.max_buffer_length_from_utf8_if_no_unmappables (enc.new_encoder e) n) [
    | some len ↦ saturating_mul len 2
    | none ↦ (n * 10) % usize_mod
  ]

  -- the bytes of a text in an encoding, if they fit in the buffer
  abbrev pub bytes_if : CoderResult → List ℕ → Option (List ℕ)
  bytes_if input_empty xs = some xs
  bytes_if output_full xs = none

  abbrev pub ideal_bytes : enc.Encoding → List ℕ → ℕ → Option (List ℕ)
  ideal_bytes e xs n =
      if not (from_utf8_ok xs)
      then none
      else if enc.address e == enc.address enc.utf_8
      then (if ltb n (length xs) then none else some xs)
      else (let c = enc.encode_from_utf8 (enc.new_encoder e) xs (blank n) true in
          bytes_if c.result (take c.written c.output))

  abbrev pub ideal_encoded : List ℕ → Option (List ℕ) → Slice
  ideal_encoded xs none = live (percent_encode_segment query xs)
  ideal_encoded xs (some bs) = percent_encode_freed query_legacy bs

  abbrev pub ideal_in : Bool → List ℕ → Option enc.Encoding → Option Slice
  ideal_in memory xs none = some (live (percent_encode_segment query xs))
  ideal_in memory xs (some e) =
      if max_length e (length xs) == 0
      then some (live (percent_encode_segment query xs))
      else if memory
      then some (ideal_encoded xs (ideal_bytes e xs (max_length e (length xs))))
      else none

  -- The query as it is, in the encoding of this label, or as UTF-8 where that cannot be.
  unfoldable pub ideal_query : Bool → List ℕ → List ℕ → Option Slice
  unfolding blank
  ideal_query memory label xs =
      if eql label utf_8_label
      then some (live (percent_encode_segment query xs))
      else ideal_in memory xs (enc.for_label label)
