-- ===== src/Encoding/Encode.antt =====
-- `encoding_encode_with_ncr` of html5ever/lib.rs, on each of its branches.
use zenpanda.Prelude.{
  ℕ, ◌≤◌, ◌≡◌, ◌≢◌, refl, List, [], none, some, true, false, arith, ◌==◌, ==_ne, ==_refl,
  if◌then◌else◌, ◌⊎◌, inl, inr, length, subst, Bool-cases, ltb, ltb→lt,
}
use zenpanda.Html5ever.{Ptr, null}
use zenpanda.EncodingRs.{EncodingRs}
use zenpanda.Memory.{read_slice, write_slice, length-read_slice, read_slice-write_slice}
use zenpanda.Utf8.{from_utf8_ok}
use zenpanda.Machine.{World, Machine, Outcome, abort_on_panic, returned, panicked, aborted}
use zenpanda.Machine.Slices.{from_raw_parts_lem}
use zenpanda.Encoding.{
  EncodeResult, encode_result, encode_refused, input_str, encode_utf_8, encode_legacy,
  copy_from_slice, encoding_encode_with_ncr,
}
use zenpanda.Encoding.Handles.{deref_lem}
use zenpanda.Encoding.Bounds.{Documented, Confined, Confined-none, Confined-write}
use zenpanda.Encoding.Branches.{str_lem, utf_8_fits, utf_8_too_long, legacy_lem}

module _ {w : World} (enc : EncodingRs w.Decoder) (law : Documented enc) (m : Machine w)
    (input : Ptr) (input_len : ℕ) (output : Ptr) (capacity : ℕ)
    (output_ne_null : output ≢ null) where
  abbrev pub encode : enc.Encoding → Outcome (Machine w) EncodeResult
  encode e = encoding_encode_with_ncr enc (enc.address e) input input_len output capacity m

  -- An outcome with counts in their bounds, and no more changed than the output buffer.
  pub record Encoded (o : Outcome (Machine w) EncodeResult) : Type 0 where
    pub result : EncodeResult
    pub machine' : Machine w
    pub equation : o ≡ returned result machine'
    pub read : result.bytes_read ≤ input_len
    pub written : result.bytes_written ≤ capacity
    pub confined : Confined m machine' output capacity

  refused : (o : Outcome (Machine w) EncodeResult) → o ≡ returned encode_refused m → Encoded o
  refused o e = record {
    result = encode_refused;
    machine' = m;
    equation = e;
    read = omega arith;
    written = omega arith;
    confined = Confined-none m output capacity;
  }

  module _ (e : enc.Encoding) where
    -- The function on a string, after its input has been read.
    pub on_str :
        (s : List ℕ)
        → input_str input input_len m ≡ returned (some s) m
        → (encode e)
          ≡ abort_on_panic (
              (if enc.address e == enc.address enc.utf_8
                  then encode_utf_8 enc s input_len output capacity
                  else encode_legacy enc e s output capacity)
                m)
    unfolding encoding_encode_with_ncr
    on_str s str =
        rw (==_ne (enc.address e) null (law.address_ne_null e), ==_ne output null output_ne_null)
          (rw (deref_lem enc m (enc.address e) e (law.at_address-address e)) (rw str))

    pub on_none :
        input_str input input_len m ≡ returned none m → encode e ≡ returned encode_refused m
    unfolding encoding_encode_with_ncr
    on_none str =
        rw (==_ne (enc.address e) null (law.address_ne_null e), ==_ne output null output_ne_null)
          (rw (deref_lem enc m (enc.address e) e (law.at_address-address e)) (rw str))

    encode_utf_8-Encoded :
        (s : List ℕ)
        → length s ≡ input_len
        → Encoded (abort_on_panic (encode_utf_8 enc s input_len output capacity m))
    encode_utf_8-Encoded s l = elim (Bool-cases (ltb capacity input_len)) [
      | inl small ↦
          refused _ (
            rw (utf_8_too_long enc m s input_len output capacity (ltb→lt capacity input_len small)))
      | inr fits ↦ record {
        result = record { status = 0; bytes_read = input_len; bytes_written = input_len };
        machine' = record m { bytes = write_slice m.bytes output s };
        equation =
            rw (utf_8_fits enc m s input_len output capacity l (ground arith) output_ne_null);
        read = omega arith;
        written = ground arith;
        confined = Confined-write m output capacity s (ground arith);
      }
    ]

    encode_legacy-Encoded :
        (s : List ℕ)
        → length s ≡ input_len
        → Encoded (abort_on_panic (encode_legacy enc e s output capacity m))
    encode_legacy-Encoded s l =
        let out = read_slice m.bytes output capacity in
        let c = enc.encode_from_utf8 (enc.new_encoder e) s out true in
        let b = law.encode_from_utf8 (enc.new_encoder e) s out true in
        let n = length-read_slice m.bytes output capacity in
        record {
          result = encode_result c;
          machine' = record m { bytes = write_slice m.bytes output c.output };
          equation = rw (legacy_lem enc m e s output capacity output_ne_null);
          read = unfold encode_result in omega (arith, b.read, l);
          written = unfold encode_result in omega (arith, b.written, n);
          confined = Confined-write m output capacity c.output (omega (arith, b.output_length, n));
        }

    -- Given the documented bounds of encoding_rs, an output pointer that is not null, and an input
    -- pointer that is null only with length 0: `encoding_encode_with_ncr` returns for every
    -- encoding and every input, it reports no more bytes read than the input has and no more
    -- written than the capacity, and it changes nothing but bytes of the output buffer.
    pub encode-Confined : (input ≢ null) ⊎ (input_len ≡ 0) → Encoded (encode e)
    encode-Confined h = elim (str_lem m input input_len h) [
      | inl str ↦ refused (encode e) (on_none str)
      | inr (s, str, l) ↦ elim (Bool-cases (enc.address e == enc.address enc.utf_8)) [
        | inl same ↦ rw (on_str s str) (rw same (encode_utf_8-Encoded s l))
        | inr other ↦ rw (on_str s str) (rw other (encode_legacy-Encoded s l))
      ]
    ]

  module _ (len_ne_zero : input_len ≢ 0) where
    utf_8_lem :
        (s : List ℕ)
        → input_str input input_len m ≡ returned (some s) m
        → encode enc.utf_8 ≡ abort_on_panic (encode_utf_8 enc s input_len output capacity m)
    utf_8_lem s str = rw (on_str enc.utf_8 s str) (rw (==_refl (enc.address enc.utf_8)))

    text_lem :
        input ≢ null
        → from_utf8_ok (read_slice m.bytes input input_len) ≡ true
        → input_str input input_len m ≡ returned (some (read_slice m.bytes input input_len)) m
    unfolding input_str
    text_lem ne ok =
        rw (==_ne input null ne, ==_ne input_len 0 len_ne_zero)
          (rw (from_raw_parts_lem m input input_len ne) (rw ok))

    -- Given what encoding_rs documents: for UTF-8 itself, input that is well formed and not empty,
    -- and a buffer that it fits in, `encoding_encode_with_ncr` returns status 0 with both counts
    -- the length of the input, the buffer reads as the input, and nothing outside it changes.
    pub encode_utf_8-copy :
        input ≢ null
        → from_utf8_ok (read_slice m.bytes input input_len) ≡ true
        → input_len ≤ capacity
        → (m' : Machine w) × (encode enc.utf_8
            ≡ returned
                (record { status = 0; bytes_read = input_len; bytes_written = input_len })
                m')
          × (read_slice m'.bytes output input_len ≡ read_slice m.bytes input input_len)
          × Confined m m' output capacity
    encode_utf_8-copy ne ok fits =
        let s = read_slice m.bytes input input_len in
        let n = length-read_slice m.bytes input input_len in
        (
          record m { bytes = write_slice m.bytes output s },
          rw (utf_8_lem s (text_lem ne ok))
              (rw (utf_8_fits enc m s input_len output capacity n fits output_ne_null)),
          subst (λ k. read_slice (write_slice m.bytes output s) output k ≡ s) n
              (read_slice-write_slice m.bytes output s),
          Confined-write m output capacity s (omega (arith, n, fits)),
        )

    empty_lem : input ≡ null → input_str input input_len m ≡ returned (some []) m
    unfolding input_str
    empty_lem is_null = rw is_null refl

    mismatch : input_len ≤ capacity → encode_utf_8 enc [] input_len output capacity m ≡ panicked m
    unfolding encode_utf_8 copy_from_slice
    mismatch fits =
        let no : ltb capacity input_len ≡ false = ground arith in
        rw (no, ==_ne input_len 0 len_ne_zero) refl

    -- Given what encoding_rs documents: for UTF-8, an input that is null with a length that is not
    -- 0 and fits in the buffer, `encoding_encode_with_ncr` aborts the process: it takes the input
    -- for empty and copies it to a slice of that length.
    pub encode_utf_8-null : input ≡ null → input_len ≤ capacity → encode enc.utf_8 ≡ aborted
    encode_utf_8-null is_null fits = rw (utf_8_lem [] (empty_lem is_null)) (rw (mismatch fits))
