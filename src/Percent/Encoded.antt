-- ===== src/Percent/Encoded.antt =====
-- `encodeQueryString` of browser/URL.zig computes what is meant.
use zenpanda.Prelude.{
  ℕ, ◌≡◌, ◌≢◌, refl, ap, ◌∙◌, sym, subst, List, [], length, take, Option, none, some, true, false,
  not, ◌==◌, ==_ne, ltb, ltb→lt, ==_iff, if◌then◌else◌, arith, Bool-cases, inl, inr,
}
use zenpanda.Html5ever.{Ptr, null}
use zenpanda.EncodingRs.{EncodingRs, Coded, CoderResult, input_empty, output_full}
use zenpanda.Utf8.{from_utf8_ok}
use zenpanda.Memory.{
  read_slice, write_slice, length-read_slice, read_slice-write_slice, read_slice-written,
}
use zenpanda.Machine.{
  World, Machine, Outcome, Run, returned, abort_on_panic, pure, and_then, from_raw_parts, ◌>>=◌,
}
use zenpanda.Machine.Slices.{from_raw_parts_lem}
use zenpanda.Encoding.{
  EncodeResult, encode_result, encode_refused, input_str, encode_utf_8, encode_legacy,
  encoding_for_label, encoding_encode_with_ncr,
}
use zenpanda.Encoding.Bounds.{Documented}
use zenpanda.Encoding.Branches.{utf_8_fits, utf_8_too_long, legacy_lem}
use zenpanda.Encoding.Encode.{encode, on_none, on_str}
use zenpanda.Encoding.Labels.{max_lem}
use zenpanda.TextDecoder.{eql}
use zenpanda.TextDecoder.Ideal.{blank, given}
use zenpanda.Percent.{
  query, query_legacy, percent_encode_segment, utf_8_label, Slice, live, percent_encode_freed,
  encode_query_string,
}
use zenpanda.Percent.Query.{
  EncodesOnly, max_length, bytes_if, ideal_bytes, ideal_encoded, ideal_in, ideal_query,
}

-- A status and the bytes of a result agree with the meaning of the call.
abbrev Agrees : {w : World} → Ptr → EncodeResult → Machine w → Option (List ℕ) → Type 0
Agrees buf r m none = (r.status == 0) ≡ false
Agrees buf r m (some bs) = ((r.status == 0) ≡ true) × (read_slice m.bytes buf r.bytes_written ≡ bs)

module _ {w : World} (enc : EncodingRs w.Decoder) (law : Documented enc) (blind : EncodesOnly enc)
    (m : Machine w) (input : Ptr) (input_ne_null : input ≢ null) (len : ℕ) where
  abbrev xs : List ℕ
  xs = read_slice m.bytes input len

  no_text : len ≡ 0 → xs ≡ []
  unfolding read_slice
  no_text z = ap (read_slice m.bytes input) z

  str_ok : from_utf8_ok xs ≡ true → input_str input len m ≡ returned (some xs) m
  unfolding input_str
  str_ok ok = elim (Bool-cases (len == 0)) [
    | inl z ↦
        rw (==_ne input null input_ne_null, z)
          (ap (λ ys. returned (some ys) m) (sym (no_text ((==_iff len 0).0 z))))
    | inr z ↦
        rw (==_ne input null input_ne_null, z)
          (rw (from_raw_parts_lem m input len input_ne_null) (rw ok refl))
  ]

  some_text : from_utf8_ok xs ≡ false → (len == 0) ≡ false
  unfolding from_utf8_ok
  some_text bad = elim (Bool-cases (len == 0)) [
    | inl z ↦
        let no : true ≡ false = sym (ap from_utf8_ok (no_text ((==_iff len 0).0 z))) ∙ bad in
        absurd cc
    | inr z ↦ z
  ]

  str_bad : from_utf8_ok xs ≡ false → input_str input len m ≡ returned none m
  unfolding input_str
  str_bad bad =
      rw (==_ne input null input_ne_null, some_text bad)
        (rw (from_raw_parts_lem m input len input_ne_null) (rw bad refl))

  module _ (buf : Ptr) (buf_ne_null : buf ≢ null) (n : ℕ) (e : enc.Encoding) where
    record Encodes (o : Outcome (Machine w) EncodeResult) (b : Option (List ℕ)) : Type 0 where
      result : EncodeResult
      machine' : Machine w
      equation : o ≡ returned result machine'
      heap_eq : machine'.heap ≡ m.heap
      agrees : Agrees buf result machine' b

    refused :
        (o : Outcome (Machine w) EncodeResult) → o ≡ returned encode_refused m → Encodes o none
    refused o eq = record {
      result = encode_refused;
      machine' = m;
      equation = eq;
      heap_eq = refl;
      agrees = refl;
    }

    encode_utf_8-Encodes :
        Encodes
          (abort_on_panic (encode_utf_8 enc xs len buf n m))
          (if ltb n (length xs) then none else some xs)
    encode_utf_8-Encodes =
        let l : length xs ≡ len = length-read_slice m.bytes input len in
        elim (Bool-cases (ltb n len)) [
          | inl small ↦
              rw (l, small)
                (refused _ (rw (utf_8_too_long enc m xs len buf n (ltb→lt n len small)) refl))
          | inr fits ↦
              rw (l, fits)
                (record {
                  result = record { status = 0; bytes_read = len; bytes_written = len };
                  machine' = record m { bytes = write_slice m.bytes buf xs };
                  equation = rw (utf_8_fits enc m xs len buf n l (ground arith) buf_ne_null) refl;
                  heap_eq = refl;
                  agrees = (
                    refl,
                    subst (λ k. read_slice (write_slice m.bytes buf xs) buf k ≡ xs) l
                        (read_slice-write_slice m.bytes buf xs),
                  );
                })
        ]

    encode_result-Agrees :
        (c : Coded enc.Encoder) (k : CoderResult) (bs : List ℕ)
        → c.result ≡ k
        → read_slice (write_slice m.bytes buf c.output) buf c.written ≡ bs
        → Agrees buf
            (encode_result c)
            (record m { bytes = write_slice m.bytes buf c.output })
            (bytes_if enc k bs)
    unfolding encode_result
    encode_result-Agrees c input_empty bs z there = (rw z refl, there)
    encode_result-Agrees c output_full bs z there = rw z refl

    encode_legacy-Encodes : Encodes (abort_on_panic (encode_legacy enc e xs buf n m)) (
        let c = enc.encode_from_utf8 (enc.new_encoder e) xs (blank n) true in
        bytes_if enc c.result (take c.written c.output))
    encode_legacy-Encodes =
        let out = read_slice m.bytes buf n in
        let same : length out ≡ n = length-read_slice m.bytes buf n in
        let c = enc.encode_from_utf8 (enc.new_encoder e) xs out true in
        let b = law.encode_from_utf8 (enc.new_encoder e) xs out true in
        let status_eq =
          subst
            (λ k. (enc.encode_from_utf8 (enc.new_encoder e) xs (blank k) true).result ≡ c.result)
            same (blind.status (enc.new_encoder e) xs out true) in
        let text_eq =
          subst
            (λ k.
              let c' = enc.encode_from_utf8 (enc.new_encoder e) xs (blank k) true in
              take c'.written c'.output ≡ take c.written c.output)
            same (blind.result (enc.new_encoder e) xs out true) in
        record {
          result = encode_result c;
          machine' = record m { bytes = write_slice m.bytes buf c.output };
          equation = rw (legacy_lem enc m e xs buf n buf_ne_null) refl;
          heap_eq = refl;
          agrees =
              rw (status_eq, text_eq)
                (encode_result-Agrees c c.result (take c.written c.output) refl (
                  read_slice-written m.bytes buf c.written c.output
                    (omega (arith, b.written, b.output_length))));
        }

    encode-Encodes :
        Encodes (encode enc law m input len buf n buf_ne_null e) (ideal_bytes enc e xs n)
    encode-Encodes = elim (Bool-cases (from_utf8_ok xs)) [
      | inl ok ↦ elim (Bool-cases (enc.address e == enc.address enc.utf_8)) [
        | inl u ↦ rw ok (
            rw u (
              rw (on_str enc law m input len buf n buf_ne_null e xs (str_ok ok))
                (rw u encode_utf_8-Encodes)))
        | inr o ↦ rw ok (
            rw o (
              rw (on_str enc law m input len buf n buf_ne_null e xs (str_ok ok))
                (rw o encode_legacy-Encodes)))
      ]
      | inr bad ↦ rw bad (refused _ (on_none enc law m input len buf n buf_ne_null e (str_bad bad)))
    ]

    -- the outcome of `encodeQueryString` from that of the coder on
    record AsMeant (o : Outcome (Machine w) (Option Slice)) (r : Option Slice) : Type 0 where
      machine' : Machine w
      equation : o ≡ returned r machine'
      heap_eq : machine'.heap ≡ m.heap

    abbrev from_result : EncodeResult → Run w (Option Slice)
    from_result result =
        if not (result.status == 0)
        then pure (some (live (percent_encode_segment query xs)))
        else from_raw_parts buf result.bytes_written >>= λ encoded_bytes.
            pure (some (percent_encode_freed query_legacy encoded_bytes))

    result_lem :
        (o : Outcome (Machine w) EncodeResult) (b : Option (List ℕ))
        → Encodes o b
        → AsMeant (and_then o from_result) (some (ideal_encoded enc xs b))
    result_lem o none f = record {
      machine' = f.machine';
      equation = rw f.equation (rw f.agrees refl);
      heap_eq = f.heap_eq;
    }
    result_lem o (some bs) f = record {
      machine' = f.machine';
      equation = rw f.equation (
          rw f.agrees.0 (
            rw (from_raw_parts_lem f.machine' buf f.result.bytes_written buf_ne_null) (
              ap (λ ys. returned (some (percent_encode_freed query_legacy ys)) f.machine')
                f.agrees.1)));
      heap_eq = f.heap_eq;
    }

module _ {w : World} (enc : EncodingRs w.Decoder) (law : Documented enc) (blind : EncodesOnly enc)
    (m : Machine w) (input : Ptr) (input_ne_null : input ≢ null) (len : ℕ) (label : Ptr)
    (label_ne_null : label ≢ null) (label_len : ℕ) (label_len_ne_zero : label_len ≢ 0)
    (alloc_buf : Option Ptr) (buf_ne_null : alloc_buf ≢ some null) where
  abbrev text : List ℕ
  text = read_slice m.bytes input len

  abbrev name : List ℕ
  name = read_slice m.bytes label label_len

  abbrev encoded : Outcome (Machine w) (Option Slice)
  encoded = encode_query_string enc alloc_buf input len label label_len m

  abbrev Means : Outcome (Machine w) (Option Slice) → Option Slice → Type 0
  Means o r = (m' : Machine w) × (o ≡ returned r m') × (m'.heap ≡ m.heap)

  -- from the length of the buffer on
  abbrev from_length : enc.Encoding → Option Ptr → ℕ → Run w (Option Slice)
  from_length e alloc n =
      if n == 0 then pure (some (live (percent_encode_segment query text))) else elim alloc [
        | none ↦ pure none
        | some buf ↦ encoding_encode_with_ncr enc (enc.address e) input len buf n >>= λ result.
            if not (result.status == 0)
            then pure (some (live (percent_encode_segment query text)))
            else from_raw_parts buf result.bytes_written >>= λ encoded_bytes.
                pure (some (percent_encode_freed query_legacy encoded_bytes))
      ]

  abbrev meant : enc.Encoding → Option Ptr → ℕ → Option Slice
  meant e alloc n =
      if n == 0
      then some (live (percent_encode_segment query text))
      else if given alloc
      then some (ideal_encoded enc text (ideal_bytes enc e text n))
      else none

  length_lem :
      (e : enc.Encoding) (alloc : Option Ptr)
      → alloc ≢ some null
      → (n : ℕ) → Means (from_length e alloc n m) (meant e alloc n)
  length_lem e none ne n = elim (Bool-cases (n == 0)) [
    | inl z ↦ rw z (m, refl, refl)
    | inr z ↦ rw z (m, refl, refl)
  ]
  length_lem e (some buf) ne n = elim (Bool-cases (n == 0)) [
    | inl z ↦ rw z (m, refl, refl)
    | inr z ↦
        let buf_ne : buf ≢ null = λ q. ne (ap some q) in
        let f =
          result_lem enc law blind m input input_ne_null len buf buf_ne n e _
            (ideal_bytes enc e text n)
            (encode-Encodes enc law blind m input input_ne_null len buf buf_ne n e) in
        rw z (f.machine', f.equation, f.heap_eq)
  ]

  known_lem :
      (e : enc.Encoding) (alloc : Option Ptr)
      → enc.for_label name ≡ some e
      → eql name utf_8_label ≡ false
      → encode_query_string enc alloc input len label label_len m
        ≡ from_length e alloc (max_length enc e len) m
  unfolding encode_query_string encoding_for_label
  known_lem e none known other = rw (from_raw_parts_lem m input len input_ne_null) (
      rw (from_raw_parts_lem m label label_len label_ne_null) (
        rw other (
          rw (==_ne label null label_ne_null, ==_ne label_len 0 label_len_ne_zero)
            (rw (from_raw_parts_lem m label label_len label_ne_null)
              (rw known (rw (max_lem enc law m e len _ refl) refl))))))
  known_lem e (some buf) known other = rw (from_raw_parts_lem m input len input_ne_null) (
      rw (from_raw_parts_lem m label label_len label_ne_null) (
        rw other (
          rw (==_ne label null label_ne_null, ==_ne label_len 0 label_len_ne_zero)
            (rw (from_raw_parts_lem m label label_len label_ne_null)
              (rw known (rw (max_lem enc law m e len _ refl) refl))))))

  in_lem :
      (o : Option enc.Encoding)
      → enc.for_label name ≡ o
      → eql name utf_8_label ≡ false
      → Means encoded (ideal_in enc (given alloc_buf) text o)
  unfolding encode_query_string encoding_for_label
  in_lem none known other = (
    m,
    rw (from_raw_parts_lem m input len input_ne_null) (
        rw (from_raw_parts_lem m label label_len label_ne_null) (
          rw other (
            rw (==_ne label null label_ne_null, ==_ne label_len 0 label_len_ne_zero)
              (rw (from_raw_parts_lem m label label_len label_ne_null) (rw known refl))))),
    refl,
  )
  in_lem (some e) known other =
      let l : length text ≡ len = length-read_slice m.bytes input len in
      rw (known_lem e alloc_buf known other) (
        subst
          (λ k.
            Means (from_length e alloc_buf (max_length enc e len) m)
              (meant e alloc_buf (max_length enc e k)))
          (sym l) (length_lem e alloc_buf buf_ne_null (max_length enc e len)))

  pub encode_query_string-ideal :
      (m' : Machine w) × (encode_query_string enc alloc_buf input len label label_len m
        ≡ returned
            (ideal_query enc
              (given alloc_buf)
              (read_slice m.bytes label label_len)
              (read_slice m.bytes input len))
            m')
      × (m'.heap ≡ m.heap)
  unfolding encode_query_string ideal_query
  encode_query_string-ideal = elim (Bool-cases (eql name utf_8_label)) [
    | inl same ↦ (
      m,
      rw (from_raw_parts_lem m input len input_ne_null)
          (rw (from_raw_parts_lem m label label_len label_ne_null) (rw same refl)),
      refl,
    )
    | inr other ↦ rw other (in_lem (enc.for_label name) refl other)
  ]
