-- ===== src/Encoding/Bounds.antt =====
-- Which memory the encoding functions of html5ever/lib.rs write, and what counts they report, given
-- what the documentation of encoding_rs says of its coders.
use zenpanda.Prelude.{
  ℕ, ◌+◌, ◌≤◌, ◌<◌, ◌≡◌, ◌≢◌, refl, Bool, false, List, some, not, arith, ◌==◌, ==_ne, ◌||◌, ◌⊎◌,
  inl, inr, length, Bool-cases,
}
use zenpanda.Html5ever.{Ptr, null}
use zenpanda.EncodingRs.{EncodingRs, Coded}
use zenpanda.Memory.{Bytes, read_slice, write_slice, length-read_slice, write_slice_outside}
use zenpanda.Machine.{World, Machine, returned}
use zenpanda.Machine.Slices.{from_raw_parts_lem, write_parts_lem}
use zenpanda.Encoding.{DecodeResult, decode_result, encoding_decode}
use zenpanda.Encoding.Handles.{deref_lem, input_of, input_lem}

-- What a coder does to a buffer: it fills no more of it than there is, and consumes no more input
-- than it was given.
pub record Bounded {S : Type 0} (c : Coded S) (input output : List ℕ) : Type 0 where
  pub read : c.read ≤ length input
  pub written : c.written ≤ length output
  pub output_length : length c.output ≡ length output

pub record Documented {D : Type 0} (enc : EncodingRs D) : Type 0 where
  pub address_ne_null : (e : enc.Encoding) → enc.address e ≢ null
  pub at_address-address : (e : enc.Encoding) → enc.at_address (enc.address e) ≡ some e
  pub finished-new_decoder : (e : enc.Encoding) → enc.finished (enc.new_decoder e) ≡ false
  -- only a call with the last input ends the stream
  pub finished-decode_to_utf8 :
      (d : D) (xs out : List ℕ)
      → enc.finished d ≡ false
      → enc.finished (enc.decode_to_utf8 d xs out false).state ≡ false
  pub decode_to_utf8 :
      (d : D) (xs out : List ℕ) (last : Bool) → Bounded (enc.decode_to_utf8 d xs out last) xs out
  pub encode_from_utf8 :
      (e : enc.Encoder) (xs out : List ℕ) (last : Bool)
      → Bounded (enc.encode_from_utf8 e xs out last) xs out

pub length-input_of : (b : Bytes) (p n : ℕ) → length (input_of b p n) ≤ n
length-input_of b p n = elim (Bool-cases (p == null || n == 0)) [
  | inl e ↦ rw e (omega arith)
  | inr e ↦ rw e (omega (arith, length-read_slice b p n))
]

module _ {w : World} where
  -- Between the two machines nothing but the bytes of the buffer has changed.
  pub record Confined (m m' : Machine w) (output : Ptr) (capacity : ℕ) : Type 0 where
    pub outside : (q : Ptr) → (q < output) ⊎ (output + capacity ≤ q) → m'.bytes q ≡ m.bytes q
    pub heap_eq : m'.heap ≡ m.heap
    pub next_eq : m'.next ≡ m.next
    pub client_eq : m'.client ≡ m.client

  pub Confined-none : (m : Machine w) (output : Ptr) (n : ℕ) → Confined m m output n
  Confined-none m output n = record {
    outside = λ q h. refl;
    heap_eq = refl;
    next_eq = refl;
    client_eq = refl;
  }

  pub Confined-write :
      (m : Machine w) (output : Ptr) (n : ℕ) (vs : List ℕ)
      → length vs ≤ n
      → Confined m (record m { bytes = write_slice m.bytes output vs }) output n
  Confined-write m output n vs l = record {
    outside = λ q h.
        write_slice_outside m.bytes output vs q
          (elim h [ inl b ↦ inl b | inr a ↦ inr (omega (arith, a, l)) ]);
    heap_eq = refl;
    next_eq = refl;
    client_eq = refl;
  }

module _ {w : World} (enc : EncodingRs w.Decoder) (law : Documented enc) (m : Machine w)
    (e : enc.Encoding) (input : Ptr) (input_len : ℕ) (output : Ptr) (output_len : ℕ)
    (output_ne_null : output ≢ null) where
  -- Given the documented bounds of encoding_rs and an output pointer that is not null:
  -- `encoding_decode` returns, it reports no more bytes read than the input has and no more written
  -- than the buffer holds, and it changes nothing but bytes of the output buffer.
  pub decode-Confined :
      (is_last : ℕ)
      → (r : DecodeResult) × (m' : Machine w) × (encoding_decode enc
            (enc.address e)
            input
            input_len
            output
            output_len
            is_last
            m
          ≡ returned r m')
        × (r.bytes_read ≤ input_len)
        × (r.bytes_written ≤ output_len)
        × Confined m m' output output_len
  unfolding encoding_decode decode_result
  decode-Confined is_last =
      let xs = input_of m.bytes input input_len in
      let out = read_slice m.bytes output output_len in
      let c = enc.decode_to_utf8 (enc.new_decoder e) xs out (not (is_last == 0)) in
      let b = law.decode_to_utf8 (enc.new_decoder e) xs out (not (is_last == 0)) in
      let n = length-read_slice m.bytes output output_len in
      (
        decode_result c,
        record m { bytes = write_slice m.bytes output c.output },
        rw (==_ne (enc.address e) null (law.address_ne_null e), ==_ne output null output_ne_null)
            (rw (deref_lem enc m (enc.address e) e (law.at_address-address e)) (
              rw (input_lem m input input_len) (
                rw (from_raw_parts_lem m output output_len output_ne_null)
                  (rw (write_parts_lem m output c.output output_ne_null))))),
        omega (arith, b.read, length-input_of m.bytes input input_len),
        omega (arith, b.written, n),
        Confined-write m output output_len c.output (omega (arith, b.output_length, n)),
      )
