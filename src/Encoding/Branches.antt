-- ===== src/Encoding/Branches.antt =====
-- The pieces of `encoding_encode_with_ncr` of html5ever/lib.rs: its input, and its two ways to the
-- output.
use zenpanda.Prelude.{
  ℕ, ◌≤◌, ◌<◌, ◌≡◌, ◌≢◌, refl, List, [], none, some, true, false, arith, ◌==◌, ◌||◌, ◌⊎◌, inl, inr,
  length, Bool-cases, ltb,
}
use zenpanda.Html5ever.{Ptr, null}
use zenpanda.EncodingRs.{EncodingRs}
use zenpanda.Memory.{read_slice, write_slice, length-read_slice}
use zenpanda.Utf8.{from_utf8_ok}
use zenpanda.Machine.{World, Machine, returned}
use zenpanda.Machine.Slices.{from_raw_parts_lem, write_parts_lem}
use zenpanda.Encoding.{
  encode_result, encode_refused, input_str, encode_utf_8, encode_legacy, copy_from_slice,
}

no_length :
    (input : Ptr) (n : ℕ) → (input ≢ null) ⊎ (n ≡ 0) → (input == null || n == 0) ≡ true → 0 ≡ n
no_length input n h e = ground arith

module _ {w : World} (m : Machine w) where
  -- what `input_str` makes of a pointer and a length that go together
  pub str_lem :
      (input : Ptr) (n : ℕ)
      → (input ≢ null) ⊎ (n ≡ 0)
      → (input_str input n m ≡ returned none m)
        ⊎ (s : List ℕ) × (input_str input n m ≡ returned (some s) m) × (length s ≡ n)
  unfolding input_str
  str_lem input n h = elim (Bool-cases (input == null || n == 0)) [
    | inl e ↦ inr ([], rw e refl, no_length input n h e)
    | inr e ↦
        let ne : input ≢ null = λ z. absurd (ground (arith, z, e)) in
        let bytes = read_slice m.bytes input n in
        elim (Bool-cases (from_utf8_ok bytes)) [
          | inl ok ↦ inr (
            bytes,
            rw e (rw (from_raw_parts_lem m input n ne) (rw ok)),
            length-read_slice m.bytes input n,
          )
          | inr bad ↦ inl (rw e (rw (from_raw_parts_lem m input n ne) (rw bad)))
        ]
  ]

module _ {w : World} (enc : EncodingRs w.Decoder) (m : Machine w) where
  pub utf_8_fits :
      (s : List ℕ) (n : ℕ) (output : Ptr) (cap : ℕ)
      → length s ≡ n
      → n ≤ cap
      → output ≢ null
      → encode_utf_8 enc s n output cap m
        ≡ returned
            (record { status = 0; bytes_read = n; bytes_written = n })
            (record m { bytes = write_slice m.bytes output s })
  unfolding encode_utf_8 copy_from_slice
  utf_8_fits s n output cap e l ne =
      let no : ltb cap n ≡ false = ground arith in
      let same : (n == length s) ≡ true = ground arith in
      rw (no, same) (rw (write_parts_lem m output s ne))

  pub utf_8_too_long :
      (s : List ℕ) (n : ℕ) (output : Ptr) (cap : ℕ)
      → cap < n
      → encode_utf_8 enc s n output cap m ≡ returned encode_refused m
  unfolding encode_utf_8
  utf_8_too_long s n output cap l = let yes : ltb cap n ≡ true = ground arith in rw yes

  pub legacy_lem :
      (e : enc.Encoding) (s : List ℕ) (output : Ptr) (cap : ℕ)
      → output ≢ null
      → let c = enc.encode_from_utf8 (enc.new_encoder e) s (read_slice m.bytes output cap) true in
        encode_legacy enc e s output cap m
        ≡ returned (encode_result c) (record m { bytes = write_slice m.bytes output c.output })
  unfolding encode_legacy
  legacy_lem e s output cap ne =
      let c = enc.encode_from_utf8 (enc.new_encoder e) s (read_slice m.bytes output cap) true in
      rw (from_raw_parts_lem m output cap ne) (rw (write_parts_lem m output c.output ne))
