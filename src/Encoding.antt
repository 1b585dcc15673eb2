-- ===== src/Encoding.antt =====
-- The encoding functions of html5ever/lib.rs. A `u8` or `usize` is a number; lengths of buffers
-- that exist are below 2 ^ 63, and only `encoding_max_encode_buffer_length` can pass 2 ^ 64.
pub mod Handles
pub mod Decoders
pub mod Bounds
pub mod Branches
pub mod Encode
pub mod Labels
use zenpanda.Prelude.{
  ℕ, ◌-◌, ◌*◌, ◌%◌, ◌^◌, min, true, not, ◌||◌, List, [], Option, none, some, length, ltb, ◌==◌,
  if◌then◌else◌,
}
use zenpanda.Html5ever.{Ptr, null}
use zenpanda.EncodingRs.{EncodingRs, input_empty, output_full, Coded}
use zenpanda.Utf8.{from_utf8_ok}
use zenpanda.Machine.{
  World, decoder, Run, pure, panic, undefined_behaviour, extern_c, ◌>>=◌, ◌>>◌, alloc, load_decoder,
  store_object, free, from_raw_parts, write_parts,
}

pub record EncodingInfo : Type 0 where
  pub found : ℕ
  pub handle : Ptr
  pub name_len : ℕ
  pub name_ptr : Ptr

abbrev pub not_found : EncodingInfo
not_found = record { found = 0; handle = null; name_len = 0; name_ptr = null }

pub record DecodeResult : Type 0 where
  pub had_errors : ℕ
  pub bytes_read : ℕ
  pub bytes_written : ℕ

abbrev pub decode_refused : DecodeResult
decode_refused = record { had_errors = 1; bytes_read = 0; bytes_written = 0 }

pub record EncodeResult : Type 0 where
  pub status : ℕ
  pub bytes_read : ℕ
  pub bytes_written : ℕ

abbrev pub encode_refused : EncodeResult
encode_refused = record { status = 1; bytes_read = 0; bytes_written = 0 }

abbrev pub usize_mod : ℕ
usize_mod = 2 ^ 64

unfoldable pub saturating_mul : ℕ → ℕ → ℕ
saturating_mul a b = min (a * b) (usize_mod - 1)

-- how the results are reported
unfoldable pub decode_result : {D : Type 0} → Coded D → DecodeResult
decode_result c = record {
  had_errors = if c.had_errors then 1 else 0;
  bytes_read = c.read;
  bytes_written = c.written;
}

unfoldable pub encode_result : {E : Type 0} → Coded E → EncodeResult
encode_result c = record {
  status = elim c.result [ input_empty ↦ 0 | output_full ↦ 1 ];
  bytes_read = c.read;
  bytes_written = c.written;
}

module _ {w : World} where
  -- the input slice, empty for a null pointer or no length
  unfoldable pub input_or_empty : Ptr → ℕ → Run w (List ℕ)
  unfolding from_raw_parts
  input_or_empty input input_len =
      if input == null || input_len == 0 then pure [] else from_raw_parts input input_len

  -- `std::str::from_utf8`, `none` for an error
  unfoldable pub input_str : Ptr → ℕ → Run w (Option (List ℕ))
  unfolding from_raw_parts
  input_str input input_len = if input == null || input_len == 0 then pure (some []) else do
    bytes ← from_raw_parts input input_len
    pure (if from_utf8_ok bytes then some bytes else none)

  -- `output_slice[..n].copy_from_slice(src)`, which panics if the lengths differ
  unfoldable pub copy_from_slice : Ptr → ℕ → List ℕ → Run w (Unit {0})
  unfolding write_parts
  copy_from_slice output n src = if n == length src then write_parts output src else panic

module _ {w : World} (enc : EncodingRs w.Decoder) where
  unfoldable pub encoding_for_label : Ptr → ℕ → Run w EncodingInfo
  unfolding from_raw_parts
  encoding_for_label label label_len =
      if label == null || label_len == 0 then pure not_found else do
        label_bytes ← from_raw_parts label label_len
        pure (elim (enc.for_label label_bytes) [
          | some e ↦ record {
            found = 1;
            name_len = length (enc.name e).text;
            name_ptr = (enc.name e).at;
            handle = enc.address e;
          }
          | none ↦ not_found
        ])

  abbrev as_encoding : Option enc.Encoding → Run w enc.Encoding
  as_encoding (some e) = pure e
  as_encoding none = undefined_behaviour

  -- `&*(handle as *const Encoding)`
  unfoldable pub deref_encoding : Ptr → Run w enc.Encoding
  deref_encoding handle = as_encoding (enc.at_address handle)

  unfoldable pub encoding_max_utf8_buffer_length : Ptr → ℕ → Run w ℕ
  unfolding deref_encoding
  encoding_max_utf8_buffer_length handle input_len = if handle == null then pure 0 else do
    e ← deref_encoding handle
    pure (elim (enc.max_utf8_buffer_length (enc.new_decoder e) input_len) [ some n ↦ n | none ↦ 0 ])

  unfoldable pub encoding_decode : Ptr → Ptr → ℕ → Ptr → ℕ → ℕ → Run w DecodeResult
  unfolding deref_encoding input_or_empty from_raw_parts write_parts decode_result
  encoding_decode handle input input_len output output_len is_last =
      if handle == null || output == null then pure decode_refused else do
        e ← deref_encoding handle
        input_bytes ← input_or_empty input input_len
        output_slice ← from_raw_parts output output_len
        let c = enc.decode_to_utf8 (enc.new_decoder e) input_bytes output_slice (not (is_last == 0))
        write_parts output c.output
        pure (decode_result c)

  unfoldable pub encoding_decoder_new : Ptr → Run w Ptr
  unfolding deref_encoding alloc
  encoding_decoder_new handle =
      if handle == null
      then pure null
      else do e ← deref_encoding handle; alloc (decoder (enc.new_decoder e))

  unfoldable pub encoding_decoder_decode : Ptr → Ptr → ℕ → Ptr → ℕ → ℕ → Run w DecodeResult
  unfolding load_decoder input_or_empty from_raw_parts store_object write_parts decode_result
  encoding_decoder_decode decoder_ptr input input_len output output_len is_last =
      if decoder_ptr == null || output == null
      then pure decode_refused
      else extern_c (do
        d ← load_decoder decoder_ptr
        input_bytes ← input_or_empty input input_len
        output_slice ← from_raw_parts output output_len
        (if enc.finished d then panic else do
          let c = enc.decode_to_utf8 d input_bytes output_slice (not (is_last == 0))
          store_object decoder_ptr (decoder c.state)
          write_parts output c.output
          pure (decode_result c)))

  unfoldable pub encode_utf_8 : List ℕ → ℕ → Ptr → ℕ → Run w EncodeResult
  unfolding copy_from_slice
  encode_utf_8 s input_len output output_capacity =
      if ltb output_capacity input_len then pure encode_refused else do
        copy_from_slice output input_len s
        pure (record { bytes_read = input_len; bytes_written = input_len; status = 0 })

  unfoldable pub encode_legacy : enc.Encoding → List ℕ → Ptr → ℕ → Run w EncodeResult
  unfolding from_raw_parts write_parts encode_result
  encode_legacy e s output output_capacity = do
    output_slice ← from_raw_parts output output_capacity
    let c = enc.encode_from_utf8 (enc.new_encoder e) s output_slice true
    write_parts output c.output
    pure (encode_result c)

  unfoldable pub encoding_encode_with_ncr : Ptr → Ptr → ℕ → Ptr → ℕ → Run w EncodeResult
  unfolding deref_encoding input_str encode_utf_8 encode_legacy
  encoding_encode_with_ncr handle input input_len output output_capacity =
      if handle == null || output == null
      then pure encode_refused
      else extern_c (do
        e ← deref_encoding handle
        s ← input_str input input_len
        elim s [
          | none ↦ pure encode_refused
          | some s ↦
              if enc.address e == enc.address enc.utf_8
              then encode_utf_8 s input_len output output_capacity
              else encode_legacy e s output output_capacity
        ])

  -- `input_len * 10` wraps in the release profile.
  unfoldable pub encoding_max_encode_buffer_length : Ptr → ℕ → Run w ℕ
  unfolding deref_encoding saturating_mul
  encoding_max_encode_buffer_length handle input_len = if handle == null then pure 0 else do
    e ← deref_encoding handle
    pure (elim (enc.max_buffer_length_from_utf8_if_no_unmappables (enc.new_encoder e) input_len) [
      | some len ↦ saturating_mul len 2
      | none ↦ (input_len * 10) % usize_mod
    ])

module _ {w : World} where
  unfoldable pub encoding_decoder_free : Ptr → Run w (Unit {0})
  unfolding load_decoder free
  encoding_decoder_free decoder_ptr =
      if decoder_ptr == null then pure tt else do load_decoder decoder_ptr; free decoder_ptr
