-- ===== src/Tests/Encodings.antt =====
-- The encoding functions of html5ever/lib.rs over a coder that copies.
use zenpanda.Prelude.{ℕ, [], ◌∷◌, true, ◌≡◌, ◌≢◌, ◌≤◌, ◌<◌, ◌*◌, refl, inl, inr, arith}
use zenpanda.Html5ever.{null}
use zenpanda.Memory.{read_slice, write_slice}
use zenpanda.Utf8.{from_utf8_ok}
use zenpanda.Machine.{Machine, returned, aborted, undefined, decoder, alloc}
use zenpanda.Encoding.{
  EncodingInfo, DecodeResult, encoding_for_label, encoding_decoder_new, encoding_decode,
  encoding_decoder_free, encoding_decoder_decode, encoding_max_encode_buffer_length,
  encoding_max_utf8_buffer_length, decode_refused, encode_refused, encoding_encode_with_ncr,
}
use zenpanda.Encoding.Decoders.{Chunk, decoder_session, decode_chunks, decoder_life}
use zenpanda.Encoding.Bounds.{Confined, decode-Confined}
use zenpanda.Encoding.Encode.{
  Encoded, encode, encode-Confined, encode_utf_8-copy, encode_utf_8-null,
}
use zenpanda.Encoding.Labels.{
  for_label-decoder_new, for_label-unknown, max_encode_buffer_length-too_small,
  encode_in_max_buffer,
}
use zenpanda.Tests.Page.{Here, html, start}
use zenpanda.Tests.Coder.{coder, coder-Documented}

abbrev two : ℕ
two = 2

two_ne_zero : two ≢ 0
two_ne_zero e = omega (arith, e)

html_ne_null : html ≢ null
html_ne_null e = omega (arith, e)

abbrev buffer : ℕ
buffer = 400

buffer_ne_null : buffer ≢ null
buffer_ne_null e = omega (arith, e)

input_ok : from_utf8_ok (read_slice start.bytes html two) ≡ true
unfolding from_utf8_ok read_slice write_slice
input_ok = refl

abbrev chunk : Chunk
chunk = record {
  input = html;
  input_len = two;
  output = buffer;
  output_len = two;
  is_last = 0;
  output_ne_null = buffer_ne_null;
}

abbrev final : Chunk
final = record chunk { is_last = 1 }

decoder_life_example :
    let decoded = decode_chunks coder 3 start.bytes (chunk ∷ final ∷ []) in
    let m' = record start { bytes = decoded.1; next = 2 } in
    (decoder_session coder 4 (chunk ∷ final ∷ []) start ≡ returned decoded.2 m')
    × (encoding_decoder_free 1 m' ≡ undefined)
    × (encoding_decoder_decode coder 1 html two buffer two 0 m' ≡ undefined)
decoder_life_example =
    decoder_life coder coder-Documented start 4 3 (chunk ∷ final ∷ []) chunk (refl, tt)
      (λ e. omega (arith, e)) refl (λ e. omega (arith, e)) refl

decode-Confined_example :
    (r : DecodeResult) × (m' : Machine Here) × (encoding_decode coder 4 html two buffer 1 1 start
      ≡ returned r m')
    × (r.bytes_read ≤ two)
    × (r.bytes_written ≤ 1)
    × Confined start m' buffer 1
decode-Confined_example =
    decode-Confined coder coder-Documented start 3 html two buffer 1 buffer_ne_null 1

encode-Confined_example :
    Encoded coder coder-Documented start html two buffer 1 buffer_ne_null
      (encode coder coder-Documented start html two buffer 1 buffer_ne_null 3)
encode-Confined_example =
    encode-Confined coder coder-Documented start html two buffer 1 buffer_ne_null 3
      (inl html_ne_null)

encode_utf_8-copy_example :
    (m' : Machine Here) × (encode coder coder-Documented start html two buffer 5 buffer_ne_null 0
      ≡ returned (record { status = 0; bytes_read = two; bytes_written = two }) m')
    × (read_slice m'.bytes buffer two ≡ read_slice start.bytes html two)
    × Confined start m' buffer 5
encode_utf_8-copy_example =
    encode_utf_8-copy coder coder-Documented start html two buffer 5 buffer_ne_null two_ne_zero
      html_ne_null input_ok (omega arith)

encode_utf_8-null_example :
    encode coder coder-Documented start null two buffer 5 buffer_ne_null 0 ≡ aborted
encode_utf_8-null_example =
    encode_utf_8-null coder coder-Documented start null two buffer 5 buffer_ne_null two_ne_zero refl
      (omega arith)

encode_in_max_buffer_example :
    (r : ℕ) × (m' : Machine Here) × (encoding_max_encode_buffer_length coder 1 two start
      ≡ returned r start)
    × (encoding_encode_with_ncr coder 1 html two buffer r start
        ≡ returned (record { status = 0; bytes_read = two; bytes_written = two }) m')
    × (read_slice m'.bytes buffer two ≡ read_slice start.bytes html two)
encode_in_max_buffer_example =
    encode_in_max_buffer coder coder-Documented start two html buffer two refl (omega arith)
      (omega arith) two_ne_zero html_ne_null buffer_ne_null input_ok

max_encode_buffer_length-too_small_example :
    (r : ℕ) × (encoding_max_encode_buffer_length coder 4 24 start ≡ returned r start) × (r < 12 * 6)
max_encode_buffer_length-too_small_example =
    max_encode_buffer_length-too_small coder coder-Documented start 3 24 12 refl refl (omega arith)

for_label-decoder_new_example :
    (i : EncodingInfo) × (encoding_for_label coder html two start ≡ returned i start)
    × (i.found ≡ 1)
    × (i.name_ptr ≡ 100)
    × (i.name_len ≡ 1)
    × (encoding_decoder_new coder i.handle start ≡ alloc (decoder b'q') start)
for_label-decoder_new_example =
    for_label-decoder_new coder start html two b'q' coder-Documented html_ne_null two_ne_zero
      (unfold read_slice write_slice in refl)

for_label-unknown_example :
    (i : EncodingInfo) × (encoding_for_label coder html 1 start ≡ returned i start)
    × (i.found ≡ 0)
    × (encoding_decoder_new coder i.handle start ≡ returned null start)
    × (encoding_max_utf8_buffer_length coder i.handle 1 start ≡ returned 0 start)
    × (encoding_max_encode_buffer_length coder i.handle 1 start ≡ returned 0 start)
    × (encoding_decode coder i.handle html two buffer two 1 start ≡ returned decode_refused start)
    × (encoding_encode_with_ncr coder i.handle html two buffer two start
        ≡ returned encode_refused start)
    × (encoding_decoder_decode coder null html two buffer two 1 start
        ≡ returned decode_refused start)
    × (encoding_decoder_free null start ≡ returned tt start)
for_label-unknown_example =
    for_label-unknown coder start html 1 html buffer two two 1
      (inr (inr (unfold read_slice write_slice in refl)))
