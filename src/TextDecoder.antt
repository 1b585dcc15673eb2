-- ===== src/TextDecoder.antt =====
-- browser/webapi/encoding/TextDecoder.zig, which decodes by the encoding functions of
-- html5ever/lib.rs: at once, or in pieces with a decoder that it keeps.
pub mod Ideal
pub mod Unfinished
pub mod Holds
pub mod Coding
pub mod Pieces
pub mod Life
pub mod Errors
use zenpanda.Prelude.{
  ℕ, ◌+◌, List, [], ◌∷◌, map, length, take, Option, none, some, Bool, true, false, not, ◌&&◌, ◌||◌,
  ◌==◌, leb, if◌then◌else◌,
}
use zenpanda.Html5ever.{Ptr, null}
use zenpanda.Memory.{read_slice}
use zenpanda.EncodingRs.{EncodingRs}
use zenpanda.Machine.{World, Run, pure, returned, ◌>>=◌, ◌>>◌, from_raw_parts, write_parts}
use zenpanda.Encoding.{
  EncodingInfo, DecodeResult, encoding_for_label, encoding_max_utf8_buffer_length, encoding_decode,
  encoding_decoder_new, encoding_decoder_decode, encoding_decoder_free,
}

-- `decoder_handle` and `lowercase_name` are null and empty until they are needed.
pub record TextDecoder : Type 0 where
  pub fatal : Bool
  pub ignore_bom : Bool
  pub bom_seen : Bool
  pub decoder_handle : Ptr
  pub encoding_handle : Ptr
  pub encoding_name : List ℕ
  pub lowercase_name : List ℕ

pub data Decoded : Type 0 where
  text : List ℕ → Decoded
  type_error : Decoded
  out_of_memory : Decoded

pub data Opened : Type 0 where
  opened : TextDecoder → Opened
  range_error : Opened
  no_memory : Opened

-- `std.mem.eql` and `std.mem.startsWith`
unfoldable pub eql : List ℕ → List ℕ → Bool
eql [] [] = true
eql [] (y ∷ ys) = false
eql (x ∷ xs) [] = false
eql (x ∷ xs) (y ∷ ys) = x == y && eql xs ys

abbrev replacement : List ℕ
replacement = b'r' ∷ b'e' ∷ b'p' ∷ b'l' ∷ b'a' ∷ b'c' ∷ b'e' ∷ b'm' ∷ b'e' ∷ b'n' ∷ b't' ∷ []

-- U+FEFF in UTF-8, at the start only
abbrev pub strip_bom : List ℕ → List ℕ
strip_bom (a ∷ b ∷ c ∷ rest) =
    if a == 0xef && b == 0xbb && c == 0xbf then rest else a ∷ b ∷ c ∷ rest
strip_bom data' = data'

abbrev lower : ℕ → ℕ
lower c = if leb 0x41 c && leb c 0x5a then c + 0x20 else c

abbrev pub had_errors : DecodeResult → Bool
had_errors r = not (r.had_errors == 0)

-- the name of the encoding in lower case, made at the first call
unfoldable pub get_encoding : TextDecoder → List ℕ × TextDecoder
get_encoding td =
    if length td.lowercase_name == 0
    then (let l = map lower td.encoding_name in (l, record td { lowercase_name = l }))
    else (td.lowercase_name, td)

-- A call of `decode`: the bytes and where they stand, whether more follows, and where the arena puts
-- the output.
pub record Call : Type 0 where
  pub input : List ℕ
  pub at : Ptr
  pub stream : Bool
  pub output : Option Ptr

module _ {w : World} (enc : EncodingRs w.Decoder) where
  -- The label is UTF-8's where none is given; `arena` is whether memory is given.
  unfoldable pub init : Ptr → ℕ → Bool → Bool → Bool → Run w Opened
  unfolding eql
  init label label_len fatal ignore_bom arena = do
    info ← encoding_for_label enc label label_len
    (if info.found == 0 then pure range_error else do
      enc_name ← from_raw_parts info.name_ptr info.name_len
      (if eql enc_name replacement || not arena
          then pure (if eql enc_name replacement then range_error else no_memory)
          else pure (
              opened (record {
                fatal = fatal;
                ignore_bom = ignore_bom;
                bom_seen = false;
                decoder_handle = null;
                encoding_handle = info.handle;
                encoding_name = enc_name;
                lowercase_name = [];
              }))))

  unfoldable pub deinit : TextDecoder → Run w (Unit {0})
  deinit td = if td.decoder_handle == null then pure tt else encoding_decoder_free td.decoder_handle

  -- The bytes that were written, less a mark at the start of the first that are not to keep it.
  unfoldable finish_decode : TextDecoder → Ptr → DecodeResult → Run w (Decoded × TextDecoder)
  finish_decode td output r m =
      let decoded = read_slice m.bytes output r.bytes_written in
      if not td.bom_seen && not td.ignore_bom
      then returned (text (strip_bom decoded), record td { bom_seen = true }) m
      else returned (text decoded, td) m

  -- a decoder that has met an error in fatal mode is freed
  unfoldable reset_decoder : TextDecoder → Ptr → Run w (Decoded × TextDecoder)
  reset_decoder td streaming_decoder =
      if streaming_decoder == null || td.decoder_handle == null
      then pure (type_error, record td { bom_seen = false })
      else do
        encoding_decoder_free td.decoder_handle
        pure (type_error, record td { decoder_handle = null; bom_seen = false })

  -- `alloc_output` is where the arena puts the output, if there is memory.
  unfoldable decode_with :
      Option Ptr → TextDecoder → Ptr → ℕ → Ptr → Bool → Run w (Decoded × TextDecoder)
  unfolding finish_decode reset_decoder
  decode_with alloc_output td input len streaming_decoder is_last =
      if len == 0 && not is_last then pure (text [], td) else do
        max_out ←
            encoding_max_utf8_buffer_length enc td.encoding_handle (if len == 0 then 4 else len)
        if max_out == 0 then pure (text [], td) else elim alloc_output [
          | none ↦ pure (out_of_memory, td)
          | some output ↦ do
            result ←
                if streaming_decoder == null
                then encoding_decode enc td.encoding_handle input len output max_out 1
                else encoding_decoder_decode enc streaming_decoder input len output max_out
                    (if is_last then 1 else 0)
            if td.fatal && had_errors result
                then reset_decoder td streaming_decoder
                else finish_decode td output result
        ]

  -- with the decoder of a stream, which is made at its first piece
  unfoldable decode_piece : Option Ptr → TextDecoder → Ptr → ℕ → Run w (Decoded × TextDecoder)
  unfolding decode_with
  decode_piece alloc_output td input len =
      if td.decoder_handle == null
      then (do
        handle ← encoding_decoder_new enc td.encoding_handle
        (let td' = record td { decoder_handle = handle } in
            if handle == null
            then pure (out_of_memory, td')
            else decode_with alloc_output td' input len handle false))
      else decode_with alloc_output td input len td.decoder_handle false

  -- the last piece of a stream frees its decoder, unless it fails
  abbrev after_last : Ptr → Decoded × TextDecoder → Run w (Decoded × TextDecoder)
  after_last handle (text t, td) = do
    encoding_decoder_free handle
    pure (text t, record td { decoder_handle = null })
  after_last handle (e, td) = pure (e, td)

  unfoldable pub decode : Option Ptr → TextDecoder → Ptr → ℕ → Bool → Run w (Decoded × TextDecoder)
  unfolding decode_with decode_piece
  decode alloc_output td input len stream =
      if stream
      then decode_piece alloc_output td input len
      else if td.decoder_handle == null
      then decode_with alloc_output td input len null true
      else (do
        r ← decode_with alloc_output td input len td.decoder_handle true
        after_last td.decoder_handle r)

  -- calls one after another, the bytes of each being put in memory by its caller
  unfoldable pub decodes : List Call → TextDecoder → Run w (List Decoded × TextDecoder)
  unfolding decode
  decodes [] td = pure ([], td)
  decodes (c ∷ cs) td = do
    write_parts c.at c.input
    r ← decode c.output td c.at (length c.input) c.stream
    rs ← decodes cs r.1
    pure (r.0 ∷ rs.0, rs.1)

  abbrev pub used : List Call → Opened → Run w (Option (List Decoded))
  used cs (opened td) = do rs ← decodes cs td; deinit rs.1; pure (some rs.0)
  used cs range_error = pure none
  used cs no_memory = pure none

  -- A decoder is made, used and dropped.
  unfoldable pub life : Ptr → ℕ → Bool → Bool → List Call → Run w (Option (List Decoded))
  life label label_len fatal ignore_bom cs = do
    o ← init label label_len fatal ignore_bom true
    used cs o
