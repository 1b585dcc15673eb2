-- ===== src/EncodingRs.antt =====
-- The interface of the encoding_rs crate, which is not part of the repository, as a parameter.
use zenpanda.Prelude.{ℕ, Bool, List, Option}
use zenpanda.Html5ever.{Ptr, Str}

pub data CoderResult : Type 0 where
  input_empty output_full : CoderResult

-- What `decode_to_utf8` and `encode_from_utf8` return. `output` is the content of the destination
-- slice afterwards, of which the first `written` bytes are the result.
pub record Coded (S : Type 0) : Type 0 where
  pub state : S
  pub result : CoderResult
  pub read : ℕ
  pub written : ℕ
  pub had_errors : Bool
  pub output : List ℕ

-- An `Encoding` is a static object, and two of them are equal when their addresses are.
pub record EncodingRs (D : Type 0) : Type 1 where
  pub Encoding : Type 0
  pub Encoder : Type 0
  pub address : Encoding → Ptr
  -- the encoding that stands at an address
  pub at_address : Ptr → Option Encoding
  pub utf_8 : Encoding
  pub for_label : List ℕ → Option Encoding
  pub name : Encoding → Str
  -- `encoding.decode(input).0`
  pub decode : Encoding → List ℕ → List ℕ
  pub new_decoder : Encoding → D
  -- the stream of the decoder has ended: from then on `decode_to_utf8` panics
  pub finished : D → Bool
  pub max_utf8_buffer_length : D → ℕ → Option ℕ
  -- decoder, input, content of the destination, last
  pub decode_to_utf8 : D → List ℕ → List ℕ → Bool → Coded D
  pub new_encoder : Encoding → Encoder
  pub max_buffer_length_from_utf8_if_no_unmappables : Encoder → ℕ → Option ℕ
  pub encode_from_utf8 : Encoder → List ℕ → List ℕ → Bool → Coded Encoder
