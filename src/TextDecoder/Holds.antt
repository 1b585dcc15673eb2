-- ===== src/TextDecoder/Holds.antt =====
-- How a machine stands to the state of a decoder of browser/webapi/encoding/TextDecoder.zig between
-- two calls: the heap is the browser's own but for the decoder of a stream that has begun.
use zenpanda.Prelude.{
  ℕ, ◌≤◌, ◌<◌, ◌≡◌, ◌≢◌, refl, ap, ◌∙◌, List, Option, none, some, Bool, false, not, ◌&&◌, ==_ne,
  if-related, arith,
}
use zenpanda.Html5ever.{Ptr, null}
use zenpanda.EncodingRs.{EncodingRs, Coded}
use zenpanda.Memory.{read_slice}
use zenpanda.Machine.{World, decoder, Heap, Machine, Outcome, Run, returned, update}
use zenpanda.Encoding.{DecodeResult, decode_result, encoding_decoder_free}
use zenpanda.Encoding.Decoders.{free_lem}
use zenpanda.Client.Drain.{update_self, update-update, update_at}
use zenpanda.TextDecoder.{
  TextDecoder, Decoded, text, type_error, out_of_memory, had_errors, finish_decode, reset_decoder,
}
use zenpanda.TextDecoder.Ideal.{IdealState, ideal_text}

-- The error flag of a result is that of the coder.
pub had_errors-decode_result :
    {D : Type 0} (c : Coded D) → had_errors (decode_result c) ≡ c.had_errors
unfolding decode_result
had_errors-decode_result c = ground arith

module _ (fatal ignore_bom : Bool) (handle : Ptr) (name lowercase : List ℕ) where
  abbrev pub held : Bool → Ptr → TextDecoder
  held seen p = record {
    fatal = fatal;
    ignore_bom = ignore_bom;
    bom_seen = seen;
    decoder_handle = p;
    encoding_handle = handle;
    encoding_name = name;
    lowercase_name = lowercase;
  }

module _ {w : World} (h : Heap w) where
  pub record Idle (m : Machine w) (p : Ptr) : Type 0 where
    pub is_null : p ≡ null
    pub heap_eq : m.heap ≡ h
    pub fresh : (q : Ptr) → m.next ≤ q → h q ≡ none
    pub next_ne_null : 0 < m.next

  pub record Streaming (m : Machine w) (p : Ptr) (d : w.Decoder) : Type 0 where
    pub ne_null : p ≢ null
    pub unused : h p ≡ none
    pub heap_eq : m.heap ≡ update h p (some (decoder d))
    pub fresh : (q : Ptr) → m.next ≤ q → h q ≡ none
    pub next_ne_null : 0 < m.next

  abbrev pub Stands : Machine w → Ptr → Option w.Decoder → Type 0
  Stands m p none = Idle m p
  Stands m p (some d) = Streaming m p d

  -- A text leaves the handle that there was.
  abbrev pub Keeps : Ptr → Decoded → Ptr → Type 0
  Keeps p (text t) p' = p' ≡ p
  Keeps p type_error p' = Unit {0}
  Keeps p out_of_memory p' = Unit {0}

  module _ (enc : EncodingRs w.Decoder) (fatal ignore_bom : Bool) (handle : Ptr)
      (name lowercase : List ℕ) where
    -- the outcome of `_decode`, from this handle
    pub record DecodedAs (p : Ptr) (o : Outcome (Machine w) (Decoded × TextDecoder))
        (rs : Decoded × IdealState w.Decoder) : Type 0 where
      pub pointer : Ptr
      pub machine' : Machine w
      pub equation :
          o
          ≡ returned
              (rs.0, held fatal ignore_bom handle name lowercase rs.1.bom_seen pointer)
              machine'
      pub stands : Stands machine' pointer rs.1.state
      pub keeps : Keeps p rs.0 pointer

    abbrev pub DecodedAt :
        Ptr → Machine w → Run w (Decoded × TextDecoder) → Decoded × IdealState w.Decoder → Type 0
    DecodedAt p m r rs = DecodedAs p (r m) rs

    -- a decoder that is freed leaves the browser's heap
    pub freed-Idle :
        (m : Machine w) (p : Ptr) (d : w.Decoder)
        → Streaming m p d
        → encoding_decoder_free p m ≡ returned tt (record m { heap = h })
    freed-Idle m p d s =
        free_lem enc m p d s.ne_null (ap (λ g. g p) s.heap_eq ∙ update_at h p _)
        ∙ ap (λ (g : Heap w). returned tt (record m { heap = g }))
            (ap (λ g. update g p none) s.heap_eq
              ∙ update-update h p _ none
              ∙ update_self h p none s.unused)

    pub left-Idle :
        (m : Machine w) (p : Ptr) (d : w.Decoder)
        → Streaming m p d
        → Idle (record m { heap = h }) null
    left-Idle m p d s = record {
      is_null = refl;
      heap_eq = refl;
      fresh = s.fresh;
      next_ne_null = s.next_ne_null;
    }

    pub finish_lem :
        (m : Machine w) (seen : Bool) (p : Ptr) (q : Option w.Decoder) (output : Ptr)
        (r : DecodeResult) (t : List ℕ)
        → Stands m p q
        → read_slice m.bytes output r.bytes_written ≡ t
        → DecodedAs p
            (finish_decode enc (held fatal ignore_bom handle name lowercase seen p) output r m)
            (ideal_text ignore_bom (record { bom_seen = seen; state = q }) t)
    unfolding finish_decode
    finish_lem m seen p q output r t stands there =
        if-related (DecodedAs p) (not seen && not ignore_bom)
          (λ b. record {
            pointer = p;
            machine' = m;
            equation = rw there refl;
            stands = stands;
            keeps = refl;
          })
          (λ b. record {
            pointer = p;
            machine' = m;
            equation = rw there refl;
            stands = stands;
            keeps = refl;
          })

    pub reset_decoder-Idle :
        (m : Machine w) (seen : Bool) (p : Ptr)
        → Idle m p
        → DecodedAs p
            (reset_decoder enc (held fatal ignore_bom handle name lowercase seen p) null m)
            (type_error, record { bom_seen = false; state = none })
    unfolding reset_decoder
    reset_decoder-Idle m seen p idle = record {
      pointer = p;
      machine' = m;
      equation = refl;
      stands = idle;
      keeps = tt;
    }

    pub reset_decoder-Streaming :
        (m : Machine w) (seen : Bool) (p : Ptr) (d : w.Decoder)
        → Streaming m p d
        → DecodedAs p
            (reset_decoder enc (held fatal ignore_bom handle name lowercase seen p) p m)
            (type_error, record { bom_seen = false; state = none })
    unfolding reset_decoder
    reset_decoder-Streaming m seen p d s = record {
      pointer = null;
      machine' = record m { heap = h };
      equation = rw (==_ne p null s.ne_null) (rw (freed-Idle m p d s) refl);
      stands = left-Idle m p d s;
      keeps = tt;
    }
