-- ===== src/TextDecoder/Pieces.antt =====
-- `decode` of browser/webapi/encoding/TextDecoder.zig against its meaning: a piece of a stream, the last
-- piece, and a whole text at once.
use zenpanda.Prelude.{
  ℕ, suc, ◌≡◌, ◌≢◌, refl, ap, ◌∙◌, sym, subst, List, length, Option, none, some, Bool, true, false,
  not, ◌==◌, ==_ne, if◌then◌else◌, arith,
}
use zenpanda.Html5ever.{Ptr, null}
use zenpanda.EncodingRs.{EncodingRs, Coded}
use zenpanda.Memory.{read_slice, write_slice}
use zenpanda.Machine.{World, decoder, Heap, Machine, Outcome, returned, update, and_then, alloc}
use zenpanda.Machine.Slices.{from_raw_parts_lem, write_parts_lem}
use zenpanda.Encoding.{
  DecodeResult, decode_result, encoding_decode, encoding_decoder_new, encoding_decoder_decode,
}
use zenpanda.Encoding.Handles.{deref_lem, input_lem}
use zenpanda.Encoding.Bounds.{Documented}
use zenpanda.Encoding.Decoders.{Chunk, decode_one}
use zenpanda.Client.Drain.{update-update, update_at}
use zenpanda.TextDecoder.{
  TextDecoder, Decoded, text, type_error, out_of_memory, decode_with, decode_piece, after_last,
  decode,
}
use zenpanda.TextDecoder.Ideal.{IdealState, WritesOnly, given, ideal_with, ideal_last, ideal_decode}
use zenpanda.TextDecoder.Unfinished.{Unfinished}
use zenpanda.TextDecoder.Holds.{
  Idle, Streaming, Stands, freed-Idle, left-Idle, reset_decoder-Idle, reset_decoder-Streaming,
}
use zenpanda.TextDecoder.Coding.{input_of_lem, td, As, n, coded, Calls, with_lem}

flag_lem : (b : Bool) → not ((if b then 1 else 0) == 0) ≡ b
flag_lem true = refl
flag_lem false = refl

module _ {w : World} (enc : EncodingRs w.Decoder) (law : Documented enc) (blind : WritesOnly enc)
    (h : Heap w) (fatal ignore_bom : Bool) (handle : Ptr) (name lowercase : List ℕ)
    (handle_ne_null : handle ≢ null) (e : enc.Encoding) (at : enc.at_address handle ≡ some e) where
  module _ (m : Machine w) (seen : Bool) (xs : List ℕ) (input : Ptr) (input_ne_null : input ≢ null)
      (there : read_slice m.bytes input (length xs) ≡ xs) (output : Ptr)
      (output_ne_null : output ≢ null) where
    at_once :
        Idle h m null
        → Calls enc law blind h fatal ignore_bom handle name lowercase handle_ne_null e at m seen
            null null none xs true input output
    unfolding encoding_decode
    at_once idle =
        let c =
          coded enc law blind h fatal ignore_bom handle name lowercase handle_ne_null e at m seen
            null null none xs true input output in
        record {
          machine' = record m { bytes = write_slice m.bytes output c.output };
          equation =
              rw (==_ne handle null handle_ne_null, ==_ne output null output_ne_null)
                (rw (deref_lem enc m handle e at) (
                  rw (input_lem m input (length xs)) (
                    rw
                      (from_raw_parts_lem m output
                        (n enc law blind h fatal ignore_bom handle name lowercase handle_ne_null e
                          at m seen null null none xs true input)
                        output_ne_null)
                      (rw (input_of_lem m input xs input_ne_null there)
                        (rw (write_parts_lem m output c.output output_ne_null) refl)))));
          bytes_eq = refl;
          stands = record {
            is_null = refl;
            heap_eq = idle.heap_eq;
            fresh = idle.fresh;
            next_ne_null = idle.next_ne_null;
          };
          reset =
              reset_decoder-Idle h enc fatal ignore_bom handle name lowercase _ seen null (record {
                is_null = refl;
                heap_eq = idle.heap_eq;
                fresh = idle.fresh;
                next_ne_null = idle.next_ne_null;
              });
        }

    module _ (p : Ptr) (d : w.Decoder) (unfinished : enc.finished d ≡ false) (last : Bool)
        (s : Streaming h m p d) where
      abbrev chunk : Chunk
      chunk = record {
        input = input;
        input_len = length xs;
        output = output;
        output_len =
            n enc law blind h fatal ignore_bom handle name lowercase handle_ne_null e at m seen p p
              (some d) xs last input;
        is_last = if last then 1 else 0;
        output_ne_null = output_ne_null;
      }

      abbrev c : Coded w.Decoder
      c =
          coded enc law blind h fatal ignore_bom handle name lowercase handle_ne_null e at m seen p
            p (some d) xs last input output

      abbrev m' : Machine w
      m' = record m {
        heap = update m.heap p (some (decoder c.state));
        bytes = write_slice m.bytes output c.output;
      }

      -- the outcome with this input and this flag
      abbrev decoded : List ℕ → Bool → Outcome (Machine w) DecodeResult
      decoded ys b =
          let k = enc.decode_to_utf8 d ys (read_slice m.bytes output chunk.output_len) b in
          returned (decode_result k) (record m {
            heap = update m.heap p (some (decoder k.state));
            bytes = write_slice m.bytes output k.output;
          })

      called_lem :
          encoding_decoder_decode enc p input
            (length xs)
            output
            chunk.output_len
            (if last then 1 else 0)
            m
          ≡ returned (decode_result c) m'
      called_lem =
          decode_one enc m p d (ap (λ g. g p) s.heap_eq ∙ update_at h p _) s.ne_null unfinished
            chunk
          ∙ ap (λ ys. decoded ys (not ((if last then 1 else 0) == 0)))
              (input_of_lem m input xs input_ne_null there)
          ∙ ap (decoded xs) (flag_lem last)

      left : Streaming h m' p c.state
      left = record {
        ne_null = s.ne_null;
        unused = s.unused;
        heap_eq = ap (λ g. update g p (some (decoder c.state))) s.heap_eq ∙ update-update h p _ _;
        fresh = s.fresh;
        next_ne_null = s.next_ne_null;
      }

      streamed :
          Calls enc law blind h fatal ignore_bom handle name lowercase handle_ne_null e at m seen p
            p
            (some d)
            xs
            last
            input
            output
      streamed = record {
        machine' = m';
        equation = rw (==_ne p null s.ne_null) called_lem;
        bytes_eq = refl;
        stands = left;
        reset =
            reset_decoder-Streaming h enc fatal ignore_bom handle name lowercase m' seen p c.state
              left;
      }

  abbrev pub decoder_of : Bool → Ptr → TextDecoder
  decoder_of = td enc law blind h fatal ignore_bom handle name lowercase handle_ne_null e at

  -- the outcome of `decode`
  pub record Replies (o : Outcome (Machine w) (Decoded × TextDecoder))
      (rs : Decoded × IdealState w.Decoder) : Type 0 where
    pub pointer : Ptr
    pub machine' : Machine w
    pub equation : o ≡ returned (rs.0, decoder_of rs.1.bom_seen pointer) machine'
    pub stands : Stands h machine' pointer rs.1.state

  replied :
      (p : Ptr) (o : Outcome (Machine w) (Decoded × TextDecoder))
      (rs : Decoded × IdealState w.Decoder)
      → As enc law blind h fatal ignore_bom handle name lowercase handle_ne_null e at p o rs
      → Replies o rs
  replied p o rs r = record {
    pointer = r.pointer;
    machine' = r.machine';
    equation = r.equation;
    stands = r.stands;
  }

  -- a text of the last piece
  freed_text :
      (p : Ptr)
      → p ≢ null
      → (o : Outcome (Machine w) (Decoded × TextDecoder)) (t : List ℕ) (s : IdealState w.Decoder)
        (f : As enc law blind h fatal ignore_bom handle name lowercase handle_ne_null e at p o
          (text t, s))
        (q : Option w.Decoder)
      → Stands h f.machine' f.pointer q
      → Replies (and_then o λ rt. after_last enc p rt) (text t, record s { state = none })
  freed_text p ne o t s f none idle = absurd (ne (sym f.keeps ∙ idle.is_null))
  freed_text p ne o t s f (some d) live =
      let there : Streaming h f.machine' p d =
        subst (λ x. Streaming h f.machine' x d) f.keeps live in
      record {
        pointer = null;
        machine' = record f.machine' { heap = h };
        equation = rw f.equation (
            rw (freed-Idle h enc fatal ignore_bom handle name lowercase f.machine' p d there) refl);
        stands = left-Idle h enc fatal ignore_bom handle name lowercase f.machine' p d there;
      }

  -- the last piece, once it has been decoded
  last_lem :
      (p : Ptr)
      → p ≢ null
      → (o : Outcome (Machine w) (Decoded × TextDecoder)) (r : Decoded) (s : IdealState w.Decoder)
      → As enc law blind h fatal ignore_bom handle name lowercase handle_ne_null e at p o (r, s)
      → Replies (and_then o λ rt. after_last enc p rt) (ideal_last (r, s))
  last_lem p ne o (text t) s f = freed_text p ne o t s f s.state f.stands
  last_lem p ne o type_error s f = record {
    pointer = f.pointer;
    machine' = f.machine';
    equation = rw f.equation refl;
    stands = f.stands;
  }
  last_lem p ne o out_of_memory s f = record {
    pointer = f.pointer;
    machine' = f.machine';
    equation = rw f.equation refl;
    stands = f.stands;
  }

  module _ (seen : Bool) (xs : List ℕ) (input : Ptr) (input_ne_null : input ≢ null)
      (alloc_output : Option Ptr) (output_ne_null : alloc_output ≢ some null) where
    ne_null : (output : Ptr) → alloc_output ≡ some output → output ≢ null
    ne_null output e z = output_ne_null (e ∙ ap some z)

    abbrev decoding : Bool → Ptr → Machine w → Outcome (Machine w) (Decoded × TextDecoder)
    decoding stream p m = decode enc alloc_output (decoder_of seen p) input (length xs) stream m

    abbrev meaning : Bool → Option w.Decoder → Decoded × IdealState w.Decoder
    meaning stream q =
        ideal_decode enc fatal ignore_bom e (record { bom_seen = seen; state = q }) xs stream
          (given alloc_output)

    module _ (m : Machine w) (there : read_slice m.bytes input (length xs) ≡ xs) where
      piece :
          (p : Ptr) (d : w.Decoder)
          → enc.finished d ≡ false
          → (last : Bool) → Streaming h m p d
          → As enc law blind h fatal ignore_bom handle name lowercase handle_ne_null e at p
              (decode_with enc alloc_output (decoder_of seen p) input (length xs) p last m)
              (ideal_with enc fatal ignore_bom e (given alloc_output) seen (some d) xs last)
      piece p d unfinished last s =
          with_lem enc law blind h fatal ignore_bom handle name lowercase handle_ne_null e at m seen
            p p (some d) xs last input s alloc_output
            λ output z.
              streamed m seen xs input input_ne_null there output (ne_null output z) p d unfinished
                last s

      whole :
          Idle h m null
          → As enc law blind h fatal ignore_bom handle name lowercase handle_ne_null e at null
              (decode_with enc alloc_output (decoder_of seen null) input (length xs) null true m)
              (ideal_with enc fatal ignore_bom e (given alloc_output) seen none xs true)
      whole idle =
          with_lem enc law blind h fatal ignore_bom handle name lowercase handle_ne_null e at m seen
            null null none xs true input idle alloc_output
            λ output z. at_once m seen xs input input_ne_null there output (ne_null output z) idle

    module _ (m : Machine w) (there : read_slice m.bytes input (length xs) ≡ xs)
        (idle : Idle h m null) where
      -- with the decoder of a new stream
      abbrev begun : Machine w
      begun = record m {
        heap = update m.heap m.next (some (decoder (enc.new_decoder e)));
        next = suc m.next;
      }

      begun-Streaming : Streaming h begun m.next (enc.new_decoder e)
      begun-Streaming = record {
        ne_null = λ z. absurd (omega (arith, z, idle.next_ne_null));
        unused = idle.fresh m.next (omega arith);
        heap_eq = ap (λ g. update g m.next (some (decoder (enc.new_decoder e)))) idle.heap_eq;
        fresh = λ q l. idle.fresh q (omega (arith, l));
        next_ne_null = omega arith;
      }

      begun_lem : encoding_decoder_new enc handle m ≡ returned m.next begun
      unfolding encoding_decoder_new alloc
      begun_lem = rw (==_ne handle null handle_ne_null) (rw (deref_lem enc m handle e at) refl)

      idle_lem : (stream : Bool) → Replies (decoding stream null m) (meaning stream none)
      unfolding decode decode_piece ideal_decode
      idle_lem true = rw begun_lem (
          rw (==_ne m.next null begun-Streaming.ne_null) (
            replied m.next _ _ (
              piece begun there m.next (enc.new_decoder e) (law.finished-new_decoder e) false
                begun-Streaming)))
      idle_lem false = replied null _ _ (whole m there idle)

    pub decode_lem :
        (m : Machine w)
        → read_slice m.bytes input (length xs) ≡ xs
        → (stream : Bool) (q : Option w.Decoder) (p : Ptr) → Stands h m p q
        → Unfinished enc q
        → Replies (decoding stream p m) (meaning stream q)
    unfolding decode decode_piece ideal_decode
    decode_lem m there stream none p idle u =
        subst (λ x. Replies (decoding stream x m) (meaning stream none)) (sym idle.is_null)
          (idle_lem m there
            (record {
              is_null = refl;
              heap_eq = idle.heap_eq;
              fresh = idle.fresh;
              next_ne_null = idle.next_ne_null;
            })
            stream)
    decode_lem m there true (some d) p s u =
        rw (==_ne p null s.ne_null) (replied p _ _ (piece m there p d u false s))
    decode_lem m there false (some d) p s u =
        rw (==_ne p null s.ne_null) (last_lem p s.ne_null _ _ _ (piece m there p d u true s))
