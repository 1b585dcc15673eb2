-- ===== src/TextDecoder/Coding.antt =====
-- `_decode` of browser/webapi/encoding/TextDecoder.zig against its meaning, at once and with the decoder
-- of a stream.
use zenpanda.Prelude.{
  ℕ, suc, ◌≡◌, ◌≢◌, refl, ap, ◌∙◌, subst, List, [], ◌∷◌, length, take, Option, none, some, Bool,
  false, not, ◌&&◌, ◌==◌, ==_ne, if◌then◌else◌, if-related, arith,
}
use zenpanda.Html5ever.{Ptr, null}
use zenpanda.EncodingRs.{EncodingRs, Coded}
use zenpanda.Memory.{read_slice, write_slice, length-read_slice, read_slice-written}
use zenpanda.Machine.{World, Heap, Machine, Outcome, Run, returned, ◌>>=◌}
use zenpanda.Encoding.{
  DecodeResult, decode_result, encoding_max_utf8_buffer_length, encoding_decode,
  encoding_decoder_decode,
}
use zenpanda.Encoding.Handles.{deref_lem, input_of}
use zenpanda.Encoding.Bounds.{Documented}
use zenpanda.TextDecoder.{
  TextDecoder, Decoded, text, type_error, out_of_memory, had_errors, finish_decode, reset_decoder,
  decode_with,
}
use zenpanda.TextDecoder.Ideal.{
  IdealState, WritesOnly, given, blank, state_or_new, kept, capacity, ideal_coded, ideal_with,
}
use zenpanda.TextDecoder.Holds.{
  had_errors-decode_result, held, Stands, Keeps, DecodedAs, DecodedAt, finish_lem,
}

-- what stands at a pointer is what is read as input
pub input_of_lem :
    {w : World} (m : Machine w) (p : Ptr) (xs : List ℕ)
    → p ≢ null
    → read_slice m.bytes p (length xs) ≡ xs
    → input_of m.bytes p (length xs) ≡ xs
input_of_lem m p [] ne there = rw (==_ne p null ne) refl
input_of_lem m p (x ∷ xs) ne there =
    rw (==_ne p null ne, ==_ne (suc (length xs)) 0 λ z. omega (arith, z)) there

module _ {w : World} (enc : EncodingRs w.Decoder) (law : Documented enc) (blind : WritesOnly enc)
    (h : Heap w) (fatal ignore_bom : Bool) (handle : Ptr) (name lowercase : List ℕ)
    (handle_ne_null : handle ≢ null) (e : enc.Encoding) (at : enc.at_address handle ≡ some e) where
  abbrev pub td : Bool → Ptr → TextDecoder
  td = held fatal ignore_bom handle name lowercase

  abbrev pub As :
      Ptr → Outcome (Machine w) (Decoded × TextDecoder) → Decoded × IdealState w.Decoder → Type 0
  As = DecodedAs h enc fatal ignore_bom handle name lowercase

  abbrev pub At :
      Ptr → Machine w → Run w (Decoded × TextDecoder) → Decoded × IdealState w.Decoder → Type 0
  At = DecodedAt h enc fatal ignore_bom handle name lowercase

  capacity_lem :
      (m : Machine w) (n : ℕ)
      → encoding_max_utf8_buffer_length enc handle (if n == 0 then 4 else n) m
        ≡ returned (capacity enc fatal ignore_bom e n) m
  unfolding encoding_max_utf8_buffer_length
  capacity_lem m n = rw (==_ne handle null handle_ne_null) (rw (deref_lem enc m handle e at) refl)

  module _ (m : Machine w) (seen : Bool) (p sp : Ptr) (q : Option w.Decoder) (xs : List ℕ)
      (last : Bool) (input : Ptr) where
    abbrev pub n : ℕ
    n = capacity enc fatal ignore_bom e (length xs)

    abbrev pub d : w.Decoder
    d = state_or_new enc fatal ignore_bom e q

    abbrev pub coded : Ptr → Coded w.Decoder
    coded output = enc.decode_to_utf8 d xs (read_slice m.bytes output n) last

    abbrev pub called : Ptr → Run w DecodeResult
    called output =
        if sp == null
        then encoding_decode enc handle input (length xs) output n 1
        else encoding_decoder_decode enc sp input (length xs) output n (if last then 1 else 0)

    -- The call of the coder writes the buffer, and what it leaves stands.
    pub record Calls (output : Ptr) : Type 0 where
      pub machine' : Machine w
      pub equation : called output m ≡ returned (decode_result (coded output)) machine'
      pub bytes_eq : machine'.bytes ≡ write_slice m.bytes output (coded output).output
      pub stands : Stands h machine' p (kept enc fatal ignore_bom e q (coded output).state)
      pub reset :
          As p
            (reset_decoder enc (td seen p) sp machine')
            (type_error, record { bom_seen = false; state = none })

    written_lem :
        (output : Ptr) (c : Calls output)
        → read_slice c.machine'.bytes output (coded output).written
          ≡ take (coded output).written (coded output).output
    written_lem output c =
        let b = law.decode_to_utf8 d xs (read_slice m.bytes output n) last in
        ap (λ x. read_slice x output (coded output).written) c.bytes_eq
        ∙ read_slice-written m.bytes output (coded output).written (coded output).output
            (omega (arith, b.written, b.output_length))

    coded_lem :
        (output : Ptr) (c : Calls output)
        → At p c.machine'
            (if fatal && had_errors (decode_result (coded output))
              then reset_decoder enc (td seen p) sp
              else finish_decode enc (td seen p) output (decode_result (coded output)))
            (ideal_coded enc fatal ignore_bom e seen q
              (coded output).state
              (coded output).had_errors
              (take (coded output).written (coded output).output))
    unfolding decode_result
    coded_lem output c = rw (had_errors-decode_result (coded output)) (
        if-related (At p c.machine') (fatal && (coded output).had_errors) (λ b. c.reset)
          λ b.
            finish_lem h enc fatal ignore_bom handle name lowercase c.machine' seen p
              (kept enc fatal ignore_bom e q (coded output).state) output
              (decode_result (coded output)) (take (coded output).written (coded output).output)
              c.stands (written_lem output c))

    -- The coder's answer does not depend on the buffer.
    unread :
        (output : Ptr) (o : Outcome (Machine w) (Decoded × TextDecoder))
        → As p o (
            ideal_coded enc fatal ignore_bom e seen q
              (coded output).state
              (coded output).had_errors
              (take (coded output).written (coded output).output))
        → As p o (
            let c = enc.decode_to_utf8 d xs (blank n) last in
            ideal_coded enc fatal ignore_bom e seen q c.state c.had_errors
              (take c.written c.output))
    unread output o r =
        let out = read_slice m.bytes output n in
        let same : length out ≡ n = length-read_slice m.bytes output n in
        let state_eq =
          subst (λ k. (enc.decode_to_utf8 d xs (blank k) last).state ≡ (coded output).state) same
            (blind.state d xs out last) in
        let errors_eq =
          subst
            (λ k. (enc.decode_to_utf8 d xs (blank k) last).had_errors ≡ (coded output).had_errors)
            same (blind.had_errors d xs out last) in
        let text_eq =
          subst
            (λ k.
              let c = enc.decode_to_utf8 d xs (blank k) last in
              take c.written c.output ≡ take (coded output).written (coded output).output)
            same (blind.result d xs out last) in
        rw (text_eq, state_eq, errors_eq) r

    module _ (stands : Stands h m p q) where
      unchanged :
          (r : Decoded)
          → Keeps h p r p
          → As p (returned (r, td seen p) m) (r, record { bom_seen = seen; state = q })
      unchanged r k = record {
        pointer = p;
        machine' = m;
        equation = refl;
        stands = stands;
        keeps = k;
      }

      buffer_lem :
          (alloc_output : Option Ptr)
          → ((output : Ptr) → alloc_output ≡ some output → Calls output)
          → At p m
              (elim alloc_output [
                | none ↦ λ m'. returned (out_of_memory, td seen p) m'
                | some output ↦ called output >>= λ result.
                    if fatal && had_errors result
                    then reset_decoder enc (td seen p) sp
                    else finish_decode enc (td seen p) output result
              ])
              (if given alloc_output
                then (let c = enc.decode_to_utf8 d xs (blank n) last in
                    ideal_coded enc fatal ignore_bom e seen q c.state c.had_errors
                      (take c.written c.output))
                else (out_of_memory, record { bom_seen = seen; state = q }))
      buffer_lem none calls = unchanged out_of_memory tt
      buffer_lem (some output) calls =
          let c = calls output refl in unread output _ (rw c.equation (coded_lem output c))

      pub with_lem :
          (alloc_output : Option Ptr)
          → ((output : Ptr) → alloc_output ≡ some output → Calls output)
          → As p
              (decode_with enc alloc_output (td seen p) input (length xs) sp last m)
              (ideal_with enc fatal ignore_bom e (given alloc_output) seen q xs last)
      unfolding decode_with blank
      with_lem alloc_output calls =
          if-related (At p m) (length xs == 0 && not last) (λ b. unchanged (text []) refl)
            λ b. rw (capacity_lem m (length xs)) (
              if-related (At p m) (n == 0) (λ z. unchanged (text []) refl)
                λ z. buffer_lem alloc_output calls)
