-- ===== src/TextDecoder/Ideal.antt =====
-- What browser/webapi/encoding/TextDecoder.zig means with no handles, buffers and pointers: the
-- decoder of a stream is a value that is passed from call to call.
use zenpanda.Prelude.{
  ℕ, zero, suc, ◌≡◌, List, [], ◌∷◌, length, take, Option, none, some, Bool, true, false, not, ◌&&◌,
  ◌==◌, if◌then◌else◌,
}
use zenpanda.EncodingRs.{EncodingRs}
use zenpanda.Html5ever.{Ptr}
use zenpanda.TextDecoder.{Call, Decoded, text, type_error, out_of_memory, strip_bom}

unfoldable pub blank : ℕ → List ℕ
blank zero = []
blank (suc n) = 0 ∷ blank n

-- A decoder does not read the buffer that it writes: this is documented of encoding_rs.
pub record WritesOnly {D : Type 0} (enc : EncodingRs D) : Type 0 where
  pub state :
      (d : D) (xs out : List ℕ) (last : Bool)
      → (enc.decode_to_utf8 d xs (blank (length out)) last).state
        ≡ (enc.decode_to_utf8 d xs out last).state
  pub had_errors :
      (d : D) (xs out : List ℕ) (last : Bool)
      → (enc.decode_to_utf8 d xs (blank (length out)) last).had_errors
        ≡ (enc.decode_to_utf8 d xs out last).had_errors
  pub result :
      (d : D) (xs out : List ℕ) (last : Bool)
      → let c = enc.decode_to_utf8 d xs (blank (length out)) last in
        let c' = enc.decode_to_utf8 d xs out last in
        take c.written c.output ≡ take c'.written c'.output

-- the decoder of a stream that has begun, and whether a mark has been looked for
pub record IdealState (D : Type 0) : Type 0 where
  pub bom_seen : Bool
  pub state : Option D

-- whether the arena gave memory
abbrev pub given : Option Ptr → Bool
given none = false
given (some p) = true

module _ {D : Type 0} where
  abbrev pub ideal_last : Decoded × IdealState D → Decoded × IdealState D
  ideal_last (text t, s) = (text t, record s { state = none })
  ideal_last (type_error, s) = (type_error, s)
  ideal_last (out_of_memory, s) = (out_of_memory, s)

module _ {D : Type 0} (ignore_bom : Bool) where
  -- a text in a state, and what is left
  abbrev pub ideal_text : IdealState D → List ℕ → Decoded × IdealState D
  ideal_text s t =
      if not s.bom_seen && not ignore_bom
      then (text (strip_bom t), record s { bom_seen = true })
      else (text t, s)

module _ {D : Type 0} (enc : EncodingRs D) (fatal ignore_bom : Bool) (e : enc.Encoding) where
  abbrev pub state_or_new : Option D → D
  state_or_new none = enc.new_decoder e
  state_or_new (some d) = d

  abbrev pub kept : Option D → D → Option D
  kept none d = none
  kept (some d') d = some d

  abbrev pub capacity : ℕ → ℕ
  capacity n = elim (enc.max_utf8_buffer_length (enc.new_decoder e) (if n == 0 then 4 else n)) [
    | some k ↦ k
    | none ↦ 0
  ]

  abbrev pub ideal_coded : Bool → Option D → D → Bool → List ℕ → Decoded × IdealState D
  ideal_coded seen q d errors t =
      if fatal && errors
      then (type_error, record { bom_seen = false; state = none })
      else ideal_text ignore_bom (record { bom_seen = seen; state = kept q d }) t

  -- one call of the coder, or none if there is nothing to do
  abbrev pub ideal_with : Bool → Bool → Option D → List ℕ → Bool → Decoded × IdealState D
  ideal_with memory seen q xs last =
      if length xs == 0 && not last
      then (text [], record { bom_seen = seen; state = q })
      else if capacity (length xs) == 0
      then (text [], record { bom_seen = seen; state = q })
      else if memory
      then (let c = enc.decode_to_utf8 (state_or_new q) xs (blank (capacity (length xs))) last in
          ideal_coded seen q c.state c.had_errors (take c.written c.output))
      else (out_of_memory, record { bom_seen = seen; state = q })

  abbrev pub ideal_end : Bool → Bool → Option D → List ℕ → Decoded × IdealState D
  ideal_end memory seen none xs = ideal_with memory seen none xs true
  ideal_end memory seen (some d) xs = ideal_last (ideal_with memory seen (some d) xs true)

  -- input, whether more follows, whether there is memory for the output
  unfoldable pub ideal_decode : IdealState D → List ℕ → Bool → Bool → Decoded × IdealState D
  unfolding blank
  ideal_decode s xs stream memory =
      if stream
      then ideal_with memory s.bom_seen (some (state_or_new s.state)) xs false
      else ideal_end memory s.bom_seen s.state xs

  -- calls one after another
  unfoldable pub ideal_decodes : IdealState D → List Call → List Decoded × IdealState D
  ideal_decodes s [] = ([], s)
  ideal_decodes s (c ∷ cs) =
      let r = ideal_decode s c.input c.stream (given c.output) in
      let rs = ideal_decodes r.1 cs in (r.0 ∷ rs.0, rs.1)
