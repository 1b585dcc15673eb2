-- ===== src/TextDecoder/Errors.antt =====
-- What a failed call of `decode` of browser/webapi/encoding/TextDecoder.zig leaves.
use zenpanda.Prelude.{
  ℕ, ◌≡◌, ◌≢◌, refl, ap, ◌∙◌, sym, subst, List, length, Option, none, some, Bool, true, false, not,
  ◌&&◌, ◌==◌,
}
use zenpanda.Html5ever.{Ptr, null}
use zenpanda.EncodingRs.{EncodingRs}
use zenpanda.Memory.{read_slice}
use zenpanda.Machine.{World, Heap, Machine, Outcome, returned, panicked, aborted, undefined}
use zenpanda.Encoding.Bounds.{Documented}
use zenpanda.TextDecoder.{TextDecoder, Decoded, text, type_error, out_of_memory, decode}
use zenpanda.TextDecoder.Ideal.{
  IdealState, WritesOnly, given, state_or_new, capacity, ideal_with, ideal_last, ideal_end,
  ideal_decode,
}
use zenpanda.TextDecoder.Unfinished.{Unfinished, if_both}
use zenpanda.TextDecoder.Holds.{held, Stands}
use zenpanda.TextDecoder.Pieces.{decode_lem}

-- A call that fails leaves the state of a decoder that has not been used.
OnError : {D : Type 0} → Decoded × IdealState D → Type 0
OnError (text t, s) = Unit {0}
OnError (out_of_memory, s) = Unit {0}
OnError (type_error, s) = (s.bom_seen ≡ false) × (s.state ≡ none)

module _ {D : Type 0} where
  text_OnError : (t : List ℕ) (s : IdealState D) → OnError (text t, s)
  unfolding OnError
  text_OnError t s = tt

  memory_OnError : (s : IdealState D) → OnError (out_of_memory, s)
  unfolding OnError
  memory_OnError s = tt

restarted : (D : Type 0) → OnError {D = D} (type_error, record { bom_seen = false; state = none })
unfolding OnError
restarted D = (refl, refl)

module _ {D : Type 0} (enc : EncodingRs D) (fatal ignore_bom : Bool) (e : enc.Encoding) where
  with_OnError :
      (memory seen : Bool) (q : Option D) (xs : List ℕ) (last : Bool)
      → OnError (ideal_with enc fatal ignore_bom e memory seen q xs last)
  with_OnError memory seen q xs last =
      if_both OnError (length xs == 0 && not last) (text_OnError _ _) (
        if_both OnError (capacity enc fatal ignore_bom e (length xs) == 0) (text_OnError _ _) (
          if_both OnError memory
            (if_both OnError _ (restarted D)
              (if_both OnError (not seen && not ignore_bom) (text_OnError _ _) (text_OnError _ _)))
            (memory_OnError _)))

  last_OnError : (rs : Decoded × IdealState D) → OnError rs → OnError (ideal_last rs)
  unfolding OnError
  last_OnError (text t, s) f = tt
  last_OnError (type_error, s) f = f
  last_OnError (out_of_memory, s) f = tt

  end_OnError :
      (memory seen : Bool) (q : Option D) (xs : List ℕ)
      → OnError (ideal_end enc fatal ignore_bom e memory seen q xs)
  end_OnError memory seen none xs = with_OnError memory seen none xs true
  end_OnError memory seen (some d) xs = last_OnError _ (with_OnError memory seen (some d) xs true)

  decode_OnError :
      (s : IdealState D) (xs : List ℕ) (stream memory : Bool)
      → OnError (ideal_decode enc fatal ignore_bom e s xs stream memory)
  unfolding ideal_decode
  decode_OnError s xs stream memory =
      if_both OnError stream
        (with_OnError memory s.bom_seen (some (state_or_new enc fatal ignore_bom e s.state)) xs
          false)
        (end_OnError memory s.bom_seen s.state xs)

module _ {M A : Type 0} where
  abbrev value_of : A → Outcome M A → A
  value_of a (returned b m) = b
  value_of a (panicked m) = a
  value_of a aborted = a
  value_of a undefined = a

  abbrev machine_of : M → Outcome M A → M
  machine_of m (returned a m') = m'
  machine_of m (panicked m') = m
  machine_of m aborted = m
  machine_of m undefined = m

module _ {w : World} (enc : EncodingRs w.Decoder) (law : Documented enc) (blind : WritesOnly enc)
    (h : Heap w) (fatal ignore_bom : Bool) (handle : Ptr) (name lowercase : List ℕ)
    (handle_ne_null : handle ≢ null) (e : enc.Encoding) (at : enc.at_address handle ≡ some e) where
  null_lem :
      (m : Machine w) (p : Ptr) (q : Option w.Decoder)
      → Stands h m p q
      → q ≡ none
      → (p ≡ null) × (m.heap ≡ h)
  null_lem m p none s z = (s.is_null, s.heap_eq)
  null_lem m p (some d) s z = absurd cc

  -- Given what encoding_rs documents: a call of `decode` of a TextDecoder, in a stream or not and
  -- with no decoder that has finished, as it is between all calls of one, that ends with the error
  -- of fatal mode leaves the TextDecoder as it was when it was made, with no decoder and no mark
  -- seen, and the heap without the decoder that it may have had.
  pub decode-failed :
      (m m' : Machine w) (seen : Bool) (p : Ptr) (q : Option w.Decoder) (xs : List ℕ) (input : Ptr)
      (alloc_output : Option Ptr) (stream : Bool) (td' : TextDecoder)
      → Stands h m p q
      → Unfinished enc q
      → input ≢ null
      → read_slice m.bytes input (length xs) ≡ xs
      → alloc_output ≢ some null
      → decode enc alloc_output
          (held fatal ignore_bom handle name lowercase seen p)
          input
          (length xs)
          stream
          m
        ≡ returned (type_error, td') m'
      → (td' ≡ held fatal ignore_bom handle name lowercase false null) × (m'.heap ≡ h)
  unfolding OnError
  decode-failed m m' seen p q xs input alloc_output stream td' stands unfinished input_ne there
        output_ne failed =
      let r =
        decode_lem enc law blind h fatal ignore_bom handle name lowercase handle_ne_null e at seen
          xs input input_ne alloc_output output_ne m there stream q p stands unfinished in
      let rs =
        ideal_decode enc fatal ignore_bom e (record { bom_seen = seen; state = q }) xs stream
          (given alloc_output) in
      let same = sym r.equation ∙ failed in
      let error : rs.0 ≡ type_error =
        ap (λ o. (value_of {A = Decoded × TextDecoder} (type_error, td') o).0) same in
      let new : (rs.1.bom_seen ≡ false) × (rs.1.state ≡ none) =
        subst (λ x. OnError (x, rs.1)) error
          (decode_OnError enc fatal ignore_bom e (record { bom_seen = seen; state = q }) xs stream
            (given alloc_output)) in
      let freed = null_lem r.machine' r.pointer rs.1.state r.stands new.1 in
      (
        sym (ap (λ o. (value_of {A = Decoded × TextDecoder} (type_error, td') o).1) same)
            ∙ ap (λ b. held fatal ignore_bom handle name lowercase b r.pointer) new.0
            ∙ ap (λ x. held fatal ignore_bom handle name lowercase false x) freed.0,
        ap (λ g. g.heap) (sym (ap (machine_of m') same)) ∙ freed.1,
      )
