-- ===== src/Tests/Decoders.antt =====
-- A decoder of browser/webapi/encoding/TextDecoder.zig over a coder that copies.
use zenpanda.Prelude.{
  ◌<◌, List, [], ◌∷◌, Option, none, some, true, false, ◌≡◌, ◌≢◌, refl, ap, arith,
}
use zenpanda.Html5ever.{Ptr, null}
use zenpanda.Memory.{read_slice, write_slice}
use zenpanda.Machine.{Machine, returned}
use zenpanda.TextDecoder.{Call, text, out_of_memory, type_error, eql, life, decode}
use zenpanda.TextDecoder.Ideal.{ideal_decode, ideal_decodes, blank}
use zenpanda.TextDecoder.Holds.{held, Idle}
use zenpanda.TextDecoder.Pieces.{Replies, decode_lem}
use zenpanda.TextDecoder.Life.{HasPointers, life-ideal}
use zenpanda.TextDecoder.Errors.{decode-failed}
use zenpanda.Tests.Page.{Here, input, start}
use zenpanda.Tests.Coder.{
  coder, coder-Documented, coder-WritesOnly, copy, fill, failing, failing-Documented,
  failing-WritesOnly,
}

-- where a label stands, of the encoding whose name is `p`
abbrev label : Ptr
label = 700

abbrev labelled : Machine Here
labelled = record start { bytes = write_slice start.bytes label (b'x' ∷ b'p' ∷ []) }

not_null : (p : Ptr) → 0 < p → p ≢ null
not_null p l e = omega (arith, l, e)

abbrev pointer_or : Ptr → Option Ptr → Ptr
pointer_or p none = p
pointer_or p (some q) = q

some_not_null : (p : Ptr) → 0 < p → some p ≢ some null
some_not_null p l e = not_null p l (ap (pointer_or p) e)

abbrev piece : Call
piece = record { input = input; at = 800; stream = true; output = some 900 }

abbrev last_piece : Call
last_piece = record piece { stream = false }

abbrev hopeless : Call
hopeless = record piece { stream = false; output = none }

abbrev calls : List Call
calls = piece ∷ piece ∷ last_piece ∷ hopeless ∷ []

calls-HasPointers : HasPointers calls
calls-HasPointers =
    let at : 800 ≢ null = not_null 800 (omega arith) in
    let out : some 900 ≢ some null = some_not_null 900 (omega arith) in
    (at, out, (at, out, (at, out, (at, (λ e. absurd cc), tt))))

life-ideal_example :
    (m' : Machine Here) × (life coder label 2 true false calls labelled
      ≡ returned (some (text input ∷ text input ∷ text input ∷ out_of_memory ∷ [])) m')
    × (m'.heap ≡ start.heap)
unfolding ideal_decodes ideal_decode blank copy fill
life-ideal_example =
    life-ideal coder coder-Documented labelled label 2 (not_null label (omega arith))
      (λ e. omega (arith, e)) 112 (unfold read_slice write_slice in refl) (λ e. omega (arith, e))
      (unfold read_slice write_slice in refl) (unfold eql in refl) true false coder-WritesOnly calls
      calls-HasPointers (λ q l. refl) (omega arith)

-- the input, where the failing decoder reads it
abbrev ready : Machine Here
ready = record start { bytes = write_slice start.bytes 800 input }

ready-Idle : Idle start.heap ready null
ready-Idle = record {
  is_null = refl;
  heap_eq = refl;
  fresh = λ q l. refl;
  next_ne_null = omega arith;
}

ready_holds : read_slice ready.bytes 800 2 ≡ input
unfolding read_slice write_slice
ready_holds = refl

failed :
    Replies failing failing-Documented failing-WritesOnly start.heap true false 4
      (b'x' ∷ [])
      []
      (not_null 4 (omega arith))
      3
      refl
      (decode failing (some 900) (held true false 4 (b'x' ∷ []) [] true null) 800 2 true ready)
      (type_error, record { bom_seen = false; state = none })
unfolding ideal_decode blank copy fill
failed =
    decode_lem failing failing-Documented failing-WritesOnly start.heap true false 4 (b'x' ∷ []) []
      (not_null 4 (omega arith)) 3 refl true input 800 (not_null 800 (omega arith)) (some 900)
      (some_not_null 900 (omega arith)) ready ready_holds true none null ready-Idle tt

decode-failed_example :
    (held true false 4 (b'x' ∷ []) [] false failed.pointer
      ≡ held true false 4 (b'x' ∷ []) [] false null)
    × (failed.machine'.heap ≡ start.heap)
decode-failed_example =
    decode-failed failing failing-Documented failing-WritesOnly start.heap true false 4 (b'x' ∷ [])
      [] (not_null 4 (omega arith)) 3 refl ready failed.machine' true null none input 800 (some 900)
      true (held true false 4 (b'x' ∷ []) [] false failed.pointer) ready-Idle tt
      (not_null 800 (omega arith)) ready_holds (some_not_null 900 (omega arith)) failed.equation
