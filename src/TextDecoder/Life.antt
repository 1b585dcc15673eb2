-- ===== src/TextDecoder/Life.antt =====
-- The life of a decoder of browser/webapi/encoding/TextDecoder.zig, from its label to its end.
use zenpanda.Prelude.{
  ℕ, ◌≤◌, ◌<◌, ◌≡◌, ◌≢◌, refl, ap, List, [], ◌∷◌, length, Option, none, some, Bool, true, false,
  ==_ne,
}
use zenpanda.Html5ever.{Ptr, null}
use zenpanda.EncodingRs.{EncodingRs}
use zenpanda.Memory.{Holds, read_slice, write_slice, read_slice-write_slice}
use zenpanda.Machine.{World, Heap, Machine, Outcome, returned}
use zenpanda.Machine.Slices.{from_raw_parts_lem, write_parts_lem}
use zenpanda.Encoding.{encoding_for_label}
use zenpanda.Encoding.Bounds.{Documented}
use zenpanda.TextDecoder.{
  TextDecoder, Call, Decoded, opened, eql, replacement, init, deinit, decodes, life,
}
use zenpanda.TextDecoder.Ideal.{IdealState, WritesOnly, given, ideal_decode, ideal_decodes}
use zenpanda.TextDecoder.Unfinished.{Unfinished, ideal_decode-Unfinished}
use zenpanda.TextDecoder.Holds.{held, Stands, freed-Idle}
use zenpanda.TextDecoder.Pieces.{decoder_of, decode_lem}

-- No pointer of a call is null.
abbrev pub HasPointers : List Call → Type 0
HasPointers [] = Unit {0}
HasPointers (c ∷ cs) = (c.at ≢ null) × (c.output ≢ some null) × HasPointers cs

module _ {w : World} (enc : EncodingRs w.Decoder) (law : Documented enc) (blind : WritesOnly enc)
    (h : Heap w) (fatal ignore_bom : Bool) (handle : Ptr) (name lowercase : List ℕ)
    (handle_ne_null : handle ≢ null) (e : enc.Encoding) (at : enc.at_address handle ≡ some e) where
  -- the outcome of the calls
  record RepliesAll (o : Outcome (Machine w) (List Decoded × TextDecoder))
      (rs : List Decoded × IdealState w.Decoder) : Type 0 where
    pointer : Ptr
    machine' : Machine w
    equation :
        o
        ≡ returned
            (
              rs.0,
              decoder_of enc law blind h fatal ignore_bom handle name lowercase handle_ne_null e at
                  rs.1.bom_seen pointer,
            )
            machine'
    stands : Stands h machine' pointer rs.1.state

  filled-Stands :
      (c : Call) (m : Machine w) (p : Ptr) (q : Option w.Decoder)
      → Stands h m p q
      → Stands h (record m { bytes = write_slice m.bytes c.at c.input }) p q
  filled-Stands c m p none s = record {
    is_null = s.is_null;
    heap_eq = s.heap_eq;
    fresh = s.fresh;
    next_ne_null = s.next_ne_null;
  }
  filled-Stands c m p (some d) s = record {
    ne_null = s.ne_null;
    unused = s.unused;
    heap_eq = s.heap_eq;
    fresh = s.fresh;
    next_ne_null = s.next_ne_null;
  }

  decodes_lem :
      (cs : List Call) (s : IdealState w.Decoder) (m : Machine w) (p : Ptr)
      → HasPointers cs
      → Stands h m p s.state
      → Unfinished enc s.state
      → RepliesAll
          (decodes enc cs
            (decoder_of enc law blind h fatal ignore_bom handle name lowercase handle_ne_null e at
              s.bom_seen p)
            m)
          (ideal_decodes enc fatal ignore_bom e s cs)
  unfolding decodes ideal_decodes
  decodes_lem [] s m p ok stands u = record {
    pointer = p;
    machine' = m;
    equation = refl;
    stands = stands;
  }
  decodes_lem (c ∷ cs) s m p ok stands u =
      let r =
        decode_lem enc law blind h fatal ignore_bom handle name lowercase handle_ne_null e at
          s.bom_seen c.input c.at ok.0 c.output ok.1
          (record m { bytes = write_slice m.bytes c.at c.input })
          (read_slice-write_slice m.bytes c.at c.input) c.stream s.state p
          (filled-Stands c m p s.state stands) u in
      let rest =
        decodes_lem cs (ideal_decode enc fatal ignore_bom e s c.input c.stream (given c.output)).1
          r.machine' r.pointer ok.2 r.stands
          (ideal_decode-Unfinished enc law fatal ignore_bom e s c.input c.stream (given c.output)
            u) in
      record {
        pointer = rest.pointer;
        machine' = rest.machine';
        equation = rw (write_parts_lem m c.at c.input ok.0) (rw r.equation (rw rest.equation refl));
        stands = rest.stands;
      }

  deinit_lem :
      (m : Machine w) (seen : Bool) (p : Ptr) (q : Option w.Decoder)
      → Stands h m p q
      → deinit enc
          (decoder_of enc law blind h fatal ignore_bom handle name lowercase handle_ne_null e at
            seen p)
          m
        ≡ returned tt (record m { heap = h })
  unfolding deinit
  deinit_lem m seen p none s =
      rw s.is_null (ap (λ (g : Heap w). returned tt (record m { heap = g })) s.heap_eq)
  deinit_lem m seen p (some d) s =
      rw (==_ne p null s.ne_null) (freed-Idle h enc fatal ignore_bom handle name lowercase m p d s)

module _ {w : World} (enc : EncodingRs w.Decoder) (law : Documented enc) (m : Machine w)
    (label : Ptr) (label_len : ℕ) (label_ne_null : label ≢ null) (label_len_ne_zero : label_len ≢ 0)
    (e : enc.Encoding) (known : enc.for_label (read_slice m.bytes label label_len) ≡ some e)
    (name_ne_null : (enc.name e).at ≢ null) (name_holds : Holds m.bytes (enc.name e))
    (usable : eql (enc.name e).text replacement ≡ false) (fatal ignore_bom : Bool) where
  init_lem :
      init enc label label_len fatal ignore_bom true m
      ≡ returned (opened (held fatal ignore_bom (enc.address e) (enc.name e).text [] false null)) m
  unfolding init encoding_for_label
  init_lem =
      rw (==_ne label null label_ne_null, ==_ne label_len 0 label_len_ne_zero)
        (rw (from_raw_parts_lem m label label_len label_ne_null) (
          rw known (
            rw (from_raw_parts_lem m (enc.name e).at (length (enc.name e).text) name_ne_null)
              (rw name_holds (rw usable refl)))))

  -- Given what encoding_rs documents, its decoders not reading the buffer that they write among it:
  -- for a label that it knows, of an encoding that is not called `replacement` and whose name
  -- stands in memory, and on a machine with nothing at or behind the next address, a TextDecoder
  -- that is made for it with any options, called with any inputs in memory, as pieces of a stream
  -- or not, and dropped, answers as if one decoder value were passed from call to call, errors of
  -- memory and of fatal mode included, and leaves the heap as it was: the decoder of a stream is
  -- freed exactly once, whether the stream ends, fails or is abandoned.
  pub life-ideal :
      WritesOnly enc
      → (cs : List Call) → HasPointers cs
      → ((q : Ptr) → m.next ≤ q → m.heap q ≡ none)
      → 0 < m.next
      → (m' : Machine w) × (life enc label label_len fatal ignore_bom cs m
          ≡ returned
              (some
                (ideal_decodes enc fatal ignore_bom e
                  (record { bom_seen = false; state = none })
                  cs).0)
              m')
        × (m'.heap ≡ m.heap)
  unfolding life
  life-ideal blind cs ok fresh next_ne_null =
      let r =
        decodes_lem enc law blind m.heap fatal ignore_bom (enc.address e) (enc.name e).text []
          (law.address_ne_null e) e (law.at_address-address e) cs
          (record { bom_seen = false; state = none }) m null ok
          (record { is_null = refl; heap_eq = refl; fresh = fresh; next_ne_null = next_ne_null })
          tt in
      (
        record r.machine' { heap = m.heap },
        rw init_lem (
            rw r.equation (
              rw
                (deinit_lem enc law blind m.heap fatal ignore_bom (enc.address e) (enc.name e).text
                  [] (law.address_ne_null e) e (law.at_address-address e) r.machine' _ r.pointer _
                  r.stands)
                refl)),
        refl,
      )
