-- ===== src/Encoding/Decoders.antt =====
-- The decoder objects of html5ever/lib.rs over their lifetime, as TextDecoder.zig keeps one: it is
-- made, fed chunks of input, and freed.
use zenpanda.Prelude.{
  ℕ, suc, ◌≡◌, ◌≢◌, refl, sym, ap, ◌∙◌, List, [], ◌∷◌, none, some, false, not, ◌==◌, ==_ne,
}
use zenpanda.Html5ever.{Ptr, null}
use zenpanda.EncodingRs.{EncodingRs, Coded}
use zenpanda.Memory.{Bytes, read_slice, write_slice}
use zenpanda.Machine.{
  World, decoder, Heap, Machine, returned, undefined, update, Run, pure, ◌>>=◌, ◌>>◌, alloc,
  load_decoder, store_object, free,
}
use zenpanda.Machine.Slices.{from_raw_parts_lem, write_parts_lem}
use zenpanda.Encoding.{
  DecodeResult, decode_result, encoding_decoder_new, encoding_decoder_decode, encoding_decoder_free,
}
use zenpanda.Encoding.Bounds.{Documented}
use zenpanda.Encoding.Handles.{deref_lem, input_of, input_lem}
use zenpanda.Client.Drain.{update_self, update-update, update_at}

-- One call of `encoding_decoder_decode`, with an output buffer that exists.
pub record Chunk : Type 0 where
  pub input : Ptr
  pub input_len : ℕ
  pub output : Ptr
  pub output_len : ℕ
  pub is_last : ℕ
  pub output_ne_null : output ≢ null

-- Every chunk but the last says that more follows.
abbrev pub LastIsLast : List Chunk → Type 0
LastIsLast [] = Unit {0}
LastIsLast (c ∷ []) = Unit {0}
LastIsLast (c ∷ c' ∷ cs) = (c.is_last ≡ 0) × LastIsLast (c' ∷ cs)

module _ {D : Type 0} (enc : EncodingRs D) where
  -- What encoding_rs makes of a chunk, from a decoder and the memory.
  abbrev pub coded : D → Bytes → Chunk → Coded D
  coded d b c =
      enc.decode_to_utf8 d (input_of b c.input c.input_len) (read_slice b c.output c.output_len)
        (not (c.is_last == 0))

  coded-unfinished :
      Documented enc
      → (d : D) (b : Bytes) (c : Chunk) → enc.finished d ≡ false
      → c.is_last ≡ 0
      → enc.finished (coded d b c).state ≡ false
  coded-unfinished law d b c unfinished more =
      rw more (law.finished-decode_to_utf8 d _ _ unfinished)

  -- The same calls of one decoder value that is passed on, with no object and no pointer to it.
  pub decode_chunks : D → Bytes → List Chunk → D × Bytes × List DecodeResult
  decode_chunks d b [] = (d, b, [])
  decode_chunks d b (c ∷ cs) =
      let k = coded d b c in
      let rest = decode_chunks k.state (write_slice b c.output k.output) cs in
      (rest.0, rest.1, decode_result k ∷ rest.2)

module _ {w : World} (enc : EncodingRs w.Decoder) where
  -- the calls, one after another
  unfoldable pub decode_all : Ptr → List Chunk → Run w (List DecodeResult)
  decode_all p [] = pure []
  decode_all p (c ∷ cs) = do
    r ← encoding_decoder_decode enc p c.input c.input_len c.output c.output_len c.is_last
    rs ← decode_all p cs
    pure (r ∷ rs)

  module _ (m : Machine w) (p : Ptr) (d : w.Decoder) (here : m.heap p ≡ some (decoder d))
      (p_ne_null : p ≢ null) (unfinished : enc.finished d ≡ false) (c : Chunk) where
    abbrev pub after : Machine w
    after = record m {
      heap = update m.heap p (some (decoder (coded enc d m.bytes c).state));
      bytes = write_slice m.bytes c.output (coded enc d m.bytes c).output;
    }

    pub decode_one :
        encoding_decoder_decode enc p c.input c.input_len c.output c.output_len c.is_last m
        ≡ returned (decode_result (coded enc d m.bytes c)) after
    unfolding encoding_decoder_decode load_decoder store_object
    decode_one =
        let lent = record m {
          heap = update m.heap p (some (decoder (coded enc d m.bytes c).state));
        } in
        rw (==_ne p null p_ne_null, ==_ne c.output null c.output_ne_null)
          (rw here (
            rw (input_lem m c.input c.input_len) (
              rw (from_raw_parts_lem m c.output c.output_len c.output_ne_null) (
                rw unfinished (
                  rw (
                    write_parts_lem lent c.output (coded enc d m.bytes c).output
                      c.output_ne_null))))))

  -- The calls on a decoder object are the calls on its value: each works on what the last one left,
  -- and the object and the output buffers are all that changes.
  pub decode_all-decode_chunks :
      (law : Documented enc) (p : Ptr)
      → p ≢ null
      → (cs : List Chunk) (m : Machine w) (d : w.Decoder) → m.heap p ≡ some (decoder d)
      → enc.finished d ≡ false
      → LastIsLast cs
      → decode_all p cs m
        ≡ returned (decode_chunks enc d m.bytes cs).2 (record m {
          heap = update m.heap p (some (decoder (decode_chunks enc d m.bytes cs).0));
          bytes = (decode_chunks enc d m.bytes cs).1;
        })
  unfolding decode_all decode_chunks
  decode_all-decode_chunks law p ne [] m d here unfinished ends =
      ap (λ (h : Heap w). returned [] (record m { heap = h })) (sym (update_self m.heap p _ here))
  decode_all-decode_chunks law p ne (c ∷ []) m d here unfinished ends =
      rw (decode_one m p d here ne unfinished c) refl
  decode_all-decode_chunks law p ne (c ∷ c' ∷ cs) m d here unfinished ends =
      rw (decode_one m p d here ne unfinished c) (
        rw
          (decode_all-decode_chunks law p ne (c' ∷ cs) (after m p d here ne unfinished c)
            (coded enc d m.bytes c).state (update_at m.heap p _)
            (coded-unfinished enc law d m.bytes c unfinished ends.0) ends.1)
          (rw (update-update m.heap p _ _) refl))

  -- a whole use of a decoder
  unfoldable pub decoder_session : Ptr → List Chunk → Run w (List DecodeResult)
  decoder_session handle cs = do
    p ← encoding_decoder_new enc handle
    rs ← decode_all p cs
    encoding_decoder_free p
    pure rs

  pub free_lem :
      (m : Machine w) (p : Ptr) (d : w.Decoder)
      → p ≢ null
      → m.heap p ≡ some (decoder d)
      → encoding_decoder_free p m ≡ returned tt (record m { heap = update m.heap p none })
  unfolding encoding_decoder_free load_decoder free
  free_lem m p d ne here = rw (==_ne p null ne) (rw here)

  -- Given what encoding_rs documents, from the handle of an encoding, and where the next address is
  -- not null and not in use: `encoding_decoder_new`, calls of `encoding_decoder_decode` of which
  -- every one but the last says that more input follows, and `encoding_decoder_free` give the
  -- results and write the bytes of one decoder value that is passed from chunk to chunk, and leave
  -- the heap as it was; from then on `encoding_decoder_free` and `encoding_decoder_decode` on the
  -- pointer are undefined.
  pub decoder_life :
      Documented enc
      → (m : Machine w) (handle : Ptr) (e : enc.Encoding) (cs : List Chunk) (c : Chunk)
      → LastIsLast cs
      → handle ≢ null
      → enc.at_address handle ≡ some e
      → m.next ≢ null
      → m.heap m.next ≡ none
      → let decoded = decode_chunks enc (enc.new_decoder e) m.bytes cs in
        let m' = record m { bytes = decoded.1; next = suc m.next } in
        (decoder_session handle cs m ≡ returned decoded.2 m')
        × (encoding_decoder_free m.next m' ≡ undefined)
        × (encoding_decoder_decode enc m.next c.input c.input_len c.output c.output_len c.is_last m'
            ≡ undefined)
  unfolding decoder_session encoding_decoder_new encoding_decoder_free alloc load_decoder free
      encoding_decoder_decode
  decoder_life law m handle e cs c ends hn at nn unused =
      let d = enc.new_decoder e in
      let m1 = record m { heap = update m.heap m.next (some (decoder d)); next = suc m.next } in
      let left : List Chunk → Machine w = λ cs. record m1 {
        bytes = (decode_chunks enc d m.bytes cs).1;
        heap = update m1.heap m.next (some (decoder (decode_chunks enc d m.bytes cs).0));
      } in
      (
        rw (==_ne handle null hn) (
            rw (deref_lem enc m handle e at) (
              rw
                (decode_all-decode_chunks law m.next nn cs m1 d (update_at m.heap m.next _)
                  (law.finished-new_decoder e) ends)
                (rw
                  (free_lem (left cs) m.next (decode_chunks enc d m.bytes cs).0 nn
                    (update_at m1.heap m.next _))
                  (ap
                    (λ (g : Heap w). returned (decode_chunks enc d m.bytes cs).2 (record m {
                      bytes = (decode_chunks enc d m.bytes cs).1;
                      heap = g;
                      next = suc m.next;
                    }))
                    (update-update m1.heap m.next _ none
                      ∙ update-update m.heap m.next _ none
                      ∙ update_self m.heap m.next none unused))))),
        rw (==_ne m.next null nn) (rw unused),
        rw (==_ne m.next null nn, ==_ne c.output null c.output_ne_null) (rw unused),
      )
