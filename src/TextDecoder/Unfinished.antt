-- ===== src/TextDecoder/Unfinished.antt =====
-- No decoder that a TextDecoder of browser/webapi/encoding/TextDecoder.zig keeps has finished.
use zenpanda.Prelude.{
  ℕ, ◌≡◌, List, [], length, take, Option, none, some, Bool, true, false, not, ◌&&◌, ◌==◌,
  if◌then◌else◌,
}
use zenpanda.EncodingRs.{EncodingRs, Coded}
use zenpanda.Encoding.Bounds.{Documented}
use zenpanda.TextDecoder.{Decoded, text, type_error, out_of_memory, strip_bom}
use zenpanda.TextDecoder.Ideal.{
  IdealState, state_or_new, capacity, ideal_coded, ideal_with, ideal_last, ideal_end, ideal_decode,
  blank,
}

abbrev pub Unfinished : {D : Type 0} → EncodingRs D → Option D → Type 0
Unfinished enc none = Unit {0}
Unfinished enc (some d) = enc.finished d ≡ false

pub if_both :
    {A : Type 0} (Q : A → Type 0) (b : Bool) {x y : A} → Q x → Q y → Q (if b then x else y)
if_both Q true f g = f
if_both Q false f g = g

module _ {D : Type 0} (enc : EncodingRs D) (law : Documented enc) (fatal ignore_bom : Bool)
    (e : enc.Encoding) where
  After : Decoded × IdealState D → Type 0
  After rs = Unfinished enc rs.1.state

  none-After : (r : Decoded) (seen : Bool) → After (r, record { bom_seen = seen; state = none })
  unfolding After
  none-After r seen = tt

  some-After :
      (r : Decoded) (seen : Bool) (d : D)
      → enc.finished d ≡ false
      → After (r, record { bom_seen = seen; state = some d })
  unfolding After
  some-After r seen d u = u

  -- a text of the last piece leaves a decoder that is dropped
  AfterLast : Decoded × IdealState D → Type 0
  AfterLast (text t, s) = Unit {0}
  AfterLast (type_error, s) = Unfinished enc s.state
  AfterLast (out_of_memory, s) = Unfinished enc s.state

  text_AfterLast : (t : List ℕ) (s : IdealState D) → AfterLast (text t, s)
  unfolding AfterLast
  text_AfterLast t s = tt

  error_AfterLast : (seen : Bool) → AfterLast (type_error, record { bom_seen = seen; state = none })
  unfolding AfterLast
  error_AfterLast seen = tt

  memory_AfterLast :
      (seen : Bool) (d : D)
      → enc.finished d ≡ false
      → AfterLast (out_of_memory, record { bom_seen = seen; state = some d })
  unfolding AfterLast
  memory_AfterLast seen d u = u

  more_coded :
      (seen : Bool) (d d' : D) (errors : Bool) (t : List ℕ)
      → enc.finished d' ≡ false
      → After (ideal_coded enc fatal ignore_bom e seen (some d) d' errors t)
  more_coded seen d d' errors t u = if_both After (fatal && errors) (none-After type_error false) (
      if_both After (not seen && not ignore_bom) (some-After (text (strip_bom t)) true d' u)
        (some-After (text t) seen d' u))

  whole_coded :
      (seen : Bool) (d' : D) (errors : Bool) (t : List ℕ)
      → After (ideal_coded enc fatal ignore_bom e seen none d' errors t)
  whole_coded seen d' errors t = if_both After (fatal && errors) (none-After type_error false) (
      if_both After (not seen && not ignore_bom) (none-After (text (strip_bom t)) true)
        (none-After (text t) seen))

  last_coded :
      (seen : Bool) (d d' : D) (errors : Bool) (t : List ℕ)
      → AfterLast (ideal_coded enc fatal ignore_bom e seen (some d) d' errors t)
  last_coded seen d d' errors t = if_both AfterLast (fatal && errors) (error_AfterLast false) (
      if_both AfterLast (not seen && not ignore_bom)
        (text_AfterLast (strip_bom t) (record { bom_seen = true; state = some d' }))
        (text_AfterLast t (record { bom_seen = seen; state = some d' })))

  abbrev coded : Option D → List ℕ → Bool → Coded D
  coded q xs last =
      enc.decode_to_utf8 (state_or_new enc fatal ignore_bom e q) xs
        (blank (capacity enc fatal ignore_bom e (length xs))) last

  more_After :
      (memory seen : Bool) (d : D) (xs : List ℕ)
      → enc.finished d ≡ false
      → After (ideal_with enc fatal ignore_bom e memory seen (some d) xs false)
  more_After memory seen d xs u =
      let n = capacity enc fatal ignore_bom e (length xs) in
      let c = coded (some d) xs false in
      let same = some-After (text []) seen d u in
      if_both After (length xs == 0 && not false) same (
        if_both After (n == 0) same (
          if_both After memory
            (more_coded seen d c.state c.had_errors (take c.written c.output)
              (law.finished-decode_to_utf8 d xs (blank n) u))
            (some-After out_of_memory seen d u)))

  whole_After :
      (memory seen : Bool) (xs : List ℕ)
      → After (ideal_with enc fatal ignore_bom e memory seen none xs true)
  whole_After memory seen xs =
      let c = coded none xs true in
      if_both After (length xs == 0 && not true) (none-After (text []) seen) (
        if_both After (capacity enc fatal ignore_bom e (length xs) == 0) (none-After (text []) seen)
          (if_both After memory (whole_coded seen c.state c.had_errors (take c.written c.output))
            (none-After out_of_memory seen)))

  last_AfterLast :
      (memory seen : Bool) (d : D) (xs : List ℕ)
      → enc.finished d ≡ false
      → AfterLast (ideal_with enc fatal ignore_bom e memory seen (some d) xs true)
  last_AfterLast memory seen d xs u =
      let c = coded (some d) xs true in
      let same = text_AfterLast [] (record { bom_seen = seen; state = some d }) in
      if_both AfterLast (length xs == 0 && not true) same (
        if_both AfterLast (capacity enc fatal ignore_bom e (length xs) == 0) same (
          if_both AfterLast memory
            (last_coded seen d c.state c.had_errors (take c.written c.output))
            (memory_AfterLast seen d u)))

  ideal_last-After : (rs : Decoded × IdealState D) → AfterLast rs → After (ideal_last rs)
  unfolding After AfterLast
  ideal_last-After (text t, s) f = tt
  ideal_last-After (type_error, s) f = f
  ideal_last-After (out_of_memory, s) f = f

  pub state_or_new-Unfinished :
      (q : Option D)
      → Unfinished enc q
      → enc.finished (state_or_new enc fatal ignore_bom e q) ≡ false
  state_or_new-Unfinished none u = law.finished-new_decoder e
  state_or_new-Unfinished (some d) u = u

  end_After :
      (memory seen : Bool) (q : Option D) (xs : List ℕ)
      → Unfinished enc q
      → After (ideal_end enc fatal ignore_bom e memory seen q xs)
  end_After memory seen none xs u = whole_After memory seen xs
  end_After memory seen (some d) xs u =
      ideal_last-After (ideal_with enc fatal ignore_bom e memory seen (some d) xs true)
        (last_AfterLast memory seen d xs u)

  -- A call leaves no decoder that has finished.
  pub ideal_decode-Unfinished :
      (s : IdealState D) (xs : List ℕ) (stream memory : Bool)
      → Unfinished enc s.state
      → Unfinished enc (ideal_decode enc fatal ignore_bom e s xs stream memory).1.state
  unfolding ideal_decode After
  ideal_decode-Unfinished s xs stream memory u =
      if_both After stream
        (more_After memory s.bom_seen (state_or_new enc fatal ignore_bom e s.state) xs
          (state_or_new-Unfinished s.state u))
        (end_After memory s.bom_seen s.state xs u)
