-- ===== src/Client/Drain.antt =====
-- The loop over the attribute iterator.
use zenpanda.Prelude.{
  ℕ, zero, suc, ◌-◌, ◌≤◌, ◌<◌, ◌≡◌, refl, fun_ext, inl, inr, true, false, Option, none, some, List,
  map, length, get_elem?, get_elem?-none, ltb, ltb→lt, drop, drop-get_elem?, drop-length, arith,
  ◌==◌, Bool-cases,
}
use zenpanda.Html5ever.{Ptr, Attribute}
use zenpanda.Types.{CAttributeIterator, nullable_none, nullable_some, attribute_default}
use zenpanda.Machine.{
  World, Object, attribute_iterator, Heap, Machine, returned, aborted, update, load_iterator,
}
use zenpanda.Iterator.{
  attribute_create, html5ever_attribute_iterator_next, html5ever_attribute_iterator_count,
}
use zenpanda.Client.{collect, iterator_next}

abbrev pub at_pos : List Attribute → ℕ → CAttributeIterator
at_pos v n = record { vec = v; pos = n }

-- The machine with the iterator at `p` moved on to `n`.
abbrev pub moved : {w : World} → Machine w → Ptr → List Attribute → ℕ → Machine w
moved m p v n = record m { heap = update m.heap p (some (attribute_iterator (at_pos v n))) }

pub update_self :
    {w : World} (h : Heap w) (p : Ptr) (o : Option (Object w)) → h p ≡ o → update h p o ≡ h
unfolding update
update_self h p o e = fun_ext λ q. ground arith

pub update-update :
    {w : World} (h : Heap w) (p : Ptr) (o o' : Option (Object w))
    → update (update h p o) p o' ≡ update h p o'
unfolding update
update-update h p o o' = fun_ext λ q. ground arith

pub update_at : {w : World} (h : Heap w) (p : Ptr) (o : Option (Object w)) → update h p o p ≡ o
unfolding update
update_at h p o = ground arith

module _ {w : World} (m : Machine w) (p : Ptr) (v : List Attribute) (n : ℕ)
    (here : m.heap p ≡ some (attribute_iterator (at_pos v n))) where
  load_iterator_lem : load_iterator p m ≡ returned (at_pos v n) m
  unfolding load_iterator
  load_iterator_lem = rw (here, load_iterator)

  pub next-end : n ≡ length v → html5ever_attribute_iterator_next p m ≡ returned nullable_none m
  unfolding html5ever_attribute_iterator_next
  next-end e = let t : (n == length v) ≡ true = ground arith in rw load_iterator_lem (rw t)

  pub next-element :
      {a : Attribute}
      → get_elem? v n ≡ some a
      → n < length v
      → html5ever_attribute_iterator_next p m
        ≡ returned (nullable_some (attribute_create a)) (moved m p v (suc n))
  unfolding html5ever_attribute_iterator_next
  next-element e l =
      let f : (n == length v) ≡ false = ground arith in rw load_iterator_lem (rw (f, e))

  pub count_lem : html5ever_attribute_iterator_count p m ≡ returned (length v) m
  unfolding html5ever_attribute_iterator_count
  count_lem = rw load_iterator_lem

  -- Past the end the index is out of bounds, and the panic ends the process.
  pub next-past_end : length v < n → html5ever_attribute_iterator_next p m ≡ aborted
  unfolding html5ever_attribute_iterator_next
  next-past_end l =
      let f : (n == length v) ≡ false = ground arith in
      rw load_iterator_lem (rw (f, get_elem?-none v n (omega arith)))

  iterator_next-end : n ≡ length v → iterator_next p m ≡ returned none m
  unfolding iterator_next
  iterator_next-end e = rw (next-end e)

  iterator_next-element :
      {a : Attribute}
      → get_elem? v n ≡ some a
      → n < length v
      → iterator_next p m ≡ returned (some (attribute_create a)) (moved m p v (suc n))
  unfolding iterator_next
  iterator_next-element e l = rw (next-element e l)

module _ {w : World} (p : Ptr) (v : List Attribute) where
  -- Given one round more than there are attributes left, the loop sees them in order, each once,
  -- and leaves the iterator at its end and the rest of the machine as it was.
  pub collect_lem :
      (rounds n : ℕ) (m : Machine w)
      → m.heap p ≡ some (attribute_iterator (at_pos v n))
      → n ≤ length v
      → length v - n < rounds
      → collect rounds p m ≡ returned (map attribute_create (drop n v)) (moved m p v (length v))
  unfolding collect
  collect_lem zero n m here l fuel = absurd (omega arith)
  collect_lem (suc rounds) n m here l fuel = elim (Bool-cases (ltb n (length v))) [
    | inl more ↦
        let lt : n < length v = ltb→lt n (length v) more in
        let (a, at_n, front) = drop-get_elem? v n lt in
        rw (iterator_next-element m p v n here at_n lt) (
          rw
            (collect_lem rounds (suc n) (moved m p v (suc n))
              (update_at m.heap p (some (attribute_iterator (at_pos v (suc n))))) lt (omega arith))
            (rw (front, update-update) refl))
    | inr last ↦
        let e : n ≡ length v = ground arith in
        let same : update m.heap p (some (attribute_iterator (at_pos v (length v)))) ≡ m.heap =
          update_self m.heap p _ (rw e at here) in
        rw (iterator_next-end m p v n here e) (rw (e, drop-length v) (rw same))
  ]

-- The life of an iterator over attributes that nobody has moved:
-- `html5ever_attribute_iterator_count` says how many there are, one more round of `next` than that
-- sees all of them in order, `next` has no more from then on, and the count is unchanged.
pub drain_complete :
    {w : World} (m : Machine w) (p : Ptr) (v : List Attribute)
    → m.heap p ≡ some (attribute_iterator (at_pos v 0))
    → (c : ℕ) × (html5ever_attribute_iterator_count p m ≡ returned c m)
      × (collect (suc c) p m ≡ returned (map attribute_create v) (moved m p v c))
      × (html5ever_attribute_iterator_next p (moved m p v c)
          ≡ returned nullable_none (moved m p v c))
      × (html5ever_attribute_iterator_count p (moved m p v c) ≡ returned c (moved m p v c))
drain_complete m p v here =
    let c = length v in
    let end' : (moved m p v c).heap p ≡ some (attribute_iterator (at_pos v c)) =
      update_at m.heap p (some (attribute_iterator (at_pos v c))) in
    (
      c,
      count_lem m p v 0 here,
      collect_lem p v (suc c) 0 m here (omega arith) (omega arith),
      next-end (moved m p v c) p v c end' refl,
      count_lem (moved m p v c) p v c end',
    )
