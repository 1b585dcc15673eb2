-- ===== src/Embedder/Heaps.antt =====
-- The heap of a parser run: what an arena and a local iterator add to it and take away.
use zenpanda.Prelude.{
  suc, ◌<◌, ◌≤◌, ◌≡◌, ap, ◌∙◌, inl, inr, ltb, ltb→lt, Bool-cases, List, [], ◌∷◌, Option, none, some,
  arith, ◌==◌, false, ==_ne, ==_iff, subst,
}
use zenpanda.Html5ever.{Ptr}
use zenpanda.Types.{ElementData}
use zenpanda.Machine.{
  Object, World, element_data, arena, Heap, Machine, returned, without, update, arena_alloc,
  load_arena,
}
use zenpanda.Embedder.Related.{Owned}

module _ {w : World} where
  -- Elements stay where they are.
  abbrev pub Keeps : Heap w → Heap w → Type 0
  Keeps h h' =
      (d : Ptr) (e : ElementData) → h d ≡ some (element_data e) → h' d ≡ some (element_data e)

  pub without-update_ne :
      (h : Heap w) (p q : Ptr) (o : Option (Object w)) (ps : List Ptr)
      → (p == q) ≡ false
      → without (update h p o) ps q ≡ without h ps q
  unfolding without update
  without-update_ne h p q o [] ne = rw ne
  without-update_ne h p q o (r ∷ ps) ne = rw (without-update_ne h p q o ps ne)

  without-none : (h : Heap w) (q : Ptr) (ps : List Ptr) → h q ≡ none → without h ps q ≡ none
  unfolding without update
  without-none h q [] e = e
  without-none h q (r ∷ ps) e = ground (arith, without-none h q ps e)

  -- A new element behind the arena, hidden with it.
  without-alloc :
      (h : Heap w) (a n : Ptr) (e : Option (Object w)) (o : Option (Object w)) (ps : List Ptr)
      (q : Ptr)
      → h n ≡ none
      → without (update (update h n e) a o) (a ∷ n ∷ ps) q ≡ without h (a ∷ ps) q
  unfolding without update
  without-alloc h a n e o ps q free = ground (
    arith,
    without-none h q ps,
    without-update_ne (update h n e) a q o ps,
    without-update_ne h n q e ps,
  )

module _ {w : World} {h : Heap w} {a : Ptr} {m : Machine w} (own : Owned h a m) where
  open own use {elements, at_arena, fresh, unlisted, rest}

  -- The heap after `arena.alloc(e)`.
  abbrev pub heap_with : ElementData → Heap w
  heap_with e =
      update (update m.heap m.next (some (element_data e))) a (some (arena (m.next ∷ elements)))

  abbrev pub machine_with : ElementData → Machine w
  machine_with e = record m { heap = heap_with e; next = suc m.next }

  arena_ne_next : (a == m.next) ≡ false
  arena_ne_next = ==_ne a m.next λ e. cc (at_arena, fresh m.next (omega arith), ap m.heap e)

  unlisted-cons : (g : Heap w) (p : Ptr) → suc m.next ≤ p → without g (m.next ∷ elements) p ≡ g p
  unfolding without update
  unlisted-cons g p l = ground (arith, unlisted g p (omega arith))

  pub arena_lt_next : a < m.next
  arena_lt_next = elim (Bool-cases (ltb a m.next)) [
    | inl l ↦ ltb→lt a m.next l
    | inr g ↦ absurd (cc (at_arena, fresh a (ground arith)))
  ]

  module _ (e : ElementData) where
    pub arena_alloc_lem : arena_alloc a e m ≡ returned m.next (machine_with e)
    unfolding arena_alloc load_arena update
    arena_alloc_lem = rw (at_arena, load_arena)

    pub element_at : (machine_with e).heap m.next ≡ some (element_data e)
    unfolding update
    element_at = ground (arith, arena_ne_next)

    pub Keeps-alloc : Keeps m.heap (machine_with e).heap
    unfolding update
    Keeps-alloc d x p = ground (arith, at_arena, fresh m.next (omega arith), p)

    pub Owned-alloc : Owned h a (machine_with e)
    unfolding update
    Owned-alloc = record {
      elements = m.next ∷ elements;
      at_arena = ground arith;
      fresh = λ p l. ground (arith, fresh p (omega arith), arena_lt_next);
      next_ne_null = omega arith;
      unlisted = λ g p l. unlisted-cons g p l;
      rest = λ p.
          without-alloc m.heap a m.next (some (element_data e)) (some (arena (m.next ∷ elements)))
            elements p (fresh m.next (omega arith))
          ∙ rest p;
    }

module _ {w : World} where
  -- Where the parser can allocate, the caller's heap is not in use.
  pub unused_behind :
      {h : Heap w} {a : Ptr} {m : Machine w} → Owned h a m → (p : Ptr) → m.next ≤ p → h p ≡ none
  unfolding without update
  unused_behind {m} own p l = ground (arith, own.rest p, own.unlisted m.heap p l, own.fresh p l)

  -- What stands at an address that was empty hides no other.
  pub behind_slot :
      (h : Heap w) (p : Ptr) (o : Option (Object w)) {q : Ptr}
      → h p ≡ none
      → update h p o q ≡ none
      → h q ≡ none
  unfolding update
  behind_slot h p o {q} unused e = elim (Bool-cases (p == q)) [
    | inl z ↦ subst (λ x. h x ≡ none) ((==_iff p q).0 z) unused
    | inr z ↦ ground (arith, z, e)
  ]
