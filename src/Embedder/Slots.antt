-- ===== src/Embedder/Slots.antt =====
-- An object that stands beside the arena of a run, such as the box of a streaming parser: it may be
-- replaced or freed while the run is kept apart from it.
use zenpanda.Prelude.{
  suc, ◌<◌, ◌≡◌, refl, sym, ap, ◌∙◌, List, [], ◌∷◌, Option, none, some, false, arith, ◌==◌, inl,
  inr, Bool-cases, ltb, ltb→lt, ==_iff, subst, ℕ,
}
use zenpanda.Html5ever.{Ptr}
use zenpanda.Types.{ElementData}
use zenpanda.Machine.{Object, World, element_data, Heap, Machine, update, without}
use zenpanda.Embedder.{Dom, embedded}
use zenpanda.Embedder.Ideal.{Ideal}
use zenpanda.Embedder.Related.{Owned, Related}
use zenpanda.Embedder.Heaps.{without-update_ne, arena_lt_next}
use zenpanda.Embedder.Growth.{SameNode-kept}

module _ {w : World} where
  -- What is not hidden by `without` is not on its list.
  without-some :
      (h g : Heap w) (ps : List Ptr) (p : Ptr) (x : Object w)
      → without h ps p ≡ some x
      → without g ps p ≡ g p
  unfolding without update
  without-some h g [] p x e = refl
  without-some h g (r ∷ ps) p x e = ground (arith, without-some h g ps p x)

  module _ (h : Heap w) (a p : Ptr) (x : Object w) {m : Machine w}
      (own : Owned (update h p (some x)) a m) where
    shown : without m.heap (a ∷ own.elements) p ≡ some x
    unfolding update
    shown = own.rest p ∙ ground arith

    pub at_p : m.heap p ≡ some x
    at_p = sym (without-some m.heap m.heap (a ∷ own.elements) p x shown) ∙ shown

    p_lt_next : p < m.next
    p_lt_next = elim (Bool-cases (ltb p m.next)) [
      | inl l ↦ ltb→lt p m.next l
      | inr g ↦ absurd (cc (at_p, own.fresh p (ground arith)))
    ]

    ne_arena : (p == a) ≡ false
    unfolding without update
    ne_arena = ground (arith, shown)

    not_listed : (g : Heap w) → without g (a ∷ own.elements) p ≡ g p
    not_listed g = without-some m.heap g (a ∷ own.elements) p x shown

    -- Another object, or none, at `p`.
    pub Owned-set :
        (y : Option (Object w)) → Owned (update h p y) a (record m { heap = update m.heap p y })
    unfolding update
    Owned-set y = record {
      elements = own.elements;
      at_arena = ground (arith, ne_arena, own.at_arena);
      fresh = λ q l. ground (arith, own.fresh q l, p_lt_next);
      next_ne_null = own.next_ne_null;
      unlisted = own.unlisted;
      rest = λ q. elim (Bool-cases (p == q)) [
        | inl e ↦
            let pq : p ≡ q = (==_iff p q).0 e in
            subst (λ (z : ℕ). without (update m.heap p y) (a ∷ own.elements) z ≡ update h p y z) pq
              (not_listed (update m.heap p y) ∙ ground arith)
        | inr e ↦ without-update_ne m.heap p q y (a ∷ own.elements) e ∙ own.rest q ∙ rw e
      ];
    }

module _ (dom : Dom) {P D : Type 0} (h : Heap (embedded dom P D)) (a p : Ptr)
    (x : Object (embedded dom P D)) {m : Machine (embedded dom P D)} {i : Ideal dom} where
  -- Nothing that leads to an element leads to `p`, so the nodes stand as before.
  pub Related-set :
      Related dom (update h p (some x)) a m i
      → ((e : ElementData) → x ≡ element_data e → ⊥)
      → (y : Option (Object (embedded dom P D)))
      → Related dom (update h p y) a (record m { heap = update m.heap p y }) i
  unfolding update
  Related-set rel other y = record {
    dom_eq = rel.dom_eq;
    next_ref_eq = rel.next_ref_eq;
    nodes = λ r.
        SameNode-kept m.heap (update m.heap p y) (m.client.nodes r) (i.nodes r)
          (λ d e z. elim (Bool-cases (p == d)) [
            | inl s ↦
                let there : m.heap p ≡ some x = at_p h a p x rel.owned in
                let pd : p ≡ d = (==_iff p d).0 s in absurd (other e (cc (there, z, ap m.heap pd)))
            | inr s ↦ rw s z
          ])
          (rel.nodes r);
    owned = Owned-set h a p x rel.owned y;
  }

  -- The box of a value that is made when a run has come so far.
  pub Related-box :
      Related dom h a m i
      → h m.next ≡ none
      → Related dom
          (update h m.next (some x))
          a
          (record m { heap = update m.heap m.next (some x); next = suc m.next })
          i
  unfolding update
  Related-box rel unused = record {
    dom_eq = rel.dom_eq;
    next_ref_eq = rel.next_ref_eq;
    nodes = λ r.
        SameNode-kept m.heap (update m.heap m.next (some x)) (m.client.nodes r) (i.nodes r)
          (λ d e z. ground (arith, rel.owned.fresh m.next (omega arith), z)) (rel.nodes r);
    owned = record {
      elements = rel.owned.elements;
      at_arena = ground (arith, arena_lt_next rel.owned, rel.owned.at_arena);
      fresh = λ q l. ground (arith, rel.owned.fresh q (omega arith));
      next_ne_null = omega arith;
      unlisted = λ g q l. rel.owned.unlisted g q (omega arith);
      rest = λ q. elim (Bool-cases (m.next == q)) [
        | inl e ↦
            let nq : m.next ≡ q = (==_iff m.next q).0 e in
            subst
              (λ (z : ℕ).
                without (update m.heap m.next (some x)) (a ∷ rel.owned.elements) z
                ≡ update h m.next (some x) z)
              nq
              (unfold without in
                ground (
                  arith,
                  arena_lt_next rel.owned,
                  rel.owned.unlisted (update m.heap m.next (some x)) m.next (omega arith),
                ))
        | inr e ↦
            without-update_ne m.heap m.next q (some x) (a ∷ rel.owned.elements) e
            ∙ rel.owned.rest q
            ∙ rw e
      ];
    };
  }
