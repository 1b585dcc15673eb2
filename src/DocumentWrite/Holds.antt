-- ===== src/DocumentWrite/Holds.antt =====
-- How a machine stands to the ideal document of browser/webapi/Document.zig between two calls: the
-- page is the ideal one, and the heap is the browser's own but for a parser that the document has.
use zenpanda.Prelude.{◌≤◌, ◌<◌, ◌≡◌, refl, ap, ◌∙◌, Option, none, some, ◌==◌, inl, inr, Bool-cases}
use zenpanda.Html5ever.{Ptr, Html5ever}
use zenpanda.Types.{Ref}
use zenpanda.Machine.{Heap, Machine, Outcome, returned, aborted}
use zenpanda.Document.{Callbacks}
use zenpanda.Embedder.{Dom, embedded, put}
use zenpanda.Embedder.Ideal.{Ideal}
use zenpanda.Embedder.Heaps.{unused_behind, behind_slot}
use zenpanda.Embedder.Documents.{Ready}
use zenpanda.Embedder.Streams.{Live, box}
use zenpanda.DocumentWrite.{Document, Reply}
use zenpanda.DocumentWrite.Ideal.{
  PageHooks, hooks, IdealDocument, Answer, answered, stopped, ideal_cleared,
}

module _ (dom : Dom) {P D : Type 0} (lib : Html5ever P) (self document : Ref) (cb : Callbacks)
    (h : Heap (embedded dom P D)) where
  -- no parser: the heap is the browser's, and can be allocated from
  pub record Idle (m : Machine (embedded dom P D)) (i : Ideal dom) : Type 0 where
    pub dom_eq : m.client.dom ≡ i.dom
    pub next_ref_eq : m.client.next_ref ≡ i.next_ref
    pub heap_eq : m.heap ≡ h
    pub fresh : (p : Ptr) → m.next ≤ p → h p ≡ none
    pub next_ne_null : 0 < m.next

  -- the parser of the document lives exactly where the ideal one has a state
  abbrev pub Stands : Machine (embedded dom P D) → Option Ptr → Option P → Ideal dom → Type 0
  Stands m none none i = Idle m i
  Stands m (some p) (some st) i = (h p ≡ none) × Live dom lib self document cb h p m st i
  Stands m none (some st) i = ⊥
  Stands m (some p) none i = ⊥

  module _ (page : PageHooks dom) where
    -- the outcome of a command with this reply
    pub record Replied (o : Outcome (Machine (embedded dom P D)) (Reply × Document)) (r : Reply)
        (e : IdealDocument dom document page lib) : Type 0 where
      pub pointer : Option Ptr
      pub machine' : Machine (embedded dom P D)
      pub equation :
          o ≡ returned (r, record { moment = e.moment; script_created_parser = pointer }) machine'
      pub stands : Stands machine' pointer e.parser e.ideal

    abbrev pub RepliesAsIdeal :
        Outcome (Machine (embedded dom P D)) (Reply × Document)
        → Option (Answer dom document page lib)
        → Type 0
    RepliesAsIdeal o none = Unit {0}
    RepliesAsIdeal o (some (answered r e)) = Replied o r e
    RepliesAsIdeal o (some stopped) = o ≡ aborted

    -- the machine with its client changed
    abbrev pub cleared : Machine (embedded dom P D) → Machine (embedded dom P D)
    cleared m = record m {
      client = (hooks dom document page).init ((hooks dom document page).clear m.client);
    }

    pub cleared-Ready :
        {m : Machine (embedded dom P D)} {i : Ideal dom}
        → Idle m i
        → Ready dom self document cb (cleared m) (ideal_cleared dom document page lib i)
    unfolding put
    cleared-Ready {m} idle = record {
      dom_eq = ap page.clear idle.dom_eq;
      next_ref_eq = idle.next_ref_eq;
      nodes =
          λ r. elim (Bool-cases (document == r)) [ inl e ↦ rw e (refl, refl) | inr e ↦ rw e tt ];
      fresh = λ p l. ap (λ g. g p) idle.heap_eq ∙ idle.fresh p l;
      next_ne_null = idle.next_ne_null;
    }

  -- a change of the page under a parser that lives
  pub Live-dom :
      (f : dom.State → dom.State) {p : Ptr} {m : Machine (embedded dom P D)} {st : P}
      {i : Ideal dom}
      → Live dom lib self document cb h p m st i
      → Live dom lib self document cb h p
          (record m { client = record m.client { dom = f m.client.dom } })
          st
          (record i { dom = f i.dom })
  Live-dom f live = record {
    arena' = live.arena';
    quirks = live.quirks;
    ne_null = live.ne_null;
    related = record {
      dom_eq = ap f live.related.dom_eq;
      next_ref_eq = live.related.next_ref_eq;
      nodes = live.related.nodes;
      owned = record {
        elements = live.related.owned.elements;
        at_arena = live.related.owned.at_arena;
        fresh = live.related.owned.fresh;
        next_ne_null = live.related.owned.next_ne_null;
        unlisted = live.related.owned.unlisted;
        rest = live.related.owned.rest;
      };
    };
  }

  -- what is left when the parser has been destroyed
  pub destroyed-Idle :
      {p : Ptr} {m : Machine (embedded dom P D)} {st : P} {i : Ideal dom}
      → h p ≡ none
      → Live dom lib self document cb h p m st i
      → Idle (record m { heap = h }) i
  destroyed-Idle {p} {m} {st} unused live = record {
    dom_eq = live.related.dom_eq;
    next_ref_eq = live.related.next_ref_eq;
    heap_eq = refl;
    fresh = λ q l.
        behind_slot h p (some (box dom lib self document cb h p live.arena' live.quirks st)) unused
          (unused_behind live.related.owned q l);
    next_ne_null = live.related.owned.next_ne_null;
  }

  pub Idle-dom :
      (f : dom.State → dom.State) {m : Machine (embedded dom P D)} {i : Ideal dom}
      → Idle m i
      → Idle
          (record m { client = record m.client { dom = f m.client.dom } })
          (record i { dom = f i.dom })
  Idle-dom f idle = record {
    dom_eq = ap f idle.dom_eq;
    next_ref_eq = idle.next_ref_eq;
    heap_eq = idle.heap_eq;
    fresh = idle.fresh;
    next_ne_null = idle.next_ne_null;
  }
