-- ===== src/Embedder/Calls.antt =====
-- What it means that a method of html5ever/sink.rs over the embedder does what the ideal call does.
pub mod Creations
pub mod Insertions
pub mod Queries
use zenpanda.Prelude.{
  ℕ, suc, ◌≡◌, refl, ap, inl, inr, List, map, Option, none, some, arith, ◌==◌, ==_refl,
}
use zenpanda.Html5ever.{
  Ptr, null, Str, QualName, Attribute, ElementFlags, NodeOrText, QuirksMode, Call, Reply,
}
use zenpanda.Types.{Ref, Sink, ElementData}
use zenpanda.Machine.{Heap, Machine, Outcome, returned}
use zenpanda.Sink.{dispatch}
use zenpanda.Document.{Callbacks, sink_new}
use zenpanda.Embedder.{Dom, Child, ParsedNode, ClientState, embedded, embedder, with_node, change}
use zenpanda.Embedder.Ideal.{IdealNode, Ideal, ideal_call, ideal_child}
use zenpanda.Embedder.Related.{HoldsCall, Owned, Related}
use zenpanda.Embedder.Answers.{at_code_same, with_node-some, node_cases, child_cases}

module _ (dom : Dom) {P D : Type 0} (self document : Ref) (cb : Callbacks)
    (h : Heap (embedded dom P D)) (a : Ptr) where
  -- The sink of a run: the one that the entry points make, in some quirks mode.
  abbrev pub sink_in : QuirksMode → Sink
  sink_in q = record (sink_new self document a cb) { quirks_mode = q }

  -- The method returns what the ideal call does, the two states stand as before, and the bytes in
  -- memory are the same.
  pub record Answered (q : QuirksMode) (m : Machine (embedded dom P D)) (c : Call) (r : Reply c)
      (i' : Ideal dom) : Type 0 where
    pub quirks' : QuirksMode
    pub machine' : Machine (embedded dom P D)
    pub equation :
        dispatch (embedder dom P D self cb) (sink_in q) c m ≡ returned (r, sink_in quirks') machine'
    pub related : Related dom h a machine' i'
    pub bytes : machine'.bytes ≡ m.bytes

  abbrev pub Answers :
      QuirksMode → Machine (embedded dom P D) → (c : Call) → Option (Reply c × Ideal dom) → Type 0
  Answers q m c none = Unit {0}
  Answers q m c (some (r, i')) = Answered q m c r i'
