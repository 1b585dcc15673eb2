-- ===== src/Machine.antt =====
-- The machine that the C functions of html5ever/lib.rs run on: byte memory, the objects that the
-- Rust side owns, and the embedder's own state. Addresses of objects count up, so that one which
-- has been freed is not given out again and every later use of it is seen.
pub mod Slices
use zenpanda.Prelude.{ℕ, suc, List, [], ◌∷◌, Option, none, some, ◌==◌, if◌then◌else◌}
use zenpanda.Html5ever.{Ptr, null}
use zenpanda.Memory.{Bytes, read_slice, write_slice}
use zenpanda.Types.{CAttributeIterator, ElementData, StreamingParser}

-- The types that the crates and the embedder bring: an HTML parser without its sink, a decoder, and
-- the state of the code behind the callbacks.
pub record World : Type 1 where
  pub Parser : Type 0
  pub Decoder : Type 0
  pub Client : Type 0

pub data Object (w : World) : Type 0 where
  element_data : ElementData → Object w
  attribute_iterator : CAttributeIterator → Object w
  -- the elements that the arena owns, the latest first
  arena : List Ptr → Object w
  streaming_parser : StreamingParser w.Parser → Object w
  decoder : w.Decoder → Object w
  -- what stands at an address while a `&mut` to it is lent out
  borrowed : Object w

abbrev pub Heap : World → Type 0
Heap w = Ptr → Option (Object w)

pub record Machine (w : World) : Type 0 where
  pub bytes : Bytes
  pub heap : Heap w
  pub next : Ptr
  pub client : w.Client

-- How a piece of Rust code ends: it returns, it unwinds with a panic, the process is aborted, or
-- the behaviour is undefined.
pub data Outcome (M A : Type 0) : Type 0 where
  returned : A → M → Outcome M A
  panicked : M → Outcome M A
  aborted : Outcome M A
  undefined : Outcome M A

abbrev pub Run : World → Type 0 → Type 0
Run w A = Machine w → Outcome (Machine w) A

module _ {w : World} {A : Type 0} where
  abbrev pub pure : A → Run w A
  pure a m = returned a m

  abbrev pub panic : Run w A
  panic m = panicked m

  abbrev pub undefined_behaviour : Run w A
  undefined_behaviour m = undefined

  -- A panic does not unwind out of an `extern "C"` function: the process is aborted.
  abbrev pub abort_on_panic : Outcome (Machine w) A → Outcome (Machine w) A
  abort_on_panic (returned a m) = returned a m
  abort_on_panic (panicked m) = aborted
  abort_on_panic aborted = aborted
  abort_on_panic undefined = undefined

  abbrev pub extern_c : Run w A → Run w A
  extern_c r m = abort_on_panic (r m)

module _ {w : World} {A B : Type 0} where
  abbrev pub and_then : Outcome (Machine w) A → (A → Run w B) → Outcome (Machine w) B
  and_then (returned a m) k = k a m
  and_then (panicked m) k = panicked m
  and_then aborted k = aborted
  and_then undefined k = undefined

  infixl 5 ◌>>=◌ ◌>>◌
  abbrev pub ◌>>=◌ : Run w A → (A → Run w B) → Run w B
  ◌>>=◌ r k m = and_then (r m) k

  abbrev pub ◌>>◌ : Run w A → Run w B → Run w B
  ◌>>◌ r k m = and_then (r m) (λ _. k)

unfoldable pub update : {w : World} → Heap w → Ptr → Option (Object w) → Heap w
update h p o q = if p == q then o else h q

-- The heap less the objects at some addresses.
unfoldable pub without : {w : World} → Heap w → List Ptr → Heap w
unfolding update
without h [] = h
without h (p ∷ ps) = update (without h ps) p none

module _ {w : World} where
  -- `Box::new`, and the address of a local variable that a pointer is taken of
  unfoldable pub alloc : Object w → Run w Ptr
  unfolding update
  alloc o m = returned m.next (record m { heap = update m.heap m.next (some o); next = suc m.next })

  -- reads through a pointer to an object: of another type, or gone, is undefined behaviour
  abbrev as_element_data : Option (Object w) → Run w ElementData
  as_element_data (some (element_data d)) = pure d
  as_element_data _ = undefined_behaviour

  unfoldable pub load_element_data : Ptr → Run w ElementData
  load_element_data p m = as_element_data (m.heap p) m

  abbrev as_iterator : Option (Object w) → Run w CAttributeIterator
  as_iterator (some (attribute_iterator i)) = pure i
  as_iterator _ = undefined_behaviour

  unfoldable pub load_iterator : Ptr → Run w CAttributeIterator
  load_iterator p m = as_iterator (m.heap p) m

  abbrev as_arena : Option (Object w) → Run w (List Ptr)
  as_arena (some (arena ps)) = pure ps
  as_arena _ = undefined_behaviour

  unfoldable pub load_arena : Ptr → Run w (List Ptr)
  load_arena p m = as_arena (m.heap p) m

  abbrev as_parser : Option (Object w) → Run w (StreamingParser w.Parser)
  as_parser (some (streaming_parser s)) = pure s
  as_parser _ = undefined_behaviour

  unfoldable pub load_parser : Ptr → Run w (StreamingParser w.Parser)
  load_parser p m = as_parser (m.heap p) m

  abbrev as_decoder : Option (Object w) → Run w w.Decoder
  as_decoder (some (decoder d)) = pure d
  as_decoder _ = undefined_behaviour

  unfoldable pub load_decoder : Ptr → Run w w.Decoder
  load_decoder p m = as_decoder (m.heap p) m

  -- writes through a `&mut` that was made from a pointer already read
  unfoldable pub store_object : Ptr → Object w → Run w (Unit {0})
  unfolding update
  store_object p o m = returned tt (record m { heap = update m.heap p (some o) })

  -- the end of a value's life
  unfoldable pub free : Ptr → Run w (Unit {0})
  unfolding update
  free p m = returned tt (record m { heap = update m.heap p none })

  -- `arena.alloc(d)`
  unfoldable pub arena_alloc : Ptr → ElementData → Run w Ptr
  unfolding load_arena alloc store_object
  arena_alloc a d = do
    ps ← load_arena a
    p ← alloc (element_data d)
    store_object a (arena (p ∷ ps))
    pure p

  -- An arena is dropped with all that it owns.
  unfoldable pub drop_arena : Ptr → Run w (Unit {0})
  unfolding load_arena without
  drop_arena a = do
    ps ← load_arena a
    λ m. returned tt (record m { heap = without m.heap (a ∷ ps) })

  -- `std::slice::from_raw_parts(p, n)`
  unfoldable pub from_raw_parts : Ptr → ℕ → Run w (List ℕ)
  from_raw_parts p n m = if p == null then undefined else returned (read_slice m.bytes p n) m

  -- a store through the slice `from_raw_parts_mut(p, _)`
  unfoldable pub write_parts : Ptr → List ℕ → Run w (Unit {0})
  write_parts p vs m =
      if p == null then undefined else returned tt (record m { bytes = write_slice m.bytes p vs })
