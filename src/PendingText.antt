-- ===== src/PendingText.antt =====
-- The accumulation of text in browser/parser/Parser.zig: `appendTextChunk` and `flushPendingText`
-- over the text nodes and child lists that they touch. Allocations succeed.
pub mod Shown
pub mod Chunks
pub mod Runs
pub mod Callbacks
use zenpanda.Prelude.{
  ℕ, suc, List, [], ◌∷◌, ◌++◌, Option, none, some, Bool, true, false, ◌&&◌, ◌==◌, if◌then◌else◌,
}

-- A child: a text node, or one of another kind.
pub data Kid : Type 0 where
  text_kid : ℕ → Kid
  other_kid : ℕ → Kid

pub record Pending : Type 0 where
  pub parent : ℕ
  pub text_node : ℕ

-- `data'` is the `_data` of each text node, and `next` the node that is created next.
pub record State : Type 0 where
  pub data' : ℕ → List ℕ
  pub children : ℕ → List Kid
  pub next : ℕ
  pub pending_text : Option Pending
  pub buf : List ℕ

unfoldable pub set {ℓ} : {A : Type ℓ} → (ℕ → A) → ℕ → A → ℕ → A
set f k a q = if k == q then a else f q

unfoldable pub last_child : List Kid → Option Kid
last_child [] = none
last_child (k ∷ []) = some k
last_child (k ∷ k' ∷ ks) = last_child (k' ∷ ks)

abbrev pub is_text : Option Kid → ℕ → Bool
is_text (some (text_kid t)) n = t == n
is_text (some (other_kid t)) n = false
is_text none n = false

abbrev commit : State → ℕ → List ℕ → State
commit s t [] = record s { pending_text = none }
commit s t (b ∷ bs) = record s { pending_text = none; data' = set s.data' t (b ∷ bs); buf = [] }

abbrev flush_at : State → Option Pending → State
flush_at s none = s
flush_at s (some pt) = commit s pt.text_node s.buf

unfoldable pub flush_pending_text : State → State
unfolding set
flush_pending_text s = flush_at s s.pending_text

abbrev pub run_behind : State → ℕ → List ℕ → Option Kid → State
run_behind s parent txt (some (text_kid t)) = record s {
  buf = s.buf ++ (s.data' t ++ txt);
  pending_text = some (record { parent = parent; text_node = t });
}
run_behind s parent txt _ = record s {
  data' = set s.data' s.next txt;
  children = set s.children parent (s.children parent ++ (text_kid s.next ∷ []));
  next = suc s.next;
  pending_text = some (record { parent = parent; text_node = s.next });
}

-- from the look at the last child on
unfoldable pub fresh_run : State → ℕ → List ℕ → State
unfolding set
fresh_run s parent txt = run_behind s parent txt (last_child (s.children parent))

-- the text of the run so far, from the node where the buffer is empty
abbrev pub seeded : List ℕ → List ℕ → List ℕ
seeded existing [] = existing
seeded existing (b ∷ bs) = b ∷ bs

abbrev chunk_at : State → ℕ → List ℕ → Option Pending → State
chunk_at s parent txt none = fresh_run s parent txt
chunk_at s parent txt (some pt) =
    if pt.parent == parent && is_text (last_child (s.children parent)) pt.text_node
    then record s { buf = seeded (s.data' pt.text_node) s.buf ++ txt }
    else fresh_run (flush_pending_text s) parent txt

unfoldable pub append_text_chunk : State → ℕ → List ℕ → State
append_text_chunk s parent txt = chunk_at s parent txt s.pending_text
